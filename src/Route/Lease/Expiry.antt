-- ===== src/Route/Lease/Expiry.antt =====
-- src/route.rs: one round of the lease loop.
use owlpost.Prelude.{
  ℕ, String, ◌≡◌, ◌≢◌, ◌⊎◌, inl, inr, refl, sym, ap, ◌∙◌, Bool, true, false, not, Option, none,
  some, List, if◌then◌else◌, eq_of_some-eq,
}
use owlpost.Prelude.Results.{Result, ok, err}
use owlpost.Record.{Record, inbox}
use owlpost.Error.{Error}
use owlpost.Config.{Config}
use owlpost.Envelope.{Payload}
use owlpost.External.{External}
use owlpost.Spool.{get}
use owlpost.Spool.Files.{Codec, Disk}
use owlpost.Route.{Routing, Routes, Outside, load_routing, or_default}
use owlpost.Prelude.Assoc.{find_key}
use owlpost.Route.Sessions.{contains, remove_wake}
use owlpost.Route.Wakes.{route, checkout_of, project_of}
use owlpost.Route.Wakes.Routed.{Outcome, route-Outcome}
use owlpost.Route.Lease.{lease_one, lease_found, lease_payload, take_down, is_due}
use owlpost.Route.Fair.{Fair, remove_wake-routings, remove_wake-Fair}

clash : {b : Bool} → b ≡ true → not b ≡ true → ⊥
clash h k = cc

module _ (o : Outside) (checkout : Option String) (id old : String) (rec : Record)
    (payload : Payload) (s : Routes) (fair : Fair s)
    (held : (load_routing id s).current ≡ some old) where
  outcome-elsewhere :
      (r : Result Error (Option String) × Routes)
      → Outcome o checkout id rec payload s r
      → ((e : Error) × (r.0 ≡ err e)) ⊎ ((load_routing id r.1).current ≢ some old)
  outcome-elsewhere (err e, s') out = inl (e, refl)
  outcome-elsewhere (ok none, s') out = inr (λ h. cc (sym out.nowhere ∙ h))
  outcome-elsewhere (ok (some sid), s') out = inr λ h.
      let same : sid ≡ old =
        eq_of_some-eq (sym (ap (λ (r : Routing). r.current) out.routing) ∙ h) in
      let untried =
        ap (λ x. not (contains x (load_routing id s).tried)) (sym (out.is_target ∙ same))
        ∙ out.untried in
      clash ((fair id).offered old held) untried

module _ {B : Type 0} ⦃e : External⦄ ⦃c : Codec B⦄ (o : Outside) (config : Config) (d : Disk B)
    (lease_secs : ℕ) (live : List String) (id old : String) (rec : Record) (payload : Payload)
    (s : Routes) where
  lease_one-due :
      get inbox id d ≡ ok (some rec)
      → rec.seen ≡ false
      → e.parse_payload rec.raw ≡ some payload
      → (load_routing id s).current ≡ some old
      → is_due o lease_secs live (load_routing id s) ≡ true
      → lease_one o config d lease_secs live id s ≡ (route o config id d (remove_wake old id s)).1
  unfolding lease_one
  lease_one-due there unseen parsed held due =
      ap (λ r. lease_found o config d lease_secs live id r s) there
      ∙ ap
          (λ (b : Bool).
            if b
            then s
            else lease_payload o config d lease_secs live id (e.parse_payload rec.raw) s)
          unseen
      ∙ ap (λ p. lease_payload o config d lease_secs live id p s) parsed
      ∙ ap
          (λ (b : Bool).
            if b then (route o config id d (take_down id (load_routing id s).current s)).1 else s)
          due
      ∙ ap (λ x. (route o config id d (take_down id x s)).1) held

  read_routing : (load_routing id (remove_wake old id s)) ≡ load_routing id s
  unfolding load_routing
  read_routing = ap (λ m. or_default (find_key id m)) (remove_wake-routings old id s)

  -- One round of the lease loop, on an unseen record in the inbox whose payload parses and whose session
  -- is no longer live or has held it for longer than the lease: unless `route` fails, the record is
  -- not with that session any more. That no session stands
  -- twice among those that a record was offered to, and that the one that holds it is among them, are
  -- hypotheses.
  pub lease_one-moves_on :
      Fair s
      → get inbox id d ≡ ok (some rec)
      → rec.seen ≡ false
      → e.parse_payload rec.raw ≡ some payload
      → (load_routing id s).current ≡ some old
      → is_due o lease_secs live (load_routing id s) ≡ true
      → ((x : Error) × ((route o config id d (remove_wake old id s)).0 ≡ err x))
        ⊎ ((load_routing id (lease_one o config d lease_secs live id s)).current ≢ some old)
  lease_one-moves_on fair there unseen parsed held due =
      let s1 = remove_wake old id s in
      let out =
        outcome-elsewhere o (checkout_of o config (project_of d payload)) id old rec payload s1
          (remove_wake-Fair old id s fair) (ap (λ (r : Routing). r.current) read_routing ∙ held)
          (route o config id d s1) (route-Outcome o config id d s1 rec payload there parsed) in
      elim out [
        | inl failed ↦ inl failed
        | inr moved ↦ inr (λ h. moved (
            ap (λ (x : Routes). (load_routing id x).current)
              (sym (lease_one-due there unseen parsed held due))
            ∙ h))
      ]
