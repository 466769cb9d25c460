-- ===== src/Route/Fair.antt =====
-- src/route.rs: the sessions that a record was offered to, through the operations on one routing.
use owlpost.Prelude.{
  String, String_discrete, ◌≡◌, refl, sym, ap, subst, ◌∙◌, Bool, true, false, Option, none, some,
  List, [], ◌∷◌, ◌++◌, ◌==◌, eq_iff, if◌then◌else◌, arith, eq_of_some-eq,
}
use owlpost.Prelude.Assoc.{find_key, set_key, delete_key, find-delete, keys}
use owlpost.Prelude.Results.{ok_or}
use owlpost.Prelude.Exec.{continue-state}
use owlpost.Record.{Record, inbox}
use owlpost.Error.{bad_payload}
use owlpost.Config.{Config}
use owlpost.Envelope.{Payload}
use owlpost.External.{External}
use owlpost.Spool.{get}
use owlpost.Spool.Files.{Codec, Disk}
use owlpost.Route.{Marker, Routing, Routes, Outside, load_routing, or_default, no_routing}
use owlpost.Route.Sessions.{
  contains, write_wake, save_routing, remove_wake, remove_wakes, remove_routing, release,
  write_marker, remove_session, remove_dir,
}
use owlpost.Route.Saved.{load-saved, load-saved_ne}
use owlpost.Route.Wakes.{
  routed_to, unrouted, is_idle, wake, wake_first, no_target, route_found, route, wake_content,
}

abbrev pub Distinct : List String → Type 0
Distinct [] = Unit
Distinct (x ∷ xs) = (contains x xs ≡ false) × Distinct xs

-- The session that holds a record is the one that it was offered to, and none was offered it twice.
pub record IsFair (r : Routing) : Type 0 where
  pub once : Distinct r.tried
  pub offered : (sid : String) → r.current ≡ some sid → contains sid r.tried ≡ true

abbrev pub Fair : Routes → Type 0
Fair s = (id : String) → IsFair (load_routing id s)

contains-append :
    (x y : String) (xs : List String)
    → contains x (xs ++ y ∷ []) ≡ (if contains x xs then true else y == x)
contains-append x y [] = ground arith
contains-append x y (z ∷ xs) = ground (arith, contains-append x y xs)

Distinct-append :
    (sid : String) (xs : List String)
    → Distinct xs
    → contains sid xs ≡ false
    → Distinct (xs ++ sid ∷ [])
Distinct-append sid [] h k = (refl, tt)
Distinct-append sid (x ∷ xs) h k = (
  ground (arith, contains-append x sid xs, eq_iff x sid, eq_iff sid x),
  Distinct-append sid xs h.1 (ground arith),
)

offered_once :
    (sid : String) (xs : List String) (b : Bool)
    → contains sid xs ≡ b
    → Distinct xs
    → Distinct (if b then xs else xs ++ sid ∷ [])
      × (contains sid (if b then xs else xs ++ sid ∷ []) ≡ true)
offered_once sid xs true e h = (h, e)
offered_once sid xs false e h =
    (Distinct-append sid xs h e, ground (arith, contains-append sid sid xs, eq_iff sid sid))

pub no_routing-IsFair : IsFair no_routing
no_routing-IsFair = record { once = tt; offered = λ sid e. cc }

routed_to-IsFair :
    (o : Outside) (sid : String) (r : Routing) → IsFair r → IsFair (routed_to o sid r)
routed_to-IsFair o sid r f =
    let (once, offered) = offered_once sid r.tried (contains sid r.tried) refl f.once in
    record {
      once = once;
      offered =
          λ x e. ap (λ y. contains y (routed_to o sid r).tried) (sym (eq_of_some-eq e)) ∙ offered;
    }

unrouted-IsFair : (r : Routing) → IsFair r → IsFair (unrouted r)
unrouted-IsFair r f = record { once = f.once; offered = λ sid e. cc }

-- A step that leaves the routings alone keeps this.
pub same-Fair : (s s' : Routes) → s'.routings ≡ s.routings → Fair s → Fair s'
unfolding load_routing
same-Fair s s' e f id = subst (λ m. IsFair (or_default (find_key id m))) (sym e) (f id)

saved-Fair :
    (id : String) (r : Routing) (s : Routes)
    → IsFair r
    → Fair s
    → Fair (record s { routings = set_key id (some r) s.routings })
saved-Fair id r s h f other = elim (String_discrete id other) [
  | yes e ↦
      subst (λ k. IsFair (load_routing k (record s { routings = set_key id (some r) s.routings })))
        e (subst IsFair (sym (load-saved id r s)) h)
  | no apart ↦ subst IsFair (sym (load-saved_ne id other r s apart)) (f other)
]

if_Fair :
    {A : Type 0} (b : Bool) (x y : A × Routes) → Fair x.1 → Fair y.1 → Fair (if b then x else y).1
if_Fair true x y hx hy = hx
if_Fair false x y hx hy = hy

pub choose-Fair : (b : Bool) (x y : Routes) → Fair x → Fair y → Fair (if b then x else y)
choose-Fair true x y hx hy = hx
choose-Fair false x y hx hy = hy

save-Fair :
    (id : String) (r : Routing) (s : Routes) → IsFair r → Fair s → Fair (save_routing id r s).1
unfolding save_routing
save-Fair id r s h f = if_Fair (s.faults.save id) _ _ f (saved-Fair id r s h f)

deleted-IsFair :
    (b : Bool) (x : Option (Option Routing))
    → IsFair (or_default x)
    → IsFair (or_default (if b then none else x))
deleted-IsFair true x h = no_routing-IsFair
deleted-IsFair false x h = h

deleted-Fair :
    (id : String) (s : Routes) → Fair s → Fair (record s { routings = delete_key id s.routings })
unfolding load_routing
deleted-Fair id s f other =
    subst (λ x. IsFair (or_default x)) (sym (find-delete id other s.routings))
      (deleted-IsFair (id == other) (find_key other s.routings) (f other))

remove_routing-Fair : (id : String) (s : Routes) → Fair s → Fair (remove_routing id s)
unfolding remove_routing
remove_routing-Fair id s f = choose-Fair (s.faults.forget id) s _ f (deleted-Fair id s f)

pub remove_wake-routings :
    (sid id : String) (s : Routes) → (remove_wake sid id s).routings ≡ s.routings
unfolding remove_wake
remove_wake-routings sid id s = ground arith

write_wake-routings :
    (sid id content : String) (s : Routes) → (write_wake sid id content s).1.routings ≡ s.routings
unfolding write_wake
write_wake-routings sid id content s = ground arith

pub write_marker-routings : (m : Marker) (s : Routes) → (write_marker m s).1.routings ≡ s.routings
unfolding write_marker
write_marker-routings m s = ground arith

pub remove_session-routings :
    (sid : String) (s : Routes) → (remove_session sid s).routings ≡ s.routings
unfolding remove_session
remove_session-routings sid s = ground arith

-- The operations that write no routing.
write_wake-Fair :
    (sid id content : String) (s : Routes) → Fair s → Fair (write_wake sid id content s).1
write_wake-Fair sid id content s = same-Fair s _ (write_wake-routings sid id content s)

pub remove_wake-Fair : (sid id : String) (s : Routes) → Fair s → Fair (remove_wake sid id s)
remove_wake-Fair sid id s = same-Fair s _ (remove_wake-routings sid id s)

remove_wakes-Fair :
    (id : String) (sids : List String) (s : Routes) → Fair s → Fair (remove_wakes id sids s)
remove_wakes-Fair id [] s f = f
remove_wakes-Fair id (sid ∷ sids) s f =
    remove_wakes-Fair id sids (remove_wake sid id s) (remove_wake-Fair sid id s f)

pub release-Fair : (id : String) (s : Routes) → Fair s → Fair (release id s)
unfolding release
release-Fair id s f =
    remove_routing-Fair id _
      (choose-Fair s.faults.list_sessions s _ f (remove_wakes-Fair id (keys s.sessions) s f))

pub saved_to-Fair :
    (o : Outside) (sid id : String) (s : Routes)
    → Fair s
    → Fair (save_routing id (routed_to o sid (load_routing id s)) s).1
saved_to-Fair o sid id s f = save-Fair id _ s (routed_to-IsFair o sid (load_routing id s) (f id)) f

pub saved_none-Fair :
    (id : String) (s : Routes) → Fair s → Fair (save_routing id (unrouted (load_routing id s)) s).1
saved_none-Fair id s f = save-Fair id _ s (unrouted-IsFair (load_routing id s) (f id)) f

no_target-Fair : (id : String) (s : Routes) → Fair s → Fair (no_target id (load_routing id s) s).1
no_target-Fair id s f = if_Fair (is_idle (load_routing id s)) _ _ f (
    continue-state Fair (save_routing id (unrouted (load_routing id s)) s) _
      (saved_none-Fair id s f) (λ _ _. saved_none-Fair id s f))

wake-Fair :
    (o : Outside) (id : String) (rec : Record) (payload : Payload) (target : Marker) (s : Routes)
    → Fair s
    → Fair (wake o id rec payload (load_routing id s) target s).1
unfolding wake
wake-Fair o id rec payload target s f =
    continue-state Fair (wake_content o rec payload, s) _ f
      (λ content _.
        let s2 = (write_wake target.session_id id content s).1 in
        let f2 = write_wake-Fair target.session_id id content s f in
        let f3 =
          save-Fair id _ s2 (routed_to-IsFair o target.session_id (load_routing id s) (f id)) f2 in
        continue-state Fair (write_wake target.session_id id content s) _ f2 (λ _ _.
          continue-state Fair
            (save_routing id (routed_to o target.session_id (load_routing id s)) s2) _ f3
            (λ _ _. f3)))

wake_first-Fair :
    (o : Outside) (id : String) (rec : Record) (payload : Payload) (found : Option Marker)
    (s : Routes)
    → Fair s
    → Fair (wake_first o id rec payload (load_routing id s) found s).1
wake_first-Fair o id rec payload none s f = no_target-Fair id s f
wake_first-Fair o id rec payload (some target) s f = wake-Fair o id rec payload target s f

module _ {B : Type 0} ⦃e : External⦄ ⦃c : Codec B⦄ (o : Outside) (config : Config) (id : String)
    (d : Disk B) where
  route_found-Fair :
      (found : Option Record) (s : Routes) → Fair s → Fair (route_found o config id d found s).1
  route_found-Fair none s f = release-Fair id s f
  route_found-Fair (some rec) s f =
      continue-state Fair (ok_or (e.parse_payload rec.raw) (bad_payload id), s) _ f
        (λ payload _. wake_first-Fair o id rec payload _ s f)

  pub route-Fair : (s : Routes) → Fair s → Fair (route o config id d s).1
  unfolding route
  route-Fair s f =
      continue-state Fair (get inbox id d, s) _ f (λ found _. route_found-Fair found s f)

pub remove_dir-routings : (sid : String) (s : Routes) → (remove_dir sid s).routings ≡ s.routings
remove_dir-routings sid s = ground arith
