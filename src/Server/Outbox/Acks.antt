-- ===== src/Server/Outbox/Acks.antt =====
-- src/server.rs: whose replies the outbox shows, and what an acknowledgement does.
use owlpost.Prelude.{
  String, ◌≡◌, ◌≢◌, refl, sym, ap, subst, ◌∙◌, Bool, true, false, Option, none, some, List, [], ◌∷◌,
  All, keep, map, eq_iff, Bool-cases, inl, inr, if◌then◌else◌,
}
use owlpost.Prelude.Results.{Result, ok, err, >>=-eq-ok, ok-injective}
use owlpost.Prelude.Exec.{continue-ok, continue-err}
use owlpost.Record.{Record, outbox, done}
use owlpost.Error.{Error}
use owlpost.External.{External}
use owlpost.Spool.{Entry, get, list_lenient, set_state}
use owlpost.Spool.Listing.{IsStored, list_lenient-IsStored}
use owlpost.Spool.Files.{Codec, Disk}
use owlpost.Answer.{is_text}
use owlpost.Spool.Changes.{Readable, move_and_update}
use owlpost.Spool.Names.{FilePath, record_path}
use owlpost.Server.Post.Refusals.{stored-err}
use owlpost.Server.Api.{ApiError, not_found, require_peer}
use owlpost.Server.Post.Handler.{stored}
use owlpost.Server.Outbox.{
  payload_to, item, for_caller, acknowledged, may_ack, get_outbox, ack_outbox, move_and_mark,
}

is_text-eq : (s : String) (o : Option String) → is_text s o ≡ true → o ≡ some s
is_text-eq s none h = cc
is_text-eq s (some t) h = ap some ((eq_iff t s).0 h)

module _ {B : Type 0} ⦃e : External⦄ ⦃c : Codec B⦄ (caller : String) (d : Disk B) where
  -- An item of the listing is a reply in the outbox that is addressed to the caller.
  pub record IsOwn (shown : String × String) : Type 0 where
    pub id : String
    pub rec : Record
    pub stored_reply : get outbox id d ≡ ok (some rec)
    pub addressed : payload_to rec ≡ some caller
    pub same : shown ≡ (rec.raw, rec.sig)

  keep-IsOwn :
      (l : List Entry)
      → All (IsStored outbox d) l
      → All IsOwn (map item (keep (for_caller caller) l))
  keep-IsOwn [] h = tt
  keep-IsOwn (entry ∷ l) (stored_entry, h) = elim (Bool-cases (for_caller caller entry)) [
    | inl own ↦ rw own (
        (
          record {
            id = entry.0;
            rec = entry.1;
            stored_reply = stored_entry;
            addressed = is_text-eq caller (payload_to entry.1) own;
            same = refl;
          },
          keep-IsOwn l h,
        ))
    | inr foreign ↦ rw foreign (keep-IsOwn l h)
  ]

stored-eq-ok : {A : Type 0} (r : Result Error A) (a : A) → stored r ≡ ok a → r ≡ ok a
stored-eq-ok (ok x) a h = ap ok (ok-injective h)
stored-eq-ok (err x) a h = cc

module _ {B : Type 0} ⦃e : External⦄ ⦃c : Codec B⦄ (caller : String) (d : Disk B) where
  -- The outbox shows a caller replies that are addressed to it, and no others.
  pub get_outbox-IsOwn :
      (items : List (String × String))
      → get_outbox (some caller) d ≡ ok items
      → All (IsOwn caller d) items
  unfolding get_outbox require_peer
  get_outbox-IsOwn items h =
      let (entries, listed, same) = >>=-eq-ok (stored (list_lenient outbox d)) _ h in
      subst (All (IsOwn caller d)) (ok-injective same) (
        keep-IsOwn caller d entries (
          list_lenient-IsStored outbox d entries
            (stored-eq-ok (list_lenient outbox d) entries listed)))

not_found-err : {A : Type 0} (a : A) → ◌≡◌ {A = Result ApiError A} (err not_found) (ok a) → ⊥
not_found-err a h = cc

acknowledged-ok :
    ⦃e : External⦄ (caller : String) (found : Result Error (Option Record)) (rec : Record)
    → acknowledged caller found ≡ ok rec
    → (found ≡ ok (some rec)) × (payload_to rec ≡ some caller)
acknowledged-ok caller (ok none) rec h = absurd (not_found-err rec h)
acknowledged-ok caller (err x) rec h = absurd (not_found-err rec h)
acknowledged-ok caller (ok (some r)) rec h = elim (Bool-cases (is_text caller (payload_to r))) [
  | inl own ↦
      let same : r ≡ rec = ok-injective (rw own at h) in
      (ap (λ x. ok (some x)) same, ap payload_to (sym same) ∙ is_text-eq caller (payload_to r) own)
  | inr foreign ↦ absurd (not_found-err rec (rw foreign at h))
]

-- The record of the outbox that a successful acknowledgement was about.
pub record Acked ⦃e : External⦄ {B : Type 0} ⦃c : Codec B⦄ (caller id : String) (d d' : Disk B)
    : Type 0 where
  pub rec : Record
  pub reply : get outbox id d ≡ ok (some rec)
  pub addressed : payload_to rec ≡ some caller
  pub gone : get outbox id d' ≡ ok none
  pub finished : get done id d' ≡ ok (some (record rec { state = "acked" }))

outbox-done : outbox ≢ done
outbox-done e = cc

outbox-ne-done : (id : String) → record_path outbox id ≢ record_path done id
outbox-ne-done id e = outbox-done (ap (λ (p : FilePath). p.dir) e)

if_refused-ok :
    {A : Type 0} (t : Bool) (r : Result ApiError A) (a : A)
    → (if t then err not_found else r) ≡ ok a
    → r ≡ ok a
if_refused-ok true r a h = absurd (not_found-err a h)
if_refused-ok false r a h = h

may_ack-acknowledged :
    {B : Type 0} ⦃e : External⦄ ⦃c : Codec B⦄ (caller id : String) (d : Disk B) (rec : Record)
    → may_ack (some caller) id d ≡ ok rec
    → acknowledged caller (get outbox id d) ≡ ok rec
unfolding may_ack require_peer
may_ack-acknowledged caller id d rec = if_refused-ok _ _ rec

module _ {B : Type 0} ⦃e : External⦄ ⦃c : Codec B⦄ (caller id : String) (d : Disk B) where
  -- An acknowledgement that is refused with another status than 500 touches no file.
  pub ack_outbox-refused :
      (a : ApiError)
      → (ack_outbox (some caller) id d).0 ≡ err a
      → a.status ≢ 500
      → (ack_outbox (some caller) id d).1 ≡ d
  unfolding ack_outbox
  ack_outbox-refused a h other = elim (continue-err (may_ack (some caller) id d, d) _ h) [
    | inl (_, same) ↦ same
    | inr (rec, _, same) ↦ absurd (
        other (
          stored-err (move_and_mark id d).0 a
            (ap (λ (p : Result ApiError (Unit {0}) × Disk B). p.0) (sym same) ∙ h)))
  ]

  -- A successful acknowledgement was of a reply in the outbox that is addressed to the caller; the
  -- reply is gone from the outbox and stands in `done` with the state `acked`. That serde_json reads
  -- back the record that it wrote and that no read fails are hypotheses.
  pub ack_outbox-Acked :
      ((r : Record) → c.from_slice (c.to_vec_pretty r) ≡ some r)
      → Readable d
      → (u : Unit {0}) → (ack_outbox (some caller) id d).0 ≡ ok u
      → Acked caller id d (ack_outbox (some caller) id d).1
  unfolding ack_outbox set_state
  ack_outbox-Acked reads readable u h =
      let (rec, may, same) = continue-ok (may_ack (some caller) id d, d) _ h in
      let (reply, addressed) =
        acknowledged-ok caller (get outbox id d) rec (may_ack-acknowledged caller id d rec may) in
      let marked =
        stored-eq-ok (move_and_mark id d).0 u
          (ap (λ (p : Result ApiError (Unit {0}) × Disk B). p.0) (sym same) ∙ h) in
      let (gone, finished) =
        move_and_update outbox id done (λ r. record r { state = "acked" }) d rec u
          (outbox-ne-done id) reads readable reply marked in
      rw same (record {
        rec = rec;
        reply = reply;
        addressed = addressed;
        gone = gone;
        finished = finished;
      })
