-- ===== src/Cli/Consent.antt =====
-- src/cli/allow.rs and src/cli/deny.rs: a decision on one peer does not touch another peer's records.
use owlpost.Prelude.{
  String, ◌≡◌, ◌≢◌, refl, sym, ap, ◌∙◌, Bool, true, false, not, Option, some, List, [], ◌∷◌, All,
  eq_iff, eq_of_some-eq, ◌==◌,
}
use owlpost.Prelude.Results.{Result, ok, ok-injective}
use owlpost.Prelude.Exec.{continue-state, if_state}
use owlpost.Json.{str, obj, insert, empty}
use owlpost.Events.{push}
use owlpost.Record.{Record, Dir, inbox}
use owlpost.Envelope.{Payload}
use owlpost.Error.{Error}
use owlpost.External.{External}
use owlpost.Spool.{Entry, get, list, update, set_state_with_event}
use owlpost.Spool.Names.{record_path}
use owlpost.Spool.Files.{Codec, Disk}
use owlpost.Spool.Listing.{IsListed, list-IsListed}
use owlpost.Spool.Changes.{get-update_ne, get-same_path}
use owlpost.Answer.{payload_of, payload_of-ok}
use owlpost.Cli.{is_held, release_one, release_all, release}

pub of_not : {b : Bool} → not b ≡ false → b ≡ true
of_not {b = true} h = refl
of_not {b = false} h = cc

some_ok-injective :
    {a b : Record} → ◌≡◌ {A = Result Error (Option Record)} (ok (some a)) (ok (some b)) → a ≡ b
some_ok-injective h = eq_of_some-eq (ok-injective h)

module _ {B : Type 0} ⦃e : External⦄ ⦃c : Codec B⦄ (now fingerprint scope : String) (dir : Dir)
    (id : String) (rec : Record) (payload : Payload) (d : Disk B)
    (there : get dir id d ≡ ok (some rec)) (parsed : payload_of id rec ≡ ok payload)
    (other : payload.from ≢ fingerprint) where
  -- The other peer's record reads as before.
  abbrev Untouched : Disk B → Type 0
  Untouched d' = get dir id d' ≡ get dir id d

  -- A record of the peer is not the other peer's.
  pub apart :
      (id' : String) (rec' : Record) (payload' : Payload)
      → get inbox id' d ≡ ok (some rec')
      → payload_of id' rec' ≡ ok payload'
      → payload'.from ≡ fingerprint
      → record_path dir id ≢ record_path inbox id'
  apart id' rec' payload' there' parsed' own same =
      let same_record : rec ≡ rec' =
        some_ok-injective (sym there ∙ get-same_path d same ∙ there') in
      let same_payload : payload ≡ payload' = eq_of_some-eq (
        sym (payload_of-ok id rec payload parsed)
        ∙ ap (λ (r : Record). e.parse_payload r.raw) same_record
        ∙ payload_of-ok id' rec' payload' parsed') in
      other (ap (λ (p : Payload). p.from) same_payload ∙ own)

  release_one-Untouched :
      (id' : String) (rec' : Record) (payload' : Payload) (d' : Disk B)
      → get inbox id' d ≡ ok (some rec')
      → payload_of id' rec' ≡ ok payload'
      → Untouched d'
      → Untouched (release_one now fingerprint scope id' payload' d').1
  unfolding set_state_with_event
  release_one-Untouched id' rec' payload' d' there' parsed' same =
      let change : Record → Record = λ r.
        push now "allowed" (some "human") (some (obj (insert "scope" (str scope) empty)))
          (record r { state = "pending" }) in
      if_state Untouched (not (payload'.from == fingerprint)) _ _ same (λ own.
        let moved =
          get-update_ne inbox id' change d' dir id (
            apart id' rec' payload' there' parsed'
              ((eq_iff payload'.from fingerprint).0 (of_not own)))
          ∙ same in
        continue-state Untouched (update inbox id' change d') _ moved (λ _ _. moved))

  release_all-Untouched :
      (entries : List Entry) (d' : Disk B)
      → All (IsListed inbox is_held d) entries
      → Untouched d'
      → Untouched (release_all now fingerprint scope entries d').1
  unfolding release_all
  release_all-Untouched [] d' listed same = same
  release_all-Untouched (entry ∷ entries) d' ((there', _), listed) same =
      continue-state Untouched (payload_of entry.0 entry.1, d') _ same
        (λ payload' was.
          continue-state Untouched (release_one now fingerprint scope entry.0 payload' d') _
            (release_one-Untouched entry.0 entry.1 payload' d' there' was same)
            (λ _ _.
              continue-state Untouched
                (release_all now fingerprint scope entries
                  (release_one now fingerprint scope entry.0 payload' d').1)
                _
                (release_all-Untouched entries _ listed
                  (release_one-Untouched entry.0 entry.1 payload' d' there' was same))
                (λ _ _.
                  release_all-Untouched entries _ listed
                    (release_one-Untouched entry.0 entry.1 payload' d' there' was same))))

  -- `owl allow` of one peer leaves every record of another peer as it reads, whatever fails.
  pub release-Untouched : get dir id (release now fingerprint scope d).1 ≡ get dir id d
  unfolding release
  release-Untouched =
      continue-state Untouched (list inbox is_held d, d) (release_all now fingerprint scope) refl
        (λ entries listed.
          release_all-Untouched entries d (list-IsListed inbox is_held d entries listed) refl)
