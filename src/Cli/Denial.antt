-- ===== src/Cli/Denial.antt =====
-- src/cli/deny.rs: denying one peer does not touch another peer's records.
use owlpost.Prelude.{
  String, ◌≡◌, ◌≢◌, refl, ap, ◌∙◌, not, none, some, List, [], ◌∷◌, All, eq_iff, ◌==◌,
}
use owlpost.Prelude.Results.{ok}
use owlpost.Prelude.Exec.{continue-state, if_state}
use owlpost.Json.{str}
use owlpost.Record.{Record, Dir, inbox, done}
use owlpost.Envelope.{Payload}
use owlpost.External.{External}
use owlpost.Spool.{Entry, get, list}
use owlpost.Spool.Names.{FilePath}
use owlpost.Spool.Files.{Codec}
use owlpost.Spool.Listing.{IsListed, list-IsListed}
use owlpost.Answer.{payload_of}
use owlpost.Answer.Home.{Home, Ev, finish}
use owlpost.Answer.Home.Finish.{finish-get_ne}
use owlpost.Cli.{is_held, deny_one, deny_all, deny_held}
use owlpost.Cli.Consent.{apart, of_not}

module _ {B : Type 0} ⦃e : External⦄ ⦃c : Codec B⦄ (now fingerprint : String) (dir : Dir)
    (not_done : dir ≢ done) (id : String) (rec : Record) (payload : Payload) (h : Home B)
    (there : get dir id h.disk ≡ ok (some rec)) (parsed : payload_of id rec ≡ ok payload)
    (other : payload.from ≢ fingerprint) where
  -- The other peer's record reads as before.
  abbrev Untouched : Home B → Type 0
  Untouched h' = get dir id h'.disk ≡ get dir id h.disk

  abbrev denial : Ev
  denial = record { kind = "denied"; by = some "human"; detail = none }

  deny_one-Untouched :
      (id' : String) (rec' : Record) (payload' : Payload) (h' : Home B)
      → get inbox id' h.disk ≡ ok (some rec')
      → payload_of id' rec' ≡ ok payload'
      → Untouched h'
      → Untouched (deny_one now fingerprint id' rec' payload' h').1
  deny_one-Untouched id' rec' payload' h' there' parsed' same =
      if_state Untouched (not (payload'.from == fingerprint)) _ _ same (λ own.
        let kept =
          finish-get_ne now id' rec' "denied" (("previous_state", str "consent") ∷ []) denial h' dir
            id (λ e. not_done (ap (λ (p : FilePath). p.dir) e))
            (apart now fingerprint "" dir id rec payload h.disk there parsed other id' rec' payload'
              there' parsed' ((eq_iff payload'.from fingerprint).0 (of_not own)))
          ∙ same in
        continue-state Untouched
          (finish now id' rec' "denied" (("previous_state", str "consent") ∷ []) denial h') _ kept
          (λ _ _. kept))

  deny_all-Untouched :
      (entries : List Entry) (h' : Home B)
      → All (IsListed inbox is_held h.disk) entries
      → Untouched h'
      → Untouched (deny_all now fingerprint entries h').1
  unfolding deny_all
  deny_all-Untouched [] h' listed same = same
  deny_all-Untouched (entry ∷ entries) h' ((there', _), listed) same =
      continue-state Untouched (payload_of entry.0 entry.1, h') _ same
        (λ payload' was.
          let kept = deny_one-Untouched entry.0 entry.1 payload' h' there' was same in
          let rest =
            deny_all-Untouched entries (deny_one now fingerprint entry.0 entry.1 payload' h').1
              listed kept in
          continue-state Untouched (deny_one now fingerprint entry.0 entry.1 payload' h') _ kept
            (λ _ _.
              continue-state Untouched
                (deny_all now fingerprint entries
                  (deny_one now fingerprint entry.0 entry.1 payload' h').1)
                _ rest (λ _ _. rest)))

  -- `owl deny` of one peer leaves every record of another peer, outside `done`, as it reads, whatever
  -- fails.
  pub deny_held-Untouched : get dir id (deny_held now fingerprint h).1.disk ≡ get dir id h.disk
  unfolding deny_held
  deny_held-Untouched =
      continue-state Untouched (list inbox is_held h.disk, h) (deny_all now fingerprint) refl
        (λ entries listed.
          deny_all-Untouched entries h (list-IsListed inbox is_held h.disk entries listed) refl)
