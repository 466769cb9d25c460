-- ===== src/Cli.antt =====
-- src/cli/allow.rs, src/cli/deny.rs and src/cli/reject.rs: what the owner decides.
pub mod Consent
pub mod Denial
pub mod Draft
pub mod Ask
pub mod Request
use owlpost.Prelude.{
  String, Bool, true, false, not, ◌&&◌, Option, none, some, List, [], ◌∷◌, ◌++◌, ◌==◌,
  if◌then◌else◌,
}
use owlpost.Prelude.Results
use owlpost.Prelude.Results.{Result, ok, err}
use owlpost.Prelude.Exec.{Exec, continue}
use owlpost.Json.{Value, str, obj, empty, insert}
use owlpost.Record.{Record, Dir, inbox}
use owlpost.Envelope.{Payload}
use owlpost.Contacts.{Mode, Contact}
use owlpost.Error.{Error, message}
use owlpost.External.{External}
use owlpost.Spool.{Entry, get, list, set_state_with_event}
use owlpost.Spool.Files.{Codec, Disk}
use owlpost.Answer.{payload_of}
use owlpost.Answer.Home.{Home, Ev, finish}

-- `Opts` of `owl allow`
pub record Opts : Type 0 where
  pub once : Bool
  pub always : Bool
  pub verified : Bool

-- `policy_for` of src/cli/allow.rs
unfoldable pub policy_for : Contact → Opts → Result Error (Option Mode)
policy_for contact opts =
    if opts.once && opts.always
    then err (message "--once and --always are mutually exclusive")
    else if opts.once
    then ok none
    else if not opts.always
    then ok (some Mode.manual)
    else if contact.source == "global" && not opts.verified
    then err (message "its key was never verified")
    else ok (some Mode.auto)

abbrev pub is_held : Record → Bool
is_held rec = rec.state == "consent"

module _ {B : Type 0} ⦃e : External⦄ ⦃c : Codec B⦄ (now fingerprint scope : String) where
  -- One round of the loop of `release`: a record of another peer is passed over.
  abbrev release_one : String → Payload → Exec Error (Disk B) (List String)
  release_one id payload d =
      if not (payload.from == fingerprint)
      then (ok [], d)
      else continue
          (set_state_with_event now inbox id "pending" "allowed" (some "human")
            (some (obj (insert "scope" (str scope) empty))) d)
          (λ _ d'. (ok (id ∷ []), d'))

  -- The loop: the first record that fails, its payload's parse included, ends it.
  pub release_all : List Entry → Exec Error (Disk B) (List String)
  release_all [] d = (ok [], d)
  release_all (entry ∷ entries) d =
      continue (payload_of entry.0 entry.1, d)
        (λ payload d1. continue (release_one entry.0 payload d1) (λ released d2.
          continue (release_all entries d2) (λ rest d3. (ok (released ++ rest), d3))))

  unfoldable pub release : Exec Error (Disk B) (List String)
  unfolding list payload_of set_state_with_event release_all insert
  release d = continue (list inbox is_held d, d) release_all

module _ {B : Type 0} ⦃e : External⦄ ⦃c : Codec B⦄ (now fingerprint : String) where
  abbrev deny_one : String → Record → Payload → Exec Error (Home B) (List String)
  deny_one id rec payload h =
      if not (payload.from == fingerprint)
      then (ok [], h)
      else continue
          (finish now id rec "denied" (("previous_state", str "consent") ∷ [])
            (record { kind = "denied"; by = some "human"; detail = none }) h)
          (λ _ h'. (ok (id ∷ []), h'))

  pub deny_all : List Entry → Exec Error (Home B) (List String)
  deny_all [] h = (ok [], h)
  deny_all (entry ∷ entries) h =
      continue (payload_of entry.0 entry.1, h)
        (λ payload h1.
          continue (deny_one entry.0 entry.1 payload h1)
            (λ denied h2. continue (deny_all entries h2) (λ rest h3. (ok (denied ++ rest), h3))))

  -- `deny_held`
  unfoldable pub deny_held : Exec Error (Home B) (List String)
  unfolding list payload_of finish deny_all
  deny_held h = continue (list inbox is_held h.disk, h) deny_all

abbrev pub inbox_record : String → Result Error (Option Record) → Result Error Record
inbox_record id (ok none) = err (message "no inbox record")
inbox_record id (ok (some rec)) = ok rec
inbox_record id (err e) = err e

-- `owl reject`
unfoldable pub reject : {B : Type 0} ⦃c : Codec B⦄ → (now id : String) → Exec Error (Home B) Unit
unfolding get finish
reject now id h =
    continue (inbox_record id (get inbox id h.disk), h)
      (λ rec.
        finish now id rec "rejected" (("previous_state", str rec.state) ∷ [])
          (record { kind = "rejected"; by = some "human"; detail = none }))
