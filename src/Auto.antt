-- ===== src/Auto.antt =====
-- src/auto.rs: the scheduler that answers for the owner, and `draft` of src/answer.rs. The run of a
-- harness, `runner::draft_with`, is a parameter.
pub mod Candidates
use owlpost.Prelude.{
  ℕ, String, Bool, true, false, not, ◌&&◌, Option, none, some, List, [], ◌∷◌, ◌++◌, ◌==◌,
  if◌then◌else◌, keep, map, ltb, is_some,
}
use owlpost.Prelude.Results
use owlpost.Prelude.Results.{Result, ok, err, ok_or}
use owlpost.Prelude.Exec.{Exec, continue}
use owlpost.Json.{Value, str, num, obj, empty, insert, remove}
use owlpost.Record.{Record, Dir, inbox, meta_object, with_meta, auto_error}
use owlpost.Config.{Config}
use owlpost.Contacts.{Mode, Contact, mode_str, policy_for, mode_of}
use owlpost.Envelope.{Payload, Kind, Body}
use owlpost.Error.{Error, message}
use owlpost.Events.{push}
use owlpost.External.{External}
use owlpost.Spool.{Entry, get, put, list_lenient}
use owlpost.Spool.Files.{Codec, Disk}
use owlpost.Answer.{payload_of, question_body}
use owlpost.Answer.Draft.{StoredDraft, to_value, u32_max, without_auto_error, saturated}
use owlpost.Answer.Home.{Home, SendMode, on_spool}
use owlpost.Answer.Send.{Sent, send, existing_answer}

-- `runner::DraftStatus`, and `runner::Draft`
pub data DraftStatus : Type 0 where
  completed timeout extract_failed : DraftStatus

abbrev status_text : DraftStatus → String
status_text completed = "ok"
status_text timeout = "timeout"
status_text extract_failed = "extract_failed"

pub record RunnerDraft : Type 0 where
  pub text : String
  pub harness : String
  pub redactions : ℕ
  pub status : DraftStatus

abbrev pub Runner : Type 0
Runner = Payload → Result Error RunnerDraft

-- The record with the draft of a run stored on it.
abbrev with_draft : String → RunnerDraft → Record → Record
with_draft now d rec =
    push now "drafted" (some d.harness)
      (some (
        obj (
          insert "status" (str (status_text d.status))
            (insert "redactions" (num d.redactions) empty))))
      (without_auto_error (record rec {
        draft = some (
            to_value (record {
              text = d.text;
              harness = d.harness;
              redactions = saturated d.redactions;
              status = status_text d.status;
              drafted_at = now;
            }));
        state = "drafted";
      }))

-- `answer::draft`
unfoldable pub draft :
    ⦃e : External⦄ → Runner → (now id : String) → Record → Result Error (Record × RunnerDraft)
unfolding payload_of question_body push insert to_value meta_object remove
draft run now id rec = Results.◌>>=◌ (payload_of id rec) λ (payload : Payload).
    Results.◌>>=◌ (question_body payload) λ (_ : String × Option String × String).
      Results.◌>>=◌ (run payload) λ (d : RunnerDraft). ok (with_draft now d rec, d)

pub data Outcome : Type 0 where
  sent : Sent → (peer path : String) → Outcome
  skipped failed : String → Outcome

abbrev by_policy : Option Mode → Option String
by_policy (some Mode.auto) = none
by_policy (some m) = some (mode_str m)
by_policy none = some "no policy"

abbrev by_body :
    Config → List Contact → Payload → Result Error (String × Option String × String) → Option String
by_body config book payload (err _) = some "the record is an answer"
by_body config book payload (ok _) =
    if not config.responder.enabled
    then some "responder is disabled"
    else by_policy (mode_of (policy_for payload.from book))

abbrev by_kind : Config → List Contact → Payload → Kind → Option String
by_kind config book payload Kind.content = some "a content request, consent only"
by_kind config book payload Kind.tool_call = some "a tool-call request, consent only"
by_kind config book payload _ = by_body config book payload (question_body payload)

abbrev by_payload : ⦃e : External⦄ → Config → List Contact → Result Error Payload → Option String
by_payload ⦃e⦄ config book (err x) = some (e.render x)
by_payload config book (ok payload) = by_kind config book payload payload.kind

-- `not_a_candidate`: why a record may not be answered now, if it may not.
unfoldable pub not_a_candidate :
    ⦃e : External⦄ → Config → List Contact → String → Record → Option String
unfolding payload_of question_body policy_for mode_str
not_a_candidate config book id rec =
    if not (rec.state == "pending")
    then some rec.state
    else by_payload config book (payload_of id rec)

module _ {B : Type 0} ⦃c : Codec B⦄ where
  -- `fail_as_is`
  unfoldable pub fail_as_is : String → Record → String → Exec Error (Home B) Outcome
  unfolding put insert meta_object
  fail_as_is id rec why h =
      continue
        (on_spool
          (put inbox id (with_meta (insert "auto_error" (str why) (meta_object rec.meta)) rec)) h)
        (λ _ h'. (ok (failed why), h'))

  -- `fail`
  unfoldable pub fail : String → Record → String → Exec Error (Home B) Outcome
  unfolding fail_as_is
  fail id rec why = fail_as_is id (record rec { state = "pending"; draft = none }) why

abbrev path_or_dash : Option String → String
path_or_dash none = "-"
path_or_dash (some p) = p

module _ {B : Type 0} ⦃e : External⦄ ⦃c : Codec B⦄ (config : Config) (run : Runner)
    (answer_id now id : String) where
  abbrev keep_or_reset : Record → String → Option (String × String) → Exec Error (Home B) Outcome
  keep_or_reset left why none = fail id left why
  keep_or_reset left why (some _) = fail_as_is id left why

  abbrev left_over : String → Option Record → Exec Error (Home B) Outcome
  left_over why none h = (ok (failed why), h)
  left_over why (some left) h = continue (existing_answer id h.disk, h) (keep_or_reset left why)

  -- The result of `send`: an error is noted on what is left of the record.
  abbrev report_sent :
      (peer path : String) → Result Error Sent × Home B → Result Error Outcome × Home B
  report_sent peer path (ok answer, h) = (ok (sent answer peer path), h)
  report_sent peer path (err x, h) = continue (get inbox id h.disk, h) (left_over (e.render x))

  abbrev send_drafted : (peer path : String) → Record → Exec Error (Home B) Outcome
  send_drafted peer path drafted h =
      continue (on_spool (put inbox id drafted) h)
        (λ _ h'. report_sent peer path (send answer_id now id drafted SendMode.auto h'))

  abbrev after_draft :
      Record
      → (peer path : String) → Result Error (Record × RunnerDraft)
      → Exec Error (Home B) Outcome
  after_draft original peer path (err x) = fail id original (e.render x)
  after_draft original peer path (ok (drafted, d)) = elim d.status [
    | completed ↦ send_drafted peer path drafted
    | s ↦ fail id original (status_text s)
  ]

  abbrev for_candidate : Record → Exec Error (Home B) Outcome
  for_candidate rec h =
      continue (payload_of id rec, h)
        (λ (payload : Payload) h1.
          continue (question_body payload, h1)
            (λ (body : String × Option String × String).
              after_draft rec payload.from (path_or_dash body.1) (draft run now id rec)))

  abbrev unless : Record → Option String → Exec Error (Home B) Outcome
  unless rec (some why) h = (ok (skipped why), h)
  unless rec none h = for_candidate rec h

  abbrev with_record : Option (List Contact) → Option Record → Exec Error (Home B) Outcome
  with_record contacts none h = (ok (skipped "no longer in the inbox"), h)
  with_record contacts (some rec) h =
      continue (ok_or contacts (message "loading the contacts"), h)
        (λ (book : List Contact). unless rec (not_a_candidate config book id rec))

  -- `attempt`, with what `ContactBook::load` returns
  unfoldable pub attempt : Option (List Contact) → Exec Error (Home B) Outcome
  unfolding get not_a_candidate draft put send existing_answer fail fail_as_is payload_of
      question_body
  attempt contacts h = continue (get inbox id h.disk, h) (with_record contacts)

-- `candidates`
unfoldable pub candidates :
    {B : Type 0} ⦃e : External⦄ ⦃c : Codec B⦄
    → Config
    → List Contact
    → Disk B
    → Result Error (List String)
unfolding list_lenient auto_error not_a_candidate
candidates config book d = Results.◌>>=◌ (list_lenient inbox d) λ (entries : List Entry). ok (
    map (λ (entry : Entry). entry.0)
      (keep
        (λ (entry : Entry).
          not (is_some (auto_error entry.1))
          && not (is_some (not_a_candidate config book entry.0 entry.1)))
        entries))

-- `Scheduler::claim` and `Scheduler::release`, on the set of the ids in flight
unfoldable pub claim : String → List String → Bool × List String
claim id [] = (true, id ∷ [])
claim id (j ∷ ids) =
    let (fresh, rest) = claim id ids in if j == id then (false, j ∷ ids) else (fresh, j ∷ rest)

unfoldable pub unclaim : String → List String → List String
unclaim id ids = keep (λ j. not (j == id)) ids
