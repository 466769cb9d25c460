-- ===== src/Answer/Send.antt =====
-- src/answer.rs: `send`, the step from a draft to an answer that leaves this machine.
pub mod Effects
pub mod Retries
use owlpost.Prelude.{
  ℕ, String, Bool, true, false, not, ◌&&◌, ◌||◌, Option, none, some, List, [], ◌∷◌, ◌++◌, ◌==◌,
  if◌then◌else◌, is_some, codes,
}
use owlpost.Prelude.Results
use owlpost.Prelude.Results.{Result, ok, err, refuse_if, ok_or}
use owlpost.Prelude.Exec.{Exec, ◌>>=◌, ◌>>◌, pure, raise, lift, gets, continue}
use owlpost.Json.{Value, str, obj, empty, insert, get_str}
use owlpost.Record.{Record, inbox, outbox}
use owlpost.Envelope.{
  Payload, Kind, Body, is_request, new_answer, new_content_reply, new_tool_reply,
}
use owlpost.Error.{Error, message}
use owlpost.External.{External}
use owlpost.Question.{question_hash}
use owlpost.Spool.{Entry, list, put, cache_put}
use owlpost.Spool.Files.{Codec, Disk}
use owlpost.Answer.{payload_of, question_body, question_context, is_text}
use owlpost.Answer.Draft.{StoredDraft, draft_in, Content, ToolRun, stored_content, stored_run}
use owlpost.Answer.Home.{
  Home, SendMode, manual, auto, OutgoingLine, OutgoingLog, has_outgoing_line, append_outgoing, Ev,
  on_spool, finish,
}
use owlpost.Answer.Threads.{thread_known}

-- `Sent`, without the path of the file
pub record Sent : Type 0 where
  pub answer_id : String
  pub to : String
  pub harness : String
  pub redactions : ℕ

abbrev drafted_only : String → Option StoredDraft → Result Error StoredDraft
drafted_only state none = err (message "record has no draft")
drafted_only state (some d) =
    if state == "drafted" then ok d else err (message "record is not drafted")

abbrev hash_for : ⦃e : External⦄ → Kind → Payload → Result Error (Option String)
hash_for Kind.content question = ok none
hash_for Kind.tool_call question = ok none
hash_for _ question =
    Results.◌>>=◌ (question_body question)
      λ (b : String × Option String × String). ok (some (question_hash b.0 b.1 b.2))

abbrev in_thread : (String → Bool) → Option String → Bool
in_thread known none = false
in_thread known (some context_id) = known context_id

-- The reply to a request, from the draft of its record.
unfoldable pub reply_for :
    (answer_id now : String) → Payload → Record → StoredDraft → Result Error Payload
unfolding new_answer new_content_reply new_tool_reply stored_content stored_run
reply_for answer_id now question rec draft = elim question.kind [
  | Kind.content ↦
      Results.◌>>=◌ (ok_or (stored_content rec.draft) (message "record has no content draft"))
        λ (x : Content). ok (
          new_content_reply answer_id now question x.text x.sha256 x.ref_resolved x.truncated
            x.redactions)
  | Kind.tool_call ↦
      Results.◌>>=◌ (ok_or (stored_run rec.draft) (message "record has no tool draft"))
        λ (r : ToolRun). ok (
          new_tool_reply answer_id now question r.output r.exit_code r.duration_ms r.truncated
            r.redactions)
  | _ ↦ ok (new_answer answer_id now question draft.text draft.harness draft.redactions false)
]

abbrev meta_with_hash : Option String → String → String → Value
meta_with_hash none peer id = obj (insert "question_id" (str id) (insert "peer" (str peer) empty))
meta_with_hash (some h) peer id =
    obj (insert "hash" (str h) (insert "question_id" (str id) (insert "peer" (str peer) empty)))

abbrev sent_kind : Kind → String
sent_kind Kind.content = "content-sent"
sent_kind Kind.tool_call = "tool-sent"
sent_kind _ = "sent"

abbrev sender : SendMode → String
sender manual = "human"
sender auto = "auto"

module _ {B : Type 0} where
  abbrev log_with : OutgoingLine → Bool → Exec Error (Home B) Unit
  log_with l true h = (ok tt, h)
  log_with l false h = ((append_outgoing l h.log).0, record h { log = (append_outgoing l h.log).1 })

  -- The line for the request, unless the log has one.
  unfoldable pub log_once : String → OutgoingLine → Exec Error (Home B) Unit
  unfolding has_outgoing_line append_outgoing
  log_once id l h = continue (has_outgoing_line id h.log, h) (log_with l)

module _ ⦃e : External⦄ where
  -- The signed reply, as the outbox and the cache keep it.
  unfoldable pub reply_record : (now id : String) → Payload → Payload → Option String → Record
  unfolding insert
  reply_record now id question answer hash = record {
    raw = e.payload_text answer;
    sig = e.sign (e.payload_text answer);
    state = "unacked";
    seen = false;
    received_at = now;
    draft = none;
    meta = meta_with_hash hash question.from id;
  }

  unfoldable pub outgoing_line : (now to id : String) → StoredDraft → SendMode → OutgoingLine
  outgoing_line now to id draft mode = record {
    ts = now;
    to = to;
    question_id = id;
    harness = draft.harness;
    redactions = draft.redactions;
    answer_sha256 = e.sha256 (codes draft.text);
    mode = mode;
  }

  -- The checks before anything is written: the request, its draft and its question hash.
  unfoldable pub may_send :
      Bool → String → Record → Result Error (Payload × StoredDraft × Option String)
  unfolding payload_of is_request draft_in question_body question_hash
  may_send has_key id rec = Results.◌>>=◌ (payload_of id rec) λ (question : Payload).
      Results.◌>>◌
        (refuse_if (not (is_request question.kind))
          (message "the record is an answer, not a question"))
        (Results.◌>>=◌ (draft_in rec.draft) λ (stored : Option StoredDraft).
          Results.◌>>=◌ (drafted_only rec.state stored) λ (draft : StoredDraft).
            Results.◌>>◌ (refuse_if (not has_key) (message "loading own key")) (
              Results.◌>>◌
                (refuse_if (not (question.to == e.own_fingerprint))
                  (message "not addressed to this identity"))
                (Results.◌>>=◌ (hash_for question.kind question)
                  λ hash. ok (question, draft, hash))))

abbrev first_answer : ⦃e : External⦄ → List Entry → Result Error (Option (String × String))
first_answer [] = ok none
first_answer (entry ∷ entries) =
    Results.◌>>=◌ (payload_of entry.0 entry.1) λ (answer : Payload). ok (some (entry.0, answer.to))

-- The closing event of a request that was answered.
abbrev pub sent_event : Kind → SendMode → String → Ev
sent_event kind mode answer_id = record {
  kind = sent_kind kind;
  by = some (sender mode);
  detail = some (obj (insert "answer_id" (str answer_id) empty));
}

abbrev pub finish_sent :
    {B : Type 0} ⦃c : Codec B⦄
    → (now id : String) → Record
    → Kind
    → SendMode
    → String
    → Exec Error (Home B) Unit
finish_sent now id rec kind mode answer_id =
    finish now id rec "answered" (("answer_id", str answer_id) ∷ [])
      (sent_event kind mode answer_id)

module _ {B : Type 0} ⦃e : External⦄ ⦃c : Codec B⦄ where
  -- `existing_answer`
  unfoldable pub existing_answer : String → Disk B → Result Error (Option (String × String))
  unfolding list payload_of get_str
  existing_answer id d =
      Results.◌>>=◌ (list outbox (λ r. is_text id (get_str "question_id" r.meta)) d) first_answer

  unfoldable pub is_cacheable : String → Payload → Option String → Disk B → Bool
  unfolding question_context thread_known
  is_cacheable id question hash d =
      is_some hash
      && not (is_some (question_context question))
      && not (in_thread (λ cid. thread_known cid id d) question.context_id)

  abbrev put_cache : Bool → Option String → Record → Exec Error (Home B) Unit
  put_cache true (some h) out = on_spool (cache_put h out)
  put_cache _ _ out = pure tt

  -- A fresh reply, written to the outbox and, where it may be, to the cache.
  unfoldable pub spool_reply :
      (answer_id now id : String)
      → Record
      → Payload
      → StoredDraft
      → Option String
      → Exec Error (Home B) (String × String)
  unfolding reply_for reply_record put cache_put is_cacheable
  spool_reply answer_id now id rec question draft hash h =
      continue (reply_for answer_id now question rec draft, h)
        (λ answer h1.
          continue (on_spool (put outbox answer.id (reply_record now id question answer hash)) h1)
            (λ _ h2.
              continue
                (put_cache (is_cacheable id question hash h.disk) hash
                  (reply_record now id question answer hash) h2)
                (λ _ h3. (ok (answer.id, answer.to), h3))))

  abbrev reuse_or_spool :
      (answer_id now id : String)
      → Record
      → Payload
      → StoredDraft
      → Option String
      → Option (String × String)
      → Exec Error (Home B) (String × String)
  reuse_or_spool answer_id now id rec question draft hash (some found) = pure found
  reuse_or_spool answer_id now id rec question draft hash none =
      spool_reply answer_id now id rec question draft hash

  -- What follows the reply: the log line, then the end of the request.
  unfoldable pub log_and_finish :
      (now id : String)
      → Record
      → Payload
      → StoredDraft
      → SendMode
      → String × String
      → Exec Error (Home B) Sent
  unfolding outgoing_line log_once finish insert
  log_and_finish now id rec question draft mode (answer_id, to) h =
      continue (log_once id (outgoing_line now to id draft mode) h) (λ _ h1.
        continue (finish_sent now id rec question.kind mode answer_id h1) (λ _ h2. (
          ok (record {
            answer_id = answer_id;
            to = to;
            harness = draft.harness;
            redactions = draft.redactions;
          }),
          h2,
        )))

  -- `send`, with the id of the reply if one is signed, at the time `now`
  unfoldable pub send : (answer_id now id : String) → Record → SendMode → Exec Error (Home B) Sent
  unfolding may_send existing_answer spool_reply log_and_finish
  send answer_id now id rec mode h =
      continue (may_send h.has_key id rec, h)
        (λ (checked : Payload × StoredDraft × Option String) h1.
          continue (existing_answer id h1.disk, h1)
            (λ found h2.
              continue (reuse_or_spool answer_id now id rec checked.0 checked.1 checked.2 found h2)
                (λ reply. log_and_finish now id rec checked.0 checked.1 mode reply)))
