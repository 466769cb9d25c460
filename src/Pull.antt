-- ===== src/Pull.antt =====
-- src/pull.rs: the open asks, and what happens to one envelope of a responder's outbox.
pub mod Asked
pub mod Ingest
pub mod Closing
pub mod Liveness
pub mod Loop
use owlpost.Prelude.{
  ℕ, String, Bool, true, false, not, ◌&&◌, Option, none, some, List, [], ◌∷◌, ◌==◌, if◌then◌else◌,
  first,
}
use mathlib.Core.List.{filter_map}
use owlpost.Prelude.Results
use owlpost.Prelude.Results.{Result, ok, err}
use owlpost.Prelude.Exec.{lift, Exec, continue, pure, ◌>>=◌, ◌>>◌}
use owlpost.Json.{Value, bool, str, obj, empty, insert, get, get_str}
use owlpost.Record.{Record, Dir, inbox, asks, done}
use owlpost.Error.{Error, message}
use owlpost.Envelope.{Payload, Kind, Body}
use owlpost.Envelope.Signed.{Envelope}
use owlpost.Question.{question_hash}
use owlpost.Events.{push, state_seen}
use owlpost.External.{External}
use owlpost.Contacts.{Contact}
use owlpost.Client.{Wire, Task, verify_answer, ack}
use owlpost.Spool.{Entry, put, cache_put, move_to, set_state_with_event, push_event, list_lenient}
use owlpost.Spool.Files.{Codec, Disk}

-- `OpenAsk`
pub record OpenAsk : Type 0 where
  pub id : String
  pub peer : String
  pub hash : String
  pub path : String
  pub threaded : Bool

-- What a question asks; a request of a file or of a tool is none, and anything else no request.
abbrev asked_by : Kind → Body → Option (Option (String × Option String × String))
asked_by _ (Body.question project path text _) = some (some (project, path, text))
asked_by Kind.content (Body.content _ _ _ _) = some none
asked_by Kind.tool_call (Body.tool_call _ _ _) = some none
asked_by _ _ = none

abbrev pub non_empty : Option String → Option String
non_empty none = none
non_empty (some s) = if s == "" then none else some s

abbrev pub or_text : String → Option String → String
or_text s none = s
or_text s (some t) = t

abbrev hash_of : ⦃e : External⦄ → Option (String × Option String × String) → String
hash_of none = ""
hash_of (some (project, path, text)) = question_hash project path text

abbrev path_of : Option (String × Option String × String) → Body → Option String
path_of (some (_, path, _)) body = path
path_of none (Body.content _ _ path _) = path
path_of none _ = none

abbrev is_true : Option Value → Bool
is_true (some (bool b)) = b
is_true _ = false

abbrev ask_of :
    ⦃e : External⦄
    → String
    → Record
    → Payload
    → Option (Option (String × Option String × String))
    → Option OpenAsk
ask_of id rec payload none = none
ask_of id rec payload (some question) = some (record {
  id = id;
  peer = or_text payload.to (non_empty (get_str "peer" rec.meta));
  hash = or_text (hash_of question) (non_empty (get_str "hash" rec.meta));
  path = or_text "-" (path_of question payload.body);
  threaded = is_true (get "threaded" rec.meta);
})

abbrev ask_in : ⦃e : External⦄ → String → Record → Option Payload → Option OpenAsk
ask_in id rec none = none
ask_in id rec (some payload) = ask_of id rec payload (asked_by payload.kind payload.body)

-- `open_ask`
unfoldable pub open_ask : ⦃e : External⦄ → Entry → Option OpenAsk
unfolding get get_str question_hash
open_ask ⦃e⦄ (id, rec) = ask_in id rec (e.parse_payload rec.raw)

-- `Ingested`, and `Verdict`
pub record Ingested : Type 0 where
  pub ask : OpenAsk
  pub answer : Payload
  pub ack_error : Option Error

pub data Verdict : Type 0 where
  ingested : Ingested → Verdict
  forged unrelated : Verdict

-- `open.get(q)` and the filter on the contact: the ask that the answer is to.
unfoldable pub find_ask : String → Option String → List OpenAsk → Option OpenAsk
find_ask peer none open_asks = none
find_ask peer (some q) open_asks = elim (first (λ (ask : OpenAsk). ask.id == q) open_asks) [
  | none ↦ none
  | some ask ↦ if ask.peer == peer then some ask else none
]

abbrev received_kind : Kind → String
received_kind Kind.content_reply = "content-received"
received_kind Kind.tool_reply = "tool-received"
received_kind _ = "answer-received"

abbrev is_answer : Kind → Bool
is_answer Kind.answer = true
is_answer _ = false

-- The record of an answer in the inbox.
unfoldable pub answer_record : (now : String) → Envelope → Payload → OpenAsk → String → Record
unfolding push insert
answer_record now env answer ask peer = push now (received_kind answer.kind) none none (record {
  raw = env.raw;
  sig = env.sig;
  state = "pending";
  seen = false;
  received_at = now;
  draft = none;
  meta = obj (
      insert "peer" (str peer)
        (insert "hash" (str ask.hash) (insert "in_reply_to" (str ask.id) empty)));
})

abbrev error_of : Result Error (Unit {0}) → Option Error
error_of (ok _) = none
error_of (err e) = some e

module _ {B : Type 0} ⦃e : External⦄ ⦃c : Codec B⦄ where
  -- `open_asks`: the readable records of `asks`, in the order of their ids.
  unfoldable pub open_asks : Disk B → Result Error (List OpenAsk)
  unfolding list_lenient open_ask
  open_asks d = Results.◌>>=◌ (list_lenient asks d) λ (l : List Entry). ok (filter_map open_ask l)

module _ {B : Type 0} ⦃e : External⦄ ⦃c : Codec B⦄ where
  -- A `put` whose id came from outside and was not checked: it may be a path of its own.
  abbrev pub put_at : Dir → String → Option (Dir × String) → Record → Exec Error (Disk B) Unit
  put_at dir id (some (dir', id')) rec = put dir' id' rec
  put_at dir id none rec = lift (if e.stray_write dir id then ok tt else err (message "writing"))

  unfoldable pub put_unchecked : Dir → String → Record → Exec Error (Disk B) Unit
  unfolding put
  put_unchecked dir id rec = put_at dir id (e.join dir id) rec

  -- `store_answer`: the record goes to the inbox, and to the cache if it may.
  unfoldable pub store_answer : Record → (id hash : String) → Bool → Exec Error (Disk B) Unit
  store_answer rec id hash cache = do
    put_unchecked inbox id rec
    if cache then cache_put hash rec else pure tt

module _ {B : Type 0} ⦃c : Codec B⦄ where
  -- How a record is closed: it is moved to `done` and then marked.
  unfoldable pub close :
      (now : String) → Dir → (id state kind : String) → Option String → Exec Error (Disk B) Unit
  close now dir id state kind by = do
    move_to dir id done
    set_state_with_event now done id state kind by none

  -- `close_declined`
  unfoldable pub close_declined : (now id : String) → Exec Error (Disk B) Unit
  unfolding close
  close_declined now id = close now asks id "declined" "declined" (some "peer")

  -- `note_task_state`: an error is only logged.
  unfoldable pub note_task_state : (now id : String) → Task → Disk B → Disk B
  note_task_state now id task d =
      (push_event now asks id state_seen (some "peer")
        (some (obj (insert "text" (str task.text) (insert "state" (str task.state) empty)))) d).1

module _ {B : Type 0} ⦃e : External⦄ ⦃w : Wire⦄ ⦃c : Codec B⦄ (now : String)
    (contact : Contact) where
  -- The answer is stored before its ask is closed, and the responder is told last.
  unfoldable pub ingest_answer : Envelope → Payload → OpenAsk → Exec Error (Disk B) Verdict
  ingest_answer env answer ask = do
    store_answer (answer_record now env answer ask contact.fingerprint) answer.id ask.hash
        (not ask.threaded && is_answer answer.kind && not (ask.hash == ""))
    close now asks ask.id "answered" "answer-received" none
    pure (
        ingested
          (record { ask = ask; answer = answer; ack_error = error_of (ack contact answer.id) }))

  abbrev ingest_for : Envelope → Payload → Option OpenAsk → Exec Error (Disk B) Verdict
  ingest_for env answer none = pure unrelated
  ingest_for env answer (some ask) = ingest_answer env answer ask

  abbrev ingest_verified :
      List OpenAsk → Envelope → Result Error Payload → Exec Error (Disk B) Verdict
  ingest_verified open_asks env (err _) = pure forged
  ingest_verified open_asks env (ok answer) =
      ingest_for env answer (find_ask contact.fingerprint answer.in_reply_to open_asks)

  -- `ingest_envelope`
  unfoldable pub ingest_envelope : List OpenAsk → Envelope → Exec Error (Disk B) Verdict
  ingest_envelope open_asks env = ingest_verified open_asks env (verify_answer contact env none)
