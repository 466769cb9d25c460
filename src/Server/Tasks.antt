-- ===== src/Server/Tasks.antt =====
-- src/server.rs: `GET /v1/questions/{id}`, the A2A task of a question.
pub mod Owners
use owlpost.Prelude.{
  String, Bool, true, false, not, ◌&&◌, ◌||◌, Option, none, some, List, [], ◌∷◌, ◌++◌, ◌==◌,
  if◌then◌else◌, codes, is_some,
}
use owlpost.Prelude.Results
use owlpost.Prelude.Results.{Result, ok, err}
use owlpost.Json.{Value, Map, null, str, arr, obj, empty, insert, of_list, get_str}
use owlpost.Record.{Record, Dir, inbox, outbox, done, auto_error}
use owlpost.Envelope.{Payload, Body, Kind, is_request, is_reply}
use owlpost.Envelope.Task.{TaskState, name, a2a_state}
use owlpost.Error.{Error}
use owlpost.External.{External}
use owlpost.Config.{Config}
use owlpost.Contacts.{Contact, Policy, Mode, policy_for, mode_of}
use owlpost.Spool.{Entry, get, list_lenient}
use owlpost.Spool.Files.{Codec, Disk}
use owlpost.Answer.{is_text}
use owlpost.Server.Api.{ApiError, not_found, storage_error, require_peer}
use owlpost.Server.Validate.{valid_id}
use owlpost.Server.Post.{policy_in, is_never}
use owlpost.Server.Post.Handler.{stored}

-- `json!({ … })`
pub object : List (String × Value) → Map
unfolding insert
object [] = empty
object ((k, v) ∷ fields) = insert k v (object fields)

abbrev text_or_null : Option String → Value
text_or_null none = null
text_or_null (some s) = str s

abbrev with_context : Option String → Map → Value
with_context none m = obj m
with_context (some cid) m = obj (insert "contextId" (str cid) m)

-- `task_json`; `message_id` is the id with `-status` after it.
pub task_json :
    (id message_id : String)
    → Option String
    → TaskState × String
    → (timestamp : String) → Value
    → Value
unfolding insert object of_list
task_json id message_id context_id (state, text) timestamp owlpost = with_context context_id (
    object (
      ("id", str id)
      ∷ (
        "status",
        obj (
            object (
              ("state", str (name state))
              ∷ ("timestamp", str timestamp)
              ∷ (
                "message",
                obj (
                    object (
                      ("messageId", str message_id)
                      ∷ ("role", str "ROLE_AGENT")
                      ∷ ("parts", arr (of_list (obj (object (("text", str text) ∷ [])) ∷ [])))
                      ∷ [])),
              )
              ∷ [])),
      )
      ∷ ("metadata", obj (object (("owlpost", owlpost) ∷ [])))
      ∷ []))

abbrev subject : Body → Option String × Option String
subject (Body.question project path _ _) = (some project, path)
subject (Body.content project _ path _) = (project, path)
subject (Body.tool_call _ _ project) = (project, none)
subject _ = (none, none)

abbrev who_asked_whom : (from to : String) → Option String × Option String → Value
who_asked_whom from to (project, path) = obj (
    object (
      ("from", str from)
      ∷ ("to", str to)
      ∷ ("project", text_or_null project)
      ∷ ("path", text_or_null path)
      ∷ []))

-- `task_meta`
unfoldable pub task_meta : Payload → Value
unfolding object
task_meta payload = who_asked_whom payload.from payload.to (subject payload.body)

-- `.unwrap_or_default()` on a read
abbrev pub found_or_none : Result Error (Option Record) → Option Record
found_or_none (ok found) = found
found_or_none (err e) = none

abbrev or_text : Option String → String → String
or_text none s = s
or_text (some t) s = t

module _ ⦃e : External⦄ where
  abbrev payload_in : Option Record → Option Payload
  payload_in none = none
  payload_in (some rec) = e.parse_payload rec.raw

  abbrev pub asked_by : String → Payload → Bool
  asked_by caller q = is_request q.kind && q.from == caller

  abbrev pub replies_to : (caller id : String) → Payload → Bool
  replies_to caller id a = is_reply a.kind && is_text id a.in_reply_to && a.to == caller

  abbrev pub waiting_task : (id message_id : String) → Record → Payload → Value
  waiting_task id message_id rec q =
      task_json id message_id q.context_id (a2a_state rec.state (is_some (auto_error rec)))
        rec.received_at (task_meta q)

  abbrev pub finished_task : (id message_id : String) → Record → Payload → Value
  finished_task id message_id rec q =
      task_json id message_id q.context_id (a2a_state rec.state false)
        (or_text (get_str "done_at" rec.meta) rec.received_at) (task_meta q)

  abbrev meta_or_reply : Payload → Option Payload → Value
  meta_or_reply a none = who_asked_whom a.to a.from (none, none)
  meta_or_reply a (some q) = task_meta q

  abbrev pub answered_task : (id message_id : String) → Option Record → Record → Payload → Value
  answered_task id message_id finished rec a =
      task_json id message_id a.context_id (a2a_state rec.state false) rec.received_at
        (meta_or_reply a (payload_in finished))

  -- The task that `make` builds of a record whose payload passes the test.
  abbrev pub task_if : (Payload → Bool) → (Record → Payload → Value) → Option Record → Option Value
  task_if test make none = none
  task_if test make (some rec) = elim (e.parse_payload rec.raw) [
    | none ↦ none
    | some p ↦ if test p then some (make rec p) else none
  ]

  abbrev pub or_task : Option Value → Option Value → Option Value
  or_task none other = other
  or_task (some task) other = some task

  -- The loop over the outbox: the first reply to the caller's question.
  unfoldable pub reply_task :
      (Payload → Bool) → (Record → Payload → Value) → List Entry → Option Value
  reply_task test make [] = none
  reply_task test make (entry ∷ entries) =
      or_task (task_if test make (some entry.1)) (reply_task test make entries)

abbrev unavailable_task : ⦃e : External⦄ → (caller id message_id now : String) → Value
unavailable_task ⦃e⦄ caller id message_id now =
    task_json id message_id none (a2a_state "" false) now
      (who_asked_whom caller e.own_fingerprint (none, none))

abbrev known_or :
    ⦃e : External⦄
    → Config
    → Option (List Contact)
    → (caller id message_id now : String) → Option Value
    → Result ApiError Value
known_or config contacts caller id message_id now (some task) = ok task
known_or config none caller id message_id now none = err storage_error
known_or config (some book) caller id message_id now none =
    if not config.responder.enabled || is_never (mode_of (policy_in caller (some book)))
    then ok (unavailable_task caller id message_id now)
    else err not_found

-- The lookup behind the inbox: the outbox, then the finished questions.
abbrev pub after_inbox :
    ⦃e : External⦄
    → (caller id message_id : String) → Option Record
    → Option Value
    → Result Error (List Entry)
    → Result Error (Option Value)
after_inbox caller id message_id finished (some task) listed = ok (some task)
after_inbox caller id message_id finished none listed =
    Results.◌>>=◌ listed λ (entries : List Entry). ok (
      or_task (reply_task (replies_to caller id) (answered_task id message_id finished) entries)
        (task_if (asked_by caller) (finished_task id message_id) finished))

module _ {B : Type 0} ⦃e : External⦄ ⦃c : Codec B⦄ where
  unfoldable pub find_task : (caller id message_id : String) → Disk B → Result Error (Option Value)
  unfolding get list_lenient is_request is_reply task_json task_meta reply_task auto_error get_str
      a2a_state
  find_task caller id message_id d =
      after_inbox caller id message_id (found_or_none (get done id d))
        (task_if (asked_by caller) (waiting_task id message_id) (found_or_none (get inbox id d)))
        (list_lenient outbox d)

  unfoldable pub get_task :
      Config
      → Option (List Contact)
      → (now : String) → Option String
      → (id message_id : String) → Disk B
      → Result ApiError Value
  unfolding require_peer valid_id find_task policy_for
  get_task config contacts now peer id message_id d = Results.◌>>=◌ (require_peer peer) λ caller.
      if not (valid_id (codes id))
      then err not_found
      else Results.◌>>=◌ (stored (find_task caller id message_id d))
          λ found. known_or config contacts caller id message_id now found
