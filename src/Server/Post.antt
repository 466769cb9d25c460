-- ===== src/Server/Post.antt =====
-- src/server.rs: `POST /v1/questions`, its pure parts.
pub mod Handler
pub mod Refusals
pub mod Replay
pub mod Once
pub mod Window
pub mod Accepted
pub mod Run
pub mod Arrivals
pub mod Outcomes
pub mod Success
pub mod Unattended
use owlpost.Prelude.{
  ℕ, ◌≤◌, String, ◌≡◌, refl, Bool, true, false, not, ◌&&◌, ◌||◌, Option, none, some, List, [], ◌∷◌,
  ◌++◌, ◌==◌, if◌then◌else◌, is_some,
}
use owlpost.Prelude.Results
use owlpost.Prelude.Results.{Result, ok, err, refuse_if, ok_or}
use owlpost.Prelude.Exec.{Exec, ◌>>=◌, ◌>>◌, pure, raise, lift, gets, continue, modify}
use owlpost.Json.{Value, str, obj, empty, insert}
use owlpost.Envelope.{Payload, Kind, Body}
use owlpost.Envelope.Task.{TaskState, a2a_state}
use owlpost.Envelope.Time.{parse_rfc3339_to_unix, unix_to_rfc3339}
use owlpost.Envelope.Replay.{replay_window_secs, is_fresh, is_seen, insert_seen}
use owlpost.Record.{Record, inbox}
use owlpost.Config.{Config}
use owlpost.Contacts.{Mode, Policy, Contact, find_contact, policy_for, mode_of}
use owlpost.Error.{Error}
use owlpost.Events.{push}
use owlpost.External.{External}
use owlpost.Question.{question_hash}
use owlpost.Spool.{put, cache_get}
use owlpost.Spool.Files.{Codec, Disk}
use owlpost.Answer.Threads.{thread_known}
use owlpost.Server.Api.{ApiError, api_error, bad_request, unavailable, storage_error, require_peer}
use owlpost.Server.State.{F64, Bucket, full, take, Spooled, AppState, bucket_of, set_bucket}
use owlpost.Server.Validate.{validate_request}

-- What is left of a request's body: its text, or how reading it failed.
pub data Upload : Type 0 where
  complete : String → Upload
  too_large unreadable : Upload

-- The signature header is absent, no text, or a text.
pub record Request : Type 0 where
  pub peer : Option String
  pub upload : Upload
  pub signature : Option (Option String)

pub data Response : Type 0 where
  cached : (raw sig : String) → Response
  accepted : (id : String) → TaskState → Response

-- `body_bytes`
unfoldable pub body_bytes : Upload → Result ApiError String
body_bytes (complete body) = ok body
body_bytes too_large = err (api_error 413 "body too large")
body_bytes unreadable = err (bad_request "unreadable body")

-- `signature_header`
unfoldable pub signature_header : ⦃e : External⦄ → Option (Option String) → Result ApiError String
signature_header none = err (bad_request "missing X-Owl-Signature header")
signature_header (some none) = err (bad_request "malformed X-Owl-Signature header")
signature_header ⦃e⦄ (some (some text)) =
    ok_or (e.parse_sig text) (bad_request "malformed X-Owl-Signature header")

-- `record_state`: the state of a new record, and whether the scheduler may answer it.
unfoldable pub record_state : Option Mode → String × Bool
record_state none = ("consent", false)
record_state (some Mode.auto) = ("pending", true)
record_state (some Mode.manual) = ("pending", false)
record_state (some Mode.never) = ("pending", false)

-- `record_state_for`
unfoldable pub record_state_for : Kind → Option Mode → String × Bool
unfolding record_state
record_state_for Kind.content mode = ("consent", false)
record_state_for Kind.tool_call mode = ("consent", false)
record_state_for _ mode = record_state mode

-- `may_read_cache`
unfoldable pub may_read_cache : Option Mode → Bool
may_read_cache (some Mode.manual) = true
may_read_cache (some Mode.auto) = true
may_read_cache _ = false

abbrev pub is_never : Option Mode → Bool
is_never (some Mode.never) = true
is_never _ = false

abbrev pub policy_in : String → Option (List Contact) → Option Policy
policy_in caller none = none
policy_in caller (some book) = policy_for caller book

-- The rate of the policy, if it has one, else that of the settings.
abbrev rate_of : Option Policy → Config → ℕ
rate_of none config = config.rate_limit_per_peer_per_hour
rate_of (some p) config = elim p.rate_limit_per_hour [
  | none ↦ config.rate_limit_per_peer_per_hour
  | some rate ↦ rate
]

-- The lookups and the signature: the contact, its key, and the signature over the body.
abbrev check_signature :
    ⦃e : External⦄ → List Contact → String → String → String → Result ApiError (Unit {0})
check_signature ⦃e⦄ book caller body sig =
    Results.◌>>=◌ (ok_or (find_contact caller book) (api_error 403 "unknown peer"))
      λ (contact : Contact).
        Results.◌>>=◌ (ok_or (e.parse_pubkey contact.pubkey) (api_error 403 "unknown peer"))
          λ pubkey. refuse_if (not (e.verify pubkey body sig)) (bad_request "bad signature")

-- The time and the id: a time that parses and is near now, and an id that was not seen.
abbrev check_replay : ℕ → List (String × ℕ) → Payload → Result ApiError Payload
check_replay now seen payload =
    Results.◌>>◌
      (refuse_if (not (is_some (parse_rfc3339_to_unix payload.ts))) (bad_request "malformed ts"))
      (Results.◌>>◌
        (refuse_if (not (is_fresh payload.ts now replay_window_secs)) (bad_request "stale ts"))
        (Results.◌>>◌ (refuse_if (is_seen payload.id seen) (api_error 409 "duplicate id"))
          (ok payload)))

-- The question hash; a reply has none and is refused.
unfoldable pub hash_of : ⦃e : External⦄ → Body → Result ApiError (Option String)
unfolding question_hash
hash_of (Body.question project path text context) = ok (some (question_hash project path text))
hash_of (Body.content _ _ _ _) = ok none
hash_of (Body.tool_call _ _ _) = ok none
hash_of _ = err (bad_request "type must be question, content or tool-call")

abbrev has_context : Body → Bool
has_context (Body.question _ _ _ context) = is_some context
has_context _ = false

abbrev arrival : Kind → String
arrival Kind.content = "content-requested"
arrival Kind.tool_call = "tool-requested"
arrival _ = "received"

abbrev meta_of : String → Option String → Value
meta_of caller none = obj (insert "peer" (str caller) empty)
meta_of caller (some h) = obj (insert "hash" (str h) (insert "peer" (str caller) empty))

abbrev pub sig_text : Option (Option String) → String
sig_text (some (some text)) = text
sig_text _ = ""

abbrev pub body_text : Upload → String
body_text (complete body) = body
body_text _ = ""

abbrev pub rfc3339 : ℕ → String
rfc3339 now = unix_to_rfc3339 now

-- A second event where the record is held.
abbrev push_held : String → Record → Record
push_held now rec = if rec.state == "consent" then push now "held" none none rec else rec

-- The record of an accepted request: its arrival, and the hold if it waits for consent.
unfoldable pub new_record : ℕ → Request → String → Payload → Option Mode → Option String → Record
unfolding push record_state_for unix_to_rfc3339 insert
new_record now request caller payload mode hash = push_held (rfc3339 now) (
    push (rfc3339 now) (arrival payload.kind) none none (record {
      raw = body_text request.upload;
      sig = sig_text request.signature;
      state = (record_state_for payload.kind mode).0;
      seen = false;
      received_at = rfc3339 now;
      draft = none;
      meta = meta_of caller hash;
    }))
