-- ===== src/Client.antt =====
-- src/client.rs: the requests to a peer, over iroh first and then over its endpoints. What reqwest
-- and iroh do with one request is a parameter.
pub mod Verified
use owlpost.Prelude.{
  ℕ, String, Bool, true, false, not, ◌++◌, Option, none, some, List, [], ◌∷◌, ◌==◌, nat_eq,
  if◌then◌else◌,
}
use owlpost.Prelude.Results
use owlpost.Prelude.Results.{Result, ok, err, ok_or, refuse_if}
use owlpost.Json.{Value, get, get_str, as_str, as_array}
use owlpost.Error.{Error, message}
use owlpost.Envelope.{Payload, Kind, is_reply}
use owlpost.Envelope.Signed.{Envelope, verify_envelope}
use owlpost.External.{External}
use owlpost.Contacts.{Contact}
use owlpost.Answer.{is_text}

pub data Method : Type 0 where
  get_method post_method : Method

-- `/v1/questions`, `/v1/outbox`, `/v1/questions/{id}`, `/v1/outbox/{id}/ack`
pub data Route : Type 0 where
  questions outbox : Route
  question ack_of : String → Route

-- The parts of a call: the body is bytes.
pub record Request : Type 0 where
  pub method : Method
  pub route : Route
  pub headers : List (String × String)
  pub body : List ℕ

pub record Reply : Type 0 where
  pub status : ℕ
  pub signature : Option String
  pub retry_after : Option ℕ
  pub body : List ℕ

-- How a request to an endpoint ends: a reply, one whose body broke off, or a failed transport.
pub data Sending : Type 0 where
  replied : Reply → Sending
  broken : Sending
  down : String → Sending

-- reqwest, iroh and serde_json on bytes. `dial` is a request over iroh.
pub record Wire : Type 0 where
  pub tls_fails : Contact → Bool
  pub dial : Contact → Request → Result String Reply
  pub over_endpoint : Contact → (endpoint : String) → Request → Sending
  pub to_bytes : String → List ℕ
  pub from_utf8_lossy : List ℕ → String
  pub from_slice : List ℕ → Option Value
  pub outbox_items : List ℕ → Option (List Envelope)
  pub status_error : ℕ → String → String

abbrev offline : Error
offline = message "offline"

module _ ⦃e : External⦄ ⦃w : Wire⦄ where
  -- `http_client`
  unfoldable pub http_client : Contact → Result Error (Unit {0})
  http_client contact =
      Results.◌>>=◌ (ok_or (e.parse_pubkey contact.pubkey) (message "bad pubkey"))
        λ (_ : String). refuse_if (w.tls_fails contact) (message "building HTTP client")

  -- The loop of `reach` over the endpoints, with the reasons so far.
  pub try_endpoints :
      Contact → Request → List String → List String → Result Error (Result (List String) Reply)
  try_endpoints contact request errors [] = ok (err errors)
  try_endpoints contact request errors (endpoint ∷ rest) =
      elim (w.over_endpoint contact endpoint request) [
        | replied reply ↦ ok (ok reply)
        | broken ↦ err (message "reading response body")
        | down why ↦ try_endpoints contact request (errors ++ why ∷ []) rest
      ]

  abbrev after_dial :
      Contact → Request → Result String Reply → Result Error (Result (List String) Reply)
  after_dial contact request (ok reply) = ok (ok reply)
  after_dial contact request (err why) = try_endpoints contact request (why ∷ []) contact.endpoints

  -- `reach`: the first transport that gives a reply.
  unfoldable pub reach : Contact → Request → Result Error (Result (List String) Reply)
  unfolding http_client try_endpoints
  reach contact request =
      Results.◌>>◌ (http_client contact) (after_dial contact request (w.dial contact request))

  -- Where no transport gave a reply the call fails.
  abbrev or_offline : Result (List String) Reply → Result Error Reply
  or_offline (ok reply) = ok reply
  or_offline (err why) = err offline

  abbrev call : Contact → Method → Route → Result Error Reply
  call contact method route =
      Results.◌>>=◌
        (reach contact (record { method = method; route = route; headers = []; body = [] }))
        or_offline

  abbrev error_message : Reply → Error
  error_message reply = message (w.status_error reply.status (w.from_utf8_lossy reply.body))

  abbrev replies_to : Option String → Payload → Bool
  replies_to none payload = true
  replies_to (some id) payload = is_text id payload.in_reply_to

  -- `verify_answer`
  unfoldable pub verify_answer : Contact → Envelope → Option String → Result Error Payload
  unfolding verify_envelope is_reply
  verify_answer contact env question_id =
      Results.◌>>=◌ (ok_or (e.parse_pubkey contact.pubkey) (message "bad pubkey")) λ (key : String).
        Results.◌>>=◌ (verify_envelope key env) λ (payload : Payload).
          Results.◌>>◌ (refuse_if (not (is_reply payload.kind)) (message "not an answer")) (
            Results.◌>>◌
              (refuse_if (not (replies_to question_id payload)) (message "another question"))
              (ok payload))

  -- `fetch_outbox`
  unfoldable pub fetch_outbox : Contact → Result Error (List Envelope)
  unfolding reach
  fetch_outbox contact = Results.◌>>=◌ (call contact get_method outbox) λ (reply : Reply).
      Results.◌>>◌ (refuse_if (not (nat_eq reply.status 200)) (error_message reply))
        (ok_or (w.outbox_items reply.body) (message "outbox body is not [{raw, sig}]"))

-- `Task`
pub record Task : Type 0 where
  pub state : String
  pub text : String
  pub value : Value

abbrev member : String → Option Value → Option Value
member k none = none
member k (some v) = get k v

abbrev first_item : Option Value → Option Value
first_item none = none
first_item (some v) = elim (as_array v) [ some (x ∷ xs) ↦ some x | _ ↦ none ]

abbrev as_text : Option Value → Option String
as_text none = none
as_text (some v) = as_str v

abbrev text_or : String → Option String → String
text_or s none = s
text_or s (some t) = t

abbrev task_of : Value → Option String → Option Task
task_of v none = none
task_of v (some state) = some (record {
  state = state;
  text =
      text_or state
        (as_text (member "text" (first_item (member "parts" (member "message" (get "status" v))))));
  value = v;
})

-- `Task::parse`, on the JSON of a body
unfoldable pub parse_task : Option Value → Option Task
unfolding get as_str as_array
parse_task none = none
parse_task (some v) = task_of v (as_text (member "state" (get "status" v)))

-- `Task::rejected`
unfoldable pub is_rejected : Task → Bool
is_rejected task = task.state == "TASK_STATE_REJECTED"

-- `SendOutcome`
pub data SendOutcome : Type 0 where
  answered : Payload → Envelope → SendOutcome
  accepted : String → Option String → SendOutcome
  refused : SendOutcome
  rate_limited : Option ℕ → SendOutcome
  no_transport : List String → SendOutcome

module _ ⦃e : External⦄ ⦃w : Wire⦄ where
  abbrev signature_header : String
  signature_header = "X-Owl-Signature"

  -- A 200: the answer, signed by the peer.
  abbrev answer_outcome : Contact → Reply → Result Error SendOutcome
  answer_outcome contact reply =
      Results.◌>>=◌ (ok_or reply.signature (message "200 answer without X-Owl-Signature header"))
        λ (sig : String).
          let env : Envelope = record { raw = w.from_utf8_lossy reply.body; sig = sig } in
          Results.◌>>=◌ (verify_answer contact env none)
            λ (payload : Payload). ok (answered payload env)

  -- A 202: the peer has to have kept the id.
  abbrev accepted_outcome : String → Reply → Result Error SendOutcome
  accepted_outcome id reply =
      Results.◌>>=◌ (ok_or (w.from_slice reply.body) (message "202 body is not JSON"))
        λ (body : Value).
          Results.◌>>=◌ (ok_or (get_str "id" body) (message "202 body has no id")) λ (its : String).
            Results.◌>>◌ (refuse_if (not (its == id)) (message "another id"))
              (ok (accepted its (get_str "state" body)))

  abbrev outcome : Contact → String → Result (List String) Reply → Result Error SendOutcome
  outcome contact id (err errors) = ok (no_transport errors)
  outcome contact id (ok reply) =
      if nat_eq reply.status 200
      then answer_outcome contact reply
      else if nat_eq reply.status 202
      then accepted_outcome id reply
      else if nat_eq reply.status 403
      then ok refused
      else if nat_eq reply.status 429
      then ok (rate_limited reply.retry_after)
      else err (error_message reply)

  -- `send_question`
  unfoldable pub send_question : Contact → Envelope → Result Error SendOutcome
  unfolding reach verify_answer get_str
  send_question contact env =
      Results.◌>>=◌ (ok_or (e.parse_payload env.raw) (message "envelope is not a payload"))
        λ (question : Payload).
          Results.◌>>=◌
            (reach contact (record {
              method = post_method;
              route = questions;
              headers = ("content-type", "application/json") ∷ (signature_header, env.sig) ∷ [];
              body = w.to_bytes env.raw;
            }))
            (outcome contact question.id)

  abbrev task_reply : Reply → Result Error (Option Task)
  task_reply reply =
      if nat_eq reply.status 200
      then (Results.◌>>=◌
          (ok_or (parse_task (w.from_slice reply.body)) (message "task body is not an A2A Task"))
          λ (task : Task). ok (some task))
      else if nat_eq reply.status 404
      then ok none
      else err (error_message reply)

  -- `fetch_task`
  unfoldable pub fetch_task : Contact → String → Result Error (Option Task)
  unfolding reach parse_task
  fetch_task contact id = Results.◌>>=◌ (call contact get_method (question id)) task_reply

  -- `ack`
  unfoldable pub ack : Contact → String → Result Error (Unit {0})
  unfolding reach
  ack contact id =
      Results.◌>>=◌ (call contact post_method (ack_of id))
        λ (reply : Reply). refuse_if (not (nat_eq reply.status 204)) (error_message reply)
