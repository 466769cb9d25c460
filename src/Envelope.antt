-- ===== src/Envelope.antt =====
-- src/envelope.rs: the payload of a message, its kinds and bodies, and its constructors. Ids and
-- times are arguments: the code takes them from `Uuid::now_v7` and from the clock.
pub mod Task
pub mod Replay
pub mod Time
pub mod Signed
use owlpost.Prelude.{
  ℕ, ◌^◌, String, ◌≡◌, refl, Bool, true, false, Option, none, some, if◌then◌else◌, ◌+◌, ◌*◌,
}
use owlpost.Json
use owlpost.Json.{Map}

abbrev pub max_context_bytes : ℕ
max_context_bytes = 8192

-- `i32`, of which the code writes the exit codes of a child process.
pub data Exit : Type 0 where
  code minus : ℕ → Exit

pub data Kind : Type 0 where
  question answer content content_reply tool_call tool_reply : Kind

pub data Body : Type 0 where
  question :
      (project : String) (path : Option String) (text : String) (context : Option String) → Body
  answer : (text harness : String) (redactions : ℕ) (cached : Bool) → Body
  content_reply :
      (text sha256 : String) (ref_resolved : Option String) (truncated : Bool) (redactions : ℕ)
      (harness : String)
      → Body
  tool_call : (tool : String) (input : Map) (project : Option String) → Body
  tool_reply :
      (output : String) (exit_code : Exit) (duration_ms : ℕ) (truncated : Bool) (redactions : ℕ)
      (harness : String)
      → Body
  content : (project git_ref path memory : Option String) → Body

pub record Payload : Type 0 where
  pub v : ℕ
  pub id : String
  pub kind : Kind
  pub from : String
  pub to : String
  pub ts : String
  pub in_reply_to : Option String
  pub context_id : Option String
  pub body : Body

-- `Kind::is_request`: a kind that a peer sends to us.
unfoldable pub is_request : Kind → Bool
is_request Kind.question = true
is_request Kind.content = true
is_request Kind.tool_call = true
is_request _ = false

-- `Kind::is_reply`: a kind that we send back.
unfoldable pub is_reply : Kind → Bool
is_reply Kind.answer = true
is_reply Kind.content_reply = true
is_reply Kind.tool_reply = true
is_reply _ = false

-- `Payload::question`
unfoldable pub new_question :
    String → String → (from to project : String) → Option String → String → Payload
new_question id ts from to project path text = record {
  v = 1;
  id = id;
  kind = Kind.question;
  from = from;
  to = to;
  ts = ts;
  in_reply_to = none;
  context_id = none;
  body = Body.question project path text none;
}

-- A reply to `request`: sender and recipient change places, the thread is kept.
abbrev reply_to : String → String → Payload → Kind → Body → Payload
reply_to id ts request kind body = record {
  v = 1;
  id = id;
  kind = kind;
  from = request.to;
  to = request.from;
  ts = ts;
  in_reply_to = some request.id;
  context_id = request.context_id;
  body = body;
}

-- `Payload::answer`
unfoldable pub new_answer : String → String → Payload → String → String → ℕ → Bool → Payload
new_answer id ts request text harness redactions cached =
    reply_to id ts request Kind.answer (Body.answer text harness redactions cached)

-- `Payload::content_reply`
unfoldable pub new_content_reply :
    String → String → Payload → String → String → Option String → Bool → ℕ → Payload
new_content_reply id ts request text sha256 ref_resolved truncated redactions =
    reply_to id ts request Kind.content_reply
      (Body.content_reply text sha256 ref_resolved truncated redactions "human")

-- `Payload::tool_reply`
unfoldable pub new_tool_reply : String → String → Payload → String → Exit → ℕ → Bool → ℕ → Payload
new_tool_reply id ts request output exit_code duration_ms truncated redactions =
    reply_to id ts request Kind.tool_reply
      (Body.tool_reply output exit_code duration_ms truncated redactions "human")

-- `Payload::content`
unfoldable pub new_content :
    String → String → (from to : String) → (project git_ref path memory : Option String) → Payload
new_content id ts from to project git_ref path memory = record {
  v = 1;
  id = id;
  kind = Kind.content;
  from = from;
  to = to;
  ts = ts;
  in_reply_to = none;
  context_id = none;
  body = Body.content project git_ref path memory;
}

-- `Payload::tool_call`
unfoldable pub new_tool_call :
    String → String → (from to tool : String) → Map → Option String → Payload
new_tool_call id ts from to tool input project = record {
  v = 1;
  id = id;
  kind = Kind.tool_call;
  from = from;
  to = to;
  ts = ts;
  in_reply_to = none;
  context_id = none;
  body = Body.tool_call tool input project;
}
