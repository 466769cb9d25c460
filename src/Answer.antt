-- ===== src/Answer.antt =====
-- src/answer.rs: the helpers on a stored record.
pub mod Threads
pub mod Draft
pub mod Home
pub mod Send
use owlpost.Prelude.{String, ◌≡◌, Bool, true, false, Option, none, some, ◌==◌, arith}
use owlpost.Prelude.Results.{Result, ok, err, ok_or}
use owlpost.Record.{Record}
use owlpost.Error.{Error, bad_payload, message}
use owlpost.Envelope.{Payload, Body, Kind}
use owlpost.External.{External}

-- `payload_of`
unfoldable pub payload_of : ⦃e : External⦄ → String → Record → Result Error Payload
payload_of ⦃e⦄ id rec = ok_or (e.parse_payload rec.raw) (bad_payload id)

abbrev question_of : Kind → Body → Option (String × Option String × String)
question_of Kind.question (Body.question project path text _) = some (project, path, text)
question_of _ _ = none

-- `question_body`
unfoldable pub question_body : Payload → Result Error (String × Option String × String)
question_body payload =
    ok_or (question_of payload.kind payload.body)
      (message "the record is an answer, not a question")

abbrev context_of : Body → Option String
context_of (Body.question _ _ _ context) = context
context_of _ = none

-- `question_context`
unfoldable pub question_context : Payload → Option String
question_context payload = context_of payload.body

abbrev pub is_text : String → Option String → Bool
is_text s none = false
is_text s (some t) = t == s

pub payload_of-ok :
    ⦃e : External⦄ (id : String) (rec : Record) (payload : Payload)
    → payload_of id rec ≡ ok payload
    → e.parse_payload rec.raw ≡ some payload
unfolding payload_of
payload_of-ok ⦃e⦄ id rec payload h = ground arith
