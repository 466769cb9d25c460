-- ===== src/Envelope/Task.antt =====
-- src/envelope.rs: the A2A state that a peer is told for the state of a spooled record.
use owlpost.Prelude.{String, Bool, Option, none, some, ◌==◌, ◌||◌, if◌then◌else◌}

-- `TASK_STATE_*`
pub data TaskState : Type 0 where
  submitted working completed rejected : TaskState

abbrev pub name : TaskState → String
name submitted = "TASK_STATE_SUBMITTED"
name working = "TASK_STATE_WORKING"
name completed = "TASK_STATE_COMPLETED"
name rejected = "TASK_STATE_REJECTED"

unfoldable pub a2a_state : String → Bool → TaskState × String
a2a_state s auto_error =
    if s == "consent"
    then (submitted, "waiting for the owner's consent")
    else if s == "pending"
    then (
      working,
      if auto_error
          then "the owner's agent could not answer; waiting for the owner"
          else "the owner's agent is answering",
    )
    else if s == "drafted"
    then (working, "the owner is reviewing the answer")
    else if s == "unacked" || s == "acked" || s == "expired" || s == "answered"
    then (completed, "answered")
    else if s == "denied" || s == "rejected"
    then (rejected, "the owner declined")
    else (rejected, "unavailable")

-- What `owl ask` prints for the name of a state.
unfoldable pub state_text : String → Option String
state_text s =
    if s == "TASK_STATE_SUBMITTED"
    then some "waiting for the owner's consent"
    else if s == "TASK_STATE_WORKING"
    then some "the owner's agent is answering"
    else if s == "TASK_STATE_COMPLETED"
    then some "answered"
    else if s == "TASK_STATE_REJECTED"
    then some "the owner declined"
    else none
