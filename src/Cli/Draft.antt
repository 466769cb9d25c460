-- ===== src/Cli/Draft.antt =====
-- src/cli/draft.rs: `owl draft`, the one command that runs a tool or reads a file for a peer.
pub mod Spawns
use owlpost.Prelude.{
  ℕ, String, Bool, true, false, ◌||◌, Option, none, some, List, [], ◌∷◌, ◌++◌, ◌==◌, if◌then◌else◌,
  is_some, codes,
}
use owlpost.Prelude.Chars.{byte_len}
use owlpost.Prelude.Results
use owlpost.Prelude.Results.{Result, ok, err, refuse_if}
use owlpost.Prelude.Exec.{Exec, ◌>>=◌, ◌>>◌, pure, raise, lift, modify}
use owlpost.Json.{Value, str, num, bool, obj, empty, insert}
use owlpost.Record.{Record, inbox}
use owlpost.Config.{Config}
use owlpost.Envelope.{Payload, Kind, Exit}
use owlpost.Error.{Error, message}
use owlpost.Events.{push}
use owlpost.External.{External}
use owlpost.Spool.{get, put}
use owlpost.Spool.Files.{Codec}
use owlpost.Answer.{payload_of}
use owlpost.Answer.Draft.{
  StoredDraft, ToolRun, Content, draft_in, draft_text, store_text, saturated,
}
use owlpost.Answer.Home.{Home, on_spool}
use owlpost.Answer.Send.{existing_answer}
use owlpost.Auto.{Runner, RunnerDraft, DraftStatus, draft}
use owlpost.Redact.{Patterns, redact}
use owlpost.Content.{Sources, Request, request_of, resolve, to_draft}
use owlpost.Tools.{
  System, Spawn, Call, call_of, lookup_tool, spawn_of, run_spawned, run_to_draft, exit_value,
}
use owlpost.Cli.{inbox_record}

-- `Opts`
pub record DraftOpts : Type 0 where
  pub harness : Option String
  pub text : Option String
  pub agent : Bool
  pub prompt : Bool

-- The home, and the children that were started, the oldest first.
pub record Drafting (B : Type 0) : Type 0 where
  pub home : Home B
  pub spawned : List Spawn

-- What the command takes from outside: the times, the run of a harness by its name, and the prompt
-- that `--prompt` prints.
pub record Desk : Type 0 where
  pub now : String
  pub elapsed : ℕ
  pub runner : Option String → Runner
  pub prompt_of : Payload → Result Error String

abbrev has_flags : DraftOpts → Bool
has_flags opts = is_some opts.harness || is_some opts.text || opts.agent || opts.prompt

-- Which records have a draft, and with which flags
unfoldable pub kind_gate : Kind → DraftOpts → Result Error Unit
kind_gate Kind.question opts = ok tt
kind_gate Kind.content opts = refuse_if (has_flags opts) (message "a content request: no flags")
kind_gate Kind.tool_call opts = refuse_if (has_flags opts) (message "a tool-call request: no flags")
kind_gate _ opts = err (message "nothing to draft")

-- The gate on the state
unfoldable pub state_gate : String → Result Error Unit
state_gate state =
    if state == "pending"
    then ok tt
    else if state == "drafted"
    then ok tt
    else if state == "consent"
    then err (message "held for consent")
    else err (message "only pending or drafted records can be drafted")

-- A spooled answer ends the drafting.
abbrev unanswered : Option (String × String) → Result Error Unit
unanswered none = ok tt
unanswered (some _) = err (message "already has its answer spooled")

abbrev status_gate : DraftStatus → Result Error Unit
status_gate DraftStatus.completed = ok tt
status_gate _ = err (message "stored, but look at it before sending")

abbrev is_stored : Option StoredDraft → Result Error Unit
is_stored none = err (message "a drafted record has a draft")
is_stored (some _) = ok tt

abbrev content_drafted : (now : String) → Content → Record → Record
content_drafted now c rec =
    push now "content-drafted" (some "human")
      (some (
        obj (
          insert "bytes" (num (byte_len (codes c.text))) (
            insert "redactions" (num c.redactions) (insert "truncated" (bool c.truncated) empty)))))
      (record rec { state = "drafted"; draft = some (to_draft now c) })

abbrev tool_run : (now : String) → ToolRun → Record → Record
tool_run now run rec =
    push now "tool-run" (some "human")
      (some (
        obj (
          insert "tool" (str run.tool) (
            insert "exit_code" (exit_value run.exit_code)
              (insert "duration_ms" (num run.duration_ms) empty)))))
      (record rec { state = "drafted"; draft = some (run_to_draft now run) })

abbrev completed : Record → Record × DraftStatus
completed rec = (rec, DraftStatus.completed)

-- The draft of a question: given by the agent or by the human, or run by a harness.
unfoldable pub question_draft :
    ⦃e : External⦄ ⦃p : Patterns⦄
    → Desk
    → Config
    → DraftOpts
    → String
    → Record
    → Result Error (Record × DraftStatus)
unfolding redact draft store_text draft_text
question_draft desk config opts id rec = elim opts.text [
  | none ↦
      Results.◌>>=◌ (draft (desk.runner opts.harness) desk.now id rec)
        λ (d : Record × RunnerDraft). ok (d.0, d.1.status)
  | some text ↦
      if opts.agent
      then (Results.◌>>=◌ (redact config.responder.redact text)
          λ (t : String × ℕ). ok (completed (store_text desk.now rec t.0 "agent" (saturated t.1))))
      else ok (completed (draft_text desk.now rec text))
]

module _ {B : Type 0} ⦃e : External⦄ ⦃c : Codec B⦄ ⦃w : System⦄ ⦃s : Sources⦄ ⦃p : Patterns⦄ where
  abbrev at_home : {A : Type 0} → Exec Error (Home B) A → Exec Error (Drafting B) A
  at_home m d = ((m d.home).0, record d { home = (m d.home).1 })

  -- The drafted record is written, and no session needs to wake for it.
  unfoldable pub store_drafted : String → Record → Exec Error (Drafting B) Unit
  unfolding put
  store_drafted id rec =
      at_home (on_spool (put inbox id rec))
      >> modify (λ d. record d { home = record d.home { released = d.home.released ++ id ∷ [] } })

  -- `draft_content`
  unfoldable pub draft_content :
      Desk → Config → String → Record → Payload → Exec Error (Drafting B) Unit
  unfolding request_of resolve push insert to_draft store_drafted
  draft_content desk config id rec payload = lift (request_of payload) >>= λ (request : Request).
      lift (resolve config request) >>= λ (found : Content).
      store_drafted id (content_drafted desk.now found rec)

  -- `draft_tool`
  unfoldable pub draft_tool :
      Desk → Config → String → Record → Payload → Exec Error (Drafting B) Unit
  unfolding call_of lookup_tool spawn_of run_spawned push insert run_to_draft store_drafted
  draft_tool desk config id rec payload = lift (call_of payload) >>= λ (call : Call).
      lift (lookup_tool config call.tool) >>= λ tool.
      lift (spawn_of config call.tool tool call.input payload.from) >>= λ (child : Spawn).
      modify (λ d. record d { spawned = d.spawned ++ child ∷ [] })
      >> (lift (run_spawned config call.tool tool desk.elapsed child) >>= λ (run : ToolRun).
          store_drafted id (tool_run desk.now run rec))

  unfoldable pub draft_question :
      Desk → Config → DraftOpts → String → Record → Payload → Exec Error (Drafting B) Unit
  unfolding question_draft draft_in store_drafted
  draft_question desk config opts id rec payload =
      if opts.prompt
      then lift (desk.prompt_of payload) >> pure tt
      else (lift (question_draft desk config opts id rec) >>= λ (d : Record × DraftStatus).
          lift (Results.◌>>=◌ (draft_in d.0.draft) is_stored)
          >> (store_drafted id d.0 >> lift (status_gate d.1)))

  abbrev draft_kind :
      Kind → Desk → Config → DraftOpts → String → Record → Payload → Exec Error (Drafting B) Unit
  draft_kind Kind.content desk config opts = draft_content desk config
  draft_kind Kind.tool_call desk config opts = draft_tool desk config
  draft_kind _ desk config opts = draft_question desk config opts

  -- `run`
  unfoldable pub run : Desk → Config → DraftOpts → String → Exec Error (Drafting B) Unit
  unfolding get payload_of kind_gate state_gate existing_answer draft_content draft_tool
      draft_question
  run desk config opts id d =
      (lift (inbox_record id (get inbox id d.home.disk)) >>= λ (rec : Record).
      lift (payload_of id rec) >>= λ (payload : Payload).
      lift (kind_gate payload.kind opts)
      >> (lift (state_gate rec.state)
          >> (lift (Results.◌>>=◌ (existing_answer id d.home.disk) unanswered)
              >> draft_kind payload.kind desk config opts id rec payload)))
        d
