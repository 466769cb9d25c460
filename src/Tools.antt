-- ===== src/Tools.antt =====
-- src/tools.rs: the one tool that a tool call names, and how long it may run. What the child process
-- does is a parameter.
pub mod Bounded
use Prim.Native.String.{◌++◌ as append}
use owlpost.Prelude.{
  ℕ, zero, suc, ◌+◌, ◌/◌, String, Bool, true, false, not, ◌&&◌, ◌||◌, Option, none, some, List, [],
  ◌∷◌, ◌==◌, if◌then◌else◌, ltb, leb, nat_eq, codes,
}
use owlpost.Prelude.Chars.{byte_len, is_empty}
use owlpost.Prelude.Results
use owlpost.Prelude.Results.{Result, ok, err, ok_or, refuse_if}
use owlpost.Json.{Value, Map, str, num, negative, bool, obj, empty, insert}
use owlpost.Error.{Error, message}
use owlpost.Config.{Config, Tool}
use owlpost.Config
use owlpost.Envelope.{Payload, Kind, Body, Exit}
use owlpost.Answer.Draft.{ToolRun, saturated}
use owlpost.Content.{cut_at_char_boundary}
use owlpost.Redact.{Patterns, redact}

-- `MAX_OUTPUT_BYTES`
abbrev pub max_output_bytes : ℕ
max_output_bytes = 262144

-- `Request`
pub record Call : Type 0 where
  pub tool : String
  pub input : Map

abbrev call_in : Kind → Body → Option Call
call_in Kind.tool_call (Body.tool_call tool input _) = some (record { tool = tool; input = input })
call_in _ _ = none

-- `request_of`
unfoldable pub call_of : Payload → Result Error Call
call_of payload = ok_or (call_in payload.kind payload.body) (message "not a tool-call request")

-- `lookup`
unfoldable pub lookup_tool : Config → String → Result Error Tool
lookup_tool config name = ok_or (Config.get name config.responder.tools) (message "unknown tool")

-- What starts a child: the program and its arguments, the directory, the environment (beside the
-- inherited `PATH`) and the bytes for its standard input.
pub record Spawn : Type 0 where
  pub argv : List String
  pub current_dir : String
  pub env : List (String × String)
  pub stdin : String

-- A started child, by the number of times it was polled: the clock in milliseconds since the start,
-- `try_wait`, the `wait` after a kill (`none` if that call never returns), whether both readers come to
-- the end of their pipes (they do not while a process that the child has forked holds one), and what
-- the pipes gave. A status has a code unless a signal ended the child.
pub record Process : Type 0 where
  pub now : ℕ → ℕ
  pub try_wait : ℕ → Result Error (Option (Option Exit))
  pub wait_after_kill : Option (Result Error (Option Exit))
  pub readers_end : Bool
  pub stdout : String
  pub stderr : String

-- The system: `serde_json::to_string` of an input, the home directory, and `spawn`.
pub record System : Type 0 where
  pub compact : Map → String
  pub home : String
  pub spawn : Spawn → Result Error Process

-- `Outcome`
pub record Outcome : Type 0 where
  pub stdout : String
  pub stderr : String
  pub exit_code : Exit
  pub timed_out : Bool

abbrev killed : Option (Result Error (Option Exit)) → Option (Result Error (Option Exit × Bool))
killed none = none
killed (some waited) = some (Results.◌>>=◌ waited λ (s : Option Exit). ok (s, true))

abbrev at_deadline :
    Process
    → ℕ
    → ℕ
    → Option (Result Error (Option Exit × Bool))
    → Option (Result Error (Option Exit × Bool))
at_deadline p deadline k rest = if leb deadline (p.now k) then killed p.wait_after_kill else rest

abbrev polled :
    Process
    → ℕ
    → ℕ
    → Option (Result Error (Option Exit × Bool))
    → Result Error (Option (Option Exit))
    → Option (Result Error (Option Exit × Bool))
polled p deadline k rest (err e) = some (err e)
polled p deadline k rest (ok (some s)) = some (ok (s, false))
polled p deadline k rest (ok none) = at_deadline p deadline k rest

-- The loop of `wait_bounded` from its poll `k` on; `none` if `fuel` polls are not enough, or if it
-- never returns.
unfoldable pub wait_loop :
    Process → (deadline fuel k : ℕ) → Option (Result Error (Option Exit × Bool))
wait_loop p deadline zero k = none
wait_loop p deadline (suc fuel) k =
    let rest = wait_loop p deadline fuel (suc k) in polled p deadline k rest (p.try_wait k)

-- A sleep between two polls takes 50 milliseconds or more, so these are enough.
abbrev pub polls : ℕ → ℕ
polls deadline = suc (suc (deadline / 50))

abbrev code_or_minus_one : Option Exit → Exit
code_or_minus_one none = Exit.minus 0
code_or_minus_one (some status) = status

abbrev outcome_of : Process → Option Exit → Bool → Outcome
outcome_of p status timed_out = record {
  stdout = p.stdout;
  stderr = p.stderr;
  exit_code = code_or_minus_one status;
  timed_out = timed_out;
}

-- Without a timeout, the readers are joined.
abbrev joined : Process → Result Error (Option Exit × Bool) → Option (Result Error Outcome)
joined p (err e) = some (err e)
joined p (ok (status, timed_out)) =
    if timed_out || p.readers_end then some (ok (outcome_of p status timed_out)) else none

abbrev joined_after :
    Process → Option (Result Error (Option Exit × Bool)) → Option (Result Error Outcome)
joined_after p none = none
joined_after p (some waited) = joined p waited

-- `wait_bounded`; `none` if it never returns.
unfoldable pub wait_bounded : Process → ℕ → Option (Result Error Outcome)
unfolding wait_loop
wait_bounded p timeout = joined_after p (wait_loop p timeout (polls timeout) 0)

-- `owl draft` waits with the call. A wait that never returns is an error here: nothing follows it.
abbrev awaited : Option (Result Error Outcome) → Result Error Outcome
awaited none = err (message "never returns")
awaited (some outcome) = outcome

abbrev ends_line : List ℕ → Bool
ends_line [] = false
ends_line (c ∷ []) = nat_eq c 10
ends_line (c ∷ d ∷ cs) = ends_line (d ∷ cs)

abbrev is_blank : String → Bool
is_blank String.[] = true
is_blank (String.◌∷◌ c s) = false

-- Standard output, then standard error under its own line.
unfoldable pub combined : Outcome → String
combined o =
    if is_blank o.stderr
    then o.stdout
    else append
        (if not (is_blank o.stdout) && not (ends_line (codes o.stdout))
          then append o.stdout "\n"
          else o.stdout)
        (append "--- stderr ---\n" o.stderr)

module _ ⦃w : System⦄ where
  -- `cwd_of`
  unfoldable pub cwd_of : Config → Tool → Result Error String
  cwd_of config tool = elim tool.cwd [
    | none ↦ ok w.home
    | some key ↦ ok_or (Config.get key config.projects) (message "not a configured checkout")
  ]

  -- The child that `run` starts. An empty `argv` has no program: the code panics there.
  unfoldable pub spawn_of :
      Config → (name : String) → Tool → (input : Map) → (peer : String) → Result Error Spawn
  unfolding cwd_of
  spawn_of config name tool input peer = Results.◌>>=◌ (cwd_of config tool) λ (cwd : String).
      Results.◌>>◌ (refuse_if (is_empty tool.argv) (message "no program")) (
        ok (record {
          argv = tool.argv;
          current_dir = cwd;
          env = ("OWLPOST_TOOL", "1") ∷ ("OWLPOST_TOOL_NAME", name) ∷ ("OWLPOST_PEER", peer) ∷ [];
          stdin = append (w.compact input) "\n";
        }))

-- The wall time of a run, `elapsed` without a timeout.
abbrev duration : Tool → (elapsed : ℕ) → Outcome → ℕ
duration tool elapsed o = if o.timed_out then tool.timeout_ms else elapsed

-- The run of a redacted output: cut if it is too long.
unfoldable pub run_from : (name : String) → Tool → (elapsed : ℕ) → Outcome → String × ℕ → ToolRun
run_from name tool elapsed o (redacted, redactions) =
    let full = byte_len (codes redacted) in
    record {
      output =
          if ltb max_output_bytes full
          then cut_at_char_boundary redacted max_output_bytes
          else redacted;
      exit_code = o.exit_code;
      duration_ms = duration tool elapsed o;
      truncated = ltb max_output_bytes full;
      redactions = saturated redactions;
      full_bytes = full;
      tool = name;
    }

-- What follows the start of the child in `run`
unfoldable pub run_spawned :
    ⦃w : System⦄ ⦃p : Patterns⦄
    → Config
    → (name : String) → Tool
    → (elapsed : ℕ) → Spawn
    → Result Error ToolRun
unfolding wait_bounded combined run_from
run_spawned ⦃w⦄ config name tool elapsed s = Results.◌>>=◌ (w.spawn s) λ (process : Process).
    Results.◌>>=◌ (awaited (wait_bounded process tool.timeout_ms)) λ (o : Outcome).
      Results.◌>>=◌ (redact config.responder.redact (combined o))
        λ (redacted : String × ℕ). ok (run_from name tool elapsed o redacted)

abbrev pub exit_value : Exit → Value
exit_value (Exit.code n) = num n
exit_value (Exit.minus n) = negative n

-- `Run::to_draft`
unfoldable pub run_to_draft : (now : String) → ToolRun → Value
unfolding insert
run_to_draft now run = obj (
    insert "text" (str run.output) (
      insert "harness" (str "human") (
        insert "redactions" (num run.redactions) (
          insert "status" (str "ok") (
            insert "drafted_at" (str now) (
              insert "tool" (str run.tool) (
                insert "exit_code" (exit_value run.exit_code) (
                  insert "duration_ms" (num run.duration_ms) (
                    insert "truncated" (bool run.truncated)
                      (insert "full_bytes" (num run.full_bytes) empty))))))))))
