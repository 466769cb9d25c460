-- ===== src/Tests/Draft.antt =====
-- src/cli/draft.rs and src/tools.rs: a tool runs for a call of `bob`.
use owlpost.Config.{get as get_in_config, Config, Tool}
use owlpost.Spool.Names.{FilePath-discrete}
use owlpost.Prelude.{
  ℕ, ◌≡◌, ◌≤◌, ◌*◌, nat_eq, if◌then◌else◌, refl, true, false, none, some, [], ◌∷◌, arith, inr,
}
use owlpost.Prelude.Results.{Result, ok, err}
use owlpost.Json.{str, empty, entry}
use owlpost.Record.{Record, inbox}
use owlpost.Envelope.{Payload, Kind, Body, Exit}
use owlpost.Error.{Error, message}
use owlpost.External.{External}
use owlpost.Answer.Home.{Home}
use owlpost.Tools.{System, Process, Outcome, wait_bounded}
use owlpost.Tools.Bounded.{wait_bounded-returns}
use owlpost.Cli.Draft.{DraftOpts, Drafting, Desk, run}
use owlpost.Cli.Draft.Spawns.{StartsOnly, Permitted, run-StartsOnly}
use owlpost.Tests.Data.{codec, external, question, config, stored, disk_with}
use owlpost.Tests.Content.{sources, patterns}

abbrev tool_payload : Payload
tool_payload = record question {
  id = "t1";
  kind = Kind.tool_call;
  body = Body.tool_call "test" (entry "package" (str "auth") empty) none;
}

abbrev calling : External
calling = record external { parse_payload = λ _. some tool_payload }

abbrev test_tool : Tool
test_tool = record {
  argv = "cargo" ∷ "test" ∷ [];
  cwd = some "web";
  timeout_ms = 1000;
  max_input_bytes = 100;
}

abbrev with_tool : Config
with_tool = record config {
  responder = record config.responder { tools = ("test", test_tool) ∷ [] };
}

-- A child that ends with the code 1 when it is polled for the third time.
abbrev failing : Process
failing = record {
  now = λ k. 50 * k;
  try_wait = λ k. ok (if nat_eq k 2 then some (some (Exit.code 1)) else none);
  wait_after_kill = some (ok none);
  readers_end = true;
  stdout = "1 failed";
  stderr = "";
}

abbrev system : System
system = record { compact = λ _. "{}"; home = "/home/me"; spawn = λ _. ok failing }

abbrev desk : Desk
desk = record {
  now = "now";
  elapsed = 100;
  runner = λ _ _. err (message "no harness");
  prompt_of = λ _. ok "prompt";
}

abbrev no_flags : DraftOpts
no_flags = record { harness = none; text = none; agent = false; prompt = false }

abbrev called : Drafting Record
called = record {
  home = record {
    disk = disk_with inbox "t1" (stored "tool" "pending");
    log = record {
      lines = [];
      open_line = false;
      read_fails = false;
      fault = owlpost.Answer.Home.appended;
    };
    released = [];
    has_key = true;
  };
  spawned = [];
}

abbrev drafted : Result Error Unit × Drafting Record
drafted =
    run ⦃e = calling⦄ ⦃c = codec⦄ ⦃w = system⦄ ⦃s = sources⦄ ⦃p = patterns⦄ desk with_tool no_flags
      "t1" called

is_drafted : drafted.0 ≡ ok tt
unfolding run FilePath-discrete get_in_config
is_drafted = refl

runs_once :
    drafted.1.spawned
    ≡ record {
      argv = "cargo" ∷ "test" ∷ [];
      current_dir = "/src/web";
      env = ("OWLPOST_TOOL", "1") ∷ ("OWLPOST_TOOL_NAME", "test") ∷ ("OWLPOST_PEER", "bob") ∷ [];
      stdin = "{}\n";
    }
      ∷ []
unfolding run FilePath-discrete get_in_config
runs_once = refl

run-StartsOnly_example :
    StartsOnly
      (Permitted ⦃e = calling⦄ ⦃c = codec⦄ ⦃w = system⦄ with_tool "t1" called.home)
      called
      drafted.1
run-StartsOnly_example =
    run-StartsOnly ⦃e = calling⦄ ⦃c = codec⦄ ⦃w = system⦄ ⦃s = sources⦄ ⦃p = patterns⦄ desk
      with_tool no_flags "t1" called

-- A child that runs on, as do the processes that hold its pipes.
abbrev hanging : Process
hanging = record failing { try_wait = λ _. ok none; readers_end = false }

sleeps : (k : ℕ) → 50 * k ≤ hanging.now k
sleeps k = omega arith

wait_bounded-returns_example : (o : Result Error Outcome) × (wait_bounded hanging 1000 ≡ some o)
wait_bounded-returns_example =
    wait_bounded-returns hanging 1000 sleeps (ok none, refl) (inr (λ k. refl))
