-- ===== src/Tests/Ask.antt =====
-- src/cli/ask.rs and src/cli/call.rs: a question and a tool call to `bob`, who takes them.
use owlpost.Spool.Names.{FilePath-discrete}
use owlpost.Prelude.{String, ◌≡◌, refl, false, Option, none, some, [], ◌∷◌}
use owlpost.Prelude.Results.{ok}
use owlpost.Json.{obj, str, empty, entry}
use owlpost.Envelope.{Payload}
use owlpost.External.{External}
use owlpost.Spool.Changes.{Readable}
use owlpost.Client.{Wire, Reply, down}
use owlpost.Pull.{OpenAsk}
use owlpost.Cli.Ask.{AskArgs, Fresh, waiting, asking, ask, parse_positionals}
use owlpost.Cli.Ask.Opens.{IsOpen, Parses, ask-IsOpen}
use owlpost.Cli.Request.{asking_tool, call_tool}
use owlpost.Cli.Request.Opens.{IsHeld, ReadsBack, call_tool-IsHeld}
use owlpost.Tests.Data.{codec, external, contact, empty_disk}

abbrev fresh : Fresh
fresh = record { now = "now"; id = "q1"; thread = "t1" }

abbrev args : AskArgs
args = record {
  project = "web";
  path = some "src/a.rs";
  question = "why?";
  no_cache = false;
  reply_to = none;
  context = none;
}

abbrev text_or : Option String → String
text_or none = ""
text_or (some s) = s

-- A payload as its thread, from which this test's question is read back.
abbrev plain : Payload
plain = asking ⦃e = external⦄ fresh contact args ""

abbrev by_thread : External
by_thread = record external {
  payload_text = λ p. text_or p.context_id;
  parse_payload = λ raw. some (record plain { context_id = some raw });
}

abbrev taken : Reply
taken = record { status = 202; signature = none; retry_after = none; body = [] }

abbrev wire : Wire
wire = record {
  tls_fails = λ _. false;
  dial = λ _ _. ok taken;
  over_endpoint = λ _ _ _. down "refused";
  to_bytes = λ _. [];
  from_utf8_lossy = λ _. "";
  from_slice = λ _. some (obj (entry "id" (str "q1") empty));
  outbox_items = λ _. none;
  status_error = λ _ _. "";
}

abbrev opened : OpenAsk
opened = record { id = "q1"; peer = "bob"; hash = "hash"; path = "src/a.rs"; threaded = false }

is_waiting :
    (ask ⦃e = by_thread⦄ ⦃w = wire⦄ ⦃c = codec⦄ fresh contact args empty_disk).0
    ≡ ok (waiting opened none)
unfolding ask FilePath-discrete
is_waiting = refl

readable : Readable ⦃c = codec⦄ empty_disk
readable p = refl

parses : (thread : String) → Parses ⦃e = by_thread⦄ fresh contact args thread
unfolding asking
parses thread = refl

two_positionals :
    parse_positionals (λ _. false) ("bob" ∷ "why?" ∷ []) none none
    ≡ ok (record { peer = some "bob"; path = none; question = "why?" })
unfolding parse_positionals
two_positionals = refl

ask-IsOpen_example :
    IsOpen ⦃e = by_thread⦄ ⦃c = codec⦄ contact opened
      (ask ⦃e = by_thread⦄ ⦃w = wire⦄ ⦃c = codec⦄ fresh contact args empty_disk).1
ask-IsOpen_example =
    ask-IsOpen ⦃e = by_thread⦄ ⦃w = wire⦄ ⦃c = codec⦄ contact (λ r. refl) fresh args parses
      empty_disk readable opened none is_waiting

-- A tool call as its thread
abbrev plain_call : Payload
plain_call = asking_tool ⦃e = external⦄ fresh contact "test" empty none ""

abbrev calls_by_thread : External
calls_by_thread = record external {
  payload_text = λ p. text_or p.context_id;
  parse_payload = λ raw. some (record plain_call { context_id = some raw });
}

reads_back :
    (thread : String)
    → ReadsBack ⦃e = calls_by_thread⦄
        (asking_tool ⦃e = calls_by_thread⦄ fresh contact "test" empty none thread)
unfolding asking_tool
reads_back thread = refl

is_taken :
    (call_tool ⦃e = calls_by_thread⦄ ⦃w = wire⦄ ⦃c = codec⦄ fresh contact "test" empty none none
      empty_disk).0
    ≡ ok "q1"
unfolding call_tool FilePath-discrete
is_taken = refl

call_tool-IsHeld_example :
    IsHeld ⦃e = calls_by_thread⦄ ⦃c = codec⦄ contact "q1"
      (call_tool ⦃e = calls_by_thread⦄ ⦃w = wire⦄ ⦃c = codec⦄ fresh contact "test" empty none none
        empty_disk).1
call_tool-IsHeld_example =
    call_tool-IsHeld ⦃e = calls_by_thread⦄ ⦃w = wire⦄ ⦃c = codec⦄ contact (λ r. refl) empty_disk
      readable fresh "test" empty none none reads_back "q1" is_taken
