-- ===== src/Tests/Data.antt =====
-- The data of the tests: a codec that stores records as they are, the code outside the program, a
-- question of the peer `bob`, and a daemon that has `bob` among its contacts.
use owlpost.Prelude.{
  ℕ, String, true, false, none, some, [], ◌∷◌, ◌==◌, if◌then◌else◌, ltb, ◌+◌, ◌-◌, ◌*◌, ◌/◌,
}
use owlpost.Json.{Map, null, num, str, obj, empty, entry}
use owlpost.Record.{Record, Dir}
use owlpost.Envelope.{Payload, Kind, Body}
use owlpost.Config.{Config}
use owlpost.Contacts.{Contact, Mode}
use owlpost.External.{External}
use owlpost.Spool.Names.{record_path}
use owlpost.Spool.Files.{Codec, Disk, no_faults}
use owlpost.Server.State.{F64, AppState}
use owlpost.Server.Post.{Request, complete}

abbrev pub codec : Codec Record
codec = record { to_vec_pretty = λ r. r; from_slice = λ r. some r }

-- Whole seconds in place of `f64`.
abbrev pub floats : F64 ℕ
floats = record {
  of_u64 = λ n. n;
  add = λ a b. a + b;
  sub = λ a b. a - b;
  mul = λ a b. a * b;
  div = λ a b. a / b;
  max = λ a b. if ltb a b then b else a;
  min = λ a b. if ltb a b then a else b;
  at_least = λ a b. if ltb a b then false else true;
  ceil = λ n. n;
}

abbrev pub question : Payload
question = record {
  v = 1;
  id = "q1";
  kind = Kind.question;
  from = "bob";
  to = "me";
  ts = "2001-09-09T01:46:40Z";
  in_reply_to = none;
  context_id = none;
  body = Body.question "web" none "why?" none;
}

abbrev pub answer : Payload
answer = record {
  v = 1;
  id = "a1";
  kind = Kind.answer;
  from = "me";
  to = "bob";
  ts = "2001-09-09T01:46:40Z";
  in_reply_to = some "q1";
  context_id = none;
  body = Body.answer "because" "human" 0 false;
}

abbrev pub question_object : Map
question_object =
    entry "body" (obj (entry "project" (str "web") (entry "question" (str "why?") empty))) (
      entry "from" (str "bob") (
        entry "id" (str "q1") (
          entry "to" (str "me") (
            entry "ts" (str "2001-09-09T01:46:40Z")
              (entry "type" (str "question") (entry "v" (num 1) empty))))))

abbrev pub external : External
external = record {
  parse_value = λ _. some (obj question_object);
  value_payload = λ _. some question;
  parse_payload = λ raw. if raw == "answer" then some answer else some question;
  payload_text = λ _. "answer";
  map_bytes = λ _. 2;
  parse_pubkey = λ k. some k;
  parse_sig = λ s. some s;
  verify = λ _ _ _. true;
  own_fingerprint = "me";
  sign = λ _. "signed";
  sha256 = λ _. "hash";
  lowercase = λ t. t;
  join = λ dir id. some (dir, id);
  stray_write = λ dir id. false;
  render = λ _. "error";
}

abbrev pub config : Config
config = record {
  name = "me";
  rate_limit_per_peer_per_hour = 10;
  responder = record {
    enabled = true;
    harness = "claude";
    private_memory = false;
    redact = [];
    timeout_secs = 60;
    memory_root = none;
    tools = [];
  };
  projects = ("web", "/src/web") ∷ [];
}

abbrev pub contact : Contact
contact = record {
  name = "Bob";
  emails = [];
  pubkey = "bob-key";
  endpoints = [];
  source = "global";
  policy = some (record { mode = Mode.auto; projects = []; rate_limit_per_hour = none });
  added_at = none;
  fingerprint = "bob";
}

abbrev pub stored : (raw state : String) → Record
stored raw state = record {
  raw = raw;
  sig = "signed";
  state = state;
  seen = false;
  received_at = "2001-09-09T01:46:40Z";
  draft = none;
  meta = null;
}

abbrev pub empty_disk : Disk Record
empty_disk = record { files = []; faults = no_faults }

-- One record in one directory.
abbrev pub disk_with : Dir → String → Record → Disk Record
disk_with dir id rec = record { files = (record_path dir id, rec) ∷ []; faults = no_faults }

abbrev pub daemon : AppState Record ℕ
daemon = record {
  config = config;
  contacts = some (contact ∷ []);
  disk = empty_disk;
  seen = [];
  seen_file = [];
  save_fails = none;
  buckets = [];
  routed = [];
  events = [];
}

abbrev pub request : Request
request = record { peer = some "bob"; upload = complete "body"; signature = some (some "signed") }
