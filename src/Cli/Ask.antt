-- ===== src/Cli/Ask.antt =====
-- src/cli/ask.rs: `owl ask`, from the arguments that are read and the peer that is resolved to the
-- record of the ask.
pub mod Opens
use owlpost.Prelude.{
  String, Bool, true, false, not, ◌&&◌, ◌||◌, Option, none, some, List, [], ◌∷◌, ◌==◌,
  if◌then◌else◌, is_some,
}
use owlpost.Prelude.Results.{Result, ok, err, ok_or}
use owlpost.Prelude.Exec.{Exec, ◌>>=◌, ◌>>◌, pure, raise, lift, gets}
use owlpost.Json.{Value, str, bool, obj, empty, insert}
use owlpost.Record.{Record, Dir, asks, done, inbox}
use owlpost.Contacts.{Contact}
use owlpost.Envelope.{Payload, Kind, Body, is_request, new_question}
use owlpost.Envelope.Signed.{Envelope}
use owlpost.Error.{Error, message}
use owlpost.Events.{push}
use owlpost.External.{External}
use owlpost.Question.{question_hash}
use owlpost.Spool.{get, put, cache_get}
use owlpost.Spool.Files.{Codec, Disk}
use owlpost.Client.{
  Wire, SendOutcome, answered, accepted, refused, rate_limited, no_transport, send_question,
}
use owlpost.Pull.{OpenAsk, answer_record, store_answer}

-- A missing positional
abbrev pub missing : String → Error
missing what = message what

-- `Parsed`
pub record ParsedAsk : Type 0 where
  pub peer : Option String
  pub path : Option String
  pub question : String

abbrev take_peer :
    Option String → Option String → List String → Result Error (Option String × List String)
take_peer (some peer) _ args = ok (some peer, args)
take_peer none (some _) args = ok (none, args)
take_peer none none [] = err (missing "missing <peer>")
take_peer none none (peer ∷ args) = ok (some peer, args)

abbrev take_path : Option String → List String → Option String × List String
take_path (some file) args = (some file, args)
take_path none (path ∷ question ∷ args) = (some path, question ∷ args)
take_path none args = (none, args)

abbrev take_question :
    (String → Bool) → Option String → Option String × List String → Result Error ParsedAsk
take_question blank peer (path, []) = err (missing "missing <question>")
take_question blank peer (path, question ∷ []) =
    if blank question
    then err (message "question is empty")
    else ok (record { peer = peer; path = path; question = question })
take_question blank peer (path, question ∷ extra ∷ args) = err (message "unexpected argument")

-- `parse_positionals`; `blank` tells whether a text is white space.
unfoldable pub parse_positionals :
    (String → Bool) → List String → (peer_flag file_flag : Option String) → Result Error ParsedAsk
parse_positionals blank args peer_flag file_flag =
    owlpost.Prelude.Results.◌>>=◌ (take_peer peer_flag file_flag args)
      λ (p : Option String × List String). take_question blank p.0 (take_path file_flag p.1)

-- What is asked. `context` is the snippet as `read_context` gives it.
pub record AskArgs : Type 0 where
  pub project : String
  pub path : Option String
  pub question : String
  pub no_cache : Bool
  pub reply_to : Option String
  pub context : Option String

-- How an ask ends: with an answer of the cache, with one of the peer, or with an open ask.
pub data Asked : Type 0 where
  from_cache from_peer : Payload → Asked
  waiting : OpenAsk → Option String → Asked

abbrev is_threaded : AskArgs → Bool
is_threaded args = is_some args.reply_to || is_some args.context

-- The fresh values of a run: the time, the id of the question, and that of a new thread.
pub record Fresh : Type 0 where
  pub now : String
  pub id : String
  pub thread : String

abbrev with_context : Option String → Body → Body
with_context context (Body.question project path text _) = Body.question project path text context
with_context context body = body

-- The question that is sent
unfoldable pub asking : ⦃e : External⦄ → Fresh → Contact → AskArgs → (thread : String) → Payload
unfolding new_question
asking ⦃e⦄ fresh contact args thread =
    let p =
      new_question fresh.id fresh.now e.own_fingerprint contact.fingerprint args.project args.path
        args.question in
    record p { context_id = some thread; body = with_context args.context p.body }

-- `Envelope::sign`
unfoldable pub sign_payload : ⦃e : External⦄ → Payload → Envelope
sign_payload ⦃e⦄ payload = record {
  raw = e.payload_text payload;
  sig = e.sign (e.payload_text payload);
}

-- `record`
unfoldable pub ask_record : (now : String) → Envelope → (state : String) → Value → Record
ask_record now env state meta = record {
  raw = env.raw;
  sig = env.sig;
  state = state;
  seen = false;
  received_at = now;
  draft = none;
  meta = meta;
}

abbrev found_in : Result Error (Option Record) → Option Record
found_in (ok found) = found
found_in (err _) = none

abbrev or_next : Option Record → Option Record → Option Record
or_next (some rec) _ = some rec
or_next none next = next

abbrev parse_found : ⦃e : External⦄ → Option Record → Option Payload
parse_found none = none
parse_found ⦃e⦄ (some rec) = e.parse_payload rec.raw

abbrev thread_in : Contact → Payload → Result Error String
thread_in contact payload =
    if not ((if is_request payload.kind then payload.to else payload.from) == contact.fingerprint)
    then err (message "asked to another peer")
    else ok_or payload.context_id (message "carries no thread id")

abbrev an_answer : Payload → Option Payload
an_answer payload = elim payload.kind [ Kind.answer ↦ some payload | _ ↦ none ]

abbrev answer_in : Option Payload → Option Payload
answer_in none = none
answer_in (some payload) = an_answer payload

abbrev pub open_ask_of : ⦃e : External⦄ → Contact → AskArgs → (id : String) → OpenAsk
open_ask_of contact args id = record {
  id = id;
  peer = contact.fingerprint;
  hash = question_hash args.project args.path args.question;
  path = elim args.path [ none ↦ "-" | some path ↦ path ];
  threaded = is_threaded args;
}

abbrev pub ask_meta : ⦃e : External⦄ → Contact → AskArgs → owlpost.Json.Map
ask_meta contact args = insert "peer" (str contact.fingerprint) (
    insert "hash" (str (question_hash args.project args.path args.question))
      (insert "threaded" (bool (is_threaded args)) empty))

module _ {B : Type 0} ⦃e : External⦄ ⦃c : Codec B⦄ where
  -- `thread_of`
  unfoldable pub thread_of : (id : String) → Contact → Disk B → Result Error String
  unfolding get is_request
  thread_of id contact d =
      owlpost.Prelude.Results.◌>>=◌
        (ok_or
          (parse_found (
            or_next (found_in (get asks id d))
              (or_next (found_in (get done id d)) (found_in (get inbox id d)))))
          (message "no exchange"))
        (thread_in contact)

  -- `cache_lookup`
  unfoldable pub cache_lookup : (hash : String) → Disk B → Option Payload
  unfolding cache_get
  cache_lookup hash d = answer_in (parse_found (found_in (cache_get hash d)))

  abbrev pub thread_for : Fresh → Contact → Option String → Disk B → Result Error String
  thread_for fresh contact none d = ok fresh.thread
  thread_for fresh contact (some id) d = thread_of id contact d

abbrev pub answered_record :
    ⦃e : External⦄ → Fresh → Contact → AskArgs → Envelope → Payload → Record
answered_record fresh contact args env answer = push fresh.now "answer-received" none none (
    push fresh.now "asked" (some "human") none (
      ask_record fresh.now env "answered"
        (obj (insert "answer" (str answer.id) (ask_meta contact args)))))

module _ {B : Type 0} ⦃e : External⦄ ⦃w : Wire⦄ ⦃c : Codec B⦄ where
  -- The answer came at once: it is stored, and the question with it.
  unfoldable pub keep_answer :
      Fresh → Contact → AskArgs → Envelope → Payload → Envelope → Exec Error (Disk B) Asked
  unfolding store_answer answer_record put push insert ask_record question_hash
  keep_answer fresh contact args env answer answer_env =
      store_answer
        (answer_record fresh.now answer_env answer (open_ask_of contact args fresh.id)
          contact.fingerprint)
        answer.id (question_hash args.project args.path args.question) (not (is_threaded args))
      >> (put done fresh.id (answered_record fresh contact args env answer)
          >> pure (from_peer answer))

  -- The peer has taken the question: the ask is open under its id.
  unfoldable pub keep_ask :
      Fresh
      → Contact
      → AskArgs
      → Envelope
      → (id : String) → Option String
      → Exec Error (Disk B) Asked
  unfolding put push insert ask_record question_hash
  keep_ask fresh contact args env id state =
      put asks id (
        push fresh.now "asked" (some "human") none
          (ask_record fresh.now env "waiting" (obj (ask_meta contact args))))
      >> pure (waiting (open_ask_of contact args id) state)

  abbrev keep_outcome :
      Fresh → Contact → AskArgs → Envelope → SendOutcome → Exec Error (Disk B) Asked
  keep_outcome fresh contact args env (answered answer answer_env) =
      keep_answer fresh contact args env answer answer_env
  keep_outcome fresh contact args env (accepted id state) = keep_ask fresh contact args env id state
  keep_outcome fresh contact args env refused = raise (message "unavailable")
  keep_outcome fresh contact args env (rate_limited _) = raise (message "rate limited")
  keep_outcome fresh contact args env (no_transport _) = raise (message "offline")

  abbrev cached_answer : AskArgs → Disk B → Option Payload
  cached_answer args d =
      if not args.no_cache && not (is_threaded args)
      then cache_lookup (question_hash args.project args.path args.question) d
      else none

  abbrev send_unless_cached :
      Fresh → Contact → AskArgs → (thread : String) → Option Payload → Exec Error (Disk B) Asked
  send_unless_cached fresh contact args thread (some hit) = pure (from_cache hit)
  send_unless_cached fresh contact args thread none =
      lift (send_question contact (sign_payload (asking fresh contact args thread)))
      >>= keep_outcome fresh contact args (sign_payload (asking fresh contact args thread))

  -- `run`, from the resolved peer on, without `--wait`
  unfoldable pub ask : Fresh → Contact → AskArgs → Exec Error (Disk B) Asked
  unfolding thread_of cache_lookup question_hash asking sign_payload send_question keep_answer
      keep_ask
  ask fresh contact args d =
      (lift (thread_for fresh contact args.reply_to d) >>= λ (thread : String).
      gets (cached_answer args) >>= send_unless_cached fresh contact args thread)
        d
