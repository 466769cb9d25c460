-- ===== src/Cli/Ask/Opens.antt =====
-- src/cli/ask.rs and src/pull.rs: an ask that the peer has accepted is one that the daemon pulls for.
use owlpost.Prelude.{String, not, subst, ◌≡◌, refl, Option, none, some, ◌==◌, Bool-cases, inl, inr}
use owlpost.Prelude.Results.{Result, ok, err}
use owlpost.Prelude.Exec.{Exec, continue, lift}
use owlpost.Json.{obj, insert, lookup, get as get_field, get_str, as_str, str_of}
use owlpost.Record.{Record, asks, done, meta_object}
use owlpost.Contacts.{Contact}
use owlpost.Envelope.{Payload, new_question}
use owlpost.Envelope.Signed.{Envelope}
use owlpost.Error.{Error}
use owlpost.Events.{push}
use owlpost.External.{External}
use owlpost.Question.{question_hash}
use owlpost.Spool.{get, put}
use owlpost.Spool.Files.{Codec, Disk}
use owlpost.Spool.Changes.{get-of_put, Readable}
use owlpost.Client.{
  Wire, SendOutcome, answered, accepted, refused, rate_limited, no_transport, send_question,
}
use owlpost.Pull.{OpenAsk, open_ask, or_text, non_empty, answer_record, store_answer}
use owlpost.Pull.Ingest.{Laws}
use owlpost.Cli.Ask.{
  AskArgs, Asked, waiting, Fresh, asking, sign_payload, ask_record, open_ask_of, ask_meta, keep_ask,
  keep_answer, is_threaded, answered_record, keep_outcome, send_unless_cached, cached_answer,
  thread_for, ask,
}

-- The record of an accepted ask
abbrev record_of : ⦃e : External⦄ → Fresh → Contact → AskArgs → (thread : String) → Record
record_of fresh contact args thread = push fresh.now "asked" (some "human") none (
    ask_record fresh.now (sign_payload (asking fresh contact args thread)) "waiting"
      (obj (ask_meta contact args)))

pub same_or : (s : String) → or_text s (non_empty (some s)) ≡ s
same_or s = elim (Bool-cases (s == "")) [ inl blank ↦ rw blank refl | inr kept ↦ rw kept refl ]

waiting-injective :
    {o o' : OpenAsk} {state state' : Option String}
    → ◌≡◌ {A = Result Error Asked} (ok (waiting o state)) (ok (waiting o' state'))
    → o ≡ o'
waiting-injective h = cc

-- serde_json reads back the question that it wrote.
abbrev pub Parses : ⦃e : External⦄ → Fresh → Contact → AskArgs → (thread : String) → Type 0
Parses ⦃e⦄ fresh contact args thread =
    e.parse_payload (e.payload_text (asking fresh contact args thread))
    ≡ some (asking fresh contact args thread)

record_of-IsOpen :
    ⦃e : External⦄ (fresh : Fresh) (contact : Contact) (args : AskArgs) (thread id : String)
    → Parses fresh contact args thread
    → open_ask (id, record_of fresh contact args thread) ≡ some (open_ask_of contact args id)
unfolding open_ask push ask_record sign_payload asking new_question get_field get_str lookup insert
    as_str str_of meta_object question_hash
record_of-IsOpen fresh contact args thread id parses =
    rw
      (
        parses,
        same_or contact.fingerprint,
        same_or (question_hash args.project args.path args.question),
      )
      refl

-- The open ask stands in `asks`, put to the contact.
pub record IsOpen {B : Type 0} ⦃e : External⦄ ⦃c : Codec B⦄ (contact : Contact) (o : OpenAsk)
    (d : Disk B) : Type 0 where
  pub rec : Record
  pub stored : get asks o.id d ≡ ok (some rec)
  pub opens : open_ask (o.id, rec) ≡ some o
  pub asked : o.peer ≡ contact.fingerprint

module _ {B : Type 0} ⦃e : External⦄ ⦃w : Wire⦄ ⦃c : Codec B⦄ (contact : Contact) where
  -- A run that ends with an open ask has stored it.
  record Opens (r : Result Error Asked × Disk B) : Type 0 where
    when_waiting :
        (o : OpenAsk) (state : Option String) → r.0 ≡ ok (waiting o state) → IsOpen contact o r.1

  continue-Opens :
      {A : Type 0} (r : Result Error A × Disk B) (k : A → Exec Error (Disk B) Asked)
      → ((a : A) → r.0 ≡ ok a → Opens (k a r.1))
      → Opens (continue r k)
  continue-Opens (ok a, s) k h = h a refl
  continue-Opens (err e, s) k h = record { when_waiting = λ o state e. cc }

  raise-Opens : (e : Error) (d : Disk B) → Opens (err e, d)
  raise-Opens e d = record { when_waiting = λ o state h. cc }

  module _ (laws : Laws c) (fresh : Fresh) (args : AskArgs)
      (parses : (thread : String) → Parses fresh contact args thread) (d : Disk B)
      (readable : Readable d) where
    keep_ask-Opens :
        (thread id : String) (state : Option String)
        → Opens (
            keep_ask fresh contact args
              (sign_payload (asking fresh contact args thread))
              id
              state
              d)
    unfolding keep_ask
    keep_ask-Opens thread id state =
        continue-Opens (put asks id (record_of fresh contact args thread) d) _ (λ u stored. record {
          when_waiting = λ o s h.
              subst
                (λ (x : OpenAsk).
                  IsOpen contact x (put asks id (record_of fresh contact args thread) d).1)
                (waiting-injective h)
                (record {
                  rec = record_of fresh contact args thread;
                  stored =
                      get-of_put asks id (record_of fresh contact args thread) d u (laws _) readable
                        stored;
                  opens = record_of-IsOpen fresh contact args thread id (parses thread);
                  asked = refl;
                });
        })

    keep_answer-Opens :
        (env : Envelope) (answer : Payload) (answer_env : Envelope)
        → Opens (keep_answer fresh contact args env answer answer_env d)
    unfolding keep_answer
    keep_answer-Opens env answer answer_env =
        continue-Opens
          (store_answer
            (answer_record fresh.now answer_env answer (open_ask_of contact args fresh.id)
              contact.fingerprint)
            answer.id (question_hash args.project args.path args.question) (not (is_threaded args))
            d)
          _
          (λ _ _.
            continue-Opens
              (put done fresh.id (answered_record fresh contact args env answer)
                (store_answer
                  (answer_record fresh.now answer_env answer (open_ask_of contact args fresh.id)
                    contact.fingerprint)
                  answer.id (question_hash args.project args.path args.question)
                  (not (is_threaded args)) d).1)
              _ (λ _ _. record { when_waiting = λ o s h. cc }))

    keep_outcome-Opens :
        (thread : String) (o : SendOutcome)
        → Opens
            (keep_outcome fresh contact args (sign_payload (asking fresh contact args thread)) o d)
    keep_outcome-Opens thread (answered answer answer_env) = keep_answer-Opens _ answer answer_env
    keep_outcome-Opens thread (accepted id state) = keep_ask-Opens thread id state
    keep_outcome-Opens thread refused = raise-Opens _ d
    keep_outcome-Opens thread (rate_limited s) = raise-Opens _ d
    keep_outcome-Opens thread (no_transport errors) = raise-Opens _ d

    send-Opens :
        (thread : String) (hit : Option Payload)
        → Opens (send_unless_cached fresh contact args thread hit d)
    send-Opens thread (some hit) = record { when_waiting = λ o s h. cc }
    send-Opens thread none =
        continue-Opens
          (lift (send_question contact (sign_payload (asking fresh contact args thread))) d) _
          (λ outcome _. keep_outcome-Opens thread outcome)

    ask-Opens : Opens (ask fresh contact args d)
    unfolding ask
    ask-Opens =
        continue-Opens (lift (thread_for fresh contact args.reply_to d) d) _
          (λ thread _. send-Opens thread (cached_answer args d))

    -- An ask that the peer has accepted stands in `asks` under its id, and the pull loop reads that
    -- record as the open ask that `owl ask` reports: put to this contact, under the same hash. That
    -- no read fails and that serde_json reads back the records and the question that it wrote are
    -- hypotheses.
    pub ask-IsOpen :
        (o : OpenAsk) (state : Option String)
        → (ask fresh contact args d).0 ≡ ok (waiting o state)
        → IsOpen contact o (ask fresh contact args d).1
    ask-IsOpen o state h = ask-Opens.when_waiting o state h
