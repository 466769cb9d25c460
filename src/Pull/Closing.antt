-- ===== src/Pull/Closing.antt =====
-- src/pull.rs: how an ingested answer leaves the ask.
use owlpost.Prelude.{
  String, ◌≡◌, refl, sym, ap, subst, ◌∙◌, Bool, true, false, not, ◌&&◌, Option, none, some, List,
  ◌==◌, if◌then◌else◌,
}
use owlpost.Prelude.Results.{Result, ok, err, ok-injective}
use owlpost.Prelude.Exec.{continue-state, continue-ok, pure}
use owlpost.Record.{Record, Dir, asks, done, inbox, cache}
use owlpost.Error.{Error}
use owlpost.Envelope.{Payload}
use owlpost.Envelope.Signed.{Envelope}
use owlpost.Events.{push}
use owlpost.External.{External}
use owlpost.Contacts.{Contact}
use owlpost.Client.{Wire, verify_answer}
use owlpost.Spool.{get, cache_put, set_state_with_event}
use owlpost.Spool.Files.{Codec, Disk}
use owlpost.Spool.Atomic.{put-Replaces}
use owlpost.Spool.Changes.{Readable, move_and_update}
use owlpost.Spool.Others.{dir_apart}
use owlpost.Pull.{
  OpenAsk, Ingested, Verdict, ingested, find_ask, answer_record, put_at, put_unchecked,
  store_answer, is_answer, close, ingest_answer, ingest_for, ingest_verified, ingest_envelope,
}
use owlpost.Client.Verified.{verify_answer-ok}
use owlpost.Pull.Ingest.{Laws, StaysInside, store_answer-others}

-- The record of an ask after its answer.
abbrev pub answered_record : String → Record → Record
answered_record now rec = push now "answer-received" none none (record rec { state = "answered" })

module _ {B : Type 0} ⦃e : External⦄ ⦃c : Codec B⦄ where
  cache_step-faults :
      (t : Bool) (hash : String) (rec : Record) (d : Disk B)
      → ((if t then cache_put hash rec else pure tt) d).1.faults ≡ d.faults
  unfolding cache_put
  cache_step-faults true hash rec d = (put-Replaces cache hash rec d).faults
  cache_step-faults false hash rec d = refl

  put_at-faults :
      (dir : Dir) (id : String) (at : Option (Dir × String)) (rec : Record) (d : Disk B)
      → (put_at dir id at rec d).1.faults ≡ d.faults
  put_at-faults dir id none rec d = refl
  put_at-faults dir id (some (dir', id')) rec d = (put-Replaces dir' id' rec d).faults

  put_unchecked-faults :
      (dir : Dir) (id : String) (rec : Record) (d : Disk B)
      → (put_unchecked dir id rec d).1.faults ≡ d.faults
  unfolding put_unchecked
  put_unchecked-faults dir id rec d = put_at-faults dir id (e.join dir id) rec d

  pub store_answer-faults :
      (rec : Record) (id hash : String) (t : Bool) (d : Disk B)
      → (store_answer rec id hash t d).1.faults ≡ d.faults
  unfolding store_answer
  store_answer-faults rec id hash t d =
      let first = put_unchecked-faults inbox id rec d in
      continue-state (λ s. s.faults ≡ d.faults) (put_unchecked inbox id rec d) _ first
        (λ _ _. cache_step-faults t hash rec (put_unchecked inbox id rec d).1 ∙ first)

module _ {B : Type 0} ⦃c : Codec B⦄ where
  abbrev pub IsAnswered : String → String → Record → Disk B → Type 0
  IsAnswered now id rec d =
      (get asks id d ≡ ok none) × (get done id d ≡ ok (some (answered_record now rec)))

  close-answers :
      (now id : String) (d : Disk B) (rec : Record) (u : Unit {0})
      → Laws c
      → Readable d
      → get asks id d ≡ ok (some rec)
      → (close now asks id "answered" "answer-received" none d).0 ≡ ok u
      → IsAnswered now id rec (close now asks id "answered" "answer-received" none d).1
  unfolding close set_state_with_event
  close-answers now id d rec u laws readable there worked =
      move_and_update asks id done _ d rec u (dir_apart (λ e. cc)) laws readable there worked

module _ {B : Type 0} ⦃e : External⦄ ⦃w : Wire⦄ ⦃c : Codec B⦄ (now : String) (contact : Contact)
    (laws : Laws c) (env : Envelope) (d : Disk B) (readable : Readable d) (inside : StaysInside env)
    (rec : Record) (ing : Ingested) (there : get asks ing.ask.id d ≡ ok (some rec)) where
  abbrev Closed : Result Error Verdict × Disk B → Type 0
  Closed r = r.0 ≡ ok (ingested ing) → IsAnswered now ing.ask.id rec r.1

  abbrev its_ask : Ingested → Verdict → OpenAsk
  its_ask other (ingested i) = i.ask
  its_ask other v = other.ask

  ingest_answer-closes :
      (answer : Payload) (ask : OpenAsk)
      → e.join inbox answer.id ≡ some (inbox, answer.id)
      → Closed (ingest_answer now contact env answer ask d)
  unfolding ingest_answer
  ingest_answer-closes answer ask joined worked =
      let storing =
        store_answer (answer_record now env answer ask contact.fingerprint) answer.id ask.hash
          (not ask.threaded && is_answer answer.kind && not (ask.hash == "")) d in
      let (_, _, e1) = continue-ok storing _ worked in
      let closing = close now asks ask.id "answered" "answer-received" none storing.1 in
      let (u, closed, e2) =
        continue-ok closing _ (ap (λ (r : Result Error Verdict × Disk B). r.0) (sym e1) ∙ worked) in
      let ends = e1 ∙ e2 in
      let same : ask ≡ ing.ask =
        ap (its_ask ing)
          (ok-injective (ap (λ (r : Result Error Verdict × Disk B). r.0) (sym ends) ∙ worked)) in
      let readable1 : Readable storing.1 =
        λ p. ap (λ f. f.read p) (store_answer-faults _ answer.id ask.hash _ d) ∙ readable p in
      let open_still =
        store_answer-others _ answer.id ask.hash _ d asks ask.id joined (λ e. cc) (λ e. cc)
        ∙ ap (λ (a : OpenAsk). get asks a.id d) same
        ∙ there in
      let answered = close-answers now ask.id storing.1 rec u laws readable1 open_still closed in
      subst (IsAnswered now ing.ask.id rec)
        (ap (λ (r : Result Error Verdict × Disk B). r.1) (sym ends))
        (subst (λ (a : OpenAsk). IsAnswered now a.id rec closing.1) same answered)

  ingest_for-closes :
      (answer : Payload) (found : Option OpenAsk)
      → e.join inbox answer.id ≡ some (inbox, answer.id)
      → Closed (ingest_for now contact env answer found d)
  ingest_for-closes answer none joined worked = cc
  ingest_for-closes answer (some ask) joined worked = ingest_answer-closes answer ask joined worked

  ingest_verified-closes :
      (open_asks : List OpenAsk) (r : Result Error Payload)
      → verify_answer contact env none ≡ r
      → Closed (ingest_verified now contact open_asks env r d)
  ingest_verified-closes open_asks (err x) verified worked = cc
  ingest_verified-closes open_asks (ok answer) verified worked =
      ingest_for-closes answer (find_ask contact.fingerprint answer.in_reply_to open_asks)
        (inside answer (verify_answer-ok contact env none answer verified).0.parsed) worked

  -- Where an envelope was ingested and the id of the reply in it is no path that leads to another
  -- record, the ask that it answers, which was in `asks` before, is gone from there and stands in
  -- `done` as answered, with the event of the answer. That no read fails and that serde_json reads
  -- back the record that it wrote are hypotheses.
  pub ingest_envelope-closes :
      (open_asks : List OpenAsk)
      → (ingest_envelope now contact open_asks env d).0 ≡ ok (ingested ing)
      → IsAnswered now ing.ask.id rec (ingest_envelope now contact open_asks env d).1
  unfolding ingest_envelope
  ingest_envelope-closes open_asks worked =
      ingest_verified-closes open_asks (verify_answer contact env none) refl worked
