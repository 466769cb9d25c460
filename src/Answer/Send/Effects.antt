-- ===== src/Answer/Send/Effects.antt =====
-- src/answer.rs: what a `send` that succeeded has done, and what sending again does not do again.
use owlpost.Prelude.{
  String, ◌≡◌, refl, ap, subst, ◌∙◌, Bool, true, false, Option, none, some, [], ◌∷◌, any-append,
  eq_iff, arith,
}
use owlpost.Prelude.Results.{ok}
use owlpost.Prelude.Exec.{continue, after_ok, Preserves, >>=-Preserves}
use owlpost.Json.{str}
use owlpost.Record.{Record, outbox}
use owlpost.Envelope.{Payload}
use owlpost.External.{External}
use owlpost.Spool.{put}
use owlpost.Spool.Files.{Codec}
use owlpost.Answer.Draft.{StoredDraft}
use owlpost.Answer.Home.{
  Home, SendMode, OutgoingLine, OutgoingLog, line, appended, lost, cut, append_with, has_line,
  has_outgoing_line, append_outgoing, on_spool, is_line_of,
}
use owlpost.Answer.Home.Finish.{finish-log}
use owlpost.Answer.Send.{
  Sent, may_send, existing_answer, reuse_or_spool, spool_reply, reply_for, reply_record, put_cache,
  is_cacheable, log_with, log_once, outgoing_line, sent_event, finish_sent, log_and_finish, send,
}

-- An append that succeeded at the end of a whole line is found.
append_with-has_line :
    (fault : _) (l : OutgoingLine) (log : OutgoingLog) (u : Unit {0})
    → log.open_line ≡ false
    → (append_with fault l log).0 ≡ ok u
    → has_line l.question_id (append_with fault l log).1 ≡ true
unfolding has_line
append_with-has_line appended l log u whole h = ground (
  arith,
  any-append (is_line_of l.question_id) log.lines (line l ∷ []),
  eq_iff l.question_id l.question_id,
)
append_with-has_line lost l log u whole h = cc
append_with-has_line cut l log u whole h = cc

has_outgoing_line-ok :
    (id : String) (log : OutgoingLog) (found : Bool)
    → has_outgoing_line id log ≡ ok found
    → has_line id log ≡ found
unfolding has_outgoing_line
has_outgoing_line-ok id log found h = ground arith

module _ {B : Type 0} where
  log_with-has_line :
      (id : String) (l : OutgoingLine) (found : Bool) (h : Home B) (u : Unit {0})
      → l.question_id ≡ id
      → h.log.open_line ≡ false
      → (found ≡ true → has_line id h.log ≡ true)
      → (log_with l found h).0 ≡ ok u
      → has_line id (log_with l found h).1.log ≡ true
  unfolding append_outgoing
  log_with-has_line id l true h u same whole there worked = there refl
  log_with-has_line id l false h u same whole there worked =
      subst (λ x. has_line x (append_with h.log.fault l h.log).1 ≡ true) same
        (append_with-has_line h.log.fault l h.log u whole worked)

  log_once-has_line :
      (id : String) (l : OutgoingLine) (h : Home B) (u : Unit {0})
      → l.question_id ≡ id
      → h.log.open_line ≡ false
      → (log_once id l h).0 ≡ ok u
      → has_line id (log_once id l h).1.log ≡ true
  unfolding log_once
  log_once-has_line id l h u same whole =
      after_ok (λ h'. has_line id h'.log ≡ true) (has_outgoing_line id h.log, h) (log_with l) u
        (λ found looked.
          log_with-has_line id l found h u same whole
            (λ there. has_outgoing_line-ok id h.log found looked ∙ there))

put_cache-log :
    {B : Type 0} ⦃e : External⦄ ⦃c : Codec B⦄ (log : OutgoingLog) (cacheable : Bool)
    (hash : Option String) (out : Record)
    → Preserves (λ (h : Home B). h.log ≡ log) (put_cache cacheable hash out)
put_cache-log log true (some k) out h same = same
put_cache-log log true none out h same = same
put_cache-log log false hash out h same = same

module _ {B : Type 0} ⦃e : External⦄ ⦃c : Codec B⦄ (answer_id now id : String) (rec : Record) where
  -- The reply does not touch the log.
  spool_reply-log :
      (log : OutgoingLog) (question : Payload) (draft : StoredDraft) (hash : Option String)
      → Preserves
          (λ (h : Home B). h.log ≡ log)
          (spool_reply answer_id now id rec question draft hash)
  unfolding spool_reply
  spool_reply-log log question draft hash h same =
      >>=-Preserves (λ (h : Home B). h.log ≡ log)
        (λ h1. (reply_for answer_id now question rec draft, h1))
        (λ answer h1.
          continue (on_spool (put outbox answer.id (reply_record now id question answer hash)) h1)
            (λ _ h2.
              continue
                (put_cache (is_cacheable id question hash h.disk) hash
                  (reply_record now id question answer hash) h2)
                (λ _ h3. (ok (answer.id, answer.to), h3))))
        (λ h1 s1. s1)
        (λ answer.
          >>=-Preserves (λ (h : Home B). h.log ≡ log)
            (on_spool (put outbox answer.id (reply_record now id question answer hash)))
            (λ _ h2.
              continue
                (put_cache (is_cacheable id question hash h.disk) hash
                  (reply_record now id question answer hash) h2)
                (λ _ h3. (ok (answer.id, answer.to), h3)))
            (λ h1 s1. s1)
            (λ _.
              >>=-Preserves (λ (h : Home B). h.log ≡ log)
                (put_cache (is_cacheable id question hash h.disk) hash
                  (reply_record now id question answer hash))
                (λ _ h3. (ok (answer.id, answer.to), h3))
                (put_cache-log log (is_cacheable id question hash h.disk) hash
                  (reply_record now id question answer hash))
                (λ _ h3 s3. s3)))
        h same

  reuse_or_spool-log :
      (log : OutgoingLog) (question : Payload) (draft : StoredDraft) (hash : Option String)
      (found : Option (String × String))
      → Preserves
          (λ (h : Home B). h.log ≡ log)
          (reuse_or_spool answer_id now id rec question draft hash found)
  reuse_or_spool-log log question draft hash (some f) h same = same
  reuse_or_spool-log log question draft hash none h same =
      spool_reply-log log question draft hash h same

  log_and_finish-has_line :
      (question : Payload) (draft : StoredDraft) (mode : SendMode) (reply : String × String)
      (h : Home B) (sent : Sent)
      → h.log.open_line ≡ false
      → (log_and_finish now id rec question draft mode reply h).0 ≡ ok sent
      → has_line id (log_and_finish now id rec question draft mode reply h).1.log ≡ true
  unfolding log_and_finish outgoing_line
  log_and_finish-has_line question draft mode (aid, to) h sent whole =
      let l = outgoing_line now to id draft mode in
      after_ok (λ (h' : Home B). has_line id h'.log ≡ true) (log_once id l h)
        (λ _ h1. continue (finish_sent now id rec question.kind mode aid h1) (λ _ h2. (
          ok (record {
            answer_id = aid;
            to = to;
            harness = draft.harness;
            redactions = draft.redactions;
          }),
          h2,
        )))
        sent
        (λ u logged.
          after_ok (λ (h' : Home B). has_line id h'.log ≡ true)
            (finish_sent now id rec question.kind mode aid (log_once id l h).1)
            (λ _ h2. (
              ok (record {
                answer_id = aid;
                to = to;
                harness = draft.harness;
                redactions = draft.redactions;
              }),
              h2,
            ))
            sent
            (λ _ _ _.
              ap (has_line id) (
                finish-log now id rec "answered" (("answer_id", str aid) ∷ [])
                  (sent_event question.kind mode aid) (log_once id l h).1)
              ∙ log_once-has_line id l h u refl whole logged))

  -- When `send` has returned a success, the outgoing log has a line for the request, if the last line
  -- of the log was whole before.
  pub send-has_line :
      (mode : SendMode) (h : Home B) (sent : Sent)
      → h.log.open_line ≡ false
      → (send answer_id now id rec mode h).0 ≡ ok sent
      → has_line id (send answer_id now id rec mode h).1.log ≡ true
  unfolding send
  send-has_line mode h sent whole =
      after_ok (λ (h' : Home B). has_line id h'.log ≡ true) (may_send h.has_key id rec, h)
        (λ (checked : Payload × StoredDraft × Option String) h1.
          continue (existing_answer id h1.disk, h1)
            (λ found h2.
              continue (reuse_or_spool answer_id now id rec checked.0 checked.1 checked.2 found h2)
                (λ reply. log_and_finish now id rec checked.0 checked.1 mode reply)))
        sent
        (λ checked _.
          after_ok (λ (h' : Home B). has_line id h'.log ≡ true) (existing_answer id h.disk, h)
            (λ found h2.
              continue (reuse_or_spool answer_id now id rec checked.0 checked.1 checked.2 found h2)
                (λ reply. log_and_finish now id rec checked.0 checked.1 mode reply))
            sent
            (λ found _.
              after_ok (λ (h' : Home B). has_line id h'.log ≡ true)
                (reuse_or_spool answer_id now id rec checked.0 checked.1 checked.2 found h)
                (λ reply. log_and_finish now id rec checked.0 checked.1 mode reply) sent
                (λ reply _.
                  log_and_finish-has_line checked.0 checked.1 mode reply
                    (reuse_or_spool answer_id now id rec checked.0 checked.1 checked.2 found h).1
                    sent
                    (ap (λ (l : OutgoingLog). l.open_line)
                        (reuse_or_spool-log h.log checked.0 checked.1 checked.2 found h refl)
                      ∙ whole))))
