-- ===== src/Answer/Send/Retries.antt =====
-- src/answer.rs: a `send` that finds the reply of an earlier one signs and spools no second one.
use owlpost.Prelude.{
  String, ◌≡◌, ◌≢◌, refl, sym, ap, ◌∙◌, Bool, true, false, Option, none, some, List, [], ◌∷◌,
}
use owlpost.Prelude.Results.{ok, ok-injective}
use owlpost.Prelude.Exec.{continue, continue-state}
use owlpost.Json.{Value, str}
use owlpost.Record.{Record, Dir, inbox, done}
use owlpost.Envelope.{Payload}
use owlpost.External.{External}
use owlpost.Spool.{put}
use owlpost.Spool.Names.{FilePath, record_path}
use owlpost.Spool.Files.{Codec, Disk, at}
use owlpost.Spool.Atomic.{put-Replaces, temp-ne-record, remove_file-at}
use owlpost.Answer.Draft.{StoredDraft}
use owlpost.Answer.Home.{
  Home, SendMode, OutgoingLine, has_outgoing_line, Ev, finish, finished, finishing_error,
}
use owlpost.Answer.Home.Finish.{remove_step}
use owlpost.Answer.Send.{
  may_send, existing_answer, reuse_or_spool, log_with, log_once, outgoing_line, sent_event,
  finish_sent, log_and_finish, send,
}

module _ {B : Type 0} ⦃e : External⦄ ⦃c : Codec B⦄ (dir : Dir) (id' : String)
    (not_inbox : inbox ≢ dir) (not_done : done ≢ dir) (d : Disk B) where
  -- The record reads as on the disk `d`.
  abbrev Same : Home B → Type 0
  Same h = at (record_path dir id') h.disk ≡ at (record_path dir id') d

  finish-Same :
      (now id : String) (rec : Record) (state : String) (extra : List (String × Value)) (event : Ev)
      (h : Home B)
      → Same h
      → Same (finish now id rec state extra event h).1
  unfolding finish
  finish-Same now id rec state extra event h same =
      let closed = finished now rec state extra event in
      let kept =
        (put-Replaces done id closed h.disk).others (record_path dir id')
          (λ e. temp-ne-record done dir id id' (sym e))
          (λ e. not_done (sym (ap (λ (p : FilePath). p.dir) e)))
        ∙ same in
      continue-state Same
        (
          finishing_error id (put done id closed h.disk).0,
          record h { disk = (put done id closed h.disk).1 },
        )
        (remove_step id) kept
        (λ _ _.
          remove_file-at (record_path inbox id) (record_path dir id') (put done id closed h.disk).1
            (λ e. not_inbox (ap (λ (p : FilePath). p.dir) e))
          ∙ kept)

  log_with-disk :
      (l : OutgoingLine) (found : Bool) (h : Home B) → Same h → Same (log_with l found h).1
  log_with-disk l true h same = same
  log_with-disk l false h same = same

  log_once-Same : (id : String) (l : OutgoingLine) (h : Home B) → Same h → Same (log_once id l h).1
  unfolding log_once
  log_once-Same id l h same =
      continue-state Same (has_outgoing_line id h.log, h) (log_with l) same
        (λ found _. log_with-disk l found h same)

  log_and_finish-Same :
      (now id : String) (rec : Record) (question : Payload) (draft : StoredDraft) (mode : SendMode)
      (reply : String × String) (h : Home B)
      → Same h
      → Same (log_and_finish now id rec question draft mode reply h).1
  unfolding log_and_finish
  log_and_finish-Same now id rec question draft mode (aid, to) h same =
      let l = outgoing_line now to id draft mode in
      let logged = log_once-Same id l h same in
      let ended =
        finish-Same now id rec "answered" (("answer_id", str aid) ∷ [])
          (sent_event question.kind mode aid) (log_once id l h).1 logged in
      continue-state Same (log_once id l h)
        (λ _ h1. continue (finish_sent now id rec question.kind mode aid h1) (λ _ h2. (
          ok (record {
            answer_id = aid;
            to = to;
            harness = draft.harness;
            redactions = draft.redactions;
          }),
          h2,
        )))
        logged
        (λ _ _.
          continue-state Same (finish_sent now id rec question.kind mode aid (log_once id l h).1)
            (λ _ h2. (
              ok (record {
                answer_id = aid;
                to = to;
                harness = draft.harness;
                redactions = draft.redactions;
              }),
              h2,
            ))
            ended (λ _ _. ended))

  reused :
      (answer_id now id : String) (rec : Record) (question : Payload) (draft : StoredDraft)
      (hash : Option String) (mode : SendMode) (found : Option (String × String))
      (reply : String × String) (h : Home B)
      → found ≡ some reply
      → Same h
      → Same
          (continue
            (reuse_or_spool answer_id now id rec question draft hash found h)
            (λ r. log_and_finish now id rec question draft mode r)).1
  reused answer_id now id rec question draft hash mode none reply h there same = cc
  reused answer_id now id rec question draft hash mode (some r) reply h there same =
      log_and_finish-Same now id rec question draft mode r h same

-- Where the outbox already holds a reply to the request, `send` leaves the file of every record of the
-- outbox, of the cache and of the asks as it was, whatever fails.
pub send_again :
    {B : Type 0} ⦃e : External⦄ ⦃c : Codec B⦄ (answer_id now id : String) (rec : Record)
    (mode : SendMode) (h : Home B) (reply : String × String)
    → existing_answer id h.disk ≡ ok (some reply)
    → (dir : Dir) → inbox ≢ dir
    → done ≢ dir
    → (id' : String)
    → at (record_path dir id') (send answer_id now id rec mode h).1.disk
      ≡ at (record_path dir id') h.disk
unfolding send
send_again answer_id now id rec mode h reply there dir not_inbox not_done id' =
    let P : Home _ → Type 0 = Same dir id' not_inbox not_done h.disk in
    continue-state P (may_send h.has_key id rec, h)
      (λ (checked : Payload × StoredDraft × Option String) h1.
        continue (existing_answer id h1.disk, h1)
          (λ found h2.
            continue (reuse_or_spool answer_id now id rec checked.0 checked.1 checked.2 found h2)
              (λ r. log_and_finish now id rec checked.0 checked.1 mode r)))
      refl
      (λ checked _.
        continue-state P (existing_answer id h.disk, h)
          (λ found h2.
            continue (reuse_or_spool answer_id now id rec checked.0 checked.1 checked.2 found h2)
              (λ r. log_and_finish now id rec checked.0 checked.1 mode r))
          refl
          (λ found was.
            reused dir id' not_inbox not_done h.disk answer_id now id rec checked.0 checked.1
              checked.2 mode found reply h (ok-injective (sym was ∙ there)) refl))
