-- ===== src/Server/Post/Accepted.antt =====
-- src/server.rs: an accepted request has put its id into the replay window.
use owlpost.Prelude.{ℕ, String, ◌≡◌, Bool, false, Option, none, some, Option-cases, inl, inr}
use owlpost.Prelude.Results.{Result, ok, err}
use owlpost.Prelude.Exec.{after_ok, continue}
use owlpost.Record.{Record, inbox}
use owlpost.Envelope.{Payload}
use owlpost.Envelope.Replay.{is_seen}
use owlpost.External.{External}
use owlpost.Spool.{put}
use owlpost.Spool.Files.{Codec}
use owlpost.Server.Api.{ApiError, storage_error}
use owlpost.Server.State.{F64, AppState}
use owlpost.Server.Post.{Request, Response, cached, hash_of, new_record, record_state_for}
use owlpost.Server.Post.Handler.{
  remember, on_disk, mode_in, admit, take_token, gate, check_request, cached_answer, spool_request,
  after_lookup, answer_or_spool, after_checks, post_question,
}
use owlpost.Server.Post.Replay.{Keeps, insert_seen-has}
use owlpost.Server.Post.Window.{Passed, check_request-Passed}

module _ {B N : Type 0} where
  remember-ok :
      (id : String) (now : ℕ) (s : AppState B N) (u : Unit {0})
      → is_seen id s.seen ≡ false
      → (remember id now s).0 ≡ ok u
      → Keeps id now (remember id now s).1
  unfolding remember
  remember-ok id now s u new h = elim (Option-cases s.save_fails) [
    | inl works ↦ rw works (record { memory = insert_seen-has id now s.seen new })
    | inr (left, fails) ↦
        let bad : ◌≡◌ {A = Result ApiError (Unit {0})} (err storage_error) (ok u) = rw fails at h in
        cc
  ]

module _ {B N : Type 0} ⦃f : F64 N⦄ ⦃e : External⦄ ⦃c : Codec B⦄ (now : ℕ) (request : Request)
    (caller : String) (payload : Payload) where
  abbrev Held : AppState B N → Type 0
  Held = Keeps payload.id now

  admit-ok :
      (state : String × Bool) (s : AppState B N) (r : Response)
      → is_seen payload.id s.seen ≡ false
      → (admit now caller payload state s).0 ≡ ok r
      → Held (admit now caller payload state s).1
  unfolding admit
  admit-ok state s r new = after_ok Held (remember payload.id now s) _ r (λ u was_ok _.
      let kept = remember-ok payload.id now s u new was_ok in record { memory = kept.memory })

  spool_request-ok :
      (hash : Option String) (s : AppState B N) (r : Response)
      → is_seen payload.id s.seen ≡ false
      → (spool_request now request caller payload hash s).0 ≡ ok r
      → Held (spool_request now request caller payload hash s).1
  unfolding spool_request
  spool_request-ok hash s r new =
      let rec = new_record now request caller payload (mode_in caller s) hash in
      after_ok Held (on_disk (put inbox payload.id rec) s)
        (λ _. admit now caller payload (record_state_for payload.kind (mode_in caller s))) r
        (λ _ _.
          admit-ok (record_state_for payload.kind (mode_in caller s))
            (on_disk (put inbox payload.id rec) s).1 r new)

  after_lookup-ok :
      (hash : Option String) (found : Option Record) (s : AppState B N) (r : Response)
      → is_seen payload.id s.seen ≡ false
      → (after_lookup now request caller payload hash found s).0 ≡ ok r
      → Held (after_lookup now request caller payload hash found s).1
  after_lookup-ok hash none s r new = spool_request-ok hash s r new
  after_lookup-ok hash (some rec) s r new =
      after_ok Held (remember payload.id now s) (λ _ s'. (ok (cached rec.raw rec.sig), s')) r
        (λ u was_ok _. remember-ok payload.id now s u new was_ok)

  answer_or_spool-ok :
      (s : AppState B N) (r : Response)
      → is_seen payload.id s.seen ≡ false
      → (answer_or_spool now request caller payload s).0 ≡ ok r
      → Held (answer_or_spool now request caller payload s).1
  unfolding answer_or_spool
  answer_or_spool-ok s r new =
      after_ok Held (hash_of payload.body, s)
        (λ hash s'.
          continue (cached_answer caller payload hash s', s')
            (after_lookup now request caller payload hash))
        r
        (λ hash _.
          after_ok Held (cached_answer caller payload hash s, s)
            (after_lookup now request caller payload hash) r
            (λ found _. after_lookup-ok hash found s r new))

  after_checks-ok :
      (clock : N) (s : AppState B N) (r : Response)
      → is_seen payload.id s.seen ≡ false
      → (after_checks now clock request caller payload s).0 ≡ ok r
      → Held (after_checks now clock request caller payload s).1
  unfolding take_token gate
  after_checks-ok clock s r new =
      after_ok Held (take_token caller clock s)
        (λ _ s'. continue (gate caller s') (λ _. answer_or_spool now request caller payload)) r
        (λ _ _.
          after_ok Held (gate caller (take_token caller clock s).1)
            (λ _. answer_or_spool now request caller payload) r
            (λ _ _. answer_or_spool-ok (take_token caller clock s).1 r new))

-- A body and the entry that it has left in the replay window.
pub record Entered ⦃e : External⦄ {B N : Type 0} (now : ℕ) (request : Request) (s s' : AppState B N)
    : Type 0 where
  pub payload : Payload
  pub passed : Passed now request s payload
  pub kept : Keeps payload.id now s'

module _ {B N : Type 0} ⦃f : F64 N⦄ ⦃e : External⦄ ⦃c : Codec B⦄ where
  pub post_question-Entered :
      (now : ℕ) (clock : N) (request : Request) (s : AppState B N) (r : Response)
      → (post_question now clock request s).0 ≡ ok r
      → Entered now request s (post_question now clock request s).1
  unfolding post_question
  post_question-Entered now clock request s r =
      after_ok (Entered now request s) (check_request now request s, s)
        (λ (checked : String × Payload). after_checks now clock request checked.0 checked.1) r
        (λ checked was_ok h.
          let passed = check_request-Passed now request s checked.0 checked.1 was_ok in
          record {
            payload = checked.1;
            passed = passed;
            kept = after_checks-ok now request checked.0 checked.1 clock s r passed.new h;
          })
