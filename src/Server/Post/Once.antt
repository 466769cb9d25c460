-- ===== src/Server/Post/Once.antt =====
-- src/server.rs: a body that was accepted once is refused from then on.
use owlpost.Prelude.{ℕ, String, ◌≡◌, refl, ap, ◌∙◌, Option, none, some}
use owlpost.Prelude.Exec.{continue, Preserves, >>=-Preserves, pure}
use owlpost.Record.{Record, inbox}
use owlpost.Envelope.{Payload}
use owlpost.External.{External}
use owlpost.Spool.{put}
use owlpost.Spool.Files.{Codec}
use owlpost.Server.State.{F64, AppState}
use owlpost.Server.Post.{Request, cached, hash_of, new_record, record_state_for}
use owlpost.Server.Post.Handler.{
  remember, on_disk, mode_in, admit, take_token, gate, check_request, cached_answer, spool_request,
  after_lookup, answer_or_spool, after_checks, post_question,
}
use owlpost.Server.Post.Replay.{Keeps, has_entry, remember-Keeps, admit-Keeps}

module _ {B N : Type 0} ⦃f : F64 N⦄ ⦃e : External⦄ ⦃c : Codec B⦄ (id : String) (t : ℕ) where
  abbrev Kept : AppState B N → Type 0
  Kept = Keeps id t

  same_window : (s s' : AppState B N) → s'.seen ≡ s.seen → Kept s → Kept s'
  same_window s s' m h = record { memory = ap (has_entry id t) m ∙ h.memory }

  module _ (now : ℕ) (request : Request) (caller : String) (payload : Payload) where
    spool_request-Kept :
        (hash : Option String) → Preserves Kept (spool_request now request caller payload hash)
    unfolding spool_request
    spool_request-Kept hash s h =
        >>=-Preserves Kept
          (on_disk
            (put inbox payload.id (new_record now request caller payload (mode_in caller s) hash)))
          (λ _. admit now caller payload (record_state_for payload.kind (mode_in caller s)))
          (λ s' h'. same_window s' _ refl h')
          (λ _.
            admit-Keeps id t now caller payload (record_state_for payload.kind (mode_in caller s)))
          s h

    after_lookup-Kept :
        (hash : Option String) (found : Option Record)
        → Preserves Kept (after_lookup now request caller payload hash found)
    after_lookup-Kept hash none = spool_request-Kept hash
    after_lookup-Kept hash (some rec) =
        >>=-Preserves Kept (remember payload.id now) (λ _. pure (cached rec.raw rec.sig))
          (remember-Keeps id t payload.id now) (λ _ s h. h)

    answer_or_spool-Kept : Preserves Kept (answer_or_spool now request caller payload)
    unfolding answer_or_spool
    answer_or_spool-Kept =
        >>=-Preserves Kept (λ s. (hash_of payload.body, s))
          (λ hash s.
            continue (cached_answer caller payload hash s, s)
              (after_lookup now request caller payload hash))
          (λ s h. h)
          (λ hash.
            >>=-Preserves Kept (λ s. (cached_answer caller payload hash s, s))
              (after_lookup now request caller payload hash) (λ s h. h) (after_lookup-Kept hash))

    after_checks-Kept : (clock : N) → Preserves Kept (after_checks now clock request caller payload)
    unfolding take_token gate
    after_checks-Kept clock =
        >>=-Preserves Kept (take_token caller clock)
          (λ _ s. continue (gate caller s) (λ _. answer_or_spool now request caller payload))
          (λ s h. same_window s _ refl h)
          (λ _.
            >>=-Preserves Kept (gate caller) (λ _. answer_or_spool now request caller payload)
              (λ s h. h) (λ _. answer_or_spool-Kept))

  -- A request takes no entry out of the replay window.
  pub post_question-Kept :
      (now : ℕ) (clock : N) (request : Request) → Preserves Kept (post_question now clock request)
  unfolding post_question
  post_question-Kept now clock request =
      >>=-Preserves Kept (λ s. (check_request now request s, s))
        (λ (checked : String × Payload). after_checks now clock request checked.0 checked.1)
        (λ s h. h) (λ checked. after_checks-Kept now request checked.0 checked.1 clock)
