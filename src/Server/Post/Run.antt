-- ===== src/Server/Post/Run.antt =====
-- src/server.rs: the daemon over time. Between two requests it may be restarted, and other handlers
-- and commands may run, none of which touches the ids in memory.
use owlpost.Prelude.{
  ℕ, ◌≤◌, ◌+◌, String, ◌≡◌, ◌≢◌, sym, ap, subst, ◌∙◌, true, false, arith, eq_of_some-eq,
}
use owlpost.Prelude.Results.{ok}
use owlpost.Envelope.{Payload}
use owlpost.Envelope.Replay.{is_seen, is_fresh, replay_window_secs, seen_ids_ttl_secs}
use owlpost.External.{External}
use owlpost.Spool.Files.{Codec}
use owlpost.Server.State.{F64, AppState, restart}
use owlpost.Server.Post.{Request, Response, complete}
use owlpost.Server.Post.Handler.{post_question}
use owlpost.Server.Post.Replay.{Keeps, has_entry, has_entry-is_seen, load_seen-keeps}
use owlpost.Server.Post.Once.{post_question-Kept}
use owlpost.Server.Post.Window.{Passed}
use owlpost.Server.Post.Accepted.{post_question-Entered}

-- The file holds every id that is in memory, as after a save that worked.
abbrev pub IsSaved : {B N : Type 0} → AppState B N → Type 0
IsSaved s = (id : String) (t : ℕ) → has_entry id t s.seen ≡ true → has_entry id t s.seen_file ≡ true

-- From a state at a time to a later one, a whole request after the other; the clock does not go back.
pub data Run {B N : Type 0} ⦃f : F64 N⦄ ⦃e : External⦄ ⦃c : Codec B⦄ (t : ℕ) (s : AppState B N)
    : ℕ → AppState B N → Type 0 where
  start : Run t s t s
  posted :
      {t' : ℕ} {s' : AppState B N}
      → Run t s t' s'
      → (now : ℕ) → t' ≤ now
      → (clock : N) (request : Request) → Run t s now (post_question now clock request s').1
  restarted :
      {t' : ℕ} {s' : AppState B N}
      → Run t s t' s'
      → IsSaved s'
      → (now : ℕ) → t' ≤ now
      → Run t s now (restart now s')
  other :
      {t' : ℕ} {s' : AppState B N}
      → Run t s t' s'
      → (s'' : AppState B N) → s''.seen ≡ s'.seen
      → Run t s t' s''

-- The window outlives the times at which a payload is fresh.
fresh_twice :
    (ts : String) (a b : ℕ)
    → is_fresh ts a replay_window_secs ≡ true
    → is_fresh ts b replay_window_secs ≡ true
    → b ≤ a + seen_ids_ttl_secs
unfolding is_fresh
fresh_twice ts a b h k = ground arith

module _ {B N : Type 0} ⦃f : F64 N⦄ ⦃e : External⦄ ⦃c : Codec B⦄ {t : ℕ} {s : AppState B N} where
  -- Up to the end of its time, an entry stays.
  Run-Keeps :
      (id : String) {t' : ℕ} {s' : AppState B N}
      → Run t s t' s'
      → Keeps id t s
      → t' ≤ t + seen_ids_ttl_secs
      → Keeps id t s'
  unfolding restart
  Run-Keeps id start h young = h
  Run-Keeps id (posted run now later clock request) h young =
      post_question-Kept id t now clock request _ (Run-Keeps id run h (omega arith))
  Run-Keeps id (restarted {s' = s'} run saved now later) h young =
      let kept = Run-Keeps id run h (omega arith) in
      record { memory = load_seen-keeps id t now _ young (saved id t kept.memory) }
  Run-Keeps id (other run s'' same) h young = record {
    memory = ap (has_entry id t) same ∙ (Run-Keeps id run h young).memory;
  }

clash : true ≡ false → ⊥
clash h = cc

complete-injective : {a b : String} → complete a ≡ complete b → a ≡ b
complete-injective h = cc

-- The payload of a body does not depend on the daemon's state.
same_payload :
    ⦃e : External⦄ {B N : Type 0} {now now' : ℕ} {request request' : Request} {s s' : AppState B N}
    {p p' : Payload}
    → Passed now request s p
    → Passed now' request' s' p'
    → request'.upload ≡ request.upload
    → p ≡ p'
same_payload ⦃e⦄ h h' same =
    let same_body : h'.body ≡ h.body = complete-injective (sym h'.upload ∙ same ∙ h.upload) in
    let same_value : h.value ≡ h'.value =
      eq_of_some-eq (sym h.parsed ∙ ap e.parse_value (sym same_body) ∙ h'.parsed) in
    eq_of_some-eq (sym h.typed ∙ ap e.value_payload same_value ∙ h'.typed)

module _ {B N : Type 0} ⦃f : F64 N⦄ ⦃e : External⦄ ⦃c : Codec B⦄ (now : ℕ) (clock : N)
    (request : Request) (s : AppState B N) (r : Response) where
  -- Where requests are handled one after the other, the body of a request that was accepted is never
  -- accepted again, whoever sends it and with whatever signature, at any later time of a run of the
  -- daemon. A run has requests, restarts and other changes that leave the ids in memory alone, in any
  -- order; a save may fail and spoil the file, but at a restart the file holds every id that was in
  -- memory.
  pub accepted_once :
      (post_question now clock request s).0 ≡ ok r
      → (t' : ℕ) (s' : AppState B N) → Run now (post_question now clock request s).1 t' s'
      → (now' : ℕ) → t' ≤ now'
      → (clock' : N) (request' : Request) → request'.upload ≡ request.upload
      → (r' : Response) → (post_question now' clock' request' s').0 ≢ ok r'
  accepted_once accepted t' s' run now' later clock' request' same r' again =
      let first = post_question-Entered now clock request s r accepted in
      let second = post_question-Entered now' clock' request' s' r' again in
      let id : second.payload ≡ first.payload =
        sym (same_payload first.passed second.passed same) in
      let fresh =
        subst (λ (p : Payload). is_fresh p.ts now' replay_window_secs ≡ true) id
          second.passed.fresh in
      let new = subst (λ (p : Payload). is_seen p.id s'.seen ≡ false) id second.passed.new in
      let young = fresh_twice first.payload.ts now now' first.passed.fresh fresh in
      let kept = Run-Keeps first.payload.id run first.kept (omega arith) in
      let seen = has_entry-is_seen first.payload.id now s'.seen kept.memory in
      clash (sym seen ∙ new)
