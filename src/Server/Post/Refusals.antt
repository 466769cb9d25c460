-- ===== src/Server/Post/Refusals.antt =====
-- src/server.rs: what `post_question` leaves of the daemon's state when it refuses a request.
use owlpost.Prelude.{
  ℕ, String, ◌≡◌, ◌≢◌, refl, sym, ap, ◌∙◌, subst, Bool, true, false, Option, none, some, inl, inr,
  if◌then◌else◌, Option-cases,
}
use owlpost.Prelude.Results.{Result, ok, err, err-injective}
use owlpost.Prelude.Exec.{Exec, continue, continue-err}
use owlpost.Record.{Record, inbox}
use owlpost.Error.{Error}
use owlpost.Envelope.{Payload}
use owlpost.External.{External}
use owlpost.Spool.Files.{Codec}
use owlpost.Server.Api.{ApiError}
use owlpost.Server.State.{F64, AppState}
use owlpost.Server.Post.{Request, Response, cached, accepted, hash_of, new_record, record_state_for}
use owlpost.Envelope.Task.{a2a_state}
use owlpost.Spool.{put}
use owlpost.Server.Post.Handler.{
  admit, on_disk, mode_in, stored, remember, take_token, gate, check_request, cached_answer,
  spool_request, after_lookup, answer_or_spool, after_checks, post_question,
}

-- Everything but the buckets is as it was.
pub record Unchanged {B N : Type 0} (s s' : AppState B N) : Type 0 where
  pub disk : s'.disk ≡ s.disk
  pub seen : s'.seen ≡ s.seen
  pub seen_file : s'.seen_file ≡ s.seen_file
  pub routed : s'.routed ≡ s.routed
  pub events : s'.events ≡ s.events

abbrev pub IsStorage : ApiError → Type 0
IsStorage a = a.status ≡ 500

pub stored-err : {A : Type 0} (r : Result Error A) (a : ApiError) → stored r ≡ err a → IsStorage a
stored-err (ok x) a h = cc
stored-err (err e) a h = subst IsStorage (err-injective h) refl

module _ {B N : Type 0} where
  remember-err :
      (id : String) (now : ℕ) (s : AppState B N) (a : ApiError)
      → (remember id now s).0 ≡ err a
      → IsStorage a
  unfolding remember
  remember-err id now s a h = elim (Option-cases s.save_fails) [
    | inl works ↦ let bad : ◌≡◌ {A = Result ApiError Unit} (ok tt) (err a) = rw works at h in cc
    | inr (left, fails) ↦ subst IsStorage (err-injective (rw fails at h)) refl
  ]

module _ {B N : Type 0} ⦃f : F64 N⦄ ⦃e : External⦄ ⦃c : Codec B⦄ where
  take_token-Unchanged :
      (caller : String) (clock : N) (s : AppState B N) → Unchanged s (take_token caller clock s).1
  unfolding take_token
  take_token-Unchanged caller clock s = record {
    disk = refl;
    seen = refl;
    seen_file = refl;
    routed = refl;
    events = refl;
  }

no_error : {A : Type 0} (x : A) (a : ApiError) → ok x ≡ err a → IsStorage a
no_error x a bad = cc

if_stored-err :
    {A : Type 0} (t : Bool) (r : Result Error (Option A)) (a : ApiError)
    → (if t then stored r else ok none) ≡ err a
    → IsStorage a
if_stored-err true r a h = stored-err r a h
if_stored-err false r a h = cc

-- A step that can only fail on storage, then one that can only fail on storage.
then-IsStorage :
    {S A C : Type 0} (r : Result ApiError A × S) (k : A → Exec ApiError S C) (a : ApiError)
    → (r.0 ≡ err a → IsStorage a)
    → ((x : A) → (k x r.1).0 ≡ err a → IsStorage a)
    → (continue r k).0 ≡ err a
    → IsStorage a
then-IsStorage r k a first second h = elim (continue-err r k h) [
  | inl (bad, _) ↦ first bad
  | inr (x, _, same) ↦ second x (ap (λ (p : Result ApiError _ × _). p.0) (sym same) ∙ h)
]

module _ {B N : Type 0} ⦃e : External⦄ ⦃c : Codec B⦄ (now : ℕ) (request : Request) (caller : String)
    (payload : Payload) where
  cached_answer-err :
      (hash : Option String) (s : AppState B N) (a : ApiError)
      → cached_answer caller payload hash s ≡ err a
      → IsStorage a
  unfolding cached_answer
  cached_answer-err none s a h = cc
  cached_answer-err (some hash) s a h = if_stored-err _ _ a h

  admit-err :
      (state : String × Bool) (s : AppState B N) (a : ApiError)
      → (admit now caller payload state s).0 ≡ err a
      → IsStorage a
  unfolding admit
  admit-err state s a h =
      then-IsStorage (remember payload.id now s) _ a (remember-err payload.id now s a)
        (λ _ bad. no_error (accepted payload.id (a2a_state state.0 false).0) a bad) h

  spool_request-err :
      (hash : Option String) (s : AppState B N) (a : ApiError)
      → (spool_request now request caller payload hash s).0 ≡ err a
      → IsStorage a
  unfolding spool_request
  spool_request-err hash s a h =
      let rec = new_record now request caller payload (mode_in caller s) hash in
      then-IsStorage (on_disk (put inbox payload.id rec) s) _ a
        (stored-err (put inbox payload.id rec s.disk).0 a)
        (λ _.
          admit-err (record_state_for payload.kind (mode_in caller s))
            (on_disk (put inbox payload.id rec) s).1 a)
        h

  after_lookup-err :
      (hash : Option String) (found : Option Record) (s : AppState B N) (a : ApiError)
      → (after_lookup now request caller payload hash found s).0 ≡ err a
      → IsStorage a
  after_lookup-err hash (some rec) s a h =
      then-IsStorage (remember payload.id now s) _ a (remember-err payload.id now s a)
        (λ _ bad. no_error (cached rec.raw rec.sig) a bad) h
  after_lookup-err hash none s a h = spool_request-err hash s a h

  -- The hash is the last check.
  answer_or_spool-refused :
      (s : AppState B N) (a : ApiError)
      → (answer_or_spool now request caller payload s).0 ≡ err a
      → (a.status ≢ 500)
      → (answer_or_spool now request caller payload s).1 ≡ s
  unfolding answer_or_spool
  answer_or_spool-refused s a h other = elim (continue-err (hash_of payload.body, s) _ h) [
    | inl (_, same) ↦ same
    | inr (hash, _, same) ↦
        let bad =
          then-IsStorage (cached_answer caller payload hash s, s) _ a (cached_answer-err hash s a)
            (λ found. after_lookup-err hash found s a)
            (ap (λ (p : Result ApiError _ × _). p.0) (sym same) ∙ h) in
        absurd (other bad)
  ]

abbrev same_state : {B N : Type 0} (s : AppState B N) → Unchanged s s
same_state s = record { disk = refl; seen = refl; seen_file = refl; routed = refl; events = refl }

module _ {B N : Type 0} ⦃f : F64 N⦄ ⦃e : External⦄ ⦃c : Codec B⦄ (now : ℕ) (clock : N)
    (request : Request) where
  after_gate-refused :
      (caller : String) (payload : Payload) (s : AppState B N) (a : ApiError)
      → (continue (gate caller s) (λ _. answer_or_spool now request caller payload)).0 ≡ err a
      → (a.status ≢ 500)
      → (continue (gate caller s) (λ _. answer_or_spool now request caller payload)).1 ≡ s
  unfolding gate
  after_gate-refused caller payload s a h other =
      elim (continue-err (gate caller s) (λ _. answer_or_spool now request caller payload) h) [
        | inl (_, same) ↦ same
        | inr (_, _, same) ↦
            ap (λ (p : Result ApiError Response × AppState B N). p.1) same
            ∙ answer_or_spool-refused now request caller payload s a
                (ap (λ (p : Result ApiError Response × AppState B N). p.0) (sym same) ∙ h) other
      ]

  after_checks-refused :
      (caller : String) (payload : Payload) (s : AppState B N) (a : ApiError)
      → (after_checks now clock request caller payload s).0 ≡ err a
      → (a.status ≢ 500)
      → Unchanged s (after_checks now clock request caller payload s).1
  after_checks-refused caller payload s a h other =
      let s' = (take_token caller clock s).1 in
      elim (continue-err (take_token caller clock s)
        (λ _ s''. continue (gate caller s'') (λ _. answer_or_spool now request caller payload)) h) [
          | inl (_, same) ↦ subst (Unchanged s) (sym same) (take_token-Unchanged caller clock s)
          | inr (_, _, same) ↦
              subst (Unchanged s)
                (sym (
                  ap (λ (p : Result ApiError Response × AppState B N). p.1) same
                  ∙ after_gate-refused caller payload s' a
                      (ap (λ (p : Result ApiError Response × AppState B N). p.0) (sym same) ∙ h)
                      other))
                (take_token-Unchanged caller clock s)
        ]

  -- A request that is refused with another status than 500 leaves the disk, the replay window, its
  -- file, the routed ids and the events as they were.
  pub post_question-refused :
      (s : AppState B N) (a : ApiError)
      → (post_question now clock request s).0 ≡ err a
      → (a.status ≢ 500)
      → Unchanged s (post_question now clock request s).1
  unfolding post_question
  post_question-refused s a h other =
      elim (continue-err (check_request now request s, s)
        (λ (checked : String × Payload). after_checks now clock request checked.0 checked.1) h) [
          | inl (_, same) ↦ subst (Unchanged s) (sym same) (same_state s)
          | inr (checked, _, same) ↦
              subst (Unchanged s)
                (ap (λ (p : Result ApiError Response × AppState B N). p.1) (sym same))
                (after_checks-refused checked.0 checked.1 s a
                  (ap (λ (p : Result ApiError Response × AppState B N). p.0) (sym same) ∙ h) other)
        ]
