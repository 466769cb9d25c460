-- ===== src/Server/Post/Success.antt =====
-- src/server.rs: every success of `post_question`, from the first check to the answer.
use owlpost.Prelude.{ℕ, String, ◌≡◌, refl, true, false, Option, none, some, arith, inl, inr, ◌⊎◌}
use owlpost.Prelude.Results.{ok}
use owlpost.Prelude.Exec.{after_ok, continue}
use owlpost.Record.{Record}
use owlpost.Envelope.{Payload}
use owlpost.External.{External}
use owlpost.Spool.Files.{Codec}
use owlpost.Server.State.{F64, AppState}
use owlpost.Server.Post.{Request, Response, hash_of, is_never}
use owlpost.Server.Post.Handler.{
  mode_in, take_token, gate, check_request, cached_answer, after_lookup, answer_or_spool,
  after_checks, post_question,
}
use owlpost.Server.Post.Outcomes.{Admitted, Served, remember_cached, spool_request-Admitted}

-- What the daemon knows of a request that it has answered with a success.
pub record Success {B N : Type 0} ⦃e : External⦄ ⦃c : Codec B⦄ (now : ℕ) (request : Request)
    (s : AppState B N) (r : Response) (s' : AppState B N) : Type 0 where
  pub caller : String
  pub payload : Payload
  pub hash : Option String
  pub checked : check_request now request s ≡ ok (caller, payload)
  pub enabled : s.config.responder.enabled ≡ true
  pub not_never : is_never (mode_in caller s) ≡ false
  pub hashed : hash_of payload.body ≡ ok hash
  pub outcome :
      Admitted now request caller payload hash s r s'
      ⊎ Served now request caller payload hash s r s'

module _ {B N : Type 0} ⦃f : F64 N⦄ ⦃e : External⦄ ⦃c : Codec B⦄ (now : ℕ) (request : Request) where
  module _ (caller : String) (payload : Payload) (r : Response) where
    after_lookup-outcome :
        (hash : Option String) (found : Option Record) (s : AppState B N)
        → cached_answer caller payload hash s ≡ ok found
        → (after_lookup now request caller payload hash found s).0 ≡ ok r
        → Admitted now request caller payload hash s r
            (after_lookup now request caller payload hash found s).1
          ⊎ Served now request caller payload hash s r
              (after_lookup now request caller payload hash found s).1
    unfolding cached_answer
    after_lookup-outcome hash none s looked h =
        inl (spool_request-Admitted now request caller payload hash s r h)
    after_lookup-outcome none (some rec) s looked h = cc
    after_lookup-outcome (some key) (some rec) s looked h =
        inr (remember_cached now request caller payload (some key) s r key rec refl looked h)

    -- What is decided after the token was taken.
    record Decided (s s' : AppState B N) : Type 0 where
      hash : Option String
      hashed : hash_of payload.body ≡ ok hash
      outcome :
          Admitted now request caller payload hash s r s'
          ⊎ Served now request caller payload hash s r s'

    answer_or_spool-Decided :
        (s : AppState B N)
        → (answer_or_spool now request caller payload s).0 ≡ ok r
        → Decided s (answer_or_spool now request caller payload s).1
    unfolding answer_or_spool
    answer_or_spool-Decided s =
        after_ok (Decided s) (hash_of payload.body, s)
          (λ hash s'.
            continue (cached_answer caller payload hash s', s')
              (after_lookup now request caller payload hash))
          r
          (λ hash hashed.
            after_ok (Decided s) (cached_answer caller payload hash s, s)
              (after_lookup now request caller payload hash) r
              (λ found looked h. record {
                hash = hash;
                hashed = hashed;
                outcome = after_lookup-outcome hash found s looked h;
              }))

  -- The outcome does not read the buckets.
  before_token :
      (caller : String) (clock : N) (payload : Payload) (hash : Option String) (s s' : AppState B N)
      (r : Response)
      → Admitted now request caller payload hash (take_token caller clock s).1 r s'
        ⊎ Served now request caller payload hash (take_token caller clock s).1 r s'
      → Admitted now request caller payload hash s r s'
        ⊎ Served now request caller payload hash s r s'
  unfolding take_token
  before_token caller clock payload hash s s' r (inl a) = inl (record {
    spooled = a.spooled;
    written = a.written;
    disk = a.disk;
    routed = a.routed;
    events = a.events;
    answer = a.answer;
  })
  before_token caller clock payload hash s s' r (inr a) = inr (record {
    key = a.key;
    cached_record = a.cached_record;
    keyed = a.keyed;
    found = a.found;
    allowed = a.allowed;
    no_context = a.no_context;
    no_thread = a.no_thread;
    disk = a.disk;
    routed = a.routed;
    events = a.events;
    answer = a.answer;
  })

  gate-open :
      (caller : String) (s : AppState B N) (u : Unit {0})
      → (gate caller s).0 ≡ ok u
      → (s.config.responder.enabled ≡ true) × (is_never (mode_in caller s) ≡ false)
  unfolding gate
  gate-open caller s u h = ground arith

  after_checks-Success :
      (clock : N) (caller : String) (payload : Payload) (s : AppState B N) (r : Response)
      → check_request now request s ≡ ok (caller, payload)
      → (after_checks now clock request caller payload s).0 ≡ ok r
      → Success now request s r (after_checks now clock request caller payload s).1
  unfolding take_token gate
  after_checks-Success clock caller payload s r checked =
      let s' : AppState B N = (take_token caller clock s).1 in
      after_ok (Success now request s r) (take_token caller clock s)
        (λ _ s''. continue (gate caller s'') (λ _. answer_or_spool now request caller payload)) r
        (λ _ _.
          after_ok (Success now request s r) (gate caller s')
            (λ _. answer_or_spool now request caller payload) r
            (λ u open_gate h.
              let (enabled, not_never) = gate-open caller s' u open_gate in
              let decided = answer_or_spool-Decided caller payload r s' h in
              record {
                caller = caller;
                payload = payload;
                hash = decided.hash;
                checked = checked;
                enabled = enabled;
                not_never = not_never;
                hashed = decided.hashed;
                outcome = before_token caller clock payload decided.hash s _ r decided.outcome;
              }))

  pub post_question-Success :
      (clock : N) (s : AppState B N) (r : Response)
      → (post_question now clock request s).0 ≡ ok r
      → Success now request s r (post_question now clock request s).1
  unfolding post_question
  post_question-Success clock s r =
      after_ok (Success now request s r) (check_request now request s, s)
        (λ (checked : String × Payload). after_checks now clock request checked.0 checked.1) r
        (λ checked was_ok. after_checks-Success clock checked.0 checked.1 s r was_ok)
