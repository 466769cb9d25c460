-- ===== src/Server/Post/Unattended.antt =====
-- src/server.rs: which requests the daemon hands to the scheduler.
use owlpost.Prelude.{
  ℕ, String, ◌≡◌, ◌≢◌, refl, sym, ap, subst, ◌∙◌, true, Option, none, some, List, [], ◌∷◌, ◌++◌,
  length, length-append, arith, inl, inr, ◌⊎◌,
}
use owlpost.Prelude.Results.{ok}
use owlpost.Contacts.{Mode}
use owlpost.Envelope.{Payload, Kind}
use owlpost.External.{External}
use owlpost.Spool.Files.{Codec}
use owlpost.Server.State.{F64, AppState, Spooled}
use owlpost.Server.Post.{Request, Response, record_state, record_state_for}
use owlpost.Server.Post.Handler.{mode_in, post_question, check_request}
use owlpost.Server.Post.Outcomes.{Admitted, Served}
use owlpost.Server.Post.Success.{post_question-Success}

module _ {A : Type 0} where
  cons-injective : {x y : A} {xs ys : List A} → x ∷ xs ≡ y ∷ ys → (x ≡ y) × (xs ≡ ys)
  cons-injective h = (cc, cc)

  last-injective : (xs : List A) {x y : A} → xs ++ x ∷ [] ≡ xs ++ y ∷ [] → x ≡ y
  last-injective [] h = (cons-injective h).0
  last-injective (z ∷ xs) h = last-injective xs (cons-injective h).1

  no_growth : (xs : List A) (x : A) → xs ≡ xs ++ x ∷ [] → ⊥
  no_growth xs x h = absurd (omega (arith, ap length h, length-append xs (x ∷ [])))

record_state-auto :
    (mode : Option Mode)
    → (record_state mode).1 ≡ true
    → (mode ≡ some Mode.auto) × ((record_state mode).0 ≡ "pending")
unfolding record_state
record_state-auto none h = cc
record_state-auto (some Mode.auto) h = (refl, refl)
record_state-auto (some Mode.manual) h = cc
record_state-auto (some Mode.never) h = cc

record_state_for-auto :
    (kind : Kind) (mode : Option Mode)
    → (record_state_for kind mode).1 ≡ true
    → (mode ≡ some Mode.auto)
      × (kind ≢ Kind.content)
      × (kind ≢ Kind.tool_call)
      × ((record_state_for kind mode).0 ≡ "pending")
unfolding record_state_for
record_state_for-auto Kind.content mode h = cc
record_state_for-auto Kind.tool_call mode h = cc
record_state_for-auto Kind.question mode h =
    let (policy, pending) = record_state-auto mode h in (policy, λ e. cc, λ e. cc, pending)
record_state_for-auto Kind.answer mode h =
    let (policy, pending) = record_state-auto mode h in (policy, λ e. cc, λ e. cc, pending)
record_state_for-auto Kind.content_reply mode h =
    let (policy, pending) = record_state-auto mode h in (policy, λ e. cc, λ e. cc, pending)
record_state_for-auto Kind.tool_reply mode h =
    let (policy, pending) = record_state-auto mode h in (policy, λ e. cc, λ e. cc, pending)

-- A request for the scheduler, and the peer's policy when it came.
pub record ForScheduler {B N : Type 0} ⦃e : External⦄ (now : ℕ) (request : Request)
    (s : AppState B N) (event : Spooled) : Type 0 where
  pub payload : Payload
  pub checked : check_request now request s ≡ ok (event.peer, payload)
  pub policy : mode_in event.peer s ≡ some Mode.auto
  pub not_content : payload.kind ≢ Kind.content
  pub not_tool_call : payload.kind ≢ Kind.tool_call
  pub pending : event.state ≡ "pending"

from_outcome :
    {B N : Type 0} ⦃e : External⦄ ⦃c : Codec B⦄ {now : ℕ} {request : Request} {s s' : AppState B N}
    {r : Response} {event : Spooled} (caller : String) (payload : Payload) (hash : Option String)
    → check_request now request s ≡ ok (caller, payload)
    → s'.events ≡ s.events ++ event ∷ []
    → event.auto ≡ true
    → Admitted now request caller payload hash s r s'
      ⊎ Served now request caller payload hash s r s'
    → ForScheduler now request s event
from_outcome {s = s} {event = event} caller payload hash checked added auto (inr served) =
    absurd (no_growth s.events event (sym served.events ∙ added))
from_outcome {now = now} {request = request} {s = s} caller payload hash checked added auto
      (inl admitted) =
    let same = last-injective s.events (sym admitted.events ∙ added) in
    let (policy, not_content, not_tool_call, pending) =
      record_state_for-auto payload.kind (mode_in caller s)
        (ap (λ (x : Spooled). x.auto) same ∙ auto) in
    subst (ForScheduler now request s) same (record {
      payload = payload;
      checked = checked;
      policy = policy;
      not_content = not_content;
      not_tool_call = not_tool_call;
      pending = pending;
    })

module _ {B N : Type 0} ⦃f : F64 N⦄ ⦃e : External⦄ ⦃c : Codec B⦄ (now : ℕ) (clock : N)
    (request : Request) (s : AppState B N) (r : Response) where
  -- An event that a successful request has added with the auto flag is about a request of a peer whose
  -- policy is `auto`, which asks for no file and for no run of a tool, and is pending.
  pub auto_event :
      (post_question now clock request s).0 ≡ ok r
      → (event : Spooled) → (post_question now clock request s).1.events ≡ s.events ++ event ∷ []
      → event.auto ≡ true
      → ForScheduler now request s event
  auto_event success event added auto =
      let known = post_question-Success now request clock s r success in
      from_outcome known.caller known.payload known.hash known.checked added auto known.outcome
