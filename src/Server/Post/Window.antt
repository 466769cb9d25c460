-- ===== src/Server/Post/Window.antt =====
-- src/server.rs: the replay window over a run of the daemon, with restarts.
use owlpost.Prelude.{ℕ, String, ◌≡◌, ap, subst, ◌∙◌, true, false, Option, none, some, List, arith}
use owlpost.Prelude.Results.{ok, ok_or, >>=-eq-ok, ok-injective}
use owlpost.Json.{Value}
use owlpost.Envelope.{Payload}
use owlpost.Envelope.Replay.{is_seen, is_fresh, replay_window_secs}
use owlpost.External.{External}
use owlpost.Server.Api.{bad_request, storage_error, require_peer}
use owlpost.Server.State.{AppState}
use owlpost.Server.Validate.{validate_request}
use owlpost.Server.Validate.Sound.{validate_request-value_payload}
use owlpost.Server.Post.{
  Request, Upload, complete, body_bytes, signature_header, check_signature, check_replay,
}
use owlpost.Server.Post.Handler.{check_payload, check_request}

-- What the checks of an accepted request have found.
pub record Passed ⦃e : External⦄ {B N : Type 0} (now : ℕ) (request : Request) (s : AppState B N)
    (payload : Payload) : Type 0 where
  pub body : String
  pub value : Value
  pub upload : request.upload ≡ complete body
  pub parsed : e.parse_value body ≡ some value
  pub typed : e.value_payload value ≡ some payload
  pub fresh : is_fresh payload.ts now replay_window_secs ≡ true
  pub new : is_seen payload.id s.seen ≡ false

check_replay-ok :
    (now : ℕ) (seen : List (String × ℕ)) (payload payload' : Payload)
    → check_replay now seen payload ≡ ok payload'
    → (payload ≡ payload')
      × (is_fresh payload.ts now replay_window_secs ≡ true)
      × (is_seen payload.id seen ≡ false)
check_replay-ok now seen payload payload' h = ground arith

body_bytes-ok :
    (upload : Upload) (body : String) → body_bytes upload ≡ ok body → upload ≡ complete body
unfolding body_bytes
body_bytes-ok upload body h = ground arith

ok_or-ok : {E A : Type 0} (o : Option A) (e : E) (a : A) → ok_or o e ≡ ok a → o ≡ some a
ok_or-ok none e a h = cc
ok_or-ok (some x) e a h = cc

module _ {B N : Type 0} ⦃e : External⦄ where
  check_payload-ok :
      (now : ℕ) (s : AppState B N) (caller' caller : String) (value : Value) (payload : Payload)
      → check_payload now s caller' value ≡ ok (caller, payload)
      → (e.value_payload value ≡ some payload)
        × (is_fresh payload.ts now replay_window_secs ≡ true)
        × (is_seen payload.id s.seen ≡ false)
  check_payload-ok now s caller' caller value payload h =
      let (payload', valid, h') =
        >>=-eq-ok (validate_request value caller' e.own_fingerprint s.config) _ h in
      let (payload'', checked, h'') = >>=-eq-ok (check_replay now s.seen payload') _ h' in
      let (same, fresh, new) = check_replay-ok now s.seen payload' payload'' checked in
      let typed =
        validate_request-value_payload value caller' e.own_fingerprint s.config payload' valid in
      let same' = same ∙ ap (λ (p : String × Payload). p.1) (ok-injective h'') in
      subst
        (λ (p : Payload).
          (e.value_payload value ≡ some p)
          × (is_fresh p.ts now replay_window_secs ≡ true)
          × (is_seen p.id s.seen ≡ false))
        same' (typed, fresh, new)

  pub check_request-Passed :
      (now : ℕ) (request : Request) (s : AppState B N) (caller : String) (payload : Payload)
      → check_request now request s ≡ ok (caller, payload)
      → Passed now request s payload
  unfolding check_request
  check_request-Passed now request s caller payload h =
      let (caller', _, h1) = >>=-eq-ok (require_peer request.peer) _ h in
      let (body, read, h2) = >>=-eq-ok (body_bytes request.upload) _ h1 in
      let (value, parsed, h3) =
        >>=-eq-ok (ok_or (e.parse_value body) (bad_request "body is not JSON")) _ h2 in
      let (sig, _, h4) = >>=-eq-ok (signature_header request.signature) _ h3 in
      let (book, _, h5) = >>=-eq-ok (ok_or s.contacts storage_error) _ h4 in
      let (_, _, h6) =
        >>=-eq-ok (check_signature book caller' body sig) (λ _. check_payload now s caller' value)
          h5 in
      let (typed, fresh, new) = check_payload-ok now s caller' caller value payload h6 in
      record {
        body = body;
        value = value;
        upload = body_bytes-ok request.upload body read;
        parsed = ok_or-ok (e.parse_value body) (bad_request "body is not JSON") value parsed;
        typed = typed;
        fresh = fresh;
        new = new;
      }
