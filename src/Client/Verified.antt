-- ===== src/Client/Verified.antt =====
-- src/client.rs: what `verify_answer` accepts.
use owlpost.Prelude.{String, ◌≡◌, refl, ap, sym, ◌∙◌, Bool, true, false, not, Option, none, some}
use owlpost.Prelude.Results.{ok, >>=-eq-ok, ok_or-eq-ok, refuse_if-eq-ok, ok-injective, ok_or}
use owlpost.Error.{message}
use owlpost.Envelope.{Payload, is_reply}
use owlpost.Envelope.Signed.{Envelope, verify_envelope}
use owlpost.External.{External}
use owlpost.Contacts.{Contact}
use owlpost.Client.{verify_answer, Wire, replies_to}

-- The payload is the parse of a text that the contact's key has signed, and of a kind that replies.
pub record IsSignedBy ⦃e : External⦄ (contact : Contact) (env : Envelope) (payload : Payload)
    : Type 0 where
  pub key : String
  pub signature : String
  pub has_key : e.parse_pubkey contact.pubkey ≡ some key
  pub has_signature : e.parse_sig env.sig ≡ some signature
  pub verified : e.verify key env.raw signature ≡ true
  pub parsed : e.parse_payload env.raw ≡ some payload
  pub replies : is_reply payload.kind ≡ true

not-eq-false : (b : Bool) → not b ≡ false → b ≡ true
not-eq-false true h = refl
not-eq-false false h = cc

ok_or-ok : {E A : Type 0} (o : Option A) (e : E) {a : A} → ok_or o e ≡ ok a → o ≡ some a
ok_or-ok none e h = cc
ok_or-ok (some a) e h = ap some (ok-injective h)

module _ ⦃e : External⦄ where
  verify_envelope-ok :
      (key : String) (env : Envelope) (payload : Payload)
      → verify_envelope key env ≡ ok payload
      → (sig : String) × (e.parse_sig env.sig ≡ some sig)
        × (e.verify key env.raw sig ≡ true)
        × (e.parse_payload env.raw ≡ some payload)
  unfolding verify_envelope
  verify_envelope-ok key env payload h =
      let (sig, has_sig, rest) = ok_or-eq-ok (e.parse_sig env.sig) (message "bad signature") _ h in
      let (good, parse) =
        refuse_if-eq-ok (not (e.verify key env.raw sig)) (message "signature does not verify") _
          rest in
      (
        sig,
        has_sig,
        not-eq-false (e.verify key env.raw sig) good,
        ok_or-ok (e.parse_payload env.raw) (message "parsing payload") parse,
      )

module _ ⦃e : External⦄ ⦃w : Wire⦄ where
  pub verify_answer-ok :
      (contact : Contact) (env : Envelope) (id : Option String) (payload : Payload)
      → verify_answer contact env id ≡ ok payload
      → IsSignedBy contact env payload × (replies_to id payload ≡ true)
  unfolding verify_answer
  verify_answer-ok contact env id payload h =
      let (key, has_key, h1) =
        ok_or-eq-ok (e.parse_pubkey contact.pubkey) (message "bad pubkey") _ h in
      let (p, opened, h2) = >>=-eq-ok (verify_envelope key env) _ h1 in
      let (kind, h3) = refuse_if-eq-ok (not (is_reply p.kind)) (message "not an answer") _ h2 in
      let (reply, h4) = refuse_if-eq-ok (not (replies_to id p)) (message "another question") _ h3 in
      let same : p ≡ payload = ok-injective h4 in
      let (sig, has_sig, good, parse) = verify_envelope-ok key env p opened in
      (
        record {
          key = key;
          signature = sig;
          has_key = has_key;
          has_signature = has_sig;
          verified = good;
          parsed = parse ∙ ap some same;
          replies =
              ap (λ (q : Payload). is_reply q.kind) (sym same)
              ∙ not-eq-false (is_reply p.kind) kind;
        },
        ap (λ (q : Payload). replies_to id q) (sym same) ∙ not-eq-false (replies_to id p) reply,
      )
