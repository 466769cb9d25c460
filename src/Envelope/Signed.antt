-- ===== src/Envelope/Signed.antt =====
-- src/envelope.rs: the signed envelope as it goes over the wire, and its verification.
use owlpost.Prelude.{String, not}
use owlpost.Prelude.Results
use owlpost.Prelude.Results.{Result, ok_or, refuse_if}
use owlpost.Error.{Error, message}
use owlpost.Envelope.{Payload}
use owlpost.External.{External}

pub record Envelope : Type 0 where
  pub raw : String
  pub sig : String

-- `Envelope::verify`: the signature over the raw text, then the parse of the text.
unfoldable pub verify_envelope : ⦃e : External⦄ → String → Envelope → Result Error Payload
verify_envelope ⦃e⦄ key env =
    Results.◌>>=◌ (ok_or (e.parse_sig env.sig) (message "bad signature")) λ (sig : String).
      Results.◌>>◌
        (refuse_if (not (e.verify key env.raw sig)) (message "signature does not verify"))
        (ok_or (e.parse_payload env.raw) (message "parsing payload"))
