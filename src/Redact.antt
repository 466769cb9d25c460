-- ===== src/Redact.antt =====
-- src/runner.rs: the redaction of a text, and what becomes of a harness's output. The patterns are
-- those of the crate `regex`, which is a parameter.
use owlpost.Prelude.{ℕ, ◌+◌, String, Option, List, [], ◌∷◌}
use owlpost.Prelude.Results
use owlpost.Prelude.Results.{Result, ok, err, ok_or}
use owlpost.Error.{Error, message}

-- A pattern that compiles replaces its matches in a text by `[redacted]`, and counts them.
pub record Patterns : Type 0 where
  pub compile : String → Option (String → String × ℕ)

-- `compile_redactors`
unfoldable pub compile_redactors :
    ⦃p : Patterns⦄ → List String → Result Error (List (String → String × ℕ))
compile_redactors [] = ok []
compile_redactors ⦃p⦄ (pattern ∷ patterns) =
    Results.◌>>=◌ (ok_or (p.compile pattern) (message "invalid redact pattern"))
      λ (re : String → String × ℕ).
        Results.◌>>=◌ (compile_redactors patterns)
          λ (res : List (String → String × ℕ)). ok (re ∷ res)

-- The loop of `redact_with`: the text and the count so far
unfoldable pub redact_with : List (String → String × ℕ) → String → ℕ → String × ℕ
redact_with [] out count = (out, count)
redact_with (re ∷ res) out count = redact_with res (re out).0 (count + (re out).1)

-- `redact`
unfoldable pub redact : ⦃p : Patterns⦄ → List String → String → Result Error (String × ℕ)
unfolding compile_redactors redact_with
redact patterns text =
    Results.◌>>=◌ (compile_redactors patterns)
      λ (res : List (String → String × ℕ)). ok (redact_with res text 0)
