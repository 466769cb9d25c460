-- ===== src/Prelude/Text.antt =====
-- Texts: their code points, and equality as a decision.
use Prim.Native.Nat.{ℕ}
use Prim.Native.Char.{code}
use Prim.Native.String.{String}
use mathlib.Core.Path.{◌≡◌, refl, sym, ◌∙◌}
use mathlib.Core.Bool.{Bool, true, false, false≢true}
use mathlib.Core.List.{List, [], ◌∷◌}
use text.Mathlib.Text.{◌==◌ as same_text}
use text.Mathlib.TextEquality.{eq_iff as same_text_iff}

infix 50 ◌==◌
abbrev pub ◌==◌ : String → String → Bool
s == t = same_text s t

pub eq_iff : (s t : String) → ((s == t) ≡ true → s ≡ t) × (s ≡ t → (s == t) ≡ true)
eq_iff s t = same_text_iff s t

-- The code points of a text: its bytes, if it is ASCII.
abbrev pub codes : String → List ℕ
codes String.[] = []
codes (String.◌∷◌ c s) = code c ∷ codes s

String_decide : (s t : String) (b : Bool) → (s == t) ≡ b → Dec (s ≡ t)
String_decide s t true e = yes ((eq_iff s t).0 e)
String_decide s t false e = no (λ p. false≢true (sym e ∙ (eq_iff s t).1 p))

unfoldable pub String_discrete : Discrete String
unfolding String_decide
String_discrete s t = String_decide s t (s == t) refl
