-- ===== src/Prelude/Results.antt =====
-- `Result`: fallible code with an error `E`, and its inversion lemmas.
use mathlib.Core.Path.{◌≡◌, refl}
use mathlib.Core.Bool.{Bool, true, false}
use mathlib.Core.Option.{Option, none, some}
use mathlib.Core.Logic.{◌⊎◌, inl, inr}

pub data Result (E A : Type 0) : Type 0 where
  ok : A → Result E A
  err : E → Result E A

-- `?`
infixl 10 ◌>>=◌ ◌>>◌
abbrev pub ◌>>=◌ : {E A B : Type 0} → Result E A → (A → Result E B) → Result E B
ok a >>= f = f a
err e >>= f = err e

abbrev pub ◌>>◌ : {E B : Type 0} → Result E (Unit {0}) → Result E B → Result E B
m >> k = m >>= λ _. k

-- `ok_or`, `with_context` on an option
abbrev pub ok_or : {E A : Type 0} → Option A → E → Result E A
ok_or none e = err e
ok_or (some a) e = ok a

-- `if test { return Err(e) }`
abbrev pub refuse_if : {E : Type 0} → Bool → E → Result E (Unit {0})
refuse_if true e = err e
refuse_if false e = ok tt

-- A chain that succeeded: its first step did, and the rest did on what it returned.
module _ {E A B : Type 0} where
  pub >>=-eq-ok :
      (first : Result E A) (rest : A → Result E B) {final : B}
      → (first >>= rest) ≡ ok final
      → (x : A) × (first ≡ ok x) × (rest x ≡ ok final)
  >>=-eq-ok (err e) rest worked = cc
  >>=-eq-ok (ok x) rest worked = (x, refl, worked)

pub refuse_if-eq-ok :
    {E B : Type 0} (t : Bool) (e : E) (k : Result E B) {b : B}
    → (refuse_if t e >> k) ≡ ok b
    → (t ≡ false) × (k ≡ ok b)
refuse_if-eq-ok true e k h = cc
refuse_if-eq-ok false e k h = (refl, h)

pub ok_or-eq-ok :
    {E A B : Type 0} (o : Option A) (e : E) (f : A → Result E B) {b : B}
    → (ok_or o e >>= f) ≡ ok b
    → (a : A) × (o ≡ some a) × (f a ≡ ok b)
ok_or-eq-ok none e f h = cc
ok_or-eq-ok (some a) e f h = (a, refl, h)

pub Result-cases :
    {E A : Type 0} (r : Result E A) → ((a : A) × (r ≡ ok a)) ⊎ ((e : E) × (r ≡ err e))
Result-cases (ok a) = inl (a, refl)
Result-cases (err e) = inr (e, refl)

pub ok-injective : {E A : Type 0} {a b : A} → ◌≡◌ {A = Result E A} (ok a) (ok b) → a ≡ b
ok-injective h = cc

pub err-injective : {E A : Type 0} {a b : E} → ◌≡◌ {A = Result E A} (err a) (err b) → a ≡ b
err-injective h = cc
