-- ===== src/Prelude/Exec.antt =====
-- Fallible code over a state `S`. What was written before an error stays written, so the state
-- comes back beside the error too.
use mathlib.Core.Path.{◌≡◌, refl, ap, sym, subst, ◌∙◌}
use mathlib.Core.Bool.{Bool, true, false}
use mathlib.Core.Logic.{◌⊎◌, inl, inr}
use owlpost.Prelude.Tests.{if◌then◌else◌}
use owlpost.Prelude.Results.{Result, ok, err}

abbrev pub Exec : Type 0 → Type 0 → Type 0 → Type 0
Exec E S A = S → Result E A × S

module _ {E S A : Type 0} where
  abbrev pub pure : A → Exec E S A
  pure a s = (ok a, s)

  abbrev pub raise : E → Exec E S A
  raise e s = (err e, s)

  abbrev pub lift : Result E A → Exec E S A
  lift r s = (r, s)

  abbrev pub gets : (S → A) → Exec E S A
  gets f s = (ok (f s), s)

module _ {E S A B : Type 0} where
  abbrev pub continue : Result E A × S → (A → Exec E S B) → Result E B × S
  continue (ok a, s) f = f a s
  continue (err e, s) f = (err e, s)

  infixl 10 ◌>>=◌ ◌>>◌
  abbrev pub ◌>>=◌ : Exec E S A → (A → Exec E S B) → Exec E S B
  ◌>>=◌ m f s = continue (m s) f

  abbrev pub ◌>>◌ : Exec E S A → Exec E S B → Exec E S B
  m >> k = m >>= λ _. k

abbrev pub modify : {E S : Type 0} → (S → S) → Exec E S (Unit {0})
modify f s = (ok tt, f s)

-- What `P` says of the state holds after `m` if it holds before, whether or not `m` fails.
abbrev pub Preserves : {E S A : Type 0} → (S → Type 0) → Exec E S A → Type 0
Preserves P m = (s : _) → P s → P (m s).1

module _ {E S A B : Type 0} where
  continue-Preserves :
      (P : S → Type 0) (k : A → Exec E S B)
      → ((a : A) → Preserves P (k a))
      → (r : Result E A × S) → P r.1
      → P (continue r k).1
  continue-Preserves P k second (ok a, s) h = second a s h
  continue-Preserves P k second (err e, s) h = h

  pub >>=-Preserves :
      (P : S → Type 0) (m : Exec E S A) (k : A → Exec E S B)
      → Preserves P m
      → ((a : A) → Preserves P (k a))
      → Preserves P (m >>= k)
  >>=-Preserves P m k first second s h = continue-Preserves P k second (m s) (first s h)

  pub continue-ok :
      (r : Result E A × S) (k : A → Exec E S B) {b : B}
      → (continue r k).0 ≡ ok b
      → (a : A) × (r.0 ≡ ok a) × (continue r k ≡ k a r.1)
  continue-ok (ok a, s) k h = (a, refl, refl)
  continue-ok (err e, s) k h = cc

  pub continue-err :
      (r : Result E A × S) (k : A → Exec E S B) {e : E}
      → (continue r k).0 ≡ err e
      → ((r.0 ≡ err e) × ((continue r k).1 ≡ r.1))
        ⊎ ((a : A) × (r.0 ≡ ok a) × (continue r k ≡ k a r.1))
  continue-err (ok a, s) k h = inr (a, refl, refl)
  continue-err (err e, s) k h = inl (cc, refl)

  -- The rest of a step that succeeded.
  pub after_ok :
      (P : S → Type 0) (r : Result E A × S) (k : A → Exec E S B) (b : B)
      → ((a : A) → r.0 ≡ ok a → (k a r.1).0 ≡ ok b → P (k a r.1).1)
      → (continue r k).0 ≡ ok b
      → P (continue r k).1
  after_ok P r k b rest h =
      let (a, was_ok, same) = continue-ok r k h in
      subst (λ (p : Result E B × S). P p.1) (sym same)
        (rest a was_ok (ap (λ (p : Result E B × S). p.0) (sym same) ∙ h))

  -- What holds after a step and after whatever follows it holds at the end.
  pub continue-state :
      (P : S → Type 0) (r : Result E A × S) (k : A → Exec E S B)
      → P r.1
      → ((a : A) → r.0 ≡ ok a → P (k a r.1).1)
      → P (continue r k).1
  continue-state P (ok a, s) k here next = next a refl
  continue-state P (err e, s) k here next = here

pub if_state :
    {R S : Type 0} (P : S → Type 0) (t : Bool) (x y : R × S)
    → P x.1
    → (t ≡ false → P y.1)
    → P (if t then x else y).1
if_state P true x y hx hy = hx
if_state P false x y hx hy = hy refl
