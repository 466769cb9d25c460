-- ===== src/Prelude/Order.antt =====
-- The stable sort by a comparison (`sort_by_key`), and its first element.
use mathlib.Core.Path.{◌≡◌, refl, sym, subst}
use mathlib.Core.Logic.{inl, inr}
use mathlib.Core.Bool.{Bool, true, false}
use mathlib.Core.Option.{Option, none, some}
use mathlib.Core.List.{List, [], ◌∷◌}
use native.Mathlib.Omega.{arith}
use owlpost.Prelude.Tests.{if◌then◌else◌, Bool-cases}
use owlpost.Prelude.Lists.{All}

abbrev pub head {ℓ} : {A : Type ℓ} → List A → Option A
head [] = none
head (x ∷ xs) = some x

module _ {A : Type 0} where
  insert_with : (A → A → Bool) → A → List A → List A
  insert_with le x [] = x ∷ []
  insert_with le x (y ∷ ys) = if le x y then x ∷ y ∷ ys else y ∷ insert_with le x ys

  unfoldable pub sort_with : (A → A → Bool) → List A → List A
  unfolding insert_with
  sort_with le [] = []
  sort_with le (x ∷ xs) = insert_with le x (sort_with le xs)

  -- The elements are those of the list, in a predicate.
  All-insert_with :
      (P : A → Type 0) (le : A → A → Bool) (x : A) (ys : List A)
      → P x
      → All P ys
      → All P (insert_with le x ys)
  unfolding insert_with
  All-insert_with P le x [] p h = (p, tt)
  All-insert_with P le x (y ∷ ys) p h = ground (arith, All-insert_with P le x ys p h.1)

  pub All-sort_with :
      (P : A → Type 0) (le : A → A → Bool) (xs : List A) → All P xs → All P (sort_with le xs)
  unfolding sort_with
  All-sort_with P le [] h = tt
  All-sort_with P le (x ∷ xs) h =
      All-insert_with P le x (sort_with le xs) h.0 (All-sort_with P le xs h.1)

  head_insert_with : (A → A → Bool) → A → Option A → Option A
  head_insert_with le x none = some x
  head_insert_with le x (some y) = if le x y then some x else some y

  head-insert_with :
      (le : A → A → Bool) (x : A) (ys : List A)
      → head (insert_with le x ys) ≡ head_insert_with le x (head ys)
  unfolding insert_with head_insert_with
  head-insert_with le x [] = refl
  head-insert_with le x (y ∷ ys) = ground arith

  abbrev pub Best : (A → A → Type 0) → List A → Option A → Type 0
  Best R xs none = All (λ _. ⊥) xs
  Best R xs (some b) = All (R b) xs

  All-weaken : (P Q : A → Type 0) → ((y : A) → P y → Q y) → (xs : List A) → All P xs → All Q xs
  All-weaken P Q f [] h = tt
  All-weaken P Q f (x ∷ xs) h = (f x h.0, All-weaken P Q f xs h.1)

  module _ (le : A → A → Bool) (R : A → A → Type 0) (refl_of : (x : A) → R x x)
      (trans_of : (x y z : A) → R x y → R y z → R x z) (yes_of : (x y : A) → le x y ≡ true → R x y)
      (no_of : (x y : A) → le x y ≡ false → R y x) where
    Best-step :
        (x : A) (xs : List A) (b : Option A)
        → Best R xs b
        → Best R (x ∷ xs) (head_insert_with le x b)
    unfolding head_insert_with
    Best-step x [] none h = (refl_of x, tt)
    Best-step x (y ∷ ys) none h = absurd h.0
    Best-step x xs (some b) h = elim (Bool-cases (le x b)) [
      | inl better ↦
          let x-b = yes_of x b better in
          rw better (refl_of x, All-weaken (R b) (R x) (λ y b-y. trans_of x b y x-b b-y) xs h)
      | inr worse ↦ rw worse (no_of x b worse, h)
    ]

    -- The first of the sorted list is no worse than any.
    pub head-sort_with : (xs : List A) → Best R xs (head (sort_with le xs))
    unfolding sort_with
    head-sort_with [] = tt
    head-sort_with (x ∷ xs) =
        subst (Best R (x ∷ xs)) (sym (head-insert_with le x (sort_with le xs)))
          (Best-step x xs (head (sort_with le xs)) (head-sort_with xs))
