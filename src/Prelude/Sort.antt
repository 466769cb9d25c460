-- ===== src/Prelude/Sort.antt =====
-- `sort_by` by an order on texts (`str::cmp` compares bytes, which is the order of code points).
use Prim.Native.Nat.{Ordering}
use Prim.Native.String.{String, compare}
use mathlib.Core.Bool.{Bool, true, false}
use mathlib.Core.List.{List, [], ◌∷◌}
use native.Mathlib.Omega.{arith}
use owlpost.Prelude.Tests.{if◌then◌else◌}
use owlpost.Prelude.Lists.{All}

abbrev pub str_le : String → String → Bool
str_le s t = elim (compare s t) [ Ordering.gt ↦ false | _ ↦ true ]

module _ {ℓ} {A : Type ℓ} where
  insert_by : (A → String) → A → List A → List A
  insert_by key x [] = x ∷ []
  insert_by key x (y ∷ ys) = if str_le (key x) (key y) then x ∷ y ∷ ys else y ∷ insert_by key x ys

  -- The stable sort by a key.
  unfoldable pub sort_by : (A → String) → List A → List A
  unfolding insert_by
  sort_by key [] = []
  sort_by key (x ∷ xs) = insert_by key x (sort_by key xs)

module _ {ℓ κ} {A : Type ℓ} (P : A → Type κ) (key : A → String) where
  All-insert_by : (x : A) (ys : List A) → P x → All P ys → All P (insert_by key x ys)
  unfolding insert_by
  All-insert_by x [] p h = (p, tt)
  All-insert_by x (y ∷ ys) p h = ground (arith, All-insert_by x ys p h.1)

  pub All-sort_by : (xs : List A) → All P xs → All P (sort_by key xs)
  unfolding sort_by
  All-sort_by [] h = tt
  All-sort_by (x ∷ xs) h = All-insert_by x (sort_by key xs) h.0 (All-sort_by xs h.1)

  insert_by-All : (x : A) (ys : List A) → All P (insert_by key x ys) → P x × All P ys
  unfolding insert_by
  insert_by-All x [] h = h
  insert_by-All x (y ∷ ys) h = ground (arith, insert_by-All x ys)

  pub sort_by-All : (xs : List A) → All P (sort_by key xs) → All P xs
  unfolding sort_by
  sort_by-All [] h = tt
  sort_by-All (x ∷ xs) h =
      let (p, rest) = insert_by-All x (sort_by key xs) h in (p, sort_by-All xs rest)
