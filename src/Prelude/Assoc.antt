-- ===== src/Prelude/Assoc.antt =====
-- Maps as association lists with text keys, and their laws.
use Prim.Native.String.{String}
use mathlib.Core.Path.{◌≡◌, refl}
use mathlib.Core.Option.{Option, none, some}
use mathlib.Core.List.{List, [], ◌∷◌}
use native.Mathlib.Omega.{arith}
use owlpost.Prelude.Tests.{if◌then◌else◌}
use owlpost.Prelude.Text.{◌==◌, eq_iff}

module _ {V : Type 0} where
  unfoldable pub find_key : String → List (String × V) → Option V
  find_key k [] = none
  find_key k ((j, v) ∷ m) = if j == k then some v else find_key k m

  unfoldable pub delete_key : String → List (String × V) → List (String × V)
  delete_key k [] = []
  delete_key k ((j, v) ∷ m) = let rest = delete_key k m in if j == k then rest else (j, v) ∷ rest

  -- A new key goes to the end, as the directory lists it.
  unfoldable pub set_key : String → V → List (String × V) → List (String × V)
  set_key k v [] = (k, v) ∷ []
  set_key k v ((j, w) ∷ m) =
      let rest = set_key k v m in if j == k then (k, v) ∷ m else (j, w) ∷ rest

  pub find-set :
      (k j : String) (v : V) (m : List (String × V))
      → find_key j (set_key k v m) ≡ (if k == j then some v else find_key j m)
  unfolding find_key set_key
  find-set k j v [] = refl
  find-set k j v ((i, w) ∷ m) = ground (arith, eq_iff k j, eq_iff i k, eq_iff i j, find-set k j v m)

  pub find-delete :
      (k j : String) (m : List (String × V))
      → find_key j (delete_key k m) ≡ (if k == j then none else find_key j m)
  unfolding find_key delete_key
  find-delete k j [] = ground arith
  find-delete k j ((i, w) ∷ m) =
      ground (arith, eq_iff k j, eq_iff i k, eq_iff i j, find-delete k j m)

  abbrev pub keys : List (String × V) → List String
  keys [] = []
  keys ((k, _) ∷ m) = k ∷ keys m
