-- ===== src/Json/Laws.antt =====
-- The laws of maps: an insertion or a removal is seen at its key and nowhere else.
use owlpost.Prelude.{
  String, ◌≡◌, refl, ap, none, some, List, [], ◌∷◌, arith, ◌==◌, eq_iff, if◌then◌else◌,
}
use owlpost.Json.{Value, Map, empty, entry, lookup, insert, remove, to_list, of_list}

pub lookup-insert :
    (k j : String) (v : Value) (m : Map)
    → lookup j (insert k v m) ≡ (if k == j then some v else lookup j m)
unfolding lookup insert
lookup-insert k j v empty = refl
lookup-insert k j v (entry i w m) =
    ground (arith, eq_iff k j, eq_iff i k, eq_iff k i, eq_iff i j, lookup-insert k j v m)

pub lookup-remove :
    (k j : String) (m : Map) → lookup j (remove k m) ≡ (if k == j then none else lookup j m)
unfolding lookup remove
lookup-remove k j empty = ground arith
lookup-remove k j (entry i w m) =
    ground (arith, eq_iff k j, eq_iff i k, eq_iff i j, lookup-remove k j m)

pub to_list-of_list : (vs : List Value) → to_list (of_list vs) ≡ vs
unfolding to_list of_list
to_list-of_list [] = refl
to_list-of_list (v ∷ vs) = ap (λ l. v ∷ l) (to_list-of_list vs)
