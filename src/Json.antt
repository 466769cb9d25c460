-- ===== src/Json.antt =====
-- serde_json's `Value` and `Map`, as far as src/spool.rs, src/events.rs, src/answer.rs and
-- src/server.rs read and write them. A map is a `BTreeMap`: its keys are ordered.
pub mod Laws
use Prim.Native.String.{compare}
use Prim.Native.Nat.{Ordering}
use owlpost.Prelude.{
  ℕ, String, ◌≡◌, Bool, true, false, Option, none, some, List, [], ◌∷◌, ◌==◌, if◌then◌else◌,
}

mutual
  -- Numbers as serde_json keeps them: `u64`, a negative `i64` (-(n + 1)), a float by its text.
  pub data Value : Type 0 where
    null : Value
    bool : Bool → Value
    num negative : ℕ → Value
    float : String → Value
    str : String → Value
    arr : Items → Value
    obj : Map → Value

  pub data Items : Type 0 where
    nil : Items
    cons : Value → Items → Items

  pub data Map : Type 0 where
    empty : Map
    entry : String → Value → Map → Map

unfoldable pub to_list : Items → List Value
to_list nil = []
to_list (cons v vs) = v ∷ to_list vs

unfoldable pub of_list : List Value → Items
of_list [] = nil
of_list (v ∷ vs) = cons v (of_list vs)

-- `Map::get`
unfoldable pub lookup : String → Map → Option Value
lookup k empty = none
lookup k (entry j v m) = if j == k then some v else lookup k m

-- `Map::insert`
unfoldable pub insert : String → Value → Map → Map
insert k v empty = entry k v empty
insert k v (entry j w m) = elim (compare k j) [
  | Ordering.lt ↦ entry k v (entry j w m)
  | Ordering.eq ↦ entry k v m
  | Ordering.gt ↦ entry j w (insert k v m)
]

-- `Map::remove`; a key stands once, so taking out every entry of it takes out the one.
unfoldable pub remove : String → Map → Map
remove k empty = empty
remove k (entry j w m) = let rest = remove k m in if j == k then rest else entry j w rest

-- `Value::get` with a key
unfoldable pub get : String → Value → Option Value
unfolding lookup
get k (obj m) = lookup k m
get k _ = none

unfoldable pub as_str : Value → Option String
as_str (str s) = some s
as_str _ = none

unfoldable pub as_array : Value → Option (List Value)
unfolding to_list
as_array (arr vs) = some (to_list vs)
as_array _ = none

unfoldable pub as_object : Value → Option Map
as_object (obj m) = some m
as_object _ = none

unfoldable pub as_num : Value → Option ℕ
as_num (num n) = some n
as_num _ = none

-- `.and_then(Value::as_str)`
unfoldable pub str_of : Option Value → Option String
unfolding as_str
str_of none = none
str_of (some v) = as_str v

unfoldable pub get_str : String → Value → Option String
unfolding get str_of
get_str k v = str_of (get k v)

unfoldable pub lookup_str : String → Map → Option String
unfolding lookup str_of
lookup_str k m = str_of (lookup k m)
