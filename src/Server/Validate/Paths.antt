-- ===== src/Server/Validate/Paths.antt =====
-- Which paths src/server.rs accepts: resolving one, segment by segment, never leaves the root.
use owlpost.Prelude.{
  ℕ, zero, suc, ◌≤◌, ◌≡◌, refl, Bool, true, false, Option, none, some, List, [], ◌∷◌, arith, nat_eq,
  if◌then◌else◌, any, ◌⊎◌, inl, inr, Bool-cases, String, codes, map,
}
use owlpost.Prelude.Chars.{begins_with}
use owlpost.Prelude.Results.{ok}
use owlpost.Json.{Map, lookup_str}
use owlpost.Config.{Config}
use owlpost.Server.Validate.{segments, is_dot_dot, escapes_root, separator, validate_content_body}

abbrev is_stay : List ℕ → Bool
is_stay [] = true
is_stay (c ∷ []) = nat_eq c b'.'
is_stay _ = false

-- How deep a walk along the segments ends below the directory that it starts from; `none` if it
-- ever leaves that directory. An empty segment and `.` stay, `..` goes up.
pub walk : ℕ → List (List ℕ) → Option ℕ
walk depth [] = some depth
walk zero (s ∷ ss) =
    let deeper = walk 1 ss in
    let here = walk zero ss in if is_dot_dot s then none else if is_stay s then here else deeper
walk (suc depth) (s ∷ ss) =
    let up = walk depth ss in
    let deeper = walk (suc (suc depth)) ss in
    let here = walk (suc depth) ss in
    if is_dot_dot s then up else if is_stay s then here else deeper

walk-deeper :
    (depth : ℕ) (ss : List (List ℕ))
    → any is_dot_dot ss ≡ false
    → (depth' : ℕ) × (depth ≤ depth') × (walk depth ss ≡ some depth')
unfolding walk
walk-deeper depth [] h = (depth, omega arith, refl)
walk-deeper zero (s ∷ ss) h =
    let plain : is_dot_dot s ≡ false = ground arith in
    elim (Bool-cases (is_stay s)) [
      | inl stays ↦
          let (n, le, e) = walk-deeper zero ss (ground arith) in
          (n, omega arith, rw (plain, stays) e)
      | inr enters ↦
          let (n, le, e) = walk-deeper 1 ss (ground arith) in (n, omega arith, rw (plain, enters) e)
    ]
walk-deeper (suc depth) (s ∷ ss) h =
    let plain : is_dot_dot s ≡ false = ground arith in
    elim (Bool-cases (is_stay s)) [
      | inl stays ↦
          let (n, le, e) = walk-deeper (suc depth) ss (ground arith) in
          (n, omega arith, rw (plain, stays) e)
      | inr enters ↦
          let (n, le, e) = walk-deeper (suc (suc depth)) ss (ground arith) in
          (n, omega arith, rw (plain, enters) e)
    ]

-- A text that names something below a directory: it does not begin with a separator, and a walk along
-- its segments never leaves the directory.
abbrev pub StaysInside : String → Type 0
StaysInside p =
    (begins_with b'/' (map separator (codes p)) ≡ false)
    × ((depth : ℕ) × (walk 0 (segments (codes p)) ≡ some depth))

StaysInside-of_escapes_root : (p : String) → escapes_root (codes p) ≡ false → StaysInside p
unfolding escapes_root
StaysInside-of_escapes_root p h =
    let (depth, _, e) = walk-deeper 0 (segments (codes p)) (ground arith) in
    (ground arith, (depth, e))

-- A content request that is accepted names a path, or a key of the memory store, that stays inside
-- the project, or the store.
pub validate_content_body-StaysInside :
    (body : Map) (config : Config) (p : String)
    → validate_content_body body config ≡ ok tt
    → (lookup_str "path" body ≡ some p) ⊎ (lookup_str "memory" body ≡ some p)
    → StaysInside p
unfolding validate_content_body
validate_content_body-StaysInside body config p h (inl path) =
    StaysInside-of_escapes_root p (ground arith)
validate_content_body-StaysInside body config p h (inr memory) =
    StaysInside-of_escapes_root p (ground arith)
