-- ===== src/Prelude/Chars.antt =====
-- Texts as code points: white space, trimming, lengths in bytes, splitting, and the character
-- classes that the code tests.
use Prim.Native.Nat.{ℕ, ◌+◌}
use mathlib.Core.Bool.{Bool, true, false, ◌&&◌, ◌||◌}
use mathlib.Core.List.{List, [], ◌∷◌, reverse}
use owlpost.Prelude.Tests.{leb, ltb, nat_eq, if◌then◌else◌}

-- `char::is_whitespace` (Unicode's White_Space)
abbrev pub is_whitespace : ℕ → Bool
is_whitespace c =
    (leb 9 c && leb c 13)
    || nat_eq c 0x20
    || nat_eq c 0x85
    || nat_eq c 0xa0
    || nat_eq c 0x1680
    || (leb 0x2000 c && leb c 0x200a)
    || nat_eq c 0x2028
    || nat_eq c 0x2029
    || nat_eq c 0x202f
    || nat_eq c 0x205f
    || nat_eq c 0x3000

unfoldable pub trim_start : List ℕ → List ℕ
trim_start [] = []
trim_start (c ∷ cs) = let rest = trim_start cs in if is_whitespace c then rest else c ∷ cs

-- `str::trim`
unfoldable pub trim : List ℕ → List ℕ
unfolding trim_start
trim cs = reverse (trim_start (reverse (trim_start cs)))

unfoldable pub utf8_width : ℕ → ℕ
utf8_width c = if ltb c 0x80 then 1 else if ltb c 0x800 then 2 else if ltb c 0x10000 then 3 else 4

-- `str::len`: the bytes of a text
unfoldable pub byte_len : List ℕ → ℕ
byte_len [] = 0
byte_len (c ∷ cs) = utf8_width c + byte_len cs

abbrev pub is_alphanumeric : ℕ → Bool
is_alphanumeric c =
    (leb b'0' c && leb c b'9') || (leb b'a' c && leb c b'z') || (leb b'A' c && leb c b'Z')

abbrev push_front : ℕ → List (List ℕ) → List (List ℕ)
push_front c [] = (c ∷ []) ∷ []
push_front c (s ∷ ss) = (c ∷ s) ∷ ss

-- `str::split` by a character
unfoldable pub split : ℕ → List ℕ → List (List ℕ)
split sep [] = [] ∷ []
split sep (c ∷ cs) =
    let rest = split sep cs in if nat_eq c sep then [] ∷ rest else push_front c rest

abbrev pub is_empty {ℓ} : {A : Type ℓ} → List A → Bool
is_empty [] = true
is_empty (x ∷ xs) = false

abbrev pub begins_with : ℕ → List ℕ → Bool
begins_with c [] = false
begins_with c (d ∷ ds) = nat_eq d c
