-- ===== src/Content/Cut.antt =====
-- src/content.rs: `cut_at_char_boundary` against its description, the longest prefix within a limit.
use Prim.Native.Char.{Char, code}
use owlpost.Prelude.{
  ℕ, zero, suc, ◌+◌, ◌-◌, ◌≤◌, String, ◌≡◌, refl, sym, ap, ◌∙◌, true, false, List, [], ◌∷◌, ◌++◌,
  ltb, leb, codes, arith, Bool-cases, inl, inr, ◌⊎◌, ltb→lt,
}
use owlpost.Prelude.Chars.{utf8_width, byte_len}
use owlpost.Content.{is_char_boundary, slice_to, back_to_boundary, cut_at_char_boundary}

utf8_width_pos : (c : ℕ) → 1 ≤ utf8_width c
unfolding utf8_width
utf8_width_pos c = ground arith

slice-le : (s : String) (n : ℕ) → byte_len (codes (slice_to s n)) ≤ n
unfolding slice_to byte_len
slice-le String.[] n = omega arith
slice-le (String.◌∷◌ c s) n = elim (Bool-cases (ltb n (utf8_width (code c)))) [
  | inl h ↦ rw h (omega arith)
  | inr h ↦ rw h (ground (arith, slice-le s (n - utf8_width (code c))))
]

slice-IsPrefix : (s : String) (n : ℕ) → (rest : List ℕ) × (codes s ≡ codes (slice_to s n) ++ rest)
unfolding slice_to
slice-IsPrefix String.[] n = ([], refl)
slice-IsPrefix (String.◌∷◌ c s) n = elim (Bool-cases (ltb n (utf8_width (code c)))) [
  | inl h ↦ rw h (codes (String.◌∷◌ c s), refl)
  | inr h ↦ rw h (
      let (rest, e) = slice-IsPrefix s (n - utf8_width (code c)) in
      (rest, ap (λ (cs : List ℕ). code c ∷ cs) e))
]

no_room : (w l n : ℕ) → ltb n w ≡ true → w + l ≤ n → ⊥
no_room w l n k h = ground (arith, ltb→lt n w k)

room_left : (w l n : ℕ) → w + l ≤ n → l ≤ n - w
room_left w l n h = omega arith

add_le : (w : ℕ) {a b : ℕ} → a ≤ b → w + a ≤ w + b
add_le w h = omega arith

lt-pred : (n w : ℕ) → ltb (suc n) w ≡ true → ltb n w ≡ true
lt-pred n w k = ground arith

cons-head : {a b : ℕ} {xs ys : List ℕ} → a ∷ xs ≡ b ∷ ys → a ≡ b
cons-head e = cc

cons-tail : {a b : ℕ} {xs ys : List ℕ} → a ∷ xs ≡ b ∷ ys → xs ≡ ys
cons-tail e = cc

slice-longest :
    (s : String) (n : ℕ) (p q : List ℕ)
    → codes s ≡ p ++ q
    → byte_len p ≤ n
    → byte_len p ≤ byte_len (codes (slice_to s n))
unfolding slice_to byte_len
slice-longest s n [] q e h = omega arith
slice-longest String.[] n (x ∷ p) q e h = cc
slice-longest (String.◌∷◌ c s) n (x ∷ p) q e h = elim (Bool-cases (ltb n (utf8_width (code c)))) [
  | inl k ↦ absurd (no_room (utf8_width (code c)) (byte_len p) n k (rw (cons-head e) h))
  | inr k ↦
      rw (k, cons-head e)
        (add_le (utf8_width x) (
          slice-longest s (n - utf8_width x) p q (cons-tail e)
            (room_left (utf8_width x) (byte_len p) n h)))
]

slice-whole : (s : String) (n : ℕ) → byte_len (codes s) ≤ n → slice_to s n ≡ s
unfolding slice_to byte_len
slice-whole String.[] n h = refl
slice-whole (String.◌∷◌ c s) n h = elim (Bool-cases (ltb n (utf8_width (code c)))) [
  | inl k ↦ absurd (no_room (utf8_width (code c)) (byte_len (codes s)) n k h)
  | inr k ↦ rw k (
      ap (String.◌∷◌ c) (
        slice-whole s (n - utf8_width (code c))
          (room_left (utf8_width (code c)) (byte_len (codes s)) n h)))
]

boundary-cases :
    (w n : ℕ)
    → 1 ≤ w
    → ltb (suc n) w ≡ false
    → (suc n - w ≡ 0) ⊎ ((suc n - w ≡ suc (n - w)) × (ltb n w ≡ false))
boundary-cases w n p k = ground arith

boundary-inside :
    (c : Char) (s : String) (n : ℕ)
    → ltb (suc n) (utf8_width (code c)) ≡ false
    → is_char_boundary (String.◌∷◌ c s) (suc n) ≡ false
    → is_char_boundary s (suc n - utf8_width (code c)) ≡ false
unfolding is_char_boundary
boundary-inside c s n k h = sym (rw k refl) ∙ h

boundary-start : (s : String) (m : ℕ) → m ≡ 0 → is_char_boundary s m ≡ false → ⊥
unfolding is_char_boundary
boundary-start s zero e h = cc
boundary-start s (suc m) e h = ground arith

slice-off_boundary :
    (s : String) (n : ℕ) → is_char_boundary s (suc n) ≡ false → slice_to s (suc n) ≡ slice_to s n
unfolding slice_to is_char_boundary
slice-off_boundary String.[] n h = refl
slice-off_boundary (String.◌∷◌ c s) n h = elim (Bool-cases (ltb (suc n) (utf8_width (code c)))) [
  | inl k ↦ rw (k, lt-pred n (utf8_width (code c)) k) refl
  | inr k ↦ elim (boundary-cases (utf8_width (code c)) n (utf8_width_pos (code c)) k) [
    | inl at ↦
        absurd (boundary-start s (suc n - utf8_width (code c)) at (boundary-inside c s n k h))
    | inr (past, fits) ↦
        rw (k, fits, past)
          (ap (String.◌∷◌ c) (
            slice-off_boundary s (n - utf8_width (code c))
              (rw (sym past) (boundary-inside c s n k h))))
  ]
]

slice-back : (s : String) (n : ℕ) → slice_to s (back_to_boundary s n) ≡ slice_to s n
unfolding back_to_boundary
slice-back s zero = refl
slice-back s (suc n) = elim (Bool-cases (is_char_boundary s (suc n))) [
  | inl here ↦ rw here refl
  | inr off ↦ rw off (slice-back s n ∙ sym (slice-off_boundary s n off))
]

-- The prefix of a text with at most `max` bytes that is as long as any.
pub record IsLongest (text : String) (max : ℕ) (cut : String) : Type 0 where
  pub rest : List ℕ
  pub is_prefix : codes text ≡ codes cut ++ rest
  pub fits : byte_len (codes cut) ≤ max
  pub longest :
      (p q : List ℕ) → codes text ≡ p ++ q → byte_len p ≤ max → byte_len p ≤ byte_len (codes cut)

cut-eq-slice : (text : String) (max : ℕ) → cut_at_char_boundary text max ≡ slice_to text max
unfolding cut_at_char_boundary
cut-eq-slice text max = elim (Bool-cases (leb (byte_len (codes text)) max)) [
  | inl short ↦ rw short (sym (slice-whole text max (ground arith)))
  | inr long ↦ rw long (slice-back text max)
]

pub cut-fits :
    (text : String) (max : ℕ)
    → leb (byte_len (codes text)) max ≡ true
    → cut_at_char_boundary text max ≡ text
unfolding cut_at_char_boundary
cut-fits text max h = rw h refl

slice-IsLongest : (text : String) (max : ℕ) → IsLongest text max (slice_to text max)
slice-IsLongest text max =
    let (rest, e) = slice-IsPrefix text max in
    record {
      rest = rest;
      is_prefix = e;
      fits = slice-le text max;
      longest = slice-longest text max;
    }

-- `cut_at_char_boundary` gives the longest prefix of whole characters that has at most `max`
-- bytes: a prefix of the text, within the limit, and no shorter than any other such prefix.
pub cut-IsLongest : (text : String) (max : ℕ) → IsLongest text max (cut_at_char_boundary text max)
cut-IsLongest text max = rw (cut-eq-slice text max) (slice-IsLongest text max)
