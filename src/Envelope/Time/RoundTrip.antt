-- ===== src/Envelope/Time/RoundTrip.antt =====
-- Printing and reading the timestamps of src/envelope.rs.
use Prim.Native.Char.{code}
use owlpost.Prelude.{
  ℕ, zero, suc, ◌+◌, ◌*◌, ◌/◌, ◌%◌, ◌<◌, ◌≤◌, String, ◌≡◌, refl, ap, ◌∙◌, true, some, List, [], ◌∷◌,
  arith, codes,
}
use owlpost.Envelope.Time.{
  digit, decimal, two, four, format_fields, is_digit, value, from_fields, parse_codes,
  parse_rfc3339_to_unix, unix_to_rfc3339, civil_from_days, days_from_civil, shift_days,
}
use owlpost.Envelope.Time.Civil.{civil_in_range, days-civil}

code-digit : (d : ℕ) → d < 10 → code (digit d) ≡ b'0' + d
unfolding digit
code-digit zero h = refl
code-digit (suc zero) h = refl
code-digit (suc (suc zero)) h = refl
code-digit (suc (suc (suc zero))) h = refl
code-digit (suc (suc (suc (suc zero)))) h = refl
code-digit (suc (suc (suc (suc (suc zero))))) h = refl
code-digit (suc (suc (suc (suc (suc (suc zero)))))) h = refl
code-digit (suc (suc (suc (suc (suc (suc (suc zero))))))) h = refl
code-digit (suc (suc (suc (suc (suc (suc (suc (suc zero)))))))) h = refl
code-digit (suc (suc (suc (suc (suc (suc (suc (suc (suc zero))))))))) h = refl
code-digit (suc (suc (suc (suc (suc (suc (suc (suc (suc (suc d)))))))))) h = absurd (omega arith)

codes-two :
    (n : ℕ) (rest : String)
    → n < 100
    → codes (two n rest) ≡ (b'0' + n / 10) ∷ (b'0' + n % 10) ∷ codes rest
unfolding two
codes-two n rest h = rw (code-digit (n / 10) (omega arith), code-digit (n % 10) (omega arith))

decimal-zero : (fuel : ℕ) (rest : String) → decimal fuel 0 rest ≡ rest
unfolding decimal
decimal-zero zero rest = refl
decimal-zero (suc fuel) rest = refl

codes-four :
    (n : ℕ) (rest : String)
    → n < 10000
    → codes (four n rest)
      ≡ (b'0' + n / 1000)
        ∷ (b'0' + n / 100 % 10)
        ∷ (b'0' + n / 10 % 10)
        ∷ (b'0' + n % 10)
        ∷ codes rest
unfolding four
codes-four n rest h =
    let small : n / 10000 ≡ 0 = omega arith in
    rw
      (
        small,
        decimal-zero,
        codes-two (n % 10000 / 100) _ (omega arith),
        codes-two (n % 100) rest (omega arith),
      )
      (ground arith)

value-two : (n : ℕ) → n < 100 → value 0 ((b'0' + n / 10) ∷ (b'0' + n % 10) ∷ []) ≡ n
unfolding value
value-two n h = omega arith

value-four :
    (n : ℕ)
    → n < 10000
    → value 0
        ((b'0' + n / 1000) ∷ (b'0' + n / 100 % 10) ∷ (b'0' + n / 10 % 10) ∷ (b'0' + n % 10) ∷ [])
      ≡ n
unfolding value
value-four n h = omega arith

is_digit-add : (d : ℕ) → d < 10 → is_digit (b'0' + d) ≡ true
unfolding is_digit
is_digit-add d h = ground arith

module _ (y m d h mi sec : ℕ) (hy : y < 10000) (hm : m < 100) (hd : d < 100) (hh : h < 100)
    (hi : mi < 100) (hs : sec < 100) where
  abbrev written : List ℕ
  written =
      (b'0' + y / 1000)
      ∷ (b'0' + y / 100 % 10)
      ∷ (b'0' + y / 10 % 10)
      ∷ (b'0' + y % 10)
      ∷ b'-'
      ∷ (b'0' + m / 10)
      ∷ (b'0' + m % 10)
      ∷ b'-'
      ∷ (b'0' + d / 10)
      ∷ (b'0' + d % 10)
      ∷ b'T'
      ∷ (b'0' + h / 10)
      ∷ (b'0' + h % 10)
      ∷ b':'
      ∷ (b'0' + mi / 10)
      ∷ (b'0' + mi % 10)
      ∷ b':'
      ∷ (b'0' + sec / 10)
      ∷ (b'0' + sec % 10)
      ∷ b'Z'
      ∷ []

  codes-format_fields : codes (format_fields y m d h mi sec) ≡ written
  unfolding format_fields
  codes-format_fields = rw (
    codes-four y _ hy,
    codes-two m _ hm,
    codes-two d _ hd,
    codes-two h _ hh,
    codes-two mi _ hi,
    codes-two sec _ hs,
  )

  parse_codes-written : parse_codes written ≡ from_fields y m d h mi sec
  unfolding parse_codes
  parse_codes-written = rw (
    is_digit-add (y / 1000) (omega arith),
    is_digit-add (y / 100 % 10) (omega arith),
    is_digit-add (y / 10 % 10) (omega arith),
    is_digit-add (y % 10) (omega arith),
    is_digit-add (m / 10) (omega arith),
    is_digit-add (m % 10) (omega arith),
    is_digit-add (d / 10) (omega arith),
    is_digit-add (d % 10) (omega arith),
    is_digit-add (h / 10) (omega arith),
    is_digit-add (h % 10) (omega arith),
    is_digit-add (mi / 10) (omega arith),
    is_digit-add (mi % 10) (omega arith),
    is_digit-add (sec / 10) (omega arith),
    is_digit-add (sec % 10) (omega arith),
    value-four y hy,
    value-two m hm,
    value-two d hd,
    value-two h hh,
    value-two mi hi,
    value-two sec hs,
  )

  -- Fields that fit their width are read back as they were.
  parse-format_fields :
      parse_rfc3339_to_unix (format_fields y m d h mi sec) ≡ from_fields y m d h mi sec
  unfolding parse_rfc3339_to_unix
  parse-format_fields = rw codes-format_fields parse_codes-written

from_fields-civil :
    (y m d h mi sec days : ℕ)
    → 1 ≤ m
    → m ≤ 12
    → 1 ≤ d
    → d ≤ 31
    → h < 24
    → mi < 60
    → sec < 60
    → days_from_civil y m d ≡ days + shift_days
    → from_fields y m d h mi sec ≡ some (days * 86400 + h * 3600 + mi * 60 + sec)
unfolding from_fields
from_fields-civil y m d h mi sec days h1 h2 h3 h4 h5 h6 h7 e = ground arith

-- A time before the year 10000 survives printing and reading.
pub parse-unix_to_rfc3339 :
    (unix : ℕ) → unix < 253402300800 → parse_rfc3339_to_unix (unix_to_rfc3339 unix) ≡ some unix
unfolding unix_to_rfc3339
parse-unix_to_rfc3339 unix small =
    let days : ℕ = unix / 86400 in
    let date = civil_from_days days in
    let range = civil_in_range days (omega arith) in
    rw
      (parse-format_fields date.0 date.1 date.2 (unix % 86400 / 3600) (unix % 86400 % 3600 / 60)
        (unix % 86400 % 60) (omega arith) (omega arith) (omega arith) (omega arith) (omega arith)
        (omega arith))
      (from_fields-civil date.0 date.1 date.2 (unix % 86400 / 3600) (unix % 86400 % 3600 / 60)
          (unix % 86400 % 60) days (omega arith) (omega arith) (omega arith) (omega arith)
          (omega arith) (omega arith) (omega arith) (days-civil days)
        ∙ ap some (omega arith))
