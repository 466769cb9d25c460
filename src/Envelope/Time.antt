-- ===== src/Envelope/Time.antt =====
-- src/envelope.rs: UTC timestamps, `YYYY-MM-DDTHH:MM:SSZ`. Seconds are a `u64` in the code and the
-- calendar arithmetic is in `i64`; the model is exact for the seconds below 2^63. The day numbers
-- are counted from 0000-03-01, so that none is negative for a date after the epoch.
pub mod Civil
pub mod RoundTrip
use Prim.Native.Char.{Char}
use owlpost.Prelude.{
  ℕ, zero, suc, ◌+◌, ◌-◌, ◌*◌, ◌/◌, ◌%◌, String, Bool, ◌&&◌, ◌||◌, not, Option, none, some, List,
  [], ◌∷◌, leb, ltb, nat_eq, if◌then◌else◌, all, codes,
}
use Prim.Native.String

abbrev pub epoch_days : ℕ
epoch_days = 719468

abbrev pub era_days : ℕ
era_days = 146097

abbrev pub Date : Type 0
Date = ℕ × ℕ × ℕ

-- `civil_from_days`, the year of the era: `doe` is the day of the era
unfoldable pub civil_yoe : ℕ → ℕ
civil_yoe doe = (doe - doe / 1460 + doe / 36524 - doe / 146096) / 365

-- its last lines: the month and the day of the day `doy` of the year `y` that begins in March
unfoldable pub civil_of_doy : ℕ → ℕ → Date
civil_of_doy y doy =
    let mp = (5 * doy + 2) / 153 in
    let d = doy - (153 * mp + 2) / 5 + 1 in
    let m = if ltb mp 10 then mp + 3 else mp - 9 in (if leb m 2 then y + 1 else y, m, d)

unfoldable pub civil_from_days : ℕ → Date
civil_from_days days =
    let z = days + epoch_days in
    let era = z / era_days in
    let doe = z - era * era_days in
    let yoe = civil_yoe doe in
    civil_of_doy (yoe + era * 400) (doe - (365 * yoe + yoe / 4 - yoe / 100))

-- `days_from_civil` with 719468 + 146097 added: one era more, since January and February of the
-- year 0 lie in the era before 0000-03-01. The month is at least 1 and the day too.
abbrev pub shift_days : ℕ
shift_days = 865565

unfoldable pub days_from_civil : ℕ → ℕ → ℕ → ℕ
days_from_civil year m d =
    let y = if leb m 2 then year + 399 else year + 400 in
    let era = y / 400 in
    let yoe = y - era * 400 in
    let mp = (m + 9) % 12 in
    let doy = (153 * mp + 2) / 5 + d - 1 in
    let doe = yoe * 365 + yoe / 4 - yoe / 100 + doy in era * era_days + doe

pub digit : ℕ → Char
digit zero = "0"
digit (suc zero) = "1"
digit (suc (suc zero)) = "2"
digit (suc (suc (suc zero))) = "3"
digit (suc (suc (suc (suc zero)))) = "4"
digit (suc (suc (suc (suc (suc zero))))) = "5"
digit (suc (suc (suc (suc (suc (suc zero)))))) = "6"
digit (suc (suc (suc (suc (suc (suc (suc zero))))))) = "7"
digit (suc (suc (suc (suc (suc (suc (suc (suc zero)))))))) = "8"
digit _ = "9"

-- The digits of `n` before `rest`; 20 digits hold every `u64`.
pub decimal : ℕ → ℕ → String → String
decimal zero n rest = rest
decimal (suc fuel) n rest =
    let more = decimal fuel (n / 10) (String.◌∷◌ (digit (n % 10)) rest) in
    if nat_eq n 0 then rest else more

-- `{:02}` of a number below 100, and `{:04}`
pub two : ℕ → String → String
two n rest = String.◌∷◌ (digit (n / 10)) (String.◌∷◌ (digit (n % 10)) rest)

pub four : ℕ → String → String
four n rest = decimal 20 (n / 10000) (two (n % 10000 / 100) (two (n % 100) rest))

pub format_fields : (y m d h mi sec : ℕ) → String
format_fields y m d h mi sec = four y (
    String.◌∷◌ "-" (
      two m (
        String.◌∷◌ "-" (
          two d (
            String.◌∷◌ "T" (
              two h (
                String.◌∷◌ ":" (two mi (String.◌∷◌ ":" (two sec (String.◌∷◌ "Z" String.[])))))))))))

unfoldable pub unix_to_rfc3339 : ℕ → String
unix_to_rfc3339 unix =
    let days = unix / 86400 in
    let rem = unix % 86400 in
    let (y, m, d) = civil_from_days days in
    format_fields y m d (rem / 3600) (rem % 3600 / 60) (rem % 60)

unfoldable pub is_digit : ℕ → Bool
is_digit c = leb b'0' c && leb c b'9'

-- The value of a field of digits.
unfoldable pub value : ℕ → List ℕ → ℕ
value acc [] = acc
value acc (c ∷ cs) = value (acc * 10 + (c - b'0')) cs

-- The range checks on the fields, then the seconds; `try_from` refuses what lies before 1970.
unfoldable pub from_fields : (y m day h mi sec : ℕ) → Option ℕ
from_fields y m day h mi sec =
    if not (leb 1 m && leb m 12)
      || not (leb 1 day && leb day 31)
      || ltb 23 h
      || ltb 59 mi
      || ltb 60 sec
    then none
    else let total = days_from_civil y m day * 86400 + h * 3600 + mi * 60 + sec in
      if ltb total (shift_days * 86400) then none else some (total - shift_days * 86400)

unfoldable pub parse_codes : List ℕ → Option ℕ
parse_codes
      (y1 ∷ y2 ∷ y3 ∷ y4 ∷ c4 ∷ m1 ∷ m2 ∷ c7 ∷ d1 ∷ d2 ∷ c10 ∷ h1 ∷ h2 ∷ c13 ∷ i1 ∷ i2 ∷ c16 ∷ s1
        ∷ s2 ∷ c19 ∷ []) =
    if nat_eq c4 b'-'
      && nat_eq c7 b'-'
      && nat_eq c10 b'T'
      && nat_eq c13 b':'
      && nat_eq c16 b':'
      && nat_eq c19 b'Z'
    then (if all is_digit (y1 ∷ y2 ∷ y3 ∷ y4 ∷ m1 ∷ m2 ∷ d1 ∷ d2 ∷ h1 ∷ h2 ∷ i1 ∷ i2 ∷ s1 ∷ s2 ∷ [])
        then from_fields (value 0 (y1 ∷ y2 ∷ y3 ∷ y4 ∷ [])) (value 0 (m1 ∷ m2 ∷ []))
            (value 0 (d1 ∷ d2 ∷ [])) (value 0 (h1 ∷ h2 ∷ [])) (value 0 (i1 ∷ i2 ∷ []))
            (value 0 (s1 ∷ s2 ∷ []))
        else none)
    else none
parse_codes _ = none

-- A text of 20 bytes with the six marks and digits elsewhere is a text of 20 characters, so it is
-- walked by its code points.
unfoldable pub parse_rfc3339_to_unix : String → Option ℕ
parse_rfc3339_to_unix s = parse_codes (codes s)
