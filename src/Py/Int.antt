-- ===== src/Py/Int.antt =====
-- Python's integers, their decimal text, and `int(text)`.
use Prim.Native.Char.{Char, code}
use Prim.Native.String
use ingestion_airflow.Common.{
  ℕ, zero, suc, ◌+◌, ◌-◌, ◌*◌, ◌/◌, ◌%◌, ◌<◌, String, ◌≡◌, refl, Bool, true, false, ◌&&◌, ◌||◌,
  Option, none, some, arith, ltb, leb, ◌==◌, if◌then◌else◌,
}
use ingestion_airflow.Py.Text.Strip.{strip}

-- `negsuc n` is -(n + 1).
pub data ℤ : Type 0 where
  pos : ℕ → ℤ
  negsuc : ℕ → ℤ

-- `-n`
abbrev pub negate : ℕ → ℤ
negate zero = pos 0
negate (suc n) = negsuc n

-- `value <= 0` and `value == 0`
abbrev pub is_not_positive : ℤ → Bool
is_not_positive (pos n) = n == 0
is_not_positive (negsuc n) = true

abbrev pub is_zero : ℤ → Bool
is_zero (pos n) = n == 0
is_zero (negsuc n) = false

-- `a + b`
abbrev sub_ℕ : ℕ → ℕ → ℤ
sub_ℕ a b = if leb b a then pos (a - b) else negsuc (b - a - 1)

infixl 65 ◌+ℤ◌
unfoldable pub ◌+ℤ◌ : ℤ → ℤ → ℤ
pos a +ℤ pos b = pos (a + b)
pos a +ℤ negsuc b = sub_ℕ a (suc b)
negsuc a +ℤ pos b = sub_ℕ b (suc a)
negsuc a +ℤ negsuc b = negsuc (suc (a + b))

abbrev pub IsPositive : ℤ → Type 0
IsPositive (pos n) = 0 < n
IsPositive (negsuc n) = ⊥

pub IsPositive-of_test : (z : ℤ) → is_not_positive z ≡ false → IsPositive z
IsPositive-of_test (pos n) h = ground arith
IsPositive-of_test (negsuc n) h = absurd (ground arith)

pub not-is_not_positive : (z : ℤ) → IsPositive z → is_not_positive z ≡ false
not-is_not_positive (pos n) h = ground arith
not-is_not_positive (negsuc n) h = absurd h

nth_char : ℕ → String → String
nth_char i String.[] = ""
nth_char zero (String.◌∷◌ c s) = String.◌∷◌ c ""
nth_char (suc i) (String.◌∷◌ c s) = nth_char i s

-- The decimal digits of `n` before `tail`; the fuel is above the number.
digits_before : ℕ → ℕ → String → String
digits_before zero n tail = tail
digits_before (suc fuel) n tail =
    let shown = String.◌++◌ (nth_char (n % 10) "0123456789") tail in
    let more = digits_before fuel (n / 10) shown in if ltb n 10 then shown else more

-- `str(n)`
unfoldable pub show_int : ℤ → String
unfolding digits_before nth_char
show_int (pos n) = digits_before (suc n) n ""
show_int (negsuc n) = String.◌++◌ "-" (digits_before (suc (suc n)) (suc n) "")

-- The most digits that `int(text)` takes, `sys.get_int_max_str_digits()`.
abbrev max_str_digits : ℕ
max_str_digits = 4300

-- The value of an ASCII digit; `wide` has the decimal digits beyond ASCII.
digit : (Char → Option ℕ) → Char → Option ℕ
digit wide c =
    if leb b'0' (code c) && leb (code c) b'9'
    then some (code c - b'0')
    else if ltb (code c) 128
    then none
    else wide c

record Scanned : Type 0 where
  value : ℕ
  digits : ℕ

-- U+001C to U+001F are white space to `str.strip`, and `int` refuses them wherever they stand.
has_separator : String → Bool
has_separator String.[] = false
has_separator (String.◌∷◌ c s) = leb 28 (code c) && leb (code c) 31 || has_separator s

-- Digits with single underscores between them; `after_digit` tells whether one came just before.
module _ (wide : Char → Option ℕ) where
  scan_digit : Option ℕ → Scanned → Option Scanned
  scan_digit none got = none
  scan_digit (some d) got = some (record { value = got.value * 10 + d; digits = got.digits + 1 })

  scan_step : Char → Option (Scanned × Bool) → Option (Scanned × Bool)
  scan_step c none = none
  scan_step c (some (got, after_digit)) =
      if code c == b'_'
      then (if after_digit then some (got, false) else none)
      else elim (scan_digit (digit wide c) got) [ none ↦ none | some next ↦ some (next, true) ]

  scan : String → Option (Scanned × Bool) → Option (Scanned × Bool)
  scan String.[] got = got
  scan (String.◌∷◌ c s) got = scan s (scan_step c got)

  finish_scan : Option (Scanned × Bool) → Option ℕ
  finish_scan none = none
  finish_scan (some (got, after_digit)) =
      if after_digit && leb got.digits max_str_digits then some got.value else none

  magnitude : String → Option ℕ
  unfolding scan scan_step scan_digit finish_scan digit
  magnitude s = finish_scan (scan s (some (record { value = 0; digits = 0 }, false)))

  signed : String → Option ℤ
  signed String.[] = none
  signed (String.◌∷◌ c s) =
      if code c == b'-'
      then elim (magnitude s) [ none ↦ none | some n ↦ some (negate n) ]
      else if code c == b'+'
      then elim (magnitude s) [ none ↦ none | some n ↦ some (pos n) ]
      else elim (magnitude (String.◌∷◌ c s)) [ none ↦ none | some n ↦ some (pos n) ]

  -- `int(text)`; `none` is ValueError.
  unfoldable pub int_of_text : String → Option ℤ
  unfolding signed magnitude has_separator
  int_of_text s = if has_separator s then none else signed (strip s)

int_tests :
    (int_of_text (λ _. none) " 1_000 " ≡ some (pos 1000))
    × (int_of_text (λ _. none) "-7" ≡ some (negsuc 6))
    × (int_of_text (λ _. none) "1__0" ≡ none)
    × (int_of_text (λ _. none) "" ≡ none)
    × (int_of_text (λ _. none) "\u{1c}5" ≡ none)
    × (show_int (negsuc 41) ≡ "-42")
    × (show_int (pos 1000) ≡ "1000")
unfolding int_of_text show_int strip
int_tests = (refl, refl, refl, refl, refl, refl, refl)
