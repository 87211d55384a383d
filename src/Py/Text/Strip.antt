-- ===== src/Py/Text/Strip.antt =====
-- `str.strip` and `str.lower`.
use Prim.Native.Char.{Char, code}
use ingestion_airflow.Common.{
  ℕ, zero, suc, ◌-◌, String, ◌≡◌, refl, Bool, false, ◌&&◌, ◌||◌, leb, ◌==◌, if◌then◌else◌,
  Bool-cases, inl, inr,
}

abbrev between : ℕ → ℕ → ℕ → Bool
between lo hi n = leb lo n && leb n hi

-- `str.isspace` of one character
unfoldable pub is_space : Char → Bool
is_space c =
    let n = code c in
    between 9 13 n
    || between 28 32 n
    || n == 0x85
    || n == 0xa0
    || n == 0x1680
    || between 0x2000 0x200a n
    || between 0x2028 0x2029 n
    || n == 0x202f
    || n == 0x205f
    || n == 0x3000

unfoldable pub strip_left : String → String
strip_left String.[] = ""
strip_left (String.◌∷◌ c s) = let rest = strip_left s in if is_space c then rest else String.◌∷◌ c s

abbrev pub trim_cons : Char → String → String
trim_cons c String.[] = if is_space c then "" else String.◌∷◌ c ""
trim_cons c (String.◌∷◌ d s) = String.◌∷◌ c (String.◌∷◌ d s)

unfoldable pub strip_right : String → String
strip_right String.[] = ""
strip_right (String.◌∷◌ c s) = trim_cons c (strip_right s)

unfoldable pub strip : String → String
unfolding strip_left strip_right is_space
strip s = strip_right (strip_left s)

-- The text neither starts nor ends with white space.
abbrev pub IsTrimmed : String → Type 0
IsTrimmed s = strip s ≡ s

strip_right-trim_cons :
    (c : Char) (s : String) → strip_right s ≡ s → strip_right (trim_cons c s) ≡ trim_cons c s
unfolding strip_right
strip_right-trim_cons c String.[] h = elim (Bool-cases (is_space c)) [
  | inl e ↦ rw e
  | inr e ↦ rw e (rw e)
]
strip_right-trim_cons c (String.◌∷◌ d s) h = rw h

strip_right_idem : (s : String) → strip_right (strip_right s) ≡ strip_right s
unfolding strip_right
strip_right_idem String.[] = refl
strip_right_idem (String.◌∷◌ c s) = strip_right-trim_cons c (strip_right s) (strip_right_idem s)

-- A text that starts with no white space is left alone on the left, also once trimmed on the right.
strip_left-trim_cons :
    (c : Char) (s : String) → is_space c ≡ false → strip_left (trim_cons c s) ≡ trim_cons c s
unfolding strip_left
strip_left-trim_cons c String.[] h = rw h (rw h)
strip_left-trim_cons c (String.◌∷◌ d s) h = rw h

strip_left-strip :
    (s : String) → strip_left (strip_right (strip_left s)) ≡ strip_right (strip_left s)
unfolding strip_left strip_right
strip_left-strip String.[] = refl
strip_left-strip (String.◌∷◌ c s) = elim (Bool-cases (is_space c)) [
  | inl e ↦ rw e (strip_left-strip s)
  | inr e ↦ rw e (strip_left-trim_cons c (strip_right s) e)
]

pub strip_idem : (s : String) → IsTrimmed (strip s)
unfolding strip
strip_idem s = rw (strip_left-strip s) (strip_right_idem (strip_left s))

pick : ℕ → String → Char → Char
pick i String.[] d = d
pick zero (String.◌∷◌ c s) d = c
pick (suc i) (String.◌∷◌ c s) d = pick i s d

small : Char → Char
unfolding pick
small c =
    if between b'A' b'Z' (code c) then pick (code c - b'A') "abcdefghijklmnopqrstuvwxyz" c else c

-- An ASCII capital becomes small. Beyond ASCII a text is left as it is: the source lowers a text only
-- to compare it with a few words, and no character beyond ASCII has a letter of those for its small one.
unfoldable pub lower : String → String
unfolding small
lower String.[] = ""
lower (String.◌∷◌ c s) = String.◌∷◌ (small c) (lower s)

strip-lower_runs : lower (strip "\t YeS  ") ≡ "yes"
unfolding lower strip
strip-lower_runs = refl
