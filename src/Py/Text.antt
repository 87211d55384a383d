-- ===== src/Py/Text.antt =====
-- Methods of `str`: `strip`, `lower`, `join`, f-strings, `in` on a set of texts, `sorted`.
pub mod Strip
use Prim.Native.Nat.{Ordering}
use Prim.Native.String
use mathlib.Core.List.{foldr}
use ingestion_airflow.Common.{
  String, Bool, List, [], ◌∷◌, str_eq, eq_iff, any, All, Bool-cases, inl, inr, true, ◌≡◌,
}

-- An f-string: its parts in order.
unfoldable pub concat : List String → String
concat [] = ""
concat (s ∷ parts) = String.◌++◌ s (concat parts)

-- `sep.join(parts)`
unfoldable pub join : String → List String → String
join sep [] = ""
join sep (s ∷ []) = s
join sep (s ∷ t ∷ parts) = String.◌++◌ s (String.◌++◌ sep (join sep (t ∷ parts)))

-- `s in {…}`
unfoldable pub is_one_of : String → List String → Bool
is_one_of s options = any (λ o. str_eq o s) options

insert_sorted : String → List String → List String
insert_sorted s [] = s ∷ []
insert_sorted s (t ∷ rest) = elim (String.compare t s) [
  | Ordering.gt ↦ s ∷ t ∷ rest
  | _ ↦ t ∷ insert_sorted s rest
]

-- `sorted(texts)`, by code points
unfoldable pub sorted : List String → List String
unfolding insert_sorted
sorted texts = foldr insert_sorted [] texts

-- What holds of every option holds of a text that is one of them.
pub is_one_of-All :
    (P : String → Type 0) (s : String) (options : List String)
    → All P options
    → is_one_of s options ≡ true
    → P s
unfolding is_one_of
is_one_of-All P s [] h e = absurd (cc)
is_one_of-All P s (o ∷ options) h e = elim (Bool-cases (str_eq o s)) [
  | inl same ↦ let o_is_s : o ≡ s = (eq_iff o s).0 same in rw (← o_is_s) h.0
  | inr other ↦ is_one_of-All P s options h.1 (rw other at e)
]
