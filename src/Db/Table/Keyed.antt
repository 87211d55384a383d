-- ===== src/Db/Table/Keyed.antt =====
-- Tables in which at most one row is under a key, and what the statements do to them.
use ingestion_airflow.Common.{
  ◌≡◌, refl, Bool, true, false, none, some, List, [], ◌∷◌, ◌++◌, Bool-cases, inl, inr,
  if◌then◌else◌,
}
use ingestion_airflow.Db.Table.{first_where, update_where, delete_where, upsert}

module _ {Row : Type 0} where
  -- At most one row meets `q`.
  unfoldable pub AtMostOne : (Row → Bool) → List Row → Type 0
  AtMostOne q [] = Unit
  AtMostOne q (r ∷ rows) = (q r ≡ true → first_where q rows ≡ none) × AtMostOne q rows

module _ {Row : Type 0} (q : Row → Bool) where
  none-upsert :
      (is_key w : Row → Bool) (f : Row → Row) (new : Row)
      → ((r : Row) → q (f r) ≡ q r)
      → q new ≡ false
      → (rows : List Row) → first_where q rows ≡ none
      → first_where q (upsert is_key w f new rows).0 ≡ none
  unfolding first_where upsert
  none-upsert is_key w f new kept other [] h = rw other
  none-upsert is_key w f new kept other (r ∷ rows) h = elim (Bool-cases (q r)) [
    | inl e ↦ absurd (cc (rw e at h))
    | inr e ↦
        let later : first_where q rows ≡ none = rw e at h in
        elim (Bool-cases (is_key r)) [
          | inl k ↦ elim (Bool-cases (w r)) [
            | inl u ↦ rw (k, u) (rw (kept r, e) later)
            | inr u ↦ rw (k, u) (rw e later)
          ]
          | inr k ↦ rw k (rw e (none-upsert is_key w f new kept other rows later))
        ]
  ]

  pub AtMostOne-upsert :
      (is_key w : Row → Bool) (f : Row → Row) (new : Row)
      → ((r : Row) → q (f r) ≡ q r)
      → (q new ≡ true → (r : Row) → q r ≡ true → is_key r ≡ true)
      → (rows : List Row) → AtMostOne q rows
      → AtMostOne q (upsert is_key w f new rows).0
  unfolding AtMostOne first_where upsert
  AtMostOne-upsert is_key w f new kept conflicts [] h = (λ e. refl, tt)
  AtMostOne-upsert is_key w f new kept conflicts (r ∷ rows) h = elim (Bool-cases (is_key r)) [
    | inl k ↦ elim (Bool-cases (w r)) [
      | inl u ↦ rw (k, u) (λ e. h.0 (rw (kept r) at e), h.1)
      | inr u ↦ rw (k, u) h
    ]
    | inr k ↦ rw k (
      λ e. elim (Bool-cases (q new)) [
        | inl n ↦ absurd (let clash : is_key r ≡ true = conflicts n r e in cc)
        | inr n ↦ none-upsert is_key w f new kept n rows (h.0 e)
      ],
      AtMostOne-upsert is_key w f new kept conflicts rows h.1,
    )
  ]

  none-update :
      (p : Row → Bool) (f : Row → Row)
      → ((r : Row) → q (f r) ≡ q r)
      → (rows : List Row) → first_where q rows ≡ none
      → first_where q (update_where p f rows) ≡ none
  unfolding first_where update_where
  none-update p f kept [] h = refl
  none-update p f kept (r ∷ rows) h = elim (Bool-cases (q r)) [
    | inl e ↦ absurd (cc (rw e at h))
    | inr e ↦
        let later : first_where q rows ≡ none = rw e at h in
        elim (Bool-cases (p r)) [
          | inl u ↦ rw u (rw (kept r, e) (none-update p f kept rows later))
          | inr u ↦ rw u (rw e (none-update p f kept rows later))
        ]
  ]

  pub AtMostOne-update :
      (p : Row → Bool) (f : Row → Row)
      → ((r : Row) → q (f r) ≡ q r)
      → (rows : List Row) → AtMostOne q rows
      → AtMostOne q (update_where p f rows)
  unfolding AtMostOne update_where
  AtMostOne-update p f kept [] h = tt
  AtMostOne-update p f kept (r ∷ rows) h =
      (λ e. none-update p f kept rows (h.0 (before e)), AtMostOne-update p f kept rows h.1)
    where
      before : q (if p r then f r else r) ≡ true → q r ≡ true
      before e = elim (Bool-cases (p r)) [ inl u ↦ rw (kept r) at (rw u at e) | inr u ↦ rw u at e ]

  pub none-delete :
      (p : Row → Bool) (rows : List Row)
      → first_where q rows ≡ none
      → first_where q (delete_where p rows) ≡ none
  unfolding first_where delete_where
  none-delete p [] h = refl
  none-delete p (r ∷ rows) h = elim (Bool-cases (q r)) [
    | inl e ↦ absurd (cc (rw e at h))
    | inr e ↦
        let later : first_where q rows ≡ none = rw e at h in
        elim (Bool-cases (p r)) [
          | inl u ↦ rw u (none-delete p rows later)
          | inr u ↦ rw u (rw e (none-delete p rows later))
        ]
  ]

  pub AtMostOne-delete :
      (p : Row → Bool) (rows : List Row) → AtMostOne q rows → AtMostOne q (delete_where p rows)
  unfolding AtMostOne delete_where
  AtMostOne-delete p [] h = tt
  AtMostOne-delete p (r ∷ rows) h = elim (Bool-cases (p r)) [
    | inl u ↦ rw u (AtMostOne-delete p rows h.1)
    | inr u ↦ rw u (λ e. none-delete p rows (h.0 e), AtMostOne-delete p rows h.1)
  ]

  none-append :
      (new : Row) (rows : List Row)
      → q new ≡ false
      → first_where q rows ≡ none
      → first_where q (rows ++ new ∷ []) ≡ none
  unfolding first_where
  none-append new [] n h = rw n
  none-append new (r ∷ rows) n h = elim (Bool-cases (q r)) [
    | inl e ↦ absurd (cc (rw e at h))
    | inr e ↦ rw e (none-append new rows n (rw e at h))
  ]

  pub AtMostOne-append :
      (new : Row) (rows : List Row)
      → (q new ≡ true → first_where q rows ≡ none)
      → AtMostOne q rows
      → AtMostOne q (rows ++ new ∷ [])
  unfolding AtMostOne first_where
  AtMostOne-append new [] unused h = (λ e. refl, tt)
  AtMostOne-append new (r ∷ rows) unused h = (
    λ e. elim (Bool-cases (q new)) [
      | inl n ↦ absurd (cc (rw e at unused n))
      | inr n ↦ none-append new rows n (h.0 e)
    ],
    AtMostOne-append new rows (later unused) h.1,
  )
    where
      later :
          (q new ≡ true → first_where q (r ∷ rows) ≡ none)
          → q new ≡ true
          → first_where q rows ≡ none
      later u n = elim (Bool-cases (q r)) [
        | inl e ↦ absurd (cc (rw e at u n))
        | inr e ↦ rw e at u n
      ]

  -- A key whose row is deleted has no row left.
  pub AtMostOne-deleted :
      (p : Row → Bool) (found : Row) (rows : List Row)
      → AtMostOne q rows
      → first_where q rows ≡ some found
      → p found ≡ true
      → first_where q (delete_where p rows) ≡ none
  unfolding AtMostOne first_where delete_where
  AtMostOne-deleted p found [] h k d = absurd cc
  AtMostOne-deleted p found (r ∷ rows) h k d = elim (Bool-cases (q r)) [
    | inl e ↦
        let same : r ≡ found = cc (rw e at k) in
        let gone : p r ≡ true = rw same d in rw gone (none-delete p rows (h.0 e))
    | inr e ↦
        let later : first_where q rows ≡ some found = rw e at k in
        elim (Bool-cases (p r)) [
          | inl u ↦ rw u (AtMostOne-deleted p found rows h.1 later d)
          | inr u ↦ rw u (rw e (AtMostOne-deleted p found rows h.1 later d))
        ]
  ]

  -- The row that is found meets the predicate.
  pub first_where-found :
      (found : Row) (rows : List Row) → first_where q rows ≡ some found → q found ≡ true
  unfolding first_where
  first_where-found found [] h = absurd cc
  first_where-found found (r ∷ rows) h = elim (Bool-cases (q r)) [
    | inl e ↦ let same : r ≡ found = cc (rw e at h) in rw (← same) e
    | inr e ↦ first_where-found found rows (rw e at h)
  ]
