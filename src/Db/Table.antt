-- ===== src/Db/Table.antt =====
-- The SQL statements that db/audit.py builds, over a table as the list of its rows.
pub mod Keyed
use ingestion_airflow.Common.{
  ◌≡◌, refl, ap, Bool, true, false, Option, none, some, List, [], ◌∷◌, if◌then◌else◌, Bool-cases,
  inl, inr, not, keep,
}

module _ {ℓ} {Row : Type ℓ} where
  -- `SELECT … WHERE p`, its first row
  unfoldable pub first_where : (Row → Bool) → List Row → Option Row
  first_where p [] = none
  first_where p (r ∷ rows) = if p r then some r else first_where p rows

  -- `UPDATE … SET f WHERE p`
  unfoldable pub update_where : (Row → Bool) → (Row → Row) → List Row → List Row
  update_where p f [] = []
  update_where p f (r ∷ rows) = (if p r then f r else r) ∷ update_where p f rows

  -- `DELETE … WHERE p`
  unfoldable pub delete_where : (Row → Bool) → List Row → List Row
  delete_where p rows = keep (λ r. not (p r)) rows

  -- `INSERT new ON CONFLICT (key) DO UPDATE SET f WHERE w RETURNING …`: `is_key` tells the row that
  -- conflicts; the flag tells whether a row was inserted or updated, and so returned.
  unfoldable pub upsert :
      (is_key : Row → Bool) (w : Row → Bool) (f : Row → Row) (new : Row)
      → List Row
      → List Row × Bool
  upsert is_key w f new [] = (new ∷ [], true)
  upsert is_key w f new (r ∷ rows) =
      let rest = upsert is_key w f new rows in
      if is_key r
      then (if w r then (f r ∷ rows, true) else (r ∷ rows, false))
      else (r ∷ rest.0, rest.1)

  -- The same with no `WHERE`.
  abbrev pub upsert_always : (Row → Bool) → (Row → Row) → Row → List Row → List Row
  upsert_always is_key f new rows = (upsert is_key (λ _. true) f new rows).0

module _ {ℓ} {Row : Type ℓ} where
  -- What the table holds under the key after an upsert, from what it held before.
  abbrev pub upserted : (Row → Bool) → (Row → Row) → Row → Option Row → Option Row
  upserted w f new none = some new
  upserted w f new (some r) = if w r then some (f r) else some r

  abbrev pub is_returned : (Row → Bool) → Option Row → Bool
  is_returned w none = true
  is_returned w (some r) = w r

module _ {ℓ} {Row : Type ℓ} (is_key : Row → Bool) where
  pub first_where-upsert :
      (w : Row → Bool) (f : Row → Row) (new : Row)
      → is_key new ≡ true
      → ((r : Row) → is_key r ≡ true → is_key (f r) ≡ true)
      → (rows : List Row)
      → first_where is_key (upsert is_key w f new rows).0
        ≡ upserted w f new (first_where is_key rows)
  unfolding first_where upsert
  first_where-upsert w f new hn hf [] = rw hn
  first_where-upsert w f new hn hf (r ∷ rows) = elim (Bool-cases (is_key r)) [
    | inl e ↦ elim (Bool-cases (w r)) [ inl u ↦ rw (e, u) (rw (hf r e)) | inr u ↦ rw (e, u) (rw e) ]
    | inr e ↦ rw e (rw e (first_where-upsert w f new hn hf rows))
  ]

  pub returned-upsert :
      (w : Row → Bool) (f : Row → Row) (new : Row) (rows : List Row)
      → (upsert is_key w f new rows).1 ≡ is_returned w (first_where is_key rows)
  unfolding first_where upsert
  returned-upsert w f new [] = refl
  returned-upsert w f new (r ∷ rows) = elim (Bool-cases (is_key r)) [
    | inl e ↦ elim (Bool-cases (w r)) [ inl u ↦ rw (e, u) | inr u ↦ rw (e, u) ]
    | inr e ↦ rw e (returned-upsert w f new rows)
  ]

  -- An upsert that returns no row has changed nothing.
  pub upsert_refused :
      (w : Row → Bool) (f : Row → Row) (new : Row) (rows : List Row)
      → (upsert is_key w f new rows).1 ≡ false
      → (upsert is_key w f new rows).0 ≡ rows
  unfolding upsert
  upsert_refused w f new [] h = absurd (cc)
  upsert_refused w f new (r ∷ rows) h = elim (Bool-cases (is_key r)) [
    | inl e ↦ elim (Bool-cases (w r)) [ inl u ↦ absurd (cc (rw (e, u) at h)) | inr u ↦ rw (e, u) ]
    | inr e ↦ rw e (λ i. r ∷ upsert_refused w f new rows (rw e at h) i)
  ]

  -- Rows under other keys stay, where `q` looks for rows that neither are under the key nor come there.
  pub first_where-upsert_ne :
      (q w : Row → Bool) (f : Row → Row) (new : Row)
      → q new ≡ false
      → ((r : Row) → is_key r ≡ true → (q r ≡ false) × (q (f r) ≡ false))
      → (rows : List Row) → first_where q (upsert is_key w f new rows).0 ≡ first_where q rows
  unfolding first_where upsert
  first_where-upsert_ne q w f new hn hf [] = rw hn
  first_where-upsert_ne q w f new hn hf (r ∷ rows) = elim (Bool-cases (is_key r)) [
    | inl e ↦
        let (a, b) = hf r e in
        elim (Bool-cases (w r)) [ inl u ↦ rw (e, u) (rw (a, b)) | inr u ↦ rw (e, u) ]
    | inr e ↦ rw e (elim (Bool-cases (q r)) [
      | inl u ↦ rw u
      | inr u ↦ rw u (first_where-upsert_ne q w f new hn hf rows)
    ])
  ]

module _ {ℓ} {Row : Type ℓ} where
  pub first_where-update :
      (p : Row → Bool) (f : Row → Row)
      → ((r : Row) → p r ≡ true → p (f r) ≡ true)
      → (rows : List Row)
      → first_where p (update_where p f rows)
        ≡ elim (first_where p rows) [ none ↦ none | some r ↦ some (f r) ]
  unfolding first_where update_where
  first_where-update p f h [] = refl
  first_where-update p f h (r ∷ rows) = elim (Bool-cases (p r)) [
    | inl e ↦ rw e (rw (h r e))
    | inr e ↦ rw e (rw e (first_where-update p f h rows))
  ]

  pub first_where-update_ne :
      (q p : Row → Bool) (f : Row → Row)
      → ((r : Row) → p r ≡ true → (q r ≡ false) × (q (f r) ≡ false))
      → (rows : List Row) → first_where q (update_where p f rows) ≡ first_where q rows
  unfolding first_where update_where
  first_where-update_ne q p f h [] = refl
  first_where-update_ne q p f h (r ∷ rows) = elim (Bool-cases (p r)) [
    | inl e ↦ let (a, b) = h r e in rw e (rw (a, b) (first_where-update_ne q p f h rows))
    | inr e ↦ rw e (elim (Bool-cases (q r)) [
      | inl u ↦ rw u
      | inr u ↦ rw u (first_where-update_ne q p f h rows)
    ])
  ]

  pub first_where-delete :
      (p : Row → Bool) (rows : List Row) → first_where p (delete_where p rows) ≡ none
  unfolding first_where delete_where
  first_where-delete p [] = refl
  first_where-delete p (r ∷ rows) = elim (Bool-cases (p r)) [
    | inl e ↦ rw e (first_where-delete p rows)
    | inr e ↦ rw e (rw e (first_where-delete p rows))
  ]

  pub first_where-delete_ne :
      (q p : Row → Bool)
      → ((r : Row) → p r ≡ true → q r ≡ false)
      → (rows : List Row) → first_where q (delete_where p rows) ≡ first_where q rows
  unfolding first_where delete_where
  first_where-delete_ne q p h [] = refl
  first_where-delete_ne q p h (r ∷ rows) = elim (Bool-cases (p r)) [
    | inl e ↦ rw (e, h r e) (first_where-delete_ne q p h rows)
    | inr e ↦
        rw e (elim (Bool-cases (q r)) [
          | inl u ↦ rw u
          | inr u ↦ rw u (first_where-delete_ne q p h rows)
        ])
  ]

  -- A row that a delete does not meet is still found.
  pub first_where-delete_kept :
      (q p : Row → Bool) (found : Row) (rows : List Row)
      → first_where q rows ≡ some found
      → p found ≡ false
      → first_where q (delete_where p rows) ≡ some found
  unfolding first_where delete_where
  first_where-delete_kept q p found [] h k = absurd (cc)
  first_where-delete_kept q p found (r ∷ rows) h k = elim (Bool-cases (q r)) [
    | inl e ↦
        let r_is_found : r ≡ found = cc (rw e at h) in
        let kept : p r ≡ false = rw r_is_found k in rw kept (rw e (ap some r_is_found))
    | inr e ↦
        let later : first_where q rows ≡ some found = rw e at h in
        elim (Bool-cases (p r)) [
          | inl d ↦ rw d (first_where-delete_kept q p found rows later k)
          | inr d ↦ rw d (rw e (first_where-delete_kept q p found rows later k))
        ]
  ]
