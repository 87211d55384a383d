-- ===== src/Py/Exc/Reason.antt =====
-- Proofs about a `do` block of a source function, one line for each of its steps.
use ingestion_airflow.Py.Exc.{Kind, Result, Ensures, returns, raises, ◌>>=◌}

infixr 5 ◌≫◌
-- What the first step guarantees of its value may be used for the rest of the block.
pub ◌≫◌ {ℓ κ} :
    {A : Type ℓ} {B : Type κ} {P : A → Type 0} {R : B → Type 0} {Q : Kind → Type 0} {m : Result B}
    {f : B → Result A}
    → Ensures R Q m
    → ((b : B) → R b → Ensures P Q (f b))
    → Ensures P Q (m >>= f)
returns {a} r ≫ h = h a r
raises q ≫ h = raises q
