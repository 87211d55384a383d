-- ===== src/Py/Exc.antt =====
-- Exceptions as values: the instances of `Exception`, so not `SystemExit`. A function of the source that may raise returns a `Result`.
pub mod Reason
use ingestion_airflow.Common.{String, ◌≡◌, refl, Bool, true, false, if◌then◌else◌}

pub data Kind : Type 0 where
  value_error type_error key_error overflow_error runtime_error attribute_error : Kind
  airflow_fail : Kind
  -- an exception that foreign code raises, by the name of its class
  foreign : String → Kind

pub record Exception : Type 0 where
  pub kind : Kind
  pub message : String

pub data Result {ℓ} (A : Type ℓ) : Type ℓ where
  ok : A → Result A
  raised : Exception → Result A

abbrev pub raise {ℓ} : {A : Type ℓ} → Kind → String → Result A
raise k m = raised (record { kind = k; message = m })

infixl 5 ◌>>=◌ ◌>>◌
abbrev pub ◌>>=◌ {ℓ κ} : {A : Type ℓ} {B : Type κ} → Result A → (A → Result B) → Result B
ok a >>= f = f a
raised e >>= f = raised e

abbrev pub ◌>>◌ {ℓ} : {B : Type ℓ} → Result (Unit {0}) → Result B → Result B
m >> k = m >>= λ _. k

-- What a result guarantees: `P` of a value that is returned, `Q` of the kind that is raised.
pub data Ensures {ℓ} {A : Type ℓ} (P : A → Type 0) (Q : Kind → Type 0) : Result A → Type ℓ where
  returns : {a : A} → P a → Ensures P Q (ok a)
  raises : {e : Exception} → Q e.kind → Ensures P Q (raised e)

-- `try: r except Exception: h`
abbrev pub catch {ℓ} : {A : Type ℓ} → Result A → (Exception → Result A) → Result A
catch (ok a) h = ok a
catch (raised e) h = h e

module _ {ℓ} {A : Type ℓ} {P : A → Type 0} {Q : Kind → Type 0} where
  -- The value that was returned has the property, once the result is known to be a return.
  pub Ensures-ok : {r : Result A} → Ensures P Q r → (a : A) → r ≡ ok a → P a
  Ensures-ok (returns {a} p) b e = let e' : a ≡ b = cc in rw (← e') p
  Ensures-ok (raises q) b e = absurd (cc)

  pub Ensures-raised : {r : Result A} → Ensures P Q r → (e : Exception) → r ≡ raised e → Q e.kind
  Ensures-raised (returns p) e h = absurd (cc)
  Ensures-raised (raises {e = x} q) e h = let e' : x ≡ e = cc in rw (← e') q

  pub Ensures-if :
      (b : Bool) (m n : Result A)
      → (b ≡ true → Ensures P Q m)
      → (b ≡ false → Ensures P Q n)
      → Ensures P Q (if b then m else n)
  Ensures-if true m n h k = h refl
  Ensures-if false m n h k = k refl
