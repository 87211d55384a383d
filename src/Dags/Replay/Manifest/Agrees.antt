-- ===== src/Dags/Replay/Manifest/Agrees.antt =====
-- The manifest that a replay finds beside an accepted object is the one that the run of the object wrote.
use Prim.Native.Char.{Char}
use Prim.Native.String
use package.text.Mathlib.TextLemmas.{
  append_cancel_right, append_assoc, cons-append, nil-append, cons≢nil,
}
use ingestion_airflow.Common.{
  String, ◌≡◌, refl, ap, ◌∙◌, sym, inl, inr, false, some, [], ◌∷◌, str_eq, eq_iff, Bool-cases,
}
use ingestion_airflow.Py.Text.{concat}
use ingestion_airflow.Py.Text.Strip.{strip}
use ingestion_airflow.Runtime.Artifacts.{base_key, build_hashdiff_artifacts}
use ingestion_airflow.Dags.Replay.Manifest.{
  strip_slashes, before_suffix, accepted_suffix, derive_validation_manifest_key,
}

longer : (c : Char) (b s : String) → str_eq (String.◌∷◌ c (String.◌++◌ b s)) s ≡ false
longer c b s = elim (Bool-cases (str_eq (String.◌∷◌ c (String.◌++◌ b s)) s)) [
  | inl e ↦
      let same : String.◌∷◌ c (String.◌++◌ b s) ≡ s =
        (eq_iff (String.◌∷◌ c (String.◌++◌ b s)) s).0 e in
      absurd (
        cons≢nil (
          append_cancel_right (String.◌∷◌ c b) "" s
            (cons-append c b s ∙ same ∙ sym (nil-append s))))
  | inr e ↦ e
]

before-append :
    (b : String) → before_suffix (String.◌++◌ b accepted_suffix) accepted_suffix ≡ some b
unfolding before_suffix
before-append String.[] = refl
before-append (String.◌∷◌ c b) =
    rw (cons-append c b accepted_suffix)
      (rw (longer c b accepted_suffix) (rw (before-append b) refl))

object_key-append :
    (base : String)
    → concat (concat (base ∷ "/accepted" ∷ []) ∷ "/accepted_snapshot.ndjson.gz" ∷ [])
      ≡ String.◌++◌ base accepted_suffix
unfolding concat
object_key-append base = append_assoc base "/accepted" "/accepted_snapshot.ndjson.gz"

manifest_key-append :
    (base : String)
    → concat (concat (base ∷ "/accepted" ∷ []) ∷ "/manifest.json" ∷ [])
      ≡ String.◌++◌ base "/accepted/manifest.json"
unfolding concat
manifest_key-append base = append_assoc base "/accepted" "/manifest.json"

-- Given the key of an accepted object, a replay finds the manifest of the run that wrote it, which a replay
-- of that run finds as well, where the key has no blanks or slashes around it.
pub derive-build_hashdiff_artifacts :
    (namespace name run_id : String)
    → strip_slashes (strip (build_hashdiff_artifacts namespace name run_id).object_key)
      ≡ (build_hashdiff_artifacts namespace name run_id).object_key
    → derive_validation_manifest_key (build_hashdiff_artifacts namespace name run_id).object_key
      ≡ some (build_hashdiff_artifacts namespace name run_id).validation_manifest_key
unfolding derive_validation_manifest_key build_hashdiff_artifacts
derive-build_hashdiff_artifacts namespace name run_id trimmed =
    let base = base_key namespace name run_id in
    rw trimmed (
      rw (object_key-append base)
        (rw (before-append base) (ap some (sym (manifest_key-append base)))))
