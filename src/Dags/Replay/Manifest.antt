-- ===== src/Dags/Replay/Manifest.antt =====
-- `_derive_validation_manifest_key` of dags/replay_contract_hashdiff_from_minio.py.
pub mod Agrees
use Prim.Native.Char.{Char, code}
use Prim.Native.String
use ingestion_airflow.Common.{String, Bool, Option, none, some, ◌==◌, str_eq, if◌then◌else◌}
use ingestion_airflow.Py.Text.Strip.{strip}

abbrev is_slash : Char → Bool
is_slash c = code c == 47

unfoldable pub lstrip_slash : String → String
lstrip_slash String.[] = ""
lstrip_slash (String.◌∷◌ c s) =
    let rest = lstrip_slash s in if is_slash c then rest else String.◌∷◌ c s

abbrev cons_unless : Char → String → String
cons_unless c String.[] = if is_slash c then "" else String.◌∷◌ c ""
cons_unless c (String.◌∷◌ b s) = String.◌∷◌ c (String.◌∷◌ b s)

unfoldable pub rstrip_slash : String → String
rstrip_slash String.[] = ""
rstrip_slash (String.◌∷◌ c s) = cons_unless c (rstrip_slash s)

-- `s.strip("/")`
unfoldable pub strip_slashes : String → String
unfolding lstrip_slash rstrip_slash
strip_slashes s = rstrip_slash (lstrip_slash s)

abbrev put_before : Char → Option String → Option String
put_before c none = none
put_before c (some s) = some (String.◌∷◌ c s)

-- `s[:-len(suffix)]` where `s.endswith(suffix)`, for a suffix with content
unfoldable pub before_suffix : String → String → Option String
before_suffix String.[] suffix = none
before_suffix (String.◌∷◌ c s) suffix =
    let rest = put_before c (before_suffix s suffix) in
    if str_eq (String.◌∷◌ c s) suffix then some "" else rest

abbrev pub accepted_suffix : String
accepted_suffix = "/accepted/accepted_snapshot.ndjson.gz"

abbrev manifest_beside : Option String → Option String
manifest_beside none = none
manifest_beside (some base) = some (String.◌++◌ base "/accepted/manifest.json")

unfoldable pub derive_validation_manifest_key : String → Option String
derive_validation_manifest_key accepted_object_key =
    manifest_beside (before_suffix (strip_slashes (strip accepted_object_key)) accepted_suffix)
