-- ===== src/Config/Tests/Fields.antt =====
-- The readers of a field run on samples.
use ingestion_airflow.Common.{◌≡◌, ◌↔◌, refl, some, none, [], ◌∷◌}
use ingestion_airflow.Py.Exc.{ok}
use ingestion_airflow.Py.Value.{text, str}
use ingestion_airflow.Py.Dict.{Dict, get}
use ingestion_airflow.Py.Text.Strip.{strip}
use ingestion_airflow.Samples.{sample_host}
use ingestion_airflow.Config.Parse.{resolve_optional, resolve_required}
use ingestion_airflow.Config.Parse.Fields.{IsFieldText, IsFieldText-iff}

abbrev blank_conf : Dict
blank_conf = ("landing_s3_bucket", text " ") ∷ []

-- Without a value the environment is read; a blank value is no value, and hides it.
read_or_blank :
    (resolve_optional sample_host [] "landing_s3_bucket" (some "LANDING_S3_BUCKET")
      ≡ some "landing")
    × (resolve_optional sample_host blank_conf "landing_s3_bucket" (some "LANDING_S3_BUCKET")
        ≡ none)
unfolding resolve_optional get str strip
read_or_blank = (refl, refl)

IsFieldText-iff_example :
    ((resolve_optional sample_host [] "landing_s3_bucket" (some "LANDING_S3_BUCKET")
        ≡ some "landing")
      ↔ IsFieldText sample_host [] "landing_s3_bucket" (some "LANDING_S3_BUCKET") "landing")
    × ((resolve_required sample_host [] "landing_s3_bucket" (some "LANDING_S3_BUCKET")
          ≡ ok "landing")
        ↔ IsFieldText sample_host [] "landing_s3_bucket" (some "LANDING_S3_BUCKET") "landing")
IsFieldText-iff_example =
    IsFieldText-iff sample_host [] "landing_s3_bucket" (some "LANDING_S3_BUCKET") "landing"
