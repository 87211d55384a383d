-- ===== src/Migrations.antt =====
-- ingestion_airflow/db/migrations.py: the command line that migrates the audit schema.
use ingestion_airflow.Common.{
  String, Bool, Option, none, some, ◌≡◌, false, inl, inr, str_eq, if◌then◌else◌, Bool-cases,
}
use ingestion_airflow.Py.Exc.{value_error, Result, ok, raise, ◌>>=◌}
use ingestion_airflow.Py.Value.{Host}

abbrev pub alembic_script_location : String
alembic_script_location = "ingestion_airflow:alembic"

-- The options of `alembic.config.Config` that are set.
pub record AlembicConfig : Type 0 where
  pub script_location : String
  pub sqlalchemy_url : String
  pub database_url : String

unfoldable pub build_alembic_config : String → Result AlembicConfig
build_alembic_config database_url =
    if str_eq database_url ""
    then raise value_error "database_url is required"
    else ok (record {
      script_location = alembic_script_location;
      sqlalchemy_url = database_url;
      database_url = database_url;
    })

abbrev or_text : Option String → String → String
or_text none d = d
or_text (some s) d = if str_eq s "" then d else s

-- What a call returns where it may end the program; `SystemExit` is no `Exception`.
pub data OrExit {ℓ} (A : Type ℓ) : Type ℓ where
  done : A → OrExit A
  exits : String → OrExit A

unfoldable pub resolve_database_url : Host → Option String → OrExit String
resolve_database_url host database_url =
    let resolved =
      or_text database_url
        (or_text (host.env "AUDIT_DATABASE_DSN") (or_text (host.env "ALEMBIC_DATABASE_URL") "")) in
    if str_eq resolved "" then exits "Set --database-url or AUDIT_DATABASE_DSN" else done resolved

-- The commands of the parser, with what they take.
pub data Command : Type 0 where
  upgrade downgrade : String → Command
  current : Bool → Command

-- `alembic.command`, which may raise.
pub record Alembic : Type 0 where
  pub run_upgrade : AlembicConfig → String → Result (Unit {0})
  pub run_downgrade : AlembicConfig → String → Result (Unit {0})
  pub run_current : AlembicConfig → Bool → Result (Unit {0})

abbrev pub dispatch : Alembic → AlembicConfig → Command → Result (Unit {0})
dispatch alembic config (upgrade revision) = alembic.run_upgrade config revision
dispatch alembic config (downgrade revision) = alembic.run_downgrade config revision
dispatch alembic config (current verbose) = alembic.run_current config verbose

abbrev pub migrate : Alembic → Command → String → Result (Unit {0})
migrate alembic command database_url = do
  config ← build_alembic_config database_url
  dispatch alembic config command

-- `main` on arguments that the parser has accepted.
unfoldable pub main : Host → Alembic → Option String → Command → OrExit (Result (Unit {0}))
main host alembic given command = elim (resolve_database_url host given) [
  | exits message ↦ exits message
  | done database_url ↦ done (migrate alembic command database_url)
]

-- A URL that is resolved has content.
pub resolve_database_url_lem :
    (host : Host) (given : Option String) (url : String)
    → resolve_database_url host given ≡ done url
    → str_eq url "" ≡ false
unfolding resolve_database_url
resolve_database_url_lem host given url h = elim (Bool-cases (str_eq resolved "")) [
  | inl e ↦ absurd (cc (rw e at h))
  | inr e ↦ let same : resolved ≡ url = cc (rw e at h) in rw (← same) e
]
  where
    resolved : String
    resolved =
        or_text given
          (or_text (host.env "AUDIT_DATABASE_DSN") (or_text (host.env "ALEMBIC_DATABASE_URL") ""))
