-- ===== src/Config/Steps/Cdc.antt =====
-- The checks of the logical CDC configuration: output plugin, replica identity, DSN, idle timeout.
use ingestion_airflow.Common.{String, ◌≡◌, refl, sym, ap, true, false, Option, none, some, List}
use package.text.Mathlib.Text.{starts_with}
use ingestion_airflow.Py.Exc.Reason.{◌≫◌}
use ingestion_airflow.Py.Exc.{ok, Ensures, returns, raises, Ensures-if}
use ingestion_airflow.Py.Text.{is_one_of}
use ingestion_airflow.Py.Text.Strip.{strip}
use ingestion_airflow.Py.Int.{
  ℤ, IsPositive, IsPositive-of_test, is_not_positive, not-is_not_positive,
}
use ingestion_airflow.Py.Value.{Host, text, int_of}
use ingestion_airflow.Py.Dict.{Dict}
use ingestion_airflow.Config.Parse.{
  resolve_optional, or_default, logical_cdc_output_plugins, replica_identity_modes,
}
use ingestion_airflow.Config.Parse.Texts.{IsConfigError, IsTruthy, IsValueError}
use ingestion_airflow.Config.Parse.Ints.{int_of_text-Ensures}
use ingestion_airflow.Config.Steps.{
  parse_output_plugin, parse_replica_identity_mode, parse_replication_dsn, timeout_of,
  parse_idle_timeout,
}
use ingestion_airflow.Config.Steps.Laws.{
  guarded, guarded_not, subscript_text_lem, subscript_text_complete, IsStripped,
}

-- The text of an optional field or its default, which is one of a few words.
pub record IsChoice (host : Host) (conf : Dict) (f d : String) (words : List String) (s : String)
    : Type 0 where
  pub read : s ≡ or_default (resolve_optional host conf f none) d
  pub listed : is_one_of s words ≡ true

abbrev pub IsPlugin : Host → Dict → String → Type 0
IsPlugin host conf = IsChoice host conf "output_plugin" "pgoutput" logical_cdc_output_plugins

abbrev pub IsIdentityMode : Host → Dict → String → Type 0
IsIdentityMode host conf =
    IsChoice host conf "replica_identity_mode" "default" replica_identity_modes

pub record IsReplicationDsn (host : Host) (conf : Dict) (s : String) : Type 0 where
  pub stripped : IsStripped host conf "source_replication_dsn" s
  pub driverless : starts_with s "postgresql+" ≡ false

-- No timeout where the field has no content, else the positive integer that its text denotes.
abbrev IsTimeoutOf : Host → Option String → Option ℤ → Type 0
IsTimeoutOf host none t = t ≡ none
IsTimeoutOf host (some s) none = ⊥
IsTimeoutOf host (some s) (some z) = (int_of host (text s) ≡ ok z) × IsPositive z

abbrev pub IsTimeout : Host → Dict → Option ℤ → Type 0
IsTimeout host conf = IsTimeoutOf host (resolve_optional host conf "idle_timeout_seconds" none)

timeout_of_lem :
    (host : Host) (o : Option String)
    → Ensures (IsTimeoutOf host o) IsConfigError (timeout_of host o)
timeout_of_lem host none = returns refl
timeout_of_lem host (some s) = int_of_text-Ensures host s ≫ (λ z e.
    Ensures-if (is_not_positive z) _ _ (λ _. raises tt) (λ p. returns (e, IsPositive-of_test z p)))

timeout_of_complete :
    (host : Host) (o : Option String) (t : Option ℤ)
    → IsTimeoutOf host o t
    → timeout_of host o ≡ ok t
timeout_of_complete host none t h = ap ok (sym h)
timeout_of_complete host (some s) none h = absurd h
timeout_of_complete host (some s) (some z) h = rw h.0 (rw (not-is_not_positive z h.1))

module _ (host : Host) (conf : Dict) where
  pub parse_output_plugin_lem :
      Ensures (IsPlugin host conf) IsValueError (parse_output_plugin host conf)
  unfolding parse_output_plugin
  parse_output_plugin_lem = guarded _ _ _ (λ e. record { read = refl; listed = e }) (raises tt)

  pub parse_output_plugin_complete :
      {s : String} → IsPlugin host conf s → parse_output_plugin host conf ≡ ok s
  unfolding parse_output_plugin
  parse_output_plugin_complete h = rw (← h.read) (rw h.listed)

  pub parse_replica_identity_mode_lem :
      Ensures (IsIdentityMode host conf) IsValueError (parse_replica_identity_mode host conf)
  unfolding parse_replica_identity_mode
  parse_replica_identity_mode_lem =
      guarded _ _ _ (λ e. record { read = refl; listed = e }) (raises tt)

  pub parse_replica_identity_mode_complete :
      {s : String} → IsIdentityMode host conf s → parse_replica_identity_mode host conf ≡ ok s
  unfolding parse_replica_identity_mode
  parse_replica_identity_mode_complete h = rw (← h.read) (rw h.listed)

  pub parse_replication_dsn_lem :
      IsTruthy conf "source_replication_dsn"
      → Ensures (IsReplicationDsn host conf) IsValueError (parse_replication_dsn host conf)
  unfolding parse_replication_dsn
  parse_replication_dsn_lem h = subscript_text_lem host conf "source_replication_dsn" h ≫ (λ t g.
      guarded_not _ (strip t) _
        (λ e. record {
          stripped = record { original = t; given = g; stripped = refl };
          driverless = e;
        })
        (raises tt))

  pub parse_replication_dsn_complete :
      {s : String} → IsReplicationDsn host conf s → parse_replication_dsn host conf ≡ ok s
  unfolding parse_replication_dsn
  parse_replication_dsn_complete h =
      rw (subscript_text_complete host conf h.stripped.given)
        (rw (← h.stripped.stripped) (rw h.driverless))

  pub parse_idle_timeout_lem :
      Ensures (IsTimeout host conf) IsConfigError (parse_idle_timeout host conf)
  unfolding parse_idle_timeout
  parse_idle_timeout_lem =
      timeout_of_lem host (resolve_optional host conf "idle_timeout_seconds" none)

  pub parse_idle_timeout_complete :
      {t : Option ℤ} → IsTimeout host conf t → parse_idle_timeout host conf ≡ ok t
  unfolding parse_idle_timeout
  parse_idle_timeout_complete {t} h =
      timeout_of_complete host (resolve_optional host conf "idle_timeout_seconds" none) t h
