-- ===== src/Config/LogicalCdcReplay/Valid.antt =====
-- Which configurations `LogicalCdcReplayRunConfig.from_dagrun_conf` returns.
use ingestion_airflow.Common.{◌≡◌, refl, sym, ◌↔◌, none, some, [], ◌∷◌}
use ingestion_airflow.Py.Exc.{ok, Ensures, returns, Ensures-ok}
use ingestion_airflow.Py.Exc.Reason.{◌≫◌}
use ingestion_airflow.Py.Int.{ℤ}
use ingestion_airflow.Py.Value.{Host}
use ingestion_airflow.Py.Dict.{DictOf, Dict, subscript}
use ingestion_airflow.Config.Parse.{resolve_optional, parse_contract_version}
use ingestion_airflow.Config.Parse.Texts.{
  IsConfigError, IsResolved, resolve_required_lem, resolve_required_complete, require_fields_lem,
  require_fields_complete, IsGiven, IsTruthy-of_IsGiven,
}
use ingestion_airflow.Config.Parse.Ints.{
  IsParsed, IsSize, parse_positive_ints_lem, parse_positive_ints_complete, subscript-IsSize,
}
use ingestion_airflow.Config.Parse.Flags.{
  IsLanding, parse_landing_config_lem, parse_landing_config_complete,
}
use ingestion_airflow.Config.Steps.Laws.{
  relax, subscript_text_lem, subscript_text_complete, IsAuditDsn, resolve_audit_dsn_lem,
  resolve_audit_dsn_complete, HasNoDeltaKey, refuse_delta_object_key_lem,
  refuse_delta_object_key_complete, IsParentRunId, require_parent_run_id_lem,
  require_parent_run_id_complete,
}
use ingestion_airflow.Config.LogicalCdcReplay.{
  LogicalCdcReplayRunConfig, required_fields, field_defaults, from_dagrun_conf,
}

-- What each field is, as a description of the configuration and the environment.
pub record IsValid (host : Host) (conf : Dict) (c : LogicalCdcReplayRunConfig) : Type 0 where
  pub contracts_service_url :
      IsResolved host conf "contracts_service_url"
        (some "CONTRACTS_SERVICE_URL")
        c.contracts_service_url
  pub audit_dsn : IsAuditDsn host c.audit_dsn
  pub namespace : IsGiven host conf "namespace" c.namespace
  pub name : IsGiven host conf "name" c.name
  pub contract_version : c.contract_version ≡ parse_contract_version host conf
  pub parent_run_id : IsParentRunId host conf c.parent_run_id
  pub replay_reason : c.replay_reason ≡ resolve_optional host conf "replay_reason" none
  pub target_dsn : IsGiven host conf "target_dsn" c.target_dsn
  pub target_table_curated : IsGiven host conf "target_table_curated" c.target_table_curated
  pub landing : IsLanding host conf (
    c.landing_s3_bucket, c.landing_s3_prefix, c.landing_s3_endpoint_url, c.landing_s3_region,
    c.landing_s3_verify_ssl,
  )
  pub apply_load_batch_size : IsSize host conf "apply_load_batch_size" 1000 c.apply_load_batch_size
  pub upsert_batch_size : IsSize host conf "upsert_batch_size" 1000 c.upsert_batch_size
  pub no_delta_key : HasNoDeltaKey host conf

module _ (host : Host) (conf : Dict) where
  pub from_dagrun_conf_lem : Ensures (IsValid host conf) IsConfigError (from_dagrun_conf host conf)
  unfolding from_dagrun_conf
  from_dagrun_conf_lem = relax (refuse_delta_object_key_lem host conf) ≫ λ _ h_delta.
      relax (require_fields_lem conf required_fields) ≫ λ _ required.
      parse_positive_ints_lem host conf field_defaults ≫ λ sizes h_sizes.
      relax (parse_landing_config_lem host conf) ≫ λ landing h_landing.
      relax (require_parent_run_id_lem host conf required.1.1.0) ≫ λ parent h_parent.
      relax (resolve_required_lem host conf "contracts_service_url" (some "CONTRACTS_SERVICE_URL"))
      ≫ λ url h_url. relax (resolve_audit_dsn_lem host) ≫ λ audit h_audit.
          relax (subscript_text_lem host conf "namespace" required.0) ≫ λ namespace h_namespace.
          relax (subscript_text_lem host conf "name" required.1.0) ≫ λ name h_name.
          relax (subscript_text_lem host conf "target_dsn" required.1.1.1.0)
          ≫ λ target_dsn h_target_dsn.
              relax (subscript_text_lem host conf "target_table_curated" required.1.1.1.1.0)
              ≫ λ target_table_curated h_target_table_curated.
                  subscript-IsSize host conf field_defaults sizes h_sizes "apply_load_batch_size"
                    1000 refl
                  ≫ λ apply_load_batch_size h_apply_load_batch_size.
                      subscript-IsSize host conf field_defaults sizes h_sizes "upsert_batch_size"
                        1000 refl
                      ≫ λ upsert_batch_size h_upsert_batch_size. returns (record {
                        contracts_service_url = h_url;
                        audit_dsn = h_audit;
                        namespace = h_namespace;
                        name = h_name;
                        contract_version = refl;
                        parent_run_id = h_parent;
                        replay_reason = refl;
                        target_dsn = h_target_dsn;
                        target_table_curated = h_target_table_curated;
                        landing = h_landing;
                        apply_load_batch_size = h_apply_load_batch_size;
                        upsert_batch_size = h_upsert_batch_size;
                        no_delta_key = h_delta;
                      })

  sizes_of : LogicalCdcReplayRunConfig → DictOf ℤ
  sizes_of c =
      ("apply_load_batch_size", c.apply_load_batch_size)
      ∷ ("upsert_batch_size", c.upsert_batch_size)
      ∷ []

  sizes_of-IsParsed :
      (c : LogicalCdcReplayRunConfig)
      → IsValid host conf c
      → IsParsed host conf field_defaults (sizes_of c)
  unfolding sizes_of
  sizes_of-IsParsed c h = record {
    read = (refl, h.apply_load_batch_size.read, (refl, h.upsert_batch_size.read, tt));
    positive = (h.apply_load_batch_size.positive, (h.upsert_batch_size.positive, tt));
  }

  from_dagrun_conf_complete :
      (c : LogicalCdcReplayRunConfig) → IsValid host conf c → from_dagrun_conf host conf ≡ ok c
  unfolding from_dagrun_conf subscript sizes_of
  from_dagrun_conf_complete c h =
      rw
        (
          refuse_delta_object_key_complete host conf h.no_delta_key,
          require_fields_complete conf required_fields (
            IsTruthy-of_IsGiven h.namespace,
            (
              IsTruthy-of_IsGiven h.name,
              (
                IsTruthy-of_IsGiven h.parent_run_id.stripped.given,
                (
                  IsTruthy-of_IsGiven h.target_dsn,
                  (IsTruthy-of_IsGiven h.target_table_curated, tt),
                ),
              ),
            ),
          ),
          parse_positive_ints_complete host conf field_defaults (sizes_of c)
              (sizes_of-IsParsed c h),
          parse_landing_config_complete
              (
                c.landing_s3_bucket, c.landing_s3_prefix, c.landing_s3_endpoint_url,
                c.landing_s3_region, c.landing_s3_verify_ssl,
              )
              h.landing,
          require_parent_run_id_complete host conf h.parent_run_id,
          resolve_required_complete h.contracts_service_url,
          resolve_audit_dsn_complete h.audit_dsn,
          subscript_text_complete host conf h.namespace,
          subscript_text_complete host conf h.name,
          subscript_text_complete host conf h.target_dsn,
          subscript_text_complete host conf h.target_table_curated,
        )
        (sym (λ i. ok (record c {
          contract_version = h.contract_version i;
          replay_reason = h.replay_reason i;
        })))

-- `LogicalCdcReplayRunConfig.from_dagrun_conf` returns a configuration exactly where it is valid: each field is
-- what the run's configuration and the environment say, the required ones are there, sizes are
-- positive, and the choices are among those allowed. So nothing else is returned or refused.
pub logical_cdc_replay_config_iff :
    (host : Host) (conf : Dict) (c : LogicalCdcReplayRunConfig)
    → (from_dagrun_conf host conf ≡ ok c) ↔ IsValid host conf c
logical_cdc_replay_config_iff host conf c =
    (Ensures-ok (from_dagrun_conf_lem host conf) c, from_dagrun_conf_complete host conf c)
