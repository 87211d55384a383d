-- ===== src/Config/IncrementalAudit/Valid.antt =====
-- Which configurations `IncrementalAuditRunConfig.from_dagrun_conf` returns.
use ingestion_airflow.Common.{◌≡◌, refl, sym, ◌↔◌, some, [], ◌∷◌}
use mathlib.Core.Path.{subst}
use ingestion_airflow.Py.Exc.{ok, Ensures, returns, Ensures-ok}
use ingestion_airflow.Py.Exc.Reason.{◌≫◌}
use ingestion_airflow.Py.Int.{ℤ}
use ingestion_airflow.Py.Value.{Host}
use ingestion_airflow.Py.Dict.{DictOf, Dict, subscript}
use ingestion_airflow.Config.Parse.{resolve_optional, parse_contract_version}
use ingestion_airflow.Config.Parse.Texts.{
  IsConfigError, IsResolved, resolve_required_lem, resolve_required_complete, require_fields_lem,
  require_fields_complete, IsGiven, IsTruthy-of_IsGiven,
}
use ingestion_airflow.Config.Parse.Ints.{
  IsParsed, IsSize, parse_positive_ints_lem, parse_positive_ints_complete, subscript-IsSize,
}
use ingestion_airflow.Config.Parse.Flags.{
  Denotes, IsLanding, parse_landing_config_lem, parse_landing_config_complete, IsWatermarkMode,
  parse_watermark_mode_lem, parse_watermark_mode_complete,
}
use ingestion_airflow.Config.Steps.Laws.{
  relax, subscript_text_lem, subscript_text_complete, flag_value, parse_flag_lem,
  parse_flag_complete, IsAuditDsn, resolve_audit_dsn_lem, resolve_audit_dsn_complete, HasAdmin,
  require_admin_dsn_lem, require_admin_dsn_complete,
}
use ingestion_airflow.Config.IncrementalAudit.{
  IncrementalAuditRunConfig, required_fields, field_defaults, from_dagrun_conf,
}

-- What each field is, as a description of the configuration and the environment.
pub record IsValid (host : Host) (conf : Dict) (c : IncrementalAuditRunConfig) : Type 0 where
  pub contracts_service_url :
      IsResolved host conf "contracts_service_url"
        (some "CONTRACTS_SERVICE_URL")
        c.contracts_service_url
  pub audit_dsn : IsAuditDsn host c.audit_dsn
  pub namespace : IsGiven host conf "namespace" c.namespace
  pub name : IsGiven host conf "name" c.name
  pub contract_version : c.contract_version ≡ parse_contract_version host conf
  pub source_dsn : IsGiven host conf "source_dsn" c.source_dsn
  pub source_table : IsGiven host conf "source_table" c.source_table
  pub source_admin_dsn :
      c.source_admin_dsn ≡ resolve_optional host conf "source_admin_dsn" (some "SOURCE_ADMIN_DSN")
  pub admin : HasAdmin c.auto_setup_audit c.source_admin_dsn
  pub source_audit_table : IsGiven host conf "source_audit_table" c.source_audit_table
  pub target_dsn : IsGiven host conf "target_dsn" c.target_dsn
  pub target_table_curated : IsGiven host conf "target_table_curated" c.target_table_curated
  pub landing : IsLanding host conf (
    c.landing_s3_bucket, c.landing_s3_prefix, c.landing_s3_endpoint_url, c.landing_s3_region,
    c.landing_s3_verify_ssl,
  )
  pub extract_batch_size : IsSize host conf "extract_batch_size" 1000 c.extract_batch_size
  pub apply_load_batch_size : IsSize host conf "apply_load_batch_size" 1000 c.apply_load_batch_size
  pub upsert_batch_size : IsSize host conf "upsert_batch_size" 1000 c.upsert_batch_size
  pub auto_setup_audit : Denotes (flag_value conf "auto_setup_audit" "false") c.auto_setup_audit
  pub replace_existing_trigger :
      Denotes (flag_value conf "replace_existing_trigger" "false") c.replace_existing_trigger
  pub watermark_mode : IsWatermarkMode host conf c.watermark_mode

module _ (host : Host) (conf : Dict) where
  pub from_dagrun_conf_lem : Ensures (IsValid host conf) IsConfigError (from_dagrun_conf host conf)
  unfolding from_dagrun_conf
  from_dagrun_conf_lem = relax (require_fields_lem conf required_fields) ≫ λ _ required.
      parse_positive_ints_lem host conf field_defaults ≫ λ sizes h_sizes.
      relax (parse_landing_config_lem host conf) ≫ λ landing h_landing.
      relax (parse_flag_lem conf "auto_setup_audit" "false")
      ≫ λ auto_setup_audit h_auto_setup_audit.
          relax (
            require_admin_dsn_lem auto_setup_audit
              (resolve_optional host conf "source_admin_dsn" (some "SOURCE_ADMIN_DSN")))
          ≫ λ _ h_admin.
              relax (
                resolve_required_lem host conf "contracts_service_url"
                  (some "CONTRACTS_SERVICE_URL"))
              ≫ λ url h_url. relax (resolve_audit_dsn_lem host) ≫ λ audit h_audit.
                  relax (subscript_text_lem host conf "namespace" required.0)
                  ≫ λ namespace h_namespace.
                      relax (subscript_text_lem host conf "name" required.1.0) ≫ λ name h_name.
                      relax (subscript_text_lem host conf "source_dsn" required.1.1.0)
                      ≫ λ source_dsn h_source_dsn.
                          relax (subscript_text_lem host conf "source_table" required.1.1.1.0)
                          ≫ λ source_table h_source_table.
                              relax (
                                subscript_text_lem host conf "source_audit_table"
                                  required.1.1.1.1.0)
                              ≫ λ source_audit_table h_source_audit_table.
                                  relax
                                    (subscript_text_lem host conf "target_dsn" required.1.1.1.1.1.0)
                                  ≫ λ target_dsn h_target_dsn.
                                      relax (
                                        subscript_text_lem host conf "target_table_curated"
                                          required.1.1.1.1.1.1.0)
                                      ≫ λ target_table_curated h_target_table_curated.
                                          subscript-IsSize host conf field_defaults sizes h_sizes
                                            "extract_batch_size" 1000 refl
                                          ≫ λ extract_batch_size h_extract_batch_size.
                                              subscript-IsSize host conf field_defaults sizes
                                                h_sizes "apply_load_batch_size" 1000 refl
                                              ≫ λ apply_load_batch_size h_apply_load_batch_size.
                                                  subscript-IsSize host conf field_defaults sizes
                                                    h_sizes "upsert_batch_size" 1000 refl
                                                  ≫ λ upsert_batch_size h_upsert_batch_size.
                                                      relax (
                                                        parse_flag_lem conf
                                                          "replace_existing_trigger" "false")
                                                      ≫ λ replace_existing_trigger
                                                            h_replace_existing_trigger.
                                                          relax (parse_watermark_mode_lem host conf)
                                                          ≫ λ watermark h_watermark.
                                                            returns (record {
                                                            contracts_service_url = h_url;
                                                            audit_dsn = h_audit;
                                                            namespace = h_namespace;
                                                            name = h_name;
                                                            contract_version = refl;
                                                            source_dsn = h_source_dsn;
                                                            source_table = h_source_table;
                                                            source_admin_dsn = refl;
                                                            admin = h_admin;
                                                            source_audit_table =
                                                            h_source_audit_table;
                                                            target_dsn = h_target_dsn;
                                                            target_table_curated =
                                                            h_target_table_curated;
                                                            landing = h_landing;
                                                            extract_batch_size =
                                                            h_extract_batch_size;
                                                            apply_load_batch_size =
                                                            h_apply_load_batch_size;
                                                            upsert_batch_size = h_upsert_batch_size;
                                                            auto_setup_audit = h_auto_setup_audit;
                                                            replace_existing_trigger =
                                                            h_replace_existing_trigger;
                                                            watermark_mode = h_watermark;
                                                            })

  sizes_of : IncrementalAuditRunConfig → DictOf ℤ
  sizes_of c =
      ("extract_batch_size", c.extract_batch_size)
      ∷ ("apply_load_batch_size", c.apply_load_batch_size)
      ∷ ("upsert_batch_size", c.upsert_batch_size)
      ∷ []

  sizes_of-IsParsed :
      (c : IncrementalAuditRunConfig)
      → IsValid host conf c
      → IsParsed host conf field_defaults (sizes_of c)
  unfolding sizes_of
  sizes_of-IsParsed c h = record {
    read = (
      refl,
      h.extract_batch_size.read,
      (refl, h.apply_load_batch_size.read, (refl, h.upsert_batch_size.read, tt)),
    );
    positive = (
      h.extract_batch_size.positive,
      (h.apply_load_batch_size.positive, (h.upsert_batch_size.positive, tt)),
    );
  }

  from_dagrun_conf_complete :
      (c : IncrementalAuditRunConfig) → IsValid host conf c → from_dagrun_conf host conf ≡ ok c
  unfolding from_dagrun_conf subscript sizes_of
  from_dagrun_conf_complete c h =
      rw
        (
          require_fields_complete conf required_fields (
            IsTruthy-of_IsGiven h.namespace,
            (
              IsTruthy-of_IsGiven h.name,
              (
                IsTruthy-of_IsGiven h.source_dsn,
                (
                  IsTruthy-of_IsGiven h.source_table,
                  (
                    IsTruthy-of_IsGiven h.source_audit_table,
                    (
                      IsTruthy-of_IsGiven h.target_dsn,
                      (IsTruthy-of_IsGiven h.target_table_curated, tt),
                    ),
                  ),
                ),
              ),
            ),
          ),
          parse_positive_ints_complete host conf field_defaults (sizes_of c)
              (sizes_of-IsParsed c h),
          parse_landing_config_complete
              (
                c.landing_s3_bucket, c.landing_s3_prefix, c.landing_s3_endpoint_url,
                c.landing_s3_region, c.landing_s3_verify_ssl,
              )
              h.landing,
          parse_flag_complete conf "auto_setup_audit" "false" h.auto_setup_audit,
          require_admin_dsn_complete c.auto_setup_audit
              (resolve_optional host conf "source_admin_dsn" (some "SOURCE_ADMIN_DSN"))
              (subst (HasAdmin c.auto_setup_audit) h.source_admin_dsn h.admin),
          resolve_required_complete h.contracts_service_url,
          resolve_audit_dsn_complete h.audit_dsn,
          subscript_text_complete host conf h.namespace,
          subscript_text_complete host conf h.name,
          subscript_text_complete host conf h.source_dsn,
          subscript_text_complete host conf h.source_table,
          subscript_text_complete host conf h.source_audit_table,
          subscript_text_complete host conf h.target_dsn,
          subscript_text_complete host conf h.target_table_curated,
          parse_flag_complete conf "replace_existing_trigger" "false" h.replace_existing_trigger,
          parse_watermark_mode_complete host conf h.watermark_mode,
        )
        (sym (λ i. ok (record c {
          contract_version = h.contract_version i;
          source_admin_dsn = h.source_admin_dsn i;
        })))

-- `IncrementalAuditRunConfig.from_dagrun_conf` returns a configuration exactly where it is valid: each field is
-- what the run's configuration and the environment say, the required ones are there, sizes are
-- positive, and the choices are among those allowed. So nothing else is returned or refused.
pub incremental_audit_config_iff :
    (host : Host) (conf : Dict) (c : IncrementalAuditRunConfig)
    → (from_dagrun_conf host conf ≡ ok c) ↔ IsValid host conf c
incremental_audit_config_iff host conf c =
    (Ensures-ok (from_dagrun_conf_lem host conf) c, from_dagrun_conf_complete host conf c)
