-- ===== src/Config/LogicalCdc/Valid.antt =====
-- Which configurations `LogicalCdcRunConfig.from_dagrun_conf` returns.
use ingestion_airflow.Common.{◌≡◌, refl, sym, ◌↔◌, some, [], ◌∷◌}
use mathlib.Core.Path.{subst}
use ingestion_airflow.Py.Exc.{ok, Ensures, returns, Ensures-ok}
use ingestion_airflow.Py.Exc.Reason.{◌≫◌}
use ingestion_airflow.Py.Int.{ℤ}
use ingestion_airflow.Py.Value.{Host}
use ingestion_airflow.Py.Dict.{DictOf, Dict, subscript}
use ingestion_airflow.Config.Parse.{resolve_optional, parse_contract_version}
use ingestion_airflow.Config.Parse.Texts.{
  IsConfigError, IsResolved, resolve_required_lem, resolve_required_complete, require_fields_lem,
  require_fields_complete, IsGiven, IsTruthy-of_IsGiven,
}
use ingestion_airflow.Config.Parse.Ints.{
  IsParsed, IsSize, parse_positive_ints_lem, parse_positive_ints_complete, subscript-IsSize,
}
use ingestion_airflow.Config.Parse.Flags.{
  Denotes, IsLanding, parse_landing_config_lem, parse_landing_config_complete,
}
use ingestion_airflow.Config.Steps.Laws.{
  relax, subscript_text_lem, subscript_text_complete, flag_value, parse_flag_lem,
  parse_flag_complete, IsAuditDsn, resolve_audit_dsn_lem, resolve_audit_dsn_complete, HasAdmin,
  require_admin_dsn_lem, require_admin_dsn_complete,
}
use ingestion_airflow.Config.Steps.Cdc.{
  IsPlugin, IsIdentityMode, IsReplicationDsn, IsTimeout, parse_output_plugin_lem,
  parse_output_plugin_complete, parse_replica_identity_mode_lem,
  parse_replica_identity_mode_complete, parse_replication_dsn_lem, parse_replication_dsn_complete,
  parse_idle_timeout_lem, parse_idle_timeout_complete,
}
use ingestion_airflow.Config.LogicalCdc.{
  LogicalCdcRunConfig, required_fields, field_defaults, from_dagrun_conf,
}

-- What each field is, as a description of the configuration and the environment.
pub record IsValid (host : Host) (conf : Dict) (c : LogicalCdcRunConfig) : Type 0 where
  pub contracts_service_url :
      IsResolved host conf "contracts_service_url"
        (some "CONTRACTS_SERVICE_URL")
        c.contracts_service_url
  pub audit_dsn : IsAuditDsn host c.audit_dsn
  pub namespace : IsGiven host conf "namespace" c.namespace
  pub name : IsGiven host conf "name" c.name
  pub contract_version : c.contract_version ≡ parse_contract_version host conf
  pub source_dsn : IsGiven host conf "source_dsn" c.source_dsn
  pub source_replication_dsn : IsReplicationDsn host conf c.source_replication_dsn
  pub source_admin_dsn :
      c.source_admin_dsn ≡ resolve_optional host conf "source_admin_dsn" (some "SOURCE_ADMIN_DSN")
  pub admin : HasAdmin c.auto_setup_logical_cdc c.source_admin_dsn
  pub source_table : IsGiven host conf "source_table" c.source_table
  pub source_publication_name :
      IsGiven host conf "source_publication_name" c.source_publication_name
  pub source_slot_name : IsGiven host conf "source_slot_name" c.source_slot_name
  pub output_plugin : IsPlugin host conf c.output_plugin
  pub target_dsn : IsGiven host conf "target_dsn" c.target_dsn
  pub target_table_curated : IsGiven host conf "target_table_curated" c.target_table_curated
  pub landing : IsLanding host conf (
    c.landing_s3_bucket, c.landing_s3_prefix, c.landing_s3_endpoint_url, c.landing_s3_region,
    c.landing_s3_verify_ssl,
  )
  pub auto_setup_logical_cdc :
      Denotes (flag_value conf "auto_setup_logical_cdc" "false") c.auto_setup_logical_cdc
  pub auto_configure_wal_settings :
      Denotes (flag_value conf "auto_configure_wal_settings" "false") c.auto_configure_wal_settings
  pub replace_existing_publication :
      Denotes
        (flag_value conf "replace_existing_publication" "false")
        c.replace_existing_publication
  pub create_slot_if_missing :
      Denotes (flag_value conf "create_slot_if_missing" "true") c.create_slot_if_missing
  pub replica_identity_mode : IsIdentityMode host conf c.replica_identity_mode
  pub desired_max_replication_slots :
      IsSize host conf "desired_max_replication_slots" 10 c.desired_max_replication_slots
  pub desired_max_wal_senders :
      IsSize host conf "desired_max_wal_senders" 10 c.desired_max_wal_senders
  pub max_extract_seconds : IsSize host conf "max_extract_seconds" 30 c.max_extract_seconds
  pub idle_timeout_seconds : IsTimeout host conf c.idle_timeout_seconds
  pub apply_load_batch_size : IsSize host conf "apply_load_batch_size" 1000 c.apply_load_batch_size
  pub upsert_batch_size : IsSize host conf "upsert_batch_size" 1000 c.upsert_batch_size

module _ (host : Host) (conf : Dict) where
  pub from_dagrun_conf_lem : Ensures (IsValid host conf) IsConfigError (from_dagrun_conf host conf)
  unfolding from_dagrun_conf
  from_dagrun_conf_lem = relax (require_fields_lem conf required_fields) ≫ λ _ required.
      parse_positive_ints_lem host conf field_defaults ≫ λ sizes h_sizes.
      relax (parse_landing_config_lem host conf) ≫ λ landing h_landing.
      relax (parse_output_plugin_lem host conf) ≫ λ plugin h_plugin.
      relax (parse_replica_identity_mode_lem host conf) ≫ λ mode h_mode.
      relax (parse_flag_lem conf "auto_setup_logical_cdc" "false")
      ≫ λ auto_setup_logical_cdc h_auto_setup_logical_cdc.
          relax (
            require_admin_dsn_lem auto_setup_logical_cdc
              (resolve_optional host conf "source_admin_dsn" (some "SOURCE_ADMIN_DSN")))
          ≫ λ _ h_admin. relax (parse_replication_dsn_lem host conf required.1.1.1.0) ≫ λ dsn h_dsn.
              parse_idle_timeout_lem host conf ≫ λ timeout h_timeout.
              relax (
                resolve_required_lem host conf "contracts_service_url"
                  (some "CONTRACTS_SERVICE_URL"))
              ≫ λ url h_url. relax (resolve_audit_dsn_lem host) ≫ λ audit h_audit.
                  relax (subscript_text_lem host conf "namespace" required.0)
                  ≫ λ namespace h_namespace.
                      relax (subscript_text_lem host conf "name" required.1.0) ≫ λ name h_name.
                      relax (subscript_text_lem host conf "source_dsn" required.1.1.0)
                      ≫ λ source_dsn h_source_dsn.
                          relax (subscript_text_lem host conf "source_table" required.1.1.1.1.0)
                          ≫ λ source_table h_source_table.
                              relax (
                                subscript_text_lem host conf "source_publication_name"
                                  required.1.1.1.1.1.0)
                              ≫ λ source_publication_name h_source_publication_name.
                                  relax (
                                    subscript_text_lem host conf "source_slot_name"
                                      required.1.1.1.1.1.1.0)
                                  ≫ λ source_slot_name h_source_slot_name.
                                      relax (
                                        subscript_text_lem host conf "target_dsn"
                                          required.1.1.1.1.1.1.1.0)
                                      ≫ λ target_dsn h_target_dsn.
                                          relax (
                                            subscript_text_lem host conf "target_table_curated"
                                              required.1.1.1.1.1.1.1.1.0)
                                          ≫ λ target_table_curated h_target_table_curated.
                                              relax (
                                                parse_flag_lem conf "auto_configure_wal_settings"
                                                  "false")
                                              ≫ λ auto_configure_wal_settings
                                                    h_auto_configure_wal_settings.
                                                  relax (
                                                    parse_flag_lem conf
                                                      "replace_existing_publication" "false")
                                                  ≫ λ replace_existing_publication
                                                        h_replace_existing_publication.
                                                      relax (
                                                        parse_flag_lem conf "create_slot_if_missing"
                                                          "true")
                                                      ≫ λ create_slot_if_missing
                                                            h_create_slot_if_missing.
                                                          subscript-IsSize host conf field_defaults
                                                            sizes h_sizes
                                                            "desired_max_replication_slots" 10 refl
                                                          ≫ λ desired_max_replication_slots
                                                            h_desired_max_replication_slots.
                                                            subscript-IsSize host conf
                                                            field_defaults sizes h_sizes
                                                            "desired_max_wal_senders" 10 refl
                                                            ≫ λ desired_max_wal_senders
                                                            h_desired_max_wal_senders.
                                                            subscript-IsSize host conf
                                                            field_defaults sizes h_sizes
                                                            "max_extract_seconds" 30 refl
                                                            ≫ λ max_extract_seconds
                                                            h_max_extract_seconds.
                                                            subscript-IsSize host conf
                                                            field_defaults sizes h_sizes
                                                            "apply_load_batch_size" 1000 refl
                                                            ≫ λ apply_load_batch_size
                                                            h_apply_load_batch_size.
                                                            subscript-IsSize host conf
                                                            field_defaults sizes h_sizes
                                                            "upsert_batch_size" 1000 refl
                                                            ≫ λ upsert_batch_size
                                                            h_upsert_batch_size.
                                                            returns (record {
                                                            contracts_service_url = h_url;
                                                            audit_dsn = h_audit;
                                                            namespace = h_namespace;
                                                            name = h_name;
                                                            contract_version = refl;
                                                            source_dsn = h_source_dsn;
                                                            source_replication_dsn = h_dsn;
                                                            source_admin_dsn = refl;
                                                            admin = h_admin;
                                                            source_table = h_source_table;
                                                            source_publication_name =
                                                            h_source_publication_name;
                                                            source_slot_name = h_source_slot_name;
                                                            output_plugin = h_plugin;
                                                            target_dsn = h_target_dsn;
                                                            target_table_curated =
                                                            h_target_table_curated;
                                                            landing = h_landing;
                                                            auto_setup_logical_cdc =
                                                            h_auto_setup_logical_cdc;
                                                            auto_configure_wal_settings =
                                                            h_auto_configure_wal_settings;
                                                            replace_existing_publication =
                                                            h_replace_existing_publication;
                                                            create_slot_if_missing =
                                                            h_create_slot_if_missing;
                                                            replica_identity_mode = h_mode;
                                                            desired_max_replication_slots =
                                                            h_desired_max_replication_slots;
                                                            desired_max_wal_senders =
                                                            h_desired_max_wal_senders;
                                                            max_extract_seconds =
                                                            h_max_extract_seconds;
                                                            idle_timeout_seconds = h_timeout;
                                                            apply_load_batch_size =
                                                            h_apply_load_batch_size;
                                                            upsert_batch_size = h_upsert_batch_size;
                                                            })

  sizes_of : LogicalCdcRunConfig → DictOf ℤ
  sizes_of c =
      ("max_extract_seconds", c.max_extract_seconds)
      ∷ ("apply_load_batch_size", c.apply_load_batch_size)
      ∷ ("upsert_batch_size", c.upsert_batch_size)
      ∷ ("desired_max_replication_slots", c.desired_max_replication_slots)
      ∷ ("desired_max_wal_senders", c.desired_max_wal_senders)
      ∷ []

  sizes_of-IsParsed :
      (c : LogicalCdcRunConfig)
      → IsValid host conf c
      → IsParsed host conf field_defaults (sizes_of c)
  unfolding sizes_of
  sizes_of-IsParsed c h = record {
    read = (
      refl,
      h.max_extract_seconds.read,
      (
        refl,
        h.apply_load_batch_size.read,
        (
          refl,
          h.upsert_batch_size.read,
          (refl, h.desired_max_replication_slots.read, (refl, h.desired_max_wal_senders.read, tt)),
        ),
      ),
    );
    positive = (
      h.max_extract_seconds.positive,
      (
        h.apply_load_batch_size.positive,
        (
          h.upsert_batch_size.positive,
          (h.desired_max_replication_slots.positive, (h.desired_max_wal_senders.positive, tt)),
        ),
      ),
    );
  }

  from_dagrun_conf_complete :
      (c : LogicalCdcRunConfig) → IsValid host conf c → from_dagrun_conf host conf ≡ ok c
  unfolding from_dagrun_conf subscript sizes_of
  from_dagrun_conf_complete c h =
      rw
        (
          require_fields_complete conf required_fields (
            IsTruthy-of_IsGiven h.namespace,
            (
              IsTruthy-of_IsGiven h.name,
              (
                IsTruthy-of_IsGiven h.source_dsn,
                (
                  IsTruthy-of_IsGiven h.source_replication_dsn.stripped.given,
                  (
                    IsTruthy-of_IsGiven h.source_table,
                    (
                      IsTruthy-of_IsGiven h.source_publication_name,
                      (
                        IsTruthy-of_IsGiven h.source_slot_name,
                        (
                          IsTruthy-of_IsGiven h.target_dsn,
                          (IsTruthy-of_IsGiven h.target_table_curated, tt),
                        ),
                      ),
                    ),
                  ),
                ),
              ),
            ),
          ),
          parse_positive_ints_complete host conf field_defaults (sizes_of c)
              (sizes_of-IsParsed c h),
          parse_landing_config_complete
              (
                c.landing_s3_bucket, c.landing_s3_prefix, c.landing_s3_endpoint_url,
                c.landing_s3_region, c.landing_s3_verify_ssl,
              )
              h.landing,
          parse_output_plugin_complete host conf h.output_plugin,
          parse_replica_identity_mode_complete host conf h.replica_identity_mode,
          parse_flag_complete conf "auto_setup_logical_cdc" "false" h.auto_setup_logical_cdc,
          require_admin_dsn_complete c.auto_setup_logical_cdc
              (resolve_optional host conf "source_admin_dsn" (some "SOURCE_ADMIN_DSN"))
              (subst (HasAdmin c.auto_setup_logical_cdc) h.source_admin_dsn h.admin),
          parse_replication_dsn_complete host conf h.source_replication_dsn,
          parse_idle_timeout_complete host conf h.idle_timeout_seconds,
          resolve_required_complete h.contracts_service_url,
          resolve_audit_dsn_complete h.audit_dsn,
          subscript_text_complete host conf h.namespace,
          subscript_text_complete host conf h.name,
          subscript_text_complete host conf h.source_dsn,
          subscript_text_complete host conf h.source_table,
          subscript_text_complete host conf h.source_publication_name,
          subscript_text_complete host conf h.source_slot_name,
          subscript_text_complete host conf h.target_dsn,
          subscript_text_complete host conf h.target_table_curated,
          parse_flag_complete conf "auto_configure_wal_settings" "false"
              h.auto_configure_wal_settings,
          parse_flag_complete conf "replace_existing_publication" "false"
              h.replace_existing_publication,
          parse_flag_complete conf "create_slot_if_missing" "true" h.create_slot_if_missing,
        )
        (sym (λ i. ok (record c {
          contract_version = h.contract_version i;
          source_admin_dsn = h.source_admin_dsn i;
        })))

-- `LogicalCdcRunConfig.from_dagrun_conf` returns a configuration exactly where it is valid: each field is
-- what the run's configuration and the environment say, the required ones are there, sizes are
-- positive, and the choices are among those allowed. So nothing else is returned or refused.
pub logical_cdc_config_iff :
    (host : Host) (conf : Dict) (c : LogicalCdcRunConfig)
    → (from_dagrun_conf host conf ≡ ok c) ↔ IsValid host conf c
logical_cdc_config_iff host conf c =
    (Ensures-ok (from_dagrun_conf_lem host conf) c, from_dagrun_conf_complete host conf c)
