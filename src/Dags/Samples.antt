-- ===== src/Dags/Samples.antt =====
-- What the tests of the DAGs find around their tasks.
use ingestion_airflow.Common.{ℕ, true, [], ◌∷◌}
use ingestion_airflow.Py.Exc.{Exception, ok, raised, foreign}
use ingestion_airflow.Py.Int.{pos}
use ingestion_airflow.Py.Value.{nan, null, text}
use ingestion_airflow.Py.Dict.{Dict}
use ingestion_airflow.Samples.{sample_host, sample_formats}
use ingestion_airflow.Config.Tests.{sample_conf}
use ingestion_airflow.Runtime.Client.{ObjectStoreClient}
use ingestion_airflow.Observability.Numbers.{Floats}
use ingestion_airflow.Observability.Enrich.{Urllib}
use ingestion_airflow.Dags.{TaskEnv}
use ingestion_airflow.Dags.Core.{Registry}

abbrev pub refused_error : Exception
refused_error = record { kind = foreign "HTTPError"; message = "401" }

-- Arithmetic that has one result.
abbrev pub sample_floats : Floats
sample_floats = record {
  float_of = λ v. ok nan;
  divide = λ n f. ok nan;
  ratio = λ n m. ok nan;
  round = λ f n. nan;
}

-- A store in which each object is there, and each manifest names a version.
abbrev pub sample_client : ObjectStoreClient
sample_client = record {
  connect = λ config. ok tt;
  get_object_size = λ config key. ok (pos 10);
  object_exists = λ config key. ok true;
  get_json = λ config key. ok (("contract_version", text " 8 ") ∷ []);
  normalize_key = λ config key. key;
}

abbrev pub sample_urllib : Urllib
sample_urllib = record {
  urlsplit = λ dsn. (dsn, "", "", "", "");
  parse_qsl = λ query. [];
  urlencode = λ query. "";
  urlunsplit = λ parts. parts.0;
}

abbrev pub task_at : (conf : Dict) → (started finished : ℕ) → TaskEnv
task_at conf started finished = record {
  host = sample_host;
  conf = conf;
  exchange = λ o w. raised refused_error;
  formats = sample_formats;
  floats = sample_floats;
  client = sample_client;
  urllib = sample_urllib;
  reader = λ store. record {
    connected = ok tt;
    open_lines = λ key. ok [];
    loads = λ line. raised refused_error;
  };
  attributes = λ exc. [];
  fresh = λ n. n;
  started = started;
  finished = finished;
}

abbrev pub sample_task : TaskEnv
sample_task = task_at sample_conf 5 9

-- A registry that has each contract.
abbrev pub sample_registry : Registry
sample_registry = record {
  request_oidc_access_token = λ c. ok "token";
  fetch = λ url token_provider namespace name version. ok (("contract_id", text "c") ∷ []);
  Contract = Unit;
  from_registry_payload = λ payload. ok tt;
  contract_id = λ c. text "c";
  version = λ c. text "7";
  checksum = λ c. null;
}
