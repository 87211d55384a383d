-- ===== src/Runtime/Client.antt =====
-- What ingestion_airflow and the DAGs call of ingestion_core.adapters.object_store.ObjectStoreClient.
use ingestion_airflow.Common.{String, Bool}
use ingestion_airflow.Py.Exc.{Result}
use ingestion_airflow.Py.Int.{ℤ}
use ingestion_airflow.Py.Dict.{Dict}
use ingestion_airflow.Runtime.ObjectStore.{ObjectStoreConfig}

-- `connect` is the constructor; each call of a method may raise.
pub record ObjectStoreClient : Type 0 where
  pub connect : ObjectStoreConfig → Result (Unit {0})
  pub get_object_size : ObjectStoreConfig → String → Result ℤ
  pub object_exists : ObjectStoreConfig → String → Result Bool
  pub get_json : ObjectStoreConfig → String → Result Dict
  pub normalize_key : ObjectStoreConfig → String → String
