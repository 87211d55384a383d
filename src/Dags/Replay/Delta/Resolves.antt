-- ===== src/Dags/Replay/Delta/Resolves.antt =====
-- What `resolve_replay_input` of the replays of a delta returns.
use ingestion_airflow.Common.{
  String, ◌≡◌, refl, inl, inr, Bool, true, false, Option, none, some, [], ◌∷◌, str_eq, Bool-cases,
}
use ingestion_airflow.Py.Exc.{Result, ok, raised}
use ingestion_airflow.Py.Value.{Value}
use ingestion_airflow.Py.Dict.{Dict, get}
use ingestion_airflow.Runtime.ObjectStore.{ObjectStoreConfig}
use ingestion_airflow.Db.Tables.{AuditDb}
use ingestion_airflow.Db.Stages.{read_stage_audit_metrics}
use ingestion_airflow.Dags.{Dag, TaskEnv, load_run_config, store_of}
use ingestion_airflow.Dags.Replay.{version_text, replay_input}
use ingestion_airflow.Dags.Replay.Delta.{
  ReplayProblem, DeltaReplay, Resolution, resolved, refused, failed, ◌>>=◌, called, key_text,
  recorded_key, required, expected, delta_keys, are_found, present_or, version_or, manifest_version,
  delta_version, resolution, resolve_replay_input, reported,
}

-- A chain that resolves has resolved at each step.
after_bind :
    {A B P : Type 0} (m : Resolution A) (f : A → Resolution B) (b : B)
    → (m >>= f) ≡ resolved b
    → ((a : A) → m ≡ resolved a → f a ≡ resolved b → P)
    → P
after_bind (resolved a) f b h k = k a refl h
after_bind (refused p) f b h k = absurd cc
after_bind (failed x) f b h k = absurd cc

called-resolved : {A : Type 0} (r : Result A) (a : A) → called r ≡ resolved a → r ≡ ok a
called-resolved (ok x) a h = let same : x ≡ a = cc in rw same
called-resolved (raised x) a h = absurd cc

after_call :
    {A B P : Type 0} (r : Result A) (f : A → Resolution B) (b : B)
    → (called r >>= f) ≡ resolved b
    → ((a : A) → r ≡ ok a → f a ≡ resolved b → P)
    → P
after_call r f b h k = after_bind (called r) f b h λ a p q. k a (called-resolved r a p) q

module _ (d : Dag) (r : DeltaReplay d) (e : TaskEnv) (config : d.Config)
    (store : ObjectStoreConfig) where
  -- The keys are those that the stage of the parent run has recorded or, where it has recorded nothing,
  -- those that the parent's run id gives.
  abbrev pub KeysOf : Option Dict → String → Option String → Type 0
  KeysOf none key manifest_key =
      (key ≡ (r.artifacts (r.namespace config) (r.name config) (r.parent_run_id config)).object_key)
      × (manifest_key
          ≡ some
              (r.artifacts (r.namespace config) (r.name config)
                (r.parent_run_id config)).validation_manifest_key)
  KeysOf (some []) key manifest_key =
      (key ≡ (r.artifacts (r.namespace config) (r.name config) (r.parent_run_id config)).object_key)
      × (manifest_key
          ≡ some
              (r.artifacts (r.namespace config) (r.name config)
                (r.parent_run_id config)).validation_manifest_key)
  KeysOf (some (entry ∷ rest)) key manifest_key =
      (key_text e.host (entry ∷ rest) "delta_object_key" ≡ some key)
      × (manifest_key ≡ key_text e.host (entry ∷ rest) "manifest_key")

  -- The version is the configured one, else the text that a manifest in the store gives.
  abbrev pub VersionOf : Option String → Option String → String → Type 0
  VersionOf (some configured) manifest_key version = configured ≡ version
  VersionOf none none version = ⊥
  VersionOf none (some manifest_key) version =
      (e.client.object_exists store manifest_key ≡ ok true)
      × ((manifest : Dict) × (e.client.get_json store manifest_key ≡ ok manifest)
          × (version_text (get manifest "contract_version") ≡ some version))

  present-true : (p : ReplayProblem) (b : Bool) → present_or d r e p b ≡ resolved tt → b ≡ true
  unfolding present_or
  present-true p true h = refl
  present-true p false h = absurd cc

  expected-KeysOf :
      (keys : String × Option String)
      → resolved
          ((expected d r e config).object_key, some (expected d r e config).validation_manifest_key)
        ≡ resolved keys
      → KeysOf none keys.0 keys.1
  unfolding expected
  expected-KeysOf keys h =
      let same : (
        (expected d r e config).object_key,
        some (expected d r e config).validation_manifest_key,
      )
          ≡ keys =
        cc in
      rw (← same) (refl, refl)

  recorded-KeysOf :
      (entry : String × Value) (rest : Dict) (o : Option String) (keys : String × Option String)
      → key_text e.host (entry ∷ rest) "delta_object_key" ≡ o
      → recorded_key d r e config (entry ∷ rest) o ≡ resolved keys
      → KeysOf (some (entry ∷ rest)) keys.0 keys.1
  unfolding recorded_key
  recorded-KeysOf entry rest none keys q h = absurd cc
  recorded-KeysOf entry rest (some key) keys q h =
      let same : (key, key_text e.host (entry ∷ rest) "manifest_key") ≡ keys = cc in
      rw (← same) (q, refl)

  keys-KeysOf :
      (metrics : Option Dict) (keys : String × Option String)
      → delta_keys d r e config metrics ≡ resolved keys
      → KeysOf metrics keys.0 keys.1
  unfolding delta_keys
  keys-KeysOf none keys h = expected-KeysOf keys h
  keys-KeysOf (some []) keys h = expected-KeysOf keys h
  keys-KeysOf (some (entry ∷ rest)) keys h =
      recorded-KeysOf entry rest (key_text e.host (entry ∷ rest) "delta_object_key") keys refl h

  manifest-VersionOf :
      (metrics_found : Bool) (manifest_key version : String)
      → manifest_version d r e config store metrics_found manifest_key ≡ resolved (some version)
      → VersionOf none (some manifest_key) version
  unfolding manifest_version
  manifest-VersionOf metrics_found manifest_key version h =
      after_call (e.client.object_exists store manifest_key) _ _ h λ found exists h1.
        after_bind (present_or d r e _ found) _ _ h1 λ u present h2.
          after_call (e.client.get_json store manifest_key) _ _ h2 λ manifest read h3.
            let there : found ≡ true = present-true _ found present in
            (rw there at exists, (manifest, read, cc))

  version-VersionOf :
      (metrics_found : Bool) (configured manifest_key : Option String) (version : String)
      → delta_version d r e config store metrics_found configured manifest_key
        ≡ resolved (some version)
      → VersionOf configured manifest_key version
  unfolding delta_version
  version-VersionOf found (some configured) manifest_key version h = cc
  version-VersionOf found none none version h = absurd cc
  version-VersionOf found none (some manifest_key) version h =
      elim (Bool-cases (str_eq manifest_key "")) [
        | inl empty ↦ absurd (cc (rw empty at h))
        | inr given ↦ manifest-VersionOf found manifest_key version (rw given at h)
      ]

  version_or-resolved :
      (o : Option String) (version : String)
      → version_or d r e o ≡ resolved version
      → o ≡ some version
  unfolding version_or
  version_or-resolved none version h = absurd cc
  version_or-resolved (some v) version h = let same : v ≡ version = cc in rw same

  required-keys :
      (found keys : String × Option String)
      → required d r e found ≡ resolved keys
      → (found ≡ keys) × (str_eq keys.0 "" ≡ false)
  unfolding required
  required-keys found keys h = elim (Bool-cases (str_eq found.0 "")) [
    | inl empty ↦ absurd (cc (rw empty at h))
    | inr given ↦ let same : found ≡ keys = cc (rw given at h) in (same, rw (← same) given)
  ]

module _ (d : Dag) (r : DeltaReplay d) (e : TaskEnv) (db : AuditDb) where
  -- What a task that has returned `found` has found.
  abbrev pub HasResolved : Dict → Type 0
  HasResolved found =
      (config : d.Config) × (store : ObjectStoreConfig) × (metrics : Option Dict) × (key : String)
      × (manifest_key : Option String) × (version : String) × (load_run_config d e ≡ ok config)
      × (store_of d e config ≡ ok store)
      × ((read_stage_audit_metrics e.formats (r.parent_run_id config) r.extract_stage db).0
          ≡ ok metrics)
      × KeysOf d r e config store metrics key manifest_key
      × (str_eq key "" ≡ false)
      × VersionOf d r e config store (r.contract_version config) manifest_key version
      × (e.client.object_exists store key ≡ ok true)
      × (found
          ≡ replay_input "delta_object_key" key manifest_key version (some (r.parent_run_id config))
              (r.replay_reason config))

  resolution-HasResolved : (found : Dict) → resolution d r e db ≡ resolved found → HasResolved found
  unfolding resolution
  resolution-HasResolved found h = after_call (load_run_config d e) _ found h λ config loaded h1.
      after_call (store_of d e config) _ found h1 λ store stored h2.
        after_call (e.client.connect store) _ found h2 λ u connected h3.
          after_call
            (read_stage_audit_metrics e.formats (r.parent_run_id config) r.extract_stage db).0 _
            found h3
            λ metrics read h4.
              after_bind (delta_keys d r e config metrics) _ found h4 λ taken keyed h5.
                after_bind (required d r e taken) _ found h5 λ keys needed h6.
                  after_bind
                    (delta_version d r e config store (are_found d r e metrics)
                      (r.contract_version config) keys.1)
                    _ found h6
                    λ o versioned h7. after_bind (version_or d r e o) _ found h7 λ version given h8.
                      after_call (e.client.object_exists store keys.0) _ found h8 λ there exists h9.
                        after_bind (present_or d r e _ there) _ found h9 λ v present h10.
                          let (same, nonempty) =
                            required-keys d r e config store taken keys needed in
                          let here : there ≡ true =
                            present-true d r e config store _ there present in
                          let kept : o ≡ some version =
                            version_or-resolved d r e config store o version given in
                          (
                            config,
                            store,
                            metrics,
                            keys.0,
                            keys.1,
                            version,
                            loaded,
                            stored,
                            read,
                            keys-KeysOf d r e config store metrics keys (rw same at keyed),
                            nonempty,
                            version-VersionOf d r e config store _ _ _ version
                                (rw kept at versioned),
                            rw here at exists,
                            cc,
                          )

  -- What `resolve_replay_input` returns: the delta is in the store, under the key that the stage of the parent run
  -- has recorded or, where nothing is recorded, that the parent's run id gives; and the version is the
  -- configured one, else the one in a manifest that is in the store.
  pub resolve_replay_input-HasResolved :
      (found : Dict) → (resolve_replay_input d r e db).0 ≡ ok found → HasResolved found
  unfolding resolve_replay_input
  resolve_replay_input-HasResolved found h = go (resolution d r e db) refl h
    where
      go :
          (o : Resolution Dict)
          → resolution d r e db ≡ o
          → (reported d r e o).0 ≡ ok found
          → HasResolved found
      go (resolved x) q h = let same : x ≡ found = cc in resolution-HasResolved found (rw same at q)
      go (refused p) q h = absurd cc
      go (failed x) q h = absurd cc
