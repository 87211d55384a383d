-- ===== src/Runtime/Sources.antt =====
-- What `build_object_store_config` of ingestion_airflow/runtime.py returns, by the environment.
use ingestion_airflow.Common.{
  String, ◌≡◌, ◌≢◌, ◌↔◌, refl, sym, ◌⊎◌, inl, inr, Bool, true, false, not, ◌||◌, Option, none, some,
  arith, str_eq, eq_iff, if◌then◌else◌, Bool-cases,
}
use ingestion_airflow.Py.Exc.{Result, ok, raised, ◌>>=◌}
use ingestion_airflow.Py.Int.{
  ℤ, is_not_positive, IsPositive, IsPositive-of_test, not-is_not_positive, int_of_text,
}
use ingestion_airflow.Py.Text.Strip.{strip}
use ingestion_airflow.Py.Value.{Host}
use ingestion_airflow.Config.Parse.{LandingConfig, or_none}
use ingestion_airflow.Runtime.Env.{is_empty}
use ingestion_airflow.Runtime.ObjectStore.{
  Credentials, Exchange, ObjectStoreConfig, duration_or_raise, sts_duration, static_credentials,
  has_sts, sts_credentials, at_landing, build_object_store_config,
}

-- The text of a variable of the environment, or another where it is not set.
abbrev pub value_of : Host → String → String → String
value_of host name other = elim (host.env name) [ none ↦ other | some s ↦ s ]

-- The four settings of the STS flow are there; all but the secret are trimmed.
pub record HasSts (host : Host) : Type 0 where
  pub token_url : strip (value_of host "KEYCLOAK_TOKEN_URL" "") ≢ ""
  pub client_id : strip (value_of host "KEYCLOAK_CLIENT_ID" "") ≢ ""
  pub client_secret : value_of host "KEYCLOAK_CLIENT_SECRET" "" ≢ ""
  pub endpoint : strip (value_of host "MINIO_STS_ENDPOINT" "") ≢ ""

-- The credentials are what the exchange gives for these settings and a positive duration.
pub record IsExchanged (host : Host) (exchange : Exchange) (verify_ssl : Bool) (k : Credentials)
    : Type 0 where
  pub duration : ℤ
  pub read :
      int_of_text host.wide_digit (value_of host "MINIO_STS_DURATION_SECONDS" "3600")
      ≡ some duration
  pub positive : IsPositive duration
  pub exchanged :
      exchange
        (record {
          token_url = strip (value_of host "KEYCLOAK_TOKEN_URL" "");
          client_id = strip (value_of host "KEYCLOAK_CLIENT_ID" "");
          client_secret = value_of host "KEYCLOAK_CLIENT_SECRET" "";
          verify_ssl = none;
          scope = none;
        })
        (record {
          endpoint_url = strip (value_of host "MINIO_STS_ENDPOINT" "");
          duration_seconds = duration;
          verify_ssl = verify_ssl;
        })
      ≡ ok k

-- The credentials are the static keys of the environment, and its session token if there is one.
pub record IsStatic (host : Host) (k : Credentials) : Type 0 where
  pub access_key : k.access_key_id ≡ value_of host "AWS_ACCESS_KEY_ID" ""
  pub secret_key : k.secret_access_key ≡ value_of host "AWS_SECRET_ACCESS_KEY" ""
  pub access_given : k.access_key_id ≢ ""
  pub secret_given : k.secret_access_key ≢ ""
  pub session : k.session_token ≡ (
      if str_eq (value_of host "AWS_SESSION_TOKEN" "") ""
      then none
      else some (value_of host "AWS_SESSION_TOKEN" ""))

-- The credentials come from the STS flow where its settings are there, else they are static.
abbrev pub IsSource : Host → Exchange → Bool → Credentials → Type 0
IsSource host exchange verify_ssl k =
    (HasSts host × IsExchanged host exchange verify_ssl k) ⊎ ((HasSts host → ⊥) × IsStatic host k)

-- The configuration points at a landing zone, given by its parts, and has such credentials.
pub record IsStoreConfig (host : Host) (exchange : Exchange) (bucket prefix : String)
    (endpoint_url region : Option String) (verify_ssl : Bool) (c : ObjectStoreConfig) : Type 0 where
  pub bucket_is : c.bucket ≡ bucket
  pub prefix_is : c.prefix ≡ prefix
  pub endpoint_is : c.endpoint_url ≡ endpoint_url
  pub region_is : c.region_name ≡ region
  pub verify_is : c.verify_ssl ≡ verify_ssl
  pub source : IsSource host exchange verify_ssl c.credentials

given_iff : (s : String) → (not (is_empty s) ≡ true) ↔ (s ≢ "")
given_iff s = (λ h e. ground (arith, eq_iff s ""), λ h. go h (str_eq s "") refl)
  where
    go : s ≢ "" → (b : Bool) → str_eq s "" ≡ b → not b ≡ true
    go h true e = absurd (h ((eq_iff s "").0 e))
    go h false e = refl

has_sts-HasSts : (host : Host) → has_sts host ≡ true → HasSts host
has_sts-HasSts host h = record {
  token_url = (given_iff _).0 (ground arith);
  client_id = (given_iff _).0 (ground arith);
  client_secret = (given_iff _).0 (ground arith);
  endpoint = (given_iff _).0 (ground arith);
}

HasSts-has_sts : (host : Host) → HasSts host → has_sts host ≡ true
HasSts-has_sts host h = rw ((given_iff _).1 h.token_url) (
    rw ((given_iff _).1 h.client_id)
      (rw ((given_iff _).1 h.client_secret) (rw ((given_iff _).1 h.endpoint))))

module _ (host : Host) (exchange : Exchange) (landing : LandingConfig) (k : Credentials) where
  IsExchanged-of :
      sts_credentials host exchange landing ≡ ok k → IsExchanged host exchange landing.4 k
  unfolding sts_credentials sts_duration
  IsExchanged-of h =
      go (int_of_text host.wide_digit (value_of host "MINIO_STS_DURATION_SECONDS" "3600")) refl h
    where
      go :
          (o : Option ℤ)
          → int_of_text host.wide_digit (value_of host "MINIO_STS_DURATION_SECONDS" "3600") ≡ o
          → (duration_or_raise o >>= λ z.
              exchange
                (record {
                  token_url = strip (value_of host "KEYCLOAK_TOKEN_URL" "");
                  client_id = strip (value_of host "KEYCLOAK_CLIENT_ID" "");
                  client_secret = value_of host "KEYCLOAK_CLIENT_SECRET" "";
                  verify_ssl = none;
                  scope = none;
                })
                (record {
                  endpoint_url = strip (value_of host "MINIO_STS_ENDPOINT" "");
                  duration_seconds = z;
                  verify_ssl = landing.4;
                }))
            ≡ ok k
          → IsExchanged host exchange landing.4 k
      go none e w = absurd (cc)
      go (some z) e w = elim (Bool-cases (is_not_positive z)) [
        | inl n ↦ absurd (cc (rw n at w))
        | inr p ↦ record {
          duration = z;
          read = e;
          positive = IsPositive-of_test z p;
          exchanged = rw p at w;
        }
      ]

  exchanged_back :
      IsExchanged host exchange landing.4 k → sts_credentials host exchange landing ≡ ok k
  unfolding sts_credentials sts_duration
  exchanged_back h = rw h.read (rw (not-is_not_positive h.duration h.positive) h.exchanged)

  IsStatic-of : static_credentials host ≡ ok k → IsStatic host k
  unfolding static_credentials
  IsStatic-of h = elim (Bool-cases (is_empty access || is_empty secret)) [
    | inl n ↦ absurd (cc (rw n at h))
    | inr p ↦
        let same : ◌≡◌ {A = Credentials}
            (record {
              access_key_id = access;
              secret_access_key = secret;
              session_token = or_none (value_of host "AWS_SESSION_TOKEN" "");
            })
            k =
          cc (rw p at h) in
        rw (← same) (record {
          access_key = refl;
          secret_key = refl;
          access_given = (given_iff access).0 (ground arith);
          secret_given = (given_iff secret).0 (ground arith);
          session = refl;
        })
  ]
    where
      access : String
      access = value_of host "AWS_ACCESS_KEY_ID" ""

      secret : String
      secret = value_of host "AWS_SECRET_ACCESS_KEY" ""

  static_back : IsStatic host k → static_credentials host ≡ ok k
  unfolding static_credentials
  static_back h =
      let a : is_empty (value_of host "AWS_ACCESS_KEY_ID" "") ≡ false =
        rw (← h.access_key) (not_empty k.access_key_id h.access_given) in
      let b : is_empty (value_of host "AWS_SECRET_ACCESS_KEY" "") ≡ false =
        rw (← h.secret_key) (not_empty k.secret_access_key h.secret_given) in
      rw (a, b)
        (λ i. ok (record {
          access_key_id = sym h.access_key i;
          secret_access_key = sym h.secret_key i;
          session_token = sym h.session i;
        }))
    where
      not_empty : (s : String) → s ≢ "" → is_empty s ≡ false
      not_empty s h = let e : not (is_empty s) ≡ true = (given_iff s).1 h in ground arith

-- `build_object_store_config` returns exactly the configuration that points at the landing zone of
-- the run, with credentials that come from the STS flow where all four settings of that flow are
-- there: what the exchange gives for these settings and the duration of the environment, which is
-- positive. Where one of them is missing, they are the static keys of the environment, neither of
-- them empty, with the session token if there is one.
pub object_store_config_iff :
    (host : Host) (exchange : Exchange) (bucket prefix : String)
    (endpoint_url region : Option String) (verify_ssl : Bool) (c : ObjectStoreConfig)
    → (build_object_store_config host exchange (bucket, prefix, endpoint_url, region, verify_ssl)
        ≡ ok c)
      ↔ IsStoreConfig host exchange bucket prefix endpoint_url region verify_ssl c
unfolding build_object_store_config
object_store_config_iff host exchange bucket prefix endpoint_url region verify_ssl c = (only, all)
  where
    landing : LandingConfig
    landing = (bucket, prefix, endpoint_url, region, verify_ssl)

    build : Result Credentials → Result ObjectStoreConfig
    build r = r >>= λ k. ok (at_landing landing k)

    built :
        (r : Result Credentials)
        → build r ≡ ok c
        → ((k : Credentials) → r ≡ ok k → IsSource host exchange verify_ssl k)
        → IsStoreConfig host exchange bucket prefix endpoint_url region verify_ssl c
    built (raised x) h f = absurd (cc)
    built (ok k) h f =
        let same : at_landing landing k ≡ c = cc in
        rw (← same) (record {
          bucket_is = refl;
          prefix_is = refl;
          endpoint_is = refl;
          region_is = refl;
          verify_is = refl;
          source = f k refl;
        })

    only :
        build_object_store_config host exchange landing ≡ ok c
        → IsStoreConfig host exchange bucket prefix endpoint_url region verify_ssl c
    only h = elim (Bool-cases (has_sts host)) [
      | inl sts ↦
          built (sts_credentials host exchange landing) (rw sts at h)
            (λ k e. inl (has_sts-HasSts host sts, IsExchanged-of host exchange landing k e))
      | inr no_sts ↦ built (static_credentials host) (rw no_sts at h) (λ k e. inr (
        (λ s. let t : has_sts host ≡ true = HasSts-has_sts host s in cc),
        IsStatic-of host exchange landing k e,
      ))
    ]

    assembled :
        IsStoreConfig host exchange bucket prefix endpoint_url region verify_ssl c
        → ok (at_landing landing c.credentials) ≡ ok c
    assembled h = λ i. ok (record {
      bucket = sym h.bucket_is i;
      prefix = sym h.prefix_is i;
      endpoint_url = sym h.endpoint_is i;
      region_name = sym h.region_is i;
      verify_ssl = sym h.verify_is i;
      credentials = c.credentials;
    })

    all :
        IsStoreConfig host exchange bucket prefix endpoint_url region verify_ssl c
        → build_object_store_config host exchange landing ≡ ok c
    all h = elim (h.source) [
      | inl (sts, k) ↦
          rw (HasSts-has_sts host sts, exchanged_back host exchange landing c.credentials k)
            (assembled h)
      | inr (no_sts, k) ↦
          rw (none_of no_sts, static_back host exchange landing c.credentials k) (assembled h)
    ]
      where
        none_of : (HasSts host → ⊥) → has_sts host ≡ false
        none_of f = elim (Bool-cases (has_sts host)) [
          | inl e ↦ absurd (f (has_sts-HasSts host e))
          | inr e ↦ e
        ]
