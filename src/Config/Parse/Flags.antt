-- ===== src/Config/Parse/Flags.antt =====
-- `_parse_bool`, `_parse_landing_config`, `_parse_replay_input` and `_parse_watermark_mode`.
use ingestion_airflow.Common.{
  String, ◌≡◌, refl, sym, ◌↔◌, ◌⊎◌, inl, inr, Bool, true, false, Option, none, some, arith,
  Bool-cases,
}
use ingestion_airflow.Py.Exc.Reason.{◌≫◌}
use ingestion_airflow.Py.Exc.{ok, Ensures, returns, raises, Ensures-ok}
use ingestion_airflow.Py.Text.{is_one_of, is_one_of-All}
use ingestion_airflow.Py.Text.Strip.{strip, lower}
use ingestion_airflow.Py.Value.{Host, Value, null, bool, int, float, text, list, dict}
use ingestion_airflow.Py.Dict.{Dict, get, lookup}
use ingestion_airflow.Config.Parse.{
  yes_words, no_words, parse_bool, value_or, text_or, or_default, trimmed_or_none, resolve_optional,
  LandingConfig, parse_landing_config, is_given, same, parse_replay_input, watermark_modes,
  parse_watermark_mode,
}
use ingestion_airflow.Config.Parse.Texts.{
  IsValueError, IsContent, IsResolved, resolve_required_lem, resolve_required_complete, HasContent,
  trimmed_or_none-HasContent,
}

-- The flag that a value denotes: a Boolean itself, or a text that reads, up to case and white space
-- around it, as one of the words.
abbrev pub Denotes : Value → Bool → Type 0
Denotes (bool b) c = b ≡ c
Denotes (text s) true = is_one_of (lower (strip s)) yes_words ≡ true
Denotes (text s) false = is_one_of (lower (strip s)) no_words ≡ true
Denotes _ c = ⊥

pub words_disjoint : (s : String) → is_one_of s yes_words ≡ true → is_one_of s no_words ≡ false
unfolding is_one_of
words_disjoint s h =
    is_one_of-All (λ t. is_one_of t no_words ≡ false) s yes_words (refl, (refl, (refl, (refl, tt))))
      h

-- `_parse_bool` returns a flag exactly for the values that denote it.
pub parse_bool_iff :
    (v : Value) (field_name : String) (b : Bool) → (parse_bool v field_name ≡ ok b) ↔ Denotes v b
unfolding parse_bool
parse_bool_iff (bool c) field_name b = (λ h. cc, λ h. cc)
parse_bool_iff (text s) field_name true = (λ h. ground arith, λ h. ground arith)
parse_bool_iff (text s) field_name false =
    (λ h. ground arith, λ h. ground (arith, words_disjoint (lower (strip s))))
parse_bool_iff null field_name b = (λ h. cc, λ h. absurd h)
parse_bool_iff (int z) field_name b = (λ h. cc, λ h. absurd h)
parse_bool_iff (float z) field_name b = (λ h. cc, λ h. absurd h)
parse_bool_iff (list z) field_name b = (λ h. cc, λ h. absurd h)
parse_bool_iff (dict z) field_name b = (λ h. cc, λ h. absurd h)

parse_bool-text :
    (s : String) (field_name : String)
    → Ensures (Denotes (text s)) IsValueError (parse_bool (text s) field_name)
unfolding parse_bool
parse_bool-text s field_name = elim (Bool-cases (is_one_of (lower (strip s)) yes_words)) [
  | inl e ↦ rw e (returns {a = true} e)
  | inr e ↦ rw e (elim (Bool-cases (is_one_of (lower (strip s)) no_words)) [
    | inl n ↦ rw n (returns {a = false} n)
    | inr n ↦ rw n (raises tt)
  ])
]

pub parse_bool_lem :
    (v : Value) (field_name : String) → Ensures (Denotes v) IsValueError (parse_bool v field_name)
unfolding parse_bool
parse_bool_lem (bool b) field_name = returns refl
parse_bool_lem (text s) field_name = parse_bool-text s field_name
parse_bool_lem null field_name = raises tt
parse_bool_lem (int z) field_name = raises tt
parse_bool_lem (float z) field_name = raises tt
parse_bool_lem (list z) field_name = raises tt
parse_bool_lem (dict z) field_name = raises tt

-- The value that `landing_s3_verify_ssl` is parsed from.
abbrev pub verify_ssl_value : Host → Dict → Value
verify_ssl_value host conf =
    value_or (lookup "landing_s3_verify_ssl" conf)
      (text_or (host.env "LANDING_S3_VERIFY_SSL") "true")

-- Where the landing zone is.
pub record IsLanding (host : Host) (conf : Dict) (landing : LandingConfig) : Type 0 where
  pub bucket : IsResolved host conf "landing_s3_bucket" (some "LANDING_S3_BUCKET") landing.0
  pub prefix :
      landing.1
      ≡ or_default
          (resolve_optional host conf "landing_s3_prefix" (some "LANDING_S3_PREFIX"))
          "accepted"
  pub endpoint_url :
      landing.2
      ≡ resolve_optional host conf "landing_s3_endpoint_url" (some "LANDING_S3_ENDPOINT_URL")
  pub region : landing.3 ≡ resolve_optional host conf "landing_s3_region" (some "LANDING_S3_REGION")
  pub verify_ssl : Denotes (verify_ssl_value host conf) landing.4

pub parse_landing_config_lem :
    (host : Host) (conf : Dict)
    → Ensures (IsLanding host conf) IsValueError (parse_landing_config host conf)
unfolding parse_landing_config
parse_landing_config_lem host conf =
    resolve_required_lem host conf "landing_s3_bucket" (some "LANDING_S3_BUCKET") ≫ (λ bucket hb.
      parse_bool_lem (verify_ssl_value host conf) "landing_s3_verify_ssl" ≫ (λ ssl hs.
        returns (record {
          bucket = hb;
          prefix = refl;
          endpoint_url = refl;
          region = refl;
          verify_ssl = hs;
        })))

pub or_default-IsContent :
    (o : Option String) (d : String) → HasContent o → IsContent d → IsContent (or_default o d)
or_default-IsContent none d h k = k
or_default-IsContent (some s) d h k = rw h.nonempty h

-- The two ways to name the input of a replay.
pub record IsReplayInput (host : Host) (conf : Dict) (key_field : String)
    (input : Option String × Option String) : Type 0 where
  pub object_key : input.0 ≡ trimmed_or_none host (get conf key_field)
  pub parent_run_id : input.1 ≡ trimmed_or_none host (get conf "parent_run_id")
  pub exactly_one :
      ((s : String) × (input.0 ≡ some s) × IsContent s × (input.1 ≡ none))
      ⊎ ((s : String) × (input.1 ≡ some s) × IsContent s × (input.0 ≡ none))

exactly_one_lem :
    (a b : Option String)
    → HasContent a
    → HasContent b
    → same (is_given a) (is_given b) ≡ false
    → ((s : String) × (a ≡ some s) × IsContent s × (b ≡ none))
      ⊎ ((s : String) × (b ≡ some s) × IsContent s × (a ≡ none))
exactly_one_lem none none ha hb e = absurd (cc)
exactly_one_lem none (some s) ha hb e = inr (s, refl, hb, refl)
exactly_one_lem (some s) none ha hb e = inl (s, refl, ha, refl)
exactly_one_lem (some s) (some t) ha hb e = absurd (cc (rw (ha.nonempty, hb.nonempty) at e))

pub parse_replay_input_lem :
    (host : Host) (conf : Dict) (key_field : String)
    → Ensures
        (IsReplayInput host conf key_field)
        IsValueError
        (parse_replay_input host conf key_field)
unfolding parse_replay_input
parse_replay_input_lem host conf key_field = elim (Bool-cases (same (is_given a) (is_given b))) [
  | inl e ↦ rw e (raises tt)
  | inr e ↦ rw e (
      returns (record {
        object_key = refl;
        parent_run_id = refl;
        exactly_one =
            exactly_one_lem a b (trimmed_or_none-HasContent host (get conf key_field))
              (trimmed_or_none-HasContent host (get conf "parent_run_id")) e;
      }))
]
  where
    a : Option String
    a = trimmed_or_none host (get conf key_field)

    b : Option String
    b = trimmed_or_none host (get conf "parent_run_id")

-- The mode that the configuration names, `auto` where it names none.
pub record IsWatermarkMode (host : Host) (conf : Dict) (mode : String) : Type 0 where
  pub read : mode ≡ or_default (resolve_optional host conf "watermark_mode" none) "auto"
  pub listed : is_one_of mode watermark_modes ≡ true

pub parse_watermark_mode_lem :
    (host : Host) (conf : Dict)
    → Ensures (IsWatermarkMode host conf) IsValueError (parse_watermark_mode host conf)
unfolding parse_watermark_mode
parse_watermark_mode_lem host conf = elim (Bool-cases (is_one_of mode watermark_modes)) [
  | inl e ↦ rw e (returns (record { read = refl; listed = e }))
  | inr e ↦ rw e (raises tt)
]
  where
    mode : String
    mode = or_default (resolve_optional host conf "watermark_mode" none) "auto"

pub parse_watermark_mode_complete :
    (host : Host) (conf : Dict) {mode : String}
    → IsWatermarkMode host conf mode
    → parse_watermark_mode host conf ≡ ok mode
unfolding parse_watermark_mode
parse_watermark_mode_complete host conf h = rw (← h.read) (rw h.listed)

pub parse_landing_config_complete :
    {host : Host} {conf : Dict} (landing : LandingConfig)
    → IsLanding host conf landing
    → parse_landing_config host conf ≡ ok landing
unfolding parse_landing_config
parse_landing_config_complete {host} {conf} landing h = rw (resolve_required_complete h.bucket) (
    rw
      ((parse_bool_iff (verify_ssl_value host conf) "landing_s3_verify_ssl" landing.4).1
        h.verify_ssl)
      (sym (λ i. ok (landing.0, h.prefix i, h.endpoint_url i, h.region i, landing.4))))

same_of_exactly_one :
    (a b : Option String)
    → ((s : String) × (a ≡ some s) × IsContent s × (b ≡ none))
      ⊎ ((s : String) × (b ≡ some s) × IsContent s × (a ≡ none))
    → same (is_given a) (is_given b) ≡ false
same_of_exactly_one a b (inl (s, ea, c, eb)) = rw (ea, eb) (rw c.nonempty)
same_of_exactly_one a b (inr (s, eb, c, ea)) = rw (ea, eb) (rw c.nonempty)

pub parse_replay_input_complete :
    {host : Host} {conf : Dict} {key_field : String} (input : Option String × Option String)
    → IsReplayInput host conf key_field input
    → parse_replay_input host conf key_field ≡ ok input
unfolding parse_replay_input
parse_replay_input_complete (a, b) h =
    rw (← h.object_key, ← h.parent_run_id) (rw (same_of_exactly_one a b h.exactly_one))

-- `_parse_replay_input` returns exactly the pair of the trimmed object key and the trimmed parent
-- run id, where one of the two has content and the other is missing or blank.
pub parse_replay_input_iff :
    (host : Host) (conf : Dict) (key_field : String) (input : Option String × Option String)
    → (parse_replay_input host conf key_field ≡ ok input) ↔ IsReplayInput host conf key_field input
parse_replay_input_iff host conf key_field input = (
  Ensures-ok (parse_replay_input_lem host conf key_field) input,
  parse_replay_input_complete input,
)
