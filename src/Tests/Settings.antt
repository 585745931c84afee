-- ===== src/Tests/Settings.antt =====
-- Tests of the secrets, the configuration, the server and the targets.
use Prim.Native.String.{◌++◌ as ◌<>◌}
use solace_prometheus_export.Prelude.{
  suc, ◌*◌, ◌^◌, ◌≤◌, min, ◌≡◌, refl, ap, ◌∙◌, String, true, false, ◌||◌, ◌⊎◌, Option, none, some,
  [], ◌∷◌, ◌==◌, lookup, if◌then◌else◌, arith,
}
use solace_prometheus_export.Prelude.Int.{pos, negsuc}
use solace_prometheus_export.Prelude.Result.{Result, ok, err}
use solace_prometheus_export.Text.{cut, cut_prefix, contains, join, trim_space}
use solace_prometheus_export.Text.Parse.{parse_bool, parse_int}
use solace_prometheus_export.DataSource.{DataSource, parse_value, to_string}
use solace_prometheus_export.DataSource.RoundTrip.{IsPlain, extra_bar, to_string-parse_value}
use solace_prometheus_export.Secret.{Backend, Timing, parse_reference, resolve}
use solace_prometheus_export.Secret.Fresh.{IsValid}
use solace_prometheus_export.Secret.Resolve.{Resolved, Sound, resolve_lem, resolve_returns}
use solace_prometheus_export.Secret.Renewal.{
  next_renewal_retry_delay, next_renewal_retry_delay_bounds, next_renewal_retry_delay_lem,
  renewal_retry_base_delay, renewal_retry_max_delay,
}
use solace_prometheus_export.Config.{
  Config, auth_type_basic, auth_type_o_auth, auth_type_of, determine_auth_type, incomplete_o_auth,
  no_credentials,
}
use solace_prometheus_export.Config.AuthKind.{
  AllOAuth, Empty, Given, NoOAuth, SomeOAuth, determine_auth_type_cases,
}
use solace_prometheus_export.Config.Ini.{
  Environment, Ini, parse_config_string, parse_config_string_optional, parse_config_optional,
  ini_key_value,
}
use solace_prometheus_export.Config.Limits.{parse_config-IsValid}
use solace_prometheus_export.Config.Limits
use solace_prometheus_export.Config.Parse.{parse_config, parse_settings, with_limits}
use solace_prometheus_export.Server.{
  HttpRequest, Metrics, do_handle, do_handle_async, internal_error, resolve_request_config,
}
use solace_prometheus_export.Server.Auth.{
  Admitted, unauthorized, wrap_with_auth, wrap_with_auth_cases,
}
use solace_prometheus_export.Server.Refused.{do_handle_refused}
use solace_prometheus_export.Server.RequestConfig.{
  IsRequestConfig, OkIs, resolve_request_config-IsRequestConfig,
}
use solace_prometheus_export.Tests.Data.{target}

abbrev read_secret : Backend
read_secret t path field = ok ("s3cret", pos 60)

abbrev timing : Timing
timing = record { looked = 100; fetched = 101; stored = 102; cancelled = none }

empty-IsValid : IsValid read_secret 100 []
unfolding lookup
empty-IsValid ref cached h = absurd (cc)

resolve_example :
    Sound read_secret 102
      (Resolved read_secret timing "vault:secret/broker#password")
      (resolve (some read_secret) timing "vault:secret/broker#password" [])
resolve_example =
    resolve_lem read_secret timing "vault:secret/broker#password" [] (omega arith, omega arith)
      empty-IsValid

resolve_returns_example :
    (v : String) × ((resolve (some read_secret) timing "vault:secret/broker#password" []).0 ≡ ok v)
unfolding parse_reference cut cut_prefix
resolve_returns_example =
    resolve_returns read_secret timing "vault:secret/broker#password" "secret/broker#password"
      "secret/broker" "password" "s3cret" (pos 60) [] refl refl refl

next_renewal_retry_delay_example :
    next_renewal_retry_delay (pos (suc 2))
    ≡ min renewal_retry_max_delay (renewal_retry_base_delay * 2 ^ 2)
next_renewal_retry_delay_example = next_renewal_retry_delay_lem 2

next_renewal_retry_delay_bounds_example :
    (renewal_retry_base_delay ≤ next_renewal_retry_delay (negsuc 4))
    × (next_renewal_retry_delay (negsuc 4) ≤ renewal_retry_max_delay)
next_renewal_retry_delay_bounds_example = next_renewal_retry_delay_bounds (negsuc 4)

-- A configuration with basic authentication towards the broker, that protects the exporter.
abbrev pub conf : Config
conf = record {
  listen_addr = "0.0.0.0:9628";
  enable_tls = false;
  certificate = "";
  private_key = "";
  cert_type = "";
  pkcs12_file = "";
  pkcs12_pass = "";
  scrape_uri = "https://broker:943";
  username = "admin";
  password = "admin";
  default_vpn = "default";
  ssl_verify = false;
  timeout = pos 5000000000;
  prefetch_interval = pos 0;
  parallel_semp_connections = pos 1;
  log_broker_to_slow_warnings = true;
  is_hw_broker = false;
  semp_page_size = pos 100;
  o_auth_token_url = "";
  o_auth_client_id = "exporter";
  o_auth_client_secret = "";
  o_auth_client_scope = "";
  o_auth_issuer = "";
  auth_type = auth_type_basic;
  exporter_auth = record { scheme = "basic"; username = "scraper"; password = "pw" };
  secret_backend = "";
  secret_cache_ttl = pos 60000000000;
}

determine_auth_type_example :
    AllOAuth conf × (determine_auth_type conf ≡ ok (record conf { auth_type = auth_type_o_auth }))
    ⊎ SomeOAuth conf × (determine_auth_type conf ≡ err incomplete_o_auth)
    ⊎ NoOAuth conf
      × Given conf.username
      × Given conf.password
      × (determine_auth_type conf ≡ ok (record conf { auth_type = auth_type_basic }))
    ⊎ NoOAuth conf
      × (Empty conf.username ⊎ Empty conf.password)
      × (determine_auth_type conf ≡ err no_credentials)
determine_auth_type_example = determine_auth_type_cases conf

-- An environment that asks for no connection at all, and pages of no item.
abbrev env : Environment
env = record {
  getenv = λ key.
      if key == "SOLACE_SCRAPE_URI"
      then "https://broker:943"
      else if key == "SOLACE_SEMP_PAGE_SIZE" || key == "SOLACE_PARALLEL_SEMP_CONNECTIONS"
      then "0"
      else "";
  parse_duration = λ s. none;
}

abbrev load : String → Result String Ini
load name = err "no such file"

abbrev parsed : Config
parsed = record conf {
  o_auth_client_id = "";
  parallel_semp_connections = pos 2;
  exporter_auth = record { scheme = "none"; username = ""; password = "" };
}

parse_config_example : Limits.IsValid parsed
unfolding parse_config parse_settings with_limits determine_auth_type parse_config_string
    parse_config_string_optional parse_config_optional parse_bool parse_int ini_key_value
    auth_type_of
parse_config_example = parse_config-IsValid env load "" [] parsed refl

abbrev stranger : HttpRequest
stranger = record {
  form_value = λ key. if key == "timeout" then "-1s" else "";
  header = λ key. "";
  basic_auth = some ("scraper", "guess");
}

wrap_with_auth_example :
    (Admitted (λ s. s) (λ (r : HttpRequest). r.basic_auth) conf.exporter_auth stranger
      × (wrap_with_auth
            (λ s. s)
            (λ (r : HttpRequest). r.basic_auth)
            (λ r. internal_error)
            conf.exporter_auth
            stranger
          ≡ internal_error))
    ⊎ ((Admitted (λ s. s) (λ (r : HttpRequest). r.basic_auth) conf.exporter_auth stranger → ⊥)
        × (wrap_with_auth
              (λ s. s)
              (λ (r : HttpRequest). r.basic_auth)
              (λ r. internal_error)
              conf.exporter_auth
              stranger
            ≡ unauthorized))
wrap_with_auth_example =
    wrap_with_auth_cases (λ s. s) (λ (r : HttpRequest). r.basic_auth) (λ r. internal_error)
      conf.exporter_auth stranger (refl, refl, refl)

abbrev metrics : Metrics
metrics = record {
  default_registry = λ r. internal_error;
  scrape = λ c ds r. internal_error;
  fetched = λ r. internal_error;
}

stranger_is_refused :
    Admitted (λ s. s) (λ (r : HttpRequest). r.basic_auth) conf.exporter_auth stranger → ⊥
stranger_is_refused (u, p, e, f, g) = not_equal (ap (λ t. t == "pw") (second e ∙ g))
  where
    second :
        ◌≡◌ {A = Option (String × String)} (some ("scraper", "guess")) (some (u, p)) → "guess" ≡ p
    second h = ground arith

    not_equal : false ≡ true → ⊥
    not_equal h = cc

do_handle_refused_example :
    (do_handle_async (λ s. s) metrics stranger conf ≡ unauthorized)
    × (((do_handle
            (λ s. s)
            metrics
            (λ s. none)
            none
            (λ name. timing)
            stranger
            (target "Spool" ∷ [])
            conf
            []).0
          ≡ unauthorized)
        ⊎ ((do_handle
              (λ s. s)
              metrics
              (λ s. none)
              none
              (λ name. timing)
              stranger
              (target "Spool" ∷ [])
              conf
              []).0
            ≡ internal_error))
do_handle_refused_example =
    do_handle_refused (λ s. s) metrics (λ s. none) none (λ name. timing) stranger
      (target "Spool" ∷ []) conf [] ((refl, refl, refl), stranger_is_refused)

resolve_request_config_example :
    OkIs
      (IsRequestConfig conf)
      (resolve_request_config (λ s. some (negsuc 0)) none (λ name. timing) stranger conf []).0
resolve_request_config_example =
    resolve_request_config-IsRequestConfig (λ s. some (negsuc 0)) none (λ name. timing) conf
      stranger [] (omega arith)

abbrev queues : DataSource
queues = record {
  name = "QueueStats";
  vpn_filter = "default";
  item_filter = "q*";
  metric_filter = "depth" ∷ "rate" ∷ [];
}

queues-IsPlain : IsPlain queues
unfolding contains join trim_space
queues-IsPlain = record {
  vpn_filter = refl;
  item_filter = refl;
  metric_filter = refl;
  is_filter = ((refl, (refl, tt)), refl);
}

to_string-parse_value_example :
    (v : String) × (to_string queues ≡ ("QueueStats" <> ("=" <> v)))
    × (parse_value "QueueStats" v ≡ some queues)
to_string-parse_value_example = to_string-parse_value queues queues-IsPlain

extra_bar_example :
    parse_value "QueueStats" ("default" <> ("|" <> ("q*" <> ("|" <> ("depth" <> ("|" <> "rate"))))))
    ≡ some (record {
      name = "QueueStats";
      vpn_filter = "default";
      item_filter = "q*";
      metric_filter = [];
    })
unfolding contains
extra_bar_example = extra_bar "QueueStats" "default" "q*" "depth" "rate" refl refl refl
