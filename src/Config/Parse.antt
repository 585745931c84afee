-- ===== src/Config/Parse.antt =====
-- ParseConfig of internal/exporter/config.struct.go.
use solace_prometheus_export.Prelude.{
  ℕ, ◌*◌, String, code, Bool, true, false, ◌&&◌, ◌||◌, Option, none, some, List, [], ◌∷◌, ◌==◌, eqb,
  leb, if◌then◌else◌, insert,
}
use Prim.Native.String.{◌∷◌ as ◌▹◌}
use solace_prometheus_export.Prelude.Int.{ℤ, pos, ltb_ℤ}
use solace_prometheus_export.Prelude.Result.{Result, ok, err, ◌>>=◌}
use solace_prometheus_export.Text.{cut, equal_fold, has_prefix, trim_prefix}
use solace_prometheus_export.DataSource.{DataSource, parse_value}
use solace_prometheus_export.Config.{
  Config, ConfigError, open_failed, bar_expected, auth_type_basic, determine_auth_type,
}
use solace_prometheus_export.Config.Ini.{
  Ini, Environment, parse_config_string, parse_config_string_optional, parse_config_bool_optional,
  parse_config_duration_optional, parse_config_int_optional,
}

abbrev pub second : ℕ
second = 1000000000

abbrev pub cert_type_pem : String
cert_type_pem = "PEM"

abbrev pub cert_type_pkcs12 : String
cert_type_pkcs12 = "PKCS12"

abbrev is_digit : ℕ → Bool
is_digit c = leb b'0' c && leb c b'9'

-- \w
abbrev is_word : ℕ → Bool
is_word c = is_digit c || (leb b'a' c && leb c b'z') || (leb b'A' c && leb c b'Z') || eqb c b'_'

every : (ℕ → Bool) → String → Bool
every p String.[] = true
every p (c ▹ s) = p (code c) && every p s

abbrev some_of : (ℕ → Bool) → String → Bool
unfolding every
some_of p String.[] = false
some_of p (c ▹ s) = every p (c ▹ s)

without_number : String → Option (String × String) → String
unfolding some_of
without_number name none = name
without_number name (some (word, number)) =
    if some_of is_word word && some_of is_digit number then word else name

-- The replacement of `^(\w+)(\.\d+)?$` by its first group.
unfoldable pub scrape_target : String → String
unfolding without_number
scrape_target name = without_number name (cut b'.' name)

abbrev pub parsed : String → String → String → Option DataSource → Result ConfigError DataSource
parsed endpoint key value none = err (bar_expected endpoint key value)
parsed endpoint key value (some ds) = ok ds

-- The keys of one section.
unfoldable pub parse_endpoint :
    String → List (String × String) → Result ConfigError (List DataSource)
parse_endpoint endpoint [] = ok []
parse_endpoint endpoint ((key, value) ∷ keys) = do
  ds ← parsed endpoint key value (parse_value (scrape_target key) value)
  rest ← parse_endpoint endpoint keys
  ok (ds ∷ rest)

-- The loop over the sections, with the endpoints so far.
unfoldable pub parse_sections :
    Ini
    → List (String × List DataSource)
    → List String
    → Result ConfigError (List (String × List DataSource))
parse_sections cfg endpoints [] = ok endpoints
parse_sections cfg endpoints (section ∷ sections) =
    let skipped = parse_sections cfg endpoints sections in
    let read = parse_endpoint (trim_prefix section "endpoint.") (cfg.keys section) >>= λ ds.
    parse_sections cfg (insert (trim_prefix section "endpoint.") ds endpoints) sections in
    if has_prefix section "endpoint." then read else skipped

abbrev pub parse_endpoints : Option Ini → Result ConfigError (List (String × List DataSource))
parse_endpoints none = ok []
parse_endpoints (some cfg) = parse_sections cfg [] cfg.sections

-- A value whose error matters only under a condition; else the empty text stands for a missing one.
abbrev pub required_if : Bool → Result ConfigError String → Result ConfigError String
required_if b (ok v) = ok v
required_if true (err e) = err e
required_if false (err e) = ok ""

abbrev pub cert_type_of : Bool → Result ConfigError String → String
cert_type_of enable_tls (ok v) = v
cert_type_of true (err e) = cert_type_pem
cert_type_of false (err e) = ""

-- A parallel number below 1 becomes 2, and a page size below 1 becomes 100.
abbrev pub at_least_1 : ℤ → ℤ → ℤ
at_least_1 other n = if ltb_ℤ n (pos 1) then other else n

-- ini.LoadSources, where a file is named.
abbrev pub load_config : (String → Result String Ini) → String → Result ConfigError (Option Ini)
load_config load config_file = if config_file == "" then ok none else opened (load config_file)
  where
    opened : Result String Ini → Result ConfigError (Option Ini)
    opened (ok cfg) = ok (some cfg)
    opened (err e) = err (open_failed config_file e)

unfoldable pub with_limits : Config → Config
with_limits conf = record conf {
  parallel_semp_connections = at_least_1 (pos 2) conf.parallel_semp_connections;
  semp_page_size = at_least_1 (pos 100) conf.semp_page_size;
}

module _ (env : Environment) where
  abbrev optional : Option Ini → String → String → String → String
  optional cfg = parse_config_string_optional env cfg "solace"

  -- The settings of the section `solace`, in the order in which they are read.
  unfoldable pub parse_settings : Option Ini → Result ConfigError Config
  parse_settings cfg = do
    enable_tls ← parse_config_bool_optional env cfg "solace" "enableTLS" "SOLACE_LISTEN_TLS" false
    let cert_type =
        cert_type_of enable_tls
          (parse_config_string env cfg "solace" "certType" "SOLACE_LISTEN_CERTTYPE")
    let pem = enable_tls && equal_fold cert_type cert_type_pem
    let pkcs12 = enable_tls && equal_fold cert_type cert_type_pkcs12
    certificate ←
        required_if pem (parse_config_string env cfg "solace" "certificate" "SOLACE_SERVER_CERT")
    private_key ←
        required_if pem (parse_config_string env cfg "solace" "privateKey" "SOLACE_PRIVATE_KEY")
    pkcs12_file ←
        required_if pkcs12 (parse_config_string env cfg "solace" "pkcs12File" "SOLACE_PKCS12_FILE")
    pkcs12_pass ←
        required_if pkcs12 (parse_config_string env cfg "solace" "pkcs12Pass" "SOLACE_PKCS12_PASS")
    scrape_uri ← parse_config_string env cfg "solace" "scrapeUri" "SOLACE_SCRAPE_URI"
    timeout ←
        parse_config_duration_optional env cfg "solace" "timeout" "SOLACE_TIMEOUT"
          (pos (5 * second))
    prefetch_interval ←
        parse_config_duration_optional env cfg "solace" "prefetchInterval" "PREFETCH_INTERVAL"
          (pos 0)
    ssl_verify ← parse_config_bool_optional env cfg "solace" "sslVerify" "SOLACE_SSL_VERIFY" false
    parallel ←
        parse_config_int_optional env cfg "solace" "parallelSempConnections"
          "SOLACE_PARALLEL_SEMP_CONNECTIONS" (pos 1)
    log_slow ←
        parse_config_bool_optional env cfg "solace" "logBrokerToSlowWarnings"
          "SOLACE_LOG_BROKER_IS_SLOW_WARNING" true
    is_hw_broker ←
        parse_config_bool_optional env cfg "solace" "isHWBroker" "SOLACE_IS_HW_BROKER" false
    semp_page_size ←
        parse_config_int_optional env cfg "solace" "sempPageSize" "SOLACE_SEMP_PAGE_SIZE" (pos 100)
    secret_cache_ttl ←
        parse_config_duration_optional env cfg "solace" "secretCacheTTL" "SECRET_CACHE_TTL"
          (pos (60 * second))
    ok (record {
      listen_addr = optional cfg "listenAddr" "SOLACE_LISTEN_ADDR" "0.0.0.0:9628";
      enable_tls = enable_tls;
      certificate = certificate;
      private_key = private_key;
      cert_type = cert_type;
      pkcs12_file = pkcs12_file;
      pkcs12_pass = pkcs12_pass;
      scrape_uri = scrape_uri;
      username = optional cfg "username" "SOLACE_USERNAME" "admin";
      password = optional cfg "password" "SOLACE_PASSWORD" "admin";
      default_vpn = optional cfg "defaultVpn" "SOLACE_DEFAULT_VPN" "default";
      ssl_verify = ssl_verify;
      timeout = timeout;
      prefetch_interval = prefetch_interval;
      parallel_semp_connections = parallel;
      log_broker_to_slow_warnings = log_slow;
      is_hw_broker = is_hw_broker;
      semp_page_size = semp_page_size;
      o_auth_token_url = optional cfg "oAuthTokenURL" "SOLACE_OAUTH_TOKEN_URL" "";
      o_auth_client_id = optional cfg "oAuthClientID" "SOLACE_OAUTH_CLIENT_ID" "";
      o_auth_client_secret = optional cfg "oAuthClientSecret" "SOLACE_OAUTH_CLIENT_SECRET" "";
      o_auth_client_scope = optional cfg "oAuthClientScope" "SOLACE_OAUTH_CLIENT_SCOPE" "";
      o_auth_issuer = optional cfg "oAuthIssuer" "SOLACE_OAUTH_ISSUER" "";
      auth_type = auth_type_basic;
      exporter_auth = record {
        scheme = optional cfg "exporterAuthScheme" "SOLACE_EXPORTER_AUTH_SCHEME" "none";
        username = optional cfg "exporterAuthUsername" "SOLACE_EXPORTER_AUTH_USERNAME" "";
        password = optional cfg "exporterAuthPassword" "SOLACE_EXPORTER_AUTH_PASSWORD" "";
      };
      secret_backend = optional cfg "secretBackend" "SECRET_BACKEND" "";
      secret_cache_ttl = secret_cache_ttl;
    })

  unfoldable pub parse_config :
      (String → Result String Ini)
      → String
      → Result ConfigError (List (String × List DataSource) × Config)
  parse_config load config_file = do
    cfg ← load_config load config_file
    settings ← parse_settings cfg
    conf ← determine_auth_type settings
    endpoints ← parse_endpoints cfg
    ok (endpoints, with_limits conf)
