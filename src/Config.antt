-- ===== src/Config.antt =====
-- The configuration: internal/exporter/config.struct.go. The shared OAuth token cache, which Config
-- points at, is a state of its own (Server/OAuth). Durations are nanoseconds.
pub mod Ini
pub mod Parse
pub mod Limits
pub mod AuthKind
use Prim.Native.String.{◌++◌ as ◌<>◌}
use solace_prometheus_export.Prelude.{
  String, Bool, true, false, ◌&&◌, ◌||◌, not, Option, none, some, List, [], ◌∷◌, if◌then◌else◌,
}
use solace_prometheus_export.Prelude.Int.{ℤ}
use solace_prometheus_export.Prelude.Result.{Result, ok, err, ◌>>=◌, wrap_err}
use solace_prometheus_export.Text.{is_empty}
use solace_prometheus_export.Secret.{Backend, Cache, Timing, ResolveError, resolve}

pub record ExporterAuthConfig : Type 0 where
  pub scheme : String
  pub username : String
  pub password : String

-- internal/exporter/auth.go
pub data AuthType : Type 0 where
  auth_type_basic auth_type_o_auth : AuthType

pub record Config : Type 0 where
  pub listen_addr : String
  pub enable_tls : Bool
  pub certificate : String
  pub private_key : String
  pub cert_type : String
  pub pkcs12_file : String
  pub pkcs12_pass : String
  pub scrape_uri : String
  pub username : String
  pub password : String
  pub default_vpn : String
  pub ssl_verify : Bool
  pub timeout : ℤ
  pub prefetch_interval : ℤ
  pub parallel_semp_connections : ℤ
  pub log_broker_to_slow_warnings : Bool
  pub is_hw_broker : Bool
  pub semp_page_size : ℤ
  pub o_auth_token_url : String
  pub o_auth_client_id : String
  pub o_auth_client_secret : String
  pub o_auth_client_scope : String
  pub o_auth_issuer : String
  pub auth_type : AuthType
  pub exporter_auth : ExporterAuthConfig
  pub secret_backend : String
  pub secret_cache_ttl : ℤ

-- The errors of this package, before they are written as texts.
pub data ConfigError : Type 0 where
  open_failed : String → String → ConfigError
  missing : String → String → ConfigError
  not_valid : String → String → ConfigError
  bar_expected : String → String → String → ConfigError
  incomplete_o_auth : ConfigError
  no_credentials : ConfigError
  resolve_failed : String → ResolveError → ConfigError

-- len(s) > 0
abbrev pub given : String → Bool
given s = not (is_empty s)

-- The value that DetermineAuthType sets.
unfoldable pub auth_type_of : Config → Result ConfigError AuthType
auth_type_of conf =
    let any_o_auth =
      given conf.o_auth_client_id
      || given conf.o_auth_client_secret
      || given conf.o_auth_token_url
      || given conf.o_auth_client_scope in
    let all_o_auth =
      given conf.o_auth_client_id
      && given conf.o_auth_client_secret
      && given conf.o_auth_token_url
      && given conf.o_auth_client_scope in
    if any_o_auth && not all_o_auth
    then err incomplete_o_auth
    else if all_o_auth
    then ok auth_type_o_auth
    else if given conf.username && given conf.password
    then ok auth_type_basic
    else err no_credentials

unfoldable pub determine_auth_type : Config → Result ConfigError Config
determine_auth_type conf = auth_type_of conf >>= λ a. ok (record conf { auth_type = a })

unfoldable pub get_listen_uri : Config → String
get_listen_uri conf =
    if conf.enable_tls then "https://" <> conf.listen_addr else "http://" <> conf.listen_addr

-- A step of code that threads the cache of the resolver through.
abbrev pub and_then_cached :
    {A B : Type 0}
    → Result ConfigError A × Cache
    → (A → Cache → Result ConfigError B × Cache)
    → Result ConfigError B × Cache
and_then_cached (err e, cache) k = (err e, cache)
and_then_cached (ok a, cache) k = k a cache

abbrev pub named : String → Result ResolveError String × Cache → Result ConfigError String × Cache
named name (r, cache) = (wrap_err (resolve_failed name) r, cache)

-- The fields that ResolveSecrets resolves, in its order: the name, the value and the assignment.
pub record Field : Type 0 where
  pub name : String
  pub value : Config → String
  pub assign : String → Config → Config

abbrev pub secret_fields : List Field
secret_fields =
    record {
      name = "username";
      value = λ (c : Config). c.username;
      assign = λ v (c : Config). record c { username = v };
    }
    ∷ record {
      name = "password";
      value = λ (c : Config). c.password;
      assign = λ v (c : Config). record c { password = v };
    }
    ∷ record {
      name = "exporterAuthUsername";
      value = λ (c : Config). c.exporter_auth.username;
      assign =
          λ v (c : Config). record c { exporter_auth = record c.exporter_auth { username = v } };
    }
    ∷ record {
      name = "exporterAuthPassword";
      value = λ (c : Config). c.exporter_auth.password;
      assign =
          λ v (c : Config). record c { exporter_auth = record c.exporter_auth { password = v } };
    }
    ∷ record {
      name = "oAuthClientSecret";
      value = λ (c : Config). c.o_auth_client_secret;
      assign = λ v (c : Config). record c { o_auth_client_secret = v };
    }
    ∷ record {
      name = "pkcs12Pass";
      value = λ (c : Config). c.pkcs12_pass;
      assign = λ v (c : Config). record c { pkcs12_pass = v };
    }
    ∷ []

module _ (backend : Option Backend) (timing : String → Timing) where
  -- The loop over the fields; `timing` gives the times of the call for each name.
  unfoldable pub resolve_fields : List Field → Config → Cache → Result ConfigError Config × Cache
  resolve_fields [] conf cache = (ok conf, cache)
  resolve_fields (f ∷ fields) conf cache =
      and_then_cached (named f.name (resolve backend (timing f.name) (f.value conf) cache))
        (λ v cache'. resolve_fields fields (f.assign v conf) cache')

  unfoldable pub resolve_secrets : Config → Cache → Result ConfigError Config × Cache
  resolve_secrets conf cache =
      and_then_cached (resolve_fields secret_fields conf cache)
        (λ conf' cache'. (determine_auth_type conf', cache'))
