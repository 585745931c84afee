-- ===== src/Server.antt =====
-- The requests that the exporter serves: firstNonEmpty, resolveRequestConfig, doHandle and doHandleAsync
-- of cmd/solace-prometheus-exporter/main.go. What net/http, promhttp and the scrape answer are
-- parameters.
pub mod Auth
pub mod RequestConfig
pub mod Refused
use solace_prometheus_export.Prelude.{
  ℕ, String, Bool, true, false, not, Option, none, some, List, [], ◌∷◌, if◌then◌else◌,
}
use solace_prometheus_export.Prelude.Int.{ℤ, pos, leb_ℤ}
use solace_prometheus_export.Prelude.Result.{Result, ok, err}
use solace_prometheus_export.Text.{equal_fold, is_empty, trim_space}
use solace_prometheus_export.Text.Parse.{parse_bool}
use solace_prometheus_export.DataSource.{DataSource}
use solace_prometheus_export.Secret.{Backend, Cache, Timing, resolve}
use solace_prometheus_export.Config.{Config, ConfigError, and_then_cached, named, given}
use Auth.{Reply, wrap_with_auth}

-- What the program reads of an http.Request.
pub record HttpRequest : Type 0 where
  pub form_value : String → String
  pub header : String → String
  pub basic_auth : Option (String × String)

unfoldable pub first_non_empty : List String → String
first_non_empty [] = ""
first_non_empty (v ∷ values) = let rest = first_non_empty values in if given v then v else rest

abbrev pub with_timeout : Option ℤ → Config → Config
with_timeout none conf = conf
with_timeout (some parsed) conf =
    if leb_ℤ parsed (pos 0) then conf else record conf { timeout = parsed }

abbrev pub with_hw_broker : Option Bool → Config → Config
with_hw_broker none conf = conf
with_hw_broker (some parsed) conf = record conf { is_hw_broker = parsed }

abbrev pub with_scrape_uri : String → Config → Config
with_scrape_uri uri conf = if is_empty uri then conf else record conf { scrape_uri = uri }

module _ (parse_duration : String → Option ℤ) (backend : Option Backend)
    (timing : String → Timing) where
  -- A credential of the request, where it gives one.
  abbrev pub credential :
      Bool
      → String
      → String
      → (String → Config → Config)
      → Config
      → Cache
      → Result ConfigError Config × Cache
  credential resolving name value assign conf cache =
      if is_empty value
      then (ok conf, cache)
      else if resolving
      then and_then_cached (named name (resolve backend (timing name) value cache))
          (λ v cache'. (ok (assign v conf), cache'))
      else (ok (assign value conf), cache)

  -- secretBackend, trimmed and in lower case, is not `none`.
  abbrev pub resolves : HttpRequest → Bool
  resolves r = not (
      equal_fold
        (trim_space (
          first_non_empty (r.form_value "secretBackend" ∷ r.header "x-solace-secret-backend" ∷ [])))
        "none")

  abbrev pub timeout_of : HttpRequest → Option ℤ
  timeout_of r =
      let timeout =
        first_non_empty (r.form_value "timeout" ∷ r.header "x-solace-broker-timeout" ∷ []) in
      if is_empty timeout then none else parse_duration timeout

  abbrev pub hw_broker_of : HttpRequest → Option Bool
  hw_broker_of r =
      let is_hw_broker = first_non_empty (
        r.form_value "isHWBroker"
        ∷ r.form_value "ishwbroker"
        ∷ r.header "x-solace-broker-ishwbroker"
        ∷ []) in
      if is_empty is_hw_broker then none else parse_bool is_hw_broker

  -- The settings of the request that need no secrets, but for the scrape URI.
  abbrev pub overridden : HttpRequest → Config → Config
  overridden r conf = with_hw_broker (hw_broker_of r) (with_timeout (timeout_of r) conf)

  abbrev pub username_of : HttpRequest → String
  username_of r =
      first_non_empty (r.form_value "username" ∷ r.header "x-solace-broker-username" ∷ [])

  abbrev pub password_of : HttpRequest → String
  password_of r =
      first_non_empty (r.form_value "password" ∷ r.header "x-solace-broker-password" ∷ [])

  abbrev pub scrape_uri_of : HttpRequest → String
  scrape_uri_of r = first_non_empty (
      r.form_value "scrapeURI"
      ∷ r.form_value "scrapeUri"
      ∷ r.header "x-solace-broker-scrapeuri"
      ∷ [])

  abbrev pub set_username : String → Config → Config
  set_username v conf = record conf { username = v }

  abbrev pub set_password : String → Config → Config
  set_password v conf = record conf { password = v }

  -- The last steps.
  abbrev pub with_password : HttpRequest → Config → Cache → Result ConfigError Config × Cache
  with_password r conf cache =
      and_then_cached (credential (resolves r) "password" (password_of r) set_password conf cache)
        (λ conf' cache'. (ok (with_scrape_uri (scrape_uri_of r) conf'), cache'))

  unfoldable pub resolve_request_config :
      HttpRequest → Config → Cache → Result ConfigError Config × Cache
  resolve_request_config r conf cache =
      and_then_cached
        (credential (resolves r) "username" (username_of r) set_username (overridden r conf) cache)
        (with_password r)

abbrev pub internal_error : Reply
internal_error = record {
  status = 500;
  headers =
      ("Content-Type", "text/plain; charset=utf-8") ∷ ("X-Content-Type-Options", "nosniff") ∷ [];
  body = "internal error resolving broker credentials\n";
}

-- The handlers of promhttp: over the default registry, over an exporter that scrapes with a
-- configuration, and over a background fetcher.
pub record Metrics : Type 0 where
  pub default_registry : HttpRequest → Reply
  pub scrape : Config → List DataSource → HttpRequest → Reply
  pub fetched : HttpRequest → Reply

module _ (sum_256 : String → String) (metrics : Metrics) where
  -- The handler of a request whose configuration is resolved, or the error.
  abbrev pub answer :
      Config → List DataSource → HttpRequest → Result ConfigError Config × Cache → Reply × Cache
  answer conf data_source r (err e, cache) = (internal_error, cache)
  answer conf data_source r (ok req_conf, cache) = (
    wrap_with_auth sum_256 (λ (r : HttpRequest). r.basic_auth) (metrics.scrape req_conf data_source)
        conf.exporter_auth r,
    cache,
  )

  -- doHandle; a nil slice of data sources is an empty one.
  unfoldable pub do_handle :
      (String → Option ℤ)
      → Option Backend
      → (String → Timing)
      → HttpRequest
      → List DataSource
      → Config
      → Cache
      → Reply × Cache
  do_handle parse_duration backend timing r [] conf cache = (
    wrap_with_auth sum_256 (λ (r : HttpRequest). r.basic_auth) metrics.default_registry
        conf.exporter_auth r,
    cache,
  )
  do_handle parse_duration backend timing r (ds ∷ data_source) conf cache =
      answer conf (ds ∷ data_source) r
        (resolve_request_config parse_duration backend timing r conf cache)

  unfoldable pub do_handle_async : HttpRequest → Config → Reply
  do_handle_async r conf =
      wrap_with_auth sum_256 (λ (r : HttpRequest). r.basic_auth) metrics.fetched conf.exporter_auth
        r
