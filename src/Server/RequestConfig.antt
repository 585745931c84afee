-- ===== src/Server/RequestConfig.antt =====
-- What a request can change in the configuration of its scrape.
use solace_prometheus_export.Prelude.{
  String, ◌≡◌, refl, ap, Bool, true, false, Bool-cases, inl, inr, Option, none, some, arith,
  if◌then◌else◌,
}
use solace_prometheus_export.Prelude.Int.{ℤ, pos, leb_ℤ, ◌≤ℤ◌}
use solace_prometheus_export.Prelude.Result.{Result, ok, err}
use solace_prometheus_export.Text.{is_empty}
use solace_prometheus_export.Secret.{Backend, Cache, Timing, ResolveError, resolve}
use solace_prometheus_export.Config.{Config, ConfigError, and_then_cached, named}
use solace_prometheus_export.Server.{
  HttpRequest, with_timeout, with_hw_broker, with_scrape_uri, credential, resolves, overridden,
  timeout_of, username_of, password_of, scrape_uri_of, set_username, set_password, with_password,
  hw_broker_of, resolve_request_config,
}

-- The settings that a request cannot change are those of the configuration: all but the timeout, the
-- kind of broker, the user name, the password and the scrape URI.
abbrev pub SameBut : Config → Config → Type 0
SameBut conf c = c ≡ record conf {
  timeout = c.timeout;
  is_hw_broker = c.is_hw_broker;
  username = c.username;
  password = c.password;
  scrape_uri = c.scrape_uri;
}

-- Such a configuration whose timeout is positive.
abbrev pub IsRequestConfig : Config → Config → Type 0
IsRequestConfig conf c = SameBut conf c × (pos 1 ≤ℤ c.timeout)

abbrev pub OkIs : (Config → Type 0) → Result ConfigError Config → Type 0
OkIs P (ok c) = P c
OkIs P (err e) = Unit

module _ (P : Config → Type 0) where
  and_then-OkIs :
      (m : Result ConfigError Config × Cache)
      (k : Config → Cache → Result ConfigError Config × Cache)
      → OkIs P m.0
      → ((c : Config) (cache : Cache) → P c → OkIs P (k c cache).0)
      → OkIs P (and_then_cached m k).0
  and_then-OkIs (ok c, cache) k h f = f c cache h
  and_then-OkIs (err e, cache) k h f = tt

module _ (parse_duration : String → Option ℤ) (backend : Option Backend) (timing : String → Timing)
    (conf : Config) where
  timeout_lem : (o : Option ℤ) → pos 1 ≤ℤ conf.timeout → IsRequestConfig conf (with_timeout o conf)
  timeout_lem none h = (refl, h)
  timeout_lem (some t) h = elim (Bool-cases (leb_ℤ t (pos 0))) [
    | inl e ↦ rw e (refl, h)
    | inr e ↦ rw e (refl, ground arith)
  ]

  hw_broker_lem :
      (o : Option Bool) (c : Config)
      → IsRequestConfig conf c
      → IsRequestConfig conf (with_hw_broker o c)
  hw_broker_lem none c h = h
  hw_broker_lem (some b) c (e, h) = (ap (λ (d : Config). record d { is_hw_broker = b }) e, h)

  overridden_lem :
      (r : HttpRequest)
      → pos 1 ≤ℤ conf.timeout
      → IsRequestConfig conf (overridden parse_duration backend timing r conf)
  overridden_lem r h =
      hw_broker_lem (hw_broker_of parse_duration backend timing r)
        (with_timeout (timeout_of parse_duration backend timing r) conf)
        (timeout_lem (timeout_of parse_duration backend timing r) h)

  scrape_uri_lem :
      (uri : String) (c : Config)
      → IsRequestConfig conf c
      → IsRequestConfig conf (with_scrape_uri uri c)
  scrape_uri_lem uri c (e, h) = elim (Bool-cases (is_empty uri)) [
    | inl k ↦ rw k (e, h)
    | inr k ↦ rw k (ap (λ (d : Config). record d { scrape_uri = uri }) e, h)
  ]

  credential_lem :
      (resolving : Bool) (name value : String) (assign : String → Config → Config) (c : Config)
      (cache : Cache)
      → ((v : String) → IsRequestConfig conf (assign v c))
      → IsRequestConfig conf c
      → OkIs
          (IsRequestConfig conf)
          (credential parse_duration backend timing resolving name value assign c cache).0
  credential_lem resolving name value assign c cache h k = elim (Bool-cases (is_empty value)) [
    | inl e ↦ rw e k
    | inr e ↦ rw e (when_given resolving)
  ]
    where
      resolved :
          (r : Result ResolveError String × Cache)
          → OkIs
              (IsRequestConfig conf)
              (and_then_cached (named name r) (λ v cache'. (ok (assign v c), cache'))).0
      resolved (ok v, cache') = h v
      resolved (err e, cache') = tt

      when_given :
          (b : Bool)
          → OkIs
              (IsRequestConfig conf)
              (if b
                then and_then_cached
                    (named name (resolve backend (timing name) value cache))
                    (λ v cache'. (ok (assign v c), cache'))
                else (ok (assign value c), cache)).0
      when_given true = resolved (resolve backend (timing name) value cache)
      when_given false = h value

  password_lem :
      (r : HttpRequest) (c : Config) (cache : Cache)
      → IsRequestConfig conf c
      → OkIs (IsRequestConfig conf) (with_password parse_duration backend timing r c cache).0
  password_lem r c cache h =
      and_then-OkIs (IsRequestConfig conf)
        (credential parse_duration backend timing (resolves parse_duration backend timing r)
          "password" (password_of parse_duration backend timing r)
          (set_password parse_duration backend timing) c cache)
        (λ c' cache'.
          (ok (with_scrape_uri (scrape_uri_of parse_duration backend timing r) c'), cache'))
        (credential_lem (resolves parse_duration backend timing r) "password"
          (password_of parse_duration backend timing r) (set_password parse_duration backend timing)
          c cache (λ v. (ap (λ (d : Config). record d { password = v }) h.0, h.1)) h)
        (λ c' cache' q. scrape_uri_lem (scrape_uri_of parse_duration backend timing r) c' q)

  -- Where the configured timeout is positive, the configuration that a request is scraped with has a
  -- positive timeout too, whatever the request asks for; and it differs from the configured one in the
  -- timeout, the kind of broker, the user name, the password and the scrape URI at most.
  pub resolve_request_config-IsRequestConfig :
      (r : HttpRequest) (cache : Cache)
      → pos 1 ≤ℤ conf.timeout
      → OkIs
          (IsRequestConfig conf)
          (resolve_request_config parse_duration backend timing r conf cache).0
  unfolding resolve_request_config
  resolve_request_config-IsRequestConfig r cache h =
      let start = overridden_lem r h in
      and_then-OkIs (IsRequestConfig conf)
        (credential parse_duration backend timing (resolves parse_duration backend timing r)
          "username" (username_of parse_duration backend timing r)
          (set_username parse_duration backend timing)
          (overridden parse_duration backend timing r conf) cache)
        (with_password parse_duration backend timing r)
        (credential_lem (resolves parse_duration backend timing r) "username"
          (username_of parse_duration backend timing r) (set_username parse_duration backend timing)
          (overridden parse_duration backend timing r conf) cache
          (λ v. (ap (λ (d : Config). record d { username = v }) start.0, start.1)) start)
        (λ c cache' p. password_lem r c cache' p)
