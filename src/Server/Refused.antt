-- ===== src/Server/Refused.antt =====
-- Requests without the credentials that the exporter asks for.
use solace_prometheus_export.Prelude.{String, ◌≡◌, refl, ◌⊎◌, inl, inr, Option, List, [], ◌∷◌}
use solace_prometheus_export.Prelude.Int.{ℤ}
use solace_prometheus_export.Prelude.Result.{Result, ok, err}
use solace_prometheus_export.DataSource.{DataSource}
use solace_prometheus_export.Secret.{Backend, Cache, Timing}
use solace_prometheus_export.Config.{Config, ConfigError}
use solace_prometheus_export.Server.{
  HttpRequest, Metrics, internal_error, answer, do_handle, do_handle_async, resolve_request_config,
}
use solace_prometheus_export.Server.Auth.{
  Reply, unauthorized, wrap_with_auth, wrap_with_auth_cases, Protects, Admitted,
}

module _ (sum_256 : String → String) where
  -- The exporter asks for credentials, and the request has not the right ones.
  abbrev pub Stranger : HttpRequest → Config → Type 0
  Stranger r conf =
      Protects sum_256 (λ (r : HttpRequest). r.basic_auth) conf.exporter_auth
      × (Admitted sum_256 (λ (r : HttpRequest). r.basic_auth) conf.exporter_auth r → ⊥)

  refused :
      (handler : HttpRequest → Reply) (r : HttpRequest) (conf : Config)
      → Stranger r conf
      → wrap_with_auth sum_256 (λ (r : HttpRequest). r.basic_auth) handler conf.exporter_auth r
        ≡ unauthorized
  refused handler r conf (p, n) =
      elim (wrap_with_auth_cases sum_256 (λ (r : HttpRequest). r.basic_auth) handler
        conf.exporter_auth r p) [ inl (a, e) ↦ absurd (n a) | inr (a, e) ↦ e ]

  -- Where the exporter asks for credentials, a request without the right ones gets nothing of the
  -- metrics: the background fetcher's handler answers 401, and the synchronous one 401, or 500 where
  -- the credentials of the broker in the request cannot be resolved.
  pub do_handle_refused :
      (metrics : Metrics) (parse_duration : String → Option ℤ) (backend : Option Backend)
      (timing : String → Timing) (r : HttpRequest) (data_source : List DataSource) (conf : Config)
      (cache : Cache)
      → Stranger r conf
      → (do_handle_async sum_256 metrics r conf ≡ unauthorized)
        × (((do_handle sum_256 metrics parse_duration backend timing r data_source conf cache).0
              ≡ unauthorized)
            ⊎ ((do_handle sum_256 metrics parse_duration backend timing r data_source conf cache).0
                ≡ internal_error))
  unfolding do_handle do_handle_async
  do_handle_refused metrics parse_duration backend timing r [] conf cache s =
      (refused metrics.fetched r conf s, inl (refused metrics.default_registry r conf s))
  do_handle_refused metrics parse_duration backend timing r (ds ∷ data_source) conf cache s = (
    refused metrics.fetched r conf s,
    either (resolve_request_config parse_duration backend timing r conf cache),
  )
    where
      either :
          (p : Result ConfigError Config × Cache)
          → ((answer sum_256 metrics conf (ds ∷ data_source) r p).0 ≡ unauthorized)
            ⊎ ((answer sum_256 metrics conf (ds ∷ data_source) r p).0 ≡ internal_error)
      either (err e, cache') = inr refl
      either (ok req_conf, cache') =
          inl (refused (metrics.scrape req_conf (ds ∷ data_source)) r conf s)
