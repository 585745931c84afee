-- ===== src/Config/Limits.antt =====
-- What every configuration that ParseConfig accepts satisfies.
use solace_prometheus_export.Prelude.{String, ◌≡◌, arith, List}
use mathlib.Core.Path.{subst}
use solace_prometheus_export.Prelude.Int.{ℤ, pos, ◌≤ℤ◌}
use solace_prometheus_export.Prelude.Result.{Result, ok, >>=-eq-ok}
use solace_prometheus_export.DataSource.{DataSource}
use solace_prometheus_export.Config.{Config, ConfigError, auth_type_of, determine_auth_type}
use solace_prometheus_export.Config.Ini.{Ini, Environment}
use solace_prometheus_export.Config.Parse.{
  parse_config, parse_settings, parse_endpoints, load_config, with_limits, at_least_1,
}

abbrev pub IsValid : Config → Type 0
IsValid conf =
    (pos 1 ≤ℤ conf.parallel_semp_connections)
    × (pos 1 ≤ℤ conf.semp_page_size)
    × (auth_type_of conf ≡ ok conf.auth_type)

at_least_1_lem : (other n : ℤ) → pos 1 ≤ℤ other → pos 1 ≤ℤ at_least_1 other n
at_least_1_lem other n h = ground arith

with_limits-IsValid : (c d : Config) → determine_auth_type c ≡ ok d → IsValid (with_limits d)
unfolding with_limits determine_auth_type auth_type_of
with_limits-IsValid c d h =
    let (a, p, q) = >>=-eq-ok (auth_type_of c) _ h in
    subst (λ d. IsValid (with_limits d)) (ok_eq q)
      (
        at_least_1_lem (pos 2) c.parallel_semp_connections (omega arith),
        at_least_1_lem (pos 100) c.semp_page_size (omega arith),
        p,
      )
  where
    ok_eq : {x y : Config} → ◌≡◌ {A = Result ConfigError Config} (ok x) (ok y) → x ≡ y
    ok_eq e = cc

module _ (env : Environment) (load : String → Result String Ini) where
  -- A configuration that ParseConfig accepts scrapes on one connection at least and with pages of one
  -- item at least, and its authentication is complete: DetermineAuthType accepts it as it is.
  pub parse_config-IsValid :
      (config_file : String) (endpoints : List (String × List DataSource)) (conf : Config)
      → parse_config env load config_file ≡ ok (endpoints, conf)
      → IsValid conf
  unfolding parse_config
  parse_config-IsValid config_file endpoints conf h =
      let (cfg, _, h1) = >>=-eq-ok (load_config load config_file) _ h in
      let (settings, _, h2) = >>=-eq-ok (parse_settings env cfg) _ h1 in
      let (c, p, h3) = >>=-eq-ok (determine_auth_type settings) _ h2 in
      let (eps, _, h4) = >>=-eq-ok (parse_endpoints cfg) _ h3 in
      subst IsValid (second_of h4) (with_limits-IsValid settings c p)
    where
      second_of :
          {a b : List (String × List DataSource)} {c d : Config}
          → ◌≡◌ {A = Result ConfigError (List (String × List DataSource) × Config)}
              (ok (a, c))
              (ok (b, d))
          → c ≡ d
      second_of e = cc
