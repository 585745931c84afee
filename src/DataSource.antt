-- ===== src/DataSource.antt =====
-- Scrape targets: internal/exporter/dataSource.struct.go, and the texts that they are read from, in
-- ParseConfig (internal/exporter/config.struct.go) and parseDataSources
-- (cmd/solace-prometheus-exporter/main.go).
pub mod RoundTrip
use Prim.Native.String.{◌++◌ as ◌<>◌}
use solace_prometheus_export.Prelude.{
  ℕ, zero, suc, String, Bool, true, false, Option, none, some, List, [], ◌∷◌, ◌++◌, eqb, length,
  if◌then◌else◌,
}
use solace_prometheus_export.Text.{cut_prefix, is_empty, join, split, trim_space}

pub record DataSource : Type 0 where
  pub name : String
  pub vpn_filter : String
  pub item_filter : String
  pub metric_filter : List String

-- DataSource.String
unfoldable pub to_string : DataSource → String
to_string ds =
    ds.name
    <> ("=" <> (ds.vpn_filter <> ("|" <> (ds.item_filter <> ("|" <> join "," ds.metric_filter)))))

-- The metric filter of a value that has those parts after the first two.
abbrev pub metric_filter_of : List String → List String
metric_filter_of [] = []
metric_filter_of (p ∷ []) = if is_empty (trim_space p) then [] else split b',' p
metric_filter_of (p ∷ q ∷ ps) = []

abbrev pub of_parts : String → List String → Option DataSource
of_parts name [] = none
of_parts name (p ∷ []) = none
of_parts name (p ∷ q ∷ ps) =
    some
      (record { name = name; vpn_filter = p; item_filter = q; metric_filter = metric_filter_of ps })

-- The value `vpn|item[|metric,…]` of a target; `none` where it has fewer than two parts.
unfoldable pub parse_value : String → String → Option DataSource
parse_value name value = of_parts name (split b'|' value)

abbrev pub add_parsed : Option DataSource → List DataSource → List DataSource
add_parsed none rest = rest
add_parsed (some ds) rest = ds ∷ rest

-- The values of one form key: those that cannot be parsed are skipped.
parse_values : String → List String → List DataSource
unfolding parse_value
parse_values name [] = []
parse_values name (v ∷ vs) = add_parsed (parse_value name v) (parse_values name vs)

abbrev pub of_key : Option String → List String → List DataSource
unfolding parse_values
of_key none values = []
of_key (some name) values = parse_values name values

-- The form as a list of keys with their values, in the order in which `range` visits it.
unfoldable pub parse_data_sources : List (String × List String) → List DataSource
unfolding of_key
parse_data_sources [] = []
parse_data_sources ((key, values) ∷ form) =
    of_key (cut_prefix key "m.") values ++ parse_data_sources form
