-- ===== src/Collector.antt =====
-- The exporter's scrape: CollectPrometheusMetric and Collect of internal/exporter/exporter.collect.go.
pub mod Dispatch
pub mod Gates
pub mod Report
pub mod Up
pub mod Agree
pub mod Broker
use solace_prometheus_export.Prelude.{
  String, Bool, true, false, Option, none, some, List, [], ◌∷◌, if◌then◌else◌,
}
use solace_prometheus_export.Prelude.Int.{ℤ, pos, ltb_ℤ}
use solace_prometheus_export.Metric.{ConstMetric, PrometheusMetric, as_prometheus_metric, gauge}
use solace_prometheus_export.Metric.Run.{Run, pure, ◌>>=◌}
use solace_prometheus_export.Metric.Merge.{MetricMap, merge}
use solace_prometheus_export.Semp.{Status}
use solace_prometheus_export.Semp.GoLib.{GoLib}
use solace_prometheus_export.Semp.Samples.{Sample, sample, send_sample}
use solace_prometheus_export.DataSource.{DataSource}
use Dispatch.{CollectConfig, Scrapes, dispatch}

abbrev pub error_text : Option String → String
error_text none = "Unknown"
error_text (some e) = e

module _ {F : Type 0} (lib : GoLib F) where
  abbrev pub up_sample : ℤ → String → String → Sample F
  up_sample value error endpoint =
      sample "Global" "up" gauge (lib.of_ℤ value) (error ∷ endpoint ∷ [])

  -- The metric `up` of a data source, from the value and the error of its scrape.
  unfoldable pub up_of : String → Status → Sample F
  up_of name (up, e) =
      if ltb_ℤ up (pos 1)
      then up_sample (pos 0) (error_text e) (if ltb_ℤ up (pos 0) then "global" else name)
      else up_sample (pos 1) "" name

  module _ (scrapes : Scrapes F) (conf : CollectConfig) where
    -- The loop over the data sources: a negative `up` is an error that all would repeat.
    unfoldable pub collect_prometheus_metric : List DataSource → Run F (Unit {0})
    collect_prometheus_metric [] = pure tt
    collect_prometheus_metric (ds ∷ data_sources) = dispatch scrapes conf ds >>= λ st.
        send_sample (up_of ds.name st) >>= λ _.
        let more = collect_prometheus_metric data_sources in
        if ltb_ℤ st.0 (pos 0) then pure tt else more

module _ {F : Type 0} where
  export_all : MetricMap F → List (ConstMetric F)
  export_all [] = []
  export_all ((key, metric) ∷ metrics) = as_prometheus_metric metric ∷ export_all metrics

  exported : Option (MetricMap F) → Option (List (ConstMetric F))
  unfolding export_all
  exported none = none
  exported (some metrics) = some (export_all metrics)

  -- Exporter.Collect: one metric for each name, the one received last. `stream` is what the channel
  -- delivers until the scrape returns, or panics and is recovered.
  unfoldable pub distinct_metrics : List (PrometheusMetric F) → Option (MetricMap F)
  distinct_metrics stream = merge stream []

  unfoldable pub collect : List (PrometheusMetric F) → Option (List (ConstMetric F))
  unfolding exported distinct_metrics
  collect stream = exported (distinct_metrics stream)
