-- ===== src/Collector/Agree.antt =====
-- The synchronous handler and the background fetcher, over one scrape.
use solace_prometheus_export.Prelude.{
  String, ◌≡◌, refl, sym, ◌∙◌, Option, none, some, List, [], lookup, All,
}
use solace_prometheus_export.Metric.{PrometheusMetric}
use solace_prometheus_export.Metric.Names.{IsWellFormed}
use solace_prometheus_export.Metric.Merge.{
  MetricMap, IsFresh, latest, or_else, merge_total, lookup-merge,
}
use solace_prometheus_export.Fetcher.{AsyncFetcher, read_metrics}
use solace_prometheus_export.Fetcher.Cycle.{IsValid, read_metrics_lem}
use solace_prometheus_export.Collector.{distinct_metrics}

module _ {F : Type 0} where
  or_else-none : (o : Option (PrometheusMetric F)) → or_else o none ≡ o
  or_else-none none = refl
  or_else-none (some m) = refl

  pub lookup-distinct_metrics :
      (k : String) (stream : List (PrometheusMetric F)) {d : MetricMap F}
      → distinct_metrics stream ≡ some d
      → lookup k d ≡ latest k stream
  unfolding distinct_metrics lookup
  lookup-distinct_metrics k stream h = lookup-merge k stream [] h ∙ or_else-none (latest k stream)

  -- Over the same well-formed and fresh stream, Collect of the synchronous handler and a scrape of the
  -- background fetcher both succeed and hold the same metric under every name, whatever the fetcher
  -- held before.
  pub collect_agrees :
      (stream : List (PrometheusMetric F)) (f : AsyncFetcher F)
      → All IsWellFormed stream
      → All IsFresh stream
      → IsValid f
      → (d : MetricMap F) × (f' : AsyncFetcher F) × (distinct_metrics stream ≡ some d)
        × (read_metrics stream f ≡ some f')
        × ((k : String) → lookup k d ≡ lookup k f'.metrics)
  collect_agrees stream f wf fresh valid =
      let (d, e) = total in
      let (f', p, _, q) = read_metrics_lem stream f wf fresh valid in
      (d, f', e, p, λ k. lookup-distinct_metrics k stream e ∙ sym (q k))
    where
      total : (d : MetricMap F) × (distinct_metrics stream ≡ some d)
      total = unfold distinct_metrics in merge_total stream [] wf
