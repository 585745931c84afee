-- ===== src/Fetcher.antt =====
-- The background fetcher: internal/exporter/asyncFetcher.go. Its mutable state is the map of metrics;
-- each function below that takes the mutex in the source is one step on that state.
pub mod Cycle
pub mod Readers
use solace_prometheus_export.Prelude.{
  ℕ, ◌+◌, String, Bool, true, false, Option, none, some, List, [], ◌∷◌, ◌++◌, leb, length, modify,
  delete_if,
}
use solace_prometheus_export.Metric.{
  PrometheusMetric, ConstMetric, deprecate, is_deprecated, as_prometheus_metric,
}
use solace_prometheus_export.Metric.Merge
use solace_prometheus_export.Metric.Merge.{MetricMap, and_then}

abbrev pub metric_cache_chunk_size : ℕ
metric_cache_chunk_size = 100

pub record AsyncFetcher (F : Type 0) : Type 0 where
  pub metrics : MetricMap F

module _ {F : Type 0} where
  -- NewAsyncFetcher, before its first scrape.
  abbrev pub new_async_fetcher : AsyncFetcher F
  new_async_fetcher = record { metrics = [] }

  unfoldable pub deprecate_all : AsyncFetcher F → AsyncFetcher F
  deprecate_all f = record { metrics = modify deprecate f.metrics }

  with_metrics : Option (MetricMap F) → Option (AsyncFetcher F)
  with_metrics none = none
  with_metrics (some metrics) = some (record { metrics = metrics })

  unfoldable pub merge : List (PrometheusMetric F) → AsyncFetcher F → Option (AsyncFetcher F)
  unfolding with_metrics
  merge cache f = with_metrics (Merge.merge cache f.metrics)

  unfoldable pub delete_deprecated : AsyncFetcher F → AsyncFetcher F
  delete_deprecated f = record { metrics = delete_if is_deprecated f.metrics }

  export_all : MetricMap F → List (ConstMetric F)
  export_all [] = []
  export_all ((key, metric) ∷ metrics) = as_prometheus_metric metric ∷ export_all metrics

  unfoldable pub collect : AsyncFetcher F → List (ConstMetric F)
  unfolding export_all
  collect f = export_all f.metrics

  -- The loop over the channel, with the chunk read so far.
  read_chunks :
      List (PrometheusMetric F)
      → List (PrometheusMetric F)
      → AsyncFetcher F
      → Option (AsyncFetcher F)
  read_chunks cache [] f = merge cache f
  read_chunks cache (metric ∷ stream) f =
      elim (leb metric_cache_chunk_size (length (cache ++ (metric ∷ [])))) [
        | true ↦ and_then (merge (cache ++ (metric ∷ [])) f) (read_chunks [] stream)
        | false ↦ read_chunks (cache ++ (metric ∷ [])) stream f
      ]

  -- The stream is what the channel delivers until it is closed: all that the scrape sends, up to its
  -- return or to its panic, which is recovered.
  unfoldable pub read_metrics : List (PrometheusMetric F) → AsyncFetcher F → Option (AsyncFetcher F)
  unfolding read_chunks
  read_metrics stream f =
      and_then (read_chunks [] stream (deprecate_all f)) (λ f'. some (delete_deprecated f'))
