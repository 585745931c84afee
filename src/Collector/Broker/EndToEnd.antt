-- ===== src/Collector/Broker/EndToEnd.antt =====
-- From the replies of a broker to the metrics that the exporter holds.
use solace_prometheus_export.Prelude.{ℕ, String, ◌≡◌, some, List, [], ◌∷◌, All, lookup}
use solace_prometheus_export.Metric.{PrometheusMetric}
use solace_prometheus_export.Metric.Run.{AllSent}
use solace_prometheus_export.Metric.Names.{IsWellFormed}
use solace_prometheus_export.Metric.Merge.{MetricMap, IsFresh, latest, merge_total}
use solace_prometheus_export.Semp.{Http, Semp}
use solace_prometheus_export.Semp.GoLib.{GoLib}
use solace_prometheus_export.Semp.Samples.{IsSound}
use solace_prometheus_export.Semp.Getters.BridgeClientCert.{CertLib}
use solace_prometheus_export.Fetcher.{AsyncFetcher, read_metrics}
use solace_prometheus_export.Fetcher.Cycle.{IsValid, read_metrics_lem}
use solace_prometheus_export.DataSource.{DataSource}
use solace_prometheus_export.Collector.{collect_prometheus_metric, distinct_metrics}
use solace_prometheus_export.Collector.Agree.{lookup-distinct_metrics}
use solace_prometheus_export.Collector.Dispatch.{CollectConfig, dispatch}
use solace_prometheus_export.Collector.Report.{collect-IsSound}
use solace_prometheus_export.Collector.Broker.{Decoders, broker_scrapes}
use solace_prometheus_export.Collector.Broker.Safe.{broker_scrapes-IsSound}

module _ {F : Type 0} where
  All-IsWellFormed : (ms : List (PrometheusMetric F)) → All IsSound ms → All IsWellFormed ms
  All-IsWellFormed [] h = tt
  All-IsWellFormed (m ∷ ms) h = (h.0.0, All-IsWellFormed ms h.1)

  distinct_total :
      (stream : List (PrometheusMetric F))
      → All IsWellFormed stream
      → (d : MetricMap F) × (distinct_metrics stream ≡ some d)
  unfolding distinct_metrics
  distinct_total stream wf = merge_total stream [] wf

  All-IsFresh : (ms : List (PrometheusMetric F)) → All IsSound ms → All IsFresh ms
  All-IsFresh [] h = tt
  All-IsFresh (m ∷ ms) h = (h.0.1, All-IsFresh ms h.1)

module _ {F Body : Type 0} (lib : GoLib F) (certs : CertLib) (escape : String → String)
    (http : Http Body) (decoders : Decoders F Body) (semp : Semp) (conf : CollectConfig) where
  -- The metrics that a scrape of the data sources puts on the channel.
  abbrev pub stream_of : ℕ → List DataSource → List (PrometheusMetric F)
  stream_of fuel data_sources =
      (collect_prometheus_metric lib (broker_scrapes lib certs escape http decoders semp fuel) conf
        data_sources).sent

  stream_of-IsSound :
      (fuel : ℕ) (data_sources : List DataSource) → All IsSound (stream_of fuel data_sources)
  stream_of-IsSound fuel data_sources =
      collect-IsSound lib (broker_scrapes lib certs escape http decoders semp fuel) conf
        data_sources (each_source data_sources)
    where
      each_source :
          (sources : List DataSource)
          → All
              (λ ds.
                AllSent IsSound
                  (dispatch (broker_scrapes lib certs escape http decoders semp fuel) conf ds))
              sources
      each_source [] = tt
      each_source (ds ∷ sources) = (
        broker_scrapes-IsSound lib certs escape http decoders semp fuel conf ds,
        each_source sources,
      )

  -- Whatever the broker answers to the requests, and whether or not the scrapes end, Collect of the
  -- synchronous handler and a scrape of a valid background fetcher over the metrics sent both succeed,
  -- the fetcher stays valid, and both hold under every name exactly the metric sent last under it.
  pub broker_scrape_agrees :
      (fuel : ℕ) (data_sources : List DataSource) (f : AsyncFetcher F)
      → IsValid f
      → (d : MetricMap F) × (f' : AsyncFetcher F) × (distinct_metrics (stream_of fuel data_sources)
          ≡ some d)
        × (read_metrics (stream_of fuel data_sources) f ≡ some f')
        × IsValid f'
        × ((k : String)
            → (lookup k d ≡ latest k (stream_of fuel data_sources))
              × (lookup k f'.metrics ≡ latest k (stream_of fuel data_sources)))
  broker_scrape_agrees fuel data_sources f valid =
      let stream = stream_of fuel data_sources in
      let sound = stream_of-IsSound fuel data_sources in
      let wf = All-IsWellFormed stream sound in
      let (f', p, v, q) = read_metrics_lem stream f wf (All-IsFresh stream sound) valid in
      let (d, e) = distinct_total stream wf in
      (d, f', e, p, v, λ k. (lookup-distinct_metrics k stream e, q k))
