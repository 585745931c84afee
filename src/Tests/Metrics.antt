-- ===== src/Tests/Metrics.antt =====
-- Tests of the metrics, the fetcher and the collector.
use solace_prometheus_export.Prelude.{
  ℕ, suc, ◌≡◌, refl, ◌≢◌, String, true, some, [], ◌∷◌, ◌++◌, ◌⊎◌, inl, lookup, insert, modify,
  arith,
}
use solace_prometheus_export.Prelude.Int.{pos, negsuc}
use solace_prometheus_export.Text.{contains, join}
use solace_prometheus_export.Metric.{PrometheusMetric, name, label_strings, deprecate}
use solace_prometheus_export.Metric.Names.{name_injective}
use solace_prometheus_export.Metric.Run.{pure}
use solace_prometheus_export.Metric.Merge.{MetricMap, latest}
use solace_prometheus_export.Metric.Encode.{
  encode_metric_multi, encode_metric_multi_cases, FirstAt, Nowhere,
}
use solace_prometheus_export.Fetcher.{
  AsyncFetcher, deprecate_all, delete_deprecated, merge, read_metrics,
}
use solace_prometheus_export.Fetcher.Cycle.{IsValid, read_metrics_lem}
use solace_prometheus_export.Fetcher.Readers.{
  FromStream, Scraping, Phase, at, shown, next, begun, receive, close, sweep, reader_sees,
}
use solace_prometheus_export.Collector.{collect_prometheus_metric, distinct_metrics}
use solace_prometheus_export.Collector.Dispatch.{
  dispatch, platform, kind_of, kind_names, refused, scope_error,
}
use solace_prometheus_export.Collector.Gates.{dispatch-refused, client_message_spool_stats_filter}
use solace_prometheus_export.Collector.Report.{collect_stops}
use solace_prometheus_export.Collector.Agree.{collect_agrees}
use solace_prometheus_export.Prelude.Int.{negsuc}
use solace_prometheus_export.Text.{valid_string}
use solace_prometheus_export.Collector.Up.{Reports, collect_up, up_metric}
use solace_prometheus_export.Fetcher.Readers.Ended.{HoldsLast, Scraping-HoldsLast, run_to_end}
use solace_prometheus_export.Tests.Data.{depth, lib, old, scrapes, software, stream, target}

read_metrics_example :
    (f' : AsyncFetcher ℕ) × (read_metrics stream old ≡ some f')
    × IsValid f'
    × ((k : String) → lookup k f'.metrics ≡ latest k stream)
read_metrics_example =
    read_metrics_lem stream old (refl, (refl, (refl, tt))) (refl, (refl, (refl, tt))) (tt, tt)

collect_agrees_example :
    (d : MetricMap ℕ) × (f' : AsyncFetcher ℕ) × (distinct_metrics stream ≡ some d)
    × (read_metrics stream old ≡ some f')
    × ((k : String) → lookup k d ≡ lookup k f'.metrics)
collect_agrees_example =
    collect_agrees stream old (refl, (refl, (refl, tt))) (refl, (refl, (refl, tt))) (tt, tt)

-- The map of the old fetcher and the queue `a`, before the sweep.
abbrev before_sweep : AsyncFetcher ℕ
before_sweep = record {
  metrics =
      ("gone", record (depth "gone" 7) { deprecated = true })
      ∷ ("solace_queue_depth{vpn_name=\"default\",queue_name=\"a\"}", depth "a" 1)
      ∷ [];
}

read_a : Scraping old (depth "a" 1 ∷ []) (at before_sweep Phase.sweeping)
unfolding deprecate_all merge solace_prometheus_export.Metric.Merge.merge name label_strings join
    insert modify deprecate
read_a =
    next (next begun (receive (deprecate_all old) [] [] (depth "a" 1) (omega arith)))
      (close (deprecate_all old) before_sweep (depth "a" 1 ∷ []) refl)

sweeping_is_busy : ◌≢◌ {A = Phase ℕ} Phase.sweeping Phase.idle
sweeping_is_busy h = cc

reader_sees_example :
    (shown "gone" before_sweep ≡ shown "gone" old)
    ⊎ FromStream "gone" (depth "a" 1 ∷ []) before_sweep
reader_sees_example = reader_sees old (depth "a" 1 ∷ []) read_a sweeping_is_busy "gone"

Scraping-HoldsLast_example : HoldsLast old (depth "a" 1 ∷ []) (delete_deprecated before_sweep)
Scraping-HoldsLast_example =
    Scraping-HoldsLast old (depth "a" 1 ∷ []) (refl, tt) (refl, tt) (tt, tt)
      (next read_a (sweep before_sweep)) refl

run_to_end_example :
    (f : AsyncFetcher ℕ) × Scraping old stream (at f Phase.idle) × HoldsLast old stream f
run_to_end_example =
    run_to_end old stream (refl, (refl, (refl, tt))) (refl, (refl, (refl, tt))) (tt, tt)

collect_stops_example :
    collect_prometheus_metric lib scrapes software
      ((target "Version" ∷ []) ++ (target "QueueStats" ∷ target "Spool" ∷ []))
    ≡ collect_prometheus_metric lib scrapes software
        ((target "Version" ∷ []) ++ (target "QueueStats" ∷ []))
unfolding dispatch platform kind_of kind_names
collect_stops_example =
    collect_stops lib scrapes software (target "Version" ∷ []) (target "QueueStats")
      (target "Spool" ∷ []) 0 (some "no route to host") refl

dispatch-refused_example :
    dispatch scrapes software (target "Disk") ≡ refused (scope_error "Hardware only" "Disk")
dispatch-refused_example =
    dispatch-refused scrapes software (target "Disk") "Hardware only" (inl (inl refl, refl, refl))

name_injective_example : (depth "a" 1).label_values ≡ (depth "a" 3).label_values
unfolding contains name
name_injective_example =
    name_injective (depth "a" 1) (depth "a" 3) refl refl refl (refl, (refl, tt)) (refl, (refl, tt))
      refl

encode_metric_multi_example :
    ((n : ℕ) × (encode_metric_multi "up" ("Down" ∷ "Up" ∷ "-" ∷ []) ≡ pos n)
      × FirstAt "up" ("Down" ∷ "Up" ∷ "-" ∷ []) n)
    ⊎ ((encode_metric_multi "up" ("Down" ∷ "Up" ∷ "-" ∷ []) ≡ negsuc 0)
        × Nowhere "up" ("Down" ∷ "Up" ∷ "-" ∷ []))
encode_metric_multi_example = encode_metric_multi_cases "up" ("Down" ∷ "Up" ∷ "-" ∷ [])

client_message_spool_stats_example :
    (dispatch scrapes software (record (target "ClientMessageSpoolStats") { item_filter = "c*" })
      ≡ dispatch scrapes software (target "ClientMessageSpoolStats"))
    × (dispatch scrapes software (target "ClientMessageSpoolStats")
        ≡ scrapes.get_client_message_spool_stats_semp1 "*" (pos 100))
client_message_spool_stats_example =
    client_message_spool_stats_filter scrapes software (target "ClientMessageSpoolStats") "c*"
      (inl refl)

-- The scrape of the queues finds no broker.
collect_up_example :
    ((n : ℕ) × (negsuc 0 ≡ pos (suc n))
      × Reports lib scrapes software
          (target "QueueStats")
          (up_metric lib (pos 1) "" "QueueStats")
          (collect_prometheus_metric lib scrapes software (target "Version" ∷ []))
          (collect_prometheus_metric lib scrapes software
            (target "QueueStats" ∷ target "Version" ∷ [])))
    ⊎ ((negsuc 0 ≡ pos 0)
        × Reports lib scrapes software
            (target "QueueStats")
            (up_metric lib (pos 0) "no route to host" "QueueStats")
            (collect_prometheus_metric lib scrapes software (target "Version" ∷ []))
            (collect_prometheus_metric lib scrapes software
              (target "QueueStats" ∷ target "Version" ∷ [])))
    ⊎ ((n : ℕ) × (negsuc 0 ≡ negsuc n)
        × Reports lib scrapes software
            (target "QueueStats")
            (up_metric lib (pos 0) "no route to host" "global")
            (pure tt)
            (collect_prometheus_metric lib scrapes software
              (target "QueueStats" ∷ target "Version" ∷ [])))
unfolding dispatch platform kind_of kind_names valid_string
collect_up_example =
    collect_up lib scrapes software (target "QueueStats") (target "Version" ∷ []) (negsuc 0)
      (some "no route to host") refl refl refl
