-- ===== src/Fetcher/Readers/Ended.antt =====
-- Scrapes of asyncFetcher.go that run to their end, step by step.
use solace_prometheus_export.Prelude.{
  String, ◌≡◌, refl, sym, ◌∙◌, Bool-cases, inl, inr, some, List, [], ◌∷◌, ◌++◌, All, All-append,
  leb, lookup, length, arith,
}
use mathlib.Core.Path.{subst}
use solace_prometheus_export.Metric.{PrometheusMetric}
use solace_prometheus_export.Metric.Names.{IsWellFormed}
use solace_prometheus_export.Metric.Merge.{IsFresh, latest, merge_total}
use solace_prometheus_export.Fetcher.{AsyncFetcher, metric_cache_chunk_size, delete_deprecated}
use solace_prometheus_export.Fetcher.Cycle.{IsValid, merged, read_metrics_lem}
use solace_prometheus_export.Fetcher.Readers.{
  Fetching, Scraping, at, begun, close, flush, idle, next, reading, receive, sweep,
  Scraping-read_metrics,
}

module _ {F : Type 0} (old : AsyncFetcher F) (stream : List (PrometheusMetric F)) where
  -- The map is valid, and under each name stands the metric that was sent last under it, and nothing
  -- under a name that was not sent.
  abbrev pub HoldsLast : AsyncFetcher F → Type 0
  HoldsLast f = IsValid f × ((k : String) → lookup k f.metrics ≡ latest k stream)

  some_eq : (f g : AsyncFetcher F) → some f ≡ some g → f ≡ g
  some_eq f g h = cc

  -- However its steps were taken, a scrape of well-formed and fresh metrics that has run to its end has
  -- left a valid map that holds exactly the metric sent last under each name.
  pub Scraping-HoldsLast :
      {s : Fetching F}
      → All IsWellFormed stream
      → All IsFresh stream
      → IsValid old
      → Scraping old stream s
      → s.phase ≡ idle
      → HoldsLast s.fetcher
  Scraping-HoldsLast {s = s} wf fresh valid r h =
      let (f, e, v, l) = read_metrics_lem stream old wf fresh valid in
      subst HoldsLast (some_eq f s.fetcher (sym e ∙ Scraping-read_metrics old stream r h)) (v, l)

  reaches_end :
      (cache todo : List (PrometheusMetric F)) (f : AsyncFetcher F)
      → All IsWellFormed cache
      → All IsWellFormed todo
      → Scraping old stream (at f (reading cache todo))
      → (f' : AsyncFetcher F) × Scraping old stream (at f' idle)
  reaches_end cache [] f c t r =
      let (after, e) = merge_total cache f.metrics c in
      let g : AsyncFetcher F = record { metrics = after } in
      (delete_deprecated g, next (next r (close f g cache (merged cache f after e))) (sweep g))
  reaches_end cache (m ∷ todo) f c t r =
      let more = All-append IsWellFormed cache (m ∷ []) c (t.0, tt) in
      elim (Bool-cases (leb metric_cache_chunk_size (length (cache ++ (m ∷ []))))) [
        | inl e ↦
            let (after, p) = merge_total (cache ++ (m ∷ [])) f.metrics more in
            let g : AsyncFetcher F = record { metrics = after } in
            reaches_end [] todo g tt t.1 (
              next r (flush f g cache todo m (ground arith) (merged (cache ++ (m ∷ [])) f after p)))
        | inr e ↦
            reaches_end (cache ++ (m ∷ [])) todo f more t.1
              (next r (receive f cache todo m (ground arith)))
      ]

  -- From its first step, a scrape of well-formed and fresh metrics can run to its end, and it then
  -- leaves a valid map that holds exactly the metric sent last under each name.
  pub run_to_end :
      All IsWellFormed stream
      → All IsFresh stream
      → IsValid old
      → (f : AsyncFetcher F) × Scraping old stream (at f idle) × HoldsLast f
  run_to_end wf fresh valid =
      let (f, r) = reaches_end [] stream _ tt wf begun in
      (f, r, Scraping-HoldsLast wf fresh valid r refl)
