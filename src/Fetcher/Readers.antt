-- ===== src/Fetcher/Readers.antt =====
-- Scrapes and readers interleaved: every section of asyncFetcher.go that holds the mutex is one step,
-- and a reader (Collect) may see the map between any two of them.
pub mod Ended
use mathlib.Core.Option
use mathlib.Core.Path.{subst}
use solace_prometheus_export.Prelude.{
  ◌<◌, ◌≤◌, String, ◌≡◌, ◌≢◌, refl, sym, ap, ◌∙◌, ◌⊎◌, inl, inr, Option, none, some, List, [], ◌∷◌,
  ◌++◌, append_assoc, append-nil, arith, ◌==◌, eq_iff, if◌then◌else◌, length, lookup, lookup-modify,
  modify, Option-cases,
}
use solace_prometheus_export.Metric.{
  PrometheusMetric, ConstMetric, deprecate, name, as_prometheus_metric,
}
use solace_prometheus_export.Metric.Merge
use solace_prometheus_export.Metric.Merge.{
  MetricMap, and_then, or_else, latest, named_as, lookup-merge, merge-append,
}
use solace_prometheus_export.Fetcher.Cycle.{merge-merge, read_metrics-eq-merge}
use solace_prometheus_export.Fetcher.{
  AsyncFetcher, deprecate_all, merge, delete_deprecated, read_metrics, metric_cache_chunk_size,
  with_metrics,
}

-- Where readMetrics stands: the chunk read so far and what is still to come.
pub data Phase (F : Type 0) : Type 0 where
  idle : Phase F
  reading : List (PrometheusMetric F) → List (PrometheusMetric F) → Phase F
  sweeping : Phase F

pub record Fetching (F : Type 0) : Type 0 where
  pub fetcher : AsyncFetcher F
  pub phase : Phase F

abbrev pub at : {F : Type 0} → AsyncFetcher F → Phase F → Fetching F
at f p = record { fetcher = f; phase = p }

-- The steps of a scrape after DeprecateAll.
pub data Step {F : Type 0} : Fetching F → Fetching F → Type 0 where
  receive :
      (f : AsyncFetcher F) (cache todo : List (PrometheusMetric F)) (m : PrometheusMetric F)
      → length (cache ++ (m ∷ [])) < metric_cache_chunk_size
      → Step (at f (reading cache (m ∷ todo))) (at f (reading (cache ++ (m ∷ [])) todo))
  flush :
      (f g : AsyncFetcher F) (cache todo : List (PrometheusMetric F)) (m : PrometheusMetric F)
      → metric_cache_chunk_size ≤ length (cache ++ (m ∷ []))
      → merge (cache ++ (m ∷ [])) f ≡ some g
      → Step (at f (reading cache (m ∷ todo))) (at g (reading [] todo))
  close :
      (f g : AsyncFetcher F) (cache : List (PrometheusMetric F))
      → merge cache f ≡ some g
      → Step (at f (reading cache [])) (at g sweeping)
  sweep : (f : AsyncFetcher F) → Step (at f sweeping) (at (delete_deprecated f) idle)

-- What a scrape of `stream` over the map of `old` can reach.
pub data Scraping {F : Type 0} (old : AsyncFetcher F) (stream : List (PrometheusMetric F))
    : Fetching F → Type 0 where
  begun : Scraping old stream (at (deprecate_all old) (reading [] stream))
  next : {s u : Fetching F} → Scraping old stream s → Step s u → Scraping old stream u

module _ {F : Type 0} where
  -- The part of the stream that the map holds already.
  pub record Merged (old : AsyncFetcher F) (stream rest : List (PrometheusMetric F))
      (f : AsyncFetcher F) : Type 0 where
    pub done : List (PrometheusMetric F)
    pub split : done ++ rest ≡ stream
    pub holds : merge done (deprecate_all old) ≡ some f

  abbrev pub Progress :
      AsyncFetcher F → List (PrometheusMetric F) → AsyncFetcher F → Phase F → Type 0
  Progress old stream f (reading cache todo) = Merged old stream (cache ++ todo) f
  Progress old stream f sweeping = Merged old stream [] f
  Progress old stream f idle =
      (g : AsyncFetcher F) × Merged old stream [] g × (f ≡ delete_deprecated g)

  merge-nil : (f : AsyncFetcher F) → merge [] f ≡ some f
  unfolding merge Merge.merge with_metrics
  merge-nil f = refl

  merge_more :
      (ms ns : List (PrometheusMetric F)) (f : AsyncFetcher F) {g h : AsyncFetcher F}
      → merge ms f ≡ some g
      → merge ns g ≡ some h
      → merge (ms ++ ns) f ≡ some h
  merge_more ms ns f p q = sym (merge-merge ms ns f) ∙ ap (λ o. and_then o (merge ns)) p ∙ q

  Step-Progress :
      (old : AsyncFetcher F) (stream : List (PrometheusMetric F)) {s u : Fetching F}
      → Step s u
      → Progress old stream s.fetcher s.phase
      → Progress old stream u.fetcher u.phase
  Step-Progress old stream (receive f cache todo m h) p = record {
    done = p.done;
    split = ap (λ l. p.done ++ l) (append_assoc cache (m ∷ []) todo) ∙ p.split;
    holds = p.holds;
  }
  Step-Progress old stream (flush f g cache todo m h e) p = record {
    done = p.done ++ (cache ++ (m ∷ []));
    split =
        append_assoc p.done (cache ++ (m ∷ [])) todo
        ∙ ap (λ l. p.done ++ l) (append_assoc cache (m ∷ []) todo)
        ∙ p.split;
    holds = merge_more p.done (cache ++ (m ∷ [])) (deprecate_all old) p.holds e;
  }
  Step-Progress old stream (close f g cache e) p = record {
    done = p.done ++ cache;
    split = append_assoc p.done cache [] ∙ p.split;
    holds = merge_more p.done cache (deprecate_all old) p.holds e;
  }
  Step-Progress old stream (sweep f) p = (f, p, refl)

  Scraping-Progress :
      (old : AsyncFetcher F) (stream : List (PrometheusMetric F)) {s : Fetching F}
      → Scraping old stream s
      → Progress old stream s.fetcher s.phase
  Scraping-Progress old stream begun = record {
    done = [];
    split = refl;
    holds = merge-nil (deprecate_all old);
  }
  Scraping-Progress old stream (next r st) =
      Step-Progress old stream st (Scraping-Progress old stream r)

  -- `Sent m ms`: the metric is one of those.
  abbrev pub Sent : PrometheusMetric F → List (PrometheusMetric F) → Type 0
  Sent m [] = ⊥
  Sent m (n ∷ ms) = (n ≡ m) ⊎ Sent m ms

  Sent-append :
      (m : PrometheusMetric F) (ms ns : List (PrometheusMetric F)) → Sent m ms → Sent m (ms ++ ns)
  Sent-append m [] ns h = absurd h
  Sent-append m (n ∷ ms) ns (inl e) = inl e
  Sent-append m (n ∷ ms) ns (inr h) = inr (Sent-append m ms ns h)

  some_eq : {a b : PrometheusMetric F} → some a ≡ some b → a ≡ b
  some_eq h = cc

  own_name :
      (k : String) (n m : PrometheusMetric F)
      → (if named_as k (name n) then some n else none) ≡ some m
      → (name m ≡ some k) × (n ≡ m)
  own_name k n m h = elim (Option-cases (name n)) [
    | inl e ↦ absurd (none_some (rw e at h))
    | inr (x, e) ↦ ground (arith, eq_iff x k, ap name (same_of x (rw e at h)))
  ]
    where
      none_some : ◌≡◌ {A = Option (PrometheusMetric F)} none (some m) → ⊥
      none_some p = cc

      same_of : (x : String) → (if x == k then some n else none) ≡ some m → n ≡ m
      same_of x p = ground arith

  latest-Sent :
      (k : String) (ms : List (PrometheusMetric F)) (m : PrometheusMetric F)
      → latest k ms ≡ some m
      → (name m ≡ some k) × Sent m ms
  unfolding latest
  latest-Sent k [] m h = absurd (cc)
  latest-Sent k (n ∷ ms) m h = elim (Option-cases (latest k ms)) [
    | inl e ↦ let (p, q) = own_name k n m (rw e at h) in (p, inl q)
    | inr (x, e) ↦
        let same : x ≡ m = some_eq (rw e at h) in
        let (p, q) = latest-Sent k ms m (e ∙ ap some same) in (p, inr q)
  ]

  -- What a reader sees under a name.
  unfoldable pub shown : String → AsyncFetcher F → Option (ConstMetric F)
  shown k f = Option.map as_prometheus_metric (lookup k f.metrics)

  shown-deprecate :
      (o : Option (PrometheusMetric F))
      → Option.map as_prometheus_metric (Option.map deprecate o) ≡ Option.map as_prometheus_metric o
  unfolding as_prometheus_metric deprecate
  shown-deprecate none = refl
  shown-deprecate (some m) = refl

  -- One of the metrics of the stream, shown under its own name.
  abbrev pub FromStream : String → List (PrometheusMetric F) → AsyncFetcher F → Type 0
  FromStream k stream f =
      (m : PrometheusMetric F) × (shown k f ≡ some (as_prometheus_metric m))
      × (name m ≡ some k)
      × Sent m stream

  with_metrics-eq-some :
      (o : Option (MetricMap F)) (f : AsyncFetcher F) → with_metrics o ≡ some f → o ≡ some f.metrics
  unfolding with_metrics
  with_metrics-eq-some none f h = absurd (cc)
  with_metrics-eq-some (some m) f h = ap (Option.map (λ (g : AsyncFetcher F). g.metrics)) h

  lookup-merge_fetcher :
      (k : String) (ms : List (PrometheusMetric F)) (old f : AsyncFetcher F)
      → merge ms (deprecate_all old) ≡ some f
      → lookup k f.metrics ≡ or_else (latest k ms) (Option.map deprecate (lookup k old.metrics))
  unfolding merge deprecate_all
  lookup-merge_fetcher k ms old f h =
      lookup-merge k ms (modify deprecate old.metrics) (with_metrics-eq-some _ f h)
      ∙ ap (or_else (latest k ms)) (lookup-modify k deprecate old.metrics)

  Merged-shown :
      (k : String) (old : AsyncFetcher F) (stream rest : List (PrometheusMetric F))
      (f : AsyncFetcher F)
      → Merged old stream rest f
      → (shown k f ≡ shown k old) ⊎ FromStream k stream f
  unfolding shown
  Merged-shown k old stream rest f p = elim (Option-cases (latest k p.done)) [
    | inl e ↦ inl (
        ap (Option.map as_prometheus_metric) (
          lookup-merge_fetcher k p.done old f p.holds
          ∙ ap (λ o. or_else o (Option.map deprecate (lookup k old.metrics))) e)
        ∙ shown-deprecate (lookup k old.metrics))
    | inr (m, e) ↦
        let (q, r) = latest-Sent k p.done m e in
        inr (
          m,
          ap (Option.map as_prometheus_metric) (
              lookup-merge_fetcher k p.done old f p.holds
              ∙ ap (λ o. or_else o (Option.map deprecate (lookup k old.metrics))) e),
          q,
          subst (Sent m) p.split (Sent-append m p.done rest r),
        )
  ]

  -- While a scrape runs, and until its sweep, a reader sees under each name either what the map showed
  -- before the scrape or a metric of that name that this scrape has sent.
  pub reader_sees :
      (old : AsyncFetcher F) (stream : List (PrometheusMetric F)) {s : Fetching F}
      → Scraping old stream s
      → s.phase ≢ idle
      → (k : String) → (shown k s.fetcher ≡ shown k old) ⊎ FromStream k stream s.fetcher
  reader_sees old stream {s = s} r busy k = seen s.phase (Scraping-Progress old stream r) busy
    where
      seen :
          (ph : Phase F)
          → Progress old stream s.fetcher ph
          → ph ≢ idle
          → (shown k s.fetcher ≡ shown k old) ⊎ FromStream k stream s.fetcher
      seen idle p b = absurd (b refl)
      seen (reading cache todo) p b = Merged-shown k old stream (cache ++ todo) s.fetcher p
      seen sweeping p b = Merged-shown k old stream [] s.fetcher p

  Merged-done :
      (old : AsyncFetcher F) (stream : List (PrometheusMetric F)) (g : AsyncFetcher F)
      → Merged old stream [] g
      → merge stream (deprecate_all old) ≡ some g
  Merged-done old stream g p =
      ap (λ l. merge l (deprecate_all old)) (sym p.split ∙ append-nil p.done) ∙ p.holds

  -- A scrape that runs to its end leaves the map that readMetrics computes.
  pub Scraping-read_metrics :
      (old : AsyncFetcher F) (stream : List (PrometheusMetric F)) {s : Fetching F}
      → Scraping old stream s
      → s.phase ≡ idle
      → read_metrics stream old ≡ some s.fetcher
  Scraping-read_metrics old stream {s = s} r h =
      let (g, p, e) = subst (Progress old stream s.fetcher) h (Scraping-Progress old stream r) in
      read_metrics-eq-merge stream old
      ∙ ap (λ o. and_then o (λ f'. some (delete_deprecated f'))) (Merged-done old stream g p)
      ∙ ap some (sym e)
