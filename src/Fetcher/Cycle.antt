-- ===== src/Fetcher/Cycle.antt =====
-- What one scrape of the fetcher does to its map.
use mathlib.Core.Option
use solace_prometheus_export.Prelude.{
  String, ◌≡◌, refl, sym, ap, fun_ext, ◌∙◌, Option, none, some, List, [], ◌∷◌, ◌++◌, append_assoc,
  leb, length, Bool-cases, Option-cases, inl, inr, lookup, sift, lookup-modify, lookup-delete_if,
  KeysDistinct, modify-KeysDistinct, delete_if-KeysDistinct, All, append-nil,
}
use solace_prometheus_export.Metric.{PrometheusMetric, deprecate, is_deprecated}
use solace_prometheus_export.Metric.Names.{IsWellFormed}
use solace_prometheus_export.Metric.Merge
use solace_prometheus_export.Metric.Merge.{
  MetricMap, and_then, or_else, latest, lookup-merge, merge-append, merge_total, merge-KeysDistinct,
  IsFresh, latest-IsFresh,
}
use solace_prometheus_export.Fetcher.{
  AsyncFetcher, deprecate_all, merge, delete_deprecated, read_chunks, read_metrics, with_metrics,
  metric_cache_chunk_size,
}

module _ {F : Type 0} where
  with_metrics-and_then :
      (o : Option (MetricMap F)) (ns : List (PrometheusMetric F))
      → and_then (with_metrics o) (merge ns) ≡ with_metrics (and_then o (Merge.merge ns))
  unfolding with_metrics merge
  with_metrics-and_then none ns = refl
  with_metrics-and_then (some m) ns = refl

  pub merge-merge :
      (ms ns : List (PrometheusMetric F)) (f : AsyncFetcher F)
      → and_then (merge ms f) (merge ns) ≡ merge (ms ++ ns) f
  unfolding merge
  merge-merge ms ns f =
      with_metrics-and_then (Merge.merge ms f.metrics) ns
      ∙ ap with_metrics (sym (merge-append ms ns f.metrics))

  -- Merging in chunks is merging all at once.
  read_chunks-eq-merge :
      (cache stream : List (PrometheusMetric F)) (f : AsyncFetcher F)
      → read_chunks cache stream f ≡ merge (cache ++ stream) f
  unfolding read_chunks
  read_chunks-eq-merge cache [] f = rw append-nil
  read_chunks-eq-merge cache (m ∷ stream) f =
      elim (Bool-cases (leb metric_cache_chunk_size (length (cache ++ (m ∷ []))))) [
        | inl e ↦
            rw (e, read_chunks)
              (ap (and_then (merge (cache ++ (m ∷ [])) f))
                  (fun_ext (read_chunks-eq-merge [] stream))
                ∙ merge-merge (cache ++ (m ∷ [])) stream f
                ∙ regroup)
        | inr e ↦ rw (e, read_chunks) (read_chunks-eq-merge (cache ++ (m ∷ [])) stream f ∙ regroup)
      ]
    where
      regroup : merge ((cache ++ (m ∷ [])) ++ stream) f ≡ merge (cache ++ (m ∷ stream)) f
      regroup = ap (λ l. merge l f) (append_assoc cache (m ∷ []) stream)

  -- The loop over the channel is one merge of all that was sent, whatever the chunks.
  pub read_metrics-eq-merge :
      (stream : List (PrometheusMetric F)) (f : AsyncFetcher F)
      → read_metrics stream f
        ≡ and_then (merge stream (deprecate_all f)) (λ f'. some (delete_deprecated f'))
  unfolding read_metrics
  read_metrics-eq-merge stream f =
      ap (λ o. and_then o (λ f'. some (delete_deprecated f')))
        (read_chunks-eq-merge [] stream (deprecate_all f))

  pub merged :
      (ms : List (PrometheusMetric F)) (f : AsyncFetcher F) (metrics : MetricMap F)
      → Merge.merge ms f.metrics ≡ some metrics
      → merge ms f ≡ some (record { metrics = metrics })
  unfolding merge with_metrics
  merged ms f metrics h = rw h

  -- What the sweep leaves under a key: the metric last received, since every older one is marked.
  swept :
      (k : String) (ms : List (PrometheusMetric F)) (old : Option (PrometheusMetric F))
      → All IsFresh ms
      → sift is_deprecated (or_else (latest k ms) (Option.map deprecate old)) ≡ latest k ms
  unfolding deprecate is_deprecated
  swept k ms none h = elim (Option-cases (latest k ms)) [
    | inl e ↦ rw e
    | inr (m, e) ↦ rw e (rw (latest-IsFresh k ms h e))
  ]
  swept k ms (some o) h = elim (Option-cases (latest k ms)) [
    | inl e ↦ rw e
    | inr (m, e) ↦ rw e (rw (latest-IsFresh k ms h e))
  ]

  -- Each name stands once in the map.
  abbrev pub IsValid : AsyncFetcher F → Type 0
  IsValid f = KeysDistinct f.metrics

  -- After a scrape of well-formed and fresh metrics, complete or cut short by a panic, the fetcher
  -- does not panic, its map is valid, and under each name it holds exactly the metric that the scrape
  -- sent last under that name, and nothing that the scrape did not send.
  pub read_metrics_lem :
      (stream : List (PrometheusMetric F)) (f : AsyncFetcher F)
      → All IsWellFormed stream
      → All IsFresh stream
      → IsValid f
      → (f' : AsyncFetcher F) × (read_metrics stream f ≡ some f')
        × IsValid f'
        × ((k : String) → lookup k f'.metrics ≡ latest k stream)
  unfolding deprecate_all delete_deprecated
  read_metrics_lem stream f wf fresh valid =
      let (after, e) = merge_total stream (deprecate_all f).metrics wf in
      let distinct : KeysDistinct after =
        merge-KeysDistinct stream (deprecate_all f).metrics e
          (modify-KeysDistinct deprecate f.metrics valid) in
      (
        delete_deprecated (record { metrics = after }),
        read_metrics-eq-merge stream f
            ∙ ap (λ o. and_then o (λ f'. some (delete_deprecated f'))) (merged stream _ after e),
        delete_if-KeysDistinct is_deprecated after distinct,
        λ k.
            lookup-delete_if k is_deprecated after distinct
            ∙ ap (sift is_deprecated) (
                lookup-merge k stream _ e
                ∙ ap (or_else (latest k stream)) (lookup-modify k deprecate f.metrics))
            ∙ swept k stream (lookup k f.metrics) fresh,
      )
