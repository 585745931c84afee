-- ===== src/Metric/Merge.antt =====
-- Maps of metrics by name, filled in the order of arrival: the loop of AsyncFetcher.Merge and the map
-- `distinctMetrics` of Exporter.Collect. `none` is the panic of Name on a metric with too few values.
use mathlib.Core.Path.{subst}
use solace_prometheus_export.Prelude.{
  String, ◌≡◌, refl, sym, ap, ◌∙◌, Option-cases, inl, inr, Bool, false, Option, none, some, List,
  [], ◌∷◌, ◌++◌, arith, ◌==◌, if◌then◌else◌, lookup, insert, lookup-insert, KeysDistinct,
  insert-KeysDistinct, All,
}
use solace_prometheus_export.Metric.{PrometheusMetric, name}
use solace_prometheus_export.Metric.Names.{IsWellFormed, name_total}

abbrev pub MetricMap : Type 0 → Type 0
MetricMap F = List (String × PrometheusMetric F)

abbrev pub named_as : String → Option String → Bool
named_as k none = false
named_as k (some n) = n == k

-- What follows a merge that may have panicked.
abbrev pub and_then {ℓ κ} : {A : Type ℓ} {B : Type κ} → Option A → (A → Option B) → Option B
and_then none k = none
and_then (some a) k = k a

nothing_found : {A : Type 0} {a : A} → none ≡ some a → ⊥
nothing_found h = cc

some_eq : {A : Type 0} {a b : A} → some a ≡ some b → a ≡ b
some_eq h = cc

module _ {F : Type 0} where
  abbrev pub or_else :
      Option (PrometheusMetric F) → Option (PrometheusMetric F) → Option (PrometheusMetric F)
  or_else (some m) o = some m
  or_else none o = o

  -- for _, metric := range cache { metrics[metric.Name()] = metric }
  unfoldable pub merge : List (PrometheusMetric F) → MetricMap F → Option (MetricMap F)
  merge [] metrics = some metrics
  merge (m ∷ cache) metrics = elim (name m) [
    | none ↦ none
    | some n ↦ merge cache (insert n m metrics)
  ]

  -- The last metric of that name.
  unfoldable pub latest : String → List (PrometheusMetric F) → Option (PrometheusMetric F)
  latest k [] = none
  latest k (m ∷ ms) = or_else (latest k ms) (if named_as k (name m) then some m else none)

  or_else_assoc :
      (a b c : Option (PrometheusMetric F)) → or_else (or_else a b) c ≡ or_else a (or_else b c)
  or_else_assoc none b c = refl
  or_else_assoc (some m) b c = refl

  merge_step :
      (k n : String) (m : PrometheusMetric F) (metrics : MetricMap F)
      → name m ≡ some n
      → lookup k (insert n m metrics)
        ≡ or_else (if named_as k (name m) then some m else none) (lookup k metrics)
  merge_step k n m metrics h = rw (h, lookup-insert) (ground arith)

  merge-cons :
      (m : PrometheusMetric F) (ms : List (PrometheusMetric F)) (metrics : MetricMap F)
      {after : MetricMap F}
      → merge (m ∷ ms) metrics ≡ some after
      → (n : String) × (name m ≡ some n) × (merge ms (insert n m metrics) ≡ some after)
  unfolding merge
  merge-cons m ms metrics h = elim (Option-cases (name m)) [
    | inl e ↦ absurd (nothing_found (rw (e, merge) at h))
    | inr (n, e) ↦ (n, e, rw (e, merge) at h)
  ]

  -- What the map holds after a merge: the last merged metric of the name, else what it held.
  pub lookup-merge :
      (k : String) (ms : List (PrometheusMetric F)) (metrics : MetricMap F) {after : MetricMap F}
      → merge ms metrics ≡ some after
      → lookup k after ≡ or_else (latest k ms) (lookup k metrics)
  unfolding merge latest
  lookup-merge k [] metrics h = ground arith
  lookup-merge k (m ∷ ms) metrics h =
      let (n, e, p) = merge-cons m ms metrics h in
      lookup-merge k ms (insert n m metrics) p
      ∙ ap (or_else (latest k ms)) (merge_step k n m metrics e)
      ∙ sym (or_else_assoc (latest k ms) _ _)

  merge-cons-append :
      (m : PrometheusMetric F) (ms ns : List (PrometheusMetric F)) (metrics : MetricMap F)
      → ((n : String)
          → merge (ms ++ ns) (insert n m metrics)
            ≡ and_then (merge ms (insert n m metrics)) (merge ns))
      → merge (m ∷ (ms ++ ns)) metrics ≡ and_then (merge (m ∷ ms) metrics) (merge ns)
  unfolding merge
  merge-cons-append m ms ns metrics h = elim (Option-cases (name m)) [
    | inl e ↦ rw (e, merge)
    | inr (n, e) ↦ rw (e, merge) (h n)
  ]

  pub merge-append :
      (ms ns : List (PrometheusMetric F)) (metrics : MetricMap F)
      → merge (ms ++ ns) metrics ≡ and_then (merge ms metrics) (merge ns)
  merge-append [] ns metrics = unfold merge in refl
  merge-append (m ∷ ms) ns metrics =
      merge-cons-append m ms ns metrics (λ n. merge-append ms ns (insert n m metrics))

  -- Merging well-formed metrics never panics.
  pub merge_total :
      (ms : List (PrometheusMetric F)) (metrics : MetricMap F)
      → All IsWellFormed ms
      → (after : MetricMap F) × (merge ms metrics ≡ some after)
  unfolding merge
  merge_total [] metrics h = (metrics, refl)
  merge_total (m ∷ ms) metrics h =
      let (n, e) = name_total m h.0 in
      let (after, p) = merge_total ms (insert n m metrics) h.1 in (after, rw (e, merge) p)

  pub merge-KeysDistinct :
      (ms : List (PrometheusMetric F)) (metrics : MetricMap F) {after : MetricMap F}
      → merge ms metrics ≡ some after
      → KeysDistinct metrics
      → KeysDistinct after
  unfolding merge
  merge-KeysDistinct [] metrics h d = subst KeysDistinct (some_eq h) d
  merge-KeysDistinct (m ∷ ms) metrics h d =
      let (n, e, p) = merge-cons m ms metrics h in
      merge-KeysDistinct ms (insert n m metrics) p (insert-KeysDistinct n m metrics d)

  abbrev pub IsFresh : PrometheusMetric F → Type 0
  IsFresh m = m.deprecated ≡ false

  pub latest-IsFresh :
      (k : String) (ms : List (PrometheusMetric F)) {m : PrometheusMetric F}
      → All IsFresh ms
      → latest k ms ≡ some m
      → IsFresh m
  unfolding latest
  latest-IsFresh k [] h e = cc
  latest-IsFresh k (n ∷ ms) {m} h e = ground (arith, latest-IsFresh k ms {m = m} h.1)
