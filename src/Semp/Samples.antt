-- ===== src/Semp/Samples.antt =====
-- The metrics that a scrape sends: `ch <- semp.NewMetric(MetricDesc[group][key], type, value, labels…)`.
use solace_prometheus_export.Prelude.{
  ℕ, String, Bool, true, false, ◌≡◌, refl, ap, suc, Option, none, some, List, [], ◌∷◌, eqb, all,
  length, All,
}
use solace_prometheus_export.Text.{valid_string}
use solace_prometheus_export.Metric.{
  Desc, ValueType, PrometheusMetric, new_metric, validate_label_values,
}
use solace_prometheus_export.Metric.Names.{IsWellFormed, new_metric-IsWellFormed}
use solace_prometheus_export.Metric.Merge.{IsFresh}
use solace_prometheus_export.Metric.Run.{
  Run, done, pure, send_new, ◌>>=◌, ◌>>◌, AllSent, AllSent-bind,
}
use solace_prometheus_export.Metric.Table.{find_desc}

pub record Sample (F : Type 0) : Type 0 where
  pub group : String
  pub key : String
  pub value_type : ValueType
  pub value : F
  pub label_values : List String

-- The descriptor is there and has as many labels as the sample has values.
abbrev pub has_labels : Option Desc → ℕ → Bool
has_labels none n = false
has_labels (some desc) n = eqb n (length desc.variable_labels)

abbrev pub sample : {F : Type 0} → String → String → ValueType → F → List String → Sample F
sample group key value_type value label_values = record {
  group = group;
  key = key;
  value_type = value_type;
  value = value;
  label_values = label_values;
}

module _ {F : Type 0} where
  -- A missing key is a nil descriptor, which NewMetric reads.
  abbrev pub new_metric_of : Option Desc → ValueType → F → List String → Option (PrometheusMetric F)
  new_metric_of none t v labels = none
  new_metric_of (some desc) t v labels = new_metric desc t v labels

  unfoldable pub send_sample : Sample F → Run F (Unit {0})
  send_sample s =
      send_new (new_metric_of (find_desc s.group s.key) s.value_type s.value s.label_values)

  unfoldable pub send_all : List (Sample F) → Run F (Unit {0})
  send_all [] = pure tt
  send_all (s ∷ samples) = send_sample s >> send_all samples

  unfoldable pub fits : Sample F → Bool
  fits s = has_labels (find_desc s.group s.key) (length s.label_values)

  -- Every label value is UTF-8.
  abbrev pub HasValidLabels : Sample F → Type 0
  HasValidLabels s = all valid_string s.label_values ≡ true

  send_new-done :
      (d : Option Desc) (t : ValueType) (v : F) (labels : List String)
      → has_labels d (length labels) ≡ true
      → all valid_string labels ≡ true
      → (m : PrometheusMetric F) × (send_new (new_metric_of d t v labels)
          ≡ record { sent = m ∷ []; result = done tt })
  unfolding new_metric validate_label_values
  send_new-done none t v labels h k = absurd (not_false h)
    where
      not_false : false ≡ true → ⊥
      not_false p = cc
  send_new-done (some d) t v labels h k = (
    record { desc = d; value_type = t; value = v; label_values = labels; deprecated = false },
    rw (h, k),
  )

  -- Samples that fit the table and whose labels are UTF-8 are all sent: no panic.
  pub send_all-done :
      (samples : List (Sample F))
      → All (λ s. fits s ≡ true) samples
      → All HasValidLabels samples
      → ((send_all samples).result ≡ done tt) × (length (send_all samples).sent ≡ length samples)
  unfolding send_all send_sample fits ◌>>=◌
  send_all-done [] h k = (refl, refl)
  send_all-done (s ∷ samples) h k =
      let (m, e) =
        send_new-done (find_desc s.group s.key) s.value_type s.value s.label_values h.0 k.0 in
      let (p, q) = send_all-done samples h.1 k.1 in (rw e p, rw e (ap suc q))

  -- Whatever is sent is well-formed and fresh.
  abbrev pub IsSound : PrometheusMetric F → Type 0
  IsSound m = IsWellFormed m × IsFresh m

  send_new-IsSound :
      (d : Option Desc) (t : ValueType) (v : F) (labels : List String)
      → AllSent IsSound (send_new (new_metric_of d t v labels))
  send_new-IsSound none t v labels = tt
  send_new-IsSound (some d) t v labels = sound_of (new_metric d t v labels) refl
    where
      sound_of :
          (o : Option (PrometheusMetric F))
          → new_metric d t v labels ≡ o
          → AllSent IsSound (send_new o)
      sound_of none e = tt
      sound_of (some m) e =
          let (p, q, r, s) = new_metric-IsWellFormed d t v labels m e in ((s, r), tt)

  pub send_sample-IsSound : (s : Sample F) → AllSent IsSound (send_sample s)
  unfolding send_sample
  send_sample-IsSound s =
      send_new-IsSound (find_desc s.group s.key) s.value_type s.value s.label_values

  pub send_all-IsSound : (samples : List (Sample F)) → AllSent IsSound (send_all samples)
  unfolding send_all
  send_all-IsSound [] = tt
  send_all-IsSound (s ∷ samples) =
      AllSent-bind IsSound (send_sample s) (λ _. send_all samples) (send_sample-IsSound s)
        (λ _. send_all-IsSound samples)
