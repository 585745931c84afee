-- ===== src/Semp/V2/Selected.antt =====
-- What the scrape over SEMP v2 sends, and what it does with a filter of metrics that is not valid.
use solace_prometheus_export.Prelude.{
  ℕ, String, ◌≡◌, ◌≢◌, refl, all, false, ap, ◌∙◌, true, Option, none, some, List, [], ◌∷◌,
  Bool-cases, inl, inr,
}
use solace_prometheus_export.Prelude.Int.{pos}
use solace_prometheus_export.Prelude.Result.{Result, ok}
use solace_prometheus_export.Metric.{Desc, PrometheusMetric, ValueType, new_metric}
use solace_prometheus_export.Metric.Names.{new_metric-IsWellFormed}
use solace_prometheus_export.Metric.Run.{pure, send_new, AllSent, AllSent-bind}
use solace_prometheus_export.Metric.Select.{
  contains, get_semp_v2_field_map_list, get_semp_v2_fields_to_select, is_selected,
}
use solace_prometheus_export.Metric.Select.Valid.{
  Among, Refuses, contains-Among, get_semp_v2_fields_to_select-mandatory, is_valid_item,
  map_items-refused,
}
use solace_prometheus_export.Metric.Table.{find_desc, queue_stats_descriptions}
use solace_prometheus_export.Semp.{Http, Semp}
use solace_prometheus_export.Semp.Samples.{Sample, send_sample, send_all, new_metric_of}
use solace_prometheus_export.Semp.Sound.{loop_pages-AllSent, distinct_items-AllSent}
use solace_prometheus_export.Semp.V2.{
  Response, select_fields, select_samples, is_sample_selected, v2_values, read_page_v2,
  get_queue_stats_semp2, get_queue_stats_semp2_key, get_queue_stats_semp2_samples, selected,
  invalid_item,
}

-- The fields to select are not none, since they hold the mandatory ones.
select_fields_cons :
    (metric : String) (metric_filter fields : List String)
    → select_fields (metric ∷ metric_filter) ≡ ok fields
    → fields ≢ []
unfolding select_fields contains
select_fields_cons metric metric_filter fields h e =
    let mandatory =
      (get_semp_v2_fields_to_select-mandatory (metric ∷ metric_filter)
        ("queueName" ∷ "msgVpnName" ∷ []) queue_stats_descriptions fields h).0 in
    let k = (rw e at mandatory) in cc

is_selected-Among :
    (desc : Desc) (fields : List String)
    → fields ≢ []
    → is_selected desc fields ≡ true
    → Among desc.semp_v2_field fields
unfolding is_selected
is_selected-Among desc [] n h = absurd (n refl)
is_selected-Among desc (f ∷ fields) n h = contains-Among (f ∷ fields) desc.semp_v2_field h

-- The SEMP v2 field of the metric is among these.
abbrev pub IsSelected : {F : Type 0} → List String → PrometheusMetric F → Type 0
IsSelected fields m = Among m.desc.semp_v2_field fields

module _ {F : Type 0} (fields : List String) (some_field : fields ≢ []) where
  send_new-IsSelected :
      (d : Desc) (t : ValueType) (v : F) (labels : List String)
      → is_selected d fields ≡ true
      → AllSent (IsSelected fields) (send_new (new_metric d t v labels))
  send_new-IsSelected d t v labels h = selected_of (new_metric d t v labels) refl
    where
      selected_of :
          (o : Option (PrometheusMetric F))
          → new_metric d t v labels ≡ o
          → AllSent (IsSelected fields) (send_new o)
      selected_of none e = tt
      selected_of (some m) e =
          let (p, q, r, s) = new_metric-IsWellFormed d t v labels m e in
          (is_selected-Among m.desc fields some_field (ap (λ x. is_selected x fields) p ∙ h), tt)

  send_found-IsSelected :
      (d : Option Desc) (s : Sample F)
      → selected fields d ≡ true
      → AllSent (IsSelected fields) (send_new (new_metric_of d s.value_type s.value s.label_values))
  send_found-IsSelected none s h = tt
  send_found-IsSelected (some d) s h = send_new-IsSelected d s.value_type s.value s.label_values h

  send_all-IsSelected :
      (samples : List (Sample F))
      → AllSent (IsSelected fields) (send_all (select_samples fields samples))
  unfolding send_all select_samples send_sample is_sample_selected
  send_all-IsSelected [] = tt
  send_all-IsSelected (s ∷ samples) = elim (Bool-cases (is_sample_selected fields s)) [
    | inl e ↦ rw e (
        AllSent-bind (IsSelected fields) (send_sample s)
          (λ _. send_all (select_samples fields samples))
          (send_found-IsSelected (find_desc s.group s.key) s e) (λ _. send_all-IsSelected samples))
    | inr e ↦ rw e (send_all-IsSelected samples)
  ]

module _ {F : Type 0} (escape : String → String) {Body : Type 0} (http : Http Body)
    (decode : String → Result String (Response F)) (semp : Semp) where
  -- With a filter of metrics that gives these fields to select, each metric that the scrape over SEMP v2
  -- sends has a descriptor whose SEMP v2 field is among them, whatever the broker answers, on how many
  -- pages, and however the scrape ends.
  pub get_queue_stats_semp2-IsSelected :
      (fuel : ℕ) (vpn_name item_filter metric : String) (metric_filter fields : List String)
      → select_fields (metric ∷ metric_filter) ≡ ok fields
      → AllSent (IsSelected fields) (
          get_queue_stats_semp2 escape http decode semp fuel vpn_name item_filter
            (metric ∷ metric_filter))
  unfolding get_queue_stats_semp2 get_queue_stats_semp2_samples
  get_queue_stats_semp2-IsSelected fuel vpn_name item_filter metric metric_filter fields h = rw h (
      let n = select_fields_cons metric metric_filter fields h in
      loop_pages-AllSent (IsSelected fields) (read_page_v2 http decode semp) _
        (λ last queues.
          distinct_items-AllSent (IsSelected fields)
            (λ queue. send_all (select_samples fields (v2_values queue)))
            (λ queue. send_all-IsSelected fields n (v2_values queue)) get_queue_stats_semp2_key last
            queues)
        fuel 1 "" _)

  select_fields-refused :
      (metric_filter : List String)
      → all (is_valid_item (get_semp_v2_field_map_list queue_stats_descriptions)) metric_filter
        ≡ false
      → Refuses
          (get_semp_v2_field_map_list queue_stats_descriptions)
          metric_filter
          (select_fields metric_filter)
  unfolding select_fields get_semp_v2_fields_to_select
  select_fields-refused [] h = cc
  select_fields-refused (metric ∷ metric_filter) h =
      let (item, e, a, v) =
        map_items-refused (get_semp_v2_field_map_list queue_stats_descriptions)
          (metric ∷ metric_filter) h in
      (item, rw e refl, a, v)

  -- With a filter of metrics that holds an item that is neither the name nor the field of a metric of
  -- QueueStats, the scrape over SEMP v2 sends nothing, makes no request, and returns 0 with an error
  -- that names such an item of the filter, at any fuel and for any broker.
  pub get_queue_stats_semp2-refused :
      (fuel : ℕ) (vpn_name item_filter : String) (metric_filter : List String)
      → all (is_valid_item (get_semp_v2_field_map_list queue_stats_descriptions)) metric_filter
        ≡ false
      → (item : String) × Among item metric_filter
        × (is_valid_item (get_semp_v2_field_map_list queue_stats_descriptions) item ≡ false)
        × (get_queue_stats_semp2 escape http decode semp fuel vpn_name item_filter metric_filter
            ≡ pure (pos 0, some (invalid_item item)))
  unfolding get_queue_stats_semp2
  get_queue_stats_semp2-refused fuel vpn_name item_filter metric_filter h =
      let (item, e, a, v) = select_fields-refused metric_filter h in (item, a, v, rw e refl)
