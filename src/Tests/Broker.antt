-- ===== src/Tests/Broker.antt =====
-- Tests of the whole scrape of a broker, and of the choice of SEMP v2 fields.
use solace_prometheus_export.Prelude.{
  ℕ, String, ◌≡◌, refl, true, false, some, List, [], ◌∷◌, all, length, lookup, insert, ◌⊎◌,
}
use solace_prometheus_export.Prelude.Int.{pos}
use solace_prometheus_export.Prelude.Result.{ok}
use solace_prometheus_export.Metric.Merge.{MetricMap, latest}
use solace_prometheus_export.Metric.Run.{AllSent, panicked, pure}
use solace_prometheus_export.Metric.{new_sem_desc}
use solace_prometheus_export.Metric.Select.{
  contains, map_items, get_semp_v2_fields_to_select, get_semp_v2_field_map_list, translate_item,
  raw_items, add_mandatory,
}
use solace_prometheus_export.Metric.Select.Valid.{
  Among, is_valid_item, Maps, Refuses, map_items_lem, get_semp_v2_fields_to_select-mandatory,
}
use solace_prometheus_export.Metric.Table.{queue_stats_descriptions}
use solace_prometheus_export.Semp.{execute_ok, post_http, read_page}
use solace_prometheus_export.Semp.SpoolQuota.{get_spool_semp1_panics}
use solace_prometheus_export.Semp.Getters.Spool.{get_spool_semp1}
use solace_prometheus_export.Semp.V2.{get_queue_stats_semp2, select_fields, invalid_item}
use solace_prometheus_export.Semp.V2.Selected.{
  IsSelected, get_queue_stats_semp2-IsSelected, get_queue_stats_semp2-refused,
}
use solace_prometheus_export.Fetcher.{AsyncFetcher, read_metrics}
use solace_prometheus_export.Fetcher.Cycle.{IsValid}
use solace_prometheus_export.Collector.{distinct_metrics}
use solace_prometheus_export.Collector.Broker.EndToEnd.{stream_of, broker_scrape_agrees}
use solace_prometheus_export.DataSource.{DataSource}
use solace_prometheus_export.Tests.Data.{http, lib, old, semp, software, target}
use solace_prometheus_export.Tests.Replies.{certs, decoders, spool_target, v2_decode}

abbrev sources : List DataSource
sources = target "QueueStats" ∷ target "Health" ∷ []

broker_scrape_agrees_example :
    (d : MetricMap ℕ) × (f' : AsyncFetcher ℕ) × (distinct_metrics
        (stream_of lib certs (λ s. s) http decoders semp software 3 sources)
      ≡ some d)
    × (read_metrics (stream_of lib certs (λ s. s) http decoders semp software 3 sources) old
        ≡ some f')
    × IsValid f'
    × ((k : String)
        → (lookup k d
            ≡ latest k (stream_of lib certs (λ s. s) http decoders semp software 3 sources))
          × (lookup k f'.metrics
              ≡ latest k (stream_of lib certs (λ s. s) http decoders semp software 3 sources)))
broker_scrape_agrees_example =
    broker_scrape_agrees lib certs (λ s. s) http decoders semp software 3 sources old (tt, tt)

get_spool_semp1_panics_example :
    ((get_spool_semp1 lib http (λ b. ok spool_target) semp).result ≡ panicked)
    × (length (get_spool_semp1 lib http (λ b. ok spool_target) semp).sent ≡ 3)
unfolding read_page post_http execute_ok
get_spool_semp1_panics_example =
    get_spool_semp1_panics lib http (λ b. ok spool_target) semp spool_target refl refl

abbrev metric_filter : List String
metric_filter = "solace_queue_byte_spooled" ∷ "deletedMsgCount" ∷ []

abbrev fields : List String
fields = "spooledByteCount" ∷ "deletedMsgCount" ∷ "queueName" ∷ "msgVpnName" ∷ []

get_queue_stats_semp2-IsSelected_example :
    AllSent
      (IsSelected fields)
      (get_queue_stats_semp2 (λ s. s) http v2_decode semp 3 "default" "*" metric_filter)
unfolding select_fields get_semp_v2_fields_to_select map_items translate_item
    get_semp_v2_field_map_list add_mandatory contains raw_items new_sem_desc lookup insert
get_queue_stats_semp2-IsSelected_example =
    get_queue_stats_semp2-IsSelected (λ s. s) http v2_decode semp 3 "default" "*"
      "solace_queue_byte_spooled" ("deletedMsgCount" ∷ []) fields refl

get_queue_stats_semp2-refused_example :
    (item : String) × Among item ("deletedMsgCount" ∷ "depth" ∷ [])
    × (is_valid_item (get_semp_v2_field_map_list queue_stats_descriptions) item ≡ false)
    × (get_queue_stats_semp2
          (λ s. s)
          http
          v2_decode
          semp
          3
          "default"
          "*"
          ("deletedMsgCount" ∷ "depth" ∷ [])
        ≡ pure (pos 0, some (invalid_item item)))
unfolding is_valid_item get_semp_v2_field_map_list new_sem_desc lookup insert
get_queue_stats_semp2-refused_example =
    get_queue_stats_semp2-refused (λ s. s) http v2_decode semp 3 "default" "*"
      ("deletedMsgCount" ∷ "depth" ∷ []) refl

abbrev names : List (String × String)
names = ("solace_up", "up") ∷ []

map_items_example :
    (all (is_valid_item names) ("up" ∷ "down" ∷ []) ≡ true)
      × Maps names ("up" ∷ "down" ∷ []) (map_items ("up" ∷ "down" ∷ []) names)
    ⊎ (all (is_valid_item names) ("up" ∷ "down" ∷ []) ≡ false)
      × Refuses names ("up" ∷ "down" ∷ []) (map_items ("up" ∷ "down" ∷ []) names)
map_items_example = map_items_lem names ("up" ∷ "down" ∷ [])

get_semp_v2_fields_to_select-mandatory_example :
    (all (contains fields) ("queueName" ∷ "msgVpnName" ∷ []) ≡ true)
    × ((mapped : List String) × (map_items metric_filter
            (get_semp_v2_field_map_list queue_stats_descriptions)
          ≡ ok mapped)
        × (all (contains fields) mapped ≡ true))
unfolding get_semp_v2_fields_to_select map_items translate_item get_semp_v2_field_map_list
    add_mandatory contains raw_items new_sem_desc lookup insert
get_semp_v2_fields_to_select-mandatory_example =
    get_semp_v2_fields_to_select-mandatory metric_filter ("queueName" ∷ "msgVpnName" ∷ [])
      queue_stats_descriptions fields refl
