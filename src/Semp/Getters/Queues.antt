-- ===== src/Semp/Getters/Queues.antt =====
-- The scrapes of the queues: getQueueRatesSemp1.go, getQueueStatsSemp1.go, getQueueDetailsSemp1.go of internal/semp.
use solace_prometheus_export.Prelude.{ℕ, String, List, [], ◌∷◌}
use Prim.Native.String.{◌++◌ as ◌<>◌}
use solace_prometheus_export.Prelude.Int.{ℤ, pos}
use solace_prometheus_export.Prelude.Result.{Result}
use solace_prometheus_export.Metric.{counter, gauge}
use solace_prometheus_export.Metric.Run.{Run}
use solace_prometheus_export.Semp.{Http, Semp, Target, Status, execute_ok, scrape_pages}
use solace_prometheus_export.Semp.Samples.{Sample, sample, send_all}
use solace_prometheus_export.Semp.Distinct.{distinct_items}
use solace_prometheus_export.Semp.GoLib.{GoLib}

-- The fields of one item, the nested structs written flat.
pub record QueueRate (F : Type 0) : Type 0 where
  pub queue_name : String
  pub msg_vpn_name : String
  pub average_rx_byte_rate : F
  pub average_rx_msg_rate : F
  pub average_tx_byte_rate : F
  pub average_tx_msg_rate : F
  pub rx_byte_rate : F
  pub rx_msg_rate : F
  pub tx_byte_rate : F
  pub tx_msg_rate : F

unfoldable pub get_queue_rates_semp1_key : {F : Type 0} → QueueRate F → String
get_queue_rates_semp1_key queue = queue.msg_vpn_name <> ("___" <> queue.queue_name)

module _ {F : Type 0} (lib : GoLib F) where
  unfoldable pub get_queue_rates_semp1_samples : QueueRate F → List (Sample F)
  get_queue_rates_semp1_samples queue =
      let labels = queue.msg_vpn_name ∷ queue.queue_name ∷ [] in
      sample "QueueRates" "queue_rx_msg_rate" gauge queue.rx_msg_rate labels
      ∷ sample "QueueRates" "queue_tx_msg_rate" gauge queue.tx_msg_rate labels
      ∷ sample "QueueRates" "queue_rx_byte_rate" gauge queue.rx_byte_rate labels
      ∷ sample "QueueRates" "queue_tx_byte_rate" gauge queue.tx_byte_rate labels
      ∷ sample "QueueRates" "queue_rx_msg_rate_avg" gauge queue.average_rx_msg_rate labels
      ∷ sample "QueueRates" "queue_tx_msg_rate_avg" gauge queue.average_tx_msg_rate labels
      ∷ sample "QueueRates" "queue_rx_byte_rate_avg" gauge queue.average_rx_byte_rate labels
      ∷ sample "QueueRates" "queue_tx_byte_rate_avg" gauge queue.average_tx_byte_rate labels
      ∷ []

  unfoldable pub get_queue_rates_semp1 :
      {Body : Type 0} (http : Http Body)
      (decode : Body → Result String (Target (List (QueueRate F)))) (semp : Semp) (fuel : ℕ)
      → String
      → String
      → ℤ
      → Run F Status
  get_queue_rates_semp1 http decode semp fuel vpn_filter item_filter page_size =
      scrape_pages http decode execute_ok semp
        (distinct_items get_queue_rates_semp1_key
          (λ queue. send_all (get_queue_rates_semp1_samples queue)))
        fuel 1 ""
        (lib.sprintf
          ("<rpc><show><queue><name>"
            <> (item_filter
                <> ("</name><vpn-name>"
                    <> (vpn_filter
                        <> "</vpn-name><rates/><count/><num-elements>%d</num-elements></queue></show></rpc>"))))
          page_size)

-- The fields of one item, the nested structs written flat.
pub record QueueStat (F : Type 0) : Type 0 where
  pub queue_name : String
  pub msg_vpn_name : String
  pub total_byte_spooled : F
  pub total_msg_spooled : F
  pub msg_redelivered : F
  pub msg_retransmit : F
  pub spool_usage_exceeded : F
  pub msg_size_exceeded : F
  pub spool_shutdown_discard : F
  pub destination_group_error : F
  pub low_prio_msg_discard : F
  pub deleted : F
  pub ttl_discarded : F
  pub ttl_dmq : F
  pub ttl_dmq_failed : F
  pub max_redelivery_discarded : F
  pub max_redelivery_dmq : F
  pub max_redelivery_dmq_failed : F

unfoldable pub get_queue_stats_semp1_key : {F : Type 0} → QueueStat F → String
get_queue_stats_semp1_key queue = queue.msg_vpn_name <> ("___" <> queue.queue_name)

module _ {F : Type 0} (lib : GoLib F) where
  unfoldable pub get_queue_stats_semp1_samples : QueueStat F → List (Sample F)
  get_queue_stats_semp1_samples queue =
      let labels = queue.msg_vpn_name ∷ queue.queue_name ∷ [] in
      sample "QueueStats" "total_bytes_spooled" counter queue.total_byte_spooled labels
      ∷ sample "QueueStats" "total_messages_spooled" counter queue.total_msg_spooled labels
      ∷ sample "QueueStats" "messages_redelivered" counter queue.msg_redelivered labels
      ∷ sample "QueueStats" "messages_transport_retransmitted" counter queue.msg_retransmit labels
      ∷ sample "QueueStats" "spool_usage_exceeded" counter queue.spool_usage_exceeded labels
      ∷ sample "QueueStats" "max_message_size_exceeded" counter queue.msg_size_exceeded labels
      ∷ sample "QueueStats" "total_deleted_messages" counter queue.deleted labels
      ∷ sample "QueueStats" "messages_shutdown_discarded" counter queue.spool_shutdown_discard
          labels
      ∷ sample "QueueStats" "messages_ttl_discarded" counter queue.ttl_discarded labels
      ∷ sample "QueueStats" "messages_ttl_dmq" counter queue.ttl_dmq labels
      ∷ sample "QueueStats" "messages_ttl_dmq_failed" counter queue.ttl_dmq_failed labels
      ∷ sample "QueueStats" "messages_max_redelivered_discarded" counter
          queue.max_redelivery_discarded labels
      ∷ sample "QueueStats" "messages_max_redelivered_dmq" counter queue.max_redelivery_dmq labels
      ∷ sample "QueueStats" "messages_max_redelivered_dmq_failed" counter
          queue.max_redelivery_dmq_failed labels
      ∷ []

  -- The first command of the scrape.
  abbrev pub get_queue_stats_semp1_command : String → String → ℤ → String
  get_queue_stats_semp1_command vpn_filter item_filter page_size =
      lib.sprintf
        ("<rpc><show><queue><name>"
          <> (item_filter
              <> ("</name><vpn-name>"
                  <> (vpn_filter
                      <> "</vpn-name><stats/><count/><num-elements>%d</num-elements></queue></show></rpc>"))))
        page_size

  unfoldable pub get_queue_stats_semp1 :
      {Body : Type 0} (http : Http Body)
      (decode : Body → Result String (Target (List (QueueStat F)))) (semp : Semp) (fuel : ℕ)
      → String
      → String
      → ℤ
      → Run F Status
  get_queue_stats_semp1 http decode semp fuel vpn_filter item_filter page_size =
      scrape_pages http decode execute_ok semp
        (distinct_items get_queue_stats_semp1_key
          (λ queue. send_all (get_queue_stats_semp1_samples queue)))
        fuel 1 "" (get_queue_stats_semp1_command vpn_filter item_filter page_size)

-- The fields of one item, the nested structs written flat.
pub record QueueDetail (F : Type 0) : Type 0 where
  pub queue_name : String
  pub msg_vpn_name : String
  pub quota : F
  pub usage : F
  pub spooled_msg_count : F
  pub bind_count : F
  pub topic_subscription_count : F

unfoldable pub get_queue_details_semp1_key : {F : Type 0} → QueueDetail F → String
get_queue_details_semp1_key queue = queue.msg_vpn_name <> ("___" <> queue.queue_name)

module _ {F : Type 0} (lib : GoLib F) where
  unfoldable pub get_queue_details_semp1_samples : QueueDetail F → List (Sample F)
  get_queue_details_semp1_samples queue =
      let labels = queue.msg_vpn_name ∷ queue.queue_name ∷ [] in
      sample "QueueDetails" "queue_spool_quota_bytes" gauge
        (lib.round (lib.mul queue.quota (lib.of_ℤ (pos 1048576)))) labels
      ∷ sample "QueueDetails" "queue_spool_usage_bytes" counter
          (lib.round (lib.mul queue.usage (lib.of_ℤ (pos 1048576)))) labels
      ∷ sample "QueueDetails" "queue_spool_usage_msgs" gauge queue.spooled_msg_count labels
      ∷ sample "QueueDetails" "queue_binds" gauge queue.bind_count labels
      ∷ sample "QueueDetails" "queue_subscriptions" gauge queue.topic_subscription_count labels
      ∷ []

  unfoldable pub get_queue_details_semp1 :
      {Body : Type 0} (http : Http Body)
      (decode : Body → Result String (Target (List (QueueDetail F)))) (semp : Semp) (fuel : ℕ)
      → String
      → String
      → ℤ
      → Run F Status
  get_queue_details_semp1 http decode semp fuel vpn_filter item_filter page_size =
      scrape_pages http decode execute_ok semp
        (distinct_items get_queue_details_semp1_key
          (λ queue. send_all (get_queue_details_semp1_samples queue)))
        fuel 1 ""
        (lib.sprintf
          ("<rpc><show><queue><name>"
            <> (item_filter
                <> ("</name><vpn-name>"
                    <> (vpn_filter
                        <> "</vpn-name><detail/><count/><num-elements>%d</num-elements></queue></show></rpc>"))))
          page_size)
