-- ===== src/Semp/Getters/TopicEndpoints.antt =====
-- The scrapes of the topic endpoints: getTopicEndpointRatesSemp1.go, getTopicEndpointStatsSemp1.go, getTopicEndpointDetailsSemp1.go of internal/semp.
use solace_prometheus_export.Prelude.{ℕ, String, List, [], ◌∷◌}
use Prim.Native.String.{◌++◌ as ◌<>◌}
use solace_prometheus_export.Prelude.Int.{ℤ, pos}
use solace_prometheus_export.Prelude.Result.{Result}
use solace_prometheus_export.Metric.{counter, gauge}
use solace_prometheus_export.Metric.Run.{Run}
use solace_prometheus_export.Semp.{Http, Semp, Target, Status, execute_ok, scrape_pages}
use solace_prometheus_export.Semp.Samples.{Sample, sample, send_all}
use solace_prometheus_export.Semp.Distinct.{distinct_items}
use solace_prometheus_export.Semp.GoLib.{GoLib}

-- The fields of one item, the nested structs written flat.
pub record TopicEndpointRate (F : Type 0) : Type 0 where
  pub topic_endpoint_name : String
  pub msg_vpn_name : String
  pub average_rx_byte_rate : F
  pub average_rx_msg_rate : F
  pub average_tx_byte_rate : F
  pub average_tx_msg_rate : F
  pub rx_byte_rate : F
  pub rx_msg_rate : F
  pub tx_byte_rate : F
  pub tx_msg_rate : F

unfoldable pub get_topic_endpoint_rates_semp1_key : {F : Type 0} → TopicEndpointRate F → String
get_topic_endpoint_rates_semp1_key topic_endpoint =
    topic_endpoint.msg_vpn_name <> ("___" <> topic_endpoint.topic_endpoint_name)

module _ {F : Type 0} (lib : GoLib F) where
  unfoldable pub get_topic_endpoint_rates_semp1_samples : TopicEndpointRate F → List (Sample F)
  get_topic_endpoint_rates_semp1_samples topic_endpoint =
      let labels = topic_endpoint.msg_vpn_name ∷ topic_endpoint.topic_endpoint_name ∷ [] in
      sample "TopicEndpointRates" "rx_msg_rate" gauge topic_endpoint.rx_msg_rate labels
      ∷ sample "TopicEndpointRates" "tx_msg_rate" gauge topic_endpoint.tx_msg_rate labels
      ∷ sample "TopicEndpointRates" "rx_byte_rate" gauge topic_endpoint.rx_byte_rate labels
      ∷ sample "TopicEndpointRates" "tx_byte_rate" gauge topic_endpoint.tx_byte_rate labels
      ∷ sample "TopicEndpointRates" "rx_msg_rate_avg" gauge topic_endpoint.average_rx_msg_rate
          labels
      ∷ sample "TopicEndpointRates" "tx_msg_rate_avg" gauge topic_endpoint.average_tx_msg_rate
          labels
      ∷ sample "TopicEndpointRates" "rx_byte_rate_avg" gauge topic_endpoint.average_rx_byte_rate
          labels
      ∷ sample "TopicEndpointRates" "tx_byte_rate_avg" gauge topic_endpoint.average_tx_byte_rate
          labels
      ∷ []

  unfoldable pub get_topic_endpoint_rates_semp1 :
      {Body : Type 0} (http : Http Body)
      (decode : Body → Result String (Target (List (TopicEndpointRate F)))) (semp : Semp) (fuel : ℕ)
      → String
      → String
      → ℤ
      → Run F Status
  get_topic_endpoint_rates_semp1 http decode semp fuel vpn_filter item_filter page_size =
      scrape_pages http decode execute_ok semp
        (distinct_items get_topic_endpoint_rates_semp1_key
          (λ topic_endpoint. send_all (get_topic_endpoint_rates_semp1_samples topic_endpoint)))
        fuel 1 ""
        (lib.sprintf
          ("<rpc><show><topic-endpoint><name>"
            <> (item_filter
                <> ("</name><vpn-name>"
                    <> (vpn_filter
                        <> "</vpn-name><rates/><count/><num-elements>%d</num-elements></topic-endpoint></show></rpc>"))))
          page_size)

-- The fields of one item, the nested structs written flat.
pub record TopicEndpointStat (F : Type 0) : Type 0 where
  pub topic_endpoint_name : String
  pub msg_vpn_name : String
  pub total_byte_spooled : F
  pub total_msg_spooled : F
  pub msg_redelivered : F
  pub msg_retransmit : F
  pub spool_usage_exceeded : F
  pub msg_size_exceeded : F
  pub spool_shutdown_discard : F
  pub destination_group_error : F
  pub low_prio_msg_discard : F
  pub deleted : F
  pub ttl_discarded : F
  pub ttl_dmq : F
  pub ttl_dmq_failed : F
  pub max_redelivery_discarded : F
  pub max_redelivery_dmq : F
  pub max_redelivery_dmq_failed : F

unfoldable pub get_topic_endpoint_stats_semp1_key : {F : Type 0} → TopicEndpointStat F → String
get_topic_endpoint_stats_semp1_key topic_endpoint =
    topic_endpoint.msg_vpn_name <> ("___" <> topic_endpoint.topic_endpoint_name)

module _ {F : Type 0} (lib : GoLib F) where
  unfoldable pub get_topic_endpoint_stats_semp1_samples : TopicEndpointStat F → List (Sample F)
  get_topic_endpoint_stats_semp1_samples topic_endpoint =
      let labels = topic_endpoint.msg_vpn_name ∷ topic_endpoint.topic_endpoint_name ∷ [] in
      sample "TopicEndpointStats" "total_bytes_spooled" counter topic_endpoint.total_byte_spooled
        labels
      ∷ sample "TopicEndpointStats" "total_messages_spooled" counter
          topic_endpoint.total_msg_spooled labels
      ∷ sample "TopicEndpointStats" "messages_redelivered" counter topic_endpoint.msg_redelivered
          labels
      ∷ sample "TopicEndpointStats" "messages_transport_retransmitted" counter
          topic_endpoint.msg_retransmit labels
      ∷ sample "TopicEndpointStats" "spool_usage_exceeded" counter
          topic_endpoint.spool_usage_exceeded labels
      ∷ sample "TopicEndpointStats" "max_message_size_exceeded" counter
          topic_endpoint.msg_size_exceeded labels
      ∷ sample "TopicEndpointStats" "total_deleted_messages" counter topic_endpoint.deleted labels
      ∷ sample "TopicEndpointStats" "messages_shutdown_discarded" counter
          topic_endpoint.spool_shutdown_discard labels
      ∷ sample "TopicEndpointStats" "messages_ttl_discarded" counter topic_endpoint.ttl_discarded
          labels
      ∷ sample "TopicEndpointStats" "messages_ttl_dmq" counter topic_endpoint.ttl_dmq labels
      ∷ sample "TopicEndpointStats" "messages_ttl_dmq_failed" counter topic_endpoint.ttl_dmq_failed
          labels
      ∷ sample "TopicEndpointStats" "messages_max_redelivered_discarded" counter
          topic_endpoint.max_redelivery_discarded labels
      ∷ sample "TopicEndpointStats" "messages_max_redelivered_dmq" counter
          topic_endpoint.max_redelivery_dmq labels
      ∷ sample "TopicEndpointStats" "messages_max_redelivered_dmq_failed" counter
          topic_endpoint.max_redelivery_dmq_failed labels
      ∷ []

  unfoldable pub get_topic_endpoint_stats_semp1 :
      {Body : Type 0} (http : Http Body)
      (decode : Body → Result String (Target (List (TopicEndpointStat F)))) (semp : Semp) (fuel : ℕ)
      → String
      → String
      → ℤ
      → Run F Status
  get_topic_endpoint_stats_semp1 http decode semp fuel vpn_filter item_filter page_size =
      scrape_pages http decode execute_ok semp
        (distinct_items get_topic_endpoint_stats_semp1_key
          (λ topic_endpoint. send_all (get_topic_endpoint_stats_semp1_samples topic_endpoint)))
        fuel 1 ""
        (lib.sprintf
          ("<rpc><show><topic-endpoint><name>"
            <> (item_filter
                <> ("</name><vpn-name>"
                    <> (vpn_filter
                        <> "</vpn-name><stats/><count/><num-elements>%d</num-elements></topic-endpoint></show></rpc>"))))
          page_size)

-- The fields of one item, the nested structs written flat.
pub record TopicEndpointDetail (F : Type 0) : Type 0 where
  pub topic_endpoint_name : String
  pub msg_vpn_name : String
  pub quota : F
  pub usage : F
  pub spooled_msg_count : F
  pub bind_count : F

unfoldable pub get_topic_endpoint_details_semp1_key : {F : Type 0} → TopicEndpointDetail F → String
get_topic_endpoint_details_semp1_key topic_endpoint =
    topic_endpoint.msg_vpn_name <> ("___" <> topic_endpoint.topic_endpoint_name)

module _ {F : Type 0} (lib : GoLib F) where
  unfoldable pub get_topic_endpoint_details_semp1_samples : TopicEndpointDetail F → List (Sample F)
  get_topic_endpoint_details_semp1_samples topic_endpoint =
      let labels = topic_endpoint.msg_vpn_name ∷ topic_endpoint.topic_endpoint_name ∷ [] in
      sample "TopicEndpointDetails" "spool_quota_bytes" gauge
        (lib.round (lib.mul topic_endpoint.quota (lib.of_ℤ (pos 1048576)))) labels
      ∷ sample "TopicEndpointDetails" "spool_usage_bytes" gauge
          (lib.round (lib.mul topic_endpoint.usage (lib.of_ℤ (pos 1048576)))) labels
      ∷ sample "TopicEndpointDetails" "spool_usage_msgs" gauge topic_endpoint.spooled_msg_count
          labels
      ∷ sample "TopicEndpointDetails" "binds" gauge topic_endpoint.bind_count labels
      ∷ []

  unfoldable pub get_topic_endpoint_details_semp1 :
      {Body : Type 0} (http : Http Body)
      (decode : Body → Result String (Target (List (TopicEndpointDetail F)))) (semp : Semp)
      (fuel : ℕ)
      → String
      → String
      → ℤ
      → Run F Status
  get_topic_endpoint_details_semp1 http decode semp fuel vpn_filter item_filter page_size =
      scrape_pages http decode execute_ok semp
        (distinct_items get_topic_endpoint_details_semp1_key
          (λ topic_endpoint. send_all (get_topic_endpoint_details_semp1_samples topic_endpoint)))
        fuel 1 ""
        (lib.sprintf
          ("<rpc><show><topic-endpoint><name>"
            <> (item_filter
                <> ("</name><vpn-name>"
                    <> (vpn_filter
                        <> "</vpn-name><detail/><count/><num-elements>%d</num-elements></topic-endpoint></show></rpc>"))))
          page_size)
