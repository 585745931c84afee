-- ===== src/Semp/Getters/BridgeStats.antt =====
-- The scrapes of the statistics of the bridges: getBridgeStatsSemp1.go of internal/semp.
use solace_prometheus_export.Prelude.{ℕ, String, Bool, List, [], ◌∷◌}
use Prim.Native.String.{◌++◌ as ◌<>◌}
use solace_prometheus_export.Prelude.Int.{ℤ}
use solace_prometheus_export.Prelude.Result.{Result}
use solace_prometheus_export.Metric.{counter, gauge}
use solace_prometheus_export.Metric.Encode.{encode_metric_bool}
use solace_prometheus_export.Metric.Run.{Run}
use solace_prometheus_export.Semp.{Http, Semp, Target, Status, execute_ok, scrape_pages}
use solace_prometheus_export.Semp.Samples.{Sample, sample, send_all}
use solace_prometheus_export.Semp.Distinct.{distinct_items}
use solace_prometheus_export.Semp.GoLib.{GoLib}

-- The fields of one item, the nested structs written flat.
pub record BridgeStat (F : Type 0) : Type 0 where
  pub bridge_name : String
  pub local_vpn_name : String
  pub connected_remote_vpn_name : String
  pub connected_remote_router_name : String
  pub connected_via_addr : String
  pub connected_via_interface : String
  pub redundancy : String
  pub admin_state : String
  pub connection_establisher : String
  pub client_address : String
  pub name : String
  pub num_subscriptions : F
  pub client_id : F
  pub message_vpn : String
  pub slow_subscriber : Bool
  pub client_username : String
  pub total_client_messages_received : F
  pub total_client_messages_sent : F
  pub client_data_messages_received : F
  pub client_data_messages_sent : F
  pub client_persistent_messages_received : F
  pub client_persistent_messages_sent : F
  pub client_non_persistent_messages_received : F
  pub client_non_persistent_messages_sent : F
  pub client_direct_messages_received : F
  pub client_direct_messages_sent : F
  pub total_client_bytes_received : F
  pub total_client_bytes_sent : F
  pub client_data_bytes_received : F
  pub client_data_bytes_sent : F
  pub client_persistent_bytes_received : F
  pub client_persistent_bytes_sent : F
  pub client_non_persistent_bytes_received : F
  pub client_non_persistent_bytes_sent : F
  pub client_direct_bytes_received : F
  pub client_direct_bytes_sent : F
  pub large_messages_received : F
  pub denied_duplicate_clients : F
  pub not_enough_space_msgs_sent : F
  pub max_exceeded_msgs_sent : F
  pub subscribe_client_not_found : F
  pub not_found_msgs_sent : F
  pub current_ingress_rate_per_second : F
  pub current_egress_rate_per_second : F
  pub total_ingress_discards : F
  pub no_subscription_match : F
  pub topic_parse_error : F
  pub parse_error : F
  pub msg_too_big : F
  pub ingress_discards_ttl_exceeded : F
  pub web_parse_error : F
  pub publish_topic_acl : F
  pub msg_spool_discards : F
  pub ingress_discards_message_promotion_congestion : F
  pub ingress_discards_message_spool_congestion : F
  pub total_egress_discards : F
  pub transmit_congestion : F
  pub compression_congestion : F
  pub message_elided : F
  pub egress_discards_ttl_exceeded : F
  pub payload_could_not_be_formatted : F
  pub egress_discards_message_promotion_congestion : F
  pub egress_discards_message_spool_congestion : F
  pub client_not_connected : F
  pub add_by_subscription_manager : F
  pub remove_by_subscription_manager : F

unfoldable pub get_bridge_stats_semp1_key : {F : Type 0} → BridgeStat F → String
get_bridge_stats_semp1_key bridge = bridge.local_vpn_name <> ("___" <> bridge.bridge_name)

module _ {F : Type 0} (lib : GoLib F) where
  unfoldable pub get_bridge_stats_semp1_samples : BridgeStat F → List (Sample F)
  get_bridge_stats_semp1_samples bridge =
      let labels =
        bridge.local_vpn_name ∷ bridge.bridge_name ∷ bridge.connected_remote_router_name
        ∷ bridge.connected_remote_vpn_name ∷ [] in
      sample "BridgeStats" "bridge_client_num_subscriptions" gauge bridge.num_subscriptions (
        bridge.local_vpn_name ∷ bridge.bridge_name ∷ bridge.connected_remote_router_name
        ∷ bridge.connected_remote_vpn_name ∷ [])
      ∷ sample "BridgeStats" "bridge_client_slow_subscriber" gauge
          (lib.of_ℤ (encode_metric_bool bridge.slow_subscriber)) labels
      ∷ sample "BridgeStats" "bridge_total_client_messages_received" counter
          bridge.total_client_messages_received labels
      ∷ sample "BridgeStats" "bridge_total_client_messages_sent" counter
          bridge.total_client_messages_sent labels
      ∷ sample "BridgeStats" "bridge_client_data_messages_received" gauge
          bridge.client_data_messages_received labels
      ∷ sample "BridgeStats" "bridge_client_data_messages_sent" gauge
          bridge.client_data_messages_sent labels
      ∷ sample "BridgeStats" "bridge_client_persistent_messages_received" gauge
          bridge.client_persistent_messages_received labels
      ∷ sample "BridgeStats" "bridge_client_persistent_messages_sent" gauge
          bridge.client_persistent_messages_sent labels
      ∷ sample "BridgeStats" "bridge_client_nonpersistent_messages_received" gauge
          bridge.client_non_persistent_messages_received labels
      ∷ sample "BridgeStats" "bridge_client_nonpersistent_messages_sent" gauge
          bridge.client_non_persistent_messages_sent labels
      ∷ sample "BridgeStats" "bridge_client_direct_messages_received" gauge
          bridge.client_direct_messages_received labels
      ∷ sample "BridgeStats" "bridge_client_direct_messages_sent" gauge
          bridge.client_direct_messages_sent labels
      ∷ sample "BridgeStats" "bridge_total_client_bytes_received" counter
          bridge.total_client_bytes_received labels
      ∷ sample "BridgeStats" "bridge_total_client_bytes_sent" counter bridge.total_client_bytes_sent
          labels
      ∷ sample "BridgeStats" "bridge_client_data_bytes_received" gauge
          bridge.client_data_bytes_received labels
      ∷ sample "BridgeStats" "bridge_client_data_bytes_sent" gauge bridge.client_data_bytes_sent (
          bridge.local_vpn_name ∷ bridge.bridge_name ∷ bridge.connected_remote_router_name
          ∷ bridge.connected_remote_vpn_name ∷ [])
      ∷ sample "BridgeStats" "bridge_client_persistent_bytes_received" gauge
          bridge.client_persistent_bytes_received labels
      ∷ sample "BridgeStats" "bridge_client_persistent_bytes_sent" gauge
          bridge.client_persistent_bytes_sent labels
      ∷ sample "BridgeStats" "bridge_client_nonpersistent_bytes_received" gauge
          bridge.client_non_persistent_bytes_received labels
      ∷ sample "BridgeStats" "bridge_client_nonpersistent_bytes_sent" gauge
          bridge.client_non_persistent_bytes_sent labels
      ∷ sample "BridgeStats" "bridge_client_direct_bytes_received" gauge
          bridge.client_direct_bytes_received labels
      ∷ sample "BridgeStats" "bridge_client_direct_bytes_sent" gauge bridge.client_direct_bytes_sent
          labels
      ∷ sample "BridgeStats" "bridge_client_large_messages_received" gauge
          bridge.large_messages_received labels
      ∷ sample "BridgeStats" "bridge_denied_duplicate_clients" gauge bridge.denied_duplicate_clients
          labels
      ∷ sample "BridgeStats" "bridge_not_enough_space_msgs_sent" gauge
          bridge.not_enough_space_msgs_sent labels
      ∷ sample "BridgeStats" "bridge_max_exceeded_msgs_sent" gauge bridge.max_exceeded_msgs_sent (
          bridge.local_vpn_name ∷ bridge.bridge_name ∷ bridge.connected_remote_router_name
          ∷ bridge.connected_remote_vpn_name ∷ [])
      ∷ sample "BridgeStats" "bridge_subscribe_client_not_found" gauge
          bridge.subscribe_client_not_found labels
      ∷ sample "BridgeStats" "bridge_not_found_msgs_sent" gauge bridge.not_found_msgs_sent (
          bridge.local_vpn_name ∷ bridge.bridge_name ∷ bridge.connected_remote_router_name
          ∷ bridge.connected_remote_vpn_name ∷ [])
      ∷ sample "BridgeStats" "bridge_current_ingress_rate_per_second" gauge
          bridge.current_ingress_rate_per_second labels
      ∷ sample "BridgeStats" "bridge_current_egress_rate_per_second" gauge
          bridge.current_egress_rate_per_second labels
      ∷ sample "BridgeStats" "bridge_total_ingress_discards" counter bridge.total_ingress_discards (
          bridge.local_vpn_name ∷ bridge.bridge_name ∷ bridge.connected_remote_router_name
          ∷ bridge.connected_remote_vpn_name ∷ [])
      ∷ sample "BridgeStats" "bridge_total_egress_discards" counter bridge.total_egress_discards (
          bridge.local_vpn_name ∷ bridge.bridge_name ∷ bridge.connected_remote_router_name
          ∷ bridge.connected_remote_vpn_name ∷ [])
      ∷ []

  unfoldable pub get_bridge_stats_semp1 :
      {Body : Type 0} (http : Http Body)
      (decode : Body → Result String (Target (List (BridgeStat F)))) (semp : Semp) (fuel : ℕ)
      → String
      → String
      → ℤ
      → Run F Status
  get_bridge_stats_semp1 http decode semp fuel vpn_filter item_filter page_size =
      scrape_pages http decode execute_ok semp
        (distinct_items get_bridge_stats_semp1_key
          (λ bridge. send_all (get_bridge_stats_semp1_samples bridge)))
        fuel 1 ""
        (lib.sprintf
          ("<rpc><show><bridge><bridge-name-pattern>"
            <> (item_filter
                <> ("</bridge-name-pattern><vpn-name-pattern>"
                    <> (vpn_filter
                        <> "</vpn-name-pattern><stats/><count/><num-elements>%d</num-elements></bridge></show></rpc>"))))
          page_size)
