-- ===== src/Semp/Getters/Vpns.antt =====
-- The scrapes of the message VPNs: getVpnSemp1.go, getVpnStatsSemp1.go, getVpnReplicationSemp1.go, getConfigSyncVpnSemp1.go of internal/semp.
use solace_prometheus_export.Prelude.{ℕ, String, Bool, List, [], ◌∷◌}
use Prim.Native.String.{◌++◌ as ◌<>◌}
use solace_prometheus_export.Prelude.Int.{ℤ}
use solace_prometheus_export.Prelude.Result.{Result}
use solace_prometheus_export.Metric.{counter, gauge}
use solace_prometheus_export.Metric.Encode.{encode_metric_bool, encode_metric_multi}
use solace_prometheus_export.Metric.Run.{Run}
use solace_prometheus_export.Semp.{
  Http, Semp, Target, Status, execute_ok, execute_ok_see_log, scrape_once, scrape_pages,
}
use solace_prometheus_export.Semp.Samples.{Sample, sample, send_all}
use solace_prometheus_export.Semp.Distinct.{distinct_items, each}
use solace_prometheus_export.Semp.GoLib.{GoLib}

-- The fields of one item, the nested structs written flat.
pub record Vpn (F : Type 0) : Type 0 where
  pub name : String
  pub is_management_message_vpn : Bool
  pub enabled : Bool
  pub operational : Bool
  pub locally_configured : Bool
  pub local_status : String
  pub unique_subscriptions : F
  pub total_local_unique_subscriptions : F
  pub total_remote_unique_subscriptions : F
  pub total_unique_subscriptions : F
  pub connections : F

unfoldable pub get_vpn_semp1_key : {F : Type 0} → Vpn F → String
get_vpn_semp1_key vpn = vpn.name

module _ {F : Type 0} (lib : GoLib F) where
  unfoldable pub get_vpn_semp1_samples : Vpn F → List (Sample F)
  get_vpn_semp1_samples vpn =
      let labels = vpn.name ∷ [] in
      sample "Vpn" "vpn_is_management_vpn" gauge
        (lib.of_ℤ (encode_metric_bool vpn.is_management_message_vpn)) labels
      ∷ sample "Vpn" "vpn_enabled" gauge (lib.of_ℤ (encode_metric_bool vpn.enabled)) labels
      ∷ sample "Vpn" "vpn_operational" gauge (lib.of_ℤ (encode_metric_bool vpn.operational)) labels
      ∷ sample "Vpn" "vpn_locally_configured" gauge
          (lib.of_ℤ (encode_metric_bool vpn.locally_configured)) labels
      ∷ sample "Vpn" "vpn_local_status" gauge
          (lib.of_ℤ (encode_metric_multi vpn.local_status ("Down" ∷ "Up" ∷ []))) labels
      ∷ sample "Vpn" "vpn_unique_subscriptions" gauge vpn.unique_subscriptions labels
      ∷ sample "Vpn" "vpn_total_local_unique_subscriptions" gauge
          vpn.total_local_unique_subscriptions labels
      ∷ sample "Vpn" "vpn_total_remote_unique_subscriptions" gauge
          vpn.total_remote_unique_subscriptions labels
      ∷ sample "Vpn" "vpn_total_unique_subscriptions" gauge vpn.total_unique_subscriptions labels
      ∷ []

  unfoldable pub get_vpn_semp1 :
      {Body : Type 0} (http : Http Body) (decode : Body → Result String (Target (List (Vpn F))))
      (semp : Semp) (fuel : ℕ)
      → String
      → ℤ
      → Run F Status
  get_vpn_semp1 http decode semp fuel vpn_filter page_size =
      scrape_pages http decode execute_ok_see_log semp
        (distinct_items get_vpn_semp1_key (λ vpn. send_all (get_vpn_semp1_samples vpn))) fuel 1 ""
        (lib.sprintf
          ("<rpc><show><message-vpn><vpn-name>"
            <> (vpn_filter
                <> "</vpn-name><count/><num-elements>%d</num-elements></message-vpn></show></rpc>"))
          page_size)

-- The fields of one item, the nested structs written flat.
pub record VpnStat (F : Type 0) : Type 0 where
  pub name : String
  pub local_status : String
  pub connections : F
  pub quota_connections : F
  pub quota_connections_smf : F
  pub quota_connections_web : F
  pub quota_connections_mqtt : F
  pub quota_connections_amqp : F
  pub quota_connections_rest_in : F
  pub quota_connections_rest_out : F
  pub connections_amq_service : F
  pub connections_smf_service : F
  pub connections_web_service : F
  pub connections_mqtt_service : F
  pub connections_rest_in_service : F
  pub connections_rest_out_service : F
  pub data_rx_byte_count : F
  pub data_rx_msg_count : F
  pub data_tx_byte_count : F
  pub data_tx_msg_count : F
  pub average_rx_byte_rate : F
  pub average_rx_msg_rate : F
  pub average_tx_byte_rate : F
  pub average_tx_msg_rate : F
  pub rx_byte_rate : F
  pub rx_msg_rate : F
  pub tx_byte_rate : F
  pub tx_msg_rate : F
  pub discarded_rx_msg_count : F
  pub discarded_tx_msg_count : F

unfoldable pub get_vpn_stats_semp1_key : {F : Type 0} → VpnStat F → String
get_vpn_stats_semp1_key vpn = vpn.name

module _ {F : Type 0} (lib : GoLib F) where
  unfoldable pub get_vpn_stats_semp1_samples : VpnStat F → List (Sample F)
  get_vpn_stats_semp1_samples vpn =
      let labels = vpn.name ∷ [] in
      sample "VpnStats" "vpn_rx_msgs_total" counter vpn.data_rx_msg_count labels
      ∷ sample "VpnStats" "vpn_tx_msgs_total" counter vpn.data_tx_msg_count labels
      ∷ sample "VpnStats" "vpn_rx_bytes_total" counter vpn.data_rx_byte_count labels
      ∷ sample "VpnStats" "vpn_tx_bytes_total" counter vpn.data_tx_byte_count labels
      ∷ sample "VpnStats" "vpn_rx_discarded_msgs_total" counter vpn.discarded_rx_msg_count labels
      ∷ sample "VpnStats" "vpn_tx_discarded_msgs_total" counter vpn.discarded_tx_msg_count labels
      ∷ sample "VpnStats" "vpn_connections" gauge vpn.connections labels
      ∷ sample "VpnStats" "vpn_connections_service_amqp" gauge vpn.connections_amq_service labels
      ∷ sample "VpnStats" "vpn_connections_service_mqtt" gauge vpn.connections_mqtt_service labels
      ∷ sample "VpnStats" "vpn_connections_service_smf" gauge vpn.connections_smf_service labels
      ∷ sample "VpnStats" "vpn_connections_service_web" gauge vpn.connections_web_service labels
      ∷ sample "VpnStats" "vpn_connections_service_rest_in" gauge vpn.connections_rest_in_service
          labels
      ∷ sample "VpnStats" "vpn_connections_service_rest_out" gauge vpn.connections_rest_out_service
          labels
      ∷ sample "VpnStats" "vpn_quota_connections" gauge vpn.quota_connections labels
      ∷ sample "VpnStats" "vpn_quota_connections_smf" gauge vpn.quota_connections_smf labels
      ∷ sample "VpnStats" "vpn_quota_connections_web" gauge vpn.quota_connections_web labels
      ∷ sample "VpnStats" "vpn_quota_connections_amqp" gauge vpn.quota_connections_amqp labels
      ∷ sample "VpnStats" "vpn_quota_connections_mqtt" gauge vpn.quota_connections_mqtt labels
      ∷ sample "VpnStats" "vpn_quota_connections_rest_in" gauge vpn.quota_connections_rest_in labels
      ∷ sample "VpnStats" "vpn_quota_connections_rest_out" gauge vpn.quota_connections_rest_out
          labels
      ∷ []

  unfoldable pub get_vpn_stats_semp1 :
      {Body : Type 0} (http : Http Body) (decode : Body → Result String (Target (List (VpnStat F))))
      (semp : Semp) (fuel : ℕ)
      → String
      → ℤ
      → Run F Status
  get_vpn_stats_semp1 http decode semp fuel vpn_filter page_size =
      scrape_pages http decode execute_ok semp
        (distinct_items get_vpn_stats_semp1_key (λ vpn. send_all (get_vpn_stats_semp1_samples vpn)))
        fuel 1 ""
        (lib.sprintf
          ("<rpc><show><message-vpn><vpn-name>"
            <> (vpn_filter
                <> "</vpn-name><stats/><count/><num-elements>%d</num-elements></message-vpn></show></rpc>"))
          page_size)

-- The fields of one item, the nested structs written flat.
pub record VpnReplication (F : Type 0) : Type 0 where
  pub vpn_name : String
  pub admin_state : String
  pub config_state : String
  pub transaction_replication_mode : String

module _ {F : Type 0} (lib : GoLib F) where
  unfoldable pub get_vpn_replication_semp1_samples : VpnReplication F → List (Sample F)
  get_vpn_replication_semp1_samples vpn =
      sample "VpnReplication" "vpn_replication_admin_state" gauge
        (lib.of_ℤ (encode_metric_multi vpn.admin_state ("shutdown" ∷ "enabled" ∷ "n/a" ∷ [])))
        (vpn.vpn_name ∷ [])
      ∷ sample "VpnReplication" "vpn_replication_config_state" gauge
          (lib.of_ℤ (encode_metric_multi vpn.config_state ("standby" ∷ "active" ∷ "n/a" ∷ [])))
          (vpn.vpn_name ∷ [])
      ∷ sample "VpnReplication" "vpn_replication_transaction_replication_mode" gauge
          (lib.of_ℤ
            (encode_metric_multi vpn.transaction_replication_mode ("async" ∷ "sync" ∷ "n/a" ∷ [])))
          (vpn.vpn_name ∷ [])
      ∷ []

  unfoldable pub get_vpn_replication_semp1 :
      {Body : Type 0} (http : Http Body)
      (decode : Body → Result String (Target (List (VpnReplication F)))) (semp : Semp)
      → String
      → Run F Status
  get_vpn_replication_semp1 http decode semp vpn_filter =
      scrape_once http decode execute_ok semp
        ("<rpc><show><message-vpn><vpn-name>"
          <> (vpn_filter <> "</vpn-name><replication/></message-vpn></show></rpc>"))
        (λ items. each (λ vpn. send_all (get_vpn_replication_semp1_samples vpn)) items)

-- The fields of one item, the nested structs written flat.
pub record ConfigSyncVpnTable (F : Type 0) : Type 0 where
  pub type_field : String
  pub time_in_state_seconds : F
  pub name : String
  pub ownership : String
  pub sync_state : String
  pub time_in_state : String

unfoldable pub get_config_sync_vpn_semp1_key : {F : Type 0} → ConfigSyncVpnTable F → String
get_config_sync_vpn_semp1_key table = table.name

module _ {F : Type 0} (lib : GoLib F) where
  unfoldable pub get_config_sync_vpn_semp1_samples : ConfigSyncVpnTable F → List (Sample F)
  get_config_sync_vpn_semp1_samples table =
      sample "ConfigSyncVpn" "configsync_table_type" gauge
        (lib.of_ℤ (
          encode_metric_multi table.type_field
            ("Router" ∷ "Vpn" ∷ "Unknown" ∷ "None" ∷ "All" ∷ [])))
        (table.name ∷ [])
      ∷ sample "ConfigSyncVpn" "configsync_table_timeinstateseconds" counter
          table.time_in_state_seconds (table.name ∷ [])
      ∷ sample "ConfigSyncVpn" "configsync_table_ownership" gauge
          (lib.of_ℤ (encode_metric_multi table.ownership ("Master" ∷ "Slave" ∷ "Unknown" ∷ [])))
          (table.name ∷ [])
      ∷ sample "ConfigSyncVpn" "configsync_table_syncstate" gauge
          (lib.of_ℤ (
            encode_metric_multi table.sync_state (
              "Down" ∷ "Up" ∷ "Unknown" ∷ "In-Sync" ∷ "Reconciling" ∷ "Blocked" ∷ "Out-Of-Sync"
              ∷ [])))
          (table.name ∷ [])
      ∷ []

  unfoldable pub get_config_sync_vpn_semp1 :
      {Body : Type 0} (http : Http Body)
      (decode : Body → Result String (Target (List (ConfigSyncVpnTable F)))) (semp : Semp)
      (fuel : ℕ)
      → String
      → ℤ
      → Run F Status
  get_config_sync_vpn_semp1 http decode semp fuel vpn_filter page_size =
      scrape_pages http decode execute_ok semp
        (distinct_items get_config_sync_vpn_semp1_key
          (λ table. send_all (get_config_sync_vpn_semp1_samples table)))
        fuel 1 ""
        (lib.sprintf
          ("<rpc><show><config-sync><database/><message-vpn/><vpn-name>"
            <> (vpn_filter
                <> "</vpn-name><count/><num-elements>%d</num-elements></config-sync></show></rpc>"))
          page_size)
