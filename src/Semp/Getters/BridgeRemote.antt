-- ===== src/Semp/Getters/BridgeRemote.antt =====
-- The scrapes of the remote ends of bridges: getBridgeRemoteSemp1.go of internal/semp.
use solace_prometheus_export.Prelude.{String, List, [], ◌∷◌}
use Prim.Native.String.{◌++◌ as ◌<>◌}
use solace_prometheus_export.Prelude.Result.{Result}
use solace_prometheus_export.Metric.{counter, gauge}
use solace_prometheus_export.Metric.Encode.{encode_metric_multi}
use solace_prometheus_export.Metric.Run.{Run}
use solace_prometheus_export.Semp.{Http, Semp, Target, Status, execute_ok, scrape_once}
use solace_prometheus_export.Semp.Samples.{Sample, sample, send_all}
use solace_prometheus_export.Semp.Blocks.{each_samples}
use solace_prometheus_export.Semp.Getters.Bridges.{op_states, fail_reasons}
use solace_prometheus_export.Semp.GoLib.{GoLib}

-- The fields of one item, the nested structs written flat.
pub record BridgeRemoteBridge (F : Type 0) : Type 0 where
  pub bridge_name : String
  pub local_vpn_name : String
  pub connected_remote_vpn_name : String
  pub connected_remote_router_name : String
  pub admin_state : String
  pub connection_establisher : String
  pub inbound_operational_state : String
  pub inbound_operational_failure_reason : String
  pub outbound_operational_state : String
  pub queue_operational_state : String
  pub redundancy : String
  pub connection_uptime_in_seconds : F

-- The fields of the reply, the nested structs written flat.
pub record BridgeRemoteReply (F : Type 0) : Type 0 where
  pub num_total_bridges_value : F
  pub max_num_total_bridges_value : F
  pub num_local_bridges_value : F
  pub max_num_local_bridges_value : F
  pub num_remote_bridges_value : F
  pub max_num_remote_bridges_value : F
  pub num_total_remote_bridge_subscriptions : F
  pub max_num_total_remote_bridge_subscriptions : F
  pub bridge : List (BridgeRemoteBridge F)

module _ {F : Type 0} (lib : GoLib F) where
  unfoldable pub get_bridge_remote_semp1_bridge_samples : BridgeRemoteBridge F → List (Sample F)
  get_bridge_remote_semp1_bridge_samples bridge =
      let labels =
        bridge.local_vpn_name ∷ bridge.bridge_name ∷ bridge.connected_remote_vpn_name
        ∷ bridge.connected_remote_router_name ∷ [] in
      sample "BridgeRemote" "bridge_remote_admin_state" gauge
        (lib.of_ℤ
          (encode_metric_multi bridge.admin_state ("Enabled" ∷ "Disabled" ∷ "-" ∷ "N/A" ∷ [])))
        labels
      ∷ sample "BridgeRemote" "bridge_remote_connection_establisher" gauge
          (lib.of_ℤ (
            encode_metric_multi bridge.connection_establisher
              ("NotApplicable" ∷ "Local" ∷ "Remote" ∷ "Invalid" ∷ [])))
          labels
      ∷ sample "BridgeRemote" "bridge_remote_inbound_operational_state" gauge
          (lib.of_ℤ (encode_metric_multi bridge.inbound_operational_state op_states)) labels
      ∷ sample "BridgeRemote" "bridge_remote_inbound_operational_failure_reason" gauge
          (lib.of_ℤ (encode_metric_multi bridge.inbound_operational_failure_reason fail_reasons))
          labels
      ∷ sample "BridgeRemote" "bridge_remote_outbound_operational_state" gauge
          (lib.of_ℤ (encode_metric_multi bridge.outbound_operational_state op_states)) labels
      ∷ sample "BridgeRemote" "bridge_remote_queue_operational_state" gauge
          (lib.of_ℤ (
            encode_metric_multi bridge.queue_operational_state
              ("NotApplicable" ∷ "Bound" ∷ "Unbound" ∷ [])))
          labels
      ∷ sample "BridgeRemote" "bridge_remote_redundancy" gauge
          (lib.of_ℤ (
            encode_metric_multi bridge.redundancy
              ("NotApplicable" ∷ "auto" ∷ "primary" ∷ "backup" ∷ "static" ∷ "none" ∷ [])))
          labels
      ∷ sample "BridgeRemote" "bridge_remote_connection_uptime_in_seconds" gauge
          bridge.connection_uptime_in_seconds labels
      ∷ []

  unfoldable pub get_bridge_remote_semp1_samples : BridgeRemoteReply F → List (Sample F)
  get_bridge_remote_semp1_samples reply =
      sample "Bridge" "bridges_num_total_bridges" gauge reply.num_total_bridges_value []
      ∷ sample "Bridge" "bridges_max_num_total_bridges" counter reply.max_num_total_bridges_value []
      ∷ sample "Bridge" "bridges_num_local_bridges" gauge reply.num_local_bridges_value []
      ∷ sample "Bridge" "bridges_max_num_local_bridges" counter reply.max_num_local_bridges_value []
      ∷ sample "Bridge" "bridges_num_remote_bridges" gauge reply.num_remote_bridges_value []
      ∷ sample "Bridge" "bridges_max_num_remote_bridges" counter reply.max_num_remote_bridges_value
          []
      ∷ sample "Bridge" "bridges_num_total_remote_bridge_subscriptions" gauge
          reply.num_total_remote_bridge_subscriptions []
      ∷ sample "Bridge" "bridges_max_num_total_remote_bridge_subscriptions" counter
          reply.max_num_total_remote_bridge_subscriptions []
      ∷ (each_samples get_bridge_remote_semp1_bridge_samples reply.bridge)

  unfoldable pub get_bridge_remote_semp1 :
      {Body : Type 0} (http : Http Body)
      (decode : Body → Result String (Target (BridgeRemoteReply F))) (semp : Semp)
      → String
      → String
      → Run F Status
  get_bridge_remote_semp1 http decode semp vpn_filter item_filter =
      scrape_once http decode execute_ok semp
        (((("<rpc><show><bridge><bridge-name-pattern>" <> item_filter)
              <> "</bridge-name-pattern><vpn-name-pattern>")
            <> vpn_filter)
          <> "</vpn-name-pattern></bridge></show></rpc>")
        (λ reply. send_all (get_bridge_remote_semp1_samples reply))
