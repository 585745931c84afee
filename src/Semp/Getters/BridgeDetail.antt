-- ===== src/Semp/Getters/BridgeDetail.antt =====
-- The scrapes of the details of bridges: getBridgeDetailSemp1.go of internal/semp.
use solace_prometheus_export.Prelude.{ℕ, String, Bool, List, [], ◌∷◌, ◌==◌, if◌then◌else◌}
use Prim.Native.String.{◌++◌ as ◌<>◌}
use solace_prometheus_export.Prelude.Int.{ℤ}
use solace_prometheus_export.Prelude.Result.{Result}
use solace_prometheus_export.Metric.{gauge}
use solace_prometheus_export.Metric.Encode.{encode_metric_multi}
use solace_prometheus_export.Metric.Run.{Run}
use solace_prometheus_export.Semp.{Http, Semp, Target, Status, execute_ok, scrape_pages}
use solace_prometheus_export.Semp.Samples.{Sample, sample, send_all}
use solace_prometheus_export.Semp.Blocks.{each_samples}
use solace_prometheus_export.Semp.Distinct.{distinct_items}
use solace_prometheus_export.Semp.Getters.Bridges.{op_states, fail_reasons}
use solace_prometheus_export.Semp.GoLib.{GoLib}

-- The fields of one item, the nested structs written flat.
pub record BridgeDetailBridgeRemoteVpn (F : Type 0) : Type 0 where
  pub vpn_name : String
  pub router_name : String
  pub admin_state : String
  pub compressed : String
  pub ssl : String
  pub connection_state : String
  pub last_connection_failure_reason : String
  pub queue_name : String
  pub queue_bind_state : String

-- The fields of one item, the nested structs written flat.
pub record BridgeDetailBridge (F : Type 0) : Type 0 where
  pub bridge_name : String
  pub local_vpn_name : String
  pub connected_remote_vpn_name : String
  pub connected_remote_router_name : String
  pub admin_state : String
  pub connection_establisher : String
  pub inbound_operational_state : String
  pub inbound_operational_failure_reason : String
  pub outbound_operational_state : String
  pub queue_operational_state : String
  pub redundancy : String
  pub connection_uptime_in_seconds : F
  pub auth_scheme : String
  pub client_username : String
  pub password_configured : String
  pub certificate_file : String
  pub using_server_certificate : Bool
  pub local_queue_name : String
  pub remote_message_vpn : List (BridgeDetailBridgeRemoteVpn F)

unfoldable pub get_bridge_detail_semp1_key : {F : Type 0} → BridgeDetailBridge F → String
get_bridge_detail_semp1_key bridge = (bridge.local_vpn_name <> "___") <> bridge.bridge_name

module _ {F : Type 0} (lib : GoLib F) where
  unfoldable pub get_bridge_detail_semp1_remote_vpn_samples :
      BridgeDetailBridge F → BridgeDetailBridgeRemoteVpn F → List (Sample F)
  get_bridge_detail_semp1_remote_vpn_samples bridge remote_vpn =
      let labels =
        bridge.local_vpn_name
        ∷ bridge.bridge_name
        ∷ bridge.connected_remote_vpn_name
        ∷ bridge.connected_remote_router_name
        ∷ bridge.local_queue_name
        ∷ remote_vpn.vpn_name
        ∷ (if remote_vpn.router_name == ""
            then bridge.connected_remote_router_name
            else remote_vpn.router_name)
        ∷ remote_vpn.compressed
        ∷ remote_vpn.ssl
        ∷ remote_vpn.queue_name
        ∷ [] in
      sample "BridgeDetail" "bridge_detail_remote_admin_state" gauge
        (lib.of_ℤ
          (encode_metric_multi remote_vpn.admin_state ("Enabled" ∷ "Disabled" ∷ "-" ∷ "N/A" ∷ [])))
        labels
      ∷ sample "BridgeDetail" "bridge_detail_remote_connection_state" gauge
          (lib.of_ℤ (encode_metric_multi remote_vpn.connection_state ("Down" ∷ "Up" ∷ [])))
          (bridge.local_vpn_name
            ∷ bridge.bridge_name
            ∷ bridge.connected_remote_vpn_name
            ∷ bridge.connected_remote_router_name
            ∷ remote_vpn.vpn_name
            ∷ bridge.local_queue_name
            ∷ (if remote_vpn.router_name == ""
                then bridge.connected_remote_router_name
                else remote_vpn.router_name)
            ∷ remote_vpn.compressed
            ∷ remote_vpn.ssl
            ∷ remote_vpn.queue_name
            ∷ [])
      ∷ sample "BridgeDetail" "bridge_detail_remote_last_conn_failure_reason" gauge
          (lib.of_ℤ (encode_metric_multi remote_vpn.last_connection_failure_reason fail_reasons))
          labels
      ∷ sample "BridgeDetail" "bridge_detail_remote_queue_bind_state" gauge
          (lib.of_ℤ (encode_metric_multi remote_vpn.queue_bind_state ("Down" ∷ "Up" ∷ []))) labels
      ∷ []

  unfoldable pub get_bridge_detail_semp1_samples : BridgeDetailBridge F → List (Sample F)
  get_bridge_detail_semp1_samples bridge =
      let labels =
        bridge.local_vpn_name ∷ bridge.bridge_name ∷ bridge.connected_remote_vpn_name
        ∷ bridge.connected_remote_router_name ∷ bridge.local_queue_name ∷ [] in
      sample "BridgeDetail" "bridge_detail_admin_state" gauge
        (lib.of_ℤ
          (encode_metric_multi bridge.admin_state ("Enabled" ∷ "Disabled" ∷ "-" ∷ "N/A" ∷ [])))
        labels
      ∷ sample "BridgeDetail" "bridge_detail_connection_establisher" gauge
          (lib.of_ℤ (
            encode_metric_multi bridge.connection_establisher
              ("NotApplicable" ∷ "Local" ∷ "Remote" ∷ "Invalid" ∷ [])))
          labels
      ∷ sample "BridgeDetail" "bridge_detail_inbound_operational_state" gauge
          (lib.of_ℤ (encode_metric_multi bridge.inbound_operational_state op_states)) labels
      ∷ sample "BridgeDetail" "bridge_detail_inbound_operational_failure_reason" gauge
          (lib.of_ℤ (encode_metric_multi bridge.inbound_operational_failure_reason fail_reasons))
          labels
      ∷ sample "BridgeDetail" "bridge_detail_outbound_operational_state" gauge
          (lib.of_ℤ (encode_metric_multi bridge.outbound_operational_state op_states)) labels
      ∷ sample "BridgeDetail" "bridge_detail_queue_operational_state" gauge
          (lib.of_ℤ (
            encode_metric_multi bridge.queue_operational_state
              ("NotApplicable" ∷ "Bound" ∷ "Unbound" ∷ [])))
          labels
      ∷ sample "BridgeDetail" "bridge_detail_redundancy" gauge
          (lib.of_ℤ (
            encode_metric_multi bridge.redundancy
              ("NotApplicable" ∷ "auto" ∷ "primary" ∷ "backup" ∷ "static" ∷ "none" ∷ [])))
          labels
      ∷ sample "BridgeDetail" "bridge_detail_connection_uptime_in_seconds" gauge
          bridge.connection_uptime_in_seconds labels
      ∷ sample "BridgeDetail" "bridge_detail_authentication_scheme" gauge
          (lib.of_ℤ (
            encode_metric_multi bridge.auth_scheme
              ("NotApplicable" ∷ "Basic" ∷ "Client-Certificate" ∷ "TLS-PSK" ∷ [])))
          (bridge.local_vpn_name ∷ bridge.bridge_name ∷ bridge.connected_remote_vpn_name
            ∷ bridge.connected_remote_router_name ∷ bridge.local_queue_name ∷ bridge.client_username
            ∷ bridge.certificate_file ∷ [])
      ∷ (each_samples (get_bridge_detail_semp1_remote_vpn_samples bridge) bridge.remote_message_vpn)

  unfoldable pub get_bridge_detail_semp1 :
      {Body : Type 0} (http : Http Body)
      (decode : Body → Result String (Target (List (BridgeDetailBridge F)))) (semp : Semp)
      (fuel : ℕ)
      → String
      → String
      → ℤ
      → Run F Status
  get_bridge_detail_semp1 http decode semp fuel vpn_filter item_filter page_size =
      scrape_pages http decode execute_ok semp
        (distinct_items get_bridge_detail_semp1_key
          (λ bridge. send_all (get_bridge_detail_semp1_samples bridge)))
        fuel 1 ""
        (lib.sprintf
          (((("<rpc><show><bridge><bridge-name-pattern>" <> item_filter)
                <> "</bridge-name-pattern><vpn-name-pattern>")
              <> vpn_filter)
            <> "</vpn-name-pattern><detail/><count/><num-elements>%d</num-elements></bridge></show></rpc>")
          page_size)
