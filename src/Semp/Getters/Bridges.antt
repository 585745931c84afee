-- ===== src/Semp/Getters/Bridges.antt =====
-- The scrapes of the bridges: getBridgeSemp1.go of internal/semp.
use solace_prometheus_export.Prelude.{ℕ, String, List, [], ◌∷◌}
use Prim.Native.String.{◌++◌ as ◌<>◌}
use solace_prometheus_export.Prelude.Int.{ℤ}
use solace_prometheus_export.Prelude.Result.{Result}
use solace_prometheus_export.Metric.{counter, gauge}
use solace_prometheus_export.Metric.Encode.{encode_metric_multi}
use solace_prometheus_export.Metric.Run.{Run, ◌>>◌}
use solace_prometheus_export.Semp.{Http, Semp, Target, Status, execute_ok, scrape_pages}
use solace_prometheus_export.Semp.Samples.{Sample, sample, send_all}
use solace_prometheus_export.Semp.Distinct.{distinct_items}
use solace_prometheus_export.Semp.GoLib.{GoLib}

-- The fields of one item, the nested structs written flat.
pub record Bridge (F : Type 0) : Type 0 where
  pub bridge_name : String
  pub local_vpn_name : String
  pub connected_remote_vpn_name : String
  pub connected_remote_router_name : String
  pub admin_state : String
  pub connection_establisher : String
  pub inbound_operational_state : String
  pub inbound_operational_failure_reason : String
  pub outbound_operational_state : String
  pub queue_operational_state : String
  pub redundancy : String
  pub connection_uptime_in_seconds : F

-- The fields of the reply, the nested structs written flat.
pub record BridgeReply (F : Type 0) : Type 0 where
  pub num_total_bridges_value : F
  pub max_num_total_bridges_value : F
  pub num_local_bridges_value : F
  pub max_num_local_bridges_value : F
  pub num_remote_bridges_value : F
  pub max_num_remote_bridges_value : F
  pub num_total_remote_bridge_subscriptions : F
  pub max_num_total_remote_bridge_subscriptions : F
  pub bridge : List (Bridge F)

abbrev pub op_states : List String
op_states =
    "Init" ∷ "Shutdown" ∷ "NoShutdown" ∷ "Prepare" ∷ "Prepare-WaitToConnect" ∷ "Prepare-FetchingDNS"
    ∷ "NotReady" ∷ "NotReady-Connecting" ∷ "NotReady-Handshaking" ∷ "NotReady-WaitNext"
    ∷ "NotReady-WaitReuse" ∷ "NotRead-WaitBridgeVersionMismatch" ∷ "NotReady-WaitCleanup" ∷ "Ready"
    ∷ "Ready-Subscribing" ∷ "Ready-InSync" ∷ "NotApplicable" ∷ "Invalid" ∷ []

abbrev pub fail_reasons : List String
fail_reasons =
    "Bridge disabled" ∷ "No remote message-vpns configured" ∷ "SMF service is disabled"
    ∷ "Msg Backbone is disabled" ∷ "Local message-vpn is disabled" ∷ "Active-Standby Role Mismatch"
    ∷ "Invalid Active-Standby Role" ∷ "Redundancy Disabled" ∷ "Not active" ∷ "Replication standby"
    ∷ "Remote message-vpns disabled"
    ∷ "Enforce-trusted-common-name but empty trust-common-name list"
    ∷ "SSL transport used but cipher-suite list is empty"
    ∷ "Authentication Scheme is Client-Certificate but no certificate is configured"
    ∷ "Client-Certificate Authentication Scheme used but not all Remote Message VPNs use SSL"
    ∷ "Basic Authentication Scheme used but Basic Client Username not configured" ∷ "Cluster Down"
    ∷ "Cluster Link Down" ∷ "" ∷ []

unfoldable pub get_bridge_semp1_key : {F : Type 0} → Bridge F → String
get_bridge_semp1_key bridge = bridge.local_vpn_name <> ("___" <> bridge.bridge_name)

module _ {F : Type 0} (lib : GoLib F) where
  unfoldable pub get_bridge_semp1_samples : Bridge F → List (Sample F)
  get_bridge_semp1_samples bridge =
      let labels = bridge.local_vpn_name ∷ bridge.bridge_name ∷ [] in
      sample "Bridge" "bridge_admin_state" gauge
        (lib.of_ℤ (encode_metric_multi bridge.admin_state ("Enabled" ∷ "Disabled" ∷ "-" ∷ [])))
        labels
      ∷ sample "Bridge" "bridge_connection_establisher" gauge
          (lib.of_ℤ (
            encode_metric_multi bridge.connection_establisher
              ("NotApplicable" ∷ "Local" ∷ "Remote" ∷ "Invalid" ∷ [])))
          labels
      ∷ sample "Bridge" "bridge_inbound_operational_state" gauge
          (lib.of_ℤ (encode_metric_multi bridge.inbound_operational_state op_states)) labels
      ∷ sample "Bridge" "bridge_inbound_operational_failure_reason" gauge
          (lib.of_ℤ (encode_metric_multi bridge.inbound_operational_failure_reason fail_reasons))
          labels
      ∷ sample "Bridge" "bridge_outbound_operational_state" gauge
          (lib.of_ℤ (encode_metric_multi bridge.outbound_operational_state op_states)) labels
      ∷ sample "Bridge" "bridge_queue_operational_state" gauge
          (lib.of_ℤ (
            encode_metric_multi bridge.queue_operational_state
              ("NotApplicable" ∷ "Bound" ∷ "Unbound" ∷ [])))
          labels
      ∷ sample "Bridge" "bridge_redundancy" gauge
          (lib.of_ℤ (
            encode_metric_multi bridge.redundancy
              ("NotApplicable" ∷ "auto" ∷ "primary" ∷ "backup" ∷ "static" ∷ "none" ∷ [])))
          labels
      ∷ sample "Bridge" "bridge_connection_uptime_in_seconds" gauge
          bridge.connection_uptime_in_seconds labels
      ∷ []

  unfoldable pub get_bridge_semp1_head : BridgeReply F → List (Sample F)
  get_bridge_semp1_head reply =
      sample "Bridge" "bridges_num_total_bridges" gauge reply.num_total_bridges_value []
      ∷ sample "Bridge" "bridges_max_num_total_bridges" counter reply.max_num_total_bridges_value []
      ∷ sample "Bridge" "bridges_num_local_bridges" gauge reply.num_local_bridges_value []
      ∷ sample "Bridge" "bridges_max_num_local_bridges" counter reply.max_num_local_bridges_value []
      ∷ sample "Bridge" "bridges_num_remote_bridges" gauge reply.num_remote_bridges_value []
      ∷ sample "Bridge" "bridges_max_num_remote_bridges" counter reply.max_num_remote_bridges_value
          []
      ∷ sample "Bridge" "bridges_num_total_remote_bridge_subscriptions" gauge
          reply.num_total_remote_bridge_subscriptions []
      ∷ sample "Bridge" "bridges_max_num_total_remote_bridge_subscriptions" counter
          reply.max_num_total_remote_bridge_subscriptions []
      ∷ []

  unfoldable pub get_bridge_semp1 :
      {Body : Type 0} (http : Http Body) (decode : Body → Result String (Target (BridgeReply F)))
      (semp : Semp) (fuel : ℕ)
      → String
      → String
      → ℤ
      → Run F Status
  get_bridge_semp1 http decode semp fuel vpn_filter item_filter page_size =
      scrape_pages http decode execute_ok semp
        (λ last reply.
          send_all (get_bridge_semp1_head reply)
          >> distinct_items get_bridge_semp1_key
              (λ bridge. send_all (get_bridge_semp1_samples bridge)) last reply.bridge)
        fuel 1 ""
        (lib.sprintf
          ("<rpc><show><bridge><bridge-name-pattern>"
            <> (item_filter
                <> ("</bridge-name-pattern><vpn-name-pattern>"
                    <> (vpn_filter
                        <> "</vpn-name-pattern><count/><num-elements>%d</num-elements></bridge></show></rpc>"))))
          page_size)
