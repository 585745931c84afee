-- ===== src/Semp/Getters/ClientFlows.antt =====
-- The scrapes of the flows of clients: getClientMessageSpoolEgressSemp1.go, getClientMessageSpoolStatsSemp1.go of internal/semp.
use solace_prometheus_export.Prelude.{ℕ, String, Bool, List, [], ◌∷◌}
use Prim.Native.String.{◌++◌ as ◌<>◌}
use solace_prometheus_export.Prelude.Int.{ℤ}
use solace_prometheus_export.Prelude.Result.{Result}
use solace_prometheus_export.Metric.{counter, gauge}
use solace_prometheus_export.Metric.Run.{Run}
use solace_prometheus_export.Semp.{
  Http, Semp, Target, Status, execute_ok, scrape_once, scrape_pages,
}
use solace_prometheus_export.Semp.Samples.{Sample, sample, send_all}
use solace_prometheus_export.Semp.Blocks.{◌<+>◌, each_samples, each_indexed}
use solace_prometheus_export.Semp.Distinct.{distinct_items}
use solace_prometheus_export.Semp.GoLib.{GoLib, before_colon}

-- The fields of one item, the nested structs written flat.
pub record ClientEgressClientFlow (F : Type 0) : Type 0 where
  pub name : String
  pub type_field : String
  pub bind_time_seconds : ℤ

-- The fields of one item, the nested structs written flat.
pub record ClientEgressClient (F : Type 0) : Type 0 where
  pub client_name : String
  pub client_address : String
  pub client_id : ℕ
  pub msg_vpn_name : String
  pub client_username : String
  pub original_client_username : String
  pub user : String
  pub description : String
  pub software_version : String
  pub platform : String
  pub flow : List (ClientEgressClientFlow F)

-- The fields of the reply, the nested structs written flat.
pub record ClientEgressReply (F : Type 0) : Type 0 where
  pub client : List (ClientEgressClient F)

module _ {F : Type 0} (lib : GoLib F) where
  unfoldable pub get_client_message_spool_egress_semp1_client_flow_samples :
      ClientEgressClient F → ClientEgressClientFlow F → List (Sample F)
  get_client_message_spool_egress_semp1_client_flow_samples client flow =
      sample "ClientMessageSpoolEgress" "client_endpoint_egress_bind_time_seconds" gauge
        (lib.of_ℤ flow.bind_time_seconds)
        (client.msg_vpn_name
          ∷ client.client_name
          ∷ (before_colon client.client_address)
          ∷ (lib.itoa client.client_id)
          ∷ client.client_username
          ∷ client.original_client_username
          ∷ client.user
          ∷ client.description
          ∷ client.software_version
          ∷ client.platform
          ∷ flow.type_field
          ∷ flow.name
          ∷ ((flow.type_field <> "=") <> flow.name)
          ∷ [])
      ∷ []

  unfoldable pub get_client_message_spool_egress_semp1_client_samples :
      ClientEgressClient F → List (Sample F)
  get_client_message_spool_egress_semp1_client_samples client =
      each_samples (get_client_message_spool_egress_semp1_client_flow_samples client) client.flow

  unfoldable pub get_client_message_spool_egress_semp1_samples :
      ClientEgressReply F → List (Sample F)
  get_client_message_spool_egress_semp1_samples reply =
      each_samples get_client_message_spool_egress_semp1_client_samples reply.client

  unfoldable pub get_client_message_spool_egress_semp1 :
      {Body : Type 0} (http : Http Body)
      (decode : Body → Result String (Target (ClientEgressReply F))) (semp : Semp)
      → String
      → Run F Status
  get_client_message_spool_egress_semp1 http decode semp item_filter =
      scrape_once http decode execute_ok semp
        (("<rpc><show><client><name>" <> item_filter)
          <> "</name><message-spool/><egress/><connected/></client></show></rpc>")
        (λ reply. send_all (get_client_message_spool_egress_semp1_samples reply))

-- The fields of one item, the nested structs written flat.
pub record ClientSpoolClientIngressFlowStats (F : Type 0) : Type 0 where
  pub spooling_not_ready : F
  pub out_of_order_messages_received : F
  pub duplicate_messages_received : F
  pub no_eligible_destinations : F
  pub guaranteed_messages : F
  pub no_local_delivery : F
  pub seq_num_rollover : F
  pub seq_num_messages_discarded : F
  pub transacted_messages_not_sequenced : F
  pub destination_group_error : F
  pub smf_ttl_exceeded : F
  pub publish_acl_denied : F
  pub window_size : F

-- The fields of one item, the nested structs written flat.
pub record ClientSpoolClientEgressFlowStats (F : Type 0) : Type 0 where
  pub window_size : F
  pub used_window : F
  pub window_closed : F
  pub message_redelivered : F
  pub message_transport_retransmit : F
  pub message_confirmed_delivered : F
  pub confirmed_delivered_store_and_forward : F
  pub confirmed_delivered_cut_through : F
  pub unacked_messages : F

-- The fields of one item, the nested structs written flat.
pub record ClientSpoolClient (F : Type 0) : Type 0 where
  pub client_name : String
  pub client_username : String
  pub msg_vpn_name : String
  pub client_profile : String
  pub acl_profile : String
  pub slow_subscriber : Bool
  pub eliding_topics : F
  pub flows_ingress : F
  pub flows_egress : F
  pub ingress_flow_stats : List (ClientSpoolClientIngressFlowStats F)
  pub egress_flow_stats : List (ClientSpoolClientEgressFlowStats F)

unfoldable pub get_client_message_spool_stats_semp1_key :
    {F : Type 0} → ClientSpoolClient F → String
get_client_message_spool_stats_semp1_key client =
    (client.msg_vpn_name <> "___") <> client.client_name

module _ {F : Type 0} (lib : GoLib F) where
  unfoldable pub get_client_message_spool_stats_semp1_ingress_flow_samples :
      ClientSpoolClient F → ℕ → ClientSpoolClientIngressFlowStats F → List (Sample F)
  get_client_message_spool_stats_semp1_ingress_flow_samples client flow_id ingress_flow =
      let labels =
        client.msg_vpn_name
        ∷ client.client_name
        ∷ client.client_username
        ∷ client.client_profile
        ∷ client.acl_profile
        ∷ (lib.itoa flow_id)
        ∷ [] in
      sample "ClientMessageSpoolStats" "spooling_not_ready" counter ingress_flow.spooling_not_ready
        labels
      ∷ sample "ClientMessageSpoolStats" "out_of_order_messages_received" counter
          ingress_flow.out_of_order_messages_received
          (client.msg_vpn_name
            ∷ client.client_name
            ∷ client.client_profile
            ∷ client.acl_profile
            ∷ client.client_username
            ∷ (lib.itoa flow_id)
            ∷ [])
      ∷ sample "ClientMessageSpoolStats" "duplicate_messages_received" counter
          ingress_flow.duplicate_messages_received labels
      ∷ sample "ClientMessageSpoolStats" "no_eligible_destinations" counter
          ingress_flow.no_eligible_destinations labels
      ∷ sample "ClientMessageSpoolStats" "guaranteed_messages" counter
          ingress_flow.guaranteed_messages labels
      ∷ sample "ClientMessageSpoolStats" "no_local_delivery" counter ingress_flow.no_local_delivery
          labels
      ∷ sample "ClientMessageSpoolStats" "seq_num_rollover" counter ingress_flow.seq_num_rollover (
          client.msg_vpn_name
          ∷ client.client_name
          ∷ client.client_username
          ∷ client.client_profile
          ∷ client.acl_profile
          ∷ (lib.itoa flow_id)
          ∷ [])
      ∷ sample "ClientMessageSpoolStats" "seq_num_messages_discarded" counter
          ingress_flow.seq_num_messages_discarded labels
      ∷ sample "ClientMessageSpoolStats" "transacted_messages_not_sequenced" counter
          ingress_flow.transacted_messages_not_sequenced labels
      ∷ sample "ClientMessageSpoolStats" "destination_group_error" counter
          ingress_flow.destination_group_error labels
      ∷ sample "ClientMessageSpoolStats" "smf_ttl_exceeded" counter ingress_flow.smf_ttl_exceeded (
          client.msg_vpn_name
          ∷ client.client_name
          ∷ client.client_username
          ∷ client.client_profile
          ∷ client.acl_profile
          ∷ (lib.itoa flow_id)
          ∷ [])
      ∷ sample "ClientMessageSpoolStats" "publish_acl_denied" counter
          ingress_flow.publish_acl_denied labels
      ∷ sample "ClientMessageSpoolStats" "ingress_window_size" counter ingress_flow.window_size (
          client.msg_vpn_name
          ∷ client.client_name
          ∷ client.client_username
          ∷ client.client_profile
          ∷ client.acl_profile
          ∷ (lib.itoa flow_id)
          ∷ [])
      ∷ []

  unfoldable pub get_client_message_spool_stats_semp1_egress_flow_samples :
      ClientSpoolClient F → ℕ → ClientSpoolClientEgressFlowStats F → List (Sample F)
  get_client_message_spool_stats_semp1_egress_flow_samples client flow_id egress_flow =
      let labels =
        client.msg_vpn_name
        ∷ client.client_name
        ∷ client.client_username
        ∷ client.client_profile
        ∷ client.acl_profile
        ∷ (lib.itoa flow_id)
        ∷ [] in
      sample "ClientMessageSpoolStats" "egress_window_size" counter egress_flow.window_size (
        client.msg_vpn_name
        ∷ client.client_name
        ∷ client.client_username
        ∷ client.client_profile
        ∷ client.acl_profile
        ∷ (lib.itoa flow_id)
        ∷ [])
      ∷ sample "ClientMessageSpoolStats" "used_window" counter egress_flow.used_window (
          client.msg_vpn_name
          ∷ client.client_name
          ∷ client.client_username
          ∷ client.client_profile
          ∷ client.acl_profile
          ∷ (lib.itoa flow_id)
          ∷ [])
      ∷ sample "ClientMessageSpoolStats" "window_closed" counter egress_flow.window_closed (
          client.msg_vpn_name
          ∷ client.client_name
          ∷ client.client_username
          ∷ client.client_profile
          ∷ client.acl_profile
          ∷ (lib.itoa flow_id)
          ∷ [])
      ∷ sample "ClientMessageSpoolStats" "message_redelivered" counter
          egress_flow.message_redelivered labels
      ∷ sample "ClientMessageSpoolStats" "message_transport_retransmit" counter
          egress_flow.message_transport_retransmit labels
      ∷ sample "ClientMessageSpoolStats" "message_confirmed_delivered" counter
          egress_flow.message_confirmed_delivered labels
      ∷ sample "ClientMessageSpoolStats" "confirmed_delivered_store_and_forward" counter
          egress_flow.confirmed_delivered_store_and_forward labels
      ∷ sample "ClientMessageSpoolStats" "confirmed_delivered_cut_through" counter
          egress_flow.confirmed_delivered_cut_through labels
      ∷ sample "ClientMessageSpoolStats" "unacked_messages" counter egress_flow.unacked_messages (
          client.msg_vpn_name
          ∷ client.client_name
          ∷ client.client_username
          ∷ client.client_profile
          ∷ client.acl_profile
          ∷ (lib.itoa flow_id)
          ∷ [])
      ∷ []

  unfoldable pub get_client_message_spool_stats_semp1_samples :
      ClientSpoolClient F → List (Sample F)
  get_client_message_spool_stats_semp1_samples client =
      sample "ClientMessageSpoolStats" "client_flows_ingress" gauge client.flows_ingress (
        client.msg_vpn_name ∷ client.client_name ∷ client.client_username ∷ client.client_profile
        ∷ client.acl_profile ∷ [])
      ∷ sample "ClientMessageSpoolStats" "client_flows_egress" gauge client.flows_egress (
          client.msg_vpn_name ∷ client.client_name ∷ client.client_username ∷ client.client_profile
          ∷ client.acl_profile ∷ [])
      ∷ ((each_indexed (get_client_message_spool_stats_semp1_ingress_flow_samples client) 0
            client.ingress_flow_stats)
          <+> (each_indexed (get_client_message_spool_stats_semp1_egress_flow_samples client) 0
              client.egress_flow_stats))

  unfoldable pub get_client_message_spool_stats_semp1 :
      {Body : Type 0} (http : Http Body)
      (decode : Body → Result String (Target (List (ClientSpoolClient F)))) (semp : Semp) (fuel : ℕ)
      → String
      → ℤ
      → Run F Status
  get_client_message_spool_stats_semp1 http decode semp fuel item_filter page_size =
      scrape_pages http decode execute_ok semp
        (distinct_items get_client_message_spool_stats_semp1_key
          (λ client. send_all (get_client_message_spool_stats_semp1_samples client)))
        fuel 1 ""
        (lib.sprintf
          (("<rpc><show><client><name>" <> item_filter)
            <> "</name><message-spool-stats/><count/><num-elements>%d</num-elements></client></show></rpc>")
          page_size)
