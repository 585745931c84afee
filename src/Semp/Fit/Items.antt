-- ===== src/Semp/Fit/Items.antt =====
-- The samples of VPNs, bridges and clients fit the table of descriptors.
use solace_prometheus_export.Prelude.{refl, lookup, ℕ}
use solace_prometheus_export.Metric.{new_sem_desc}
use solace_prometheus_export.Metric.Table.{find_desc, metric_desc}
use solace_prometheus_export.Semp.GoLib.{GoLib}
use solace_prometheus_export.Semp.Samples.{fits}
use solace_prometheus_export.Semp.Blocks.{
  AllFit, cons-AllFit, append-AllFit, branch-AllFit, each_samples-AllFit, each_indexed-AllFit,
}
use solace_prometheus_export.Semp.Getters.VpnSpool.{
  get_vpn_spool_semp1_samples, VpnSpoolVpn, get_cluster_links_semp1_cluster_link_samples,
  ClusterLinksCluster, ClusterLinksClusterLink, get_cluster_links_semp1_cluster_samples,
  get_cluster_links_semp1_samples, ClusterLinksReply,
}
use solace_prometheus_export.Semp.Getters.BridgeRemote.{
  get_bridge_remote_semp1_bridge_samples, BridgeRemoteBridge, get_bridge_remote_semp1_samples,
  BridgeRemoteReply,
}
use solace_prometheus_export.Semp.Getters.BridgeDetail.{
  get_bridge_detail_semp1_remote_vpn_samples, BridgeDetailBridge, BridgeDetailBridgeRemoteVpn,
  get_bridge_detail_semp1_samples,
}
use solace_prometheus_export.Semp.Getters.ClientFlows.{
  get_client_message_spool_egress_semp1_client_flow_samples, ClientEgressClient,
  ClientEgressClientFlow, get_client_message_spool_egress_semp1_client_samples,
  get_client_message_spool_egress_semp1_samples, ClientEgressReply,
  get_client_message_spool_stats_semp1_ingress_flow_samples, ClientSpoolClient,
  ClientSpoolClientIngressFlowStats, get_client_message_spool_stats_semp1_egress_flow_samples,
  ClientSpoolClientEgressFlowStats, get_client_message_spool_stats_semp1_samples,
}
use solace_prometheus_export.Semp.Getters.ClientConnections.{
  get_client_connection_stats_semp1_client_samples, ClientConnectionClient,
  get_client_connection_stats_semp1_samples, ClientConnectionReply,
}

module _ {F : Type 0} (lib : GoLib F) where
  pub get_vpn_spool_semp1_samples-AllFit :
      (vpn : VpnSpoolVpn F) → AllFit (get_vpn_spool_semp1_samples lib vpn)
  unfolding get_vpn_spool_semp1_samples fits find_desc metric_desc lookup new_sem_desc
  get_vpn_spool_semp1_samples-AllFit vpn = cons-AllFit refl (
      cons-AllFit refl (
        append-AllFit (branch-AllFit _ (record { all_fit = refl }) (record { all_fit = refl }))
          (record { all_fit = refl })))

  pub get_cluster_links_semp1_cluster_link_samples-AllFit :
      (cluster : ClusterLinksCluster F) (link : ClusterLinksClusterLink F)
      → AllFit (get_cluster_links_semp1_cluster_link_samples lib cluster link)
  unfolding get_cluster_links_semp1_cluster_link_samples fits find_desc metric_desc lookup
      new_sem_desc
  get_cluster_links_semp1_cluster_link_samples-AllFit cluster link = record { all_fit = refl }

  pub get_cluster_links_semp1_cluster_samples-AllFit :
      (cluster : ClusterLinksCluster F)
      → AllFit (get_cluster_links_semp1_cluster_samples lib cluster)
  unfolding get_cluster_links_semp1_cluster_samples fits find_desc metric_desc lookup new_sem_desc
  get_cluster_links_semp1_cluster_samples-AllFit cluster =
      each_samples-AllFit _ (get_cluster_links_semp1_cluster_link_samples-AllFit cluster)

  pub get_cluster_links_semp1_samples-AllFit :
      (reply : ClusterLinksReply F) → AllFit (get_cluster_links_semp1_samples lib reply)
  unfolding get_cluster_links_semp1_samples fits find_desc metric_desc lookup new_sem_desc
  get_cluster_links_semp1_samples-AllFit reply =
      each_samples-AllFit _ get_cluster_links_semp1_cluster_samples-AllFit

  pub get_bridge_remote_semp1_bridge_samples-AllFit :
      (bridge : BridgeRemoteBridge F) → AllFit (get_bridge_remote_semp1_bridge_samples lib bridge)
  unfolding get_bridge_remote_semp1_bridge_samples fits find_desc metric_desc lookup new_sem_desc
  get_bridge_remote_semp1_bridge_samples-AllFit bridge = record { all_fit = refl }

  pub get_bridge_remote_semp1_samples-AllFit :
      (reply : BridgeRemoteReply F) → AllFit (get_bridge_remote_semp1_samples lib reply)
  unfolding get_bridge_remote_semp1_samples fits find_desc metric_desc lookup new_sem_desc
  get_bridge_remote_semp1_samples-AllFit reply = cons-AllFit refl (
      cons-AllFit refl (
        cons-AllFit refl (
          cons-AllFit refl (
            cons-AllFit refl (
              cons-AllFit refl (
                cons-AllFit refl (
                  cons-AllFit refl
                    (each_samples-AllFit _ get_bridge_remote_semp1_bridge_samples-AllFit))))))))

  pub get_bridge_detail_semp1_remote_vpn_samples-AllFit :
      (bridge : BridgeDetailBridge F) (remote_vpn : BridgeDetailBridgeRemoteVpn F)
      → AllFit (get_bridge_detail_semp1_remote_vpn_samples lib bridge remote_vpn)
  unfolding get_bridge_detail_semp1_remote_vpn_samples fits find_desc metric_desc lookup
      new_sem_desc
  get_bridge_detail_semp1_remote_vpn_samples-AllFit bridge remote_vpn = record { all_fit = refl }

  pub get_bridge_detail_semp1_samples-AllFit :
      (bridge : BridgeDetailBridge F) → AllFit (get_bridge_detail_semp1_samples lib bridge)
  unfolding get_bridge_detail_semp1_samples fits find_desc metric_desc lookup new_sem_desc
  get_bridge_detail_semp1_samples-AllFit bridge = cons-AllFit refl (
      cons-AllFit refl (
        cons-AllFit refl (
          cons-AllFit refl (
            cons-AllFit refl (
              cons-AllFit refl (
                cons-AllFit refl (
                  cons-AllFit refl (
                    cons-AllFit refl (
                      each_samples-AllFit _
                        (get_bridge_detail_semp1_remote_vpn_samples-AllFit bridge))))))))))

  pub get_client_message_spool_egress_semp1_client_flow_samples-AllFit :
      (client : ClientEgressClient F) (flow : ClientEgressClientFlow F)
      → AllFit (get_client_message_spool_egress_semp1_client_flow_samples lib client flow)
  unfolding get_client_message_spool_egress_semp1_client_flow_samples fits find_desc metric_desc
      lookup new_sem_desc
  get_client_message_spool_egress_semp1_client_flow_samples-AllFit client flow = record {
    all_fit = refl;
  }

  pub get_client_message_spool_egress_semp1_client_samples-AllFit :
      (client : ClientEgressClient F)
      → AllFit (get_client_message_spool_egress_semp1_client_samples lib client)
  unfolding get_client_message_spool_egress_semp1_client_samples fits find_desc metric_desc lookup
      new_sem_desc
  get_client_message_spool_egress_semp1_client_samples-AllFit client =
      each_samples-AllFit _
        (get_client_message_spool_egress_semp1_client_flow_samples-AllFit client)

  pub get_client_message_spool_egress_semp1_samples-AllFit :
      (reply : ClientEgressReply F)
      → AllFit (get_client_message_spool_egress_semp1_samples lib reply)
  unfolding get_client_message_spool_egress_semp1_samples fits find_desc metric_desc lookup
      new_sem_desc
  get_client_message_spool_egress_semp1_samples-AllFit reply =
      each_samples-AllFit _ get_client_message_spool_egress_semp1_client_samples-AllFit

  pub get_client_message_spool_stats_semp1_ingress_flow_samples-AllFit :
      (client : ClientSpoolClient F) (flow_id : ℕ)
      (ingress_flow : ClientSpoolClientIngressFlowStats F)
      → AllFit (
          get_client_message_spool_stats_semp1_ingress_flow_samples lib client flow_id ingress_flow)
  unfolding get_client_message_spool_stats_semp1_ingress_flow_samples fits find_desc metric_desc
      lookup new_sem_desc
  get_client_message_spool_stats_semp1_ingress_flow_samples-AllFit client flow_id ingress_flow =
      record { all_fit = refl }

  pub get_client_message_spool_stats_semp1_egress_flow_samples-AllFit :
      (client : ClientSpoolClient F) (flow_id : ℕ)
      (egress_flow : ClientSpoolClientEgressFlowStats F)
      → AllFit
          (get_client_message_spool_stats_semp1_egress_flow_samples lib client flow_id egress_flow)
  unfolding get_client_message_spool_stats_semp1_egress_flow_samples fits find_desc metric_desc
      lookup new_sem_desc
  get_client_message_spool_stats_semp1_egress_flow_samples-AllFit client flow_id egress_flow =
      record { all_fit = refl }

  pub get_client_message_spool_stats_semp1_samples-AllFit :
      (client : ClientSpoolClient F)
      → AllFit (get_client_message_spool_stats_semp1_samples lib client)
  unfolding get_client_message_spool_stats_semp1_samples fits find_desc metric_desc lookup
      new_sem_desc
  get_client_message_spool_stats_semp1_samples-AllFit client = cons-AllFit refl (
      cons-AllFit refl (
        append-AllFit
          (each_indexed-AllFit 0 _
            (get_client_message_spool_stats_semp1_ingress_flow_samples-AllFit client))
          (each_indexed-AllFit 0 _
            (get_client_message_spool_stats_semp1_egress_flow_samples-AllFit client))))

  pub get_client_connection_stats_semp1_client_samples-AllFit :
      (client : ClientConnectionClient F)
      → AllFit (get_client_connection_stats_semp1_client_samples lib client)
  unfolding get_client_connection_stats_semp1_client_samples fits find_desc metric_desc lookup
      new_sem_desc
  get_client_connection_stats_semp1_client_samples-AllFit client =
      branch-AllFit _ (record { all_fit = refl }) (record { all_fit = refl })

  pub get_client_connection_stats_semp1_samples-AllFit :
      (reply : ClientConnectionReply F)
      → AllFit (get_client_connection_stats_semp1_samples lib reply)
  unfolding get_client_connection_stats_semp1_samples fits find_desc metric_desc lookup new_sem_desc
  get_client_connection_stats_semp1_samples-AllFit reply =
      each_samples-AllFit _ get_client_connection_stats_semp1_client_samples-AllFit
