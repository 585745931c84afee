-- ===== src/Semp/Getters/VpnSpool.antt =====
-- The scrapes of the message spools of the VPNs and the links of clusters: getVpnSpoolSemp1.go, getClusterLinksSemp1.go of internal/semp.
use solace_prometheus_export.Prelude.{ℕ, String, List, [], ◌∷◌}
use Prim.Native.String.{◌++◌ as ◌<>◌}
use solace_prometheus_export.Prelude.Int.{ℤ, pos, negsuc}
use solace_prometheus_export.Prelude.Result.{Result}
use solace_prometheus_export.Metric.{gauge}
use solace_prometheus_export.Metric.Encode.{encode_metric_multi}
use solace_prometheus_export.Metric.Run.{Run}
use solace_prometheus_export.Semp.{
  Http, Semp, Target, Status, execute_ok, scrape_once, scrape_pages,
}
use solace_prometheus_export.Semp.Samples.{Sample, sample, send_all}
use solace_prometheus_export.Semp.Blocks.{◌<+>◌, branch, each_samples}
use solace_prometheus_export.Semp.Distinct.{distinct_items}
use solace_prometheus_export.Semp.GoLib.{GoLib}

-- The fields of one item, the nested structs written flat.
pub record VpnSpoolVpn (F : Type 0) : Type 0 where
  pub name : String
  pub spooled_msg_count : F
  pub spool_usage_current_mb : F
  pub spool_usage_max_mb : F
  pub current_endpoints : F
  pub maximum_endpoints : F
  pub current_egress_flows : F
  pub maximum_egress_flows : F
  pub current_ingress_flows : F
  pub maximum_ingress_flows : F
  pub transacted_sessions : F
  pub max_transacted_sessions : F
  pub transactied_msgs : F

unfoldable pub get_vpn_spool_semp1_key : {F : Type 0} → VpnSpoolVpn F → String
get_vpn_spool_semp1_key vpn = vpn.name

module _ {F : Type 0} (lib : GoLib F) where
  unfoldable pub get_vpn_spool_semp1_samples : VpnSpoolVpn F → List (Sample F)
  get_vpn_spool_semp1_samples vpn =
      let labels = vpn.name ∷ [] in
      sample "VpnSpool" "vpn_spool_quota_bytes" gauge
        (lib.mul (lib.mul vpn.spool_usage_max_mb (lib.of_ℤ (pos 1024))) (lib.of_ℤ (pos 1024)))
        labels
      ∷ sample "VpnSpool" "vpn_spool_usage_bytes" gauge
          (lib.mul (lib.mul vpn.spool_usage_current_mb (lib.of_ℤ (pos 1024))) (lib.of_ℤ (pos 1024)))
          labels
      ∷ ((branch (lib.less (lib.of_ℤ (pos 0)) vpn.spool_usage_max_mb)
            (sample "VpnSpool" "vpn_spool_usage_pct" gauge
                (lib.round (
                  lib.mul (lib.div vpn.spool_usage_current_mb vpn.spool_usage_max_mb)
                    (lib.of_ℤ (pos 100))))
                labels
              ∷ [])
            (sample "VpnSpool" "vpn_spool_usage_pct" gauge (lib.of_ℤ (negsuc 0)) labels ∷ []))
          <+> (sample "VpnSpool" "vpn_spool_usage_msgs" gauge vpn.spooled_msg_count labels
              ∷ sample "VpnSpool" "vpn_spool_current_endpoints" gauge vpn.current_endpoints labels
              ∷ sample "VpnSpool" "vpn_spool_maximum_endpoints" gauge vpn.maximum_endpoints labels
              ∷ sample "VpnSpool" "vpn_spool_current_egress_flows" gauge vpn.current_egress_flows
                  labels
              ∷ sample "VpnSpool" "vpn_spool_maximum_egress_flows" gauge vpn.maximum_egress_flows
                  labels
              ∷ sample "VpnSpool" "vpn_spool_current_ingress_flows" gauge vpn.current_ingress_flows
                  labels
              ∷ sample "VpnSpool" "vpn_spool_maximum_ingress_flows" gauge vpn.maximum_ingress_flows
                  labels
              ∷ sample "VpnSpool" "vpn_spool_current_transacted_sessions" gauge
                  vpn.transacted_sessions labels
              ∷ sample "VpnSpool" "vpn_spool_maximum_transacted_sessions" gauge
                  vpn.max_transacted_sessions labels
              ∷ sample "VpnSpool" "vpn_spool_current_transacted_msgs" gauge vpn.transactied_msgs
                  labels
              ∷ []))

  unfoldable pub get_vpn_spool_semp1 :
      {Body : Type 0} (http : Http Body)
      (decode : Body → Result String (Target (List (VpnSpoolVpn F)))) (semp : Semp) (fuel : ℕ)
      → String
      → ℤ
      → Run F Status
  get_vpn_spool_semp1 http decode semp fuel vpn_filter page_size =
      scrape_pages http decode execute_ok semp
        (distinct_items get_vpn_spool_semp1_key (λ vpn. send_all (get_vpn_spool_semp1_samples vpn)))
        fuel 1 ""
        (lib.sprintf
          (("<rpc><show><message-spool><vpn-name>" <> vpn_filter)
            <> "</vpn-name><detail/><count/><num-elements>%d</num-elements></message-spool></show></rpc>")
          page_size)

-- The fields of one item, the nested structs written flat.
pub record ClusterLinksClusterLink (F : Type 0) : Type 0 where
  pub enabled : String
  pub operational : String
  pub uptime_in_seconds : F
  pub remote_cluster_name : String
  pub remote_node_name : String

-- The fields of one item, the nested structs written flat.
pub record ClusterLinksCluster (F : Type 0) : Type 0 where
  pub cluster_name : String
  pub node_name : String
  pub link : List (ClusterLinksClusterLink F)

-- The fields of the reply, the nested structs written flat.
pub record ClusterLinksReply (F : Type 0) : Type 0 where
  pub cluster : List (ClusterLinksCluster F)

module _ {F : Type 0} (lib : GoLib F) where
  unfoldable pub get_cluster_links_semp1_cluster_link_samples :
      ClusterLinksCluster F → ClusterLinksClusterLink F → List (Sample F)
  get_cluster_links_semp1_cluster_link_samples cluster link =
      sample "ClusterLinks" "enabled" gauge
        (lib.of_ℤ (encode_metric_multi link.enabled ("false" ∷ "true" ∷ "n/a" ∷ [])))
        (cluster.cluster_name ∷ cluster.node_name ∷ link.remote_cluster_name ∷ link.remote_node_name
          ∷ [])
      ∷ sample "ClusterLinks" "oper_up" gauge
          (lib.of_ℤ (encode_metric_multi link.operational ("false" ∷ "true" ∷ "n/a" ∷ [])))
          (cluster.cluster_name ∷ cluster.node_name ∷ link.remote_cluster_name
            ∷ link.remote_node_name ∷ [])
      ∷ sample "ClusterLinks" "oper_uptime" gauge link.uptime_in_seconds (
          cluster.cluster_name ∷ cluster.node_name ∷ link.remote_cluster_name
          ∷ link.remote_node_name ∷ [])
      ∷ []

  unfoldable pub get_cluster_links_semp1_cluster_samples : ClusterLinksCluster F → List (Sample F)
  get_cluster_links_semp1_cluster_samples cluster =
      each_samples (get_cluster_links_semp1_cluster_link_samples cluster) cluster.link

  unfoldable pub get_cluster_links_semp1_samples : ClusterLinksReply F → List (Sample F)
  get_cluster_links_semp1_samples reply =
      each_samples get_cluster_links_semp1_cluster_samples reply.cluster

  unfoldable pub get_cluster_links_semp1 :
      {Body : Type 0} (http : Http Body)
      (decode : Body → Result String (Target (ClusterLinksReply F))) (semp : Semp)
      → String
      → String
      → Run F Status
  get_cluster_links_semp1 http decode semp cluster_filter link_filter =
      scrape_once http decode execute_ok semp
        (((("<rpc><show><cluster><cluster-name-pattern>" <> cluster_filter)
              <> "</cluster-name-pattern><link-name-pattern>")
            <> link_filter)
          <> "</link-name-pattern></cluster></show></rpc>")
        (λ reply. send_all (get_cluster_links_semp1_samples reply))
