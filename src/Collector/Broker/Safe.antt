-- ===== src/Collector/Broker/Safe.antt =====
-- What the scrapes of a broker send.
use solace_prometheus_export.Prelude.{ℕ, String, List, Bool-cases, inl, inr}
use solace_prometheus_export.Semp.Samples.{IsSound}
use solace_prometheus_export.Semp.{Http, Semp, Status}
use solace_prometheus_export.Prelude.Result.{Result, ok, err}
use solace_prometheus_export.Metric.Run.{Run, AllSent}
use solace_prometheus_export.Semp.GoLib.{GoLib}
use solace_prometheus_export.Semp.Safe.{IsSafe, safe, pure-IsSafe}
use solace_prometheus_export.Semp.V2.{get_queue_stats_semp2, on_fields, select_fields}
use solace_prometheus_export.Semp.Getters.BridgeClientCert.{CertLib, get_bridge_client_cert_semp1}
use solace_prometheus_export.Semp.Getters.BridgeDetail.{get_bridge_detail_semp1}
use solace_prometheus_export.Semp.Getters.BridgeRemote.{get_bridge_remote_semp1}
use solace_prometheus_export.Semp.Getters.BridgeStats.{get_bridge_stats_semp1}
use solace_prometheus_export.Semp.Getters.Bridges.{get_bridge_semp1}
use solace_prometheus_export.Semp.Getters.ClientConnections.{get_client_connection_stats_semp1}
use solace_prometheus_export.Semp.Getters.ClientFlows.{
  get_client_message_spool_egress_semp1, get_client_message_spool_stats_semp1,
}
use solace_prometheus_export.Semp.Getters.Clients.{
  get_client_semp1, get_client_slow_subscriber_semp1, get_client_stats_semp1,
  get_client_profile_semp1,
}
use solace_prometheus_export.Semp.Getters.Disks.{
  get_disk_semp1, get_storage_element_semp1, get_clock_detail_semp1, get_alarm_semp1,
}
use solace_prometheus_export.Semp.Getters.GlobalStats.{
  get_global_system_info_semp1, get_global_stats_semp1,
}
use solace_prometheus_export.Semp.Getters.Hardware.{get_environment_semp1, get_hardware_semp1}
use solace_prometheus_export.Semp.Getters.Memory.{get_memory_semp1, get_interface_hw_semp1}
use solace_prometheus_export.Semp.Getters.Queues.{
  get_queue_rates_semp1, get_queue_stats_semp1, get_queue_details_semp1,
}
use solace_prometheus_export.Semp.Getters.Redundancy.{
  get_redundancy_semp1, get_replication_stats_semp1,
}
use solace_prometheus_export.Semp.Getters.Rest.{
  get_rest_consumer_stats_semp1, get_rdp_stats_semp1, get_rdp_info_semp1, get_mqtt_session_semp1,
}
use solace_prometheus_export.Semp.Getters.Spool.{get_spool_semp1}
use solace_prometheus_export.Semp.Getters.SpoolStats.{get_spool_stats_semp1}
use solace_prometheus_export.Semp.Getters.System.{
  get_health_semp1, get_interface_semp1, get_config_sync_semp1, get_config_sync_router_semp1,
  get_raid_semp1,
}
use solace_prometheus_export.Semp.Getters.TopicEndpoints.{
  get_topic_endpoint_rates_semp1, get_topic_endpoint_stats_semp1, get_topic_endpoint_details_semp1,
}
use solace_prometheus_export.Semp.Getters.Version.{get_version_semp1}
use solace_prometheus_export.Semp.Getters.VpnSpool.{get_vpn_spool_semp1, get_cluster_links_semp1}
use solace_prometheus_export.Semp.Getters.Vpns.{
  get_vpn_semp1, get_vpn_stats_semp1, get_vpn_replication_semp1, get_config_sync_vpn_semp1,
}
use solace_prometheus_export.DataSource.{DataSource}
use solace_prometheus_export.Collector.Dispatch.{
  Kind, CollectConfig, Scrapes, Platform, any, software, call, on_platform, dispatch, platform,
  kind_of, with_vpn, get_vpn_name, version, health, storage_element, disk, raid, memory, interface,
  interface_hw, global_stats, global_system_info, spool, spool_stats, redundancy, alarm,
  environment, hardware, clock_detail, replication_stats, config_sync_router, config_sync, vpn,
  vpn_replication, config_sync_vpn, bridge, bridge_remote, bridge_detail, bridge_client_cert,
  vpn_spool, client, client_profile, client_slow_subscriber, client_stats, client_connections,
  client_message_spool_stats, client_message_spool_egress, cluster_links, vpn_stats, bridge_stats,
  queue_rates, queue_stats, queue_stats_v2, queue_details, topic_endpoint_rates,
  topic_endpoint_stats, topic_endpoint_details, rest_consumer_stats, rdp_stats, rdp_info,
  mqtt_session, unknown,
}
use solace_prometheus_export.Collector.Broker.{Decoders, broker_scrapes}

module _ {F : Type 0} where
  with_vpn-IsSafe :
      (scrapes : Scrapes F) (conf : CollectConfig) (r : Result String String)
      {k : String → Run F Status}
      → ((vpn_name : String) → IsSafe (k vpn_name))
      → IsSafe (with_vpn scrapes conf r k)
  with_vpn-IsSafe scrapes conf (ok vpn_name) h = h vpn_name
  with_vpn-IsSafe scrapes conf (err e) h = pure-IsSafe _

  on_fields-IsSafe :
      (r : Result String (List String)) {k : List String → Run F Status}
      → ((fields : List String) → IsSafe (k fields))
      → IsSafe (on_fields r k)
  on_fields-IsSafe (ok fields) h = h fields
  on_fields-IsSafe (err item) h = pure-IsSafe _

  queue_stats_v2-IsSafe :
      {Body : Type 0} (escape : String → String) (http : Http Body) (decoders : Decoders F Body)
      (semp : Semp) (fuel : ℕ) (vpn_name item_filter : String) (metric_filter : List String)
      → IsSafe (
          get_queue_stats_semp2 escape http decoders.decode_queue_stats_v2 semp fuel vpn_name
            item_filter metric_filter)
  unfolding get_queue_stats_semp2
  queue_stats_v2-IsSafe escape http decoders semp fuel vpn_name item_filter metric_filter =
      on_fields-IsSafe (select_fields metric_filter) (λ fields. search safe)

module _ {F Body : Type 0} (lib : GoLib F) (certs : CertLib) (escape : String → String)
    (http : Http Body) (decoders : Decoders F Body) (semp : Semp) (fuel : ℕ)
    (conf : CollectConfig) where
  -- Each case of the dispatch.
  call-IsSafe :
      (k : Kind) (ds : DataSource)
      → IsSafe (call (broker_scrapes lib certs escape http decoders semp fuel) conf k ds)
  unfolding call broker_scrapes get_alarm_semp1 get_bridge_client_cert_semp1 get_bridge_detail_semp1
      get_bridge_remote_semp1 get_bridge_semp1 get_bridge_stats_semp1
      get_client_connection_stats_semp1 get_client_message_spool_egress_semp1
      get_client_message_spool_stats_semp1 get_client_profile_semp1 get_client_semp1
      get_client_slow_subscriber_semp1 get_client_stats_semp1 get_clock_detail_semp1
      get_cluster_links_semp1 get_config_sync_router_semp1 get_config_sync_semp1
      get_config_sync_vpn_semp1 get_disk_semp1 get_environment_semp1 get_global_stats_semp1
      get_global_system_info_semp1 get_hardware_semp1 get_health_semp1 get_interface_hw_semp1
      get_interface_semp1 get_memory_semp1 get_mqtt_session_semp1 get_queue_details_semp1
      get_queue_rates_semp1 get_queue_stats_semp1 get_raid_semp1 get_rdp_info_semp1
      get_rdp_stats_semp1 get_redundancy_semp1 get_replication_stats_semp1
      get_rest_consumer_stats_semp1 get_spool_semp1 get_spool_stats_semp1 get_storage_element_semp1
      get_topic_endpoint_details_semp1 get_topic_endpoint_rates_semp1 get_topic_endpoint_stats_semp1
      get_version_semp1 get_vpn_replication_semp1 get_vpn_semp1 get_vpn_spool_semp1
      get_vpn_stats_semp1
  call-IsSafe version ds = search safe
  call-IsSafe health ds = search safe
  call-IsSafe storage_element ds = search safe
  call-IsSafe disk ds = search safe
  call-IsSafe raid ds = search safe
  call-IsSafe memory ds = search safe
  call-IsSafe interface ds = search safe
  call-IsSafe interface_hw ds = search safe
  call-IsSafe global_stats ds = search safe
  call-IsSafe global_system_info ds = search safe
  call-IsSafe spool ds = search safe
  call-IsSafe spool_stats ds = search safe
  call-IsSafe redundancy ds = search safe
  call-IsSafe alarm ds = search safe
  call-IsSafe environment ds = search safe
  call-IsSafe hardware ds = search safe
  call-IsSafe clock_detail ds = search safe
  call-IsSafe replication_stats ds = search safe
  call-IsSafe config_sync_router ds = search safe
  call-IsSafe config_sync ds = search safe
  call-IsSafe vpn ds = search safe
  call-IsSafe vpn_replication ds = search safe
  call-IsSafe config_sync_vpn ds = search safe
  call-IsSafe bridge ds = search safe
  call-IsSafe bridge_remote ds = search safe
  call-IsSafe bridge_detail ds = search safe
  call-IsSafe bridge_client_cert ds = search safe
  call-IsSafe vpn_spool ds = search safe
  call-IsSafe client ds = search safe
  call-IsSafe client_profile ds = search safe
  call-IsSafe client_slow_subscriber ds = search safe
  call-IsSafe client_stats ds = search safe
  call-IsSafe client_connections ds = search safe
  call-IsSafe client_message_spool_stats ds = search safe
  call-IsSafe client_message_spool_egress ds = search safe
  call-IsSafe cluster_links ds = search safe
  call-IsSafe vpn_stats ds = search safe
  call-IsSafe bridge_stats ds = search safe
  call-IsSafe queue_rates ds = search safe
  call-IsSafe queue_stats ds = search safe
  call-IsSafe queue_stats_v2 ds =
      with_vpn-IsSafe (broker_scrapes lib certs escape http decoders semp fuel) conf
        (get_vpn_name conf ds.vpn_filter)
        (λ vpn_name.
          queue_stats_v2-IsSafe escape http decoders semp fuel vpn_name ds.item_filter
            ds.metric_filter)
  call-IsSafe queue_details ds = search safe
  call-IsSafe topic_endpoint_rates ds = search safe
  call-IsSafe topic_endpoint_stats ds = search safe
  call-IsSafe topic_endpoint_details ds = search safe
  call-IsSafe rest_consumer_stats ds = search safe
  call-IsSafe rdp_stats ds = search safe
  call-IsSafe rdp_info ds = search safe
  call-IsSafe mqtt_session ds = search safe
  call-IsSafe unknown ds = pure-IsSafe _

  on_platform-IsSafe :
      (p : Platform) (k : Kind) (ds : DataSource)
      → IsSafe (on_platform (broker_scrapes lib certs escape http decoders semp fuel) conf p k ds)
  unfolding on_platform get_vpn_name
  on_platform-IsSafe any k ds = call-IsSafe k ds
  on_platform-IsSafe software k ds = elim (Bool-cases conf.is_hw_broker) [
    | inl e ↦ rw e (pure-IsSafe _)
    | inr e ↦ rw e (call-IsSafe k ds)
  ]
  on_platform-IsSafe hardware k ds = elim (Bool-cases conf.is_hw_broker) [
    | inl e ↦ rw e (call-IsSafe k ds)
    | inr e ↦ rw e (pure-IsSafe _)
  ]

  dispatch-IsSafe :
      (ds : DataSource)
      → IsSafe (dispatch (broker_scrapes lib certs escape http decoders semp fuel) conf ds)
  unfolding dispatch
  dispatch-IsSafe ds = on_platform-IsSafe (platform (kind_of ds.name)) (kind_of ds.name) ds

  -- Whatever the broker answers, the scrape of a data source sends only metrics with a value for each
  -- label, and not marked as deprecated.
  pub broker_scrapes-IsSound :
      (ds : DataSource)
      → AllSent IsSound (dispatch (broker_scrapes lib certs escape http decoders semp fuel) conf ds)
  broker_scrapes-IsSound ds = (dispatch-IsSafe ds).sends_sound
