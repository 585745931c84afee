-- ===== src/Collector/Broker.antt =====
-- The scrapes of a broker: the methods of semp.Semp as the dispatch of CollectPrometheusMetric calls
-- them, over one HTTP client. The decoders of encoding/xml and encoding/json are parameters, one for
-- each type of reply.
pub mod Safe
pub mod EndToEnd
use solace_prometheus_export.Prelude.{ℕ, String, List}
use solace_prometheus_export.Prelude.Result.{Result}
use solace_prometheus_export.Semp.{Http, Semp, Target}
use solace_prometheus_export.Semp.GoLib.{GoLib}
use solace_prometheus_export.Semp.V2.{Response, get_queue_stats_semp2}
use solace_prometheus_export.Semp.Getters.BridgeClientCert.{
  BridgeClientCert, CertLib, get_bridge_client_cert_semp1,
}
use solace_prometheus_export.Semp.Getters.BridgeDetail.{BridgeDetailBridge, get_bridge_detail_semp1}
use solace_prometheus_export.Semp.Getters.BridgeRemote.{BridgeRemoteReply, get_bridge_remote_semp1}
use solace_prometheus_export.Semp.Getters.BridgeStats.{BridgeStat, get_bridge_stats_semp1}
use solace_prometheus_export.Semp.Getters.Bridges.{BridgeReply, get_bridge_semp1}
use solace_prometheus_export.Semp.Getters.ClientConnections.{
  ClientConnectionReply, get_client_connection_stats_semp1,
}
use solace_prometheus_export.Semp.Getters.ClientFlows.{
  ClientEgressReply, get_client_message_spool_egress_semp1, ClientSpoolClient,
  get_client_message_spool_stats_semp1,
}
use solace_prometheus_export.Semp.Getters.Clients.{
  Client, get_client_semp1, SlowSubscriber, get_client_slow_subscriber_semp1, ClientStat,
  get_client_stats_semp1, ClientProfile, get_client_profile_semp1,
}
use solace_prometheus_export.Semp.Getters.Disks.{
  DiskReply, get_disk_semp1, StorageElementsReply, get_storage_element_semp1, ClockDetail,
  get_clock_detail_semp1, Alarm, get_alarm_semp1,
}
use solace_prometheus_export.Semp.Getters.GlobalStats.{
  GlobalSystemInfo, get_global_system_info_semp1, GlobalStats, get_global_stats_semp1,
}
use solace_prometheus_export.Semp.Getters.Hardware.{
  EnvironmentReply, get_environment_semp1, HardwareReply, get_hardware_semp1,
}
use solace_prometheus_export.Semp.Getters.Memory.{
  MemoryReply, get_memory_semp1, InterfaceHwReply, get_interface_hw_semp1,
}
use solace_prometheus_export.Semp.Getters.Queues.{
  QueueRate, get_queue_rates_semp1, QueueStat, get_queue_stats_semp1, QueueDetail,
  get_queue_details_semp1,
}
use solace_prometheus_export.Semp.Getters.Redundancy.{
  Redundancy, get_redundancy_semp1, ReplicationStats, get_replication_stats_semp1,
}
use solace_prometheus_export.Semp.Getters.Rest.{
  RestConsumerStat, get_rest_consumer_stats_semp1, RdpStat, get_rdp_stats_semp1, RdpInfoReply,
  get_rdp_info_semp1, MqttSession, get_mqtt_session_semp1,
}
use solace_prometheus_export.Semp.Getters.Spool.{SpoolReply, get_spool_semp1}
use solace_prometheus_export.Semp.Getters.SpoolStats.{SpoolStats, get_spool_stats_semp1}
use solace_prometheus_export.Semp.Getters.System.{
  Health, get_health_semp1, Interface, get_interface_semp1, ConfigSync, get_config_sync_semp1,
  ConfigSyncRouterTable, get_config_sync_router_semp1, RaidDiskReply, get_raid_semp1,
}
use solace_prometheus_export.Semp.Getters.TopicEndpoints.{
  TopicEndpointRate, get_topic_endpoint_rates_semp1, TopicEndpointStat,
  get_topic_endpoint_stats_semp1, TopicEndpointDetail, get_topic_endpoint_details_semp1,
}
use solace_prometheus_export.Semp.Getters.Version.{Version, get_version_semp1}
use solace_prometheus_export.Semp.Getters.VpnSpool.{
  VpnSpoolVpn, get_vpn_spool_semp1, ClusterLinksReply, get_cluster_links_semp1,
}
use solace_prometheus_export.Semp.Getters.Vpns.{
  Vpn, get_vpn_semp1, VpnStat, get_vpn_stats_semp1, VpnReplication, get_vpn_replication_semp1,
  ConfigSyncVpnTable, get_config_sync_vpn_semp1,
}
use solace_prometheus_export.Collector.Dispatch.{Scrapes}

pub record Decoders (F Body : Type 0) : Type 0 where
  pub decode_version : Body → Result String (Target (Version F))
  pub decode_health : Body → Result String (Target (Health F))
  pub decode_storage_element : Body → Result String (Target (StorageElementsReply F))
  pub decode_disk : Body → Result String (Target (DiskReply F))
  pub decode_raid : Body → Result String (Target (RaidDiskReply F))
  pub decode_memory : Body → Result String (Target (MemoryReply F))
  pub decode_interface : Body → Result String (Target (List (Interface F)))
  pub decode_interface_hw : Body → Result String (Target (InterfaceHwReply F))
  pub decode_global_stats : Body → Result String (Target (GlobalStats F))
  pub decode_global_system_info : Body → Result String (Target (GlobalSystemInfo F))
  pub decode_spool : Body → Result String (Target (SpoolReply F))
  pub decode_spool_stats : Body → Result String (Target (SpoolStats F))
  pub decode_redundancy : Body → Result String (Target (Redundancy F))
  pub decode_alarm : Body → Result String (Target (Alarm F))
  pub decode_environment : Body → Result String (Target (EnvironmentReply F))
  pub decode_hardware : Body → Result String (Target (HardwareReply F))
  pub decode_clock_detail : Body → Result String (Target (ClockDetail F))
  pub decode_replication_stats : Body → Result String (Target (ReplicationStats F))
  pub decode_config_sync_router : Body → Result String (Target (List (ConfigSyncRouterTable F)))
  pub decode_config_sync : Body → Result String (Target (ConfigSync F))
  pub decode_vpn : Body → Result String (Target (List (Vpn F)))
  pub decode_vpn_replication : Body → Result String (Target (List (VpnReplication F)))
  pub decode_config_sync_vpn : Body → Result String (Target (List (ConfigSyncVpnTable F)))
  pub decode_bridge : Body → Result String (Target (BridgeReply F))
  pub decode_bridge_remote : Body → Result String (Target (BridgeRemoteReply F))
  pub decode_bridge_detail : Body → Result String (Target (List (BridgeDetailBridge F)))
  pub decode_bridge_client_cert : Body → Result String (Target (List (BridgeClientCert F)))
  pub decode_vpn_spool : Body → Result String (Target (List (VpnSpoolVpn F)))
  pub decode_client : Body → Result String (Target (List (Client F)))
  pub decode_client_profile : Body → Result String (Target (List (ClientProfile F)))
  pub decode_client_slow_subscriber : Body → Result String (Target (List (SlowSubscriber F)))
  pub decode_client_stats : Body → Result String (Target (List (ClientStat F)))
  pub decode_client_connection_stats : Body → Result String (Target (ClientConnectionReply F))
  pub decode_client_message_spool_stats : Body → Result String (Target (List (ClientSpoolClient F)))
  pub decode_client_message_spool_egress : Body → Result String (Target (ClientEgressReply F))
  pub decode_cluster_links : Body → Result String (Target (ClusterLinksReply F))
  pub decode_vpn_stats : Body → Result String (Target (List (VpnStat F)))
  pub decode_bridge_stats : Body → Result String (Target (List (BridgeStat F)))
  pub decode_queue_rates : Body → Result String (Target (List (QueueRate F)))
  pub decode_queue_stats : Body → Result String (Target (List (QueueStat F)))
  pub decode_queue_stats_v2 : String → Result String (Response F)
  pub decode_queue_details : Body → Result String (Target (List (QueueDetail F)))
  pub decode_topic_endpoint_rates : Body → Result String (Target (List (TopicEndpointRate F)))
  pub decode_topic_endpoint_stats : Body → Result String (Target (List (TopicEndpointStat F)))
  pub decode_topic_endpoint_details : Body → Result String (Target (List (TopicEndpointDetail F)))
  pub decode_rest_consumer_stats : Body → Result String (Target (List (RestConsumerStat F)))
  pub decode_rdp_stats : Body → Result String (Target (List (RdpStat F)))
  pub decode_rdp_info : Body → Result String (Target (RdpInfoReply F))
  pub decode_mqtt_session : Body → Result String (Target (List (MqttSession F)))

module _ {F Body : Type 0} (lib : GoLib F) (certs : CertLib) (escape : String → String)
    (http : Http Body) (decoders : Decoders F Body) (semp : Semp) where
  -- `fuel` bounds the pages of each scrape.
  unfoldable pub broker_scrapes : ℕ → Scrapes F
  broker_scrapes fuel = record {
    get_version_semp1 = get_version_semp1 lib http decoders.decode_version semp;
    get_health_semp1 = get_health_semp1 lib http decoders.decode_health semp;
    get_storage_element_semp1 =
        get_storage_element_semp1 lib http decoders.decode_storage_element semp;
    get_disk_semp1 = get_disk_semp1 lib http decoders.decode_disk semp;
    get_raid_semp1 = get_raid_semp1 lib http decoders.decode_raid semp;
    get_memory_semp1 = get_memory_semp1 lib http decoders.decode_memory semp;
    get_interface_semp1 = get_interface_semp1 lib http decoders.decode_interface semp;
    get_interface_hw_semp1 = get_interface_hw_semp1 lib http decoders.decode_interface_hw semp;
    get_global_stats_semp1 = get_global_stats_semp1 lib http decoders.decode_global_stats semp;
    get_global_system_info_semp1 =
        get_global_system_info_semp1 lib http decoders.decode_global_system_info semp;
    get_spool_semp1 = get_spool_semp1 lib http decoders.decode_spool semp;
    get_spool_stats_semp1 = get_spool_stats_semp1 lib http decoders.decode_spool_stats semp;
    get_redundancy_semp1 = get_redundancy_semp1 lib http decoders.decode_redundancy semp;
    get_alarm_semp1 = get_alarm_semp1 lib http decoders.decode_alarm semp;
    get_environment_semp1 = get_environment_semp1 lib http decoders.decode_environment semp;
    get_hardware_semp1 = get_hardware_semp1 lib http decoders.decode_hardware semp;
    get_clock_detail_semp1 = get_clock_detail_semp1 lib http decoders.decode_clock_detail semp;
    get_replication_stats_semp1 =
        get_replication_stats_semp1 lib http decoders.decode_replication_stats semp;
    get_config_sync_router_semp1 =
        get_config_sync_router_semp1 lib http decoders.decode_config_sync_router semp;
    get_config_sync_semp1 = get_config_sync_semp1 lib http decoders.decode_config_sync semp;
    get_vpn_semp1 = get_vpn_semp1 lib http decoders.decode_vpn semp fuel;
    get_vpn_replication_semp1 =
        get_vpn_replication_semp1 lib http decoders.decode_vpn_replication semp;
    get_config_sync_vpn_semp1 =
        get_config_sync_vpn_semp1 lib http decoders.decode_config_sync_vpn semp fuel;
    get_bridge_semp1 = get_bridge_semp1 lib http decoders.decode_bridge semp fuel;
    get_bridge_remote_semp1 = get_bridge_remote_semp1 lib http decoders.decode_bridge_remote semp;
    get_bridge_detail_semp1 =
        get_bridge_detail_semp1 lib http decoders.decode_bridge_detail semp fuel;
    get_bridge_client_cert_semp1 =
        get_bridge_client_cert_semp1 lib certs http decoders.decode_bridge_client_cert semp fuel;
    get_vpn_spool_semp1 = get_vpn_spool_semp1 lib http decoders.decode_vpn_spool semp fuel;
    get_client_semp1 = get_client_semp1 lib http decoders.decode_client semp fuel;
    get_client_profile_semp1 =
        get_client_profile_semp1 lib http decoders.decode_client_profile semp;
    get_client_slow_subscriber_semp1 =
        get_client_slow_subscriber_semp1 lib http decoders.decode_client_slow_subscriber semp fuel;
    get_client_stats_semp1 = get_client_stats_semp1 lib http decoders.decode_client_stats semp fuel;
    get_client_connection_stats_semp1 =
        get_client_connection_stats_semp1 lib http decoders.decode_client_connection_stats semp;
    get_client_message_spool_stats_semp1 =
        get_client_message_spool_stats_semp1 lib http decoders.decode_client_message_spool_stats
          semp fuel;
    get_client_message_spool_egress_semp1 =
        get_client_message_spool_egress_semp1 lib http decoders.decode_client_message_spool_egress
          semp;
    get_cluster_links_semp1 = get_cluster_links_semp1 lib http decoders.decode_cluster_links semp;
    get_vpn_stats_semp1 = get_vpn_stats_semp1 lib http decoders.decode_vpn_stats semp fuel;
    get_bridge_stats_semp1 = get_bridge_stats_semp1 lib http decoders.decode_bridge_stats semp fuel;
    get_queue_rates_semp1 = get_queue_rates_semp1 lib http decoders.decode_queue_rates semp fuel;
    get_queue_stats_semp1 = get_queue_stats_semp1 lib http decoders.decode_queue_stats semp fuel;
    get_queue_stats_semp2 =
        get_queue_stats_semp2 escape http decoders.decode_queue_stats_v2 semp fuel;
    get_queue_details_semp1 =
        get_queue_details_semp1 lib http decoders.decode_queue_details semp fuel;
    get_topic_endpoint_rates_semp1 =
        get_topic_endpoint_rates_semp1 lib http decoders.decode_topic_endpoint_rates semp fuel;
    get_topic_endpoint_stats_semp1 =
        get_topic_endpoint_stats_semp1 lib http decoders.decode_topic_endpoint_stats semp fuel;
    get_topic_endpoint_details_semp1 =
        get_topic_endpoint_details_semp1 lib http decoders.decode_topic_endpoint_details semp fuel;
    get_rest_consumer_stats_semp1 =
        get_rest_consumer_stats_semp1 lib http decoders.decode_rest_consumer_stats semp fuel;
    get_rdp_stats_semp1 = get_rdp_stats_semp1 lib http decoders.decode_rdp_stats semp fuel;
    get_rdp_info_semp1 = get_rdp_info_semp1 lib http decoders.decode_rdp_info semp fuel;
    get_mqtt_session_semp1 = get_mqtt_session_semp1 lib http decoders.decode_mqtt_session semp fuel;
  }
