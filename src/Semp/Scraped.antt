-- ===== src/Semp/Scraped.antt =====
-- What the replies hold that becomes metrics, and the samples of each.
pub mod Fits
use solace_prometheus_export.Prelude.{String, List}
use solace_prometheus_export.Semp.{Semp}
use solace_prometheus_export.Semp.GoLib.{GoLib}
use solace_prometheus_export.Semp.Samples.{Sample}
use solace_prometheus_export.Semp.Getters.Queues.{
  QueueRate, get_queue_rates_semp1_samples, QueueStat, get_queue_stats_semp1_samples, QueueDetail,
  get_queue_details_semp1_samples,
}
use solace_prometheus_export.Semp.Getters.TopicEndpoints.{
  TopicEndpointRate, get_topic_endpoint_rates_semp1_samples, TopicEndpointStat,
  get_topic_endpoint_stats_semp1_samples, TopicEndpointDetail,
  get_topic_endpoint_details_semp1_samples,
}
use solace_prometheus_export.Semp.Getters.Vpns.{
  Vpn, get_vpn_semp1_samples, VpnStat, get_vpn_stats_semp1_samples, VpnReplication,
  get_vpn_replication_semp1_samples, ConfigSyncVpnTable, get_config_sync_vpn_semp1_samples,
}
use solace_prometheus_export.Semp.Getters.Clients.{
  Client, get_client_semp1_samples, SlowSubscriber, get_client_slow_subscriber_semp1_samples,
  ClientStat, get_client_stats_semp1_samples, ClientProfile, get_client_profile_semp1_samples,
}
use solace_prometheus_export.Semp.Getters.Rest.{
  RestConsumerStat, get_rest_consumer_stats_semp1_samples, RdpStat, get_rdp_stats_semp1_samples,
  RdpInfo, get_rdp_info_semp1_samples, RdpInfoReply, get_rdp_info_semp1_head, MqttSession,
  get_mqtt_session_semp1_samples,
}
use solace_prometheus_export.Semp.Getters.Bridges.{
  Bridge, get_bridge_semp1_samples, BridgeReply, get_bridge_semp1_head,
}
use solace_prometheus_export.Semp.Getters.BridgeStats.{BridgeStat, get_bridge_stats_semp1_samples}
use solace_prometheus_export.Semp.Getters.System.{
  Health, get_health_semp1_samples, Interface, get_interface_semp1_samples, ConfigSync,
  get_config_sync_semp1_samples, ConfigSyncRouterTable, get_config_sync_router_semp1_samples,
  RaidDisk, get_raid_semp1_samples, RaidDiskReply, get_raid_semp1_tail,
}
use solace_prometheus_export.Semp.Getters.Disks.{
  DiskReply, get_disk_semp1_samples, StorageElementsReply, get_storage_element_semp1_samples,
  ClockDetail, get_clock_detail_semp1_samples, Alarm, get_alarm_semp1_samples,
}
use solace_prometheus_export.Semp.Getters.GlobalStats.{
  GlobalSystemInfo, get_global_system_info_semp1_samples, GlobalStats,
  get_global_stats_semp1_samples,
}
use solace_prometheus_export.Semp.Getters.Redundancy.{
  Redundancy, get_redundancy_semp1_samples, ReplicationStats, get_replication_stats_semp1_samples,
}
use solace_prometheus_export.Semp.Getters.Memory.{
  MemoryReply, get_memory_semp1_samples, InterfaceHwReply, get_interface_hw_semp1_samples,
}
use solace_prometheus_export.Semp.Getters.Hardware.{
  EnvironmentReply, get_environment_semp1_samples, HardwareReply, get_hardware_semp1_samples,
}
use solace_prometheus_export.Semp.Getters.SpoolStats.{SpoolStats, get_spool_stats_semp1_samples}
use solace_prometheus_export.Semp.Getters.Spool.{
  SpoolReply, get_spool_semp1_head, get_spool_semp1_tail,
}
use solace_prometheus_export.Semp.Getters.VpnSpool.{
  VpnSpoolVpn, get_vpn_spool_semp1_samples, ClusterLinksReply, get_cluster_links_semp1_samples,
}
use solace_prometheus_export.Semp.Getters.BridgeRemote.{
  BridgeRemoteReply, get_bridge_remote_semp1_samples,
}
use solace_prometheus_export.Semp.Getters.BridgeDetail.{
  BridgeDetailBridge, get_bridge_detail_semp1_samples,
}
use solace_prometheus_export.Semp.Getters.ClientFlows.{
  ClientEgressReply, get_client_message_spool_egress_semp1_samples, ClientSpoolClient,
  get_client_message_spool_stats_semp1_samples,
}
use solace_prometheus_export.Semp.Getters.ClientConnections.{
  ClientConnectionReply, get_client_connection_stats_semp1_samples,
}
use solace_prometheus_export.Semp.Getters.Version.{Version, get_version_semp1_samples}
use solace_prometheus_export.Semp.Getters.BridgeClientCert.{
  CertLib, BridgeClientCert, get_bridge_client_cert_semp1_samples,
}
use solace_prometheus_export.Semp.V2.{QueueV2, get_queue_stats_semp2_samples}

-- What a reply holds that becomes metrics: an item of a page, or a whole reply or its totals.
pub data Scraped (F : Type 0) : Type 0 where
  queue_rate : QueueRate F → Scraped F
  queue_stat : QueueStat F → Scraped F
  queue_detail : QueueDetail F → Scraped F
  topic_endpoint_rate : TopicEndpointRate F → Scraped F
  topic_endpoint_stat : TopicEndpointStat F → Scraped F
  topic_endpoint_detail : TopicEndpointDetail F → Scraped F
  vpn : Vpn F → Scraped F
  vpn_stat : VpnStat F → Scraped F
  vpn_replication : VpnReplication F → Scraped F
  config_sync_vpn_table : ConfigSyncVpnTable F → Scraped F
  client : Client F → Scraped F
  slow_subscriber : SlowSubscriber F → Scraped F
  client_stat : ClientStat F → Scraped F
  client_profile : ClientProfile F → Scraped F
  rest_consumer_stat : RestConsumerStat F → Scraped F
  rdp_stat : RdpStat F → Scraped F
  rdp_info : RdpInfo F → Scraped F
  rdp_info_reply : RdpInfoReply F → Scraped F
  mqtt_session : MqttSession F → Scraped F
  bridge : Bridge F → Scraped F
  bridge_reply : BridgeReply F → Scraped F
  bridge_stat : BridgeStat F → Scraped F
  health : Health F → Scraped F
  interface : Interface F → Scraped F
  config_sync : ConfigSync F → Scraped F
  config_sync_router_table : ConfigSyncRouterTable F → Scraped F
  raid_disk : RaidDisk F → Scraped F
  raid_disk_reply : RaidDiskReply F → Scraped F
  disk_reply : DiskReply F → Scraped F
  storage_elements_reply : StorageElementsReply F → Scraped F
  clock_detail : ClockDetail F → Scraped F
  alarm : Alarm F → Scraped F
  global_system_info : GlobalSystemInfo F → Scraped F
  global_stats : GlobalStats F → Scraped F
  redundancy : Semp → Redundancy F → Scraped F
  replication_stats : ReplicationStats F → Scraped F
  memory_reply : MemoryReply F → Scraped F
  interface_hw_reply : InterfaceHwReply F → Scraped F
  environment_reply : EnvironmentReply F → Scraped F
  hardware_reply : HardwareReply F → Scraped F
  spool_stats : SpoolStats F → Scraped F
  spool_head : SpoolReply F → Scraped F
  spool_tail : String → SpoolReply F → Scraped F
  vpn_spool_vpn : VpnSpoolVpn F → Scraped F
  cluster_links_reply : ClusterLinksReply F → Scraped F
  bridge_remote_reply : BridgeRemoteReply F → Scraped F
  bridge_detail_bridge : BridgeDetailBridge F → Scraped F
  client_egress_reply : ClientEgressReply F → Scraped F
  client_spool_client : ClientSpoolClient F → Scraped F
  client_connection_reply : ClientConnectionReply F → Scraped F
  version : Version F → Scraped F
  bridge_client_cert : CertLib → BridgeClientCert F → Scraped F
  queue_v2 : List String → QueueV2 F → Scraped F

module _ {F : Type 0} (lib : GoLib F) where
  unfoldable pub samples_of : Scraped F → List (Sample F)
  samples_of (queue_rate x) = get_queue_rates_semp1_samples lib x
  samples_of (queue_stat x) = get_queue_stats_semp1_samples lib x
  samples_of (queue_detail x) = get_queue_details_semp1_samples lib x
  samples_of (topic_endpoint_rate x) = get_topic_endpoint_rates_semp1_samples lib x
  samples_of (topic_endpoint_stat x) = get_topic_endpoint_stats_semp1_samples lib x
  samples_of (topic_endpoint_detail x) = get_topic_endpoint_details_semp1_samples lib x
  samples_of (vpn x) = get_vpn_semp1_samples lib x
  samples_of (vpn_stat x) = get_vpn_stats_semp1_samples lib x
  samples_of (vpn_replication x) = get_vpn_replication_semp1_samples lib x
  samples_of (config_sync_vpn_table x) = get_config_sync_vpn_semp1_samples lib x
  samples_of (client x) = get_client_semp1_samples lib x
  samples_of (slow_subscriber x) = get_client_slow_subscriber_semp1_samples lib x
  samples_of (client_stat x) = get_client_stats_semp1_samples lib x
  samples_of (client_profile x) = get_client_profile_semp1_samples lib x
  samples_of (rest_consumer_stat x) = get_rest_consumer_stats_semp1_samples lib x
  samples_of (rdp_stat x) = get_rdp_stats_semp1_samples lib x
  samples_of (rdp_info x) = get_rdp_info_semp1_samples lib x
  samples_of (rdp_info_reply x) = get_rdp_info_semp1_head lib x
  samples_of (mqtt_session x) = get_mqtt_session_semp1_samples lib x
  samples_of (bridge x) = get_bridge_semp1_samples lib x
  samples_of (bridge_reply x) = get_bridge_semp1_head lib x
  samples_of (bridge_stat x) = get_bridge_stats_semp1_samples lib x
  samples_of (health x) = get_health_semp1_samples lib x
  samples_of (interface x) = get_interface_semp1_samples lib x
  samples_of (config_sync x) = get_config_sync_semp1_samples lib x
  samples_of (config_sync_router_table x) = get_config_sync_router_semp1_samples lib x
  samples_of (raid_disk x) = get_raid_semp1_samples lib x
  samples_of (raid_disk_reply x) = get_raid_semp1_tail lib x
  samples_of (disk_reply x) = get_disk_semp1_samples lib x
  samples_of (storage_elements_reply x) = get_storage_element_semp1_samples lib x
  samples_of (clock_detail x) = get_clock_detail_semp1_samples lib x
  samples_of (alarm x) = get_alarm_semp1_samples lib x
  samples_of (global_system_info x) = get_global_system_info_semp1_samples lib x
  samples_of (global_stats x) = get_global_stats_semp1_samples lib x
  samples_of (redundancy semp x) = get_redundancy_semp1_samples lib semp x
  samples_of (replication_stats x) = get_replication_stats_semp1_samples lib x
  samples_of (memory_reply x) = get_memory_semp1_samples lib x
  samples_of (interface_hw_reply x) = get_interface_hw_semp1_samples lib x
  samples_of (environment_reply x) = get_environment_semp1_samples lib x
  samples_of (hardware_reply x) = get_hardware_semp1_samples lib x
  samples_of (spool_stats x) = get_spool_stats_semp1_samples lib x
  samples_of (spool_head x) = get_spool_semp1_head lib x
  samples_of (spool_tail quota x) = get_spool_semp1_tail lib quota x
  samples_of (vpn_spool_vpn x) = get_vpn_spool_semp1_samples lib x
  samples_of (cluster_links_reply x) = get_cluster_links_semp1_samples lib x
  samples_of (bridge_remote_reply x) = get_bridge_remote_semp1_samples lib x
  samples_of (bridge_detail_bridge x) = get_bridge_detail_semp1_samples lib x
  samples_of (client_egress_reply x) = get_client_message_spool_egress_semp1_samples lib x
  samples_of (client_spool_client x) = get_client_message_spool_stats_semp1_samples lib x
  samples_of (client_connection_reply x) = get_client_connection_stats_semp1_samples lib x
  samples_of (version x) = get_version_semp1_samples lib x
  samples_of (bridge_client_cert certs x) = get_bridge_client_cert_semp1_samples lib certs x
  samples_of (queue_v2 fields x) = get_queue_stats_semp2_samples fields x
