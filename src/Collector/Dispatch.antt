-- ===== src/Collector/Dispatch.antt =====
-- The dispatch of CollectPrometheusMetric: internal/exporter/exporter.collect.go. The Get… methods of
-- the SEMP client are the fields of a record, so the dispatch is stated for any of them.
use Prim.Native.String.{◌++◌ as ◌<>◌}
use solace_prometheus_export.Prelude.{String, Bool, not, some, List, [], ◌∷◌, ◌==◌, if◌then◌else◌}
use solace_prometheus_export.Prelude.Int.{ℤ, pos}
use solace_prometheus_export.Prelude.Result.{Result, ok, err}
use solace_prometheus_export.Text.{is_empty, trim_space}
use solace_prometheus_export.Metric.Run.{Run, pure}
use solace_prometheus_export.Semp.{Status}
use solace_prometheus_export.DataSource.{DataSource}

-- The fields of Config that the dispatch reads.
pub record CollectConfig : Type 0 where
  pub is_hw_broker : Bool
  pub semp_page_size : ℤ
  pub default_vpn : String

-- The methods of semp.Semp that the dispatch calls.
pub record Scrapes (F : Type 0) : Type 0 where
  pub get_version_semp1 : Run F Status
  pub get_health_semp1 : Run F Status
  pub get_storage_element_semp1 : String → Run F Status
  pub get_disk_semp1 : Run F Status
  pub get_raid_semp1 : Run F Status
  pub get_memory_semp1 : Run F Status
  pub get_interface_semp1 : String → Run F Status
  pub get_interface_hw_semp1 : String → Run F Status
  pub get_global_stats_semp1 : Run F Status
  pub get_global_system_info_semp1 : Run F Status
  pub get_spool_semp1 : Run F Status
  pub get_spool_stats_semp1 : Run F Status
  pub get_redundancy_semp1 : Run F Status
  pub get_alarm_semp1 : Run F Status
  pub get_environment_semp1 : Run F Status
  pub get_hardware_semp1 : Run F Status
  pub get_clock_detail_semp1 : Run F Status
  pub get_replication_stats_semp1 : Run F Status
  pub get_config_sync_router_semp1 : Run F Status
  pub get_config_sync_semp1 : Run F Status
  pub get_vpn_semp1 : String → ℤ → Run F Status
  pub get_vpn_replication_semp1 : String → Run F Status
  pub get_config_sync_vpn_semp1 : String → ℤ → Run F Status
  pub get_bridge_semp1 : String → String → ℤ → Run F Status
  pub get_bridge_remote_semp1 : String → String → Run F Status
  pub get_bridge_detail_semp1 : String → String → ℤ → Run F Status
  pub get_bridge_client_cert_semp1 : String → String → ℤ → Run F Status
  pub get_vpn_spool_semp1 : String → ℤ → Run F Status
  pub get_client_semp1 : String → String → Run F Status
  pub get_client_profile_semp1 : String → Run F Status
  pub get_client_slow_subscriber_semp1 : String → String → Run F Status
  pub get_client_stats_semp1 : String → ℤ → Run F Status
  pub get_client_connection_stats_semp1 : String → Run F Status
  pub get_client_message_spool_stats_semp1 : String → ℤ → Run F Status
  pub get_client_message_spool_egress_semp1 : String → Run F Status
  pub get_cluster_links_semp1 : String → String → Run F Status
  pub get_vpn_stats_semp1 : String → ℤ → Run F Status
  pub get_bridge_stats_semp1 : String → String → ℤ → Run F Status
  pub get_queue_rates_semp1 : String → String → ℤ → Run F Status
  pub get_queue_stats_semp1 : String → String → ℤ → Run F Status
  pub get_queue_stats_semp2 : String → String → List String → Run F Status
  pub get_queue_details_semp1 : String → String → ℤ → Run F Status
  pub get_topic_endpoint_rates_semp1 : String → String → ℤ → Run F Status
  pub get_topic_endpoint_stats_semp1 : String → String → ℤ → Run F Status
  pub get_topic_endpoint_details_semp1 : String → String → ℤ → Run F Status
  pub get_rest_consumer_stats_semp1 : String → String → ℤ → Run F Status
  pub get_rdp_stats_semp1 : String → String → ℤ → Run F Status
  pub get_rdp_info_semp1 : String → String → Run F Status
  pub get_mqtt_session_semp1 : String → String → ℤ → Run F Status

-- The cases of the switch.
pub data Kind : Type 0 where
  version : Kind
  health : Kind
  storage_element : Kind
  disk : Kind
  raid : Kind
  memory : Kind
  interface : Kind
  interface_hw : Kind
  global_stats : Kind
  global_system_info : Kind
  spool : Kind
  spool_stats : Kind
  redundancy : Kind
  alarm : Kind
  environment : Kind
  hardware : Kind
  clock_detail : Kind
  replication_stats : Kind
  config_sync_router : Kind
  config_sync : Kind
  vpn : Kind
  vpn_replication : Kind
  config_sync_vpn : Kind
  bridge : Kind
  bridge_remote : Kind
  bridge_detail : Kind
  bridge_client_cert : Kind
  vpn_spool : Kind
  client : Kind
  client_profile : Kind
  client_slow_subscriber : Kind
  client_stats : Kind
  client_connections : Kind
  client_message_spool_stats : Kind
  client_message_spool_egress : Kind
  cluster_links : Kind
  vpn_stats : Kind
  bridge_stats : Kind
  queue_rates : Kind
  queue_stats : Kind
  queue_stats_v2 : Kind
  queue_details : Kind
  topic_endpoint_rates : Kind
  topic_endpoint_stats : Kind
  topic_endpoint_details : Kind
  rest_consumer_stats : Kind
  rdp_stats : Kind
  rdp_info : Kind
  mqtt_session : Kind
  unknown : Kind

-- The labels of the cases, with those of a case in one line.
unfoldable pub kind_names : List (String × Kind)
kind_names =
    ("Version", version)
    ∷ ("VersionV1", version)
    ∷ ("Health", health)
    ∷ ("HealthV1", health)
    ∷ ("StorageElement", storage_element)
    ∷ ("StorageElementV1", storage_element)
    ∷ ("Disk", disk)
    ∷ ("DiskV1", disk)
    ∷ ("Raid", raid)
    ∷ ("RaidV1", raid)
    ∷ ("Memory", memory)
    ∷ ("MemoryV1", memory)
    ∷ ("Interface", interface)
    ∷ ("InterfaceV1", interface)
    ∷ ("InterfaceHW", interface_hw)
    ∷ ("InterfaceHWV1", interface_hw)
    ∷ ("GlobalStats", global_stats)
    ∷ ("GlobalStatsV1", global_stats)
    ∷ ("GlobalSystemInfo", global_system_info)
    ∷ ("GlobalSystemInfoV1", global_system_info)
    ∷ ("Spool", spool)
    ∷ ("SpoolV1", spool)
    ∷ ("SpoolStats", spool_stats)
    ∷ ("SpoolStatsV1", spool_stats)
    ∷ ("Redundancy", redundancy)
    ∷ ("RedundancyV1", redundancy)
    ∷ ("Alarm", alarm)
    ∷ ("AlarmV1", alarm)
    ∷ ("Environment", environment)
    ∷ ("EnvironmentV1", environment)
    ∷ ("Hardware", hardware)
    ∷ ("HardwareV1", hardware)
    ∷ ("ClockDetail", clock_detail)
    ∷ ("ClockDetailV1", clock_detail)
    ∷ ("ReplicationStats", replication_stats)
    ∷ ("ReplicationStatsV1", replication_stats)
    ∷ ("ConfigSyncRouter", config_sync_router)
    ∷ ("ConfigSyncRouterV1", config_sync_router)
    ∷ ("ConfigSync", config_sync)
    ∷ ("ConfigSyncV1", config_sync)
    ∷ ("Vpn", vpn)
    ∷ ("VpnV1", vpn)
    ∷ ("VpnReplication", vpn_replication)
    ∷ ("VpnReplicationV1", vpn_replication)
    ∷ ("ConfigSyncVpn", config_sync_vpn)
    ∷ ("ConfigSyncVpnV1", config_sync_vpn)
    ∷ ("Bridge", bridge)
    ∷ ("BridgeV1", bridge)
    ∷ ("BridgeRemote", bridge_remote)
    ∷ ("BridgeRemoteV1", bridge_remote)
    ∷ ("BridgeDetail", bridge_detail)
    ∷ ("BridgeDetailV1", bridge_detail)
    ∷ ("BridgeClientCert", bridge_client_cert)
    ∷ ("BridgeClientCertV1", bridge_client_cert)
    ∷ ("VpnSpool", vpn_spool)
    ∷ ("VpnSpoolV1", vpn_spool)
    ∷ ("Client", client)
    ∷ ("ClientV1", client)
    ∷ ("ClientProfile", client_profile)
    ∷ ("ClientProfileV1", client_profile)
    ∷ ("ClientSlowSubscriber", client_slow_subscriber)
    ∷ ("ClientSlowSubscriberV1", client_slow_subscriber)
    ∷ ("ClientStats", client_stats)
    ∷ ("ClientStatsV1", client_stats)
    ∷ ("ClientConnections", client_connections)
    ∷ ("ClientConnectionsV1", client_connections)
    ∷ ("ClientMessageSpoolStats", client_message_spool_stats)
    ∷ ("ClientMessageSpoolStatsV1", client_message_spool_stats)
    ∷ ("ClientMessageSpoolEgress", client_message_spool_egress)
    ∷ ("ClientMessageSpoolEgressV1", client_message_spool_egress)
    ∷ ("ClusterLinks", cluster_links)
    ∷ ("ClusterLinksV1", cluster_links)
    ∷ ("VpnStats", vpn_stats)
    ∷ ("VpnStatsV1", vpn_stats)
    ∷ ("BridgeStats", bridge_stats)
    ∷ ("BridgeStatsV1", bridge_stats)
    ∷ ("QueueRates", queue_rates)
    ∷ ("QueueRatesV1", queue_rates)
    ∷ ("QueueStats", queue_stats)
    ∷ ("QueueStatsV1", queue_stats)
    ∷ ("QueueStatsV2", queue_stats_v2)
    ∷ ("QueueDetails", queue_details)
    ∷ ("QueueDetailsV1", queue_details)
    ∷ ("TopicEndpointRates", topic_endpoint_rates)
    ∷ ("TopicEndpointRatesV1", topic_endpoint_rates)
    ∷ ("TopicEndpointStats", topic_endpoint_stats)
    ∷ ("TopicEndpointStatsV1", topic_endpoint_stats)
    ∷ ("TopicEndpointDetails", topic_endpoint_details)
    ∷ ("TopicEndpointDetailsV1", topic_endpoint_details)
    ∷ ("RestConsumerStats", rest_consumer_stats)
    ∷ ("RestConsumerStatsV1", rest_consumer_stats)
    ∷ ("RdpStats", rdp_stats)
    ∷ ("RdpStatsV1", rdp_stats)
    ∷ ("RdpInfo", rdp_info)
    ∷ ("RdpInfoV1", rdp_info)
    ∷ ("MqttSession", mqtt_session)
    ∷ []

find_kind : String → List (String × Kind) → Kind
find_kind name [] = unknown
find_kind name ((n, k) ∷ names) = let rest = find_kind name names in if n == name then k else rest

unfoldable pub kind_of : String → Kind
unfolding find_kind
kind_of name = find_kind name kind_names

-- Whether a case runs on software brokers alone, or on appliances alone.
pub data Platform : Type 0 where
  any software hardware : Platform

unfoldable pub platform : Kind → Platform
platform health = software
platform storage_element = software
platform disk = hardware
platform raid = hardware
platform interface_hw = hardware
platform alarm = hardware
platform environment = hardware
platform hardware = hardware
platform clock_detail = hardware
platform _ = any

unfoldable pub get_vpn_name : CollectConfig → String → Result String String
get_vpn_name conf vpn_filter =
    if vpn_filter == "*"
    then (if is_empty (trim_space conf.default_vpn)
        then err
            "can't scrape Semp2 As vpnFilter was an * given and the defaultVpn is not set in configuration"
        else ok conf.default_vpn)
    else ok vpn_filter

-- `up = 0; err = errors.New(…)`
abbrev pub refused : {F : Type 0} → String → Run F Status
refused text = pure (pos 0, some text)

abbrev pub scope_error : String → String → String
scope_error scope name =
    scope <> (" scrape target: \"" <> (name <> "\". Please check documentation for valid targets."))

module _ {F : Type 0} (scrapes : Scrapes F) (conf : CollectConfig) where
  abbrev pub with_vpn : Result String String → (String → Run F Status) → Run F Status
  with_vpn (ok vpn_name) k = k vpn_name
  with_vpn (err e) k = refused e

  -- The call of a case, once its platform is right.
  unfoldable pub call : Kind → DataSource → Run F Status
  call version ds = scrapes.get_version_semp1
  call health ds = scrapes.get_health_semp1
  call storage_element ds = scrapes.get_storage_element_semp1 ds.item_filter
  call disk ds = scrapes.get_disk_semp1
  call raid ds = scrapes.get_raid_semp1
  call memory ds = scrapes.get_memory_semp1
  call interface ds = scrapes.get_interface_semp1 ds.item_filter
  call interface_hw ds = scrapes.get_interface_hw_semp1 ds.item_filter
  call global_stats ds = scrapes.get_global_stats_semp1
  call global_system_info ds = scrapes.get_global_system_info_semp1
  call spool ds = scrapes.get_spool_semp1
  call spool_stats ds = scrapes.get_spool_stats_semp1
  call redundancy ds = scrapes.get_redundancy_semp1
  call alarm ds = scrapes.get_alarm_semp1
  call environment ds = scrapes.get_environment_semp1
  call hardware ds = scrapes.get_hardware_semp1
  call clock_detail ds = scrapes.get_clock_detail_semp1
  call replication_stats ds = scrapes.get_replication_stats_semp1
  call config_sync_router ds = scrapes.get_config_sync_router_semp1
  call config_sync ds = scrapes.get_config_sync_semp1
  call vpn ds = scrapes.get_vpn_semp1 ds.vpn_filter conf.semp_page_size
  call vpn_replication ds = scrapes.get_vpn_replication_semp1 ds.vpn_filter
  call config_sync_vpn ds = scrapes.get_config_sync_vpn_semp1 ds.vpn_filter conf.semp_page_size
  call bridge ds = scrapes.get_bridge_semp1 ds.vpn_filter ds.item_filter conf.semp_page_size
  call bridge_remote ds = scrapes.get_bridge_remote_semp1 ds.vpn_filter ds.item_filter
  call bridge_detail ds =
      scrapes.get_bridge_detail_semp1 ds.vpn_filter ds.item_filter conf.semp_page_size
  call bridge_client_cert ds =
      scrapes.get_bridge_client_cert_semp1 ds.vpn_filter ds.item_filter conf.semp_page_size
  call vpn_spool ds = scrapes.get_vpn_spool_semp1 ds.vpn_filter conf.semp_page_size
  call client ds = scrapes.get_client_semp1 ds.vpn_filter ds.item_filter
  call client_profile ds = scrapes.get_client_profile_semp1 ds.vpn_filter
  call client_slow_subscriber ds =
      scrapes.get_client_slow_subscriber_semp1 ds.vpn_filter ds.item_filter
  call client_stats ds = scrapes.get_client_stats_semp1 ds.item_filter conf.semp_page_size
  call client_connections ds = scrapes.get_client_connection_stats_semp1 ds.item_filter
  call client_message_spool_stats ds =
      scrapes.get_client_message_spool_stats_semp1 ds.vpn_filter conf.semp_page_size
  call client_message_spool_egress ds = scrapes.get_client_message_spool_egress_semp1 ds.item_filter
  call cluster_links ds = scrapes.get_cluster_links_semp1 ds.vpn_filter ds.item_filter
  call vpn_stats ds = scrapes.get_vpn_stats_semp1 ds.vpn_filter conf.semp_page_size
  call bridge_stats ds =
      scrapes.get_bridge_stats_semp1 ds.vpn_filter ds.item_filter conf.semp_page_size
  call queue_rates ds =
      scrapes.get_queue_rates_semp1 ds.vpn_filter ds.item_filter conf.semp_page_size
  call queue_stats ds =
      scrapes.get_queue_stats_semp1 ds.vpn_filter ds.item_filter conf.semp_page_size
  call queue_stats_v2 ds =
      with_vpn (get_vpn_name conf ds.vpn_filter)
        (λ vpn_name. scrapes.get_queue_stats_semp2 vpn_name ds.item_filter ds.metric_filter)
  call queue_details ds =
      scrapes.get_queue_details_semp1 ds.vpn_filter ds.item_filter conf.semp_page_size
  call topic_endpoint_rates ds =
      scrapes.get_topic_endpoint_rates_semp1 ds.vpn_filter ds.item_filter conf.semp_page_size
  call topic_endpoint_stats ds =
      scrapes.get_topic_endpoint_stats_semp1 ds.vpn_filter ds.item_filter conf.semp_page_size
  call topic_endpoint_details ds =
      scrapes.get_topic_endpoint_details_semp1 ds.vpn_filter ds.item_filter conf.semp_page_size
  call rest_consumer_stats ds =
      scrapes.get_rest_consumer_stats_semp1 ds.vpn_filter ds.item_filter conf.semp_page_size
  call rdp_stats ds = scrapes.get_rdp_stats_semp1 ds.vpn_filter ds.item_filter conf.semp_page_size
  call rdp_info ds = scrapes.get_rdp_info_semp1 ds.vpn_filter ds.item_filter
  call mqtt_session ds =
      scrapes.get_mqtt_session_semp1 ds.vpn_filter ds.item_filter conf.semp_page_size
  call unknown ds = refused (scope_error "Unknown" ds.name)

  unfoldable pub on_platform : Platform → Kind → DataSource → Run F Status
  unfolding call
  on_platform any k ds = call k ds
  on_platform software k ds =
      if not conf.is_hw_broker then call k ds else refused (scope_error "Software only" ds.name)
  on_platform hardware k ds =
      if conf.is_hw_broker then call k ds else refused (scope_error "Hardware only" ds.name)

  -- The switch on the name of a data source.
  unfoldable pub dispatch : DataSource → Run F Status
  unfolding call on_platform
  dispatch ds = on_platform (platform (kind_of ds.name)) (kind_of ds.name) ds
