-- ===== src/Metric/Table.antt =====
-- MetricDesc of internal/semp/metricDesc.go: the descriptors by group and key. A key that is missing is a
-- nil descriptor, whose use panics.
mod Bridge
mod Client
mod Endpoint
mod Hardware
mod Labels
mod Rest
mod Spool
mod SpoolStats
mod SpoolStatsRest
mod System
mod Vpn
use solace_prometheus_export.Prelude.{String, Option, none, some, List, [], ◌∷◌, ◌++◌, lookup}
use solace_prometheus_export.Metric.{Desc}
use System.{
  queue_stats, global, alarm, version, health, storage_element, disk, memory, interface,
  interface_hw, global_stats,
}
use Hardware.{
  raid, clock_detail, redundancy, redundancy_hw, environment, hardware, replication_stats,
}
use Spool.{spool}
use Vpn.{
  vpn, vpn_replication, config_sync, config_sync_vpn, config_sync_router, vpn_spool, vpn_stats,
}
use Bridge.{bridge, bridge_remote, bridge_detail, bridge_client_cert, bridge_stats}
use Client.{
  client, client_profile, client_slow_subscriber, client_stats, client_message_spool_stats,
  client_message_spool_egress, client_connections,
}
use Endpoint.{
  queue_rates, queue_details, topic_endpoint_rates, topic_endpoint_details, topic_endpoint_stats,
  cluster_links,
}
use Rest.{rest_consumer_stats, rdp_info, rdp_stats, rdp_totals, mqtt_session}
use SpoolStats.{spool_stats_first}
use SpoolStatsRest.{spool_stats_rest}

abbrev spool_stats : List (String × Desc)
spool_stats = spool_stats_first ++ spool_stats_rest

-- The variable QueueStats, whose descriptors the scrape over SEMP v2 uses too.
abbrev pub queue_stats_descriptions : List (String × Desc)
queue_stats_descriptions = queue_stats

unfoldable pub metric_desc : List (String × List (String × Desc))
metric_desc =
    ("Global", global)
    ∷ ("Alarm", alarm)
    ∷ ("Version", version)
    ∷ ("Health", health)
    ∷ ("StorageElement", storage_element)
    ∷ ("Disk", disk)
    ∷ ("Memory", memory)
    ∷ ("Interface", interface)
    ∷ ("InterfaceHW", interface_hw)
    ∷ ("GlobalStats", global_stats)
    ∷ ("Raid", raid)
    ∷ ("ClockDetail", clock_detail)
    ∷ ("Spool", spool)
    ∷ ("SpoolStats", spool_stats)
    ∷ ("Redundancy", redundancy)
    ∷ ("RedundancyHW", redundancy_hw)
    ∷ ("Environment", environment)
    ∷ ("Hardware", hardware)
    ∷ ("ReplicationStats", replication_stats)
    ∷ ("Vpn", vpn)
    ∷ ("VpnReplication", vpn_replication)
    ∷ ("ConfigSync", config_sync)
    ∷ ("ConfigSyncVpn", config_sync_vpn)
    ∷ ("ConfigSyncRouter", config_sync_router)
    ∷ ("Bridge", bridge)
    ∷ ("BridgeRemote", bridge_remote)
    ∷ ("BridgeDetail", bridge_detail)
    ∷ ("BridgeClientCert", bridge_client_cert)
    ∷ ("VpnSpool", vpn_spool)
    ∷ ("Client", client)
    ∷ ("ClientProfile", client_profile)
    ∷ ("ClientSlowSubscriber", client_slow_subscriber)
    ∷ ("ClientStats", client_stats)
    ∷ ("ClientMessageSpoolStats", client_message_spool_stats)
    ∷ ("ClientMessageSpoolEgress", client_message_spool_egress)
    ∷ ("VpnStats", vpn_stats)
    ∷ ("BridgeStats", bridge_stats)
    ∷ ("QueueRates", queue_rates)
    ∷ ("QueueDetails", queue_details)
    ∷ ("QueueStats", queue_stats)
    ∷ ("QueueStatsV2", queue_stats)
    ∷ ("TopicEndpointRates", topic_endpoint_rates)
    ∷ ("TopicEndpointDetails", topic_endpoint_details)
    ∷ ("TopicEndpointStats", topic_endpoint_stats)
    ∷ ("ClusterLinks", cluster_links)
    ∷ ("ClientConnections", client_connections)
    ∷ ("RestConsumerStats", rest_consumer_stats)
    ∷ ("RdpInfo", rdp_info)
    ∷ ("RdpStats", rdp_stats)
    ∷ ("RdpTotals", rdp_totals)
    ∷ ("MqttSession", mqtt_session)
    ∷ []

in_group : Option (List (String × Desc)) → String → Option Desc
in_group none key = none
in_group (some descriptions) key = lookup key descriptions

-- MetricDesc[group][key]
unfoldable pub find_desc : String → String → Option Desc
unfolding in_group metric_desc
find_desc group key = in_group (lookup group metric_desc) key
