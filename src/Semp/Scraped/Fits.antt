-- ===== src/Semp/Scraped/Fits.antt =====
-- What the scrapes send fits the table of descriptors.
use solace_prometheus_export.Prelude.{◌≡◌, refl, lookup, true, all, all-All, All, length}
use solace_prometheus_export.Semp.GoLib.{GoLib}
use solace_prometheus_export.Metric.Run.{done}
use solace_prometheus_export.Metric.{new_sem_desc}
use solace_prometheus_export.Metric.Table.{find_desc, metric_desc}
use solace_prometheus_export.Semp.Samples.{fits, send_all, send_all-done, HasValidLabels}
use solace_prometheus_export.Semp.Scraped.{
  Scraped, samples_of, queue_rate, queue_stat, queue_detail, topic_endpoint_rate,
  topic_endpoint_stat, topic_endpoint_detail, vpn, vpn_stat, vpn_replication, config_sync_vpn_table,
  client, slow_subscriber, client_stat, client_profile, rest_consumer_stat, rdp_stat, rdp_info,
  rdp_info_reply, mqtt_session, bridge, bridge_reply, bridge_stat, health, interface, config_sync,
  config_sync_router_table, raid_disk, raid_disk_reply, disk_reply, storage_elements_reply,
  clock_detail, alarm, global_system_info, global_stats, redundancy, replication_stats,
  memory_reply, interface_hw_reply, environment_reply, hardware_reply, spool_stats, spool_head,
  spool_tail, vpn_spool_vpn, cluster_links_reply, bridge_remote_reply, bridge_detail_bridge,
  client_egress_reply, client_spool_client, client_connection_reply, version, bridge_client_cert,
  queue_v2,
}
use solace_prometheus_export.Semp.Fit.Broker.{
  get_disk_semp1_samples-AllFit, get_storage_element_semp1_samples-AllFit,
  get_clock_detail_semp1_samples-AllFit, get_alarm_semp1_samples-AllFit,
  get_global_system_info_semp1_samples-AllFit, get_global_stats_semp1_samples-AllFit,
  get_redundancy_semp1_samples-AllFit, get_replication_stats_semp1_samples-AllFit,
  get_memory_semp1_samples-AllFit, get_interface_hw_semp1_samples-AllFit,
  get_environment_semp1_samples-AllFit, get_hardware_semp1_samples-AllFit,
  get_spool_stats_semp1_samples-AllFit, get_spool_semp1_head-AllFit, get_spool_semp1_tail-AllFit,
}
use solace_prometheus_export.Semp.Fit.Items.{
  get_vpn_spool_semp1_samples-AllFit, get_cluster_links_semp1_samples-AllFit,
  get_bridge_remote_semp1_samples-AllFit, get_bridge_detail_semp1_samples-AllFit,
  get_client_message_spool_egress_semp1_samples-AllFit,
  get_client_message_spool_stats_semp1_samples-AllFit,
  get_client_connection_stats_semp1_samples-AllFit,
}
use solace_prometheus_export.Semp.Fit.Others.{
  get_bridge_client_cert_semp1_samples-AllFit, get_queue_stats_semp2_samples-AllFit,
}
use solace_prometheus_export.Semp.Getters.Version.{get_version_semp1_samples}
use solace_prometheus_export.Semp.Getters.Queues.{
  get_queue_rates_semp1_samples, get_queue_stats_semp1_samples, get_queue_details_semp1_samples,
}
use solace_prometheus_export.Semp.Getters.TopicEndpoints.{
  get_topic_endpoint_rates_semp1_samples, get_topic_endpoint_stats_semp1_samples,
  get_topic_endpoint_details_semp1_samples,
}
use solace_prometheus_export.Semp.Getters.Vpns.{
  get_vpn_semp1_samples, get_vpn_stats_semp1_samples, get_vpn_replication_semp1_samples,
  get_config_sync_vpn_semp1_samples,
}
use solace_prometheus_export.Semp.Getters.Clients.{
  get_client_semp1_samples, get_client_slow_subscriber_semp1_samples,
  get_client_stats_semp1_samples, get_client_profile_semp1_samples,
}
use solace_prometheus_export.Semp.Getters.Rest.{
  get_rest_consumer_stats_semp1_samples, get_rdp_stats_semp1_samples, get_rdp_info_semp1_samples,
  get_rdp_info_semp1_head, get_mqtt_session_semp1_samples,
}
use solace_prometheus_export.Semp.Getters.Bridges.{get_bridge_semp1_samples, get_bridge_semp1_head}
use solace_prometheus_export.Semp.Getters.BridgeStats.{get_bridge_stats_semp1_samples}
use solace_prometheus_export.Semp.Getters.System.{
  get_health_semp1_samples, get_interface_semp1_samples, get_config_sync_semp1_samples,
  get_config_sync_router_semp1_samples, get_raid_semp1_samples, get_raid_semp1_tail,
}

module _ {F : Type 0} (lib : GoLib F) where
  -- Each sample that a scrape sends has a descriptor in the table, under the group and the key that the
  -- scrape names, with exactly as many labels as the scrape passes values.
  pub samples_of-fits : (x : Scraped F) → all fits (samples_of lib x) ≡ true
  unfolding samples_of fits find_desc metric_desc lookup new_sem_desc get_queue_rates_semp1_samples
      get_queue_stats_semp1_samples get_queue_details_semp1_samples
      get_topic_endpoint_rates_semp1_samples get_topic_endpoint_stats_semp1_samples
      get_topic_endpoint_details_semp1_samples get_vpn_semp1_samples get_vpn_stats_semp1_samples
      get_vpn_replication_semp1_samples get_config_sync_vpn_semp1_samples get_client_semp1_samples
      get_client_slow_subscriber_semp1_samples get_client_stats_semp1_samples
      get_client_profile_semp1_samples get_rest_consumer_stats_semp1_samples
      get_rdp_stats_semp1_samples get_rdp_info_semp1_samples get_rdp_info_semp1_head
      get_mqtt_session_semp1_samples get_bridge_semp1_samples get_bridge_semp1_head
      get_bridge_stats_semp1_samples get_health_semp1_samples get_interface_semp1_samples
      get_config_sync_semp1_samples get_config_sync_router_semp1_samples get_raid_semp1_samples
      get_raid_semp1_tail get_version_semp1_samples
  samples_of-fits (queue_rate x) = refl
  samples_of-fits (queue_stat x) = refl
  samples_of-fits (queue_detail x) = refl
  samples_of-fits (topic_endpoint_rate x) = refl
  samples_of-fits (topic_endpoint_stat x) = refl
  samples_of-fits (topic_endpoint_detail x) = refl
  samples_of-fits (vpn x) = refl
  samples_of-fits (vpn_stat x) = refl
  samples_of-fits (vpn_replication x) = refl
  samples_of-fits (config_sync_vpn_table x) = refl
  samples_of-fits (client x) = refl
  samples_of-fits (slow_subscriber x) = refl
  samples_of-fits (client_stat x) = refl
  samples_of-fits (client_profile x) = refl
  samples_of-fits (rest_consumer_stat x) = refl
  samples_of-fits (rdp_stat x) = refl
  samples_of-fits (rdp_info x) = refl
  samples_of-fits (rdp_info_reply x) = refl
  samples_of-fits (mqtt_session x) = refl
  samples_of-fits (bridge x) = refl
  samples_of-fits (bridge_reply x) = refl
  samples_of-fits (bridge_stat x) = refl
  samples_of-fits (health x) = refl
  samples_of-fits (interface x) = refl
  samples_of-fits (config_sync x) = refl
  samples_of-fits (config_sync_router_table x) = refl
  samples_of-fits (raid_disk x) = refl
  samples_of-fits (raid_disk_reply x) = refl
  samples_of-fits (disk_reply x) = (get_disk_semp1_samples-AllFit lib x).all_fit
  samples_of-fits (storage_elements_reply x) =
      (get_storage_element_semp1_samples-AllFit lib x).all_fit
  samples_of-fits (clock_detail x) = (get_clock_detail_semp1_samples-AllFit lib x).all_fit
  samples_of-fits (alarm x) = (get_alarm_semp1_samples-AllFit lib x).all_fit
  samples_of-fits (global_system_info x) =
      (get_global_system_info_semp1_samples-AllFit lib x).all_fit
  samples_of-fits (global_stats x) = (get_global_stats_semp1_samples-AllFit lib x).all_fit
  samples_of-fits (redundancy semp x) = (get_redundancy_semp1_samples-AllFit lib semp x).all_fit
  samples_of-fits (replication_stats x) = (get_replication_stats_semp1_samples-AllFit lib x).all_fit
  samples_of-fits (memory_reply x) = (get_memory_semp1_samples-AllFit lib x).all_fit
  samples_of-fits (interface_hw_reply x) = (get_interface_hw_semp1_samples-AllFit lib x).all_fit
  samples_of-fits (environment_reply x) = (get_environment_semp1_samples-AllFit lib x).all_fit
  samples_of-fits (hardware_reply x) = (get_hardware_semp1_samples-AllFit lib x).all_fit
  samples_of-fits (spool_stats x) = (get_spool_stats_semp1_samples-AllFit lib x).all_fit
  samples_of-fits (spool_head x) = (get_spool_semp1_head-AllFit lib x).all_fit
  samples_of-fits (spool_tail quota x) = (get_spool_semp1_tail-AllFit lib quota x).all_fit
  samples_of-fits (vpn_spool_vpn x) = (get_vpn_spool_semp1_samples-AllFit lib x).all_fit
  samples_of-fits (cluster_links_reply x) = (get_cluster_links_semp1_samples-AllFit lib x).all_fit
  samples_of-fits (bridge_remote_reply x) = (get_bridge_remote_semp1_samples-AllFit lib x).all_fit
  samples_of-fits (bridge_detail_bridge x) = (get_bridge_detail_semp1_samples-AllFit lib x).all_fit
  samples_of-fits (client_egress_reply x) =
      (get_client_message_spool_egress_semp1_samples-AllFit lib x).all_fit
  samples_of-fits (client_spool_client x) =
      (get_client_message_spool_stats_semp1_samples-AllFit lib x).all_fit
  samples_of-fits (client_connection_reply x) =
      (get_client_connection_stats_semp1_samples-AllFit lib x).all_fit
  samples_of-fits (version x) = refl
  samples_of-fits (bridge_client_cert certs x) =
      (get_bridge_client_cert_semp1_samples-AllFit lib certs x).all_fit
  samples_of-fits (queue_v2 fields x) = (get_queue_stats_semp2_samples-AllFit fields x).all_fit

  -- The samples that a scrape makes of one piece of a reply (an item, a whole reply, or of the reply on
  -- the spool the part before its quota and the part after it): where their label values are UTF-8,
  -- sending them sends one metric for each and does not panic. Whether a scrape comes to send a piece is
  -- not stated.
  pub scraped-done :
      (x : Scraped F)
      → All HasValidLabels (samples_of lib x)
      → ((send_all (samples_of lib x)).result ≡ done tt)
        × (length (send_all (samples_of lib x)).sent ≡ length (samples_of lib x))
  scraped-done x h =
      send_all-done (samples_of lib x) (all-All fits (samples_of lib x) (samples_of-fits x)) h
