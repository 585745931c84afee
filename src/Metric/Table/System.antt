-- ===== src/Metric/Table/System.antt =====
-- The descriptors of internal/semp/metricDesc.go: QueueStats, Global, Alarm, Version, Health, StorageElement, Disk, Memory, Interface, InterfaceHW, GlobalStats.
use solace_prometheus_export.Prelude.{String, List, [], ◌∷◌}
use solace_prometheus_export.Metric.{Desc, new_sem_desc, unready}
use solace_prometheus_export.Metric.Table.Labels.{
  labels_disk, labels_interface, labels_interface_hw, labels_memory, labels_storage_element,
  labels_up, labels_vpn_queue, no_labels,
}

abbrev pub queue_stats : List (String × Desc)
queue_stats =
    (
      "total_bytes_spooled",
      new_sem_desc "queue_byte_spooled" "spooledByteCount"
          "The total amount of all messages ever spooled in the queue, in bytes." labels_vpn_queue,
    )
    ∷ (
      "total_messages_spooled",
      new_sem_desc "queue_msg_spooled" "spooledMsgCount"
          "Queue spool total of all spooled messages." labels_vpn_queue,
    )
    ∷ (
      "messages_redelivered",
      new_sem_desc "queue_msg_redelivered" "redeliveredMsgCount" "Queue total msg redeliveries."
          labels_vpn_queue,
    )
    ∷ (
      "messages_transport_retransmitted",
      new_sem_desc "queue_msg_retransmitted" "transportRetransmitMsgCount"
          "Queue total msg retransmitted on transport." labels_vpn_queue,
    )
    ∷ (
      "spool_usage_exceeded",
      new_sem_desc "queue_msg_spool_usage_exceeded" "maxMsgSpoolUsageExceededDiscardedMsgCount"
          "Queue total number of messages exceeded the spool usage." labels_vpn_queue,
    )
    ∷ (
      "max_message_size_exceeded",
      new_sem_desc "queue_msg_max_msg_size_exceeded" "maxMsgSizeExceededDiscardedMsgCount"
          "Queue total number of messages exceeded the max message size." labels_vpn_queue,
    )
    ∷ (
      "total_deleted_messages",
      new_sem_desc "queue_msg_total_deleted" "deletedMsgCount"
          "Queue total number that was deleted." labels_vpn_queue,
    )
    ∷ (
      "messages_shutdown_discarded",
      new_sem_desc "queue_msg_shutdown_discarded" "disabledDiscardedMsgCount"
          "Queue total number of messages discarded due to spool shutdown." labels_vpn_queue,
    )
    ∷ (
      "messages_ttl_discarded",
      new_sem_desc "queue_msg_ttl_discarded" "maxTtlExpiredDiscardedMsgCount"
          "Queue total number of messages discarded due to ttl expiry." labels_vpn_queue,
    )
    ∷ (
      "messages_ttl_dmq",
      new_sem_desc "queue_msg_ttl_dmq" "maxTtlExpiredToDmqMsgCount"
          "Queue total number of messages delivered to dmq due to ttl expiry." labels_vpn_queue,
    )
    ∷ (
      "messages_ttl_dmq_failed",
      new_sem_desc "queue_msg_ttl_dmq_failed" "maxTtlExpiredToDmqFailedMsgCount"
          "Queue total number of messages that failed delivery to dmq due to ttl expiry."
          labels_vpn_queue,
    )
    ∷ (
      "messages_max_redelivered_discarded",
      new_sem_desc "queue_msg_max_redelivered_discarded" "maxRedeliveryExceededDiscardedMsgCount"
          "Queue total number of messages discarded due to exceeded max redelivery."
          labels_vpn_queue,
    )
    ∷ (
      "messages_max_redelivered_dmq",
      new_sem_desc "queue_msg_max_redelivered_dmq" "maxRedeliveryExceededToDmqMsgCount"
          "Queue total number of messages delivered to dmq due to exceeded max redelivery."
          labels_vpn_queue,
    )
    ∷ (
      "messages_max_redelivered_dmq_failed",
      new_sem_desc "queue_msg_max_redelivered_dmq_failed" "maxRedeliveryExceededToDmqFailedMsgCount"
          "Queue total number of messages failed delivery to dmq due to exceeded max redelivery."
          labels_vpn_queue,
    )
    ∷ []

abbrev pub global : List (String × Desc)
global = unready "up" "up" "Was the last scrape of Solace broker successful." labels_up ∷ []

abbrev pub alarm : List (String × Desc)
alarm =
    unready "system_alarm" "system_alarm" "A system alarm has been triggered 0 = false, 1 = true"
      no_labels
    ∷ []

abbrev pub version : List (String × Desc)
version =
    unready "system_version_currentload" "system_version_currentload"
      "Solace Version as WWWXXXYYYZZZ" no_labels
    ∷ unready "system_version_uptime_totalsecs" "system_version_uptime_totalsecs"
        "Broker uptime in seconds" no_labels
    ∷ []

abbrev pub health : List (String × Desc)
health =
    unready "system_disk_latency_min_seconds" "system_disk_latency_min_seconds"
      "Minimum disk latency." no_labels
    ∷ unready "system_disk_latency_max_seconds" "system_disk_latency_max_seconds"
        "Maximum disk latency." no_labels
    ∷ unready "system_disk_latency_avg_seconds" "system_disk_latency_avg_seconds"
        "Average disk latency." no_labels
    ∷ unready "system_disk_latency_cur_seconds" "system_disk_latency_cur_seconds"
        "Current disk latency." no_labels
    ∷ unready "system_compute_latency_min_seconds" "system_compute_latency_min_seconds"
        "Minimum compute latency." no_labels
    ∷ unready "system_compute_latency_max_seconds" "system_compute_latency_max_seconds"
        "Maximum compute latency." no_labels
    ∷ unready "system_compute_latency_avg_seconds" "system_compute_latency_avg_seconds"
        "Average compute latency." no_labels
    ∷ unready "system_compute_latency_cur_seconds" "system_compute_latency_cur_seconds"
        "Current compute latency." no_labels
    ∷ unready "system_mate_link_latency_min_seconds" "system_mate_link_latency_min_seconds"
        "Minimum mate link latency." no_labels
    ∷ unready "system_mate_link_latency_max_seconds" "system_mate_link_latency_max_seconds"
        "Maximum mate link latency." no_labels
    ∷ unready "system_mate_link_latency_avg_seconds" "system_mate_link_latency_avg_seconds"
        "Average mate link latency." no_labels
    ∷ unready "system_mate_link_latency_cur_seconds" "system_mate_link_latency_cur_seconds"
        "Current mate link latency." no_labels
    ∷ []

abbrev pub storage_element : List (String × Desc)
storage_element =
    unready "system_storage_used_percent" "system_storage_used_percent"
      "Storage Element used percent." labels_storage_element
    ∷ unready "system_storage_used_bytes" "system_storage_used_bytes" "Storage Element used bytes."
        labels_storage_element
    ∷ unready "system_storage_avail_bytes" "system_storage_avail_bytes"
        "Storage Element available bytes." labels_storage_element
    ∷ []

abbrev pub disk : List (String × Desc)
disk =
    unready "system_disk_used_percent" "system_disk_used_percent" "Disk used percent." labels_disk
    ∷ unready "system_disk_used_bytes" "system_disk_used_bytes" "Disk used bytes." labels_disk
    ∷ unready "system_disk_avail_bytes" "system_disk_avail_bytes" "Disk available bytes."
        labels_disk
    ∷ []

abbrev pub memory : List (String × Desc)
memory =
    unready "system_memory_physical_usage_percent" "system_memory_physical_usage_percent"
      "Physical memory usage percent." no_labels
    ∷ unready "system_memory_subscription_usage_percent" "system_memory_subscription_usage_percent"
        "Subscription memory usage percent." no_labels
    ∷ unready "system_nab_buffer_load_factor" "system_nab_buffer_load_factor"
        "NAB buffer load factor." no_labels
    ∷ unready "system_memory_physical_total_kb" "system_memory_physical_total_kb"
        "Physical memory total in KB." labels_memory
    ∷ unready "system_memory_physical_used_kb" "system_memory_physical_used_kb"
        "Physical memory used in KB." labels_memory
    ∷ unready "system_memory_physical_free_kb" "system_memory_physical_free_kb"
        "Physical memory free in KB." labels_memory
    ∷ unready "system_memory_physical_buffers_kb" "system_memory_physical_buffers_kb"
        "Physical memory buffers in KB." labels_memory
    ∷ unready "system_memory_physical_cached_kb" "system_memory_physical_cached_kb"
        "Physical memory caches in KB." labels_memory
    ∷ []

abbrev pub interface : List (String × Desc)
interface =
    unready "network_if_rx_bytes" "network_if_rx_bytes" "Network Interface Received Bytes."
      labels_interface
    ∷ unready "network_if_tx_bytes" "network_if_tx_bytes" "Network Interface Transmitted Bytes."
        labels_interface
    ∷ unready "network_if_state" "network_if_state" "Network Interface State." labels_interface
    ∷ []

abbrev pub interface_hw : List (String × Desc)
interface_hw =
    unready "network_ifhw_rx_bytes" "network_ifhw_rx_bytes" "Network Interface Received Bytes."
      labels_interface
    ∷ unready "network_ifhw_tx_bytes" "network_ifhw_tx_bytes" "Network Interface Transmitted Bytes."
        labels_interface
    ∷ unready "network_ifhw_state" "network_ifhw_state" "Network Interface State." labels_interface
    ∷ unready "network_ifhw_rx_packets" "network_ifhw_rx_packets"
        "Network Interface Received Packets." labels_interface_hw
    ∷ unready "network_ifhw_tx_packets" "network_ifhw_tx_packets"
        "Network Interface Transmitted Packets." labels_interface_hw
    ∷ unready "network_lag_configured_members" "network_lag_configured_members"
        "Network LAG Configured Members." labels_interface_hw
    ∷ unready "network_lag_available_members" "network_lag_available_members"
        "Network LAG Available Members." labels_interface_hw
    ∷ unready "network_lag_operational_members" "network_lag_operational_members"
        "Network LAG Operational Members." labels_interface_hw
    ∷ unready "network_ifhw_link_detected" "network_ifhw_link_detected"
        "Network Interface Link Detected. 0-No, 1-Yes" labels_interface_hw
    ∷ unready "network_ifhw_enabled" "network_ifhw_enabled" "Network Interface Enabled. 0-No, 1-Yes"
        labels_interface_hw
    ∷ []

abbrev pub global_stats : List (String × Desc)
global_stats =
    unready "system_total_clients_connected" "system_total_clients_connected"
      "Total clients connected." no_labels
    ∷ unready "system_total_clients_quota" "system_total_clients_quota"
        "Number of maximal possible clients to be connected." no_labels
    ∷ unready "system_message_spool_quota" "system_message_spool_quota"
        "Number of maximal possible messages to be queue." no_labels
    ∷ unready "system_uptime_seconds" "system_uptime_seconds" "Uptime in seconds." no_labels
    ∷ unready "system_cpu_cores" "system_cpu_cores" "Available cpu cores." no_labels
    ∷ unready "system_memory_bytes" "system_memory_bytes" "Available ram in bytes." no_labels
    ∷ unready "system_rx_msgs_total" "system_rx_msgs_total" "Total client messages received."
        no_labels
    ∷ unready "system_tx_msgs_total" "system_tx_msgs_total" "Total client messages sent." no_labels
    ∷ unready "system_rx_bytes_total" "system_rx_bytes_total" "Total client bytes received."
        no_labels
    ∷ unready "system_tx_bytes_total" "system_tx_bytes_total" "Total client bytes sent." no_labels
    ∷ unready "system_total_rx_discards" "system_total_rx_discards" "Total ingress discards."
        no_labels
    ∷ unready "system_total_tx_discards" "system_total_tx_discards" "Total egress discards."
        no_labels
    ∷ []
