-- ===== src/Metric/Table/Spool.antt =====
-- The descriptors of internal/semp/metricDesc.go: Spool.
use solace_prometheus_export.Prelude.{String, List, [], ◌∷◌}
use solace_prometheus_export.Metric.{Desc, unready}
use solace_prometheus_export.Metric.Table.Labels.{labels_spool, no_labels}

abbrev pub spool : List (String × Desc)
spool =
    unready "system_spool_config_status" "system_spool_config_status"
      "Spool config status (0-Disabled, 1-Enabled (Primary), 2-Enabled (Backup), -1-Undefined)."
      no_labels
    ∷ unready "system_spool_operational_status" "system_spool_operational_status"
        "Spool operational status (0-AD-Unknown, 1-AD-NotReady, 2-AD-Disabled, 3-AD-Activating, 4-AD-Active, 5-AD-Standby, -1-Undefined)."
        no_labels
    ∷ unready "system_spool_quota_bytes" "system_spool_quota_bytes"
        "Spool configured max disk usage." no_labels
    ∷ unready "system_spool_quota_msgs" "system_spool_quota_msgs"
        "Spool configured max number of messages." no_labels
    ∷ unready "system_spool_disk_partition_usage_active_percent"
        "system_spool_disk_partition_usage_active_percent" "Total disk usage in percent." no_labels
    ∷ unready "system_spool_disk_partition_usage_mate_percent"
        "system_spool_disk_partition_usage_mate_percent"
        "Total disk usage of mate instance in percent." no_labels
    ∷ unready "system_spool_usage_bytes" "system_spool_usage_bytes" "Spool total persisted usage."
        no_labels
    ∷ unready "system_spool_usage_msgs" "system_spool_usage_msgs"
        "Spool total number of persisted messages." no_labels
    ∷ unready "system_spool_files_utilization_percent" "system_spool_files_utilization_percent"
        "Utilization of spool files in percent." no_labels
    ∷ unready "system_spool_message_count_utilization_percent"
        "system_spool_message_count_utilization_percent"
        "Utilization of queue message resource in percent." no_labels
    ∷ unready "system_spool_defrag_schedule_enabled" "system_spool_defrag_schedule_enabled"
        "Spool defragmentation schedule is enablement 0 = disabled, 1 = enabled." no_labels
    ∷ unready "system_spool_defrag_threshold_enabled" "system_spool_defrag_threshold_enabled"
        "Spool defragmentation threshold is enablement 0 = disabled, 1 = enabled." no_labels
    ∷ unready "system_spool_defrag_threshold_frag_percent"
        "system_spool_defrag_threshold_frag_percent"
        "Spool defragmentation threshold fragmentation in percent." no_labels
    ∷ unready "system_spool_defrag_threshold_usage_percent"
        "system_spool_defrag_threshold_usage_percent"
        "Spool defragmentation threshold spool usage in percent." no_labels
    ∷ unready "system_spool_defrag_estimated_frag_percent"
        "system_spool_defrag_estimated_frag_percent"
        "Spool defragmentation estimated fragmentation in percent." no_labels
    ∷ unready "system_spool_defrag_estimated_recoverable_space"
        "system_spool_defrag_estimated_recoverable_space"
        "Spool defragmentation estimated recoverable space in MB." no_labels
    ∷ unready "system_spool_disk_partition_blocks" "system_spool_disk_partition_blocks"
        "Total disk partition bytes" labels_spool
    ∷ unready "system_spool_disk_partition_used" "system_spool_disk_partition_used"
        "Disk partition used bytes." labels_spool
    ∷ unready "system_spool_disk_partition_available" "system_spool_disk_partition_available"
        "Disk partition available bytes." labels_spool
    ∷ unready "system_spool_disk_partition_use_percent" "system_spool_disk_partition_use_percent"
        "Disk partition usage in percent." labels_spool
    ∷ unready "system_spool_ingress_flows_quota" "system_spool_ingress_flows_quota"
        "Number of maximal possible ingress flows." no_labels
    ∷ unready "system_spool_ingress_flows_count" "system_spool_ingress_flows_count"
        "Number of used ingress flows." no_labels
    ∷ unready "system_spool_egress_flows_quota" "system_spool_egress_flows_quota"
        "Number of maximal possible egress flows." no_labels
    ∷ unready "system_spool_egress_flows_count" "system_spool_egress_flows_count"
        "Number of used egress flows." no_labels
    ∷ unready "system_spool_egress_flows_active" "system_spool_egress_flows_active"
        "Number of used egress flows in state active." no_labels
    ∷ unready "system_spool_egress_flows_inactive" "system_spool_egress_flows_inactive"
        "Number of used egress flows in state inactive." no_labels
    ∷ unready "system_spool_egress_flows_browser" "system_spool_egress_flows_browser"
        "Number of used egress flows in queue browser mode." no_labels
    ∷ unready "system_spool_endpoints_quota" "system_spool_endpoints_quota"
        "Number of maximal possible queue or topic endpoints." no_labels
    ∷ unready "system_spool_endpoints_queue" "system_spool_endpoints_queue"
        "Number of existing queue endpoints." no_labels
    ∷ unready "system_spool_endpoints_dte" "system_spool_endpoints_dte"
        "Number of existing topic endpoints." no_labels
    ∷ unready "system_spool_transacted_sessions_quota" "system_spool_transacted_sessions_quota"
        "Number of maximal possible transacted sessions." no_labels
    ∷ unready "system_spool_transacted_sessions_used" "system_spool_transacted_sessions_used"
        "Number of used transacted sessions." no_labels
    ∷ unready "system_spool_queue_topic_subscriptions_quota"
        "system_spool_queue_topic_subscriptions_quota"
        "Number of maximal possible topic subscriptions of all queues." no_labels
    ∷ unready "system_spool_queue_topic_subscriptions_used"
        "system_spool_queue_topic_subscriptions_used"
        "Number of used topic subscriptions of all queues." no_labels
    ∷ unready "system_spool_transactions_quota" "system_spool_transactions_quota"
        "Number of maximal possible transactions." no_labels
    ∷ unready "system_spool_transactions_used" "system_spool_transactions_used"
        "Number of used transactions." no_labels
    ∷ unready "system_spool_usage_adb_bytes" "system_spool_usage_adb_bytes"
        "Spool total persisted usage in adb." no_labels
    ∷ unready "system_spool_messages_currently_spooled_adb"
        "system_spool_messages_currently_spooled_adb" "Messages stored in adb." no_labels
    ∷ unready "system_spool_messages_currently_spooled_disk"
        "system_spool_messages_currently_spooled_disk" "Messages stored on disk." no_labels
    ∷ unready "system_spool_transacted_session_utilisation_pct"
        "system_spool_transacted_session_utilisation_pct" "Percentage of transacted sessions used."
        no_labels
    ∷ unready "system_spool_messages_total_disk_usage_bytes"
        "system_spool_messages_total_disk_usage_bytes" "Total disk usage." no_labels
    ∷ unready "system_spool_sync_status" "system_spool_sync_status" "Spool sync status: 0-Synced."
        no_labels
    ∷ []
