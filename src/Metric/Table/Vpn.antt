-- ===== src/Metric/Table/Vpn.antt =====
-- The descriptors of internal/semp/metricDesc.go: Vpn, VpnReplication, ConfigSync, ConfigSyncVpn, ConfigSyncRouter, VpnSpool, VpnStats.
use solace_prometheus_export.Prelude.{String, List, [], ◌∷◌}
use solace_prometheus_export.Metric.{Desc, unready}
use solace_prometheus_export.Metric.Table.Labels.{labels_config_sync_table, labels_vpn, no_labels}

abbrev pub vpn : List (String × Desc)
vpn =
    unready "vpn_is_management_vpn" "vpn_is_management_vpn" "VPN is a management VPN" labels_vpn
    ∷ unready "vpn_enabled" "vpn_enabled" "VPN is enabled" labels_vpn
    ∷ unready "vpn_operational" "vpn_operational" "VPN is operational" labels_vpn
    ∷ unready "vpn_locally_configured" "vpn_locally_configured" "VPN is locally configured"
        labels_vpn
    ∷ unready "vpn_local_status" "vpn_local_status" "Local status (0=Down, 1=Up)" labels_vpn
    ∷ unready "vpn_unique_subscriptions" "vpn_unique_subscriptions" "Total subscriptions count"
        labels_vpn
    ∷ unready "vpn_total_local_unique_subscriptions" "vpn_total_local_unique_subscriptions"
        "Total unique local subscriptions count" labels_vpn
    ∷ unready "vpn_total_remote_unique_subscriptions" "vpn_total_remote_unique_subscriptions"
        "Total unique remote subscriptions count" labels_vpn
    ∷ unready "vpn_total_unique_subscriptions" "vpn_total_unique_subscriptions"
        "Total unique subscriptions count" labels_vpn
    ∷ []

abbrev pub vpn_replication : List (String × Desc)
vpn_replication =
    unready "vpn_replication_admin_state" "vpn_replication_admin_state"
      "Replication Admin Status (0-shutdown, 1-enabled, 2-n/a)" labels_vpn
    ∷ unready "vpn_replication_config_state" "vpn_replication_config_state"
        "Replication Config Status (0-standby, 1-active, 2-n/a)" labels_vpn
    ∷ unready "vpn_replication_transaction_replication_mode"
        "vpn_replication_transaction_replication_mode"
        "Replication Transaction Replication Mode (0-async, 1-sync)" labels_vpn
    ∷ []

abbrev pub config_sync : List (String × Desc)
config_sync =
    unready "configsync_admin_state" "configsync_admin_state"
      "Config Sync Admin Status (0-Shutdown, 1-Enabled)" no_labels
    ∷ unready "configsync_oper_state" "configsync_operational_state"
        "Config Sync Current Status (0-Down, 1-Up, 2-Shutting Down)" no_labels
    ∷ []

abbrev pub config_sync_vpn : List (String × Desc)
config_sync_vpn =
    unready "configsync_table_type" "configsync_table_type"
      "Config Sync Resource Type (0-Router, 1-Vpn, 2-Unknown, 3-None, 4-All)"
      labels_config_sync_table
    ∷ unready "configsync_table_timeinstateseconds" "configsync_table_timeinstateseconds"
        "Config Sync Time in State" labels_config_sync_table
    ∷ unready "configsync_table_ownership" "configsync_table_ownership"
        "Config Sync Ownership (0-Master, 1-Slave, 2-Unknown)" labels_config_sync_table
    ∷ unready "configsync_table_syncstate" "configsync_table_syncstate"
        "Config Sync State (0-Down, 1-Up, 2-Unknown, 3-In-Sync, 4-Reconciling, 5-Blocked, 6-Out-Of-Sync)"
        labels_config_sync_table
    ∷ []

abbrev pub config_sync_router : List (String × Desc)
config_sync_router =
    unready "configsync_table_type" "configsync_table_type"
      "Config Sync Resource Type (0-Router, 1-Vpn, 2-Unknown, 3-None, 4-All)"
      labels_config_sync_table
    ∷ unready "configsync_table_timeinstateseconds" "configsync_table_timeinstateseconds"
        "Config Sync Time in State" labels_config_sync_table
    ∷ unready "configsync_table_ownership" "configsync_table_ownership"
        "Config Sync Ownership (0-Master, 1-Slave, 2-Unknown)" labels_config_sync_table
    ∷ unready "configsync_table_syncstate" "configsync_table_syncstate"
        "Config Sync State (0-Down, 1-Up, 2-Unknown, 3-In-Sync, 4-Reconciling, 5-Blocked, 6-Out-Of-Sync)"
        labels_config_sync_table
    ∷ []

abbrev pub vpn_spool : List (String × Desc)
vpn_spool =
    unready "vpn_spool_quota_bytes" "vpn_spool_quota_bytes" "Spool configured max disk usage."
      labels_vpn
    ∷ unready "vpn_spool_usage_bytes" "vpn_spool_usage_bytes" "Spool total persisted usage."
        labels_vpn
    ∷ unready "vpn_spool_usage_pct" "vpn_spool_usage_pct"
        "Spool percentage persisted usage. (-1 means no spool has been allocated.)" labels_vpn
    ∷ unready "vpn_spool_usage_msgs" "vpn_spool_usage_msgs"
        "Spool total number of persisted messages." labels_vpn
    ∷ unready "vpn_spool_current_endpoints" "vpn_spool_current_endpoints"
        "Spool current number of endpoints." labels_vpn
    ∷ unready "vpn_spool_maximum_endpoints" "vpn_spool_maximum_endpoints"
        "Spool maximum number of endpoints." labels_vpn
    ∷ unready "vpn_spool_current_egress_flows" "vpn_spool_current_egress_flows"
        "Spool current number of egress flows." labels_vpn
    ∷ unready "vpn_spool_maximum_egress_flows" "vpn_spool_maximum_egress_flows"
        "Spool maximum number of egress flows." labels_vpn
    ∷ unready "vpn_spool_current_ingress_flows" "vpn_spool_current_ingress_flows"
        "Spool current number of ingress flows." labels_vpn
    ∷ unready "vpn_spool_maximum_ingress_flows" "vpn_spool_maximum_ingress_flows"
        "Spool maximum number of ingress flows." labels_vpn
    ∷ unready "vpn_spool_current_transacted_sessions" "vpn_spool_current_transacted_sessions"
        "Spool current number of transacted sessions." labels_vpn
    ∷ unready "vpn_spool_maximum_transacted_sessions" "vpn_spool_maximum_transacted_sessions"
        "Spool maximum number of transacted messages." labels_vpn
    ∷ unready "vpn_spool_current_transacted_msgs" "vpn_spool_current_transacted_msgs"
        "Spool current number of transacted messages." labels_vpn
    ∷ []

abbrev pub vpn_stats : List (String × Desc)
vpn_stats =
    unready "vpn_rx_msgs_total" "vpn_rx_msgs_total" "Number of received messages." labels_vpn
    ∷ unready "vpn_tx_msgs_total" "vpn_tx_msgs_total" "Number of transmitted messages." labels_vpn
    ∷ unready "vpn_rx_bytes_total" "vpn_rx_bytes_total" "Number of received bytes." labels_vpn
    ∷ unready "vpn_tx_bytes_total" "vpn_tx_bytes_total" "Number of transmitted bytes." labels_vpn
    ∷ unready "vpn_rx_discarded_msgs_total" "vpn_rx_discarded_msgs_total"
        "Number of discarded received messages." labels_vpn
    ∷ unready "vpn_tx_discarded_msgs_total" "vpn_tx_discarded_msgs_total"
        "Number of discarded transmitted messages." labels_vpn
    ∷ unready "vpn_connections_service_amqp" "vpn_connections_service_amqp"
        "Total number of amq connections" labels_vpn
    ∷ unready "vpn_connections_service_mqtt" "vpn_connections_service_mqtt"
        "Total number of mqtt connections" labels_vpn
    ∷ unready "vpn_connections_service_smf" "vpn_connections_service_smf"
        "Total number of smf connections" labels_vpn
    ∷ unready "vpn_connections_service_web" "vpn_connections_service_web"
        "Total number of smf-web connections" labels_vpn
    ∷ unready "vpn_connections_service_rest_in" "vpn_connections_service_rest_in"
        "Total number of inbound rest connections" labels_vpn
    ∷ unready "vpn_connections_service_rest_out" "vpn_connections_service_rest_out"
        "Total number of outbound rest connections" labels_vpn
    ∷ unready "vpn_connections" "vpn_connections" "Number of connections." labels_vpn
    ∷ unready "vpn_quota_connections" "vpn_quota_connections" "Maximum number of connections."
        labels_vpn
    ∷ unready "vpn_quota_connections_amqp" "vpn_quota_connections_amqp"
        "Maximum number of amqp connections." labels_vpn
    ∷ unready "vpn_quota_connections_smf" "vpn_quota_connections_smf"
        "Maximum number of smf connections." labels_vpn
    ∷ unready "vpn_quota_connections_web" "vpn_quota_connections_web"
        "Maximum number of smf-web connections." labels_vpn
    ∷ unready "vpn_quota_connections_mqtt" "vpn_quota_connections_mqtt"
        "Maximum number of mqtt connections." labels_vpn
    ∷ unready "vpn_quota_connections_rest_in" "vpn_quota_connections_rest_in"
        "Maximum number of inbound rest connections." labels_vpn
    ∷ unready "vpn_quota_connections_rest_out" "vpn_quota_connections_rest_out"
        "Maximum number of outbound rest connections." labels_vpn
    ∷ []
