-- ===== src/Metric/Table/Bridge.antt =====
-- The descriptors of internal/semp/metricDesc.go: Bridge, BridgeRemote, BridgeDetail, BridgeClientCert, BridgeStats.
use solace_prometheus_export.Prelude.{String, List, [], ◌∷◌}
use solace_prometheus_export.Metric.{Desc, unready}
use solace_prometheus_export.Metric.Table.Labels.{
  labels_bridge, labels_bridge_client_cert, labels_bridge_detail, labels_bridge_detail_auth,
  labels_bridge_detail_remote, labels_bridge_remote, labels_bridge_stats, no_labels,
}

abbrev pub bridge : List (String × Desc)
bridge =
    unready "bridges_num_total_bridges" "bridges_num_total_bridges" "Number of Bridges" no_labels
    ∷ unready "bridges_max_num_total_bridges" "bridges_max_num_total_bridges"
        "Max number of Bridges" no_labels
    ∷ unready "bridges_num_local_bridges" "bridges_num_local_bridges" "Number of Local Bridges"
        no_labels
    ∷ unready "bridges_max_num_local_bridges" "bridges_max_num_local_bridges"
        "Max number of Local Bridges" no_labels
    ∷ unready "bridges_num_remote_bridges" "bridges_num_remote_bridges" "Number of Remote Bridges"
        no_labels
    ∷ unready "bridges_max_num_remote_bridges" "bridges_max_num_remote_bridges"
        "Max number of Remote Bridges" no_labels
    ∷ unready "bridges_num_total_remote_bridge_subscriptions"
        "bridges_num_total_remote_bridge_subscriptions" "Total number of Remote Bridge Subscription"
        no_labels
    ∷ unready "bridges_max_num_total_remote_bridge_subscriptions"
        "bridges_max_num_total_remote_bridge_subscriptions"
        "Max total number of Remote Bridge Subscription" no_labels
    ∷ unready "bridge_admin_state" "bridge_admin_state"
        "Bridge Administrative State (0-Enabled 1-Disabled, 2--)" labels_bridge
    ∷ unready "bridge_connection_establisher" "bridge_connection_establisher"
        "Connection Establisher (0-NotApplicable, 1-Local, 2-Remote, 3-Invalid)" labels_bridge
    ∷ unready "bridge_inbound_operational_state" "bridge_inbound_operational_state"
        "Inbound Ops State (0-Init, 1-Shutdown, 2-NoShutdown, 3-Prepare, 4-Prepare-WaitToConnect, 5-Prepare-FetchingDNS, 6-NotReady, 7-NotReady-Connecting, 8-NotReady-Handshaking, 9-NotReady-WaitNext, 10-NotReady-WaitReuse, 11-NotRead-WaitBridgeVersionMismatch, 12-NotReady-WaitCleanup, 13-Ready, 14-Ready-Subscribing, 15-Ready-InSync, 16-NotApplicable, 17-Invalid)"
        labels_bridge
    ∷ unready "bridge_inbound_operational_failure_reason"
        "bridge_inbound_operational_failure_reason"
        "Inbound Ops Failure Reason (various very long codes)" labels_bridge
    ∷ unready "bridge_outbound_operational_state" "bridge_outbound_operational_state"
        "Outbound Ops State (0-Init, 1-Shutdown, 2-NoShutdown, 3-Prepare, 4-Prepare-WaitToConnect, 5-Prepare-FetchingDNS, 6-NotReady, 7-NotReady-Connecting, 8-NotReady-Handshaking, 9-NotReady-WaitNext, 10-NotReady-WaitReuse, 11-NotRead-WaitBridgeVersionMismatch, 12-NotReady-WaitCleanup, 13-Ready, 14-Ready-Subscribing, 15-Ready-InSync, 16-NotApplicable, 17-Invalid)"
        labels_bridge
    ∷ unready "bridge_queue_operational_state" "bridge_queue_operational_state"
        "Queue Ops State (0-NotApplicable, 1-Bound, 2-Unbound)" labels_bridge
    ∷ unready "bridge_redundancy" "bridge_redundancy"
        "Bridge Redundancy (0-NotApplicable, 1-auto, 2-primary, 3-backup, 4-static, 5-none)"
        labels_bridge
    ∷ unready "bridge_connection_uptime_in_seconds" "bridge_connection_uptime_in_seconds"
        "Connection Uptime (s)" labels_bridge
    ∷ []

abbrev pub bridge_remote : List (String × Desc)
bridge_remote =
    unready "bridge_remote_admin_state" "bridge_remote_admin_state"
      "Bridge Administrative State (0-Enabled 1-Disabled, 2--, 3-N/A)" labels_bridge_remote
    ∷ unready "bridge_remote_connection_establisher" "bridge_remote_connection_establisher"
        "Connection Establisher (0-NotApplicable, 1-Local, 2-Remote, 3-Invalid)"
        labels_bridge_remote
    ∷ unready "bridge_remote_inbound_operational_state" "bridge_remote_inbound_operational_state"
        "Inbound Ops State (0-Init, 1-Shutdown, 2-NoShutdown, 3-Prepare, 4-Prepare-WaitToConnect, 5-Prepare-FetchingDNS, 6-NotReady, 7-NotReady-Connecting, 8-NotReady-Handshaking, 9-NotReady-WaitNext, 10-NotReady-WaitReuse, 11-NotRead-WaitBridgeVersionMismatch, 12-NotReady-WaitCleanup, 13-Ready, 14-Ready-Subscribing, 15-Ready-InSync, 16-NotApplicable, 17-Invalid)"
        labels_bridge_remote
    ∷ unready "bridge_remote_inbound_operational_failure_reason"
        "bridge_remote_inbound_operational_failure_reason"
        "Inbound Ops Failure Reason (0-Bridge disabled ,1-No remote message-vpns configured, 2-SMF service is disabled, 3-Msg Backbone is disabled, 4-Local message-vpn is disabled, 5-Active-Standby Role Mismatch, 6-Invalid Active-Standby Role, 7-Redundancy Disabled, 8-Not active, 9-Replication standby, 10-Remote message-vpns disabled, 11-Enforce-trusted-common-name but empty trust-common-name list, 12-SSL transport used but cipher-suite list is empty, 13-Authentication Scheme is Client-Certificate but no certificate is configured, 14-Client-Certificate Authentication Scheme used but not all Remote Message VPNs use SSL, 15-Basic Authentication Scheme used but Basic Client Username not configured, 16-Cluster Down, 17-Cluster Link Down, 18-N/A)"
        labels_bridge_remote
    ∷ unready "bridge_remote_outbound_operational_state" "bridge_remote_outbound_operational_state"
        "Outbound Ops State (0-Init, 1-Shutdown, 2-NoShutdown, 3-Prepare, 4-Prepare-WaitToConnect, 5-Prepare-FetchingDNS, 6-NotReady, 7-NotReady-Connecting, 8-NotReady-Handshaking, 9-NotReady-WaitNext, 10-NotReady-WaitReuse, 11-NotRead-WaitBridgeVersionMismatch, 12-NotReady-WaitCleanup, 13-Ready, 14-Ready-Subscribing, 15-Ready-InSync, 16-NotApplicable, 17-Invalid)"
        labels_bridge_remote
    ∷ unready "bridge_remote_queue_operational_state" "bridge_remote_queue_operational_state"
        "Queue Ops State (0-NotApplicable, 1-Bound, 2-Unbound)" labels_bridge_remote
    ∷ unready "bridge_remote_redundancy" "bridge_remote_redundancy"
        "Bridge Redundancy (0-NotApplicable, 1-auto, 2-primary, 3-backup, 4-static, 5-none)"
        labels_bridge_remote
    ∷ unready "bridge_remote_connection_uptime_in_seconds"
        "bridge_remote_connection_uptime_in_seconds" "Connection Uptime (s)" labels_bridge_remote
    ∷ []

abbrev pub bridge_detail : List (String × Desc)
bridge_detail =
    unready "bridge_detail_admin_state" "bridge_detail_admin_state"
      "Bridge Administrative State (0-Enabled 1-Disabled, 2--, 3-N/A)" labels_bridge_detail
    ∷ unready "bridge_detail_connection_establisher" "bridge_detail_connection_establisher"
        "Connection Establisher (0-NotApplicable, 1-Local, 2-Remote, 3-Invalid)"
        labels_bridge_detail
    ∷ unready "bridge_detail_inbound_operational_state" "bridge_detail_inbound_operational_state"
        "Inbound Ops State (0-Init, 1-Shutdown, 2-NoShutdown, 3-Prepare, 4-Prepare-WaitToConnect, 5-Prepare-FetchingDNS, 6-NotReady, 7-NotReady-Connecting, 8-NotReady-Handshaking, 9-NotReady-WaitNext, 10-NotReady-WaitReuse, 11-NotRead-WaitBridgeVersionMismatch, 12-NotReady-WaitCleanup, 13-Ready, 14-Ready-Subscribing, 15-Ready-InSync, 16-NotApplicable, 17-Invalid)"
        labels_bridge_detail
    ∷ unready "bridge_detail_inbound_operational_failure_reason"
        "bridge_detail_inbound_operational_failure_reason"
        "Inbound Ops Failure Reason (0-Bridge disabled ,1-No remote message-vpns configured, 2-SMF service is disabled, 3-Msg Backbone is disabled, 4-Local message-vpn is disabled, 5-Active-Standby Role Mismatch, 6-Invalid Active-Standby Role, 7-Redundancy Disabled, 8-Not active, 9-Replication standby, 10-Remote message-vpns disabled, 11-Enforce-trusted-common-name but empty trust-common-name list, 12-SSL transport used but cipher-suite list is empty, 13-Authentication Scheme is Client-Certificate but no certificate is configured, 14-Client-Certificate Authentication Scheme used but not all Remote Message VPNs use SSL, 15-Basic Authentication Scheme used but Basic Client Username not configured, 16-Cluster Down, 17-Cluster Link Down, 18-N/A)"
        labels_bridge_detail
    ∷ unready "bridge_detail_outbound_operational_state" "bridge_detail_outbound_operational_state"
        "Outbound Ops State (0-Init, 1-Shutdown, 2-NoShutdown, 3-Prepare, 4-Prepare-WaitToConnect, 5-Prepare-FetchingDNS, 6-NotReady, 7-NotReady-Connecting, 8-NotReady-Handshaking, 9-NotReady-WaitNext, 10-NotReady-WaitReuse, 11-NotRead-WaitBridgeVersionMismatch, 12-NotReady-WaitCleanup, 13-Ready, 14-Ready-Subscribing, 15-Ready-InSync, 16-NotApplicable, 17-Invalid)"
        labels_bridge_detail
    ∷ unready "bridge_detail_queue_operational_state" "bridge_detail_queue_operational_state"
        "Queue Ops State (0-NotApplicable, 1-Bound, 2-Unbound)" labels_bridge_detail
    ∷ unready "bridge_detail_redundancy" "bridge_detail_redundancy"
        "Bridge Redundancy (0-NotApplicable, 1-auto, 2-primary, 3-backup, 4-static, 5-none)"
        labels_bridge_detail
    ∷ unready "bridge_detail_connection_uptime_in_seconds"
        "bridge_detail_connection_uptime_in_seconds" "Connection Uptime (s)" labels_bridge_detail
    ∷ unready "bridge_detail_authentication_scheme" "bridge_detail_authentication_scheme"
        "Bridge Authentication Scheme (NotApplicable, Basic, Client-Certificate, TLS-PSK)"
        labels_bridge_detail_auth
    ∷ unready "bridge_detail_remote_admin_state" "bridge_detail_remote_admin_state"
        "Bridge Remote Administrative State (0-Enabled 1-Disabled, 2--, 3-N/A)"
        labels_bridge_detail_remote
    ∷ unready "bridge_detail_remote_connection_state" "bridge_detail_remote_connection_state"
        "Bridge Remote Connection Current Status (0-Down, 1-Up)" labels_bridge_detail_remote
    ∷ unready "bridge_detail_remote_last_conn_failure_reason"
        "bridge_detail_remote_last_conn_failure_reason"
        "Bridge Remote Last Connection Failure Reason (0-Bridge disabled ,1-No remote message-vpns configured, 2-SMF service is disabled, 3-Msg Backbone is disabled, 4-Local message-vpn is disabled, 5-Active-Standby Role Mismatch, 6-Invalid Active-Standby Role, 7-Redundancy Disabled, 8-Not active, 9-Replication standby, 10-Remote message-vpns disabled, 11-Enforce-trusted-common-name but empty trust-common-name list, 12-SSL transport used but cipher-suite list is empty, 13-Authentication Scheme is Client-Certificate but no certificate is configured, 14-Client-Certificate Authentication Scheme used but not all Remote Message VPNs use SSL, 15-Basic Authentication Scheme used but Basic Client Username not configured, 16-Cluster Down, 17-Cluster Link Down, 18-N/A)"
        labels_bridge_detail_remote
    ∷ unready "bridge_detail_remote_queue_bind_state" "bridge_detail_remote_queue_bind_state"
        "Bridge Remote Queue Bind Status (0-Down, 1-Up)" labels_bridge_detail_remote
    ∷ []

abbrev pub bridge_client_cert : List (String × Desc)
bridge_client_cert =
    unready "bridge_client_cert_configured" "bridge_client_cert_configured"
      "Whether a client certificate is configured and parseable for the bridge (0-No, 1-Yes)."
      labels_bridge_client_cert
    ∷ unready "bridge_client_cert_expiry_timestamp_seconds"
        "bridge_client_cert_expiry_timestamp_seconds"
        "Bridge client certificate notAfter as a Unix timestamp (seconds)."
        labels_bridge_client_cert
    ∷ unready "bridge_client_cert_not_before_timestamp_seconds"
        "bridge_client_cert_not_before_timestamp_seconds"
        "Bridge client certificate notBefore as a Unix timestamp (seconds)."
        labels_bridge_client_cert
    ∷ []

abbrev pub bridge_stats : List (String × Desc)
bridge_stats =
    unready "bridge_client_num_subscriptions" "bridge_client_num_subscriptions"
      "Bridge Client Subscription" labels_bridge_stats
    ∷ unready "bridge_client_slow_subscriber" "bridge_client_slow_subscriber"
        "Bridge Slow Subscriber" labels_bridge_stats
    ∷ unready "bridge_total_client_messages_received" "bridge_total_client_messages_received"
        "Bridge Total Client Messages Received" labels_bridge_stats
    ∷ unready "bridge_total_client_messages_sent" "bridge_total_client_messages_sent"
        "Bridge Total Client Messages sent" labels_bridge_stats
    ∷ unready "bridge_client_data_messages_received" "bridge_client_data_messages_received"
        "Bridge Client Data Msgs Received" labels_bridge_stats
    ∷ unready "bridge_client_data_messages_sent" "bridge_client_data_messages_sent"
        "Bridge Client Data Msgs Sent" labels_bridge_stats
    ∷ unready "bridge_client_persistent_messages_received"
        "bridge_client_persistent_messages_received" "Bridge Client Persistent Msgs Received"
        labels_bridge_stats
    ∷ unready "bridge_client_persistent_messages_sent" "bridge_client_persistent_messages_sent"
        "Bridge Client Persistent Msgs Sent" labels_bridge_stats
    ∷ unready "bridge_client_nonpersistent_messages_received"
        "bridge_client_nonpersistent_messages_received" "Bridge Client Non-Persistent Msgs Received"
        labels_bridge_stats
    ∷ unready "bridge_client_nonpersistent_messages_sent"
        "bridge_client_nonpersistent_messages_sent" "Bridge Client Non-Persistent Msgs Sent"
        labels_bridge_stats
    ∷ unready "bridge_client_direct_messages_received" "bridge_client_direct_messages_received"
        "Bridge Client Direct Msgs Received" labels_bridge_stats
    ∷ unready "bridge_client_direct_messages_sent" "bridge_client_direct_messages_sent"
        "Bridge Client Direct Msgs Sent" labels_bridge_stats
    ∷ unready "bridge_total_client_bytes_received" "bridge_total_client_bytes_received"
        "Bridge Total Client Bytes Received" labels_bridge_stats
    ∷ unready "bridge_total_client_bytes_sent" "bridge_total_client_bytes_sent"
        "Bridge Total Client Bytes sent" labels_bridge_stats
    ∷ unready "bridge_client_data_bytes_received" "bridge_client_data_bytes_received"
        "Bridge Client Data Bytes Received" labels_bridge_stats
    ∷ unready "bridge_client_data_bytes_sent" "bridge_client_data_bytes_sent"
        "Bridge Client Data Bytes Sent" labels_bridge_stats
    ∷ unready "bridge_client_persistent_bytes_received" "bridge_client_persistent_bytes_received"
        "Bridge Client Persistent Bytes Received" labels_bridge_stats
    ∷ unready "bridge_client_persistent_bytes_sent" "bridge_client_persistent_bytes_sent"
        "Bridge Client Persistent Bytes Sent" labels_bridge_stats
    ∷ unready "bridge_client_nonpersistent_bytes_received"
        "bridge_client_nonpersistent_bytes_received" "Bridge Client Non-Persistent Bytes Received"
        labels_bridge_stats
    ∷ unready "bridge_client_nonpersistent_bytes_sent" "bridge_client_nonpersistent_bytes_sent"
        "Bridge Client Non-Persistent Bytes Sent" labels_bridge_stats
    ∷ unready "bridge_client_direct_bytes_received" "bridge_client_direct_bytes_received"
        "Bridge Client Direct Bytes Received" labels_bridge_stats
    ∷ unready "bridge_client_direct_bytes_sent" "bridge_client_direct_bytes_sent"
        "Bridge Client Direct Bytes Sent" labels_bridge_stats
    ∷ unready "bridge_client_large_messages_received" "bridge_client_large_messages_received"
        "Bridge Client Large Messages received" labels_bridge_stats
    ∷ unready "bridge_denied_duplicate_clients" "bridge_denied_duplicate_clients"
        "Bridge Denied Duplicate Clients" labels_bridge_stats
    ∷ unready "bridge_not_enough_space_msgs_sent" "bridge_not_enough_space_msgs_sent"
        "Bridge Not Enough Space Messages Sent" labels_bridge_stats
    ∷ unready "bridge_max_exceeded_msgs_sent" "bridge_max_exceeded_msgs_sent"
        "Bridge Max Exceeded Messages Sent" labels_bridge_stats
    ∷ unready "bridge_subscribe_client_not_found" "bridge_subscribe_client_not_found"
        "Bridge Subscriber Client Not Found" labels_bridge_stats
    ∷ unready "bridge_not_found_msgs_sent" "bridge_not_found_msgs_sent"
        "Bridge Not Found Messages Sent" labels_bridge_stats
    ∷ unready "bridge_current_ingress_rate_per_second" "bridge_current_ingress_rate_per_second"
        "Current Ingress Rate / s" labels_bridge_stats
    ∷ unready "bridge_current_egress_rate_per_second" "bridge_current_egress_rate_per_second"
        "Current Egress Rate / s" labels_bridge_stats
    ∷ unready "bridge_total_ingress_discards" "bridge_total_ingress_discards"
        "Total Ingress Discards" labels_bridge_stats
    ∷ unready "bridge_total_egress_discards" "bridge_total_egress_discards" "Total Egress Discards"
        labels_bridge_stats
    ∷ []
