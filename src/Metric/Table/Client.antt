-- ===== src/Metric/Table/Client.antt =====
-- The descriptors of internal/semp/metricDesc.go: Client, ClientProfile, ClientSlowSubscriber, ClientStats, ClientMessageSpoolStats, ClientMessageSpoolEgress, ClientConnections.
use solace_prometheus_export.Prelude.{String, List, [], ◌∷◌}
use solace_prometheus_export.Metric.{Desc, unready}
use solace_prometheus_export.Metric.Table.Labels.{
  labels_client_info, labels_client_profile, labels_client_slow_sub, labels_vpn_client,
  labels_vpn_client_detail, labels_vpn_client_endpoint_bind, labels_vpn_client_flow,
  labels_vpn_client_user,
}

abbrev pub client : List (String × Desc)
client =
    unready "client_num_subscriptions" "client_num_subscriptions" "Number of client subscriptions."
      labels_client_info
    ∷ []

abbrev pub client_profile : List (String × Desc)
client_profile =
    unready "clientprofile_max_connections_per_username"
      "clientprofile_max_connections_per_username" "Maximum connections per username."
      labels_client_profile
    ∷ unready "clientprofile_max_endpoints_per_username" "clientprofile_max_endpoints_per_username"
        "Maximum endpoints per username." labels_client_profile
    ∷ unready "clientprofile_max_egress_flows" "clientprofile_max_egress_flows"
        "Maximum egress flows of this client profile." labels_client_profile
    ∷ unready "clientprofile_max_ingress_flows" "clientprofile_max_ingress_flows"
        "Maximum ingress flows of this client profile." labels_client_profile
    ∷ unready "clientprofile_max_transacted_sessions_per_client"
        "clientprofile_max_transacted_sessions" "Maximum effective transacted sessions per client."
        labels_client_profile
    ∷ unready "clientprofile_max_subscriptions" "clientprofile_max_subscriptions"
        "Maximum subscriptions of this client profile." labels_client_profile
    ∷ unready "clientprofile_num_users" "clientprofile_num_users"
        "Number of users using this client profile." labels_client_profile
    ∷ []

abbrev pub client_slow_subscriber : List (String × Desc)
client_slow_subscriber =
    unready "client_slow_subscriber" "client_slow_subscriber"
      "Is client a slow subscriber? (0=not slow, 1=slow)." labels_client_slow_sub
    ∷ []

abbrev pub client_stats : List (String × Desc)
client_stats =
    unready "client_rx_msgs_total" "client_rx_msgs_total" "Number of received messages."
      labels_vpn_client_user
    ∷ unready "client_tx_msgs_total" "client_tx_msgs_total" "Number of transmitted messages."
        labels_vpn_client_user
    ∷ unready "client_rx_bytes_total" "client_rx_bytes_total" "Number of received bytes."
        labels_vpn_client_user
    ∷ unready "client_tx_bytes_total" "client_tx_bytes_total" "Number of transmitted bytes."
        labels_vpn_client_user
    ∷ unready "client_rx_discarded_msgs_total" "client_rx_discarded_msgs_total"
        "Number of discarded received messages." labels_vpn_client_user
    ∷ unready "client_tx_discarded_msgs_total" "client_tx_discarded_msgs_total"
        "Number of discarded transmitted messages." labels_vpn_client_user
    ∷ unready "client_slow_subscriber" "client_slow_subscriber"
        "Is client a slow subscriber? (0=not slow, 1=slow)." labels_client_slow_sub
    ∷ []

abbrev pub client_message_spool_stats : List (String × Desc)
client_message_spool_stats =
    unready "client_flows_ingress" "client_flows_ingress"
      "Number of ingress flows, created/openend by this client." labels_vpn_client_detail
    ∷ unready "client_flows_egress" "client_flows_egress"
        "Number of egress flows, created/openend by this client." labels_vpn_client_detail
    ∷ unready "spooling_not_ready" "client_ingress_spooling_not_ready"
        "Number of connections closed caused by spoolingNotReady" labels_vpn_client_flow
    ∷ unready "out_of_order_messages_received" "client_ingress_out_of_order_messages_received"
        "Number of messages, received in wrong order." labels_vpn_client_flow
    ∷ unready "duplicate_messages_received" "client_ingress_duplicate_messages_received"
        "Number of messages, received more than once" labels_vpn_client_flow
    ∷ unready "no_eligible_destinations" "client_ingress_no_eligible_destinations" "???"
        labels_vpn_client_flow
    ∷ unready "guaranteed_messages" "client_ingress_guaranteed_messages"
        "Number of guarantied messages, received." labels_vpn_client_flow
    ∷ unready "no_local_delivery" "client_ingress__no_local_delivery"
        "Number of messages, no localy delivered." labels_vpn_client_flow
    ∷ unready "seq_num_rollover" "client_ingress_seq_num_rollover" "???" labels_vpn_client_flow
    ∷ unready "seq_num_messages_discarded" "client_ingress_seq_num_messages_discarded" "???"
        labels_vpn_client_flow
    ∷ unready "transacted_messages_not_sequenced" "client_ingress_transacted_messages_not_sequenced"
        "???" labels_vpn_client_flow
    ∷ unready "destination_group_error" "client_ingress_destination_group_error" "???"
        labels_vpn_client_flow
    ∷ unready "smf_ttl_exceeded" "client_ingress_smf_ttl_exceeded" "???" labels_vpn_client_flow
    ∷ unready "publish_acl_denied" "client_ingress_publish_acl_denied" "???" labels_vpn_client_flow
    ∷ unready "ingress_window_size" "client_ingress_window_size" "Configured window size"
        labels_vpn_client_flow
    ∷ unready "egress_window_size" "client_egress_window_size" "Configured window size"
        labels_vpn_client_flow
    ∷ unready "used_window" "client_egress_used_window" "Used windows size." labels_vpn_client_flow
    ∷ unready "window_closed" "client_egress_window_closed" "Number windows closed."
        labels_vpn_client_flow
    ∷ unready "message_redelivered" "client_egress_message_redelivered"
        "Number of messages, was been redelivered." labels_vpn_client_flow
    ∷ unready "message_transport_retransmit" "client_egress_message_transport_retransmit"
        "Number of messages, was been retransmitted." labels_vpn_client_flow
    ∷ unready "message_confirmed_delivered" "client_egress_message_confirmed_delivered"
        "Number of messages successfully delivered." labels_vpn_client_flow
    ∷ unready "confirmed_delivered_store_and_forward"
        "client_egress_confirmed_delivered_store_and_forward" "???" labels_vpn_client_flow
    ∷ unready "confirmed_delivered_cut_through" "client_egress_confirmed_delivered_cut_through"
        "???" labels_vpn_client_flow
    ∷ unready "unacked_messages" "client_egress_unacked_messages"
        "Number of unacknowledged messages." labels_vpn_client_flow
    ∷ []

abbrev pub client_message_spool_egress : List (String × Desc)
client_message_spool_egress =
    unready "client_endpoint_egress_bind_time_seconds" "client_endpoint_egress_bind_time_seconds"
      "Unix timestamp (seconds) when this client became bound to the queue or topic endpoint as a consumer. One series per (client, endpoint) binding."
      labels_vpn_client_endpoint_bind
    ∷ []

abbrev pub client_connections : List (String × Desc)
client_connections =
    unready "connection_is_zip" "connection_is_zip" "Connection is zip compressed."
      labels_vpn_client
    ∷ unready "connection_is_ssl" "connection_is_ssl" "Connection is ssl encrypted."
        labels_vpn_client
    ∷ unready "connection_receive_queue_bytes" "connection_receive_queue_bytes"
        "The number of bytes currently in the event broker receive queue for the TCP connection."
        labels_vpn_client
    ∷ unready "connection_send_queue_bytes" "connection_send_queue_bytes"
        "The number of bytes currently in the event broker receive queue for the TCP connection."
        labels_vpn_client
    ∷ unready "connection_receive_queue_segments" "connection_receive_queue_segments"
        "The number of bytes currently queued for the client in both the client’s egress queues and the TCP send queue."
        labels_vpn_client
    ∷ unready "connection_send_queue_segments" "connection_send_queue_segments"
        "The number of messages currently queued for the client in its egress queues."
        labels_vpn_client
    ∷ unready "connection_maximum_segment_size" "connection_maximum_segment_size"
        "The maximum segment size (MSS) configured for the client connection. The MSS is configured in the client profile. See RFC 879 for further details."
        labels_vpn_client
    ∷ unready "connection_sent_bytes" "connection_sent_bytes"
        "The number of bytes sent by the event broker on the TCP connection" labels_vpn_client
    ∷ unready "connection_received_bytes" "connection_received_bytes"
        "The number of bytes received by the event broker on the TCP connection" labels_vpn_client
    ∷ unready "connection_retransmit_milliseconds" "connection_retransmit_milliseconds"
        "The retransmission timeout (RTO) in milliseconds for the TCP connection. See RFC 2988 for further details."
        labels_vpn_client
    ∷ unready "connection_roundtrip_smth_microseconds" "connection_roundtrip_smth_microseconds"
        "The smoothed round-trip time (SRTT) in microseconds for the TCP connection. See RFC 2988 for further details."
        labels_vpn_client
    ∷ unready "connection_roundtrip_min_microseconds" "connection_roundtrip_min_microseconds"
        "The minimum round-trip time in microseconds for the TCP connection. See RFC 2988 for further details."
        labels_vpn_client
    ∷ unready "connection_roundtrip_var_microseconds" "connection_roundtrip_var_microseconds"
        "The round-trip time variation (RTTVAR) in microseconds for the TCP connection. See RFC 2988 for further details."
        labels_vpn_client
    ∷ unready "connection_advertised_window" "connection_advertised_window"
        "The receive window size in bytes advertised to the client on the remote end of the TCP connection. See RFC 793 for further details."
        labels_vpn_client
    ∷ unready "connection_transmit_window" "connection_transmit_window"
        "The send window size in bytes. See RFC 793 for further details." labels_vpn_client
    ∷ unready "connection_congestion_window" "connection_congestion_window"
        "The congestion window size in bytes (cwnd). See RFC 5681 for further details."
        labels_vpn_client
    ∷ unready "connection_slow_start_threshold" "connection_slow_start_threshold"
        "The slow start threshold in bytes (ssthresh). See RFC 5681 for further details."
        labels_vpn_client
    ∷ unready "connection_received_outoforder" "connection_received_outoforder"
        "The number of TCP segments received out of order." labels_vpn_client
    ∷ unready "connection_fast_retransmit" "connection_fast_retransmit"
        "The number of TCP segments retransmitted due to the receipt of duplicate acknowledgments (‘ACKs’). See RFC 5681 for further details."
        labels_vpn_client
    ∷ unready "connection_timed_retransmit" "connection_timed_retransmit"
        "The number of TCP segments re-transmitted due to timeout awaiting an ACK. See RFC 793 for further details."
        labels_vpn_client
    ∷ []
