-- ===== src/Metric/Table/Rest.antt =====
-- The descriptors of internal/semp/metricDesc.go: RestConsumerStats, RdpInfo, RdpStats, RdpTotals, MqttSession.
use solace_prometheus_export.Prelude.{String, List, [], ◌∷◌}
use solace_prometheus_export.Metric.{Desc, unready}
use solace_prometheus_export.Metric.Table.Labels.{
  labels_mqtt_session, labels_mqtt_session_info, labels_rdp_info, labels_rdp_stats,
  labels_rest_consumer, no_labels,
}

abbrev pub rest_consumer_stats : List (String × Desc)
rest_consumer_stats =
    unready "http_post_request_messages_sent" "rdp_http_request_messages_sent_total"
      "The number of request messages sent by the REST Delivery Point (RDP) to the remote REST consumer."
      labels_rest_consumer
    ∷ unready "http_post_request_messages_sent_outstanding"
        "rdp_http_request_messages_sent_outstanding_total"
        "The number of outstandning request messages to be sent by the REST Delivery Point (RDP) to the remote REST consumer."
        labels_rest_consumer
    ∷ unready "http_post_request_messages_sent_connection_closed"
        "rdp_http_request_messages_sent_connection_closed_total"
        "The number of connection closed encountered while the REST Delivery Point (RDP) is sending a request message to the remote REST consumer."
        labels_rest_consumer
    ∷ unready "http_post_request_messages_sent_timed_out"
        "rdp_http_request_messages_sent_timed_out_total"
        "The number of time-outs encountered while the REST Delivery Point (RDP) is sending a request message to the remote REST consumer."
        labels_rest_consumer
    ∷ unready "http_post_response_messages_received" "rdp_http_response_messages_received_total"
        "The number of response messages received from the REST consumer." labels_rest_consumer
    ∷ unready "http_post_response_messages_received_successful"
        "rdp_http_response_messages_received_successful_total"
        "The number of response messages received successfully from the REST consumer."
        labels_rest_consumer
    ∷ unready "http_post_response_messages_received_error"
        "rdp_http_response_messages_received_error_total"
        "The number of response messages received from the REST consumer with errors"
        labels_rest_consumer
    ∷ unready "http_post_request_bytes_sent" "rdp_http_request_sent_bytes_total"
        "The number of request bytes sent by the REST Delivery Point (RDP) to the remote REST consumer."
        labels_rest_consumer
    ∷ unready "http_post_response_bytes_received" "rdp_http_response_received_bytes_total"
        "The number of response bytes received from the remote REST consumer" labels_rest_consumer
    ∷ []

abbrev pub rdp_info : List (String × Desc)
rdp_info =
    unready "enabled" "rdp_enabled" "Is RDP enabled?" labels_rdp_info
    ∷ unready "operating_status" "rdp_operating_status" "operating status of the RDP."
        labels_rdp_info
    ∷ unready "consumer_out_connections_up" "rdp_consumer_out_connections_up"
        "Number of outgoing consumer connections that are up." labels_rdp_info
    ∷ unready "consumer_out_connections_configured" "rdp_consumer_out_connections_configured"
        "Number of configured outgoing consumer connections." labels_rdp_info
    ∷ unready "queue_bindings_up" "rdp_queue_bindings_up" "Number of queue bindings that are up."
        labels_rdp_info
    ∷ unready "queue_bindings_configured" "rdp_queue_bindings_configured"
        "Number of configured queue bindings." labels_rdp_info
    ∷ unready "blocked_conns_percent" "rdp_blocked_conns_percent"
        "Percentage of blocked connections" labels_rdp_info
    ∷ []

abbrev pub rdp_stats : List (String × Desc)
rdp_stats =
    unready "http_post_request_messages_sent" "rdp_stats_http_request_messages_sent_total"
      "The number of request messages sent by the REST Delivery Point (RDP) to the remote REST consumer."
      labels_rdp_stats
    ∷ unready "http_post_request_messages_sent_outstanding"
        "rdp_stats_http_request_messages_sent_outstanding_total"
        "The number of outstandning request messages to be sent by the REST Delivery Point (RDP) to the remote REST consumer."
        labels_rdp_stats
    ∷ unready "http_post_request_messages_sent_connection_closed"
        "rdp_stats_http_request_messages_sent_connection_closed_total"
        "The numebr of connection closed encountered while the REST Delivery Point (RDP) is sending a request message to the remote REST consumer."
        labels_rdp_stats
    ∷ unready "http_post_request_messages_sent_timed_out"
        "rdp_stats_http_request_messages_sent_timed_out_total"
        "The number of time-outs encountered while the REST Delivery Point (RDP) is sending a request message to the remote REST consumer."
        labels_rdp_stats
    ∷ unready "http_post_response_messages_received"
        "rdp_stats_http_response_messages_received_total"
        "The number of response messages received from the REST consumer." labels_rdp_stats
    ∷ unready "http_post_response_messages_received_successful"
        "rdp_stats_http_response_messages_received_successful_total"
        "The number of response messages received successfully from the REST consumer."
        labels_rdp_stats
    ∷ unready "http_post_response_messages_received_error"
        "rdp_stats_http_response_messages_received_error_total"
        "The number of response messages received from the REST consumer with errors"
        labels_rdp_stats
    ∷ unready "http_post_request_bytes_sent" "rdp_stats_http_request_sent_bytes_total"
        "The number of request bytes sent by the REST Delivery Point (RDP) to the remote REST consumer."
        labels_rdp_stats
    ∷ unready "http_post_response_bytes_received" "rdp_stats_http_response_received_bytes_total"
        "The number of response bytes received from the remote REST consumer" labels_rdp_stats
    ∷ []

abbrev pub rdp_totals : List (String × Desc)
rdp_totals =
    unready "total_rest_delivery_points_up" "rdp_total_rest_delivery_points_up"
      "The total number of RDPs that are up." no_labels
    ∷ unready "total_rest_delivery_points_configured" "rdp_total_rest_delivery_points_configured"
        "The total number of configured RDPs." no_labels
    ∷ unready "total_rest_consumers_up" "rdp_total_rest_consumers_up"
        "The total number of REST consumers that are up." no_labels
    ∷ unready "total_rest_consumers_configured" "rdp_total_rest_consumers_configured"
        "The total number of configured REST consumers." no_labels
    ∷ unready "total_rest_consumer_outgoing_connections_up"
        "rdp_total_rest_consumer_outgoing_connections_up"
        "The total number of outgoing REST consumer connections that are up." no_labels
    ∷ unready "total_rest_consumer_outgoing_connections_configured"
        "rdp_total_rest_consumer_outgoing_connections_configured"
        "The total number of configured outgoing REST consumer connections." no_labels
    ∷ unready "total_queue_bindings_up" "rdp_total_queue_bindings_up"
        "The total number of queue bindings that are up." no_labels
    ∷ unready "total_queue_bindings_configured" "rdp_total_queue_bindings_configured"
        "The total number of configured queue bindings." no_labels
    ∷ []

abbrev pub mqtt_session : List (String × Desc)
mqtt_session =
    unready "mqtt_session_info" "mqtt_session_info"
      "Static information and flags regarding the MQTT session. Value is always 1."
      labels_mqtt_session_info
    ∷ unready "mqtt_session_subscriptions" "mqtt_session_subscriptions"
        "Number of subscriptions for the MQTT session." labels_mqtt_session
    ∷ unready "mqtt_session_uptime_seconds" "mqtt_session_uptime_seconds"
        "Uptime of the MQTT session in seconds." labels_mqtt_session
    ∷ []
