-- ===== src/Metric/Table/Endpoint.antt =====
-- The descriptors of internal/semp/metricDesc.go: QueueRates, QueueDetails, TopicEndpointRates, TopicEndpointDetails, TopicEndpointStats, ClusterLinks.
use solace_prometheus_export.Prelude.{String, List, [], ◌∷◌}
use solace_prometheus_export.Metric.{Desc, unready}
use solace_prometheus_export.Metric.Table.Labels.{
  labels_cluster_link, labels_vpn_queue, labels_vpn_topic_endpoint,
}

abbrev pub queue_rates : List (String × Desc)
queue_rates =
    unready "queue_rx_msg_rate" "queue_rx_msg_rate" "Rate of received messages." labels_vpn_queue
    ∷ unready "queue_tx_msg_rate" "queue_tx_msg_rate" "Rate of transmitted messages."
        labels_vpn_queue
    ∷ unready "queue_rx_byte_rate" "queue_rx_byte_rate" "Rate of received bytes." labels_vpn_queue
    ∷ unready "queue_tx_byte_rate" "queue_tx_byte_rate" "Rate of transmitted bytes."
        labels_vpn_queue
    ∷ unready "queue_rx_msg_rate_avg" "queue_rx_msg_rate_avg" "Average rate of received messages."
        labels_vpn_queue
    ∷ unready "queue_tx_msg_rate_avg" "queue_tx_msg_rate_avg"
        "Average rate of transmitted messages." labels_vpn_queue
    ∷ unready "queue_rx_byte_rate_avg" "queue_rx_byte_rate_avg" "Average rate of received bytes."
        labels_vpn_queue
    ∷ unready "queue_tx_byte_rate_avg" "queue_tx_byte_rate_avg" "Average rate of transmitted bytes."
        labels_vpn_queue
    ∷ []

abbrev pub queue_details : List (String × Desc)
queue_details =
    unready "queue_spool_quota_bytes" "queue_spool_quota_bytes"
      "Queue spool configured max disk usage in bytes." labels_vpn_queue
    ∷ unready "queue_spool_usage_bytes" "queue_spool_usage_bytes"
        "The size in bytes of all messages currently in the Queue." labels_vpn_queue
    ∷ unready "queue_spool_usage_msgs" "queue_spool_usage_msgs"
        "The count of all messages currently in the Queue." labels_vpn_queue
    ∷ unready "queue_binds" "queue_binds" "Number of clients bound to queue." labels_vpn_queue
    ∷ unready "queue_subscriptions" "queue_subscriptions" "Number of subscriptions of the queue."
        labels_vpn_queue
    ∷ []

abbrev pub topic_endpoint_rates : List (String × Desc)
topic_endpoint_rates =
    unready "rx_msg_rate" "topic_endpoint_rx_msg_rate" "Rate of received messages."
      labels_vpn_topic_endpoint
    ∷ unready "tx_msg_rate" "topic_endpoint_tx_msg_rate" "Rate of transmitted messages."
        labels_vpn_topic_endpoint
    ∷ unready "rx_byte_rate" "topic_endpoint_rx_byte_rate" "Rate of received bytes."
        labels_vpn_topic_endpoint
    ∷ unready "tx_byte_rate" "topic_endpoint_tx_byte_rate" "Rate of transmitted bytes."
        labels_vpn_topic_endpoint
    ∷ unready "rx_msg_rate_avg" "topic_endpoint_rx_msg_rate_avg"
        "Average rate of received messages." labels_vpn_topic_endpoint
    ∷ unready "tx_msg_rate_avg" "topic_endpoint_tx_msg_rate_avg"
        "Average rate of transmitted messages." labels_vpn_topic_endpoint
    ∷ unready "rx_byte_rate_avg" "topic_endpoint_rx_byte_rate_avg" "Average rate of received bytes."
        labels_vpn_topic_endpoint
    ∷ unready "tx_byte_rate_avg" "topic_endpoint_tx_byte_rate_avg"
        "Average rate of transmitted bytes." labels_vpn_topic_endpoint
    ∷ []

abbrev pub topic_endpoint_details : List (String × Desc)
topic_endpoint_details =
    unready "spool_quota_bytes" "topic_endpoint_spool_quota_bytes"
      "Topic Endpoint spool configured max disk usage in bytes." labels_vpn_topic_endpoint
    ∷ unready "spool_usage_bytes" "topic_endpoint_spool_usage_bytes"
        "Topic Endpoint spool usage in bytes." labels_vpn_topic_endpoint
    ∷ unready "spool_usage_msgs" "topic_endpoint_spool_usage_msgs"
        "Topic Endpoint spooled number of messages." labels_vpn_topic_endpoint
    ∷ unready "binds" "topic_endpoint_binds" "Number of clients bound to topic-endpoint."
        labels_vpn_topic_endpoint
    ∷ []

abbrev pub topic_endpoint_stats : List (String × Desc)
topic_endpoint_stats =
    unready "total_bytes_spooled" "topic_endpoint_byte_spooled"
      "Topic Endpoint spool total of all spooled messages in bytes." labels_vpn_topic_endpoint
    ∷ unready "total_messages_spooled" "topic_endpoint_msg_spooled"
        "Topic Endpoint spool total of all spooled messages." labels_vpn_topic_endpoint
    ∷ unready "messages_redelivered" "topic_endpoint_msg_redelivered"
        "Topic Endpoint total msg redeliveries." labels_vpn_topic_endpoint
    ∷ unready "messages_transport_retransmitted" "topic_endpoint_msg_retransmitted"
        "Topic Endpoint total msg retransmitted on transport." labels_vpn_topic_endpoint
    ∷ unready "spool_usage_exceeded" "topic_endpoint_msg_spool_usage_exceeded"
        "Topic Endpoint total number of messages exceeded the spool usage."
        labels_vpn_topic_endpoint
    ∷ unready "max_message_size_exceeded" "topic_endpoint_msg_max_msg_size_exceeded"
        "Topic Endpoint total number of messages exceeded the max message size."
        labels_vpn_topic_endpoint
    ∷ unready "total_deleted_messages" "topic_endpoint_msg_total_deleted"
        "Topic Endpoint total number that was deleted." labels_vpn_topic_endpoint
    ∷ unready "messages_shutdown_discarded" "topic_endpoint_msg_shutdown_discarded"
        "Topic Endpoint total number of messages discarded due to spool shutdown."
        labels_vpn_topic_endpoint
    ∷ unready "messages_ttl_discarded" "topic_endpoint_msg_ttl_discarded"
        "Topic Endpoint total number of messages discarded due to ttl expiry."
        labels_vpn_topic_endpoint
    ∷ unready "messages_ttl_dmq" "topic_endpoint_msg_ttl_dmq"
        "Topic Endpoint total number of messages delivered to dmq due to ttl expiry."
        labels_vpn_topic_endpoint
    ∷ unready "messages_ttl_dmq_failed" "topic_endpoint_msg_ttl_dmq_failed"
        "Topic Endpoint total number of messages that failed delivery to dmq due to ttl expiry."
        labels_vpn_topic_endpoint
    ∷ unready "messages_max_redelivered_discarded" "topic_endpoint_msg_max_redelivered_discarded"
        "Topic Endpoint total number of messages discarded due to exceeded max redelivery."
        labels_vpn_topic_endpoint
    ∷ unready "messages_max_redelivered_dmq" "topic_endpoint_msg_max_redelivered_dmq"
        "Topic Endpoint total number of messages delivered to dmq due to exceeded max redelivery."
        labels_vpn_topic_endpoint
    ∷ unready "messages_max_redelivered_dmq_failed" "topic_endpoint_msg_max_redelivered_dmq_failed"
        "Topic Endpoint total number of messages failed delivery to dmq due to exceeded max redelivery."
        labels_vpn_topic_endpoint
    ∷ []

abbrev pub cluster_links : List (String × Desc)
cluster_links =
    unready "enabled" "cluster_link_enabled" "Cluster link is enabled." labels_cluster_link
    ∷ unready "oper_up" "cluster_link_operational" "Cluster link is operational."
        labels_cluster_link
    ∷ unready "oper_uptime" "cluster_link_uptime" "Cluster link uptime in seconds."
        labels_cluster_link
    ∷ []
