-- ===== src/Metric/Table/SpoolStatsRest.antt =====
-- The descriptors of internal/semp/metricDesc.go: SpoolStats, the second half.
use solace_prometheus_export.Prelude.{String, List, [], ◌∷◌}
use solace_prometheus_export.Metric.{Desc, unready}
use solace_prometheus_export.Metric.Table.Labels.{no_labels}

abbrev pub spool_stats_rest : List (String × Desc)
spool_stats_rest =
    unready "system_spool_stats_retrieve_from_adb" "system_spool_stats_retrieve_from_adb"
      "Messages retrieved from ADB." no_labels
    ∷ unready "system_spool_stats_retrieve_from_disk" "system_spool_stats_retrieve_from_disk"
        "Messages retrieved from disk." no_labels
    ∷ unready "system_spool_stats_total_guaranteed_message_cache_misses"
        "system_spool_stats_total_guaranteed_message_cache_misses"
        "Total guaranteed message cache misses." no_labels
    ∷ unready "system_spool_stats_total_ingress_selector_match_messages"
        "system_spool_stats_total_ingress_selector_match_messages"
        "Total ingress selector match messages." no_labels
    ∷ unready "system_spool_stats_total_ingress_selector_mismatch_messages"
        "system_spool_stats_total_ingress_selector_mismatch_messages"
        "Total ingress selector mismatch messages." no_labels
    ∷ unready "system_spool_stats_total_egress_selector_match_messages"
        "system_spool_stats_total_egress_selector_match_messages"
        "Total egress selector match messages." no_labels
    ∷ unready "system_spool_stats_total_egress_selector_mismatch_messages"
        "system_spool_stats_total_egress_selector_mismatch_messages"
        "Total egress selector mismatch messages." no_labels
    ∷ unready "system_spool_stats_total_discarded_egress_messages"
        "system_spool_stats_total_discarded_egress_messages" "Total discarded egress messages."
        no_labels
    ∷ unready "system_spool_stats_egress_messages" "system_spool_stats_egress_messages"
        "Total egress messages." no_labels
    ∷ unready "system_spool_stats_egress_messages_redelivered"
        "system_spool_stats_egress_messages_redelivered" "Egress messages redelivered." no_labels
    ∷ unready "system_spool_stats_egress_messages_transport_retransmit"
        "system_spool_stats_egress_messages_transport_retransmit"
        "Egress messages transport retransmit." no_labels
    ∷ unready "system_spool_stats_confirmed_delivered" "system_spool_stats_confirmed_delivered"
        "Confirmed delivered messages." no_labels
    ∷ unready "system_spool_stats_confirmed_delivered_store_and_forward"
        "system_spool_stats_confirmed_delivered_store_and_forward"
        "Confirmed delivered store and forward messages." no_labels
    ∷ unready "system_spool_stats_confirmed_delivered_cut_through"
        "system_spool_stats_confirmed_delivered_cut_through"
        "Confirmed delivered cut through messages." no_labels
    ∷ unready "system_spool_stats_confirmed_delivered_from_replication_mate"
        "system_spool_stats_confirmed_delivered_from_replication_mate"
        "Confirmed delivered from replication mate." no_labels
    ∷ unready "system_spool_stats_request_for_redelivery"
        "system_spool_stats_request_for_redelivery" "Requests for redelivery." no_labels
    ∷ unready "system_spool_stats_open_session" "system_spool_stats_open_session"
        "Open session requests." no_labels
    ∷ unready "system_spool_stats_open_session_success" "system_spool_stats_open_session_success"
        "Successful open session requests." no_labels
    ∷ unready "system_spool_stats_open_session_max_sessions_exceeded"
        "system_spool_stats_open_session_max_sessions_exceeded"
        "Open session failures due to max sessions exceeded." no_labels
    ∷ unready "system_spool_stats_open_session_other_failures"
        "system_spool_stats_open_session_other_failures" "Open session other failures." no_labels
    ∷ unready "system_spool_stats_transactions" "system_spool_stats_transactions"
        "Total transactions." no_labels
    ∷ unready "system_spool_stats_transactions_success" "system_spool_stats_transactions_success"
        "Successful transactions." no_labels
    ∷ unready "system_spool_stats_transactions_commit" "system_spool_stats_transactions_commit"
        "Transaction commits." no_labels
    ∷ unready "system_spool_stats_transactions_rollback" "system_spool_stats_transactions_rollback"
        "Transaction rollbacks." no_labels
    ∷ unready "system_spool_stats_transactions_fail" "system_spool_stats_transactions_fail"
        "Failed transactions." no_labels
    ∷ unready "system_spool_stats_transactions_msgs_spooled_to_adb"
        "system_spool_stats_transactions_msgs_spooled_to_adb" "Transaction messages spooled to ADB."
        no_labels
    ∷ unready "system_spool_stats_transactions_msgs_retrieved_from_adb_or_disk"
        "system_spool_stats_transactions_msgs_retrieved_from_adb_or_disk"
        "Transaction messages retrieved from ADB or disk." no_labels
    ∷ unready "system_spool_stats_transactions_msgs_published"
        "system_spool_stats_transactions_msgs_published" "Transaction messages published." no_labels
    ∷ unready "system_spool_stats_transactions_msgs_consumed"
        "system_spool_stats_transactions_msgs_consumed" "Transaction messages consumed." no_labels
    ∷ unready "system_spool_stats_max_transactions_exceeded"
        "system_spool_stats_max_transactions_exceeded" "Max transactions exceeded." no_labels
    ∷ unready "system_spool_stats_max_transaction_resources_exceeded"
        "system_spool_stats_max_transaction_resources_exceeded"
        "Max transaction resources exceeded." no_labels
    ∷ unready "system_spool_stats_xa_open_session" "system_spool_stats_xa_open_session"
        "XA open session requests." no_labels
    ∷ unready "system_spool_stats_xa_open_session_success"
        "system_spool_stats_xa_open_session_success" "Successful XA open session requests."
        no_labels
    ∷ unready "system_spool_stats_xa_open_session_max_sessions_exceeded"
        "system_spool_stats_xa_open_session_max_sessions_exceeded"
        "XA open session failures due to max sessions exceeded." no_labels
    ∷ unready "system_spool_stats_xa_open_session_other_failures"
        "system_spool_stats_xa_open_session_other_failures" "XA open session other failures."
        no_labels
    ∷ unready "system_spool_stats_xa_transactions" "system_spool_stats_xa_transactions"
        "Total XA transactions." no_labels
    ∷ unready "system_spool_stats_xa_transactions_success"
        "system_spool_stats_xa_transactions_success" "Successful XA transactions." no_labels
    ∷ unready "system_spool_stats_xa_transactions_fail" "system_spool_stats_xa_transactions_fail"
        "Failed XA transactions." no_labels
    ∷ unready "system_spool_stats_xa_transactions_msgs_spooled_to_adb"
        "system_spool_stats_xa_transactions_msgs_spooled_to_adb"
        "XA transaction messages spooled to ADB." no_labels
    ∷ unready "system_spool_stats_xa_transactions_msgs_retrieved_from_adb_or_disk"
        "system_spool_stats_xa_transactions_msgs_retrieved_from_adb_or_disk"
        "XA transaction messages retrieved from ADB or disk." no_labels
    ∷ unready "system_spool_stats_xa_transactions_msgs_published"
        "system_spool_stats_xa_transactions_msgs_published" "XA transaction messages published."
        no_labels
    ∷ unready "system_spool_stats_xa_transactions_msgs_consumed"
        "system_spool_stats_xa_transactions_msgs_consumed" "XA transaction messages consumed."
        no_labels
    ∷ unready "system_spool_stats_xa_max_transactions_exceeded"
        "system_spool_stats_xa_max_transactions_exceeded" "XA max transactions exceeded." no_labels
    ∷ unready "system_spool_stats_xa_max_transaction_resources_exceeded"
        "system_spool_stats_xa_max_transaction_resources_exceeded"
        "XA max transaction resources exceeded." no_labels
    ∷ unready "system_spool_stats_replays_initiated" "system_spool_stats_replays_initiated"
        "Replays initiated." no_labels
    ∷ unready "system_spool_stats_replays_succeeded" "system_spool_stats_replays_succeeded"
        "Replays succeeded." no_labels
    ∷ unready "system_spool_stats_replays_failed" "system_spool_stats_replays_failed"
        "Replays failed." no_labels
    ∷ unready "system_spool_stats_replayed_messages_sent"
        "system_spool_stats_replayed_messages_sent" "Replayed messages sent." no_labels
    ∷ unready "system_spool_stats_replayed_messages_acked"
        "system_spool_stats_replayed_messages_acked" "Replayed messages acknowledged." no_labels
    ∷ unready "system_spool_stats_current_bind_rate_per_second"
        "system_spool_stats_current_bind_rate_per_second" "Current bind rate per second." no_labels
    ∷ unready "system_spool_stats_average_bind_rate_per_minute"
        "system_spool_stats_average_bind_rate_per_minute" "Average bind rate per minute." no_labels
    ∷ []
