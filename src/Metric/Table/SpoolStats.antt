-- ===== src/Metric/Table/SpoolStats.antt =====
-- The descriptors of internal/semp/metricDesc.go: SpoolStats, the first half.
use solace_prometheus_export.Prelude.{String, List, [], ◌∷◌}
use solace_prometheus_export.Metric.{Desc, unready}
use solace_prometheus_export.Metric.Table.Labels.{no_labels}

abbrev pub spool_stats_first : List (String × Desc)
spool_stats_first =
    unready "system_spool_stats_discard_spooling_not_ready"
      "system_spool_stats_discard_spooling_not_ready"
      "Messages discarded because spooling not ready." no_labels
    ∷ unready "system_spool_stats_discard_out_of_order" "system_spool_stats_discard_out_of_order"
        "Messages discarded due to out of order." no_labels
    ∷ unready "system_spool_stats_discard_duplicate" "system_spool_stats_discard_duplicate"
        "Duplicate messages discarded." no_labels
    ∷ unready "system_spool_stats_discard_no_destination"
        "system_spool_stats_discard_no_destination" "Messages discarded with no destination."
        no_labels
    ∷ unready "system_spool_stats_discard_spool_over_quota"
        "system_spool_stats_discard_spool_over_quota" "Messages discarded due to spool over quota."
        no_labels
    ∷ unready "system_spool_stats_discard_queue_endpoint_over_quota"
        "system_spool_stats_discard_queue_endpoint_over_quota"
        "Messages discarded due to queue endpoint over quota." no_labels
    ∷ unready "system_spool_stats_discard_replay_log_over_quota"
        "system_spool_stats_discard_replay_log_over_quota"
        "Messages discarded due to replay log over quota." no_labels
    ∷ unready "system_spool_stats_discard_max_msg_usage_exceeded"
        "system_spool_stats_discard_max_msg_usage_exceeded"
        "Messages discarded due to max message usage exceeded." no_labels
    ∷ unready "system_spool_stats_discard_max_msg_size_exceeded"
        "system_spool_stats_discard_max_msg_size_exceeded"
        "Messages discarded due to max message size exceeded." no_labels
    ∷ unready "system_spool_stats_discard_remote_router_spooling_not_supported"
        "system_spool_stats_discard_remote_router_spooling_not_supported"
        "Messages discarded due to remote router spooling not supported." no_labels
    ∷ unready "system_spool_stats_discard_spool_to_adb_fail"
        "system_spool_stats_discard_spool_to_adb_fail"
        "Messages discarded due to spool to ADB failure." no_labels
    ∷ unready "system_spool_stats_discard_spool_to_disk_fail"
        "system_spool_stats_discard_spool_to_disk_fail"
        "Messages discarded due to spool to disk failure." no_labels
    ∷ unready "system_spool_stats_discard_spool_file_limit_exceeded"
        "system_spool_stats_discard_spool_file_limit_exceeded"
        "Messages discarded due to spool file limit exceeded." no_labels
    ∷ unready "system_spool_stats_discard_errored_message"
        "system_spool_stats_discard_errored_message" "Errored messages discarded." no_labels
    ∷ unready "system_spool_stats_discard_queue_not_found"
        "system_spool_stats_discard_queue_not_found" "Messages discarded due to queue not found."
        no_labels
    ∷ unready "system_spool_stats_spool_shutdown_discard"
        "system_spool_stats_spool_shutdown_discard" "Messages discarded due to spool shutdown."
        no_labels
    ∷ unready "system_spool_stats_user_profile_deny_guaranteed"
        "system_spool_stats_user_profile_deny_guaranteed"
        "Messages discarded due to user profile denying guaranteed." no_labels
    ∷ unready "system_spool_stats_discard_publisher_not_found"
        "system_spool_stats_discard_publisher_not_found"
        "Messages discarded due to publisher not found." no_labels
    ∷ unready "system_spool_stats_no_local_delivery_discard"
        "system_spool_stats_no_local_delivery_discard"
        "Messages discarded due to no local delivery." no_labels
    ∷ unready "system_spool_stats_smf_ttl_exceeded" "system_spool_stats_smf_ttl_exceeded"
        "Messages discarded due to SMF TTL exceeded." no_labels
    ∷ unready "system_spool_stats_publish_acl_denied" "system_spool_stats_publish_acl_denied"
        "Messages discarded due to publish ACL denied." no_labels
    ∷ unready "system_spool_stats_destination_group_error"
        "system_spool_stats_destination_group_error"
        "Messages discarded due to destination group error." no_labels
    ∷ unready "system_spool_stats_not_compatible_with_forwarding_mode"
        "system_spool_stats_not_compatible_with_forwarding_mode"
        "Messages discarded due to incompatibility with forwarding mode." no_labels
    ∷ unready "system_spool_stats_low_priority_msg_congestion_discard"
        "system_spool_stats_low_priority_msg_congestion_discard"
        "Low priority messages discarded due to congestion." no_labels
    ∷ unready "system_spool_stats_replication_is_standby_discard"
        "system_spool_stats_replication_is_standby_discard"
        "Messages discarded because replication is standby." no_labels
    ∷ unready "system_spool_stats_sync_replication_ineligible_discard"
        "system_spool_stats_sync_replication_ineligible_discard"
        "Messages discarded due to sync replication ineligibility." no_labels
    ∷ unready "system_spool_stats_xa_transaction_not_supported"
        "system_spool_stats_xa_transaction_not_supported"
        "Messages discarded due to XA transaction not supported." no_labels
    ∷ unready "system_spool_stats_discard_other" "system_spool_stats_discard_other"
        "Messages discarded due to other reasons." no_labels
    ∷ unready "system_spool_stats_total_discarded_messages"
        "system_spool_stats_total_discarded_messages" "Total messages discarded." no_labels
    ∷ unready "system_spool_stats_total_deleted_messages"
        "system_spool_stats_total_deleted_messages" "Total messages deleted." no_labels
    ∷ unready "system_spool_stats_total_ttl_expired_discard_messages"
        "system_spool_stats_total_ttl_expired_discard_messages"
        "Total messages discarded due to TTL expiry." no_labels
    ∷ unready "system_spool_stats_total_ttl_expired_to_dmq_messages"
        "system_spool_stats_total_ttl_expired_to_dmq_messages"
        "Total messages sent to DMQ due to TTL expiry." no_labels
    ∷ unready "system_spool_stats_total_ttl_expired_to_dmq_failures"
        "system_spool_stats_total_ttl_expired_to_dmq_failures"
        "Total failures sending to DMQ due to TTL expiry." no_labels
    ∷ unready "system_spool_stats_max_redelivery_exceeded_discard_messages"
        "system_spool_stats_max_redelivery_exceeded_discard_messages"
        "Messages discarded due to max redelivery exceeded." no_labels
    ∷ unready "system_spool_stats_max_redelivery_exceeded_to_dmq_messages"
        "system_spool_stats_max_redelivery_exceeded_to_dmq_messages"
        "Messages sent to DMQ due to max redelivery exceeded." no_labels
    ∷ unready "system_spool_stats_max_redelivery_exceeded_to_dmq_failures"
        "system_spool_stats_max_redelivery_exceeded_to_dmq_failures"
        "Failures sending to DMQ due to max redelivery exceeded." no_labels
    ∷ unready "system_spool_stats_total_ttl_exceeded_discard_messages"
        "system_spool_stats_total_ttl_exceeded_discard_messages"
        "Total messages discarded due to TTL exceeded." no_labels
    ∷ unready "system_spool_stats_ingress_messages" "system_spool_stats_ingress_messages"
        "Total ingress messages." no_labels
    ∷ unready "system_spool_stats_ingress_messages_promoted"
        "system_spool_stats_ingress_messages_promoted"
        "Ingress messages promoted. Message sent as non-persistent but received as persistent."
        no_labels
    ∷ unready "system_spool_stats_ingress_messages_demoted"
        "system_spool_stats_ingress_messages_demoted"
        "Ingress messages demoted. Message sent as persistent but received as non-persistent."
        no_labels
    ∷ unready "system_spool_stats_promoted_messages_replicated"
        "system_spool_stats_promoted_messages_replicated" "Promoted messages replicated." no_labels
    ∷ unready "system_spool_stats_ingress_messages_async_replicated"
        "system_spool_stats_ingress_messages_async_replicated" "Ingress messages async replicated."
        no_labels
    ∷ unready "system_spool_stats_ingress_messages_sync_replicated"
        "system_spool_stats_ingress_messages_sync_replicated" "Ingress messages sync replicated."
        no_labels
    ∷ unready "system_spool_stats_ingress_messages_from_replication_mate"
        "system_spool_stats_ingress_messages_from_replication_mate"
        "Ingress messages from replication mate." no_labels
    ∷ unready "system_spool_stats_ingress_messages_copied_to_replay_log"
        "system_spool_stats_ingress_messages_copied_to_replay_log"
        "Ingress messages copied to replay log." no_labels
    ∷ unready "system_spool_stats_sequenced_topic_matches"
        "system_spool_stats_sequenced_topic_matches" "Sequenced topic matches." no_labels
    ∷ unready "system_spool_stats_seq_num_already_assigned"
        "system_spool_stats_seq_num_already_assigned" "Sequence number already assigned." no_labels
    ∷ unready "system_spool_stats_seq_num_rollover" "system_spool_stats_seq_num_rollover"
        "Sequence number rollovers." no_labels
    ∷ unready "system_spool_stats_seq_num_messages_discarded"
        "system_spool_stats_seq_num_messages_discarded" "Sequence number messages discarded."
        no_labels
    ∷ unready "system_spool_stats_transacted_messages_not_sequenced"
        "system_spool_stats_transacted_messages_not_sequenced" "Transacted messages not sequenced."
        no_labels
    ∷ unready "system_spool_stats_spooled_to_adb" "system_spool_stats_spooled_to_adb"
        "Messages spooled to ADB." no_labels
    ∷ unready "system_spool_stats_spooled_to_disk" "system_spool_stats_spooled_to_disk"
        "Messages spooled to disk." no_labels
    ∷ []
