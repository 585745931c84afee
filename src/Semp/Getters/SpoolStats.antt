-- ===== src/Semp/Getters/SpoolStats.antt =====
-- The scrapes of the statistics of the message spool: getSpoolStatsSemp1.go of internal/semp.
use solace_prometheus_export.Prelude.{String, List, [], ◌∷◌}
use solace_prometheus_export.Prelude.Result.{Result}
use solace_prometheus_export.Metric.{counter, gauge}
use solace_prometheus_export.Metric.Run.{Run}
use solace_prometheus_export.Semp.{Http, Semp, Target, Status, execute_ok, scrape_once}
use solace_prometheus_export.Semp.Samples.{Sample, sample, send_all}
use solace_prometheus_export.Semp.GoLib.{GoLib}

-- The fields of the reply, the nested structs written flat.
pub record SpoolStats (F : Type 0) : Type 0 where
  pub vpn_name : String
  pub discard_spooling_not_ready : F
  pub discard_ooo : F
  pub discard_duplicate : F
  pub discard_nodest : F
  pub discard_spool_over_quota : F
  pub discard_qendpt_over_quota : F
  pub discard_replay_log_over_quota : F
  pub discard_max_msg_usage_exceeded : F
  pub discard_max_msg_size_exceeded : F
  pub discard_remote_router_spooling_not_supported : F
  pub discard_spool_to_adb_fail : F
  pub discard_spool_to_disk_fail : F
  pub discard_spool_file_limit_exceeded : F
  pub discard_errored_message : F
  pub discard_queue_not_found : F
  pub spool_shutdown_discard : F
  pub user_profile_deny_guaranteed : F
  pub discard_publisher_not_found : F
  pub no_local_delivery_discard : F
  pub smf_ttl_exceeded : F
  pub publish_acl_denied : F
  pub destination_group_error : F
  pub not_compatible_with_forwarding_mode : F
  pub low_priority_msg_congestion_discard : F
  pub replication_is_standby_discard : F
  pub sync_replication_ineligible_discard : F
  pub xa_transaction_not_supported : F
  pub discard_other : F
  pub total_deleted_messages : F
  pub total_ttl_expired_discard_messages : F
  pub total_ttl_expired_to_dmq_messages : F
  pub total_ttl_expired_to_dmq_failures : F
  pub max_redelivery_exceeded_discard_messages : F
  pub max_redelivery_exceeded_to_dmq_messages : F
  pub max_redelivery_exceeded_to_dmq_failures : F
  pub total_ttl_exceeded_discard_messages : F
  pub ingress_messages : F
  pub ingress_messages_promoted : F
  pub ingress_messages_demoted : F
  pub promoted_messages_replicated : F
  pub ingress_messages_async_replicated : F
  pub ingress_messages_sync_replicated : F
  pub ingress_messages_from_replication_mate : F
  pub ingress_messages_copied_to_replay_log : F
  pub sequenced_topic_matches : F
  pub seq_num_already_assigned : F
  pub seq_num_rollover : F
  pub seq_num_messages_discarded : F
  pub transacted_messages_not_sequenced : F
  pub total_discarded_messages : F
  pub spooled_to_adb : F
  pub spooled_to_disk : F
  pub retrieve_from_adb : F
  pub retrieve_from_disk : F
  pub total_guaranteed_message_cache_misses : F
  pub total_ingress_selector_match_messages : F
  pub total_ingress_selector_mismatch_messages : F
  pub total_egress_selector_match_messages : F
  pub total_egress_selector_mismatch_messages : F
  pub total_discarded_egress_messages : F
  pub egress_messages : F
  pub egress_messages_redelivered : F
  pub egress_messages_transport_retransmit : F
  pub confirmed_delivered : F
  pub confirmed_delivered_store_and_forward : F
  pub confirmed_delivered_cut_through : F
  pub confirmed_delivered_from_replication_mate : F
  pub request_for_redelivery : F
  pub open_session : F
  pub open_session_success : F
  pub open_session_max_sessions_exceeded : F
  pub open_session_other_failures : F
  pub transactions : F
  pub transactions_success : F
  pub transactions_commit : F
  pub transactions_rollback : F
  pub transactions_fail : F
  pub transactions_msgs_spooled_to_adb : F
  pub transactions_msgs_retrieved_from_adb_or_disk : F
  pub transactions_msgs_published : F
  pub transactions_msgs_consumed : F
  pub max_transactions_exceeded : F
  pub max_transaction_resources_exceeded : F
  pub xa_open_session : F
  pub xa_open_session_success : F
  pub xa_open_session_max_sessions_exceeded : F
  pub xa_open_session_other_failures : F
  pub xa_transactions : F
  pub xa_transactions_success : F
  pub xa_transactions_fail : F
  pub xa_transactions_msgs_spooled_to_adb : F
  pub xa_transactions_msgs_retrieved_from_adb_or_disk : F
  pub xa_transactions_msgs_published : F
  pub xa_transactions_msgs_consumed : F
  pub xa_max_transactions_exceeded : F
  pub xa_max_transaction_resources_exceeded : F
  pub replays_initiated : F
  pub replays_succeeded : F
  pub replays_failed : F
  pub replayed_messages_sent : F
  pub replayed_messages_acked : F
  pub current_bind_rate_per_second : F
  pub average_bind_rate_per_minute : F

module _ {F : Type 0} (lib : GoLib F) where
  unfoldable pub get_spool_stats_semp1_samples : SpoolStats F → List (Sample F)
  get_spool_stats_semp1_samples reply =
      sample "SpoolStats" "system_spool_stats_discard_spooling_not_ready" counter
        reply.discard_spooling_not_ready []
      ∷ sample "SpoolStats" "system_spool_stats_discard_out_of_order" counter reply.discard_ooo []
      ∷ sample "SpoolStats" "system_spool_stats_discard_duplicate" counter reply.discard_duplicate
          []
      ∷ sample "SpoolStats" "system_spool_stats_discard_no_destination" counter reply.discard_nodest
          []
      ∷ sample "SpoolStats" "system_spool_stats_discard_spool_over_quota" counter
          reply.discard_spool_over_quota []
      ∷ sample "SpoolStats" "system_spool_stats_discard_queue_endpoint_over_quota" counter
          reply.discard_qendpt_over_quota []
      ∷ sample "SpoolStats" "system_spool_stats_discard_replay_log_over_quota" counter
          reply.discard_replay_log_over_quota []
      ∷ sample "SpoolStats" "system_spool_stats_discard_max_msg_usage_exceeded" counter
          reply.discard_max_msg_usage_exceeded []
      ∷ sample "SpoolStats" "system_spool_stats_discard_max_msg_size_exceeded" counter
          reply.discard_max_msg_size_exceeded []
      ∷ sample "SpoolStats" "system_spool_stats_discard_remote_router_spooling_not_supported"
          counter reply.discard_remote_router_spooling_not_supported []
      ∷ sample "SpoolStats" "system_spool_stats_discard_spool_to_adb_fail" counter
          reply.discard_spool_to_adb_fail []
      ∷ sample "SpoolStats" "system_spool_stats_discard_spool_to_disk_fail" counter
          reply.discard_spool_to_disk_fail []
      ∷ sample "SpoolStats" "system_spool_stats_discard_spool_file_limit_exceeded" counter
          reply.discard_spool_file_limit_exceeded []
      ∷ sample "SpoolStats" "system_spool_stats_discard_errored_message" counter
          reply.discard_errored_message []
      ∷ sample "SpoolStats" "system_spool_stats_discard_queue_not_found" counter
          reply.discard_queue_not_found []
      ∷ sample "SpoolStats" "system_spool_stats_spool_shutdown_discard" counter
          reply.spool_shutdown_discard []
      ∷ sample "SpoolStats" "system_spool_stats_user_profile_deny_guaranteed" counter
          reply.user_profile_deny_guaranteed []
      ∷ sample "SpoolStats" "system_spool_stats_discard_publisher_not_found" counter
          reply.discard_publisher_not_found []
      ∷ sample "SpoolStats" "system_spool_stats_no_local_delivery_discard" counter
          reply.no_local_delivery_discard []
      ∷ sample "SpoolStats" "system_spool_stats_smf_ttl_exceeded" counter reply.smf_ttl_exceeded []
      ∷ sample "SpoolStats" "system_spool_stats_publish_acl_denied" counter reply.publish_acl_denied
          []
      ∷ sample "SpoolStats" "system_spool_stats_destination_group_error" counter
          reply.destination_group_error []
      ∷ sample "SpoolStats" "system_spool_stats_not_compatible_with_forwarding_mode" counter
          reply.not_compatible_with_forwarding_mode []
      ∷ sample "SpoolStats" "system_spool_stats_low_priority_msg_congestion_discard" counter
          reply.low_priority_msg_congestion_discard []
      ∷ sample "SpoolStats" "system_spool_stats_replication_is_standby_discard" counter
          reply.replication_is_standby_discard []
      ∷ sample "SpoolStats" "system_spool_stats_sync_replication_ineligible_discard" counter
          reply.sync_replication_ineligible_discard []
      ∷ sample "SpoolStats" "system_spool_stats_xa_transaction_not_supported" counter
          reply.xa_transaction_not_supported []
      ∷ sample "SpoolStats" "system_spool_stats_discard_other" counter reply.discard_other []
      ∷ sample "SpoolStats" "system_spool_stats_total_discarded_messages" counter
          reply.total_discarded_messages []
      ∷ sample "SpoolStats" "system_spool_stats_total_deleted_messages" counter
          reply.total_deleted_messages []
      ∷ sample "SpoolStats" "system_spool_stats_total_ttl_expired_discard_messages" counter
          reply.total_ttl_expired_discard_messages []
      ∷ sample "SpoolStats" "system_spool_stats_total_ttl_expired_to_dmq_messages" counter
          reply.total_ttl_expired_to_dmq_messages []
      ∷ sample "SpoolStats" "system_spool_stats_total_ttl_expired_to_dmq_failures" counter
          reply.total_ttl_expired_to_dmq_failures []
      ∷ sample "SpoolStats" "system_spool_stats_max_redelivery_exceeded_discard_messages" counter
          reply.max_redelivery_exceeded_discard_messages []
      ∷ sample "SpoolStats" "system_spool_stats_max_redelivery_exceeded_to_dmq_messages" counter
          reply.max_redelivery_exceeded_to_dmq_messages []
      ∷ sample "SpoolStats" "system_spool_stats_max_redelivery_exceeded_to_dmq_failures" counter
          reply.max_redelivery_exceeded_to_dmq_failures []
      ∷ sample "SpoolStats" "system_spool_stats_total_ttl_exceeded_discard_messages" counter
          reply.total_ttl_exceeded_discard_messages []
      ∷ sample "SpoolStats" "system_spool_stats_ingress_messages" counter reply.ingress_messages []
      ∷ sample "SpoolStats" "system_spool_stats_ingress_messages_promoted" counter
          reply.ingress_messages_promoted []
      ∷ sample "SpoolStats" "system_spool_stats_ingress_messages_demoted" counter
          reply.ingress_messages_demoted []
      ∷ sample "SpoolStats" "system_spool_stats_promoted_messages_replicated" counter
          reply.promoted_messages_replicated []
      ∷ sample "SpoolStats" "system_spool_stats_ingress_messages_async_replicated" counter
          reply.ingress_messages_async_replicated []
      ∷ sample "SpoolStats" "system_spool_stats_ingress_messages_sync_replicated" counter
          reply.ingress_messages_sync_replicated []
      ∷ sample "SpoolStats" "system_spool_stats_ingress_messages_from_replication_mate" counter
          reply.ingress_messages_from_replication_mate []
      ∷ sample "SpoolStats" "system_spool_stats_ingress_messages_copied_to_replay_log" counter
          reply.ingress_messages_copied_to_replay_log []
      ∷ sample "SpoolStats" "system_spool_stats_sequenced_topic_matches" counter
          reply.sequenced_topic_matches []
      ∷ sample "SpoolStats" "system_spool_stats_seq_num_already_assigned" counter
          reply.seq_num_already_assigned []
      ∷ sample "SpoolStats" "system_spool_stats_seq_num_rollover" counter reply.seq_num_rollover []
      ∷ sample "SpoolStats" "system_spool_stats_seq_num_messages_discarded" counter
          reply.seq_num_messages_discarded []
      ∷ sample "SpoolStats" "system_spool_stats_transacted_messages_not_sequenced" counter
          reply.transacted_messages_not_sequenced []
      ∷ sample "SpoolStats" "system_spool_stats_spooled_to_adb" counter reply.spooled_to_adb []
      ∷ sample "SpoolStats" "system_spool_stats_spooled_to_disk" counter reply.spooled_to_disk []
      ∷ sample "SpoolStats" "system_spool_stats_retrieve_from_adb" counter reply.retrieve_from_adb
          []
      ∷ sample "SpoolStats" "system_spool_stats_retrieve_from_disk" counter reply.retrieve_from_disk
          []
      ∷ sample "SpoolStats" "system_spool_stats_total_guaranteed_message_cache_misses" counter
          reply.total_guaranteed_message_cache_misses []
      ∷ sample "SpoolStats" "system_spool_stats_total_ingress_selector_match_messages" counter
          reply.total_ingress_selector_match_messages []
      ∷ sample "SpoolStats" "system_spool_stats_total_ingress_selector_mismatch_messages" counter
          reply.total_ingress_selector_mismatch_messages []
      ∷ sample "SpoolStats" "system_spool_stats_total_egress_selector_match_messages" counter
          reply.total_egress_selector_match_messages []
      ∷ sample "SpoolStats" "system_spool_stats_total_egress_selector_mismatch_messages" counter
          reply.total_egress_selector_mismatch_messages []
      ∷ sample "SpoolStats" "system_spool_stats_total_discarded_egress_messages" counter
          reply.total_discarded_egress_messages []
      ∷ sample "SpoolStats" "system_spool_stats_egress_messages" counter reply.egress_messages []
      ∷ sample "SpoolStats" "system_spool_stats_egress_messages_redelivered" counter
          reply.egress_messages_redelivered []
      ∷ sample "SpoolStats" "system_spool_stats_egress_messages_transport_retransmit" counter
          reply.egress_messages_transport_retransmit []
      ∷ sample "SpoolStats" "system_spool_stats_confirmed_delivered" counter
          reply.confirmed_delivered []
      ∷ sample "SpoolStats" "system_spool_stats_confirmed_delivered_store_and_forward" counter
          reply.confirmed_delivered_store_and_forward []
      ∷ sample "SpoolStats" "system_spool_stats_confirmed_delivered_cut_through" counter
          reply.confirmed_delivered_cut_through []
      ∷ sample "SpoolStats" "system_spool_stats_confirmed_delivered_from_replication_mate" counter
          reply.confirmed_delivered_from_replication_mate []
      ∷ sample "SpoolStats" "system_spool_stats_request_for_redelivery" counter
          reply.request_for_redelivery []
      ∷ sample "SpoolStats" "system_spool_stats_open_session" counter reply.open_session []
      ∷ sample "SpoolStats" "system_spool_stats_open_session_success" counter
          reply.open_session_success []
      ∷ sample "SpoolStats" "system_spool_stats_open_session_max_sessions_exceeded" counter
          reply.open_session_max_sessions_exceeded []
      ∷ sample "SpoolStats" "system_spool_stats_open_session_other_failures" counter
          reply.open_session_other_failures []
      ∷ sample "SpoolStats" "system_spool_stats_transactions" counter reply.transactions []
      ∷ sample "SpoolStats" "system_spool_stats_transactions_success" counter
          reply.transactions_success []
      ∷ sample "SpoolStats" "system_spool_stats_transactions_commit" counter
          reply.transactions_commit []
      ∷ sample "SpoolStats" "system_spool_stats_transactions_rollback" counter
          reply.transactions_rollback []
      ∷ sample "SpoolStats" "system_spool_stats_transactions_fail" counter reply.transactions_fail
          []
      ∷ sample "SpoolStats" "system_spool_stats_transactions_msgs_spooled_to_adb" counter
          reply.transactions_msgs_spooled_to_adb []
      ∷ sample "SpoolStats" "system_spool_stats_transactions_msgs_retrieved_from_adb_or_disk"
          counter reply.transactions_msgs_retrieved_from_adb_or_disk []
      ∷ sample "SpoolStats" "system_spool_stats_transactions_msgs_published" counter
          reply.transactions_msgs_published []
      ∷ sample "SpoolStats" "system_spool_stats_transactions_msgs_consumed" counter
          reply.transactions_msgs_consumed []
      ∷ sample "SpoolStats" "system_spool_stats_max_transactions_exceeded" counter
          reply.max_transactions_exceeded []
      ∷ sample "SpoolStats" "system_spool_stats_max_transaction_resources_exceeded" counter
          reply.max_transaction_resources_exceeded []
      ∷ sample "SpoolStats" "system_spool_stats_xa_open_session" counter reply.xa_open_session []
      ∷ sample "SpoolStats" "system_spool_stats_xa_open_session_success" counter
          reply.xa_open_session_success []
      ∷ sample "SpoolStats" "system_spool_stats_xa_open_session_max_sessions_exceeded" counter
          reply.xa_open_session_max_sessions_exceeded []
      ∷ sample "SpoolStats" "system_spool_stats_xa_open_session_other_failures" counter
          reply.xa_open_session_other_failures []
      ∷ sample "SpoolStats" "system_spool_stats_xa_transactions" counter reply.xa_transactions []
      ∷ sample "SpoolStats" "system_spool_stats_xa_transactions_success" counter
          reply.xa_transactions_success []
      ∷ sample "SpoolStats" "system_spool_stats_xa_transactions_fail" counter
          reply.xa_transactions_fail []
      ∷ sample "SpoolStats" "system_spool_stats_xa_transactions_msgs_spooled_to_adb" counter
          reply.xa_transactions_msgs_spooled_to_adb []
      ∷ sample "SpoolStats" "system_spool_stats_xa_transactions_msgs_retrieved_from_adb_or_disk"
          counter reply.xa_transactions_msgs_retrieved_from_adb_or_disk []
      ∷ sample "SpoolStats" "system_spool_stats_xa_transactions_msgs_published" counter
          reply.xa_transactions_msgs_published []
      ∷ sample "SpoolStats" "system_spool_stats_xa_transactions_msgs_consumed" counter
          reply.xa_transactions_msgs_consumed []
      ∷ sample "SpoolStats" "system_spool_stats_xa_max_transactions_exceeded" counter
          reply.xa_max_transactions_exceeded []
      ∷ sample "SpoolStats" "system_spool_stats_xa_max_transaction_resources_exceeded" counter
          reply.xa_max_transaction_resources_exceeded []
      ∷ sample "SpoolStats" "system_spool_stats_replays_initiated" counter reply.replays_initiated
          []
      ∷ sample "SpoolStats" "system_spool_stats_replays_succeeded" counter reply.replays_succeeded
          []
      ∷ sample "SpoolStats" "system_spool_stats_replays_failed" counter reply.replays_failed []
      ∷ sample "SpoolStats" "system_spool_stats_replayed_messages_sent" counter
          reply.replayed_messages_sent []
      ∷ sample "SpoolStats" "system_spool_stats_replayed_messages_acked" counter
          reply.replayed_messages_acked []
      ∷ sample "SpoolStats" "system_spool_stats_current_bind_rate_per_second" gauge
          reply.current_bind_rate_per_second []
      ∷ sample "SpoolStats" "system_spool_stats_average_bind_rate_per_minute" gauge
          reply.average_bind_rate_per_minute []
      ∷ []

  unfoldable pub get_spool_stats_semp1 :
      {Body : Type 0} (http : Http Body) (decode : Body → Result String (Target (SpoolStats F)))
      (semp : Semp)
      → Run F Status
  get_spool_stats_semp1 http decode semp =
      scrape_once http decode execute_ok semp
        ("<rpc><show><message-spool><stats/></message-spool></show></rpc>")
        (λ reply. send_all (get_spool_stats_semp1_samples reply))
