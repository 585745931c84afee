-- ===== src/Tests/Replies.antt =====
-- More data of the tests: the replies of a broker whose spool has no quota, and queues over SEMP v2.
use solace_prometheus_export.Prelude.{ℕ, String, false, [], ◌∷◌}
use solace_prometheus_export.Prelude.Int.{pos}
use solace_prometheus_export.Prelude.Result.{Result, ok, err}
use solace_prometheus_export.Prelude.{none}
use solace_prometheus_export.Semp.{Target}
use solace_prometheus_export.Semp.Getters.Spool.{SpoolReply}
use solace_prometheus_export.Semp.Getters.BridgeClientCert.{CertLib}
use solace_prometheus_export.Semp.V2.{QueueV2, Response}
use solace_prometheus_export.Collector.Broker.{Decoders}
use solace_prometheus_export.Tests.Data.{decode}

abbrev pub v2_queue : String → QueueV2 ℕ
v2_queue name = record {
  queue_name = name;
  msg_vpn_name = "default";
  total_byte_spooled = 0;
  total_msg_spooled = 0;
  msg_redelivered = 0;
  msg_retransmit = 0;
  spool_usage_exceeded = 0;
  msg_size_exceeded = 0;
  spool_shutdown_discard = 0;
  destination_group_error = 0;
  low_prio_msg_discard = 0;
  deleted = 0;
  ttl_discarded = 0;
  ttl_dmq = 0;
  ttl_dmq_failed = 0;
  max_redelivery_discarded = 0;
  max_redelivery_dmq = 0;
  max_redelivery_dmq_failed = 0;
  tx_unacked_msg = 0;
  transaction_not_supported_discarded_msg = 0;
}

abbrev pub v2_decode : String → Result String (Response ℕ)
v2_decode body = ok (record {
  queue = v2_queue "a" ∷ v2_queue "b" ∷ [];
  response_code = pos 200;
  next_page_uri = "";
})

abbrev pub certs : CertLib
certs = record { parse_unix = λ text. none; find_subject_cn = λ text. [] }

abbrev pub decoders : Decoders ℕ ℕ
decoders = record {
  decode_version = λ _. err "EOF";
  decode_health = λ _. err "EOF";
  decode_storage_element = λ _. err "EOF";
  decode_disk = λ _. err "EOF";
  decode_raid = λ _. err "EOF";
  decode_memory = λ _. err "EOF";
  decode_interface = λ _. err "EOF";
  decode_interface_hw = λ _. err "EOF";
  decode_global_stats = λ _. err "EOF";
  decode_global_system_info = λ _. err "EOF";
  decode_spool = λ _. err "EOF";
  decode_spool_stats = λ _. err "EOF";
  decode_redundancy = λ _. err "EOF";
  decode_alarm = λ _. err "EOF";
  decode_environment = λ _. err "EOF";
  decode_hardware = λ _. err "EOF";
  decode_clock_detail = λ _. err "EOF";
  decode_replication_stats = λ _. err "EOF";
  decode_config_sync_router = λ _. err "EOF";
  decode_config_sync = λ _. err "EOF";
  decode_vpn = λ _. err "EOF";
  decode_vpn_replication = λ _. err "EOF";
  decode_config_sync_vpn = λ _. err "EOF";
  decode_bridge = λ _. err "EOF";
  decode_bridge_remote = λ _. err "EOF";
  decode_bridge_detail = λ _. err "EOF";
  decode_bridge_client_cert = λ _. err "EOF";
  decode_vpn_spool = λ _. err "EOF";
  decode_client = λ _. err "EOF";
  decode_client_profile = λ _. err "EOF";
  decode_client_slow_subscriber = λ _. err "EOF";
  decode_client_stats = λ _. err "EOF";
  decode_client_connection_stats = λ _. err "EOF";
  decode_client_message_spool_stats = λ _. err "EOF";
  decode_client_message_spool_egress = λ _. err "EOF";
  decode_cluster_links = λ _. err "EOF";
  decode_vpn_stats = λ _. err "EOF";
  decode_bridge_stats = λ _. err "EOF";
  decode_queue_rates = λ _. err "EOF";
  decode_queue_stats = decode;
  decode_queue_stats_v2 = v2_decode;
  decode_queue_details = λ _. err "EOF";
  decode_topic_endpoint_rates = λ _. err "EOF";
  decode_topic_endpoint_stats = λ _. err "EOF";
  decode_topic_endpoint_details = λ _. err "EOF";
  decode_rest_consumer_stats = λ _. err "EOF";
  decode_rdp_stats = λ _. err "EOF";
  decode_rdp_info = λ _. err "EOF";
  decode_mqtt_session = λ _. err "EOF";
}

-- A reply without `max-message-count`.
abbrev pub spool_target : Target (SpoolReply ℕ)
spool_target = record {
  payload = record {
    config_status = "";
    operational_status = "";
    message_count_util_percentage = "";
    quota_disk_usage = 0;
    quota_msg_count = "";
    persist_usage = 0;
    total_msg_count = 0;
    active_disk_partition_usage = "";
    mate_disk_partition_usage = "";
    spool_files_utilization_percentage = "";
    spool_sync_status = "";
    transacted_session_utilisation = "";
    ingress_flows_quota = 0;
    ingress_flows_count = 0;
    egress_flows_quota = 0;
    egress_flows_active = 0;
    egress_flows_inactive = 0;
    egress_flows_browser = 0;
    entities_by_qendpt_quota = 0;
    entities_by_qendpt_queue = 0;
    entities_by_qendpt_dte = 0;
    transacted_sessions_quota = 0;
    transacted_sessions_used = 0;
    transactions_quota = 0;
    transactions_used = 0;
    current_persistent_store_usage_adb = 0;
    current_disk_usage = 0;
    messages_currently_spooled_adb = 0;
    messages_currently_spooled_disk = 0;
    queue_topic_subscriptions_quota = 0;
    queue_topic_subscriptions_used = 0;
    defrag_schedule_enabled = false;
    defrag_threshold_enabled = false;
    defrag_threshold_frag_percentage = 0;
    defrag_threshold_usage_percentage = 0;
    defrag_estimated_frag_percentage = 0;
    defrag_estimated_recoverable_space = 0;
    disk_info = [];
  };
  more_cookie = "";
  execute_result = record { result = "ok"; reason = "" };
}
