-- ===== src/Semp/Getters/Spool.antt =====
-- The scrapes of the message spool: getSpoolSemp1.go of internal/semp.
use solace_prometheus_export.Prelude.{String, Bool, Option, none, some, List, [], ◌∷◌}
use solace_prometheus_export.Text.{drop_last}
use solace_prometheus_export.Prelude.Int.{pos}
use solace_prometheus_export.Prelude.Result.{Result}
use solace_prometheus_export.Metric.{gauge}
use solace_prometheus_export.Metric.Encode.{encode_metric_bool, encode_metric_multi}
use solace_prometheus_export.Metric.Run.{Run, ◌>>◌, panic}
use solace_prometheus_export.Semp.{Http, Semp, Target, Status, execute_ok, scrape_once}
use solace_prometheus_export.Semp.Samples.{Sample, sample, send_all}
use solace_prometheus_export.Semp.Blocks.{◌<+>◌, with_float, each_samples}
use solace_prometheus_export.Semp.GoLib.{GoLib}

-- The fields of one item, the nested structs written flat.
pub record SpoolDiskInfo (F : Type 0) : Type 0 where
  pub partition : String
  pub partition_blocks : F
  pub partition_used : F
  pub partition_available : F
  pub partition_use_percentage : String
  pub partition_mounted_on : String

-- The fields of the reply, the nested structs written flat.
pub record SpoolReply (F : Type 0) : Type 0 where
  pub config_status : String
  pub operational_status : String
  pub message_count_util_percentage : String
  pub quota_disk_usage : F
  pub quota_msg_count : String
  pub persist_usage : F
  pub total_msg_count : F
  pub active_disk_partition_usage : String
  pub mate_disk_partition_usage : String
  pub spool_files_utilization_percentage : String
  pub spool_sync_status : String
  pub transacted_session_utilisation : String
  pub ingress_flows_quota : F
  pub ingress_flows_count : F
  pub egress_flows_quota : F
  pub egress_flows_active : F
  pub egress_flows_inactive : F
  pub egress_flows_browser : F
  pub entities_by_qendpt_quota : F
  pub entities_by_qendpt_queue : F
  pub entities_by_qendpt_dte : F
  pub transacted_sessions_quota : F
  pub transacted_sessions_used : F
  pub transactions_quota : F
  pub transactions_used : F
  pub current_persistent_store_usage_adb : F
  pub current_disk_usage : F
  pub messages_currently_spooled_adb : F
  pub messages_currently_spooled_disk : F
  pub queue_topic_subscriptions_quota : F
  pub queue_topic_subscriptions_used : F
  pub defrag_schedule_enabled : Bool
  pub defrag_threshold_enabled : Bool
  pub defrag_threshold_frag_percentage : F
  pub defrag_threshold_usage_percentage : F
  pub defrag_estimated_frag_percentage : F
  pub defrag_estimated_recoverable_space : F
  pub disk_info : List (SpoolDiskInfo F)

-- A slice whose bounds are out of range panics.
abbrev pub with_slice :
    {F : Type 0} → Option String → (String → Run F (Unit {0})) → Run F (Unit {0})
with_slice none block = panic
with_slice (some s) block = block s

module _ {F : Type 0} (lib : GoLib F) where
  unfoldable pub get_spool_semp1_disk_info_samples : SpoolDiskInfo F → List (Sample F)
  get_spool_semp1_disk_info_samples disk_info =
      sample "Spool" "system_spool_disk_partition_blocks" gauge disk_info.partition_blocks
        (disk_info.partition ∷ [])
      ∷ sample "Spool" "system_spool_disk_partition_used" gauge disk_info.partition_used
          (disk_info.partition ∷ [])
      ∷ sample "Spool" "system_spool_disk_partition_available" gauge disk_info.partition_available
          (disk_info.partition ∷ [])
      ∷ (with_float (lib.parse_float disk_info.partition_use_percentage) (λ value.
          (sample "Spool" "system_spool_disk_partition_use_percent" gauge (lib.round value)
              (disk_info.partition ∷ [])
            ∷ [])))

  unfoldable pub get_spool_semp1_head : SpoolReply F → List (Sample F)
  get_spool_semp1_head reply =
      sample "Spool" "system_spool_config_status" gauge
        (lib.of_ℤ (
          encode_metric_multi reply.config_status
            ("Disabled" ∷ "Enabled (Primary)" ∷ "Enabled (Backup)" ∷ [])))
        []
      ∷ sample "Spool" "system_spool_operational_status" gauge
          (lib.of_ℤ (
            encode_metric_multi reply.operational_status (
              "AD-Unknown" ∷ "AD-NotReady" ∷ "AD-Disabled" ∷ "AD-Activating" ∷ "AD-Active"
              ∷ "AD-Standby" ∷ [])))
          []
      ∷ sample "Spool" "system_spool_quota_bytes" gauge
          (lib.round (lib.mul reply.quota_disk_usage (lib.of_ℤ (pos 1048576)))) []
      ∷ []

  unfoldable pub get_spool_semp1_tail : String → SpoolReply F → List (Sample F)
  get_spool_semp1_tail quota reply =
      (with_float (lib.parse_float quota) (λ value.
        (sample "Spool" "system_spool_quota_msgs" gauge (lib.mul value (lib.of_ℤ (pos 1000000))) []
          ∷ [])))
      <+> ((with_float (lib.parse_float reply.active_disk_partition_usage) (λ value.
            (sample "Spool" "system_spool_disk_partition_usage_active_percent" gauge
                (lib.round value) []
              ∷ [])))
          <+> ((with_float (lib.parse_float reply.mate_disk_partition_usage) (λ value.
                (sample "Spool" "system_spool_disk_partition_usage_mate_percent" gauge
                    (lib.round value) []
                  ∷ [])))
              <+> ((with_float (lib.parse_float reply.spool_files_utilization_percentage) (λ value.
                    (sample "Spool" "system_spool_files_utilization_percent" gauge (lib.round value)
                        []
                      ∷ [])))
                  <+> ((with_float (lib.parse_float reply.message_count_util_percentage) (λ value.
                        (sample "Spool" "system_spool_message_count_utilization_percent" gauge
                            (lib.round value) []
                          ∷ [])))
                      <+> ((with_float (lib.parse_float reply.transacted_session_utilisation)
                            (λ value.
                              (sample "Spool" "system_spool_transacted_session_utilisation_pct"
                                  gauge (lib.round value) []
                                ∷ [])))
                          <+> (sample "Spool" "system_spool_usage_bytes" gauge
                                (lib.round (lib.mul reply.persist_usage (lib.of_ℤ (pos 1048576))))
                                []
                              ∷ sample "Spool" "system_spool_usage_adb_bytes" gauge
                                  (lib.mul reply.current_persistent_store_usage_adb
                                    (lib.of_ℤ (pos 1048576)))
                                  []
                              ∷ sample "Spool" "system_spool_usage_msgs" gauge reply.total_msg_count
                                  []
                              ∷ sample "Spool" "system_spool_ingress_flows_quota" gauge
                                  reply.ingress_flows_quota []
                              ∷ sample "Spool" "system_spool_ingress_flows_count" gauge
                                  reply.ingress_flows_count []
                              ∷ sample "Spool" "system_spool_egress_flows_quota" gauge
                                  reply.egress_flows_quota []
                              ∷ sample "Spool" "system_spool_egress_flows_count" gauge
                                  (lib.add
                                    (lib.add reply.egress_flows_active reply.egress_flows_inactive)
                                    reply.egress_flows_browser)
                                  []
                              ∷ sample "Spool" "system_spool_egress_flows_active" gauge
                                  reply.egress_flows_active []
                              ∷ sample "Spool" "system_spool_egress_flows_inactive" gauge
                                  reply.egress_flows_inactive []
                              ∷ sample "Spool" "system_spool_egress_flows_browser" gauge
                                  reply.egress_flows_browser []
                              ∷ sample "Spool" "system_spool_endpoints_quota" gauge
                                  reply.entities_by_qendpt_quota []
                              ∷ sample "Spool" "system_spool_endpoints_queue" gauge
                                  reply.entities_by_qendpt_queue []
                              ∷ sample "Spool" "system_spool_endpoints_dte" gauge
                                  reply.entities_by_qendpt_dte []
                              ∷ sample "Spool" "system_spool_transacted_sessions_quota" gauge
                                  reply.transacted_sessions_quota []
                              ∷ sample "Spool" "system_spool_transacted_sessions_used" gauge
                                  reply.transacted_sessions_used []
                              ∷ sample "Spool" "system_spool_queue_topic_subscriptions_quota" gauge
                                  reply.queue_topic_subscriptions_quota []
                              ∷ sample "Spool" "system_spool_queue_topic_subscriptions_used" gauge
                                  reply.queue_topic_subscriptions_used []
                              ∷ sample "Spool" "system_spool_transactions_quota" gauge
                                  reply.transactions_quota []
                              ∷ sample "Spool" "system_spool_transactions_used" gauge
                                  reply.transactions_used []
                              ∷ sample "Spool" "system_spool_messages_currently_spooled_adb" gauge
                                  reply.messages_currently_spooled_adb []
                              ∷ sample "Spool" "system_spool_messages_currently_spooled_disk" gauge
                                  reply.messages_currently_spooled_disk []
                              ∷ sample "Spool" "system_spool_messages_total_disk_usage_bytes" gauge
                                  (lib.round
                                    (lib.mul reply.current_disk_usage (lib.of_ℤ (pos 1048576))))
                                  []
                              ∷ sample "Spool" "system_spool_sync_status" gauge
                                  (lib.of_ℤ
                                    (encode_metric_multi reply.spool_sync_status ("Synced" ∷ [])))
                                  []
                              ∷ sample "Spool" "system_spool_defrag_schedule_enabled" gauge
                                  (lib.of_ℤ (encode_metric_bool reply.defrag_schedule_enabled)) []
                              ∷ sample "Spool" "system_spool_defrag_threshold_enabled" gauge
                                  (lib.of_ℤ (encode_metric_bool reply.defrag_threshold_enabled)) []
                              ∷ sample "Spool" "system_spool_defrag_threshold_frag_percent" gauge
                                  reply.defrag_threshold_frag_percentage []
                              ∷ sample "Spool" "system_spool_defrag_threshold_usage_percent" gauge
                                  reply.defrag_threshold_usage_percentage []
                              ∷ sample "Spool" "system_spool_defrag_estimated_frag_percent" gauge
                                  reply.defrag_estimated_frag_percentage []
                              ∷ sample "Spool" "system_spool_defrag_estimated_recoverable_space"
                                  gauge reply.defrag_estimated_recoverable_space []
                              ∷ (each_samples get_spool_semp1_disk_info_samples
                                  reply.disk_info)))))))

  unfoldable pub get_spool_semp1 :
      {Body : Type 0} (http : Http Body) (decode : Body → Result String (Target (SpoolReply F)))
      (semp : Semp)
      → Run F Status
  get_spool_semp1 http decode semp =
      scrape_once http decode execute_ok semp
        ("<rpc><show><message-spool><detail/></message-spool></show ></rpc>")
        (λ reply.
          send_all (get_spool_semp1_head reply)
          >> with_slice (drop_last reply.quota_msg_count)
              (λ quota. send_all (get_spool_semp1_tail quota reply)))
