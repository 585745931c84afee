-- ===== src/Semp/Getters/Redundancy.antt =====
-- The scrapes of redundancy and replication: getRedundancySemp1.go, getReplicationStatsSemp1.go of internal/semp.
use solace_prometheus_export.Prelude.{
  String, Bool, List, [], ◌∷◌, not, ◌&&◌, ◌||◌, ◌==◌, if◌then◌else◌,
}
use solace_prometheus_export.Prelude.Int.{pos}
use solace_prometheus_export.Prelude.Result.{Result}
use solace_prometheus_export.Metric.{counter, gauge}
use solace_prometheus_export.Metric.Encode.{encode_metric_bool, encode_metric_multi}
use solace_prometheus_export.Metric.Run.{Run}
use solace_prometheus_export.Semp.{Http, Semp, Target, Status, execute_ok, scrape_once}
use solace_prometheus_export.Semp.Samples.{Sample, sample, send_all}
use solace_prometheus_export.Semp.Blocks.{◌<+>◌, branch}
use solace_prometheus_export.Semp.GoLib.{GoLib}

-- The fields of the reply, the nested structs written flat.
pub record Redundancy (F : Type 0) : Type 0 where
  pub config_status : String
  pub redundancy_status : String
  pub operating_mode : String
  pub redundancy_mode : String
  pub active_standby_role : String
  pub mate_router_name : String
  pub adb_link : Bool
  pub adb_hello : Bool
  pub primary_status_activity : String
  pub backup_status_activity : String

module _ {F : Type 0} (lib : GoLib F) where
  unfoldable pub get_redundancy_semp1_samples : Semp → Redundancy F → List (Sample F)
  get_redundancy_semp1_samples semp reply =
      let labels = reply.mate_router_name ∷ [] in
      sample "Redundancy" "system_redundancy_config" gauge
        (lib.of_ℤ
          (encode_metric_multi reply.config_status ("Disabled" ∷ "Enabled" ∷ "Shutdown" ∷ [])))
        labels
      ∷ sample "Redundancy" "system_redundancy_up" gauge
          (lib.of_ℤ (encode_metric_multi reply.redundancy_status ("Down" ∷ "Up" ∷ []))) labels
      ∷ sample "Redundancy" "system_redundancy_role" gauge
          (lib.of_ℤ (
            encode_metric_multi reply.active_standby_role
              ("Backup" ∷ "Primary" ∷ "Monitor" ∷ "Undefined" ∷ [])))
          labels
      ∷ ((branch semp.is_hw_broker
            (sample "RedundancyHW" "system_redundancy_hw_mode" gauge
                (lib.of_ℤ (
                  encode_metric_multi reply.redundancy_mode
                    ("Active/Active" ∷ "Active/Standby" ∷ [])))
                labels
              ∷ sample "RedundancyHW" "system_redundancy_hw_adb_link" gauge
                  (lib.of_ℤ (encode_metric_bool reply.adb_link)) labels
              ∷ sample "RedundancyHW" "system_redundancy_hw_adb_hello" gauge
                  (lib.of_ℤ (encode_metric_bool reply.adb_hello)) labels
              ∷ [])
            [])
          <+> (sample "Redundancy" "system_redundancy_local_active" gauge
                (if ((reply.active_standby_role == "Primary")
                      && (reply.primary_status_activity == "Local Active"))
                    || ((reply.active_standby_role == "Backup")
                        && (reply.backup_status_activity == "Local Active"))
                  then lib.of_ℤ (pos 1)
                  else lib.of_ℤ (pos 0))
                labels
              ∷ []))

  unfoldable pub get_redundancy_semp1 :
      {Body : Type 0} (http : Http Body) (decode : Body → Result String (Target (Redundancy F)))
      (semp : Semp)
      → Run F Status
  get_redundancy_semp1 http decode semp =
      scrape_once http decode execute_ok semp ("<rpc><show><redundancy/></show></rpc>")
        (λ reply. send_all (get_redundancy_semp1_samples semp reply))

-- The fields of the reply, the nested structs written flat.
pub record ReplicationStats (F : Type 0) : Type 0 where
  pub name : String
  pub admin_state : String
  pub state : String
  pub sync_q2_standby : F
  pub sync_q2_standby_async : F
  pub async_q2_standby : F
  pub promoted_q2_standby : F
  pub pruned_consumed : F
  pub trans2_ineligible : F
  pub tx_msg_to_standby : F
  pub rx_req_from_standby : F
  pub rx_msg_from_active : F
  pub rx_ack_prop_msgs : F
  pub tx_recon_req : F
  pub rx_out_of_seq : F
  pub xa_req : F
  pub xa_req_success : F
  pub xa_req_success_prepare : F
  pub xa_req_success_commit : F
  pub xa_req_success_rollback : F
  pub xa_req_fail : F
  pub xa_req_fail_prepare : F
  pub xa_req_fail_commit : F
  pub xa_req_fail_rollback : F

module _ {F : Type 0} (lib : GoLib F) where
  unfoldable pub get_replication_stats_semp1_samples : ReplicationStats F → List (Sample F)
  get_replication_stats_semp1_samples reply =
      let labels = reply.name ∷ [] in
      branch (not (reply.name == ""))
        (sample "ReplicationStats" "system_replication_bridge_admin_state" gauge
            (lib.of_ℤ (encode_metric_multi reply.admin_state ("Disabled" ∷ "Enabled" ∷ "-" ∷ [])))
            labels
          ∷ sample "ReplicationStats" "system_replication_bridge_state" gauge
              (lib.of_ℤ (encode_metric_multi reply.state ("down" ∷ "up" ∷ "n/a" ∷ []))) labels
          ∷ sample "ReplicationStats" "system_replication_sync_msgs_queued_to_standby" counter
              reply.sync_q2_standby labels
          ∷ sample "ReplicationStats" "system_replication_sync_msgs_queued_to_standby_as_async"
              counter reply.sync_q2_standby_async labels
          ∷ sample "ReplicationStats" "system_replication_async_msgs_queued_to_standby" counter
              reply.async_q2_standby labels
          ∷ sample "ReplicationStats" "system_replication_promoted_msgs_queued_to_standby" counter
              reply.promoted_q2_standby labels
          ∷ sample "ReplicationStats" "system_replication_pruned_locally_consumed_msgs" counter
              reply.pruned_consumed labels
          ∷ sample "ReplicationStats" "system_replication_transitions_to_ineligible" counter
              reply.trans2_ineligible labels
          ∷ sample "ReplicationStats" "system_replication_msgs_tx_to_standby" counter
              reply.tx_msg_to_standby labels
          ∷ sample "ReplicationStats" "system_replication_rec_req_from_standby" counter
              reply.rx_req_from_standby labels
          ∷ sample "ReplicationStats" "system_replication_msgs_rx_from_active" counter
              reply.rx_msg_from_active labels
          ∷ sample "ReplicationStats" "system_replication_ack_prop_msgs_rx" counter
              reply.rx_ack_prop_msgs labels
          ∷ sample "ReplicationStats" "system_replication_recon_req_tx" counter reply.tx_recon_req
              labels
          ∷ sample "ReplicationStats" "system_replication_out_of_seq_rx" counter reply.rx_out_of_seq
              labels
          ∷ sample "ReplicationStats" "system_replication_xa_req" counter reply.xa_req labels
          ∷ sample "ReplicationStats" "system_replication_xa_req_success" counter
              reply.xa_req_success labels
          ∷ sample "ReplicationStats" "system_replication_xa_req_success_prepare" counter
              reply.xa_req_success_prepare labels
          ∷ sample "ReplicationStats" "system_replication_xa_req_success_commit" counter
              reply.xa_req_success_commit labels
          ∷ sample "ReplicationStats" "system_replication_xa_req_success_rollback" counter
              reply.xa_req_success_rollback labels
          ∷ sample "ReplicationStats" "system_replication_xa_req_fail" counter reply.xa_req_fail
              labels
          ∷ sample "ReplicationStats" "system_replication_xa_req_fail_prepare" counter
              reply.xa_req_fail_prepare labels
          ∷ sample "ReplicationStats" "system_replication_xa_req_fail_commit" counter
              reply.xa_req_fail_commit labels
          ∷ sample "ReplicationStats" "system_replication_xa_req_fail_rollback" counter
              reply.xa_req_fail_rollback labels
          ∷ [])
        []

  unfoldable pub get_replication_stats_semp1 :
      {Body : Type 0} (http : Http Body)
      (decode : Body → Result String (Target (ReplicationStats F))) (semp : Semp)
      → Run F Status
  get_replication_stats_semp1 http decode semp =
      scrape_once http decode execute_ok semp
        ("<rpc><show><replication><stats/></replication></show></rpc>")
        (λ reply. send_all (get_replication_stats_semp1_samples reply))
