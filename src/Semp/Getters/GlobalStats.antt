-- ===== src/Semp/Getters/GlobalStats.antt =====
-- The scrapes of the totals of the broker: getGlobalStatsSemp1.go of internal/semp.
use solace_prometheus_export.Prelude.{String, List, [], ◌∷◌}
use solace_prometheus_export.Prelude.Int.{pos}
use solace_prometheus_export.Prelude.Result.{Result}
use solace_prometheus_export.Metric.{counter, gauge}
use solace_prometheus_export.Metric.Run.{Run}
use solace_prometheus_export.Semp.{Http, Semp, Target, Status, execute_ok, scrape_once}
use solace_prometheus_export.Semp.Samples.{Sample, sample, send_all}
use solace_prometheus_export.Semp.GoLib.{GoLib}

-- The fields of the reply, the nested structs written flat.
pub record GlobalSystemInfo (F : Type 0) : Type 0 where
  pub uptime_seconds : F
  pub connections_quota : F
  pub messages_queue_quota : F
  pub cpu_cores : F
  pub system_memory : F

module _ {F : Type 0} (lib : GoLib F) where
  unfoldable pub get_global_system_info_semp1_samples : GlobalSystemInfo F → List (Sample F)
  get_global_system_info_semp1_samples reply =
      sample "GlobalStats" "system_uptime_seconds" counter reply.uptime_seconds []
      ∷ sample "GlobalStats" "system_total_clients_quota" counter reply.connections_quota []
      ∷ sample "GlobalStats" "system_message_spool_quota" gauge
          (lib.mul reply.messages_queue_quota (lib.of_ℤ (pos 1000000))) []
      ∷ sample "GlobalStats" "system_cpu_cores" gauge reply.cpu_cores []
      ∷ sample "GlobalStats" "system_memory_bytes" gauge
          (lib.mul reply.system_memory (lib.of_ℤ (pos 1073741824))) []
      ∷ []

  unfoldable pub get_global_system_info_semp1 :
      {Body : Type 0} (http : Http Body)
      (decode : Body → Result String (Target (GlobalSystemInfo F))) (semp : Semp)
      → Run F Status
  get_global_system_info_semp1 http decode semp =
      scrape_once http decode execute_ok semp ("<rpc><show><system/></show></rpc>")
        (λ reply. send_all (get_global_system_info_semp1_samples reply))

-- The fields of the reply, the nested structs written flat.
pub record GlobalStats (F : Type 0) : Type 0 where
  pub clients_connected : F
  pub data_rx_msg_count : F
  pub data_tx_msg_count : F
  pub data_rx_byte_count : F
  pub data_tx_byte_count : F
  pub rx_msgs_rate : F
  pub tx_msgs_rate : F
  pub rx_bytes_rate : F
  pub tx_bytes_rate : F
  pub discarded_rx_msg_count : F
  pub discarded_tx_msg_count : F

module _ {F : Type 0} (lib : GoLib F) where
  unfoldable pub get_global_stats_semp1_samples : GlobalStats F → List (Sample F)
  get_global_stats_semp1_samples reply =
      sample "GlobalStats" "system_total_clients_connected" gauge reply.clients_connected []
      ∷ sample "GlobalStats" "system_rx_msgs_total" counter reply.data_rx_msg_count []
      ∷ sample "GlobalStats" "system_tx_msgs_total" counter reply.data_tx_msg_count []
      ∷ sample "GlobalStats" "system_rx_bytes_total" counter reply.data_rx_byte_count []
      ∷ sample "GlobalStats" "system_tx_bytes_total" counter reply.data_tx_byte_count []
      ∷ sample "GlobalStats" "system_total_rx_discards" counter reply.discarded_rx_msg_count []
      ∷ sample "GlobalStats" "system_total_tx_discards" counter reply.discarded_tx_msg_count []
      ∷ []

  unfoldable pub get_global_stats_semp1 :
      {Body : Type 0} (http : Http Body) (decode : Body → Result String (Target (GlobalStats F)))
      (semp : Semp)
      → Run F Status
  get_global_stats_semp1 http decode semp =
      scrape_once http decode execute_ok semp ("<rpc><show><stats><client/></stats></show></rpc>")
        (λ reply. send_all (get_global_stats_semp1_samples reply))
