-- ===== src/Semp/Getters/System.antt =====
-- The scrapes of the state of the broker: getHealthSemp1.go, getInterfaceSemp1.go, getConfigSyncSemp1.go, getConfigSyncRouterSemp1.go, getRaidSemp1.go of internal/semp.
use solace_prometheus_export.Prelude.{String, Bool, List, [], ◌∷◌}
use Prim.Native.String.{◌++◌ as ◌<>◌}
use solace_prometheus_export.Prelude.Int.{pos}
use solace_prometheus_export.Prelude.Result.{Result}
use solace_prometheus_export.Metric.{counter, gauge}
use solace_prometheus_export.Metric.Encode.{encode_metric_bool, encode_metric_multi}
use solace_prometheus_export.Metric.Run.{Run, ◌>>◌}
use solace_prometheus_export.Semp.{Http, Semp, Target, Status, execute_ok, scrape_once}
use solace_prometheus_export.Semp.Samples.{Sample, sample, send_all}
use solace_prometheus_export.Semp.Distinct.{each}
use solace_prometheus_export.Semp.GoLib.{GoLib}

-- The fields of the reply, the nested structs written flat.
pub record Health (F : Type 0) : Type 0 where
  pub disk_latency_minimum_value : F
  pub disk_latency_maximum_value : F
  pub disk_latency_average_value : F
  pub disk_latency_current_value : F
  pub compute_latency_minimum_value : F
  pub compute_latency_maximum_value : F
  pub compute_latency_average_value : F
  pub compute_latency_current_value : F
  pub mate_link_latency_minimum_value : F
  pub mate_link_latency_maximum_value : F
  pub mate_link_latency_average_value : F
  pub mate_link_latency_current_value : F

module _ {F : Type 0} (lib : GoLib F) where
  unfoldable pub get_health_semp1_samples : Health F → List (Sample F)
  get_health_semp1_samples reply =
      sample "Health" "system_disk_latency_min_seconds" gauge
        (lib.div reply.disk_latency_minimum_value (lib.of_ℤ (pos 1000000))) []
      ∷ sample "Health" "system_disk_latency_max_seconds" gauge
          (lib.div reply.disk_latency_maximum_value (lib.of_ℤ (pos 1000000))) []
      ∷ sample "Health" "system_disk_latency_avg_seconds" gauge
          (lib.div reply.disk_latency_average_value (lib.of_ℤ (pos 1000000))) []
      ∷ sample "Health" "system_disk_latency_cur_seconds" gauge
          (lib.div reply.disk_latency_current_value (lib.of_ℤ (pos 1000000))) []
      ∷ sample "Health" "system_compute_latency_min_seconds" gauge
          (lib.div reply.compute_latency_minimum_value (lib.of_ℤ (pos 1000000))) []
      ∷ sample "Health" "system_compute_latency_max_seconds" gauge
          (lib.div reply.compute_latency_maximum_value (lib.of_ℤ (pos 1000000))) []
      ∷ sample "Health" "system_compute_latency_avg_seconds" gauge
          (lib.div reply.compute_latency_average_value (lib.of_ℤ (pos 1000000))) []
      ∷ sample "Health" "system_compute_latency_cur_seconds" gauge
          (lib.div reply.compute_latency_current_value (lib.of_ℤ (pos 1000000))) []
      ∷ sample "Health" "system_mate_link_latency_min_seconds" gauge
          (lib.div reply.mate_link_latency_minimum_value (lib.of_ℤ (pos 1000000))) []
      ∷ sample "Health" "system_mate_link_latency_max_seconds" gauge
          (lib.div reply.mate_link_latency_maximum_value (lib.of_ℤ (pos 1000000))) []
      ∷ sample "Health" "system_mate_link_latency_avg_seconds" gauge
          (lib.div reply.mate_link_latency_average_value (lib.of_ℤ (pos 1000000))) []
      ∷ sample "Health" "system_mate_link_latency_cur_seconds" gauge
          (lib.div reply.mate_link_latency_current_value (lib.of_ℤ (pos 1000000))) []
      ∷ []

  unfoldable pub get_health_semp1 :
      {Body : Type 0} (http : Http Body) (decode : Body → Result String (Target (Health F)))
      (semp : Semp)
      → Run F Status
  get_health_semp1 http decode semp =
      scrape_once http decode execute_ok semp
        ("<rpc><show><system><health/></system></show ></rpc>")
        (λ reply. send_all (get_health_semp1_samples reply))

-- The fields of one item, the nested structs written flat.
pub record Interface (F : Type 0) : Type 0 where
  pub name : String
  pub enabled : String
  pub state : String
  pub rx_bytes : F
  pub tx_bytes : F

module _ {F : Type 0} (lib : GoLib F) where
  unfoldable pub get_interface_semp1_samples : Interface F → List (Sample F)
  get_interface_semp1_samples intf =
      sample "Interface" "network_if_rx_bytes" counter intf.rx_bytes (intf.name ∷ [])
      ∷ sample "Interface" "network_if_tx_bytes" counter intf.tx_bytes (intf.name ∷ [])
      ∷ sample "Interface" "network_if_state" gauge
          (lib.of_ℤ (encode_metric_multi intf.state ("Down" ∷ "Up" ∷ []))) (intf.name ∷ [])
      ∷ []

  unfoldable pub get_interface_semp1 :
      {Body : Type 0} (http : Http Body)
      (decode : Body → Result String (Target (List (Interface F)))) (semp : Semp)
      → String
      → Run F Status
  get_interface_semp1 http decode semp interface_filter =
      scrape_once http decode execute_ok semp
        ("<rpc><show><interface><phy-interface>"
          <> (interface_filter <> "</phy-interface></interface></show></rpc>"))
        (λ items. each (λ intf. send_all (get_interface_semp1_samples intf)) items)

-- The fields of the reply, the nested structs written flat.
pub record ConfigSync (F : Type 0) : Type 0 where
  pub admin_status : String
  pub oper_status : String

module _ {F : Type 0} (lib : GoLib F) where
  unfoldable pub get_config_sync_semp1_samples : ConfigSync F → List (Sample F)
  get_config_sync_semp1_samples reply =
      sample "ConfigSync" "configsync_admin_state" gauge
        (lib.of_ℤ (encode_metric_multi reply.admin_status ("Shutdown" ∷ "Enabled" ∷ []))) []
      ∷ sample "ConfigSync" "configsync_oper_state" gauge
          (lib.of_ℤ (encode_metric_multi reply.oper_status ("Down" ∷ "Up" ∷ "Shutting Down" ∷ [])))
          []
      ∷ []

  unfoldable pub get_config_sync_semp1 :
      {Body : Type 0} (http : Http Body) (decode : Body → Result String (Target (ConfigSync F)))
      (semp : Semp)
      → Run F Status
  get_config_sync_semp1 http decode semp =
      scrape_once http decode execute_ok semp
        ("<rpc><show><config-sync></config-sync></show></rpc>")
        (λ reply. send_all (get_config_sync_semp1_samples reply))

-- The fields of one item, the nested structs written flat.
pub record ConfigSyncRouterTable (F : Type 0) : Type 0 where
  pub type_field : String
  pub time_in_state_seconds : F
  pub name : String
  pub ownership : String
  pub sync_state : String
  pub time_in_state : String

module _ {F : Type 0} (lib : GoLib F) where
  unfoldable pub get_config_sync_router_semp1_samples : ConfigSyncRouterTable F → List (Sample F)
  get_config_sync_router_semp1_samples table =
      sample "ConfigSyncRouter" "configsync_table_type" gauge
        (lib.of_ℤ (
          encode_metric_multi table.type_field
            ("Router" ∷ "Vpn" ∷ "Unknown" ∷ "None" ∷ "All" ∷ [])))
        (table.name ∷ [])
      ∷ sample "ConfigSyncRouter" "configsync_table_timeinstateseconds" counter
          table.time_in_state_seconds (table.name ∷ [])
      ∷ sample "ConfigSyncRouter" "configsync_table_ownership" gauge
          (lib.of_ℤ (encode_metric_multi table.ownership ("Master" ∷ "Slave" ∷ "Unknown" ∷ [])))
          (table.name ∷ [])
      ∷ sample "ConfigSyncRouter" "configsync_table_syncstate" gauge
          (lib.of_ℤ (
            encode_metric_multi table.sync_state (
              "Down" ∷ "Up" ∷ "Unknown" ∷ "In-Sync" ∷ "Reconciling" ∷ "Blocked" ∷ "Out-Of-Sync"
              ∷ [])))
          (table.name ∷ [])
      ∷ []

  unfoldable pub get_config_sync_router_semp1 :
      {Body : Type 0} (http : Http Body)
      (decode : Body → Result String (Target (List (ConfigSyncRouterTable F)))) (semp : Semp)
      → Run F Status
  get_config_sync_router_semp1 http decode semp =
      scrape_once http decode execute_ok semp
        ("<rpc><show><config-sync><database/><router/></config-sync></show></rpc>")
        (λ items. each (λ table. send_all (get_config_sync_router_semp1_samples table)) items)

-- The fields of one item, the nested structs written flat.
pub record RaidDisk (F : Type 0) : Type 0 where
  pub number : String
  pub administrative_state_enabled : Bool
  pub state : String
  pub device_model : String
  pub capacity : F

-- The fields of the reply, the nested structs written flat.
pub record RaidDiskReply (F : Type 0) : Type 0 where
  pub disk_info : List (RaidDisk F)
  pub raid_state : String
  pub reload_required : Bool

module _ {F : Type 0} (lib : GoLib F) where
  unfoldable pub get_raid_semp1_samples : RaidDisk F → List (Sample F)
  get_raid_semp1_samples disk =
      sample "Raid" "system_disk_state" gauge
        (lib.of_ℤ (encode_metric_multi disk.state ("Down" ∷ "Up" ∷ "-" ∷ [])))
        (disk.number ∷ disk.device_model ∷ [])
      ∷ sample "Raid" "system_disk_AdministrativeStateEnabled" gauge
          (lib.of_ℤ (encode_metric_bool disk.administrative_state_enabled))
          (disk.number ∷ disk.device_model ∷ [])
      ∷ []

  unfoldable pub get_raid_semp1_tail : RaidDiskReply F → List (Sample F)
  get_raid_semp1_tail reply =
      sample "Raid" "system_raid_state" gauge
        (lib.of_ℤ (
          encode_metric_multi reply.raid_state
            ("Disabled" ∷ "in fully redundant state" ∷ "-" ∷ [])))
        []
      ∷ sample "Raid" "system_reload_required" gauge
          (lib.of_ℤ (encode_metric_bool reply.reload_required)) []
      ∷ []

  unfoldable pub get_raid_semp1 :
      {Body : Type 0} (http : Http Body) (decode : Body → Result String (Target (RaidDiskReply F)))
      (semp : Semp)
      → Run F Status
  get_raid_semp1 http decode semp =
      scrape_once http decode execute_ok semp ("<rpc><show><disk></disk></show></rpc>") (λ reply.
        (each (λ disk. send_all (get_raid_semp1_samples disk)) reply.disk_info)
        >> (send_all (get_raid_semp1_tail reply)))
