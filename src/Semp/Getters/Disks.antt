-- ===== src/Semp/Getters/Disks.antt =====
-- The scrapes of the disks, the storage elements, the clock and the alarms: getDiskSemp1.go, getStorageElementSemp1.go, getClockDetailSemp1.go, getAlarmSemp1.go of internal/semp.
use solace_prometheus_export.Prelude.{String, Bool, List, [], ◌∷◌, true, false, not, if◌then◌else◌}
use Prim.Native.String.{◌++◌ as ◌<>◌}
use solace_prometheus_export.Text.{trim_byte}
use solace_prometheus_export.Prelude.Int.{pos}
use solace_prometheus_export.Prelude.Result.{Result}
use solace_prometheus_export.Metric.{gauge}
use solace_prometheus_export.Metric.Encode.{encode_metric_bool}
use solace_prometheus_export.Metric.Run.{Run}
use solace_prometheus_export.Semp.{Http, Semp, Target, Status, execute_ok, scrape_once}
use solace_prometheus_export.Semp.Samples.{Sample, sample, send_all}
use solace_prometheus_export.Semp.Blocks.{each_samples, is_nil}
use solace_prometheus_export.Semp.GoLib.{GoLib}

-- The fields of one item, the nested structs written flat.
pub record DiskDiskInfo (F : Type 0) : Type 0 where
  pub path : String
  pub device_name : String
  pub total_blocks : F
  pub used_blocks : F
  pub avail_blocks : F
  pub used_percent : String

-- The fields of the reply, the nested structs written flat.
pub record DiskReply (F : Type 0) : Type 0 where
  pub disk_info : List (DiskDiskInfo F)

module _ {F : Type 0} (lib : GoLib F) where
  unfoldable pub get_disk_semp1_disk_samples : DiskDiskInfo F → List (Sample F)
  get_disk_semp1_disk_samples disk =
      sample "Disk" "system_disk_used_percent" gauge
        ((lib.parse_float (trim_byte b'%' disk.used_percent)).0) (disk.path ∷ disk.device_name ∷ [])
      ∷ sample "Disk" "system_disk_used_bytes" gauge
          (lib.mul disk.used_blocks (lib.of_ℤ (pos 1024))) (disk.path ∷ disk.device_name ∷ [])
      ∷ sample "Disk" "system_disk_avail_bytes" gauge
          (lib.mul disk.avail_blocks (lib.of_ℤ (pos 1024))) (disk.path ∷ disk.device_name ∷ [])
      ∷ []

  unfoldable pub get_disk_semp1_samples : DiskReply F → List (Sample F)
  get_disk_semp1_samples reply = each_samples get_disk_semp1_disk_samples reply.disk_info

  unfoldable pub get_disk_semp1 :
      {Body : Type 0} (http : Http Body) (decode : Body → Result String (Target (DiskReply F)))
      (semp : Semp)
      → Run F Status
  get_disk_semp1 http decode semp =
      scrape_once http decode execute_ok semp ("<rpc><show><disk><detail/></disk></show></rpc>")
        (λ reply. send_all (get_disk_semp1_samples reply))

-- The fields of one item, the nested structs written flat.
pub record StorageElementsStorageElement (F : Type 0) : Type 0 where
  pub name : String
  pub path : String
  pub device_name : String
  pub total_blocks : F
  pub used_blocks : F
  pub avail_blocks : F
  pub used_percent : F

-- The fields of the reply, the nested structs written flat.
pub record StorageElementsReply (F : Type 0) : Type 0 where
  pub storage_element : List (StorageElementsStorageElement F)

module _ {F : Type 0} (lib : GoLib F) where
  unfoldable pub get_storage_element_semp1_element_samples :
      StorageElementsStorageElement F → List (Sample F)
  get_storage_element_semp1_element_samples element =
      sample "StorageElement" "system_storage_used_percent" gauge element.used_percent
        (element.path ∷ element.device_name ∷ element.name ∷ [])
      ∷ sample "StorageElement" "system_storage_used_bytes" gauge
          (lib.mul element.used_blocks (lib.of_ℤ (pos 1024)))
          (element.path ∷ element.device_name ∷ element.name ∷ [])
      ∷ sample "StorageElement" "system_storage_avail_bytes" gauge
          (lib.mul element.avail_blocks (lib.of_ℤ (pos 1024)))
          (element.path ∷ element.device_name ∷ element.name ∷ [])
      ∷ []

  unfoldable pub get_storage_element_semp1_samples : StorageElementsReply F → List (Sample F)
  get_storage_element_semp1_samples reply =
      each_samples get_storage_element_semp1_element_samples reply.storage_element

  unfoldable pub get_storage_element_semp1 :
      {Body : Type 0} (http : Http Body)
      (decode : Body → Result String (Target (StorageElementsReply F))) (semp : Semp)
      → String
      → Run F Status
  get_storage_element_semp1 http decode semp storage_element_filter =
      scrape_once http decode execute_ok semp
        (("<rpc><show><storage-element><pattern>" <> storage_element_filter)
          <> "</pattern></storage-element></show></rpc>")
        (λ reply. send_all (get_storage_element_semp1_samples reply))

-- The fields of the reply, the nested structs written flat.
pub record ClockDetail (F : Type 0) : Type 0 where
  pub protocol : String
  pub admin_state : Bool
  pub ntp_server_addr : String
  pub ntp_server_reachable : Bool

module _ {F : Type 0} (lib : GoLib F) where
  unfoldable pub get_clock_detail_semp1_samples : ClockDetail F → List (Sample F)
  get_clock_detail_semp1_samples reply =
      sample "ClockDetail" "system_clock_detail_admin_state" gauge
        (lib.of_ℤ (encode_metric_bool reply.admin_state)) (reply.protocol ∷ [])
      ∷ sample "ClockDetail" "system_clock_detail_ntp_server_reachable" gauge
          (lib.of_ℤ (encode_metric_bool reply.ntp_server_reachable)) (reply.ntp_server_addr ∷ [])
      ∷ []

  unfoldable pub get_clock_detail_semp1 :
      {Body : Type 0} (http : Http Body) (decode : Body → Result String (Target (ClockDetail F)))
      (semp : Semp)
      → Run F Status
  get_clock_detail_semp1 http decode semp =
      scrape_once http decode execute_ok semp ("<rpc><show><clock><detail/></clock></show></rpc>")
        (λ reply. send_all (get_clock_detail_semp1_samples reply))

-- The fields of the reply, the nested structs written flat.
pub record Alarm (F : Type 0) : Type 0 where
  pub alarm : List (Unit {0})

module _ {F : Type 0} (lib : GoLib F) where
  unfoldable pub get_alarm_semp1_samples : Alarm F → List (Sample F)
  get_alarm_semp1_samples reply =
      sample "Alarm" "system_alarm" gauge
        (lib.of_ℤ (encode_metric_bool (if not (is_nil reply.alarm) then true else false))) []
      ∷ []

  unfoldable pub get_alarm_semp1 :
      {Body : Type 0} (http : Http Body) (decode : Body → Result String (Target (Alarm F)))
      (semp : Semp)
      → Run F Status
  get_alarm_semp1 http decode semp =
      scrape_once http decode execute_ok semp ("<rpc><show><alarm/></show></rpc>")
        (λ reply. send_all (get_alarm_semp1_samples reply))
