-- ===== src/Semp/Getters/Hardware.antt =====
-- The scrapes of the hardware and its sensors: getEnvironmentSemp1.go, getHardwareSemp1.go of internal/semp.
use solace_prometheus_export.Prelude.{String, Bool, List, [], ◌∷◌, not, ◌&&◌, ◌==◌, if◌then◌else◌}
use solace_prometheus_export.Text.{contains_text}
use solace_prometheus_export.Prelude.Result.{Result}
use solace_prometheus_export.Metric.{gauge}
use solace_prometheus_export.Metric.Encode.{encode_metric_bool, encode_metric_multi}
use solace_prometheus_export.Metric.Run.{Run}
use solace_prometheus_export.Semp.{Http, Semp, Target, Status, execute_ok, scrape_once}
use solace_prometheus_export.Semp.Samples.{Sample, sample, send_all}
use solace_prometheus_export.Semp.Blocks.{◌<+>◌, branch, with_float, each_samples}
use solace_prometheus_export.Semp.GoLib.{GoLib}

-- The fields of one item, the nested structs written flat.
pub record EnvironmentSensor (F : Type 0) : Type 0 where
  pub type_field : String
  pub name : String
  pub value : String
  pub unit : String
  pub status : String

-- The fields of one item, the nested structs written flat.
pub record EnvironmentSlotSensor (F : Type 0) : Type 0 where
  pub type_field : String
  pub name : String
  pub value : String
  pub unit : String
  pub status : String

-- The fields of one item, the nested structs written flat.
pub record EnvironmentSlot (F : Type 0) : Type 0 where
  pub slot_number : String
  pub card_type : String
  pub sensor : List (EnvironmentSlotSensor F)

-- The fields of the reply, the nested structs written flat.
pub record EnvironmentReply (F : Type 0) : Type 0 where
  pub sensor : List (EnvironmentSensor F)
  pub slot : List (EnvironmentSlot F)

module _ {F : Type 0} (lib : GoLib F) where
  unfoldable pub get_environment_semp1_sensor_samples : EnvironmentSensor F → List (Sample F)
  get_environment_semp1_sensor_samples sensor =
      branch ((sensor.type_field == "Fan speed") && (contains_text sensor.name "Chassis"))
        ((with_float (lib.parse_float sensor.value) (λ value.
            (sample "Environment" "system_chassis_fan_speed_rpm" gauge (lib.round value)
                (sensor.name ∷ [])
              ∷ [])))
          <+> (sample "Environment" "system_chassis_fan_speed_rpm_status" gauge
                (lib.of_ℤ (encode_metric_multi sensor.status ("Fail" ∷ "OK" ∷ "Warning" ∷ [])))
                (sensor.name ∷ [])
              ∷ []))
        (branch ((sensor.type_field == "Temperature") && (contains_text sensor.name "Therm Margin"))
          (with_float (lib.parse_float sensor.value) (λ value.
            (sample "Environment" "system_cpu_thermal_margin" gauge (lib.round value)
                (sensor.name ∷ [])
              ∷ [])))
          (branch ((sensor.type_field == "Voltage") && (contains_text sensor.name "BB"))
            ((with_float (lib.parse_float sensor.value) (λ value.
                (sample "Environment" "system_voltage" gauge value (sensor.name ∷ []) ∷ [])))
              <+> (sample "Environment" "system_voltage_status" gauge
                    (lib.of_ℤ (encode_metric_multi sensor.status ("Fail" ∷ "OK" ∷ "Warning" ∷ [])))
                    (sensor.name ∷ [])
                  ∷ []))
            []))

  unfoldable pub get_environment_semp1_slot_sensor_samples :
      EnvironmentSlotSensor F → List (Sample F)
  get_environment_semp1_slot_sensor_samples sensor =
      branch ((sensor.type_field == "Temperature") && (sensor.name == "NPU Core Temp"))
        ((with_float (lib.parse_float sensor.value) (λ value.
            (sample "Environment" "system_nab_core_temperature" gauge (lib.round value)
                (sensor.name ∷ [])
              ∷ [])))
          <+> (sample "Environment" "system_nab_core_temperature_status" gauge
                (lib.of_ℤ (encode_metric_multi sensor.status ("Fail" ∷ "OK" ∷ "Warning" ∷ [])))
                (sensor.name ∷ [])
              ∷ []))
        []

  unfoldable pub get_environment_semp1_slot_samples : EnvironmentSlot F → List (Sample F)
  get_environment_semp1_slot_samples slot =
      branch (slot.card_type == "Network Acceleration Blade")
        (each_samples get_environment_semp1_slot_sensor_samples slot.sensor) []

  unfoldable pub get_environment_semp1_samples : EnvironmentReply F → List (Sample F)
  get_environment_semp1_samples reply =
      (each_samples get_environment_semp1_sensor_samples reply.sensor)
      <+> (each_samples get_environment_semp1_slot_samples reply.slot)

  unfoldable pub get_environment_semp1 :
      {Body : Type 0} (http : Http Body)
      (decode : Body → Result String (Target (EnvironmentReply F))) (semp : Semp)
      → Run F Status
  get_environment_semp1 http decode semp =
      scrape_once http decode execute_ok semp ("<rpc><show><environment/></show></rpc>")
        (λ reply. send_all (get_environment_semp1_samples reply))

-- The fields of one item, the nested structs written flat.
pub record HardwareSlotFibreChannel (F : Type 0) : Type 0 where
  pub number : String
  pub operational_state : String
  pub state : String

-- The fields of one item, the nested structs written flat.
pub record HardwareSlotExternalDiskLun (F : Type 0) : Type 0 where
  pub number : String
  pub state : String

-- The fields of one item, the nested structs written flat.
pub record HardwareSlot (F : Type 0) : Type 0 where
  pub slot_number : String
  pub card_type : String
  pub operational_state : Bool
  pub flash_card_state : String
  pub power_module_state : String
  pub mate_link1_state : String
  pub mate_link2_state : String
  pub fibre_channel : List (HardwareSlotFibreChannel F)
  pub external_disk_lun : List (HardwareSlotExternalDiskLun F)

-- The fields of the reply, the nested structs written flat.
pub record HardwareReply (F : Type 0) : Type 0 where
  pub operational_power_supplies : F
  pub slot : List (HardwareSlot F)

module _ {F : Type 0} (lib : GoLib F) where
  unfoldable pub get_hardware_semp1_slot_fc_samples : HardwareSlotFibreChannel F → List (Sample F)
  get_hardware_semp1_slot_fc_samples fc =
      sample "Hardware" "fibre_channel_operational_state" gauge
        (lib.of_ℤ (encode_metric_multi fc.operational_state ("Linkdown" ∷ "Online" ∷ [])))
        (fc.number ∷ [])
      ∷ sample "Hardware" "fibre_channel_state" gauge
          (lib.of_ℤ (
            encode_metric_multi fc.state (
              "Link Down" ∷ "Link Up - F_Port (fabric via point-to-point)"
              ∷ "Link Up - Loop (private loop)"
              ∷ "Link Up - N_Port to N_Port (direct nport connection)" ∷ [])))
          (fc.number ∷ [])
      ∷ []

  unfoldable pub get_hardware_semp1_slot_lun_samples :
      HardwareSlotExternalDiskLun F → List (Sample F)
  get_hardware_semp1_slot_lun_samples lun =
      sample "Hardware" "external_disk_lun_state" gauge
        (lib.of_ℤ (
          encode_metric_multi (if not (contains_text lun.state "Ready") then "Offline" else "Ready")
            ("Offline" ∷ "Ready" ∷ [])))
        (lun.number ∷ [])
      ∷ []

  unfoldable pub get_hardware_semp1_slot_samples : HardwareSlot F → List (Sample F)
  get_hardware_semp1_slot_samples slot =
      branch (slot.card_type == "Host Bus Adapter Blade")
        ((each_samples get_hardware_semp1_slot_fc_samples slot.fibre_channel)
          <+> (each_samples get_hardware_semp1_slot_lun_samples slot.external_disk_lun))
        (branch (slot.card_type == "Assured Delivery Blade")
          (sample "Hardware" "adb_operational_state" gauge
              (lib.of_ℤ (encode_metric_bool slot.operational_state)) []
            ∷ sample "Hardware" "adb_flash_card_state" gauge
                (lib.of_ℤ (encode_metric_multi slot.flash_card_state ("Link Down" ∷ "Ready" ∷ [])))
                []
            ∷ sample "Hardware" "adb_power_module_state" gauge
                (lib.of_ℤ (encode_metric_multi slot.power_module_state ("" ∷ "Ok" ∷ []))) []
            ∷ sample "Hardware" "adb_mate_link_port1_state" gauge
                (lib.of_ℤ (
                  encode_metric_multi slot.mate_link1_state
                    ("LOS" ∷ "Ok" ∷ "No SFP Module" ∷ "No Data" ∷ [])))
                []
            ∷ sample "Hardware" "adb_mate_link_port2_state" gauge
                (lib.of_ℤ (
                  encode_metric_multi slot.mate_link2_state
                    ("LOS" ∷ "Ok" ∷ "No SFP Module" ∷ "No Data" ∷ [])))
                []
            ∷ [])
          [])

  unfoldable pub get_hardware_semp1_samples : HardwareReply F → List (Sample F)
  get_hardware_semp1_samples reply =
      sample "Hardware" "operational_power_supplies" gauge reply.operational_power_supplies []
      ∷ (each_samples get_hardware_semp1_slot_samples reply.slot)

  unfoldable pub get_hardware_semp1 :
      {Body : Type 0} (http : Http Body) (decode : Body → Result String (Target (HardwareReply F)))
      (semp : Semp)
      → Run F Status
  get_hardware_semp1 http decode semp =
      scrape_once http decode execute_ok semp
        ("<rpc><show><hardware><details/></hardware></show></rpc>")
        (λ reply. send_all (get_hardware_semp1_samples reply))
