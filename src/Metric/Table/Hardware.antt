-- ===== src/Metric/Table/Hardware.antt =====
-- The descriptors of internal/semp/metricDesc.go: Raid, ClockDetail, Redundancy, RedundancyHW, Environment, Hardware, ReplicationStats.
use solace_prometheus_export.Prelude.{String, List, [], ◌∷◌}
use solace_prometheus_export.Metric.{Desc, unready}
use solace_prometheus_export.Metric.Table.Labels.{
  labels_clock_ntp_addr, labels_clock_pro, labels_environment, labels_hardware_fc,
  labels_hardware_lun, labels_raid, labels_redundancy, labels_redundancy_hw, labels_replication,
  no_labels,
}

abbrev pub raid : List (String × Desc)
raid =
    unready "system_disk_state" "system_disk_state" "Disk state. 0 = down, 1 = up." labels_raid
    ∷ unready "system_disk_AdministrativeStateEnabled" "system_disk_AdministrativeStateEnabled"
        "Disk enablement 0 = disabled, 1 = enabled." labels_raid
    ∷ unready "system_raid_state" "system_raid_state"
        "Current RAID state of the internal disks, 1 if fully redundant." no_labels
    ∷ unready "system_reload_required" "system_reload_required" "1 if a system reload is required."
        no_labels
    ∷ []

abbrev pub clock_detail : List (String × Desc)
clock_detail =
    unready "system_clock_detail_admin_state" "system_clock_detail_admin_state"
      "Clock Admin state. 0 = disabled, 1 = enabled." labels_clock_pro
    ∷ unready "system_clock_detail_ntp_server_reachable" "system_clock_detail_ntp_server_reachable"
        "Clock NTP Server Reachable? (0-no, 1-yes)." labels_clock_ntp_addr
    ∷ []

abbrev pub redundancy : List (String × Desc)
redundancy =
    unready "system_redundancy_up" "system_redundancy_up" "Is redundancy up? (0=Down, 1=Up)."
      labels_redundancy
    ∷ unready "system_redundancy_config" "system_redundancy_config"
        "Redundancy configuration (0-Disabled, 1-Enabled, 2-Shutdown)" labels_redundancy
    ∷ unready "system_redundancy_role" "system_redundancy_role"
        "Redundancy role (0=Backup, 1=Primary, 2=Monitor, 3-Undefined)." labels_redundancy
    ∷ unready "system_redundancy_local_active" "system_redundancy_local_active"
        "Is local node the active messaging node? (0-not active, 1-active)." labels_redundancy
    ∷ []

abbrev pub redundancy_hw : List (String × Desc)
redundancy_hw =
    unready "system_redundancy_hw_mode" "system_redundancy_hw_mode"
      "Redundancy mode (0=Active/Active, 1=Active/Standby)." labels_redundancy_hw
    ∷ unready "system_redundancy_hw_adb_link" "system_redundancy_hw_adb_link"
        "Is adb link up? (0-no, 1-yes)." labels_redundancy_hw
    ∷ unready "system_redundancy_hw_adb_hello" "system_redundancy_hw_adb_hello"
        "Is adb link connected? (0-no, 1-yes)." labels_redundancy_hw
    ∷ []

abbrev pub environment : List (String × Desc)
environment =
    unready "system_chassis_fan_speed_rpm" "system_chassis_fan_speed_rpm" "Chassis Fan Speed (RPM)"
      labels_environment
    ∷ unready "system_chassis_fan_speed_rpm_status" "system_chassis_fan_speed_rpm_status"
        "Chassis Fan Speed (RPM) Status (0-Fail, 1-OK, 2-Warining, -1-Undefined)" labels_environment
    ∷ unready "system_cpu_thermal_margin" "system_cpu_thermal_margin"
        "CPU thermal headroom (Degrees C, larger negative values are better.)" labels_environment
    ∷ unready "system_voltage" "system_voltage"
        "Mainboard Voltage (Volts, close to volts values in sensor name are better.)"
        labels_environment
    ∷ unready "system_voltage_status" "system_voltage_status"
        "Mainboard Voltage (0-Fail, 1-OK, 2-Warining, -1-Undefined)." labels_environment
    ∷ unready "system_nab_core_temperature" "system_nab_core_temperature"
        "NAB core temperature (Degrees C)." labels_environment
    ∷ unready "system_nab_core_temperature_status" "system_nab_core_temperature_status"
        "NAB core temperature Status (0-Fail, 1-OK, 2-Warining, -1-Undefined)." labels_environment
    ∷ []

abbrev pub hardware : List (String × Desc)
hardware =
    unready "operational_power_supplies" "operational_power_supplies"
      "Number of operational power supplies" no_labels
    ∷ unready "fibre_channel_operational_state" "fibre_channel_operational_state"
        "Fibre channel operational state 0-Link Down 1-Online" labels_hardware_fc
    ∷ unready "fibre_channel_state" "fibre_channel_state"
        "Fibre channel state 0-Link Down 1-Link Up, 2-Link Up Loop, 3-Link Up NPort"
        labels_hardware_fc
    ∷ unready "external_disk_lun_state" "external_disk_lun_state"
        "External Disk LUN state 0-Offline 1-Ready" labels_hardware_lun
    ∷ unready "adb_operational_state" "adb_operational_state"
        "ADB Operational State, -1,0-Not OK 1-OK" no_labels
    ∷ unready "adb_flash_card_state" "adb_flash_card_state" "ADB Flash Card State, -1,0-Not OK 1-OK"
        no_labels
    ∷ unready "adb_power_module_state" "adb_power_module_state"
        "ADB Power Module State, -1,0-Not OK 1-OK" no_labels
    ∷ unready "adb_mate_link_port1_state" "adb_mate_link_port1_state"
        "ADB Matelink Port 1 State, 0-Loss of Sync 1-OK, 2-No SFP Module, 3-No Data" no_labels
    ∷ unready "adb_mate_link_port2_state" "adb_mate_link_port2_state"
        "ADB Matelink Port 2 State, 0-Loss of Sync 1-OK, 2-No SFP Module, 3-No Data" no_labels
    ∷ []

abbrev pub replication_stats : List (String × Desc)
replication_stats =
    unready "system_replication_bridge_admin_state" "system_replication_bridge_admin_state"
      "Replication Config Sync Bridge Admin State" labels_replication
    ∷ unready "system_replication_bridge_state" "system_replication_bridge_state"
        "Replication Config Sync Bridge State" labels_replication
    ∷ unready "system_replication_sync_msgs_queued_to_standby"
        "system_replication_sync_msgs_queued_to_standby"
        "Replication sync messages queued to standby" labels_replication
    ∷ unready "system_replication_sync_msgs_queued_to_standby_as_async"
        "system_replication_sync_msgs_queued_to_standby_as_async"
        "Replication sync messages queued to standby as Async" labels_replication
    ∷ unready "system_replication_async_msgs_queued_to_standby"
        "system_replication_async_msgs_queued_to_standby"
        "Replication async messages queued to standby" labels_replication
    ∷ unready "system_replication_promoted_msgs_queued_to_standby"
        "system_replication_promoted_msgs_queued_to_standby"
        "Replication promoted messages queued to standby" labels_replication
    ∷ unready "system_replication_pruned_locally_consumed_msgs"
        "system_replication_pruned_locally_consumed_msgs"
        "Replication Pruned locally consumed messages" labels_replication
    ∷ unready "system_replication_transitions_to_ineligible"
        "system_replication_transitions_to_ineligible" "Replication transitions to ineligible"
        labels_replication
    ∷ unready "system_replication_msgs_tx_to_standby" "system_replication_msgs_tx_to_standby"
        "system_replication_msgs_tx_to_standby" labels_replication
    ∷ unready "system_replication_rec_req_from_standby" "system_replication_rec_req_from_standby"
        "system_replication_rec_req_from_standby" labels_replication
    ∷ unready "system_replication_msgs_rx_from_active" "system_replication_msgs_rx_from_active"
        "Replication msgs rx from active" labels_replication
    ∷ unready "system_replication_ack_prop_msgs_rx" "system_replication_ack_prop_msgs_rx"
        "Replication ack prop msgs rx" labels_replication
    ∷ unready "system_replication_recon_req_tx" "system_replication_recon_req_tx"
        "Replication recon req tx" labels_replication
    ∷ unready "system_replication_out_of_seq_rx" "system_replication_out_of_seq_rx"
        "Replication out of seq rx" labels_replication
    ∷ unready "system_replication_xa_req" "system_replication_xa_req"
        "Replication transaction requests" labels_replication
    ∷ unready "system_replication_xa_req_success" "system_replication_xa_req_success"
        "Replication transaction requests success" labels_replication
    ∷ unready "system_replication_xa_req_success_prepare"
        "system_replication_xa_req_success_prepare"
        "Replication transaction requests success prepare" labels_replication
    ∷ unready "system_replication_xa_req_success_commit" "system_replication_xa_req_success_commit"
        "Replication transaction requests success commit" labels_replication
    ∷ unready "system_replication_xa_req_success_rollback"
        "system_replication_xa_req_success_rollback"
        "Replication transaction requests success rollback" labels_replication
    ∷ unready "system_replication_xa_req_fail" "system_replication_xa_req_fail"
        "Replication transaction requests fail" labels_replication
    ∷ unready "system_replication_xa_req_fail_prepare" "system_replication_xa_req_fail_prepare"
        "Replication transaction requests fail prepare" labels_replication
    ∷ unready "system_replication_xa_req_fail_commit" "system_replication_xa_req_fail_commit"
        "Replication transaction requests fail commit" labels_replication
    ∷ unready "system_replication_xa_req_fail_rollback" "system_replication_xa_req_fail_rollback"
        "Replication transaction requests fail rollback" labels_replication
    ∷ []
