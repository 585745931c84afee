-- ===== src/Semp/Fit/Broker.antt =====
-- The samples of the broker: its disks, hardware, memory, redundancy and spool fit the table of descriptors.
use solace_prometheus_export.Prelude.{refl, lookup, String}
use solace_prometheus_export.Metric.{new_sem_desc}
use solace_prometheus_export.Metric.Table.{find_desc, metric_desc}
use solace_prometheus_export.Semp.{Semp}
use solace_prometheus_export.Semp.GoLib.{GoLib}
use solace_prometheus_export.Semp.Samples.{fits}
use solace_prometheus_export.Semp.Blocks.{
  AllFit, cons-AllFit, append-AllFit, branch-AllFit, with_float-AllFit, with_first-AllFit,
  each_samples-AllFit,
}
use solace_prometheus_export.Semp.Getters.Disks.{
  get_disk_semp1_disk_samples, DiskDiskInfo, get_disk_semp1_samples, DiskReply,
  get_storage_element_semp1_element_samples, StorageElementsStorageElement,
  get_storage_element_semp1_samples, StorageElementsReply, get_clock_detail_semp1_samples,
  ClockDetail, get_alarm_semp1_samples, Alarm,
}
use solace_prometheus_export.Semp.Getters.GlobalStats.{
  get_global_system_info_semp1_samples, GlobalSystemInfo, get_global_stats_semp1_samples,
  GlobalStats,
}
use solace_prometheus_export.Semp.Getters.Redundancy.{
  get_redundancy_semp1_samples, Redundancy, get_replication_stats_semp1_samples, ReplicationStats,
}
use solace_prometheus_export.Semp.Getters.Memory.{
  get_memory_semp1_memory_info_samples, MemoryMemoryInfo, get_memory_semp1_samples, MemoryReply,
  get_interface_hw_semp1_intf_samples, InterfaceHwInterface, get_interface_hw_semp1_samples,
  InterfaceHwReply,
}
use solace_prometheus_export.Semp.Getters.Hardware.{
  get_environment_semp1_sensor_samples, EnvironmentSensor,
  get_environment_semp1_slot_sensor_samples, EnvironmentSlotSensor,
  get_environment_semp1_slot_samples, EnvironmentSlot, get_environment_semp1_samples,
  EnvironmentReply, get_hardware_semp1_slot_fc_samples, HardwareSlotFibreChannel,
  get_hardware_semp1_slot_lun_samples, HardwareSlotExternalDiskLun, get_hardware_semp1_slot_samples,
  HardwareSlot, get_hardware_semp1_samples, HardwareReply,
}
use solace_prometheus_export.Semp.Getters.SpoolStats.{get_spool_stats_semp1_samples, SpoolStats}
use solace_prometheus_export.Semp.Getters.Spool.{
  get_spool_semp1_disk_info_samples, SpoolDiskInfo, get_spool_semp1_head, SpoolReply,
  get_spool_semp1_tail,
}

module _ {F : Type 0} (lib : GoLib F) where
  pub get_disk_semp1_disk_samples-AllFit :
      (disk : DiskDiskInfo F) → AllFit (get_disk_semp1_disk_samples lib disk)
  unfolding get_disk_semp1_disk_samples fits find_desc metric_desc lookup new_sem_desc
  get_disk_semp1_disk_samples-AllFit disk = record { all_fit = refl }

  pub get_disk_semp1_samples-AllFit :
      (reply : DiskReply F) → AllFit (get_disk_semp1_samples lib reply)
  unfolding get_disk_semp1_samples fits find_desc metric_desc lookup new_sem_desc
  get_disk_semp1_samples-AllFit reply = each_samples-AllFit _ get_disk_semp1_disk_samples-AllFit

  pub get_storage_element_semp1_element_samples-AllFit :
      (element : StorageElementsStorageElement F)
      → AllFit (get_storage_element_semp1_element_samples lib element)
  unfolding get_storage_element_semp1_element_samples fits find_desc metric_desc lookup new_sem_desc
  get_storage_element_semp1_element_samples-AllFit element = record { all_fit = refl }

  pub get_storage_element_semp1_samples-AllFit :
      (reply : StorageElementsReply F) → AllFit (get_storage_element_semp1_samples lib reply)
  unfolding get_storage_element_semp1_samples fits find_desc metric_desc lookup new_sem_desc
  get_storage_element_semp1_samples-AllFit reply =
      each_samples-AllFit _ get_storage_element_semp1_element_samples-AllFit

  pub get_clock_detail_semp1_samples-AllFit :
      (reply : ClockDetail F) → AllFit (get_clock_detail_semp1_samples lib reply)
  unfolding get_clock_detail_semp1_samples fits find_desc metric_desc lookup new_sem_desc
  get_clock_detail_semp1_samples-AllFit reply = record { all_fit = refl }

  pub get_alarm_semp1_samples-AllFit :
      (reply : Alarm F) → AllFit (get_alarm_semp1_samples lib reply)
  unfolding get_alarm_semp1_samples fits find_desc metric_desc lookup new_sem_desc
  get_alarm_semp1_samples-AllFit reply = record { all_fit = refl }

  pub get_global_system_info_semp1_samples-AllFit :
      (reply : GlobalSystemInfo F) → AllFit (get_global_system_info_semp1_samples lib reply)
  unfolding get_global_system_info_semp1_samples fits find_desc metric_desc lookup new_sem_desc
  get_global_system_info_semp1_samples-AllFit reply = record { all_fit = refl }

  pub get_global_stats_semp1_samples-AllFit :
      (reply : GlobalStats F) → AllFit (get_global_stats_semp1_samples lib reply)
  unfolding get_global_stats_semp1_samples fits find_desc metric_desc lookup new_sem_desc
  get_global_stats_semp1_samples-AllFit reply = record { all_fit = refl }

  pub get_redundancy_semp1_samples-AllFit :
      (semp : Semp) (reply : Redundancy F) → AllFit (get_redundancy_semp1_samples lib semp reply)
  unfolding get_redundancy_semp1_samples fits find_desc metric_desc lookup new_sem_desc
  get_redundancy_semp1_samples-AllFit semp reply = cons-AllFit refl (
      cons-AllFit refl (
        cons-AllFit refl (
          append-AllFit (branch-AllFit _ (record { all_fit = refl }) (record { all_fit = refl }))
            (record { all_fit = refl }))))

  pub get_replication_stats_semp1_samples-AllFit :
      (reply : ReplicationStats F) → AllFit (get_replication_stats_semp1_samples lib reply)
  unfolding get_replication_stats_semp1_samples fits find_desc metric_desc lookup new_sem_desc
  get_replication_stats_semp1_samples-AllFit reply =
      branch-AllFit _ (record { all_fit = refl }) (record { all_fit = refl })

  pub get_memory_semp1_memory_info_samples-AllFit :
      (memory_info : MemoryMemoryInfo F)
      → AllFit (get_memory_semp1_memory_info_samples lib memory_info)
  unfolding get_memory_semp1_memory_info_samples fits find_desc metric_desc lookup new_sem_desc
  get_memory_semp1_memory_info_samples-AllFit memory_info = cons-AllFit refl (
      cons-AllFit refl (
        cons-AllFit refl (branch-AllFit _ (record { all_fit = refl }) (record { all_fit = refl }))))

  pub get_memory_semp1_samples-AllFit :
      (reply : MemoryReply F) → AllFit (get_memory_semp1_samples lib reply)
  unfolding get_memory_semp1_samples fits find_desc metric_desc lookup new_sem_desc
  get_memory_semp1_samples-AllFit reply =
      append-AllFit (each_samples-AllFit _ get_memory_semp1_memory_info_samples-AllFit) (
        cons-AllFit refl
          (cons-AllFit refl (with_first-AllFit _ (λ first. record { all_fit = refl }))))

  pub get_interface_hw_semp1_intf_samples-AllFit :
      (intf : InterfaceHwInterface F) → AllFit (get_interface_hw_semp1_intf_samples lib intf)
  unfolding get_interface_hw_semp1_intf_samples fits find_desc metric_desc lookup new_sem_desc
  get_interface_hw_semp1_intf_samples-AllFit intf = cons-AllFit refl (
      cons-AllFit refl (
        cons-AllFit refl (
          cons-AllFit refl (
            cons-AllFit refl (
              cons-AllFit refl (
                branch-AllFit _ (record { all_fit = refl })
                  (branch-AllFit _ (record { all_fit = refl }) (record { all_fit = refl }))))))))

  pub get_interface_hw_semp1_samples-AllFit :
      (reply : InterfaceHwReply F) → AllFit (get_interface_hw_semp1_samples lib reply)
  unfolding get_interface_hw_semp1_samples fits find_desc metric_desc lookup new_sem_desc
  get_interface_hw_semp1_samples-AllFit reply =
      each_samples-AllFit _ get_interface_hw_semp1_intf_samples-AllFit

  pub get_environment_semp1_sensor_samples-AllFit :
      (sensor : EnvironmentSensor F) → AllFit (get_environment_semp1_sensor_samples lib sensor)
  unfolding get_environment_semp1_sensor_samples fits find_desc metric_desc lookup new_sem_desc
  get_environment_semp1_sensor_samples-AllFit sensor =
      branch-AllFit _
        (append-AllFit (with_float-AllFit _ (λ value. record { all_fit = refl }))
          (record { all_fit = refl }))
        (branch-AllFit _ (with_float-AllFit _ (λ value. record { all_fit = refl })) (
          branch-AllFit _
            (append-AllFit (with_float-AllFit _ (λ value. record { all_fit = refl }))
              (record { all_fit = refl }))
            (record { all_fit = refl })))

  pub get_environment_semp1_slot_sensor_samples-AllFit :
      (sensor : EnvironmentSlotSensor F)
      → AllFit (get_environment_semp1_slot_sensor_samples lib sensor)
  unfolding get_environment_semp1_slot_sensor_samples fits find_desc metric_desc lookup new_sem_desc
  get_environment_semp1_slot_sensor_samples-AllFit sensor =
      branch-AllFit _
        (append-AllFit (with_float-AllFit _ (λ value. record { all_fit = refl }))
          (record { all_fit = refl }))
        (record { all_fit = refl })

  pub get_environment_semp1_slot_samples-AllFit :
      (slot : EnvironmentSlot F) → AllFit (get_environment_semp1_slot_samples lib slot)
  unfolding get_environment_semp1_slot_samples fits find_desc metric_desc lookup new_sem_desc
  get_environment_semp1_slot_samples-AllFit slot =
      branch-AllFit _ (each_samples-AllFit _ get_environment_semp1_slot_sensor_samples-AllFit)
        (record { all_fit = refl })

  pub get_environment_semp1_samples-AllFit :
      (reply : EnvironmentReply F) → AllFit (get_environment_semp1_samples lib reply)
  unfolding get_environment_semp1_samples fits find_desc metric_desc lookup new_sem_desc
  get_environment_semp1_samples-AllFit reply =
      append-AllFit (each_samples-AllFit _ get_environment_semp1_sensor_samples-AllFit)
        (each_samples-AllFit _ get_environment_semp1_slot_samples-AllFit)

  pub get_hardware_semp1_slot_fc_samples-AllFit :
      (fc : HardwareSlotFibreChannel F) → AllFit (get_hardware_semp1_slot_fc_samples lib fc)
  unfolding get_hardware_semp1_slot_fc_samples fits find_desc metric_desc lookup new_sem_desc
  get_hardware_semp1_slot_fc_samples-AllFit fc = record { all_fit = refl }

  pub get_hardware_semp1_slot_lun_samples-AllFit :
      (lun : HardwareSlotExternalDiskLun F) → AllFit (get_hardware_semp1_slot_lun_samples lib lun)
  unfolding get_hardware_semp1_slot_lun_samples fits find_desc metric_desc lookup new_sem_desc
  get_hardware_semp1_slot_lun_samples-AllFit lun = record { all_fit = refl }

  pub get_hardware_semp1_slot_samples-AllFit :
      (slot : HardwareSlot F) → AllFit (get_hardware_semp1_slot_samples lib slot)
  unfolding get_hardware_semp1_slot_samples fits find_desc metric_desc lookup new_sem_desc
  get_hardware_semp1_slot_samples-AllFit slot =
      branch-AllFit _
        (append-AllFit (each_samples-AllFit _ get_hardware_semp1_slot_fc_samples-AllFit)
          (each_samples-AllFit _ get_hardware_semp1_slot_lun_samples-AllFit))
        (branch-AllFit _ (record { all_fit = refl }) (record { all_fit = refl }))

  pub get_hardware_semp1_samples-AllFit :
      (reply : HardwareReply F) → AllFit (get_hardware_semp1_samples lib reply)
  unfolding get_hardware_semp1_samples fits find_desc metric_desc lookup new_sem_desc
  get_hardware_semp1_samples-AllFit reply =
      cons-AllFit refl (each_samples-AllFit _ get_hardware_semp1_slot_samples-AllFit)

  pub get_spool_stats_semp1_samples-AllFit :
      (reply : SpoolStats F) → AllFit (get_spool_stats_semp1_samples lib reply)
  unfolding get_spool_stats_semp1_samples fits find_desc metric_desc lookup new_sem_desc
  get_spool_stats_semp1_samples-AllFit reply = record { all_fit = refl }

  pub get_spool_semp1_disk_info_samples-AllFit :
      (disk_info : SpoolDiskInfo F) → AllFit (get_spool_semp1_disk_info_samples lib disk_info)
  unfolding get_spool_semp1_disk_info_samples fits find_desc metric_desc lookup new_sem_desc
  get_spool_semp1_disk_info_samples-AllFit disk_info = cons-AllFit refl (
      cons-AllFit refl
        (cons-AllFit refl (with_float-AllFit _ (λ value. record { all_fit = refl }))))

  pub get_spool_semp1_head-AllFit : (reply : SpoolReply F) → AllFit (get_spool_semp1_head lib reply)
  unfolding get_spool_semp1_head fits find_desc metric_desc lookup new_sem_desc
  get_spool_semp1_head-AllFit reply = record { all_fit = refl }

  pub get_spool_semp1_tail-AllFit :
      (quota : String) (reply : SpoolReply F) → AllFit (get_spool_semp1_tail lib quota reply)
  unfolding get_spool_semp1_tail fits find_desc metric_desc lookup new_sem_desc
  get_spool_semp1_tail-AllFit quota reply =
      append-AllFit (with_float-AllFit _ (λ value. record { all_fit = refl })) (
        append-AllFit (with_float-AllFit _ (λ value. record { all_fit = refl })) (
          append-AllFit (with_float-AllFit _ (λ value. record { all_fit = refl })) (
            append-AllFit (with_float-AllFit _ (λ value. record { all_fit = refl })) (
              append-AllFit (with_float-AllFit _ (λ value. record { all_fit = refl })) (
                append-AllFit (with_float-AllFit _ (λ value. record { all_fit = refl })) (
                  cons-AllFit refl (
                    cons-AllFit refl (
                      cons-AllFit refl (
                        cons-AllFit refl (
                          cons-AllFit refl (
                            cons-AllFit refl (
                              cons-AllFit refl (
                                cons-AllFit refl (
                                  cons-AllFit refl (
                                    cons-AllFit refl (
                                      cons-AllFit refl (
                                        cons-AllFit refl (
                                          cons-AllFit refl (
                                            cons-AllFit refl (
                                              cons-AllFit refl (
                                                cons-AllFit refl (
                                                  cons-AllFit refl (
                                                    cons-AllFit refl (
                                                      cons-AllFit refl (
                                                        cons-AllFit refl (
                                                          cons-AllFit refl (
                                                            cons-AllFit refl (
                                                            cons-AllFit refl (
                                                            cons-AllFit refl (
                                                            cons-AllFit refl (
                                                            cons-AllFit refl (
                                                            cons-AllFit refl (
                                                            cons-AllFit refl (
                                                            cons-AllFit refl (
                                                            each_samples-AllFit _
                                                            get_spool_semp1_disk_info_samples-AllFit)))))))))))))))))))))))))))))))))))
