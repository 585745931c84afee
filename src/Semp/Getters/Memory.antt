-- ===== src/Semp/Getters/Memory.antt =====
-- The scrapes of the memory and the hardware interfaces: getMemorySemp1.go, getInterfaceHWSemp1.go of internal/semp.
use solace_prometheus_export.Prelude.{String, List, [], ◌∷◌, not, ◌==◌, if◌then◌else◌, length}
use Prim.Native.String.{◌++◌ as ◌<>◌}
use solace_prometheus_export.Text.{is_empty}
use solace_prometheus_export.Prelude.Int.{pos}
use solace_prometheus_export.Prelude.Result.{Result}
use solace_prometheus_export.Metric.{counter, gauge}
use solace_prometheus_export.Metric.Encode.{encode_metric_multi}
use solace_prometheus_export.Metric.Run.{Run}
use solace_prometheus_export.Semp.{Http, Semp, Target, Status, execute_ok, scrape_once}
use solace_prometheus_export.Semp.Samples.{Sample, sample, send_all}
use solace_prometheus_export.Semp.Blocks.{◌<+>◌, branch, with_first, each_samples, is_nil}
use solace_prometheus_export.Semp.GoLib.{GoLib}

-- The fields of one item, the nested structs written flat.
pub record MemoryMemoryInfo (F : Type 0) : Type 0 where
  pub memory_type : String
  pub total_in_kb : F
  pub used_in_kb : F
  pub free_in_kb : F
  pub buffers_in_kb : F
  pub cached_in_kb : F

-- The fields of one item, the nested structs written flat.
pub record MemorySlotInfo (F : Type 0) : Type 0 where
  pub slot : String
  pub nab_buf_load_factor : F

-- The fields of the reply, the nested structs written flat.
pub record MemoryReply (F : Type 0) : Type 0 where
  pub memory_info : List (MemoryMemoryInfo F)
  pub physical_usage_percent : F
  pub subscription_usage_percent : F
  pub slot_info : List (MemorySlotInfo F)

module _ {F : Type 0} (lib : GoLib F) where
  unfoldable pub get_memory_semp1_memory_info_samples : MemoryMemoryInfo F → List (Sample F)
  get_memory_semp1_memory_info_samples memory_info =
      let labels = memory_info.memory_type ∷ [] in
      sample "Memory" "system_memory_physical_total_kb" gauge memory_info.total_in_kb labels
      ∷ sample "Memory" "system_memory_physical_used_kb" gauge memory_info.used_in_kb labels
      ∷ sample "Memory" "system_memory_physical_free_kb" gauge memory_info.free_in_kb labels
      ∷ (branch (memory_info.memory_type == "Memory")
          (sample "Memory" "system_memory_physical_buffers_kb" gauge memory_info.buffers_in_kb
              labels
            ∷ sample "Memory" "system_memory_physical_cached_kb" gauge memory_info.cached_in_kb
                labels
            ∷ [])
          [])

  unfoldable pub get_memory_semp1_samples : MemoryReply F → List (Sample F)
  get_memory_semp1_samples reply =
      (each_samples get_memory_semp1_memory_info_samples reply.memory_info)
      <+> (sample "Memory" "system_memory_physical_usage_percent" gauge reply.physical_usage_percent
            []
          ∷ sample "Memory" "system_memory_subscription_usage_percent" gauge
              reply.subscription_usage_percent []
          ∷ (with_first reply.slot_info (λ first.
              (sample "Memory" "system_nab_buffer_load_factor" gauge first.nab_buf_load_factor []
                ∷ []))))

  unfoldable pub get_memory_semp1 :
      {Body : Type 0} (http : Http Body) (decode : Body → Result String (Target (MemoryReply F)))
      (semp : Semp)
      → Run F Status
  get_memory_semp1 http decode semp =
      scrape_once http decode execute_ok semp ("<rpc><show><memory/></show></rpc>")
        (λ reply. send_all (get_memory_semp1_samples reply))

-- The fields of one item, the nested structs written flat.
pub record InterfaceHwInterface (F : Type 0) : Type 0 where
  pub name : String
  pub enabled : String
  pub state : String
  pub rx_packets : F
  pub rx_bytes : F
  pub tx_packets : F
  pub tx_bytes : F
  pub configured_members_member : List (Unit {0})
  pub available_members_member : List (Unit {0})
  pub operational_members_member : List (Unit {0})
  pub link_detected : String

-- The fields of the reply, the nested structs written flat.
pub record InterfaceHwReply (F : Type 0) : Type 0 where
  pub interface : List (InterfaceHwInterface F)

module _ {F : Type 0} (lib : GoLib F) where
  unfoldable pub get_interface_hw_semp1_intf_samples : InterfaceHwInterface F → List (Sample F)
  get_interface_hw_semp1_intf_samples intf =
      let labels = intf.name ∷ [] in
      sample "InterfaceHW" "network_ifhw_rx_bytes" counter intf.rx_bytes labels
      ∷ sample "InterfaceHW" "network_ifhw_tx_bytes" counter intf.tx_bytes labels
      ∷ sample "InterfaceHW" "network_ifhw_rx_packets" counter intf.rx_packets labels
      ∷ sample "InterfaceHW" "network_ifhw_tx_packets" counter intf.tx_packets labels
      ∷ sample "InterfaceHW" "network_ifhw_state" gauge
          (lib.of_ℤ (encode_metric_multi intf.state ("Down" ∷ "Up" ∷ []))) labels
      ∷ sample "InterfaceHW" "network_ifhw_enabled" gauge
          (lib.of_ℤ (encode_metric_multi intf.enabled ("No" ∷ "Yes" ∷ []))) labels
      ∷ (branch (not (is_nil intf.configured_members_member))
          (sample "InterfaceHW" "network_lag_configured_members" gauge
              (lib.of_ℤ (pos (length intf.configured_members_member))) labels
            ∷ sample "InterfaceHW" "network_lag_available_members" gauge
                (lib.of_ℤ (pos (length intf.available_members_member))) labels
            ∷ sample "InterfaceHW" "network_lag_operational_members" gauge
                (lib.of_ℤ (pos (length intf.operational_members_member))) labels
            ∷ [])
          (branch (not (is_empty intf.link_detected))
            (sample "InterfaceHW" "network_ifhw_link_detected" gauge
                (lib.of_ℤ (encode_metric_multi intf.link_detected ("No" ∷ "Yes" ∷ []))) labels
              ∷ [])
            []))

  unfoldable pub get_interface_hw_semp1_samples : InterfaceHwReply F → List (Sample F)
  get_interface_hw_semp1_samples reply =
      each_samples get_interface_hw_semp1_intf_samples reply.interface

  unfoldable pub get_interface_hw_semp1 :
      {Body : Type 0} (http : Http Body)
      (decode : Body → Result String (Target (InterfaceHwReply F))) (semp : Semp)
      → String
      → Run F Status
  get_interface_hw_semp1 http decode semp interface_filter =
      scrape_once http decode execute_ok semp
        ((if not (interface_filter == "*")
            then "<rpc><show><interface>"
              <> (("<phy-interface>" <> interface_filter) <> "</phy-interface>")
            else "<rpc><show><interface>")
          <> "</interface></show></rpc>")
        (λ reply. send_all (get_interface_hw_semp1_samples reply))
