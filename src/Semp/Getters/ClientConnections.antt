-- ===== src/Semp/Getters/ClientConnections.antt =====
-- The scrapes of the connections of clients: getClientStatsSemp1.go of internal/semp.
use solace_prometheus_export.Prelude.{String, Bool, List, [], ◌∷◌}
use Prim.Native.String.{◌++◌ as ◌<>◌}
use solace_prometheus_export.Text.{is_empty}
use solace_prometheus_export.Prelude.Result.{Result}
use solace_prometheus_export.Metric.{counter, gauge}
use solace_prometheus_export.Metric.Encode.{encode_metric_bool}
use solace_prometheus_export.Metric.Run.{Run}
use solace_prometheus_export.Semp.{Http, Semp, Target, Status, execute_ok, scrape_once}
use solace_prometheus_export.Semp.Samples.{Sample, sample, send_all}
use solace_prometheus_export.Semp.Blocks.{branch, each_samples}
use solace_prometheus_export.Semp.GoLib.{GoLib}

-- The fields of one item, the nested structs written flat.
pub record ClientConnectionClient (F : Type 0) : Type 0 where
  pub client_name : String
  pub msg_vpn_name : String
  pub protocol : String
  pub is_zip : Bool
  pub is_ssl : Bool
  pub receive_queue_bytes : F
  pub receive_queue_segments : F
  pub send_queue_bytes : F
  pub send_queue_segments : F
  pub local_address : String
  pub foreign_address : String
  pub state : String
  pub maximum_segment_size : F
  pub bytes_sent : F
  pub bytes_received : F
  pub retransmit_time_ms : F
  pub round_trip_time_smooth_us : F
  pub round_trip_time_smooth_ns : F
  pub round_trip_time_minimum_us : F
  pub round_trip_time_variance_us : F
  pub advertised_window_size : F
  pub transmit_window_size : F
  pub bandwidth_window_size : F
  pub congestion_window_size : F
  pub slow_start_threshold_size : F
  pub segments_received_out_of_order : F
  pub fast_retransmits : F
  pub timed_retransmits : F
  pub connection_uptime : F
  pub blocked_cycles_percent : F
  pub interface : String

-- The fields of the reply, the nested structs written flat.
pub record ClientConnectionReply (F : Type 0) : Type 0 where
  pub client : List (ClientConnectionClient F)

module _ {F : Type 0} (lib : GoLib F) where
  unfoldable pub get_client_connection_stats_semp1_client_samples :
      ClientConnectionClient F → List (Sample F)
  get_client_connection_stats_semp1_client_samples client =
      let labels = client.msg_vpn_name ∷ client.client_name ∷ [] in
      branch (is_empty client.msg_vpn_name) [] (
        sample "ClientConnections" "connection_is_zip" gauge
          (lib.of_ℤ (encode_metric_bool client.is_zip)) labels
        ∷ sample "ClientConnections" "connection_is_ssl" gauge
            (lib.of_ℤ (encode_metric_bool client.is_ssl)) labels
        ∷ sample "ClientConnections" "connection_receive_queue_bytes" gauge
            client.receive_queue_bytes labels
        ∷ sample "ClientConnections" "connection_send_queue_bytes" gauge
            client.receive_queue_segments labels
        ∷ sample "ClientConnections" "connection_receive_queue_segments" gauge
            client.send_queue_bytes labels
        ∷ sample "ClientConnections" "connection_send_queue_segments" gauge
            client.send_queue_segments labels
        ∷ sample "ClientConnections" "connection_maximum_segment_size" gauge
            client.maximum_segment_size labels
        ∷ sample "ClientConnections" "connection_sent_bytes" counter client.bytes_sent labels
        ∷ sample "ClientConnections" "connection_received_bytes" counter client.bytes_received
            labels
        ∷ sample "ClientConnections" "connection_retransmit_milliseconds" gauge
            client.retransmit_time_ms labels
        ∷ sample "ClientConnections" "connection_roundtrip_smth_microseconds" gauge
            client.round_trip_time_smooth_us labels
        ∷ sample "ClientConnections" "connection_roundtrip_min_microseconds" gauge
            client.round_trip_time_minimum_us labels
        ∷ sample "ClientConnections" "connection_roundtrip_var_microseconds" gauge
            client.round_trip_time_variance_us labels
        ∷ sample "ClientConnections" "connection_advertised_window" gauge
            client.advertised_window_size labels
        ∷ sample "ClientConnections" "connection_transmit_window" gauge client.transmit_window_size
            labels
        ∷ sample "ClientConnections" "connection_congestion_window" gauge
            client.congestion_window_size labels
        ∷ sample "ClientConnections" "connection_slow_start_threshold" gauge
            client.slow_start_threshold_size labels
        ∷ sample "ClientConnections" "connection_received_outoforder" counter
            client.segments_received_out_of_order labels
        ∷ sample "ClientConnections" "connection_fast_retransmit" counter client.fast_retransmits
            labels
        ∷ sample "ClientConnections" "connection_timed_retransmit" counter client.timed_retransmits
            labels
        ∷ [])

  unfoldable pub get_client_connection_stats_semp1_samples :
      ClientConnectionReply F → List (Sample F)
  get_client_connection_stats_semp1_samples reply =
      each_samples get_client_connection_stats_semp1_client_samples reply.client

  unfoldable pub get_client_connection_stats_semp1 :
      {Body : Type 0} (http : Http Body)
      (decode : Body → Result String (Target (ClientConnectionReply F))) (semp : Semp)
      → String
      → Run F Status
  get_client_connection_stats_semp1 http decode semp item_filter =
      scrape_once http decode execute_ok semp
        (("<rpc><show><client><name>" <> item_filter)
          <> "</name><connections/></client></show></rpc>")
        (λ reply. send_all (get_client_connection_stats_semp1_samples reply))
