-- ===== src/Semp/Getters/Rest.antt =====
-- The scrapes of the REST consumers, the REST delivery points and the MQTT sessions: getRestConsumerStatsSemp1.go, getRdpStatsSemp1.go, getRdpInfoSemp1.go, getMqttSessionSemp1.go of internal/semp.
use solace_prometheus_export.Prelude.{ℕ, String, Bool, List, [], ◌∷◌}
use Prim.Native.String.{◌++◌ as ◌<>◌}
use solace_prometheus_export.Prelude.Int.{ℤ, pos}
use solace_prometheus_export.Prelude.Result.{Result}
use solace_prometheus_export.Metric.{counter, gauge}
use solace_prometheus_export.Metric.Encode.{encode_metric_bool}
use solace_prometheus_export.Metric.Run.{Run, ◌>>◌}
use solace_prometheus_export.Semp.{Http, Semp, Target, Status, execute_ok, scrape_pages}
use solace_prometheus_export.Semp.Samples.{Sample, sample, send_all}
use solace_prometheus_export.Semp.Distinct.{distinct_items, keyed_items}
use solace_prometheus_export.Semp.GoLib.{GoLib}

-- The fields of one item, the nested structs written flat.
pub record RestConsumerStat (F : Type 0) : Type 0 where
  pub rest_consumer_name : String
  pub rdp_name : String
  pub msg_vpn_name : String
  pub req_msg_sent : F
  pub req_msg_sent_outstanding : F
  pub req_msg_sent_connection_closed : F
  pub req_msg_sent_timed_out : F
  pub resp_msg_received : F
  pub resp_msg_received_successful : F
  pub resp_msg_received_error : F
  pub req_bytes_sent : F
  pub resp_byes_received : F

unfoldable pub get_rest_consumer_stats_semp1_key : {F : Type 0} → RestConsumerStat F → String
get_rest_consumer_stats_semp1_key consumer_stats =
    consumer_stats.msg_vpn_name
    <> ("___" <> (consumer_stats.rdp_name <> ("___" <> consumer_stats.rest_consumer_name)))

module _ {F : Type 0} (lib : GoLib F) where
  unfoldable pub get_rest_consumer_stats_semp1_samples : RestConsumerStat F → List (Sample F)
  get_rest_consumer_stats_semp1_samples consumer_stats =
      let labels =
        consumer_stats.msg_vpn_name ∷ consumer_stats.rdp_name ∷ consumer_stats.rest_consumer_name
        ∷ [] in
      sample "RestConsumerStats" "http_post_request_bytes_sent" counter
        consumer_stats.req_bytes_sent labels
      ∷ sample "RestConsumerStats" "http_post_request_messages_sent" counter
          consumer_stats.req_msg_sent labels
      ∷ sample "RestConsumerStats" "http_post_request_messages_sent_connection_closed" counter
          consumer_stats.req_msg_sent_connection_closed labels
      ∷ sample "RestConsumerStats" "http_post_request_messages_sent_outstanding" gauge
          consumer_stats.req_msg_sent_outstanding labels
      ∷ sample "RestConsumerStats" "http_post_request_messages_sent_timed_out" counter
          consumer_stats.req_msg_sent_timed_out labels
      ∷ sample "RestConsumerStats" "http_post_response_bytes_received" counter
          consumer_stats.resp_byes_received labels
      ∷ sample "RestConsumerStats" "http_post_response_messages_received" counter
          consumer_stats.resp_msg_received labels
      ∷ sample "RestConsumerStats" "http_post_response_messages_received_error" counter
          consumer_stats.resp_msg_received_error labels
      ∷ sample "RestConsumerStats" "http_post_response_messages_received_successful" counter
          consumer_stats.resp_msg_received_successful labels
      ∷ []

  unfoldable pub get_rest_consumer_stats_semp1 :
      {Body : Type 0} (http : Http Body)
      (decode : Body → Result String (Target (List (RestConsumerStat F)))) (semp : Semp) (fuel : ℕ)
      → String
      → String
      → ℤ
      → Run F Status
  get_rest_consumer_stats_semp1 http decode semp fuel vpn_filter item_filter page_size =
      scrape_pages http decode execute_ok semp
        (distinct_items get_rest_consumer_stats_semp1_key
          (λ consumer_stats. send_all (get_rest_consumer_stats_semp1_samples consumer_stats)))
        fuel 1 ""
        (lib.sprintf
          ("<rpc><show><message-vpn><vpn-name>"
            <> (vpn_filter
                <> ("</vpn-name><rest></rest><rest-consumer></rest-consumer><rest-consumer-name>"
                    <> (item_filter
                        <> "</rest-consumer-name><stats></stats><count/><num-elements>%d</num-elements></message-vpn></show></rpc>"))))
          page_size)

-- The fields of one item, the nested structs written flat.
pub record RdpStat (F : Type 0) : Type 0 where
  pub rdp_name : String
  pub msg_vpn_name : String
  pub req_msg_sent : F
  pub req_msg_sent_outstanding : F
  pub req_msg_sent_connection_closed : F
  pub req_msg_sent_timed_out : F
  pub resp_msg_received : F
  pub resp_msg_received_successful : F
  pub resp_msg_received_error : F
  pub req_bytes_sent : F
  pub resp_byes_received : F

unfoldable pub get_rdp_stats_semp1_key : {F : Type 0} → RdpStat F → String
get_rdp_stats_semp1_key rdp = rdp.msg_vpn_name <> ("___" <> rdp.rdp_name)

module _ {F : Type 0} (lib : GoLib F) where
  unfoldable pub get_rdp_stats_semp1_samples : RdpStat F → List (Sample F)
  get_rdp_stats_semp1_samples rdp =
      let labels = rdp.msg_vpn_name ∷ rdp.rdp_name ∷ [] in
      sample "RdpStats" "http_post_request_bytes_sent" counter rdp.req_bytes_sent labels
      ∷ sample "RdpStats" "http_post_request_messages_sent" counter rdp.req_msg_sent labels
      ∷ sample "RdpStats" "http_post_request_messages_sent_connection_closed" counter
          rdp.req_msg_sent_connection_closed labels
      ∷ sample "RdpStats" "http_post_request_messages_sent_outstanding" gauge
          rdp.req_msg_sent_outstanding labels
      ∷ sample "RdpStats" "http_post_request_messages_sent_timed_out" counter
          rdp.req_msg_sent_timed_out labels
      ∷ sample "RdpStats" "http_post_response_bytes_received" counter rdp.resp_byes_received labels
      ∷ sample "RdpStats" "http_post_response_messages_received" counter rdp.resp_msg_received
          labels
      ∷ sample "RdpStats" "http_post_response_messages_received_error" counter
          rdp.resp_msg_received_error labels
      ∷ sample "RdpStats" "http_post_response_messages_received_successful" counter
          rdp.resp_msg_received_successful labels
      ∷ []

  unfoldable pub get_rdp_stats_semp1 :
      {Body : Type 0} (http : Http Body) (decode : Body → Result String (Target (List (RdpStat F))))
      (semp : Semp) (fuel : ℕ)
      → String
      → String
      → ℤ
      → Run F Status
  get_rdp_stats_semp1 http decode semp fuel vpn_filter item_filter page_size =
      scrape_pages http decode execute_ok semp
        (distinct_items get_rdp_stats_semp1_key (λ rdp. send_all (get_rdp_stats_semp1_samples rdp)))
        fuel 1 ""
        (lib.sprintf
          ("<rpc><show><message-vpn><vpn-name>"
            <> (vpn_filter
                <> ("</vpn-name><rest></rest><rest-delivery-point></rest-delivery-point><rdp-name>"
                    <> (item_filter
                        <> "</rdp-name><stats/><count/><num-elements>%d</num-elements></message-vpn></show></rpc>"))))
          page_size)

-- The fields of one item, the nested structs written flat.
pub record RdpInfo (F : Type 0) : Type 0 where
  pub rdp_name : String
  pub msg_vpn_name : String
  pub enabled : Bool
  pub operating_status : Bool
  pub consumer_out_conn_up : F
  pub consumer_out_conn : F
  pub queue_bindings_up : F
  pub queue_bindings : F
  pub blocked_conns_perc : F

-- The fields of the reply, the nested structs written flat.
pub record RdpInfoReply (F : Type 0) : Type 0 where
  pub total_rdps_up : F
  pub total_rdps_configured : F
  pub total_r_cs_up : F
  pub total_r_cs_configured : F
  pub total_rc_out_conn_up : F
  pub total_rc_out_con_configured : F
  pub total_queue_bindings_up : F
  pub total_queue_bindings_configured : F
  pub rest_delivery_point : List (RdpInfo F)

unfoldable pub get_rdp_info_semp1_key : {F : Type 0} → RdpInfo F → String
get_rdp_info_semp1_key rdp = rdp.msg_vpn_name <> ("___" <> rdp.rdp_name)

module _ {F : Type 0} (lib : GoLib F) where
  unfoldable pub get_rdp_info_semp1_samples : RdpInfo F → List (Sample F)
  get_rdp_info_semp1_samples rdp =
      let labels = rdp.msg_vpn_name ∷ rdp.rdp_name ∷ [] in
      sample "RdpInfo" "enabled" gauge (lib.of_ℤ (encode_metric_bool rdp.enabled)) labels
      ∷ sample "RdpInfo" "operating_status" gauge
          (lib.of_ℤ (encode_metric_bool rdp.operating_status)) labels
      ∷ sample "RdpInfo" "consumer_out_connections_up" counter rdp.consumer_out_conn_up labels
      ∷ sample "RdpInfo" "consumer_out_connections_configured" counter rdp.consumer_out_conn labels
      ∷ sample "RdpInfo" "queue_bindings_up" counter rdp.queue_bindings_up labels
      ∷ sample "RdpInfo" "queue_bindings_configured" counter rdp.queue_bindings labels
      ∷ sample "RdpInfo" "blocked_conns_percent" counter rdp.blocked_conns_perc labels
      ∷ []

  unfoldable pub get_rdp_info_semp1_head : RdpInfoReply F → List (Sample F)
  get_rdp_info_semp1_head reply =
      sample "RdpTotals" "total_rest_delivery_points_up" counter reply.total_rdps_up []
      ∷ sample "RdpTotals" "total_rest_delivery_points_configured" counter
          reply.total_rdps_configured []
      ∷ sample "RdpTotals" "total_rest_consumers_up" counter reply.total_r_cs_up []
      ∷ sample "RdpTotals" "total_rest_consumers_configured" counter reply.total_r_cs_configured []
      ∷ sample "RdpTotals" "total_rest_consumer_outgoing_connections_up" counter
          reply.total_rc_out_conn_up []
      ∷ sample "RdpTotals" "total_rest_consumer_outgoing_connections_configured" counter
          reply.total_rc_out_con_configured []
      ∷ sample "RdpTotals" "total_queue_bindings_up" counter reply.total_queue_bindings_up []
      ∷ sample "RdpTotals" "total_queue_bindings_configured" counter
          reply.total_queue_bindings_configured []
      ∷ []

  unfoldable pub get_rdp_info_semp1 :
      {Body : Type 0} (http : Http Body) (decode : Body → Result String (Target (RdpInfoReply F)))
      (semp : Semp) (fuel : ℕ)
      → String
      → String
      → Run F Status
  get_rdp_info_semp1 http decode semp fuel vpn_filter item_filter =
      scrape_pages http decode execute_ok semp
        (λ last reply.
          send_all (get_rdp_info_semp1_head reply)
          >> keyed_items get_rdp_info_semp1_key (λ rdp. send_all (get_rdp_info_semp1_samples rdp))
              last reply.rest_delivery_point)
        fuel 1 ""
        ("<rpc><show><message-vpn><vpn-name>"
          <> (vpn_filter
              <> ("</vpn-name><rest></rest><rest-delivery-point></rest-delivery-point><rdp-name>"
                  <> (item_filter <> "</rdp-name></message-vpn></show></rpc>"))))

-- The fields of one item, the nested structs written flat.
pub record MqttSession (F : Type 0) : Type 0 where
  pub client_id : String
  pub owner : String
  pub msg_vpn_name : String
  pub num_subscriptions : F
  pub enabled : String
  pub clean : String
  pub durable : String
  pub days : F
  pub hours : F
  pub mins : F
  pub secs : F

unfoldable pub get_mqtt_session_semp1_key : {F : Type 0} → MqttSession F → String
get_mqtt_session_semp1_key session = session.msg_vpn_name <> ("___" <> session.client_id)

module _ {F : Type 0} (lib : GoLib F) where
  unfoldable pub get_mqtt_session_semp1_samples : MqttSession F → List (Sample F)
  get_mqtt_session_semp1_samples session =
      sample "MqttSession" "mqtt_session_info" gauge (lib.of_ℤ (pos 1)) (
        session.msg_vpn_name ∷ session.client_id ∷ session.owner ∷ session.clean ∷ session.durable
        ∷ session.enabled ∷ [])
      ∷ sample "MqttSession" "mqtt_session_subscriptions" gauge session.num_subscriptions
          (session.msg_vpn_name ∷ session.client_id ∷ session.owner ∷ [])
      ∷ sample "MqttSession" "mqtt_session_uptime_seconds" gauge
          (lib.add
            (lib.add
              (lib.add (lib.mul session.days (lib.of_ℤ (pos 86400)))
                (lib.mul session.hours (lib.of_ℤ (pos 3600))))
              (lib.mul session.mins (lib.of_ℤ (pos 60))))
            session.secs)
          (session.msg_vpn_name ∷ session.client_id ∷ session.owner ∷ [])
      ∷ []

  unfoldable pub get_mqtt_session_semp1 :
      {Body : Type 0} (http : Http Body)
      (decode : Body → Result String (Target (List (MqttSession F)))) (semp : Semp) (fuel : ℕ)
      → String
      → String
      → ℤ
      → Run F Status
  get_mqtt_session_semp1 http decode semp fuel vpn_filter item_filter page_size =
      scrape_pages http decode execute_ok semp
        (distinct_items get_mqtt_session_semp1_key
          (λ session. send_all (get_mqtt_session_semp1_samples session)))
        fuel 1 ""
        (lib.sprintf
          ("<rpc><show><message-vpn><vpn-name>"
            <> (vpn_filter
                <> ("</vpn-name><mqtt/><mqtt-session/><client-id-pattern>"
                    <> (item_filter
                        <> "</client-id-pattern><count/><num-elements>%d</num-elements></message-vpn></show></rpc>"))))
          page_size)
