-- ===== src/Semp/Getters/Clients.antt =====
-- The scrapes of the clients: getClientSemp1.go, getClientSlowSubscriberSemp1.go, getClientStatsSemp1.go, getClientProfileSemp1.go of internal/semp.
use solace_prometheus_export.Prelude.{ℕ, String, Bool, List, [], ◌∷◌}
use Prim.Native.String.{◌++◌ as ◌<>◌}
use solace_prometheus_export.Prelude.Int.{ℤ, pos}
use solace_prometheus_export.Prelude.Result.{Result}
use solace_prometheus_export.Metric.{counter, gauge}
use solace_prometheus_export.Metric.Encode.{encode_metric_bool}
use solace_prometheus_export.Metric.Run.{Run}
use solace_prometheus_export.Semp.{
  Http, Semp, Target, Status, execute_ok, scrape_once, scrape_pages,
}
use solace_prometheus_export.Semp.Samples.{Sample, sample, send_all}
use solace_prometheus_export.Semp.Distinct.{keyed_items, each}
use solace_prometheus_export.Semp.GoLib.{GoLib, before_colon}

-- The fields of one item, the nested structs written flat.
pub record Client (F : Type 0) : Type 0 where
  pub client_address : String
  pub client_name : String
  pub msg_vpn_name : String
  pub num_subscriptions : F

module _ {F : Type 0} (lib : GoLib F) where
  unfoldable pub get_client_semp1_samples : Client F → List (Sample F)
  get_client_semp1_samples client =
      sample "Client" "client_num_subscriptions" gauge client.num_subscriptions
        (client.msg_vpn_name ∷ client.client_name ∷ (before_colon client.client_address) ∷ [])
      ∷ []

  unfoldable pub get_client_semp1 :
      {Body : Type 0} (http : Http Body) (decode : Body → Result String (Target (List (Client F))))
      (semp : Semp) (fuel : ℕ)
      → String
      → String
      → Run F Status
  get_client_semp1 http decode semp fuel vpn_filter item_filter =
      scrape_pages http decode execute_ok semp
        (λ (s : Unit {0}) items. each (λ client. send_all (get_client_semp1_samples client)) items)
        fuel 1 tt
        ("<rpc><show><client><name>"
          <> (item_filter
              <> ("</name><vpn-name>"
                  <> (vpn_filter <> "</vpn-name><connected/></client></show></rpc>"))))

-- The fields of one item, the nested structs written flat.
pub record SlowSubscriber (F : Type 0) : Type 0 where
  pub client_address : String
  pub client_profile : String
  pub client_name : String
  pub msg_vpn_name : String

module _ {F : Type 0} (lib : GoLib F) where
  unfoldable pub get_client_slow_subscriber_semp1_samples : SlowSubscriber F → List (Sample F)
  get_client_slow_subscriber_semp1_samples client =
      sample "ClientSlowSubscriber" "client_slow_subscriber" gauge (lib.of_ℤ (pos 1))
        (client.msg_vpn_name ∷ client.client_name ∷ (before_colon client.client_address) ∷ "" ∷ [])
      ∷ []

  unfoldable pub get_client_slow_subscriber_semp1 :
      {Body : Type 0} (http : Http Body)
      (decode : Body → Result String (Target (List (SlowSubscriber F)))) (semp : Semp) (fuel : ℕ)
      → String
      → String
      → Run F Status
  get_client_slow_subscriber_semp1 http decode semp fuel vpn_filter item_filter =
      scrape_pages http decode execute_ok semp
        (λ (s : Unit {0}) items.
          each (λ client. send_all (get_client_slow_subscriber_semp1_samples client)) items)
        fuel 1 tt
        ("<rpc><show><client><name>"
          <> (item_filter
              <> ("</name><vpn-name>"
                  <> (vpn_filter <> "</vpn-name><slow-subscriber/></client></show></rpc>"))))

-- The fields of one item, the nested structs written flat.
pub record ClientStat (F : Type 0) : Type 0 where
  pub client_name : String
  pub client_username : String
  pub msg_vpn_name : String
  pub slow_subscriber : Bool
  pub data_rx_byte_count : F
  pub data_rx_msg_count : F
  pub data_tx_byte_count : F
  pub data_tx_msg_count : F
  pub average_rx_byte_rate : F
  pub average_rx_msg_rate : F
  pub average_tx_byte_rate : F
  pub average_tx_msg_rate : F
  pub rx_byte_rate : F
  pub rx_msg_rate : F
  pub tx_byte_rate : F
  pub tx_msg_rate : F
  pub discarded_rx_msg_count : F
  pub discarded_tx_msg_count : F

unfoldable pub get_client_stats_semp1_key : {F : Type 0} → ClientStat F → String
get_client_stats_semp1_key client = client.msg_vpn_name <> ("___" <> client.client_name)

module _ {F : Type 0} (lib : GoLib F) where
  unfoldable pub get_client_stats_semp1_samples : ClientStat F → List (Sample F)
  get_client_stats_semp1_samples client =
      let labels = client.msg_vpn_name ∷ client.client_name ∷ client.client_username ∷ [] in
      sample "ClientStats" "client_rx_msgs_total" counter client.data_rx_msg_count labels
      ∷ sample "ClientStats" "client_tx_msgs_total" counter client.data_tx_msg_count labels
      ∷ sample "ClientStats" "client_rx_bytes_total" counter client.data_rx_byte_count labels
      ∷ sample "ClientStats" "client_tx_bytes_total" counter client.data_tx_byte_count labels
      ∷ sample "ClientStats" "client_rx_discarded_msgs_total" counter client.discarded_rx_msg_count
          labels
      ∷ sample "ClientStats" "client_tx_discarded_msgs_total" counter client.discarded_tx_msg_count
          labels
      ∷ sample "ClientStats" "client_slow_subscriber" gauge
          (lib.of_ℤ (encode_metric_bool client.slow_subscriber))
          (client.msg_vpn_name ∷ client.client_name ∷ "" ∷ client.client_username ∷ [])
      ∷ []

  unfoldable pub get_client_stats_semp1 :
      {Body : Type 0} (http : Http Body)
      (decode : Body → Result String (Target (List (ClientStat F)))) (semp : Semp) (fuel : ℕ)
      → String
      → ℤ
      → Run F Status
  get_client_stats_semp1 http decode semp fuel item_filter page_size =
      scrape_pages http decode execute_ok semp
        (keyed_items get_client_stats_semp1_key
          (λ client. send_all (get_client_stats_semp1_samples client)))
        fuel 1 ""
        (lib.sprintf
          ("<rpc><show><client><name>"
            <> (item_filter
                <> "</name><stats/><count/><num-elements>%d</num-elements></client></show></rpc>"))
          page_size)

-- The fields of one item, the nested structs written flat.
pub record ClientProfile (F : Type 0) : Type 0 where
  pub name : String
  pub msg_vpn_name : String
  pub num_users : F
  pub max_connections_per_client_username : F
  pub max_endpoints_per_client_username : F
  pub max_egress_flows : F
  pub max_ingress_flows : F
  pub max_transacted_sessions : F
  pub max_subscriptions : F

module _ {F : Type 0} (lib : GoLib F) where
  unfoldable pub get_client_profile_semp1_samples : ClientProfile F → List (Sample F)
  get_client_profile_semp1_samples client_profile =
      let labels = client_profile.msg_vpn_name ∷ client_profile.name ∷ [] in
      sample "ClientProfile" "clientprofile_max_connections_per_username" gauge
        client_profile.max_connections_per_client_username labels
      ∷ sample "ClientProfile" "clientprofile_max_endpoints_per_username" gauge
          client_profile.max_endpoints_per_client_username labels
      ∷ sample "ClientProfile" "clientprofile_max_egress_flows" gauge
          client_profile.max_egress_flows labels
      ∷ sample "ClientProfile" "clientprofile_max_ingress_flows" gauge
          client_profile.max_ingress_flows labels
      ∷ sample "ClientProfile" "clientprofile_max_transacted_sessions_per_client" gauge
          client_profile.max_transacted_sessions labels
      ∷ sample "ClientProfile" "clientprofile_max_subscriptions" gauge
          client_profile.max_subscriptions labels
      ∷ sample "ClientProfile" "clientprofile_num_users" gauge client_profile.num_users labels
      ∷ []

  unfoldable pub get_client_profile_semp1 :
      {Body : Type 0} (http : Http Body)
      (decode : Body → Result String (Target (List (ClientProfile F)))) (semp : Semp)
      → String
      → Run F Status
  get_client_profile_semp1 http decode semp vpn_filter =
      scrape_once http decode execute_ok semp
        ("<rpc><show><client-profile><name>*</name><vpn-name>"
          <> (vpn_filter <> "</vpn-name><detail/></client-profile></show></rpc>"))
        (λ items.
          each (λ client_profile. send_all (get_client_profile_semp1_samples client_profile)) items)
