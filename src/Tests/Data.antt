-- ===== src/Tests/Data.antt =====
-- The data of the tests: two brokers' worth of metrics, and a broker that answers from memory.
use solace_prometheus_export.Prelude.{
  ℕ, ◌+◌, ◌*◌, ◌/◌, String, false, none, some, List, [], ◌∷◌, eqb, ltb, if◌then◌else◌,
}
use solace_prometheus_export.Prelude.Int.{pos, negsuc, pos_part}
use solace_prometheus_export.Prelude.Result.{Result, ok}
use solace_prometheus_export.Metric.{Desc, PrometheusMetric, ValueType}
use solace_prometheus_export.Metric.Run.{Run, pure}
use solace_prometheus_export.Fetcher.{AsyncFetcher}
use solace_prometheus_export.Semp.{Http, Semp, Status, Target}
use solace_prometheus_export.Semp.GoLib.{GoLib}
use solace_prometheus_export.Semp.Getters.Queues.{QueueStat}
use solace_prometheus_export.DataSource.{DataSource}
use solace_prometheus_export.Collector.Dispatch.{CollectConfig, Scrapes}

abbrev pub queue_depth : Desc
queue_depth = record {
  fq_name = "solace_queue_depth";
  semp_v2_field = "depth";
  help = "";
  variable_labels = "vpn_name" ∷ "queue_name" ∷ [];
}

abbrev pub depth : String → ℕ → PrometheusMetric ℕ
depth queue n = record {
  desc = queue_depth;
  value_type = ValueType.gauge;
  value = n;
  label_values = "default" ∷ queue ∷ [];
  deprecated = false;
}

-- A scrape that sends the queue `a` twice.
abbrev pub stream : List (PrometheusMetric ℕ)
stream = depth "a" 1 ∷ depth "b" 2 ∷ depth "a" 3 ∷ []

-- A fetcher that still holds a queue that is gone.
abbrev pub old : AsyncFetcher ℕ
old = record { metrics = ("gone", depth "gone" 7) ∷ [] }

abbrev pub lib : GoLib ℕ
lib = record {
  of_ℤ = pos_part;
  add = λ a b. a + b;
  mul = λ a b. a * b;
  div = λ a b. a / b;
  round = λ a. a;
  less = ltb;
  parse_float = λ s. (0, none);
  itoa = λ n. "0";
  sprintf = λ format n. format;
  sprintf_03v = λ s. s;
}

abbrev pub up : Run ℕ Status
up = pure (pos 1, none)

-- Scrapes that all succeed, but for the queues, where the broker cannot be reached.
abbrev pub scrapes : Scrapes ℕ
scrapes = record {
  get_version_semp1 = up;
  get_health_semp1 = up;
  get_storage_element_semp1 = λ _. up;
  get_disk_semp1 = up;
  get_raid_semp1 = up;
  get_memory_semp1 = up;
  get_interface_semp1 = λ _. up;
  get_interface_hw_semp1 = λ _. up;
  get_global_stats_semp1 = up;
  get_global_system_info_semp1 = up;
  get_spool_semp1 = up;
  get_spool_stats_semp1 = up;
  get_redundancy_semp1 = up;
  get_alarm_semp1 = up;
  get_environment_semp1 = up;
  get_hardware_semp1 = up;
  get_clock_detail_semp1 = up;
  get_replication_stats_semp1 = up;
  get_config_sync_router_semp1 = up;
  get_config_sync_semp1 = up;
  get_vpn_semp1 = λ _ _. up;
  get_vpn_replication_semp1 = λ _. up;
  get_config_sync_vpn_semp1 = λ _ _. up;
  get_bridge_semp1 = λ _ _ _. up;
  get_bridge_remote_semp1 = λ _ _. up;
  get_bridge_detail_semp1 = λ _ _ _. up;
  get_bridge_client_cert_semp1 = λ _ _ _. up;
  get_vpn_spool_semp1 = λ _ _. up;
  get_client_semp1 = λ _ _. up;
  get_client_profile_semp1 = λ _. up;
  get_client_slow_subscriber_semp1 = λ _ _. up;
  get_client_stats_semp1 = λ _ _. up;
  get_client_connection_stats_semp1 = λ _. up;
  get_client_message_spool_stats_semp1 = λ _ _. up;
  get_client_message_spool_egress_semp1 = λ _. up;
  get_cluster_links_semp1 = λ _ _. up;
  get_vpn_stats_semp1 = λ _ _. up;
  get_bridge_stats_semp1 = λ _ _ _. up;
  get_queue_rates_semp1 = λ _ _ _. up;
  get_queue_stats_semp1 = λ _ _ _. pure (negsuc 0, some "no route to host");
  get_queue_stats_semp2 = λ _ _ _. up;
  get_queue_details_semp1 = λ _ _ _. up;
  get_topic_endpoint_rates_semp1 = λ _ _ _. up;
  get_topic_endpoint_stats_semp1 = λ _ _ _. up;
  get_topic_endpoint_details_semp1 = λ _ _ _. up;
  get_rest_consumer_stats_semp1 = λ _ _ _. up;
  get_rdp_stats_semp1 = λ _ _ _. up;
  get_rdp_info_semp1 = λ _ _. up;
  get_mqtt_session_semp1 = λ _ _ _. up;
}

abbrev pub software : CollectConfig
software = record { is_hw_broker = false; semp_page_size = pos 100; default_vpn = "default" }

abbrev pub target : String → DataSource
target name = record { name = name; vpn_filter = "*"; item_filter = "*"; metric_filter = [] }

abbrev pub queue_stat : String → QueueStat ℕ
queue_stat name = record {
  queue_name = name;
  msg_vpn_name = "default";
  total_byte_spooled = 1;
  total_msg_spooled = 2;
  msg_redelivered = 3;
  msg_retransmit = 4;
  spool_usage_exceeded = 5;
  msg_size_exceeded = 6;
  spool_shutdown_discard = 7;
  destination_group_error = 8;
  low_prio_msg_discard = 9;
  deleted = 10;
  ttl_discarded = 11;
  ttl_dmq = 12;
  ttl_dmq_failed = 13;
  max_redelivery_discarded = 14;
  max_redelivery_dmq = 15;
  max_redelivery_dmq_failed = 16;
}

-- Two pages that share the queue `b`.
abbrev pub pages : List (List (QueueStat ℕ))
pages = (queue_stat "a" ∷ queue_stat "b" ∷ []) ∷ (queue_stat "b" ∷ queue_stat "c" ∷ []) ∷ []

abbrev pub page_of : ℕ → List (QueueStat ℕ) → String → Target (List (QueueStat ℕ))
page_of n items cookie = record {
  payload = items;
  more_cookie = cookie;
  execute_result = record { result = "ok"; reason = "" };
}

-- The body of a reply is the number of its page.
abbrev pub http : Http ℕ
http = record {
  new_request =
      λ method uri body. ok (record { method = method; uri = uri; headers = []; body = body });
  do_request = λ page r. ok (record { status_code = 200; body = page });
  status_error = λ n. "refused";
  read_all = λ n. ok "";
}

abbrev pub decode : ℕ → Result String (Target (List (QueueStat ℕ)))
decode page =
    if eqb page 1
    then ok (page_of 1 (queue_stat "a" ∷ queue_stat "b" ∷ []) "<rpc>more</rpc>")
    else ok (page_of 2 (queue_stat "b" ∷ queue_stat "c" ∷ []) "")

abbrev pub semp : Semp
semp = record {
  http_request_visitor = none;
  broker_uri = "https://broker:943";
  log_broker_to_slow_warnings = false;
  is_hw_broker = false;
}
