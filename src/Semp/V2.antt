-- ===== src/Semp/V2.antt =====
-- The scrape of queue statistics over SEMP v2: getQueueStatsSemp2.go, and queryEscape of helper.go, of
-- internal/semp. The decoder of JSON and url.QueryEscape are parameters.
pub mod Selected
use solace_prometheus_export.Prelude.{
  ℕ, String, Bool, true, false, not, ◌&&◌, Option, none, some, List, [], ◌∷◌, ◌==◌, eqb,
  if◌then◌else◌,
}
use Prim.Native.String.{◌++◌ as ◌<>◌}
use solace_prometheus_export.Prelude.Int.{ℤ, pos, negsuc}
use solace_prometheus_export.Prelude.Result.{Result, ok, err, ◌>>=◌, wrap_err}
use solace_prometheus_export.Text.{is_empty, contains, trim_space, join}
use solace_prometheus_export.Metric.{Desc, counter}
use solace_prometheus_export.Metric.Run.{Run, pure}
use solace_prometheus_export.Metric.Select.{is_selected, get_semp_v2_fields_to_select}
use solace_prometheus_export.Metric.Table.{find_desc, queue_stats_descriptions}
use solace_prometheus_export.Semp.{Http, Semp, Target, Failure, Status, get_http_bytes, loop_pages}
use solace_prometheus_export.Semp.Samples.{Sample, sample, send_all}
use solace_prometheus_export.Semp.Distinct.{distinct_items}

-- One queue of `data`.
pub record QueueV2 (F : Type 0) : Type 0 where
  pub queue_name : String
  pub msg_vpn_name : String
  pub total_byte_spooled : F
  pub total_msg_spooled : F
  pub msg_redelivered : F
  pub msg_retransmit : F
  pub spool_usage_exceeded : F
  pub msg_size_exceeded : F
  pub spool_shutdown_discard : F
  pub destination_group_error : F
  pub low_prio_msg_discard : F
  pub deleted : F
  pub ttl_discarded : F
  pub ttl_dmq : F
  pub ttl_dmq_failed : F
  pub max_redelivery_discarded : F
  pub max_redelivery_dmq : F
  pub max_redelivery_dmq_failed : F
  pub tx_unacked_msg : F
  pub transaction_not_supported_discarded_msg : F

-- The reply: `data`, and of `meta` what the scrape reads.
pub record Response (F : Type 0) : Type 0 where
  pub queue : List (QueueV2 F)
  pub response_code : ℤ
  pub next_page_uri : String

module _ (escape : String → String) where
  -- A text that holds a percent sign is taken to be escaped already.
  unfoldable pub query_escape : String → String
  query_escape raw =
      if is_empty (trim_space raw) then raw else (if contains b'%' raw then raw else escape raw)

  unfoldable pub where_parameter : String → String
  where_parameter item_filter =
      let condition =
        if contains b'=' item_filter
        then query_escape item_filter
        else query_escape ("queueName==" <> item_filter) in
      if not (is_empty (trim_space item_filter)) && not (item_filter == "*")
      then "&where=" <> condition
      else ""

-- The fields to select, none of them without a filter.
unfoldable pub select_fields : List String → Result String (List String)
select_fields [] = ok []
select_fields (metric ∷ metric_filter) =
    get_semp_v2_fields_to_select (metric ∷ metric_filter) ("queueName" ∷ "msgVpnName" ∷ [])
      queue_stats_descriptions

unfoldable pub select_parameter : List String → List String → String
select_parameter [] fields = ""
select_parameter (metric ∷ metric_filter) fields = "&select=" <> join "," fields

unfoldable pub get_queue_stats_semp2_key : {F : Type 0} → QueueV2 F → String
get_queue_stats_semp2_key queue = queue.msg_vpn_name <> ("___" <> queue.queue_name)

is_200 : ℤ → Bool
is_200 (pos n) = eqb n 200
is_200 (negsuc n) = false

-- The text of the error, up to the list of valid items, which Go writes in any order.
abbrev pub invalid_item : String → String
invalid_item item = "item \"" <> (item <> "\" is not valid")

-- v.v2Desc.isSelected(fieldsToSelect); a nil descriptor panics there, or when it is sent.
abbrev pub selected : List String → Option Desc → Bool
selected fields none = true
selected fields (some desc) = is_selected desc fields

module _ {F : Type 0} where
  unfoldable pub v2_sample : QueueV2 F → String → F → Sample F
  v2_sample queue key value =
      sample "QueueStats" key counter value (queue.msg_vpn_name ∷ queue.queue_name ∷ [])

  unfoldable pub v2_values : QueueV2 F → List (Sample F)
  v2_values queue =
      v2_sample queue "total_bytes_spooled" queue.total_byte_spooled
      ∷ v2_sample queue "messages_redelivered" queue.msg_redelivered
      ∷ v2_sample queue "messages_transport_retransmitted" queue.msg_retransmit
      ∷ v2_sample queue "spool_usage_exceeded" queue.spool_usage_exceeded
      ∷ v2_sample queue "max_message_size_exceeded" queue.msg_size_exceeded
      ∷ v2_sample queue "total_deleted_messages" queue.deleted
      ∷ v2_sample queue "messages_shutdown_discarded" queue.spool_shutdown_discard
      ∷ v2_sample queue "messages_ttl_discarded" queue.ttl_discarded
      ∷ v2_sample queue "messages_ttl_dmq" queue.ttl_dmq
      ∷ v2_sample queue "messages_ttl_dmq_failed" queue.ttl_dmq_failed
      ∷ v2_sample queue "messages_max_redelivered_discarded" queue.max_redelivery_discarded
      ∷ v2_sample queue "messages_max_redelivered_dmq" queue.max_redelivery_dmq
      ∷ v2_sample queue "messages_max_redelivered_dmq_failed" queue.max_redelivery_dmq_failed
      ∷ []

  unfoldable pub is_sample_selected : List String → Sample F → Bool
  is_sample_selected fields s = selected fields (find_desc s.group s.key)

  -- for _, v := range values { if v.v2Desc.isSelected(fieldsToSelect) { … } }
  unfoldable pub select_samples : List String → List (Sample F) → List (Sample F)
  select_samples fields [] = []
  select_samples fields (s ∷ samples) =
      let rest = select_samples fields samples in
      if is_sample_selected fields s then s ∷ rest else rest

  unfoldable pub get_queue_stats_semp2_samples : List String → QueueV2 F → List (Sample F)
  get_queue_stats_semp2_samples fields queue = select_samples fields (v2_values queue)

  module _ {Body : Type 0} (http : Http Body) (decode : String → Result String (Response F)) where
    check_response : Response F → Result Failure (Target (List (QueueV2 F)))
    check_response response =
        if not (is_200 response.response_code)
        then err (pos 0, "unexpected result: see log")
        else ok (record {
          payload = response.queue;
          more_cookie = response.next_page_uri;
          execute_result = record { result = "ok"; reason = "" };
        })

    -- One request: each error is 0.
    unfoldable pub read_page_v2 : Semp → String → ℕ → Result Failure (Target (List (QueueV2 F)))
    unfolding check_response is_200
    read_page_v2 semp next_url page = do
      body ← wrap_err (λ e. (pos 0, e)) (get_http_bytes http semp next_url page)
      response ← wrap_err (λ e. (pos 0, e)) (decode body)
      check_response response

  -- Goes on with the fields to select, or returns the error of the filter.
  abbrev pub on_fields : Result String (List String) → (List String → Run F Status) → Run F Status
  on_fields (err item) k = pure (pos 0, some (invalid_item item))
  on_fields (ok fields) k = k fields

  module _ (escape : String → String) {Body : Type 0} (http : Http Body)
      (decode : String → Result String (Response F)) (semp : Semp) where
    unfoldable pub get_queue_stats_semp2_url : String → String → List String → List String → String
    get_queue_stats_semp2_url vpn_name item_filter metric_filter fields =
        semp.broker_uri
        <> ("/SEMP/v2/monitor/msgVpns/"
            <> (vpn_name
                <> ("/queues?count=100"
                    <> (where_parameter escape item_filter
                        <> select_parameter metric_filter fields))))

    unfoldable pub get_queue_stats_semp2 : ℕ → String → String → List String → Run F Status
    get_queue_stats_semp2 fuel vpn_name item_filter metric_filter =
        on_fields (select_fields metric_filter) (λ fields.
          loop_pages (read_page_v2 http decode semp)
            (distinct_items get_queue_stats_semp2_key
              (λ queue. send_all (get_queue_stats_semp2_samples fields queue)))
            fuel 1 "" (get_queue_stats_semp2_url vpn_name item_filter metric_filter fields))
