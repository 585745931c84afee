-- ===== src/Collector/Up.antt =====
-- The metric `up` that the loop over the data sources sends for each of them.
use solace_prometheus_export.Prelude.{
  ℕ, zero, suc, false, lookup, String, ◌≡◌, refl, ◌⊎◌, inl, inr, true, Option, List, [], ◌∷◌, ◌++◌,
  arith, if◌then◌else◌,
}
use solace_prometheus_export.Prelude.Int.{ℤ, pos, negsuc, ltb_ℤ}
use solace_prometheus_export.Semp.{Status}
use solace_prometheus_export.Text.{valid_string}
use solace_prometheus_export.Metric.{
  Desc, PrometheusMetric, gauge, new_metric, new_sem_desc, validate_label_values,
}
use solace_prometheus_export.Metric.Run.{Run, done, pure, ◌>>=◌}
use solace_prometheus_export.Metric.Table.{find_desc, metric_desc}
use solace_prometheus_export.Semp.GoLib.{GoLib}
use solace_prometheus_export.Semp.Samples.{send_sample}
use solace_prometheus_export.DataSource.{DataSource}
use solace_prometheus_export.Collector.{collect_prometheus_metric, error_text, up_of, up_sample}
use solace_prometheus_export.Collector.Dispatch.{CollectConfig, Scrapes, dispatch}

-- solace_up
abbrev pub up_desc : Desc
up_desc = record {
  fq_name = "solace_up";
  semp_v2_field = "NOT_SEMP_V2_READY";
  help = "Was the last scrape of Solace broker successful.";
  variable_labels = "error" ∷ "endpoint" ∷ [];
}

module _ {F : Type 0} (lib : GoLib F) where
  abbrev pub up_metric : ℤ → String → String → PrometheusMetric F
  up_metric value error endpoint = record {
    desc = up_desc;
    value_type = gauge;
    value = lib.of_ℤ value;
    label_values = error ∷ endpoint ∷ [];
    deprecated = false;
  }

  send_up :
      (value : ℤ) (error endpoint : String)
      → valid_string error ≡ true
      → valid_string endpoint ≡ true
      → send_sample (up_sample lib value error endpoint)
        ≡ record { sent = up_metric value error endpoint ∷ []; result = done tt }
  unfolding send_sample find_desc metric_desc lookup new_sem_desc new_metric validate_label_values
  send_up value error endpoint h k = rw (h, k) refl

  succeeded : (n : ℕ) → ltb_ℤ (pos (suc n)) (pos 1) ≡ false
  succeeded n = ground arith

  goes_on : (n : ℕ) → ltb_ℤ (pos n) (pos 0) ≡ false
  goes_on n = ground arith

  stops : (n : ℕ) → ltb_ℤ (negsuc n) (pos 0) ≡ true
  stops n = ground arith

  failed : (n : ℕ) → ltb_ℤ (negsuc n) (pos 1) ≡ true
  failed n = ground arith

  module _ (scrapes : Scrapes F) (conf : CollectConfig) where
    -- What the scrape of the data source sends, then that metric, and then the rest.
    abbrev pub Reports :
        DataSource → PrometheusMetric F → Run F (Unit {0}) → Run F (Unit {0}) → Type 0
    Reports ds m rest r =
        r
        ≡ record { sent = (dispatch scrapes conf ds).sent ++ (m ∷ rest.sent); result = rest.result }

    reports :
        (ds : DataSource) (data_sources : List DataSource) (st : Status) (m : PrometheusMetric F)
        (rest : Run F (Unit {0}))
        → (dispatch scrapes conf ds).result ≡ done st
        → send_sample (up_of lib ds.name st) ≡ record { sent = m ∷ []; result = done tt }
        → (if ltb_ℤ st.0 (pos 0)
            then pure tt
            else collect_prometheus_metric lib scrapes conf data_sources)
          ≡ rest
        → Reports ds m rest (collect_prometheus_metric lib scrapes conf (ds ∷ data_sources))
    unfolding collect_prometheus_metric ◌>>=◌
    reports ds data_sources st m rest h up e = rw (h, up, e) refl

    -- For each data source whose scrape returns, the loop sends what the scrape sends and then
    -- `solace_up`: 1 without an error and with the name of the target after a value above 0; 0 with the
    -- error and the name after 0; and 0 with the error and `global` after a negative value, where it
    -- ends. Else it goes on with the other data sources. The name and the error are UTF-8.
    pub collect_up :
        (ds : DataSource) (data_sources : List DataSource) (value : ℤ) (e : Option String)
        → (dispatch scrapes conf ds).result ≡ done (value, e)
        → valid_string ds.name ≡ true
        → valid_string (error_text e) ≡ true
        → ((n : ℕ) × (value ≡ pos (suc n))
            × Reports ds
                (up_metric (pos 1) "" ds.name)
                (collect_prometheus_metric lib scrapes conf data_sources)
                (collect_prometheus_metric lib scrapes conf (ds ∷ data_sources)))
          ⊎ ((value ≡ pos 0)
              × Reports ds
                  (up_metric (pos 0) (error_text e) ds.name)
                  (collect_prometheus_metric lib scrapes conf data_sources)
                  (collect_prometheus_metric lib scrapes conf (ds ∷ data_sources)))
          ⊎ ((n : ℕ) × (value ≡ negsuc n)
              × Reports ds
                  (up_metric (pos 0) (error_text e) "global")
                  (pure tt)
                  (collect_prometheus_metric lib scrapes conf (ds ∷ data_sources)))
    unfolding up_of valid_string
    collect_up ds data_sources (pos zero) e h k l = inr (
        inl (
          refl,
          reports ds data_sources (pos 0, e) _ _ h (send_up (pos 0) (error_text e) ds.name l k)
              refl,
        ))
    collect_up ds data_sources (pos (suc n)) e h k l = inl (
      n,
      refl,
      reports ds data_sources (pos (suc n), e) _ _ h
          (rw (succeeded n) (send_up (pos 1) "" ds.name refl k)) (rw (goes_on (suc n)) refl),
    )
    collect_up ds data_sources (negsuc n) e h k l = inr (
        inr (
          n,
          refl,
          reports ds data_sources (negsuc n, e) _ _ h
              (rw (failed n, stops n) (send_up (pos 0) (error_text e) "global" l refl))
              (rw (stops n) refl),
        ))
