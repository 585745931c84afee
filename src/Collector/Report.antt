-- ===== src/Collector/Report.antt =====
-- What the loop over the data sources reports.
use solace_prometheus_export.Prelude.{
  ℕ, String, ◌≡◌, sym, ap, ◌∙◌, Bool, true, false, Option, List, [], ◌∷◌, ◌++◌, arith,
  if◌then◌else◌, All,
}
use solace_prometheus_export.Prelude.Int.{pos, negsuc, ltb_ℤ}
use solace_prometheus_export.Metric.{PrometheusMetric}
use solace_prometheus_export.Metric.Run.{
  Run, done, pure, ◌>>=◌, AllSent, AllSent-bind, bind-returns,
}
use solace_prometheus_export.Semp.{Status}
use solace_prometheus_export.Semp.GoLib.{GoLib}
use solace_prometheus_export.Semp.Samples.{send_sample, IsSound, send_sample-IsSound}
use solace_prometheus_export.DataSource.{DataSource}
use solace_prometheus_export.Collector.{collect_prometheus_metric, up_of}
use solace_prometheus_export.Collector.Dispatch.{CollectConfig, Scrapes, dispatch}

negsuc_lt : (n : ℕ) → ltb_ℤ (negsuc n) (pos 0) ≡ true
negsuc_lt n = ground arith

module _ {F : Type 0} (lib : GoLib F) (scrapes : Scrapes F) (conf : CollectConfig) where
  -- After an answer that tells the broker cannot be reached, the loop asks it nothing more: the data
  -- sources that follow make no difference.
  pub collect_stops :
      (before : List DataSource) (ds : DataSource) (after : List DataSource) (n : ℕ)
      (e : Option String)
      → (dispatch scrapes conf ds).result ≡ done (negsuc n, e)
      → collect_prometheus_metric lib scrapes conf (before ++ (ds ∷ after))
        ≡ collect_prometheus_metric lib scrapes conf (before ++ (ds ∷ []))
  unfolding collect_prometheus_metric
  collect_stops [] ds after n e h =
      bind-returns (dispatch scrapes conf ds) (negsuc n, e)
        (λ st. reported st (collect_prometheus_metric lib scrapes conf after)) h
      ∙ ap (prefixed (dispatch scrapes conf ds).sent)
          (negative (collect_prometheus_metric lib scrapes conf after) ∙ sym (negative (pure tt)))
      ∙ sym (bind-returns (dispatch scrapes conf ds) (negsuc n, e) (λ st. reported st (pure tt)) h)
    where
      prefixed : List (PrometheusMetric F) → Run F (Unit {0}) → Run F (Unit {0})
      prefixed sent r = record { sent = sent ++ r.sent; result = r.result }

      reported : Status → Run F (Unit {0}) → Run F (Unit {0})
      reported st rest =
          send_sample (up_of lib ds.name st) >>= λ _. if ltb_ℤ st.0 (pos 0) then pure tt else rest

      negative :
          (rest : Run F (Unit {0}))
          → reported (negsuc n, e) rest
            ≡ (send_sample (up_of lib ds.name (negsuc n, e)) >>= λ _. pure tt)
      negative rest =
          ap
            (λ (b : Bool).
              send_sample (up_of lib ds.name (negsuc n, e)) >>= λ _. if b then pure tt else rest)
            (negsuc_lt n)
  collect_stops (d ∷ before) ds after n e h =
      ap
        (λ (rest : Run F (Unit {0})). dispatch scrapes conf d >>= λ st.
          send_sample (up_of lib d.name st) >>= λ _. if ltb_ℤ st.0 (pos 0) then pure tt else rest)
        (collect_stops before ds after n e h)

  -- Where the scrapes of the data sources send only metrics with a value for each label and not marked
  -- as deprecated, so does the whole loop over them, its metrics `up` included.
  pub collect-IsSound :
      (data_sources : List DataSource)
      → All (λ ds. AllSent IsSound (dispatch scrapes conf ds)) data_sources
      → AllSent IsSound (collect_prometheus_metric lib scrapes conf data_sources)
  unfolding collect_prometheus_metric
  collect-IsSound [] h = tt
  collect-IsSound (ds ∷ rest) h = AllSent-bind IsSound (dispatch scrapes conf ds) _ h.0 (λ st.
      AllSent-bind IsSound (send_sample (up_of lib ds.name st)) _
        (send_sample-IsSound (up_of lib ds.name st))
        (λ _. one_of (ltb_ℤ st.0 (pos 0)) _ (collect-IsSound rest h.1)))
    where
      one_of :
          (b : Bool) (r : Run F (Unit {0}))
          → AllSent IsSound r
          → AllSent IsSound (if b then pure tt else r)
      one_of true r s = tt
      one_of false r s = s
