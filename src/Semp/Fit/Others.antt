-- ===== src/Semp/Fit/Others.antt =====
-- The samples of the scrapes of client certificates and of SEMP v2 fit the table of descriptors.
use solace_prometheus_export.Prelude.{
  ℕ, String, ◌≡◌, refl, true, Bool-cases, inl, inr, Option, none, some, List, [], ◌∷◌, lookup,
}
use solace_prometheus_export.Prelude.Int.{ℤ}
use solace_prometheus_export.Metric.{new_sem_desc}
use solace_prometheus_export.Metric.Table.{find_desc, metric_desc}
use solace_prometheus_export.Semp.GoLib.{GoLib}
use solace_prometheus_export.Semp.Samples.{Sample, fits}
use solace_prometheus_export.Semp.Blocks.{AllFit, cons-AllFit, uncons-AllFit, none-AllFit}
use solace_prometheus_export.Semp.Getters.BridgeClientCert.{
  BridgeClientCert, CertLib, cert_configured, cert_time, not_before_samples, validity_samples,
  chain_samples, get_bridge_client_cert_semp1_samples,
}
use solace_prometheus_export.Semp.V2.{
  QueueV2, v2_sample, v2_values, is_sample_selected, select_samples, get_queue_stats_semp2_samples,
}

module _ {F : Type 0} (lib : GoLib F) (certs : CertLib) where
  cert_configured-fits :
      (bridge : BridgeClientCert F) (n : ℕ) (cn : String)
      → fits (cert_configured lib certs bridge n cn) ≡ true
  unfolding cert_configured fits find_desc metric_desc lookup new_sem_desc
  cert_configured-fits bridge n cn = refl

  validity_samples-AllFit :
      (bridge : BridgeClientCert F) (cn : String) (after before : Option ℤ)
      → AllFit (validity_samples lib certs bridge cn after before)
  unfolding validity_samples not_before_samples cert_time cert_configured fits find_desc metric_desc
      lookup new_sem_desc
  validity_samples-AllFit bridge cn none before = record { all_fit = refl }
  validity_samples-AllFit bridge cn (some after) none = record { all_fit = refl }
  validity_samples-AllFit bridge cn (some after) (some before) = record { all_fit = refl }

  chain_samples-AllFit :
      (bridge : BridgeClientCert F) (chain : List String)
      → AllFit (chain_samples lib certs bridge chain)
  unfolding chain_samples
  chain_samples-AllFit bridge [] = cons-AllFit (cert_configured-fits bridge 0 "") none-AllFit
  chain_samples-AllFit bridge (leaf ∷ chain) = validity_samples-AllFit bridge _ _ _

  pub get_bridge_client_cert_semp1_samples-AllFit :
      (bridge : BridgeClientCert F) → AllFit (get_bridge_client_cert_semp1_samples lib certs bridge)
  unfolding get_bridge_client_cert_semp1_samples
  get_bridge_client_cert_semp1_samples-AllFit bridge =
      chain_samples-AllFit bridge bridge.certificate_content

module _ {F : Type 0} (fields : List String) where
  select_samples-AllFit :
      (samples : List (Sample F)) → AllFit samples → AllFit (select_samples fields samples)
  unfolding select_samples
  select_samples-AllFit [] h = h
  select_samples-AllFit (s ∷ samples) h =
      let (k, t) = uncons-AllFit h in
      let rest = select_samples-AllFit samples t in
      elim (Bool-cases (is_sample_selected fields s)) [
        | inl e ↦ rw e (cons-AllFit k rest)
        | inr e ↦ rw e rest
      ]

  pub get_queue_stats_semp2_samples-AllFit :
      (queue : QueueV2 F) → AllFit (get_queue_stats_semp2_samples fields queue)
  unfolding get_queue_stats_semp2_samples v2_values v2_sample fits find_desc metric_desc lookup
      new_sem_desc
  get_queue_stats_semp2_samples-AllFit queue =
      select_samples-AllFit (v2_values queue) (record { all_fit = refl })
