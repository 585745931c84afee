-- ===== src/Semp/SpoolQuota.antt =====
-- The quota of messages in the scrape of the message spool: getSpoolSemp1.go of internal/semp.
use solace_prometheus_export.Prelude.{
  ℕ, String, Option, ◌≡◌, refl, ◌∙◌, ap, none, [], all-All, length, length-append, arith,
}
use solace_prometheus_export.Prelude.Result.{Result, ok}
use solace_prometheus_export.Text.{drop_last}
use solace_prometheus_export.Metric.Run.{Run, panicked, done, ◌>>=◌}
use solace_prometheus_export.Semp.{Http, Semp, Target, execute_ok, read_page, scrape_once}
use solace_prometheus_export.Semp.GoLib.{GoLib}
use solace_prometheus_export.Semp.Samples.{send_all, send_all-done, fits}
use solace_prometheus_export.Semp.Fit.Broker.{get_spool_semp1_head-AllFit}
use solace_prometheus_export.Semp.Getters.Spool.{
  SpoolReply, get_spool_semp1, get_spool_semp1_head, with_slice,
}

module _ {F A : Type 0} where
  -- A slice out of range after a run that returns: what the run sent stays sent.
  slice_panics :
      (m : Run F (Unit {0})) (o : Option String) (block : String → Run F (Unit {0}))
      (next : Unit {0} → Run F A) (n : ℕ)
      → m.result ≡ done tt
      → length m.sent ≡ n
      → o ≡ none
      → (((m >>= λ _. with_slice o block) >>= next).result ≡ panicked)
        × (length ((m >>= λ _. with_slice o block) >>= next).sent ≡ n)
  unfolding ◌>>=◌
  slice_panics m o block next n h l e = rw (h, e) (refl, length-append m.sent [] ∙ omega arith)

module _ {F Body : Type 0} (lib : GoLib F) (http : Http Body)
    (decode : Body → Result String (Target (SpoolReply F))) (semp : Semp) where
  head_done :
      (reply : SpoolReply F)
      → ((send_all (get_spool_semp1_head lib reply)).result ≡ done tt)
        × (length (send_all (get_spool_semp1_head lib reply)).sent ≡ 3)
  unfolding get_spool_semp1_head
  head_done reply =
      send_all-done (get_spool_semp1_head lib reply)
        (all-All fits (get_spool_semp1_head lib reply)
          (get_spool_semp1_head-AllFit lib reply).all_fit)
        (refl, (refl, (refl, tt)))

  -- Where the broker answers the scrape of the message spool with a reply without a maximum number of
  -- messages, the scrape sends three metrics and panics.
  pub get_spool_semp1_panics :
      (t : Target (SpoolReply F))
      → read_page http decode execute_ok semp
          "<rpc><show><message-spool><detail/></message-spool></show ></rpc>" 1
        ≡ ok t
      → t.payload.quota_msg_count ≡ ""
      → ((get_spool_semp1 lib http decode semp).result ≡ panicked)
        × (length (get_spool_semp1 lib http decode semp).sent ≡ 3)
  unfolding get_spool_semp1 scrape_once drop_last
  get_spool_semp1_panics t h q =
      let (e, n) = head_done t.payload in
      rw h (
        slice_panics (send_all (get_spool_semp1_head lib t.payload))
          (drop_last t.payload.quota_msg_count) _ _ 3 e n (ap drop_last q))
