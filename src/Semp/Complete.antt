-- ===== src/Semp/Complete.antt =====
-- A complete scrape of the queue statistics: getQueueStatsSemp1.go of internal/semp over the pages that
-- the broker serves.
use mathlib.Core.List.{flatten}
use solace_prometheus_export.Prelude.{
  ℕ, suc, ◌+◌, ◌*◌, ◌<◌, ◌≡◌, refl, ◌∙◌, String, List, [], ◌∷◌, length, length-append, All, arith,
}
use native.Mathlib.Numerals.{unary_clauses}
use solace_prometheus_export.Prelude.Int.{ℤ}
use solace_prometheus_export.Prelude.Result.{Result}
use solace_prometheus_export.Metric.Run.{Run, done, pure, ◌>>=◌, bind-returns}
use solace_prometheus_export.Semp.{Http, Semp, Target, Status, execute_ok, read_page, scrape_pages}
use solace_prometheus_export.Semp.GoLib.{GoLib}
use solace_prometheus_export.Semp.Samples.{send_all, HasValidLabels}
use solace_prometheus_export.Semp.Scraped.{Scraped, samples_of}
use solace_prometheus_export.Semp.Scraped.Fits.{scraped-done}
use solace_prometheus_export.Semp.Distinct.{each, distinct, All-distinct}
use solace_prometheus_export.Semp.Pages.{Serves, loop_distinct_lem}
use solace_prometheus_export.Semp.Getters.Queues.{
  QueueStat, get_queue_stats_semp1, get_queue_stats_semp1_key, get_queue_stats_semp1_samples,
  get_queue_stats_semp1_command,
}

module _ {F : Type 0} where
  -- The run returns, and has sent that many metrics.
  abbrev pub Sends : {A : Type 0} → Run F A → A → ℕ → Type 0
  Sends m a n = (m.result ≡ done a) × (length m.sent ≡ n)

  Sends-bind :
      {A : Type 0} (m : Run F (Unit {0})) (k : Run F A) (a : A) (n l : ℕ)
      → Sends m tt n
      → Sends k a l
      → Sends (m >>= λ _. k) a (n + l)
  Sends-bind m k a n l (h, e) (h', e') =
      rw (bind-returns m tt (λ _. k) h, length-append, e, e', h') (refl, refl)

module _ {F I : Type 0} where
  -- A loop whose body sends `n` metrics for each item.
  pub each-Sends :
      (emit : I → Run F (Unit {0})) (P : I → Type 0) (n : ℕ)
      → ((x : I) → P x → Sends (emit x) tt n)
      → (xs : List I) → All P xs
      → Sends (each emit xs) tt (n * length xs)
  unfolding each
  each-Sends emit P n h [] p = (refl, omega arith)
  each-Sends emit P n h (x ∷ xs) p =
      let (e, l) =
        Sends-bind (emit x) (each emit xs) tt n (n * length xs) (h x p.0)
          (each-Sends emit P n h xs p.1) in
      (e, l ∙ sum)
    where
      sum : n + n * length xs ≡ n * suc (length xs)
      sum = simp unary_clauses (omega arith)

module _ {F : Type 0} (lib : GoLib F) where
  abbrev pub HasTextLabels : QueueStat F → Type 0
  HasTextLabels queue = All HasValidLabels (get_queue_stats_semp1_samples lib queue)

  queue_Sends :
      (queue : QueueStat F)
      → HasTextLabels queue
      → Sends (send_all (get_queue_stats_semp1_samples lib queue)) tt 14
  unfolding samples_of get_queue_stats_semp1_samples
  queue_Sends queue h = scraped-done lib (Scraped.queue_stat queue) h

module _ {F Body : Type 0} (lib : GoLib F) (http : Http Body)
    (decode : Body → Result String (Target (List (QueueStat F)))) (semp : Semp) where
  -- Where the broker serves those pages in answer to the command, fewer of them than the fuel, and then
  -- the loop ends with a status, and the names of VPNs and queues are UTF-8, the scrape of the queue
  -- statistics returns that status, and sends the 14 metrics of each queue once, whatever the sizes of
  -- the pages: of neighbouring entries of one queue, also across two pages, only the first counts.
  pub get_queue_stats_semp1_lem :
      (vpn_filter item_filter : String) (page_size : ℤ) (fuel : ℕ) (ps : List (List (QueueStat F)))
      (st : Status)
      → Serves
          (read_page http decode execute_ok semp)
          1
          (get_queue_stats_semp1_command lib vpn_filter item_filter page_size)
          ps
          st
      → length ps < fuel
      → All (HasTextLabels lib) (flatten ps)
      → (get_queue_stats_semp1 lib http decode semp fuel vpn_filter item_filter page_size ≡ (
          each
            (λ queue. send_all (get_queue_stats_semp1_samples lib queue))
            (distinct get_queue_stats_semp1_key "" (flatten ps))
          >>= λ _. pure st))
        × Sends
            (get_queue_stats_semp1 lib http decode semp fuel vpn_filter item_filter page_size)
            st
            (14 * length (distinct get_queue_stats_semp1_key "" (flatten ps)))
  unfolding get_queue_stats_semp1 scrape_pages
  get_queue_stats_semp1_lem vpn_filter item_filter page_size fuel ps st h lt labels =
      let e =
        loop_distinct_lem (read_page http decode execute_ok semp) get_queue_stats_semp1_key
          (λ queue. send_all (get_queue_stats_semp1_samples lib queue)) ps fuel 1 "" _ st h lt in
      (
        e,
        rw e (
            sent_all (distinct get_queue_stats_semp1_key "" (flatten ps))
              (All-distinct get_queue_stats_semp1_key (HasTextLabels lib) "" (flatten ps) labels)),
      )
    where
      sent_all :
          (queues : List (QueueStat F))
          → All (HasTextLabels lib) queues
          → Sends
              (each (λ queue. send_all (get_queue_stats_semp1_samples lib queue)) queues >>= λ _.
                pure st)
              st
              (14 * length queues)
      sent_all queues p =
          let (e, l) =
            Sends-bind (each (λ queue. send_all (get_queue_stats_semp1_samples lib queue)) queues)
              (pure st) st (14 * length queues) 0
              (each-Sends (λ queue. send_all (get_queue_stats_semp1_samples lib queue))
                (HasTextLabels lib) 14 (queue_Sends lib) queues p)
              (refl, refl) in
          (e, l ∙ omega arith)
