-- ===== src/Tests/Scrapes.antt =====
-- Tests of the scrapes.
use mathlib.Core.List.{flatten}
use solace_prometheus_export.Prelude.{
  ℕ, ◌*◌, ◌≡◌, refl, String, true, false, none, ◌==◌, [], ◌∷◌, length, inl, all, all-All, All,
  arith,
}
use solace_prometheus_export.Prelude.Int.{pos}
use solace_prometheus_export.Text.{valid_string}
use solace_prometheus_export.Metric.Run.{done, pure, ◌>>=◌}
use solace_prometheus_export.Semp.{execute_ok, post_http, read_page, loop_pages}
use solace_prometheus_export.Semp.Distinct.{distinct, distinct_items, each}
use solace_prometheus_export.Semp.Pages.{Serves, run_pages, loop_pages_lem}
use solace_prometheus_export.Semp.Samples.{Sample, fits, send_all}
use solace_prometheus_export.Semp.Scraped.{Scraped, samples_of}
use solace_prometheus_export.Semp.Scraped.Fits.{samples_of-fits, scraped-done}
use solace_prometheus_export.Semp.Complete.{Sends, get_queue_stats_semp1_lem, HasTextLabels}
use solace_prometheus_export.Semp.Getters.Queues.{
  get_queue_stats_semp1, get_queue_stats_semp1_command, get_queue_stats_semp1_key,
  get_queue_stats_semp1_samples,
}
use solace_prometheus_export.Tests.Data.{decode, http, lib, page_of, pages, queue_stat, semp}

served :
    (command : String)
    → (command == "") ≡ false
    → Serves (read_page http decode execute_ok semp) 1 command pages (pos 1, none)
unfolding read_page post_http execute_ok
served command h = (
  h,
  (
    page_of 1 (queue_stat "a" ∷ queue_stat "b" ∷ []) "<rpc>more</rpc>",
    refl,
    refl,
    (refl, (page_of 2 (queue_stat "b" ∷ queue_stat "c" ∷ []) "", refl, refl, inl (refl, refl))),
  ),
)

text_of :
    (name : String)
    → all
        (λ (s : Sample ℕ). all valid_string s.label_values)
        (get_queue_stats_semp1_samples lib (queue_stat name))
      ≡ true
    → HasTextLabels lib (queue_stat name)
text_of name h =
    all-All (λ (s : Sample ℕ). all valid_string s.label_values)
      (get_queue_stats_semp1_samples lib (queue_stat name)) h

text_labels : All (HasTextLabels lib) (flatten pages)
unfolding flatten get_queue_stats_semp1_samples valid_string
text_labels = (text_of "a" refl, (text_of "b" refl, (text_of "b" refl, (text_of "c" refl, tt))))

get_queue_stats_semp1_example :
    (get_queue_stats_semp1 lib http decode semp 3 "*" "*" (pos 100) ≡ (
      each
        (λ queue. send_all (get_queue_stats_semp1_samples lib queue))
        (distinct get_queue_stats_semp1_key "" (flatten pages))
      >>= λ _. pure (pos 1, none)))
    × Sends
        (get_queue_stats_semp1 lib http decode semp 3 "*" "*" (pos 100))
        (pos 1, none)
        (14 * length (distinct get_queue_stats_semp1_key "" (flatten pages)))
get_queue_stats_semp1_example =
    get_queue_stats_semp1_lem lib http decode semp "*" "*" (pos 100) 3 pages (pos 1, none)
      (served (get_queue_stats_semp1_command lib "*" "*" (pos 100)) refl) (omega arith) text_labels

loop_pages_example :
    loop_pages
      (read_page http decode execute_ok semp)
      (distinct_items get_queue_stats_semp1_key
        (λ queue. send_all (get_queue_stats_semp1_samples lib queue)))
      3
      1
      ""
      "<rpc/>"
    ≡ (run_pages
          (distinct_items get_queue_stats_semp1_key
            (λ queue. send_all (get_queue_stats_semp1_samples lib queue)))
          ""
          pages
        >>= λ _. pure (pos 1, none))
loop_pages_example =
    loop_pages_lem (read_page http decode execute_ok semp)
      (distinct_items get_queue_stats_semp1_key
        (λ queue. send_all (get_queue_stats_semp1_samples lib queue)))
      pages 3 1 "" "<rpc/>" (pos 1, none) (served "<rpc/>" refl) (omega arith)

scraped-done_example :
    ((send_all (samples_of lib (Scraped.queue_stat (queue_stat "a")))).result ≡ done tt)
    × (length (send_all (samples_of lib (Scraped.queue_stat (queue_stat "a")))).sent
        ≡ length (samples_of lib (Scraped.queue_stat (queue_stat "a"))))
unfolding samples_of get_queue_stats_semp1_samples valid_string
scraped-done_example = scraped-done lib (Scraped.queue_stat (queue_stat "a")) (text_of "a" refl)

samples_of-fits_example : all fits (samples_of lib (Scraped.queue_stat (queue_stat "a"))) ≡ true
samples_of-fits_example = samples_of-fits lib (Scraped.queue_stat (queue_stat "a"))
