-- ===== src/Semp/Safe.antt =====
-- Runs that send only metrics with a value for each label and not marked as deprecated, with the rules
-- for each way in which the scrapes are built.
use solace_prometheus_export.Prelude.{ℕ, String, Option, none, some, List}
use solace_prometheus_export.Prelude.Result.{Result}
use solace_prometheus_export.Metric.Run.{Run, pure, ◌>>=◌, AllSent, AllSent-bind}
use solace_prometheus_export.Semp.{
  Http, Semp, Target, Failure, ExecuteResult, scrape_once, scrape_pages, loop_pages,
}
use solace_prometheus_export.Semp.Samples.{Sample, IsSound, send_all, send_all-IsSound}
use solace_prometheus_export.Semp.Distinct.{each, distinct_items, keyed_items}
use solace_prometheus_export.Semp.Sound.{
  loop_pages-AllSent, scrape_once-AllSent, scrape_pages-AllSent, each-AllSent,
  distinct_items-AllSent, keyed_items-AllSent,
}
use solace_prometheus_export.Semp.Getters.Spool.{with_slice}

module _ {F : Type 0} where
  pub record IsSafe {A : Type 0} (m : Run F A) : Type 0 where
    pub sends_sound : AllSent IsSound m

  pub pure-IsSafe : {A : Type 0} (a : A) → IsSafe (pure a)
  pure-IsSafe a = record { sends_sound = tt }

  pub bind-IsSafe :
      {A B : Type 0} {m : Run F A} {f : A → Run F B}
      → IsSafe m
      → ((a : A) → IsSafe (f a))
      → IsSafe (m >>= f)
  bind-IsSafe {A} {B} {m} {f} p q = record {
    sends_sound = AllSent-bind IsSound m f p.sends_sound (λ a. (q a).sends_sound);
  }

  pub send_all-IsSafe : (samples : List (Sample F)) → IsSafe (send_all samples)
  send_all-IsSafe samples = record { sends_sound = send_all-IsSound samples }

  pub with_slice-IsSafe :
      (o : Option String) {block : String → Run F (Unit {0})}
      → ((s : String) → IsSafe (block s))
      → IsSafe (with_slice o block)
  with_slice-IsSafe none h = record { sends_sound = tt }
  with_slice-IsSafe (some s) h = h s

  module _ {I : Type 0} {emit : I → Run F (Unit {0})} (h : (x : I) → IsSafe (emit x)) where
    pub each-IsSafe : (xs : List I) → IsSafe (each emit xs)
    each-IsSafe xs = record { sends_sound = each-AllSent IsSound emit (λ x. (h x).sends_sound) xs }

    pub distinct_items-IsSafe :
        (key : I → String) (last : String) (xs : List I) → IsSafe (distinct_items key emit last xs)
    distinct_items-IsSafe key last xs = record {
      sends_sound = distinct_items-AllSent IsSound emit (λ x. (h x).sends_sound) key last xs;
    }

    pub keyed_items-IsSafe :
        (key : I → String) (last : String) (xs : List I) → IsSafe (keyed_items key emit last xs)
    keyed_items-IsSafe key last xs = record {
      sends_sound = keyed_items-AllSent IsSound emit (λ x. (h x).sends_sound) key last xs;
    }

  pub loop_pages-IsSafe :
      {A S : Type 0} (read : String → ℕ → Result Failure (Target A)) {items : S → A → Run F S}
      (fuel page : ℕ) (s : S) (command : String)
      → ((s : S) (a : A) → IsSafe (items s a))
      → IsSafe (loop_pages read items fuel page s command)
  loop_pages-IsSafe read {items = items} fuel page s command h = record {
    sends_sound =
        loop_pages-AllSent IsSound read items (λ s a. (h s a).sends_sound) fuel page s command;
  }

  module _ {A Body : Type 0} (http : Http Body) (decode : Body → Result String (Target A))
      (check : ExecuteResult → Option String) (semp : Semp) where
    pub scrape_once-IsSafe :
        {emit : A → Run F (Unit {0})} (command : String)
        → ((a : A) → IsSafe (emit a))
        → IsSafe (scrape_once http decode check semp command emit)
    scrape_once-IsSafe {emit} command h = record {
      sends_sound =
          scrape_once-AllSent IsSound http decode check semp command emit (λ a. (h a).sends_sound);
    }

    pub scrape_pages-IsSafe :
        {S : Type 0} {items : S → A → Run F S} (fuel page : ℕ) (s : S) (command : String)
        → ((s : S) (a : A) → IsSafe (items s a))
        → IsSafe (scrape_pages http decode check semp items fuel page s command)
    scrape_pages-IsSafe {items = items} fuel page s command h = record {
      sends_sound =
          scrape_pages-AllSent IsSound http decode check semp items (λ s a. (h s a).sends_sound)
            fuel page s command;
    }

pub ruleset safe = (
  pure-IsSafe, bind-IsSafe, send_all-IsSafe, with_slice-IsSafe, each-IsSafe, distinct_items-IsSafe,
  keyed_items-IsSafe, loop_pages-IsSafe, scrape_once-IsSafe, scrape_pages-IsSafe,
)
