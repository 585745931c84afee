-- ===== src/Semp/Sound.antt =====
-- What every run of a scrape sends, whatever the broker answers and however the run ends.
use solace_prometheus_export.Prelude.{
  ℕ, zero, suc, ◌+◌, String, Bool-cases, inl, inr, ◌==◌, List, [], ◌∷◌, Option,
}
use solace_prometheus_export.Prelude.Result.{Result, ok, err}
use solace_prometheus_export.Metric.{PrometheusMetric}
use solace_prometheus_export.Metric.Run.{Run, AllSent, AllSent-bind}
use solace_prometheus_export.Semp.{
  Http, Semp, Target, Failure, Status, ExecuteResult, on_page, loop_pages, scrape_pages,
  scrape_once, read_page,
}
use solace_prometheus_export.Semp.Distinct.{each, distinct_items, keyed_items}

module _ {F : Type 0} (P : PrometheusMetric F → Type 0) where
  on_page-AllSent :
      {A : Type 0} (r : Result Failure (Target A)) (k : Target A → Run F Status)
      → ((t : Target A) → AllSent P (k t))
      → AllSent P (on_page r k)
  on_page-AllSent (err (up, e)) k h = tt
  on_page-AllSent (ok target) k h = h target

  pub loop_pages-AllSent :
      {A S : Type 0} (read : String → ℕ → Result Failure (Target A)) (items : S → A → Run F S)
      → ((s : S) (a : A) → AllSent P (items s a))
      → (fuel page : ℕ) (s : S) (command : String)
      → AllSent P (loop_pages read items fuel page s command)
  unfolding loop_pages
  loop_pages-AllSent read items h zero page s command = tt
  loop_pages-AllSent read items h (suc fuel) page s command = elim (Bool-cases (command == "")) [
    | inl e ↦ rw e tt
    | inr e ↦ rw e (
        on_page-AllSent (read command page) _ (λ target.
          AllSent-bind P (items s target.payload) _ (h s target.payload)
            (λ s'. loop_pages-AllSent read items h fuel (page + 1) s' target.more_cookie)))
  ]

  pub scrape_once-AllSent :
      {A Body : Type 0} (http : Http Body) (decode : Body → Result String (Target A))
      (check : ExecuteResult → Option String) (semp : Semp) (command : String)
      (emit : A → Run F (Unit {0}))
      → ((a : A) → AllSent P (emit a))
      → AllSent P (scrape_once http decode check semp command emit)
  unfolding scrape_once
  scrape_once-AllSent http decode check semp command emit h =
      on_page-AllSent (read_page http decode check semp command 1) _
        (λ target. AllSent-bind P (emit target.payload) _ (h target.payload) (λ _. tt))

  pub scrape_pages-AllSent :
      {A S Body : Type 0} (http : Http Body) (decode : Body → Result String (Target A))
      (check : ExecuteResult → Option String) (semp : Semp) (items : S → A → Run F S)
      → ((s : S) (a : A) → AllSent P (items s a))
      → (fuel page : ℕ) (s : S) (command : String)
      → AllSent P (scrape_pages http decode check semp items fuel page s command)
  unfolding scrape_pages
  scrape_pages-AllSent http decode check semp items h fuel page s command =
      loop_pages-AllSent (read_page http decode check semp) items h fuel page s command

  module _ {I : Type 0} (emit : I → Run F (Unit {0})) (h : (x : I) → AllSent P (emit x)) where
    pub each-AllSent : (xs : List I) → AllSent P (each emit xs)
    unfolding each
    each-AllSent [] = tt
    each-AllSent (x ∷ xs) = AllSent-bind P (emit x) _ (h x) (λ _. each-AllSent xs)

    pub distinct_items-AllSent :
        (key : I → String) (last : String) (xs : List I)
        → AllSent P (distinct_items key emit last xs)
    unfolding distinct_items
    distinct_items-AllSent key last [] = tt
    distinct_items-AllSent key last (x ∷ xs) = elim (Bool-cases (key x == last)) [
      | inl e ↦ rw e (distinct_items-AllSent key last xs)
      | inr e ↦ rw e (AllSent-bind P (emit x) _ (h x) (λ _. distinct_items-AllSent key (key x) xs))
    ]

    pub keyed_items-AllSent :
        (key : I → String) (last : String) (xs : List I) → AllSent P (keyed_items key emit last xs)
    unfolding keyed_items
    keyed_items-AllSent key last [] = tt
    keyed_items-AllSent key last (x ∷ xs) = elim (Bool-cases (key x == last)) [
      | inl e ↦ rw e (keyed_items-AllSent key last xs)
      | inr e ↦ rw e (AllSent-bind P (emit x) _ (h x) (λ _. keyed_items-AllSent key last xs))
    ]
