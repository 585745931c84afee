-- ===== src/Semp/Pages.antt =====
-- What the loop over pages sends, whatever the pages are.
use mathlib.Core.List.{flatten}
use solace_prometheus_export.Prelude.{
  ℕ, zero, suc, ◌+◌, ◌<◌, String, ◌≡◌, refl, sym, ap, ◌∙◌, fun_ext, true, false, none, some, List,
  [], ◌∷◌, arith, ◌==◌, length, ◌⊎◌, inl, inr,
}
use solace_prometheus_export.Prelude.Int.{pos}
use solace_prometheus_export.Prelude.Result.{Result, ok, err}
use solace_prometheus_export.Metric.Run.{Run, pure, ◌>>=◌, bind_assoc, pure-bind}
use solace_prometheus_export.Semp.{Target, Failure, Status, loop_pages}
use solace_prometheus_export.Semp.Distinct.{
  each, distinct_items, distinct, last_key, distinct_items-eq-each, distinct_items-append,
}

module _ {P : Type 0} (read : String → ℕ → Result Failure (Target P)) where
  -- How the loop ends: there is no more cookie, or the next request fails.
  abbrev pub EndsAt : ℕ → String → Status → Type 0
  EndsAt page command st =
      ((command == "") ≡ true) × (st ≡ (pos 1, none))
      ⊎ ((command == "") ≡ false)
        × ((f : Failure) × (read command page ≡ err f) × (st ≡ (f.0, some f.1)))

  -- `Serves page command ps st`: from that command on, the broker serves the pages `ps`, and then the
  -- loop ends with that status.
  abbrev pub Serves : ℕ → String → List P → Status → Type 0
  Serves page command [] st = EndsAt page command st
  Serves page command (p ∷ ps) st =
      ((command == "") ≡ false)
      × ((t : Target P) × (read command page ≡ ok t)
          × (t.payload ≡ p)
          × Serves (page + 1) t.more_cookie ps st)

module _ {F P S : Type 0} (items : S → P → Run F S) where
  unfoldable pub run_pages : S → List P → Run F S
  run_pages s [] = pure s
  run_pages s (p ∷ ps) = items s p >>= λ s'. run_pages s' ps

module _ {F P S : Type 0} (read : String → ℕ → Result Failure (Target P))
    (items : S → P → Run F S) where
  page_step :
      (fuel page : ℕ) (s : S) (command : String) (t : Target P)
      → (command == "") ≡ false
      → read command page ≡ ok t
      → loop_pages read items (suc fuel) page s command
        ≡ (items s t.payload >>= λ s'. loop_pages read items fuel (page + 1) s' t.more_cookie)
  unfolding loop_pages
  page_step fuel page s command t h k = rw (h, k)

  page_end :
      (fuel page : ℕ) (s : S) (command : String) (st : Status)
      → EndsAt read page command st
      → loop_pages read items (suc fuel) page s command ≡ pure st
  unfolding loop_pages
  page_end fuel page s command st (inl (h, e)) = rw (h, e)
  page_end fuel page s command st (inr (h, (f, k, e))) = rw (h, k, e)

  -- With more fuel than pages the loop ends: it sends what the items of the pages that the broker
  -- serves give, in their order, and returns 1 after the last page, or the failure of the request that
  -- failed; what the pages before sent stays sent.
  pub loop_pages_lem :
      (ps : List P) (fuel page : ℕ) (s : S) (command : String) (st : Status)
      → Serves read page command ps st
      → length ps < fuel
      → loop_pages read items fuel page s command ≡ (run_pages items s ps >>= λ _. pure st)
  unfolding run_pages
  loop_pages_lem ps zero page s command st h lt = absurd (omega arith)
  loop_pages_lem [] (suc fuel) page s command st h lt =
      page_end fuel page s command st h ∙ sym (pure-bind s _)
  loop_pages_lem (p ∷ ps) (suc fuel) page s command st (h, (t, k, e, more)) lt =
      page_step fuel page s command t h k
      ∙ ap (λ q. items s q >>= λ s'. loop_pages read items fuel (page + 1) s' t.more_cookie) e
      ∙ ap (λ f. items s p >>= f)
          (fun_ext (λ s'. loop_pages_lem ps fuel (page + 1) s' t.more_cookie st more (omega arith)))
      ∙ sym (bind_assoc (items s p) _ _)

module _ {F I : Type 0} (key : I → String) (emit : I → Run F (Unit {0})) where
  -- Pages of items are one list of items: a key repeated across a page break is skipped too.
  pub run_pages_distinct :
      (last : String) (pages : List (List I))
      → run_pages (distinct_items key emit) last pages
        ≡ distinct_items key emit last (flatten pages)
  unfolding run_pages flatten
  run_pages_distinct last [] = unfold distinct_items in refl
  run_pages_distinct last (p ∷ ps) =
      ap (λ f. distinct_items key emit last p >>= f)
        (fun_ext (λ last'. run_pages_distinct last' ps))
      ∙ sym (distinct_items-append key emit last p (flatten ps))

module _ {F I : Type 0} (read : String → ℕ → Result Failure (Target (List I))) (key : I → String)
    (emit : I → Run F (Unit {0})) where
  -- A scrape of pages of items emits each item of the pages served once, in their order, where an item
  -- with the key of the one before it is left out, and then returns the status.
  pub loop_distinct_lem :
      (ps : List (List I)) (fuel page : ℕ) (last command : String) (st : Status)
      → Serves read page command ps st
      → length ps < fuel
      → loop_pages read (distinct_items key emit) fuel page last command
        ≡ (each emit (distinct key last (flatten ps)) >>= λ _. pure st)
  loop_distinct_lem ps fuel page last command st h lt =
      loop_pages_lem read (distinct_items key emit) ps fuel page last command st h lt
      ∙ ap (λ (r : Run F String). r >>= λ _. pure st)
          (run_pages_distinct key emit last ps ∙ distinct_items-eq-each key emit last (flatten ps))
      ∙ bind_assoc (each emit (distinct key last (flatten ps))) _ _
      ∙ ap (λ f. each emit (distinct key last (flatten ps)) >>= f)
          (fun_ext (λ _. pure-bind (last_key key last (flatten ps)) _))
