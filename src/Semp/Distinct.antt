-- ===== src/Semp/Distinct.antt =====
-- The loop over the items of a page, in the forms that the scrapes of internal/semp write out.
use solace_prometheus_export.Prelude.{
  String, ◌≡◌, sym, ap, ◌∙◌, fun_ext, false, List, [], ◌∷◌, ◌++◌, ◌==◌, eq_iff, if◌then◌else◌,
  Bool-cases, inl, inr, All,
}
use solace_prometheus_export.Metric.Run.{Run, pure, ◌>>=◌, ◌>>◌, bind_assoc, pure-bind}

-- The loop over the items of a page.
module _ {F I : Type 0} (emit : I → Run F (Unit {0})) where
  unfoldable pub each : List I → Run F (Unit {0})
  each [] = pure tt
  each (x ∷ xs) = emit x >> each xs

module _ {I : Type 0} (key : I → String) where
  -- The items that it keeps, and the last key.
  unfoldable pub distinct : String → List I → List I
  distinct last [] = []
  distinct last (x ∷ xs) =
      let skipped = distinct last xs in
      let kept = x ∷ distinct (key x) xs in if key x == last then skipped else kept

  unfoldable pub last_key : String → List I → String
  last_key last [] = last
  last_key last (x ∷ xs) = last_key (key x) xs

  -- No key stands twice in a row, and the first is not `last`.
  abbrev pub NoRepeat : String → List I → Type 0
  NoRepeat last [] = Unit
  NoRepeat last (x ∷ xs) = ((key x == last) ≡ false) × NoRepeat (key x) xs

  pub distinct-NoRepeat : (last : String) (xs : List I) → NoRepeat last (distinct last xs)
  unfolding distinct
  distinct-NoRepeat last [] = tt
  distinct-NoRepeat last (x ∷ xs) = elim (Bool-cases (key x == last)) [
    | inl e ↦ rw e (distinct-NoRepeat last xs)
    | inr e ↦ rw e (e, distinct-NoRepeat (key x) xs)
  ]

  pub All-distinct :
      (P : I → Type 0) (last : String) (xs : List I) → All P xs → All P (distinct last xs)
  unfolding distinct
  All-distinct P last [] p = tt
  All-distinct P last (x ∷ xs) p = elim (Bool-cases (key x == last)) [
    | inl e ↦ rw e (All-distinct P last xs p.1)
    | inr e ↦ rw e (p.0, All-distinct P (key x) xs p.1)
  ]

-- The loop over the items of a page that skips an item with the key of the one before it: the broker
-- repeats the last item of a page as the first of the next.
module _ {F I : Type 0} (key : I → String) (emit : I → Run F (Unit {0})) where
  unfoldable pub distinct_items : String → List I → Run F String
  distinct_items last [] = pure last
  distinct_items last (x ∷ xs) =
      let skipped = distinct_items last xs in
      let sent = emit x >> distinct_items (key x) xs in if key x == last then skipped else sent

  -- The same loop where the source forgets to set the last key.
  unfoldable pub keyed_items : String → List I → Run F String
  keyed_items last [] = pure last
  keyed_items last (x ∷ xs) =
      let rest = keyed_items last xs in
      let sent = emit x >> rest in if key x == last then rest else sent

  pub distinct_items-eq-each :
      (last : String) (xs : List I)
      → distinct_items last xs
        ≡ (each emit (distinct key last xs) >>= λ _. pure (last_key key last xs))
  unfolding distinct_items distinct each last_key
  distinct_items-eq-each last [] = sym (pure-bind tt _)
  distinct_items-eq-each last (x ∷ xs) = elim (Bool-cases (key x == last)) [
    | inl e ↦ rw e (
        distinct_items-eq-each last xs
        ∙ ap (λ k. each emit (distinct key last xs) >>= λ _. pure (last_key key k xs))
            (sym ((eq_iff (key x) last).0 e)))
    | inr e ↦ rw e (
        ap (λ f. emit x >>= f) (fun_ext (λ _. distinct_items-eq-each (key x) xs))
        ∙ sym (bind_assoc (emit x) _ _))
  ]

  pub distinct_items-append :
      (last : String) (xs ys : List I)
      → distinct_items last (xs ++ ys)
        ≡ (distinct_items last xs >>= λ last'. distinct_items last' ys)
  unfolding distinct_items
  distinct_items-append last [] ys = sym (pure-bind last _)
  distinct_items-append last (x ∷ xs) ys = elim (Bool-cases (key x == last)) [
    | inl e ↦ rw e (distinct_items-append last xs ys)
    | inr e ↦ rw e (
        ap (λ f. emit x >>= f) (fun_ext (λ _. distinct_items-append (key x) xs ys))
        ∙ sym (bind_assoc (emit x) _ _))
  ]
