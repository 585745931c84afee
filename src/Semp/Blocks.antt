-- ===== src/Semp/Blocks.antt =====
-- The statements around the sends of a scrape: loops over parts of a reply, and blocks under a condition.
-- A block stands for the samples that it sends, in their order.
use solace_prometheus_export.Prelude.{
  ℕ, suc, String, ◌≡◌, refl, Bool, true, false, ◌&&◌, Option, none, some, List, [], ◌∷◌, ◌++◌, all,
  if◌then◌else◌,
}
use solace_prometheus_export.Semp.Samples.{Sample, fits}

abbrev pub is_nil : {A : Type 0} → List A → Bool
is_nil [] = true
is_nil (x ∷ xs) = false

both_true : (a b : Bool) → (a && b) ≡ true → (a ≡ true) × (b ≡ true)
both_true true b h = (refl, h)
both_true false b h = cc

module _ {F : Type 0} where
  -- One block, and then the next.
  infixr 5 ◌<+>◌
  unfoldable pub ◌<+>◌ : List (Sample F) → List (Sample F) → List (Sample F)
  xs <+> ys = xs ++ ys

  -- if c { … } else { … }
  unfoldable pub branch : Bool → List (Sample F) → List (Sample F) → List (Sample F)
  branch c xs ys = if c then xs else ys

  -- if value, err := strconv.ParseFloat(…); err == nil { … }
  unfoldable pub with_float : F × Option String → (F → List (Sample F)) → List (Sample F)
  with_float (value, none) block = block value
  with_float (value, some e) block = []

  -- if len(items) > 0 { … }, where the block reads items[0]
  unfoldable pub with_first : {A : Type 0} → List A → (A → List (Sample F)) → List (Sample F)
  with_first [] block = []
  with_first (x ∷ xs) block = block x

  -- for _, x := range items { … }
  unfoldable pub each_samples : {A : Type 0} → (A → List (Sample F)) → List A → List (Sample F)
  each_samples block [] = []
  each_samples block (x ∷ xs) = block x <+> each_samples block xs

  -- for i, x := range items { … }
  unfoldable pub each_indexed :
      {A : Type 0} → (ℕ → A → List (Sample F)) → ℕ → List A → List (Sample F)
  each_indexed block i [] = []
  each_indexed block i (x ∷ xs) = block i x <+> each_indexed block (suc i) xs

  -- Each of the samples has a descriptor with as many labels as the sample has values.
  pub record AllFit (samples : List (Sample F)) : Type 0 where
    pub all_fit : all fits samples ≡ true

  pub cons-AllFit :
      {s : Sample F} {samples : List (Sample F)}
      → fits s ≡ true
      → AllFit samples
      → AllFit (s ∷ samples)
  cons-AllFit h p = record { all_fit = rw (h, p.all_fit) refl }

  pub uncons-AllFit :
      {s : Sample F} {samples : List (Sample F)}
      → AllFit (s ∷ samples)
      → (fits s ≡ true) × AllFit samples
  uncons-AllFit {s} {samples} p =
      let (h, t) = both_true (fits s) (all fits samples) p.all_fit in (h, record { all_fit = t })

  pub append-AllFit : {xs ys : List (Sample F)} → AllFit xs → AllFit ys → AllFit (xs <+> ys)
  unfolding ◌<+>◌
  append-AllFit {xs} {ys} p q = record { all_fit = joined xs p.all_fit }
    where
      joined : (zs : List (Sample F)) → all fits zs ≡ true → all fits (zs ++ ys) ≡ true
      joined [] h = q.all_fit
      joined (z ∷ zs) h =
          let (k, t) = both_true (fits z) (all fits zs) h in rw (k, joined zs t) refl

  pub branch-AllFit :
      {xs ys : List (Sample F)} (c : Bool) → AllFit xs → AllFit ys → AllFit (branch c xs ys)
  unfolding branch
  branch-AllFit true p q = p
  branch-AllFit false p q = q

  pub none-AllFit : AllFit []
  none-AllFit = record { all_fit = refl }

  pub with_float-AllFit :
      (p : F × Option String) {block : F → List (Sample F)}
      → ((value : F) → AllFit (block value))
      → AllFit (with_float p block)
  unfolding with_float
  with_float-AllFit (value, none) h = h value
  with_float-AllFit (value, some e) h = none-AllFit

  pub with_first-AllFit :
      {A : Type 0} {block : A → List (Sample F)} (xs : List A)
      → ((x : A) → AllFit (block x))
      → AllFit (with_first xs block)
  unfolding with_first
  with_first-AllFit [] h = none-AllFit
  with_first-AllFit (x ∷ xs) h = h x

  pub each_samples-AllFit :
      {A : Type 0} {block : A → List (Sample F)} (xs : List A)
      → ((x : A) → AllFit (block x))
      → AllFit (each_samples block xs)
  unfolding each_samples
  each_samples-AllFit [] h = none-AllFit
  each_samples-AllFit (x ∷ xs) h = append-AllFit (h x) (each_samples-AllFit xs h)

  pub each_indexed-AllFit :
      {A : Type 0} {block : ℕ → A → List (Sample F)} (i : ℕ) (xs : List A)
      → ((j : ℕ) (x : A) → AllFit (block j x))
      → AllFit (each_indexed block i xs)
  unfolding each_indexed
  each_indexed-AllFit i [] h = none-AllFit
  each_indexed-AllFit i (x ∷ xs) h = append-AllFit (h i x) (each_indexed-AllFit (suc i) xs h)
