-- ===== src/Metric/Encode.antt =====
-- internal/semp/encodeMetricBool.go and encodeMetricMulti.go. The float64 results are the integers
-- that the code converts.
use solace_prometheus_export.Prelude.{
  ℕ, suc, ◌+◌, String, ◌≡◌, refl, Bool, true, false, List, [], ◌∷◌, arith, if◌then◌else◌,
  Bool-cases, inl, inr, ◌⊎◌,
}
use solace_prometheus_export.Prelude.Int.{ℤ, pos, negsuc}
use solace_prometheus_export.Text.{equal_fold}

unfoldable pub encode_metric_bool : Bool → ℤ
encode_metric_bool true = pos 1
encode_metric_bool false = pos 0

-- The `range` loop, at index `i`.
multi_from : String → ℕ → List String → ℤ
multi_from item i [] = negsuc 0
multi_from item i (s ∷ ref_items) =
    let rest = multi_from item (i + 1) ref_items in if equal_fold item s then pos i else rest

unfoldable pub encode_metric_multi : String → List String → ℤ
unfolding multi_from
encode_metric_multi item ref_items = multi_from item 0 ref_items

-- `FirstAt item refs n`: the item equals entry `n` up to case, and none before it.
abbrev pub FirstAt : String → List String → ℕ → Type 0
FirstAt item [] n = ⊥
FirstAt item (s ∷ refs) ℕ.zero = equal_fold item s ≡ true
FirstAt item (s ∷ refs) (suc n) = (equal_fold item s ≡ false) × FirstAt item refs n

abbrev pub Nowhere : String → List String → Type 0
Nowhere item [] = Unit
Nowhere item (s ∷ refs) = (equal_fold item s ≡ false) × Nowhere item refs

multi_from_cases :
    (item : String) (i : ℕ) (refs : List String)
    → ((n : ℕ) × (multi_from item i refs ≡ pos (i + n)) × FirstAt item refs n)
      ⊎ ((multi_from item i refs ≡ negsuc 0) × Nowhere item refs)
unfolding multi_from
multi_from_cases item i [] = inr (refl, tt)
multi_from_cases item i (s ∷ refs) = elim (Bool-cases (equal_fold item s)) [
  | inl e ↦ inl (0, ground arith, e)
  | inr e ↦ elim (multi_from_cases item (i + 1) refs) [
    | inl (n, p, q) ↦ inl (suc n, ground arith, (e, q))
    | inr (p, q) ↦ inr (ground arith, (e, q))
  ]
]

-- The encoding of a text is the position of the first entry that equals it up to case, and -1 exactly
-- when no entry does.
pub encode_metric_multi_cases :
    (item : String) (refs : List String)
    → ((n : ℕ) × (encode_metric_multi item refs ≡ pos n) × FirstAt item refs n)
      ⊎ ((encode_metric_multi item refs ≡ negsuc 0) × Nowhere item refs)
unfolding encode_metric_multi
encode_metric_multi_cases item refs = elim (multi_from_cases item 0 refs) [
  | inl (n, p, q) ↦ inl (n, ground arith, q)
  | inr h ↦ inr h
]
