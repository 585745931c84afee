-- ===== src/Secret/Jitter.antt =====
-- applyJitter of internal/secret/hashicorp_backend.go. float64 is a type parameter, its arithmetic a
-- record.
use solace_prometheus_export.Prelude.{ℕ, String, ◌+◌, ◌-◌, ◌*◌, ◌/◌, ◌≤◌, ◌^◌, ◌≡◌, arith}
use solace_prometheus_export.Prelude.Int.{ℤ, pos}

-- The operations of float64 that are used: the conversions from a duration and to one, the arithmetic,
-- and the float of a literal.
pub record Floats (F : Type 0) : Type 0 where
  pub of_duration : ℕ → F
  pub to_duration : F → ℤ
  pub add : F → F → F
  pub sub : F → F → F
  pub mul : F → F → F
  pub literal : String → F

-- renewalRetryJitter
abbrev pub renewal_retry_jitter : String
renewal_retry_jitter = "0.2"

-- `rnd` is the number that rand.Float64 gives; the delay is not negative.
unfoldable pub apply_jitter : {F : Type 0} → Floats F → ℕ → F → ℤ
apply_jitter floats d rnd =
    let spread = floats.mul (floats.of_duration d) (floats.literal renewal_retry_jitter) in
    floats.to_duration (
      floats.add (floats.sub (floats.of_duration d) spread)
        (floats.mul (floats.mul (floats.literal "2") spread) rnd))

-- The numbers up to here are floats, as are their quarters.
abbrev pub exact : ℕ
exact = 2 ^ 53

-- Interval arithmetic of float64. `Between a x b`: x is a number from a / 4 to b / 4. Quarters of whole
-- numbers up to 2 ^ 53 are floats, and rounding keeps the order, so a result stays between such bounds
-- of the exact one.
pub record IsRounding {F : Type 0} (floats : Floats F) (Between : ℕ → F → ℕ → Type 0) : Type 0 where
  pub of_duration_between : (n : ℕ) → 4 * n ≤ exact → Between (4 * n) (floats.of_duration n) (4 * n)
  pub two_between : Between 8 (floats.literal "2") 8
  pub fifth_between : Between 0 (floats.literal "0.2") 1
  pub add_between :
      (a b c d : ℕ) (x y : F)
      → b + d ≤ exact
      → Between a x b
      → Between c y d
      → Between (a + c) (floats.add x y) (b + d)
  pub sub_between :
      (a b c d : ℕ) (x y : F)
      → b ≤ exact
      → d ≤ a
      → Between a x b
      → Between c y d
      → Between (a - d) (floats.sub x y) (b - c)
  pub mul_between :
      (a b c d e : ℕ) (x y : F)
      → b * d ≤ 4 * e
      → e ≤ exact
      → Between a x b
      → Between c y d
      → Between (a * c / 4) (floats.mul x y) e
  pub to_duration_between :
      (a b : ℕ) (x : F)
      → b ≤ exact
      → Between a x b
      → (m : ℕ) × (floats.to_duration x ≡ pos m) × (a ≤ 4 * m + 3) × (4 * m ≤ b)

-- With a number of rand.Float64 from 0 to 1, a delay d below 2 ^ 50 becomes one from 3 / 4 d, but for
-- the rounding down to a whole number, to 3 / 2 d.
pub apply_jitter_bounds :
    {F : Type 0} (floats : Floats F) (Between : ℕ → F → ℕ → Type 0) (d : ℕ) (rnd : F)
    → IsRounding floats Between
    → d ≤ 2 ^ 50
    → Between 0 rnd 4
    → (m : ℕ) × (apply_jitter floats d rnd ≡ pos m) × (3 * d ≤ 4 * m + 3) × (4 * m ≤ 6 * d)
unfolding apply_jitter
apply_jitter_bounds floats Between d rnd r small h =
    let of_d = r.of_duration_between d (omega arith) in
    let spread =
      r.mul_between (4 * d) (4 * d) 0 1 d _ _ (omega arith) (omega arith) of_d r.fifth_between in
    let low = r.sub_between (4 * d) (4 * d) _ d _ _ (omega arith) (omega arith) of_d spread in
    let twice =
      r.mul_between 8 8 _ d (2 * d) _ _ (omega arith) (omega arith) r.two_between spread in
    let more = r.mul_between _ (2 * d) 0 4 (2 * d) _ _ (omega arith) (omega arith) twice h in
    let whole = r.add_between _ _ _ _ _ _ (omega arith) low more in
    let (m, e, p, q) = r.to_duration_between _ _ _ (omega arith) whole in
    (m, e, omega arith, omega arith)
