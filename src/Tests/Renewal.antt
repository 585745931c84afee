-- ===== src/Tests/Renewal.antt =====
-- Tests of the renewals of the Vault token, over numbers with two binary digits after the point.
use native.Mathlib.Nat.{mul-le-mul}
use solace_prometheus_export.Prelude.{
  ℕ, ◌+◌, ◌-◌, ◌*◌, ◌/◌, ◌≤◌, refl, String, none, some, [], ◌∷◌, ◌==◌, All, arith, if◌then◌else◌,
}
use solace_prometheus_export.Prelude.Int.{pos}
use solace_prometheus_export.Prelude.Result.{ok, err}
use solace_prometheus_export.Secret.Jitter.{Floats, IsRounding}
use solace_prometheus_export.Secret.Renewal.{min_renew_slack, renewals, renewals_slack}

-- A number counts quarters; 0.2 is rounded to one of them.
abbrev quarters : Floats ℕ
quarters = record {
  of_duration = λ n. 4 * n;
  to_duration = λ x. pos (x / 4);
  add = λ x y. x + y;
  sub = λ x y. x - y;
  mul = λ x y. x * y / 4;
  literal = λ s. if s == "2" then 8 else 1;
}

abbrev Between : ℕ → ℕ → ℕ → Type 0
Between a x b = (a ≤ x) × (x ≤ b)

quarters-IsRounding : IsRounding quarters Between
quarters-IsRounding = record {
  of_duration_between = λ n h. (omega arith, omega arith);
  two_between = (omega arith, omega arith);
  fifth_between = (omega arith, omega arith);
  add_between = λ a b c d x y h p q. (omega (arith, p.0, q.0), omega (arith, p.1, q.1));
  sub_between = λ a b c d x y h k p q. (omega (arith, p.0, q.1), omega (arith, p.1, q.0));
  mul_between = λ a b c d e x y h k p q.
      (omega (arith, mul-le-mul p.0 q.0), omega (arith, h, mul-le-mul p.1 q.1));
  to_duration_between = λ a b x h p. (x / 4, refl, omega (arith, p.0), omega (arith, p.1));
}

renewals_slack_example :
    All
      (λ wait. min_renew_slack ≤ wait)
      (renewals {E = String} quarters 0
        ((err "sealed", 0) ∷ (err "sealed", 3) ∷ (ok (some (pos 4)), 1) ∷ (ok none, 2) ∷ []))
renewals_slack_example =
    renewals_slack {E = String} quarters Between 0
      ((err "sealed", 0) ∷ (err "sealed", 3) ∷ (ok (some (pos 4)), 1) ∷ (ok none, 2) ∷ [])
      quarters-IsRounding
      (
        (omega arith, omega arith),
        (
          (omega arith, omega arith),
          ((omega arith, omega arith), ((omega arith, omega arith), tt)),
        ),
      )
