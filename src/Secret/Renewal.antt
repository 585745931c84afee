-- ===== src/Secret/Renewal.antt =====
-- The pace of the renewals of the Vault token: nextRenewalRetryDelay and the loop of startTokenRenewal
-- (internal/secret/hashicorp_backend.go), in nanoseconds.
use solace_prometheus_export.Prelude.{
  ℕ, zero, suc, ◌-◌, ◌*◌, ◌/◌, ◌%◌, ◌≤◌, ◌≡◌, ap, ◌∙◌, ◌^◌, min, Bool-cases, inl, inr, Option, none,
  some, List, [], ◌∷◌, arith, ltb, leb, All, if◌then◌else◌,
}
use native.Mathlib.Numerals.{unary_clauses}
use native.Mathlib.Nat.{mul_assoc, mul_comm}
use solace_prometheus_export.Secret.Jitter.{Floats, IsRounding, apply_jitter, apply_jitter_bounds}
use solace_prometheus_export.Prelude.Result.{Result, ok, err}
use solace_prometheus_export.Prelude.Int.{ℤ, pos, negsuc, pos_part}

abbrev pub second : ℕ
second = 1000000000

abbrev pub min_renew_slack : ℕ
min_renew_slack = 5000000000

abbrev pub token_renew_fallback_ttl : ℕ
token_renew_fallback_ttl = 60000000000

abbrev pub renewal_retry_base_delay : ℕ
renewal_retry_base_delay = 30000000000

abbrev pub renewal_retry_max_delay : ℕ
renewal_retry_max_delay = 600000000000

-- The rounds that are left of the loop, and the delay.
doubled : ℕ → ℕ → ℕ
doubled zero delay = delay
doubled (suc n) delay =
    let more = doubled n (delay * 2) in if ltb delay renewal_retry_max_delay then more else delay

abbrev pub at_most : ℕ → ℕ → ℕ
at_most limit delay = if ltb limit delay then limit else delay

unfoldable pub next_renewal_retry_delay : ℤ → ℕ
unfolding doubled
next_renewal_retry_delay consecutive_failures =
    at_most renewal_retry_max_delay
      (doubled (pos_part consecutive_failures - 1) renewal_retry_base_delay)

at_most-min : (limit delay : ℕ) → at_most limit delay ≡ min limit delay
at_most-min limit delay = ground arith

grows : (d n : ℕ) → d ≤ d * 2 ^ n
grows d zero = simp unary_clauses (omega arith)
grows d (suc n) = simp unary_clauses (omega (arith, grows d n))

twice : (d n : ℕ) → d * 2 * 2 ^ n ≡ d * 2 ^ suc n
twice d n = simp unary_clauses (mul_assoc d 2 (2 ^ n) ∙ ap (λ m. d * m) (mul_comm 2 (2 ^ n)))

doubled_lem :
    (n d : ℕ)
    → at_most renewal_retry_max_delay (doubled n d) ≡ at_most renewal_retry_max_delay (d * 2 ^ n)
unfolding doubled
doubled_lem zero d = ap (at_most renewal_retry_max_delay) whole
  where
    whole : d ≡ d * 2 ^ 0
    whole = simp unary_clauses (omega arith)
doubled_lem (suc n) d = elim (Bool-cases (ltb d renewal_retry_max_delay)) [
  | inl e ↦ rw e (doubled_lem n (d * 2) ∙ ap (at_most renewal_retry_max_delay) (twice d n))
  | inr e ↦ ground (arith, grows d (suc n))
]

-- The delay after `n + 1` failures in a row is the base delay doubled `n` times, cut off at the maximum.
pub next_renewal_retry_delay_lem :
    (n : ℕ)
    → next_renewal_retry_delay (pos (suc n))
      ≡ min renewal_retry_max_delay (renewal_retry_base_delay * 2 ^ n)
unfolding next_renewal_retry_delay
next_renewal_retry_delay_lem n =
    ap (λ k. at_most renewal_retry_max_delay (doubled k renewal_retry_base_delay)) one_less
    ∙ doubled_lem n renewal_retry_base_delay
    ∙ at_most-min renewal_retry_max_delay _
  where
    one_less : suc n - 1 ≡ n
    one_less = omega arith

at_least : (n d : ℕ) → d ≤ doubled n d
unfolding doubled
at_least zero d = omega arith
at_least (suc n) d = ground (arith, at_least n (d * 2))

-- Whatever the number of failures, also one below 1, the delay is between the base delay and the maximum.
pub next_renewal_retry_delay_bounds :
    (n : ℤ)
    → (renewal_retry_base_delay ≤ next_renewal_retry_delay n)
      × (next_renewal_retry_delay n ≤ renewal_retry_max_delay)
unfolding next_renewal_retry_delay
next_renewal_retry_delay_bounds n =
    let h = at_least (pos_part n - 1) renewal_retry_base_delay in (ground (arith, h), ground arith)

-- int64 arithmetic wraps around.
abbrev pub wrap_64 : ℕ → ℤ
wrap_64 n = let m = n % 2 ^ 64 in if ltb m (2 ^ 63) then pos m else negsuc (2 ^ 64 - m - 1)

-- RenewSelf's reply: the lease duration in seconds, or `none` where a part of the reply is nil.
abbrev pub ttl_of : Option ℤ → ℤ
ttl_of none = pos token_renew_fallback_ttl
ttl_of (some (negsuc n)) = pos token_renew_fallback_ttl
ttl_of (some (pos n)) = if leb n 0 then pos token_renew_fallback_ttl else wrap_64 (n * second)

-- ttl / 2, and at least the slack; a negative time is below it.
unfoldable pub renew_sleep : Option ℤ → ℕ
renew_sleep lease =
    let half = pos_part (ttl_of lease) / 2 in
    if ltb half min_renew_slack then min_renew_slack else half

-- One round of the loop: the failures in a row, and the time until the next round. Each round has the
-- number that rand.Float64 gives in it, which is drawn after a failure only.
module _ {E F : Type 0} (floats : Floats F) where
  unfoldable pub renew : ℕ → Result E (Option ℤ) → F → ℕ × ℕ
  renew failures (err e) rnd = (
    suc failures,
    pos_part (apply_jitter floats (next_renewal_retry_delay (pos (suc failures))) rnd),
  )
  renew failures (ok lease) rnd = (0, renew_sleep lease)

  -- The waits of the rounds with those replies.
  unfoldable pub renewals : ℕ → List (Result E (Option ℤ) × F) → List ℕ
  renewals failures [] = []
  renewals failures ((r, rnd) ∷ replies) =
      let (failures', wait) = renew failures r rnd in wait ∷ renewals failures' replies

renew_sleep-slack : (lease : Option ℤ) → min_renew_slack ≤ renew_sleep lease
unfolding renew_sleep
renew_sleep-slack lease = ground arith

jitter-slack :
    {F : Type 0} (floats : Floats F) (Between : ℕ → F → ℕ → Type 0) (d : ℕ) (rnd : F)
    → IsRounding floats Between
    → renewal_retry_base_delay ≤ d
    → d ≤ renewal_retry_max_delay
    → Between 0 rnd 4
    → min_renew_slack ≤ pos_part (apply_jitter floats d rnd)
jitter-slack floats Between d rnd r lo hi h =
    let (m, e, p, q) = apply_jitter_bounds floats Between d rnd r (omega arith) h in
    rw e (omega arith)

-- Where floats round as float64 does and the random numbers are from 0 to 1, the loop waits at least
-- five seconds after each renewal, whatever Vault replies and however many renewals have failed.
pub renewals_slack :
    {E F : Type 0} (floats : Floats F) (Between : ℕ → F → ℕ → Type 0) (failures : ℕ)
    (replies : List (Result E (Option ℤ) × F))
    → IsRounding floats Between
    → All (λ reply. Between 0 reply.1 4) replies
    → All (λ wait. min_renew_slack ≤ wait) (renewals floats failures replies)
unfolding renewals renew
renewals_slack floats Between failures [] r k = tt
renewals_slack floats Between failures ((err e, rnd) ∷ replies) r k =
    let (lo, hi) = next_renewal_retry_delay_bounds (pos (suc failures)) in
    (
      jitter-slack floats Between (next_renewal_retry_delay (pos (suc failures))) rnd r lo hi k.0,
      renewals_slack floats Between (suc failures) replies r k.1,
    )
renewals_slack floats Between failures ((ok lease, rnd) ∷ replies) r k =
    (renew_sleep-slack lease, renewals_slack floats Between 0 replies r k.1)
