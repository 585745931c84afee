-- ===== src/Secret/Vault/Laws.antt =====
-- What ReadSecret returns, and what authenticate leaves behind.
use solace_prometheus_export.Prelude.{
  ℕ, ◌^◌, ◌<◌, ◌*◌, ◌+◌, ◌/◌, ◌≤◌, String, ◌≡◌, refl, Option, none, some, arith, ◌⊎◌, inl, inr,
  Bool-cases, ltb, true, false, ◌==◌, Bool, lookup, lookup-delete, ◌∙◌, ap, sym, eq_iff,
}
use solace_prometheus_export.Prelude.Int.{ℤ, pos, negsuc, pos_part}
use solace_prometheus_export.Prelude.Result.{Result, ok, err, >>=-eq-ok}
use solace_prometheus_export.Secret.Renewal.{second, wrap_64}
use solace_prometheus_export.Secret.Vault.{
  Value, text, number, float, boolean, null, object, find, kv_fields, nested_or, is_nil_value,
  Fields, VaultSecret, read_secret, World, authenticate, with_file, read_answer, string_of, ttl_of,
}

-- The time to live for this lease: half of it, rounded down, or the configured time where there is none.
abbrev pub LivesFor : ℤ → ℤ → ℤ → Type 0
LivesFor cache_ttl (pos n) ttl =
    ((n ≡ 0) × (ttl ≡ cache_ttl))
    ⊎ ((m : ℕ) × (ttl ≡ pos m) × (m + m ≤ n * second) × (n * second ≤ m + m + 1))
LivesFor cache_ttl (negsuc n) ttl = ttl ≡ cache_ttl

-- The lease, in seconds, is below 2 ^ 63 nanoseconds, which are 292 years.
abbrev pub IsShort : ℤ → Type 0
IsShort lease = pos_part lease * second < 2 ^ 63

-- Vault leases no secret for longer.
abbrev pub HasShortLeases : (ℕ → String → Result String (Option VaultSecret)) → Type 0
HasShortLeases read =
    (now : ℕ) (path : String) (secret : VaultSecret)
    → read now path ≡ ok (some secret)
    → IsShort secret.lease_duration

wrap_64_short : (n : ℕ) → n < 2 ^ 63 → wrap_64 n ≡ pos n
wrap_64_short n h = ground arith

ttl_of-LivesFor :
    (cache_ttl lease : ℤ) → IsShort lease → LivesFor cache_ttl lease (ttl_of cache_ttl lease)
unfolding ttl_of
ttl_of-LivesFor cache_ttl (pos n) short = elim (Bool-cases (ltb 0 n)) [
  | inl e ↦
      rw (e, wrap_64_short (n * second) short)
        (inr (n * second / 2, refl, omega arith, omega arith))
  | inr e ↦ rw e (inl (ground arith, refl))
]
ttl_of-LivesFor cache_ttl (negsuc n) short = refl

-- A secret is wrapped, as KV version 2 does, if it has metadata and its fields stand below `data`.
abbrev is_object : Option Value → Bool
is_object (some (object nested)) = true
is_object found = false

-- The text stands in the field below `data` of a wrapped secret, or at the top of one that is not.
abbrev pub HeldIn : Fields → String → String → Type 0
HeldIn all name val =
    ((nested : Fields) × (find "data" all ≡ some (object nested))
      × (is_nil_value (find "metadata" all) ≡ false)
      × (find name nested ≡ some (text val)))
    ⊎ (((is_object (find "data" all) ≡ false) ⊎ (is_nil_value (find "metadata" all) ≡ true))
        × (find name all ≡ some (text val)))

nested_or-HeldIn :
    (all : Fields) (name val : String) (found : Option Value)
    → find "data" all ≡ found
    → find name (nested_or all found (find "metadata" all)) ≡ some (text val)
    → HeldIn all name val
nested_or-HeldIn all name val none e h = inr (inl (rw e refl), h)
nested_or-HeldIn all name val (some (text v)) e h = inr (inl (rw e refl), h)
nested_or-HeldIn all name val (some (number n)) e h = inr (inl (rw e refl), h)
nested_or-HeldIn all name val (some (float n)) e h = inr (inl (rw e refl), h)
nested_or-HeldIn all name val (some (boolean b)) e h = inr (inl (rw e refl), h)
nested_or-HeldIn all name val (some null) e h = inr (inl (rw e refl), h)
nested_or-HeldIn all name val (some (object nested)) e h =
    elim (Bool-cases (is_nil_value (find "metadata" all))) [
      | inl q ↦ inr (inr q, rw q at h)
      | inr q ↦ inl (nested, e, q, rw q at h)
    ]

kv_fields-HeldIn :
    (all : Fields) (name val : String)
    → find name (kv_fields all) ≡ some (text val)
    → HeldIn all name val
unfolding kv_fields
kv_fields-HeldIn all name val = nested_or-HeldIn all name val (find "data" all) refl

string_of-eq-ok :
    (name path val : String) (found : Option Value)
    → string_of name path found ≡ ok val
    → found ≡ some (text val)
string_of-eq-ok name path val none h = cc
string_of-eq-ok name path val (some (text v)) h = cc
string_of-eq-ok name path val (some (number n)) h = cc
string_of-eq-ok name path val (some (float n)) h = cc
string_of-eq-ok name path val (some (boolean b)) h = cc
string_of-eq-ok name path val (some null) h = cc
string_of-eq-ok name path val (some (object o)) h = cc

-- What ReadSecret returns is the text of the field: below `data` for a secret that is wrapped so and has
-- metadata, as KV version 2 does, and at the top for every other one. Where no lease is longer than 292
-- years, it lives for half its lease, or has no lease and lives for the configured time.
pub read_secret_lem :
    (cache_ttl : ℤ) (read : ℕ → String → Result String (Option VaultSecret)) (now : ℕ)
    (path name val : String) (ttl : ℤ)
    → HasShortLeases read
    → read_secret cache_ttl read now path name ≡ ok (val, ttl)
    → (secret : VaultSecret) × (read now path ≡ ok (some secret))
      × HeldIn secret.data_fields name val
      × LivesFor cache_ttl secret.lease_duration ttl
unfolding read_secret
read_secret_lem cache_ttl read now path name val ttl short = of_answer (read now path) refl
  where
    of_answer :
        (a : Result String (Option VaultSecret))
        → read now path ≡ a
        → read_answer cache_ttl path name a ≡ ok (val, ttl)
        → (secret : VaultSecret) × (read now path ≡ ok (some secret))
          × HeldIn secret.data_fields name val
          × LivesFor cache_ttl secret.lease_duration ttl
    of_answer (err e) k h = cc
    of_answer (ok none) k h = cc
    of_answer (ok (some secret)) k h =
        let (v, p, q) =
          >>=-eq-ok (string_of name path (find name (kv_fields secret.data_fields))) _ h in
        let lives = ttl_of-LivesFor cache_ttl secret.lease_duration (short now path secret k) in
        let kept : ttl_of cache_ttl secret.lease_duration ≡ ttl = cc in
        (
          secret,
          k,
          kv_fields-HeldIn secret.data_fields name val (string_of-eq-ok name path val _ cc),
          rw kept at lives,
        )

with_file_again :
    (token_file : String) (world after : World) (found : Option String)
    → with_file true token_file world found ≡ (ok true, after)
    → lookup token_file after.files ≡ none
with_file_again token_file world after none h = cc
with_file_again token_file world after (some contents) h =
    ap (λ p. lookup token_file p.1.files) (sym h)
    ∙ lookup-delete token_file token_file world.files
    ∙ ground (eq_iff token_file token_file, arith)

-- A token file is read once: where VAULT_TOKEN is not set and authenticate has taken the token of the
-- file, and the file can be removed, a second call finds no file and leaves the client's token as it is.
pub authenticate_twice :
    (getenv : String → String) (world after : World)
    → (getenv "VAULT_TOKEN" == "") ≡ true
    → authenticate true getenv world ≡ (ok true, after)
    → authenticate true getenv after ≡ (err (getenv "VAULT_TOKEN_FILE"), after)
unfolding authenticate
authenticate_twice getenv world after unset =
    rw unset (elim (Bool-cases (getenv "VAULT_TOKEN_FILE" == "")) [
      | inl e ↦ rw e λ h. cc
      | inr e ↦ rw e λ h. rw (with_file_again _ world after _ h) refl
    ])
