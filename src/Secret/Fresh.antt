-- ===== src/Secret/Fresh.antt =====
-- Where the values that Resolve returns come from, and how old they are.
use solace_prometheus_export.Prelude.{
  ℕ, ◌+◌, ◌≤◌, ◌≡◌, refl, String, Bool-cases, inl, inr, Option, none, some, ◌==◌, eq_iff, arith,
  ltb, lookup, insert, delete, lookup-insert, lookup-delete,
}
use mathlib.Core.Path.{subst}
use solace_prometheus_export.Prelude.Int.{ℤ, pos, leb_ℤ, pos_part}
use solace_prometheus_export.Prelude.Result.{ok}
use solace_prometheus_export.Text.{cut}
use solace_prometheus_export.Secret.{Backend, Cache, CachedSecret, cache_get, cache_set, entry_at}

module _ (read_secret : Backend) where
  -- The value was read from the backend under the path and the field of the reference, was stored after
  -- that and not after the time `clock`, and expires its time to live after it was stored.
  pub record Read (clock : ℕ) (ref : String) (cached : CachedSecret) : Type 0 where
    pub path : String
    pub field : String
    pub address : cut b'#' ref ≡ some (path, field)
    pub read : ℕ
    pub stored : ℕ
    pub ttl : ℤ
    pub answer : read_secret read path field ≡ ok (cached.value, ttl)
    pub ordered : read ≤ stored
    pub past : stored ≤ clock
    pub expires : cached.expires_at ≡ stored + pos_part ttl

  Read-later :
      (clock later : ℕ) (ref : String) (cached : CachedSecret)
      → clock ≤ later
      → Read clock ref cached
      → Read later ref cached
  Read-later clock later ref cached le r = record {
    path = r.path;
    field = r.field;
    address = r.address;
    read = r.read;
    stored = r.stored;
    ttl = r.ttl;
    answer = r.answer;
    ordered = r.ordered;
    past = omega (arith, r.past);
    expires = r.expires;
  }

  -- Each entry was read and stored so, up to that time.
  abbrev pub IsValid : ℕ → Cache → Type 0
  IsValid clock cache =
      (ref : String) (cached : CachedSecret)
      → lookup ref cache ≡ some cached
      → Read clock ref cached

  pub IsValid-later :
      (clock later : ℕ) (cache : Cache) → clock ≤ later → IsValid clock cache → IsValid later cache
  IsValid-later clock later cache le h ref cached e =
      Read-later clock later ref cached le (h ref cached e)

  delete-IsValid :
      (clock : ℕ) (k : String) (cache : Cache)
      → IsValid clock cache
      → IsValid clock (delete k cache)
  delete-IsValid clock k cache h ref cached e = elim (Bool-cases (k == ref)) [
    | inl q ↦ absurd (none_some (rw (lookup-delete, q) at e))
    | inr q ↦ h ref cached (rw (lookup-delete, q) at e)
  ]
    where
      none_some : none ≡ some cached → ⊥
      none_some p = cc

  insert-IsValid :
      (clock : ℕ) (k : String) (c : CachedSecret) (cache : Cache)
      → Read clock k c
      → IsValid clock cache
      → IsValid clock (insert k c cache)
  insert-IsValid clock k c cache r h ref cached e = elim (Bool-cases (k == ref)) [
    | inl q ↦
        subst (Read clock ref) (some_eq (rw (lookup-insert, q) at e))
          (subst (λ k. Read clock k c) ((eq_iff k ref).0 q) r)
    | inr q ↦ h ref cached (rw (lookup-insert, q) at e)
  ]
    where
      some_eq : some c ≡ some cached → c ≡ cached
      some_eq p = cc

  entry_at-IsValid :
      (clock now : ℕ) (ref : String) (cache : Cache) (o : Option CachedSecret)
      → IsValid clock cache
      → IsValid clock (entry_at now ref cache o).1
  unfolding entry_at
  entry_at-IsValid clock now ref cache none h = h
  entry_at-IsValid clock now ref cache (some c) h = elim (Bool-cases (ltb c.expires_at now)) [
    | inl q ↦ rw q (delete-IsValid clock ref cache h)
    | inr q ↦ rw q h
  ]

  pub cache_get-IsValid :
      (clock now : ℕ) (ref : String) (cache : Cache)
      → IsValid clock cache
      → IsValid clock (cache_get now ref cache).1
  unfolding cache_get
  cache_get-IsValid clock now ref cache h =
      entry_at-IsValid clock now ref cache (lookup ref cache) h

  pub cache_set-IsValid :
      (clock now : ℕ) (ref val : String) (ttl : ℤ) (cache : Cache)
      → Read clock ref (record { value = val; expires_at = now + pos_part ttl })
      → IsValid clock cache
      → IsValid clock (cache_set now ref val ttl cache)
  unfolding cache_set
  cache_set-IsValid clock now ref val ttl cache r h = elim (Bool-cases (leb_ℤ ttl (pos 0))) [
    | inl q ↦ rw q (delete-IsValid clock ref cache h)
    | inr q ↦ rw q (insert-IsValid clock ref _ cache r h)
  ]

  -- A value read from the backend whose time to live has not gone by at a time.
  abbrev pub Fresh : ℕ → String → String → Type 0
  Fresh now ref val = (c : CachedSecret) × Read now ref c × (c.value ≡ val) × (now ≤ c.expires_at)

  entry_at-Fresh :
      (now : ℕ) (ref val : String) (cache : Cache) (o : Option CachedSecret)
      → ((c : CachedSecret) → o ≡ some c → Read now ref c)
      → (entry_at now ref cache o).0 ≡ some val
      → Fresh now ref val
  unfolding entry_at
  entry_at-Fresh now ref val cache none h e = absurd (cc)
  entry_at-Fresh now ref val cache (some c) h e = elim (Bool-cases (ltb c.expires_at now)) [
    | inl q ↦ absurd (none_some (rw q at e))
    | inr q ↦ (c, h c refl, some_eq (rw q at e), ground arith)
  ]
    where
      none_some : none ≡ some val → ⊥
      none_some p = cc

      some_eq : some c.value ≡ some val → c.value ≡ val
      some_eq p = cc

  -- What a cache that is valid at a time gives then was read from the backend under the path and the
  -- field of the reference, and its time to live has not gone by since it was stored.
  pub cache_get-Fresh :
      (now : ℕ) (ref val : String) (cache : Cache)
      → IsValid now cache
      → (cache_get now ref cache).0 ≡ some val
      → Fresh now ref val
  unfolding cache_get
  cache_get-Fresh now ref val cache h e =
      entry_at-Fresh now ref val cache (lookup ref cache) (λ c q. h ref c q) e

  -- A value that the backend gave at that time for the reference.
  abbrev pub ReadNow : ℕ → String → String → Type 0
  ReadNow now ref val =
      (path field : String) × (ttl : ℤ) × (cut b'#' ref ≡ some (path, field))
      × (read_secret now path field ≡ ok (val, ttl))
