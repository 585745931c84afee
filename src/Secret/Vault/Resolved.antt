-- ===== src/Secret/Vault/Resolved.antt =====
-- The resolver over the Vault backend: resolver.go and ReadSecret of hashicorp_backend.go together.
use solace_prometheus_export.Prelude.{
  ℕ, ◌+◌, ◌≤◌, String, ◌≡◌, refl, Option, none, some, ◌⊎◌, inl, inr, arith,
}
use solace_prometheus_export.Prelude.Int.{ℤ, pos_part}
use solace_prometheus_export.Prelude.Result.{Result, ok, err, wrap_err}
use solace_prometheus_export.Text.{cut, cut_prefix}
use solace_prometheus_export.Secret.{Backend, Cache, ResolveError, Timing, resolve, vault_prefix}
use solace_prometheus_export.Secret.Fresh.{Fresh, IsValid}
use solace_prometheus_export.Secret.Resolve.{Current, InOrder, OkIs, Resolved, resolve_lem}
use solace_prometheus_export.Secret.Vault.{ReadError, VaultSecret, read_secret}
use solace_prometheus_export.Secret.Vault.Laws.{HasShortLeases, HeldIn, LivesFor, read_secret_lem}

-- `describe` writes the error of ReadSecret as text.
module _ (describe : ReadError → String) (cache_ttl : ℤ)
    (read : ℕ → String → Result String (Option VaultSecret)) where
  abbrev pub vault_backend : Backend
  vault_backend now path field = wrap_err describe (read_secret cache_ttl read now path field)

  -- Vault gave the value at that time for the path and the field of the reference.
  pub record Given (ref val : String) (at : ℕ) (ttl : ℤ) : Type 0 where
    pub path : String
    pub field : String
    pub address : cut b'#' ref ≡ some (path, field)
    pub secret : VaultSecret
    pub answer : read at path ≡ ok (some secret)
    pub held : HeldIn secret.data_fields field val
    pub lives : LivesFor cache_ttl secret.lease_duration ttl

  -- The value was given in the fetch of this call, or before, and then the call looks for it within its
  -- time to live.
  abbrev pub InTime : Timing → ℕ → ℤ → Type 0
  InTime timing at ttl =
      (at ≡ timing.fetched)
      ⊎ ((stored : ℕ) × (at ≤ stored)
          × (stored ≤ timing.fetched)
          × (timing.looked ≤ stored + pos_part ttl))

  abbrev pub FromVault : Timing → String → String → Type 0
  FromVault timing cfg val =
      (cut_prefix cfg vault_prefix ≡ none) × (val ≡ cfg)
      ⊎ ((ref : String) × (at : ℕ) × (ttl : ℤ) × (cut_prefix cfg vault_prefix ≡ some ref)
          × Given ref val at ttl
          × InTime timing at ttl)

  wrapped :
      (r : Result ReadError (String × ℤ)) (val : String) (ttl : ℤ)
      → wrap_err describe r ≡ ok (val, ttl)
      → r ≡ ok (val, ttl)
  wrapped (ok a) val ttl h = cc
  wrapped (err e) val ttl h = cc

  answer-Given :
      (ref path field val : String) (at : ℕ) (ttl : ℤ)
      → cut b'#' ref ≡ some (path, field)
      → HasShortLeases read
      → vault_backend at path field ≡ ok (val, ttl)
      → Given ref val at ttl
  answer-Given ref path field val at ttl a short h =
      let (secret, p, q, l) =
        read_secret_lem cache_ttl read at path field val ttl short
          (wrapped (read_secret cache_ttl read at path field) val ttl h) in
      record {
        path = path;
        field = field;
        address = a;
        secret = secret;
        answer = p;
        held = q;
        lives = l;
      }

  Fresh-Given :
      (timing : Timing) (now : ℕ) (ref val : String)
      → timing.looked ≤ now
      → now ≤ timing.fetched
      → HasShortLeases read
      → Fresh vault_backend now ref val
      → (at : ℕ) × (ttl : ℤ) × Given ref val at ttl × InTime timing at ttl
  Fresh-Given timing now ref val le le' short (c, r, e, left) = (
    r.read,
    r.ttl,
    answer-Given ref r.path r.field val r.read r.ttl r.address short (rw e at r.answer),
    inr (r.stored, r.ordered, omega (arith, r.past), omega (arith, r.expires)),
  )

  Current-Given :
      (timing : Timing) (ref val : String)
      → InOrder vault_backend timing
      → HasShortLeases read
      → Current vault_backend timing ref val
      → (at : ℕ) × (ttl : ℤ) × Given ref val at ttl × InTime timing at ttl
  Current-Given timing ref val n short (inl f) =
      Fresh-Given timing timing.looked ref val (omega arith) n.0 short f
  Current-Given timing ref val n short (inr (inl f)) =
      Fresh-Given timing timing.fetched ref val n.0 (omega arith) short f
  Current-Given timing ref val n short (inr (inr (path, field, ttl, a, h))) =
      (timing.fetched, ttl, answer-Given ref path field val timing.fetched ttl a short h, inl refl)

  Resolved-FromVault :
      (timing : Timing) (cfg : String) (r : Result ResolveError String)
      → InOrder vault_backend timing
      → HasShortLeases read
      → OkIs vault_backend (Resolved vault_backend timing cfg) r
      → OkIs vault_backend (FromVault timing cfg) r
  Resolved-FromVault timing cfg (err e) n short h = tt
  Resolved-FromVault timing cfg (ok val) n short (inl h) = inl h
  Resolved-FromVault timing cfg (ok val) n short (inr (ref, p, c)) =
      let (at, ttl, given, time) = Current-Given timing ref val n short c in
      inr (ref, at, ttl, p, given, time)

  -- Over the Vault backend, where no lease is longer than 292 years, the times of a call are in their order
  -- and every entry of the cache was read from this backend before, what Resolve returns without an error is the text itself where that is
  -- no reference, and else the text of the field in a secret that Vault gave for the path: in the fetch of
  -- this call, or before, and then the call comes within half the lease of that secret, or within the
  -- configured time where it has no lease, since the value was stored.
  pub resolve-FromVault :
      (timing : Timing) (cfg : String) (cache : Cache)
      → InOrder vault_backend timing
      → HasShortLeases read
      → IsValid vault_backend timing.looked cache
      → OkIs vault_backend (FromVault timing cfg) (resolve (some vault_backend) timing cfg cache).0
  resolve-FromVault timing cfg cache n short h =
      Resolved-FromVault timing cfg _ n short (resolve_lem vault_backend timing cfg cache n h).0
