-- ===== src/Secret/Resolve.antt =====
-- Resolve as a whole.
use solace_prometheus_export.Prelude.{
  ap, ◌∙◌, ℕ, ◌≤◌, arith, ◌≡◌, refl, String, Bool-cases, inl, inr, ◌⊎◌, Option, none, some, ◌||◌,
}
use solace_prometheus_export.Prelude.Int.{ℤ}
use solace_prometheus_export.Prelude.Result.{Result, ok, err}
use solace_prometheus_export.Text.{cut, cut_prefix, is_empty}
use solace_prometheus_export.Secret.{
  Reference, vault_prefix, Backend, Cache, Timing, ResolveError, in_parts, without_prefix,
  cache_get, fetch, or_read, read_result, finish, on_lookup, resolve, parse_reference,
  resolve_reference,
}
use solace_prometheus_export.Secret.Fresh.{
  IsValid, Fresh, ReadNow, IsValid-later, cache_get-IsValid, cache_set-IsValid, cache_get-Fresh,
}

module _ (read_secret : Backend) where
  -- A value of the reference that was cached and is fresh, or that is read just now.
  abbrev pub Current : Timing → String → String → Type 0
  Current timing ref val =
      Fresh read_secret timing.looked ref val
      ⊎ Fresh read_secret timing.fetched ref val
      ⊎ ReadNow read_secret timing.fetched ref val

  -- A text that is no reference, or a current value of its reference.
  abbrev pub Resolved : Timing → String → String → Type 0
  Resolved timing cfg val =
      (cut_prefix cfg vault_prefix ≡ none) × (val ≡ cfg)
      ⊎ ((ref : String) × (cut_prefix cfg vault_prefix ≡ some ref) × Current timing ref val)

  abbrev pub OkIs : (String → Type 0) → Result ResolveError String → Type 0
  OkIs P (ok val) = P val
  OkIs P (err e) = Unit

  -- The times of a call are in their order.
  abbrev pub InOrder : Timing → Type 0
  InOrder timing = (timing.looked ≤ timing.fetched) × (timing.fetched ≤ timing.stored)

  -- The cache is valid after, at that time, and a result that is no error satisfies `P`.
  abbrev pub Sound : ℕ → (String → Type 0) → Result ResolveError String × Cache → Type 0
  Sound clock P (r, cache) = OkIs P r × IsValid read_secret clock cache

  finish_read :
      (timing : Timing) (ref path field : String) (cache : Cache) (o : Option String)
      (r : Result String (String × ℤ))
      → InOrder timing
      → cut b'#' ref ≡ some (path, field)
      → read_secret timing.fetched path field ≡ r
      → IsValid read_secret timing.stored cache
      → Sound timing.stored (Current timing ref) (finish timing.stored o ref (read_result r, cache))
  finish_read timing ref path field cache (some e) (ok (val, ttl)) n a q h = (tt, h)
  finish_read timing ref path field cache (some e) (err e') n a q h = (tt, h)
  finish_read timing ref path field cache none (err e) n a q h = (tt, h)
  finish_read timing ref path field cache none (ok (val, ttl)) n a q h = (
    inr (inr (path, field, ttl, a, q)),
    cache_set-IsValid read_secret timing.stored timing.stored ref val ttl cache
        (record {
          path = path;
          field = field;
          address = a;
          read = timing.fetched;
          stored = timing.stored;
          ttl = ttl;
          answer = q;
          ordered = n.1;
          past = omega arith;
          expires = refl;
        })
        h,
  )

  finish_fetch :
      (timing : Timing) (ref path field : String) (g : Option String × Cache) (o : Option String)
      → InOrder timing
      → cut b'#' ref ≡ some (path, field)
      → ((val : String) → g.0 ≡ some val → Fresh read_secret timing.fetched ref val)
      → IsValid read_secret timing.fetched g.1
      → Sound timing.stored
          (Current timing ref)
          (finish timing.stored o ref (or_read read_secret timing.fetched path field g))
  finish_fetch timing ref path field (none, cache) o n a f h =
      finish_read timing ref path field cache o (read_secret timing.fetched path field) n a refl
        (IsValid-later read_secret timing.fetched timing.stored cache n.1 h)
  finish_fetch timing ref path field (some val, cache) (some e) n a f h =
      (tt, IsValid-later read_secret timing.fetched timing.stored cache n.1 h)
  finish_fetch timing ref path field (some val, cache) none n a f h =
      (inr (inl (f val refl)), IsValid-later read_secret timing.fetched timing.stored cache n.1 h)

  later : (timing : Timing) → InOrder timing → timing.looked ≤ timing.stored
  later timing n = omega (arith, n.0, n.1)

  lookup_Sound :
      (timing : Timing) (ref path field : String) (g : Option String × Cache)
      → InOrder timing
      → cut b'#' ref ≡ some (path, field)
      → ((val : String) → g.0 ≡ some val → Fresh read_secret timing.looked ref val)
      → IsValid read_secret timing.looked g.1
      → Sound timing.stored
          (Current timing ref)
          (on_lookup (some read_secret) timing ref path field g)
  unfolding fetch
  lookup_Sound timing ref path field (some val, cache) n a f h = (
    inl (f val refl),
    IsValid-later read_secret timing.looked timing.stored cache (later timing n) h,
  )
  lookup_Sound timing ref path field (none, cache) n a f h =
      let h' = IsValid-later read_secret timing.looked timing.fetched cache n.0 h in
      finish_fetch timing ref path field (cache_get timing.fetched ref cache) timing.cancelled n a
        (λ val e. cache_get-Fresh read_secret timing.fetched ref val cache h' e)
        (cache_get-IsValid read_secret timing.fetched timing.fetched ref cache h')

  parts_Sound :
      (timing : Timing) (ref : String) (cache : Cache) (o : Option (String × String))
      → InOrder timing
      → cut b'#' ref ≡ o
      → IsValid read_secret timing.looked cache
      → Sound timing.stored
          (Current timing ref)
          (resolve_reference (some read_secret) timing cache (in_parts ref o))
  parts_Sound timing ref cache none n a h =
      (tt, IsValid-later read_secret timing.looked timing.stored cache (later timing n) h)
  parts_Sound timing ref cache (some (path, field)) n a h =
      elim (Bool-cases (is_empty path || is_empty field)) [
        | inl q ↦
            rw q
              (tt, IsValid-later read_secret timing.looked timing.stored cache (later timing n) h)
        | inr q ↦ rw q (
            lookup_Sound timing ref path field (cache_get timing.looked ref cache) n a
              (λ val e. cache_get-Fresh read_secret timing.looked ref val cache h e)
              (cache_get-IsValid read_secret timing.looked timing.looked ref cache h))
      ]

  Sound-map :
      (clock : ℕ) (P Q : String → Type 0) (r : Result ResolveError String × Cache)
      → ((val : String) → P val → Q val)
      → Sound clock P r
      → Sound clock Q r
  Sound-map clock P Q (ok val, cache) f (p, h) = (f val p, h)
  Sound-map clock P Q (err e, cache) f (p, h) = (tt, h)

  -- Where the times of a call are in their order, and every entry of the cache was read from the backend
  -- and stored before the call, Resolve keeps that so until its end, and what it returns without an
  -- error is the text itself where that is no reference, and else a value that the backend gave for the
  -- path and the field of the reference: in the fetch of this call, or before, and then stored no longer
  -- than its time to live before the call looks at the cache.
  pub resolve_lem :
      (timing : Timing) (cfg : String) (cache : Cache)
      → InOrder timing
      → IsValid read_secret timing.looked cache
      → Sound timing.stored (Resolved timing cfg) (resolve (some read_secret) timing cfg cache)
  unfolding resolve parse_reference
  resolve_lem timing cfg cache n h = of_prefix (cut_prefix cfg vault_prefix) refl
    where
      of_prefix :
          (o : Option String)
          → cut_prefix cfg vault_prefix ≡ o
          → Sound timing.stored
              (Resolved timing cfg)
              (resolve_reference (some read_secret) timing cache (without_prefix cfg o))
      of_prefix none e = (
        inl (e, refl),
        IsValid-later read_secret timing.looked timing.stored cache (later timing n) h,
      )
      of_prefix (some ref) e =
          Sound-map timing.stored (Current timing ref) (Resolved timing cfg) _
            (λ val c. inr (ref, e, c)) (parts_Sound timing ref cache (cut b'#' ref) n refl h)

module _ (read_secret : Backend) where
  finish_returns :
      (timing : Timing) (ref path field val : String) (ttl : ℤ) (g : Option String × Cache)
      → read_secret timing.fetched path field ≡ ok (val, ttl)
      → (v : String) × ((finish timing.stored none ref
            (or_read read_secret timing.fetched path field g)).0
          ≡ ok v)
  finish_returns timing ref path field val ttl (some v, cache) a = (v, refl)
  finish_returns timing ref path field val ttl (none, cache) a = (val, rw a refl)

  lookup_returns :
      (timing : Timing) (ref path field val : String) (ttl : ℤ) (g : Option String × Cache)
      → timing.cancelled ≡ none
      → read_secret timing.fetched path field ≡ ok (val, ttl)
      → (v : String) × ((on_lookup (some read_secret) timing ref path field g).0 ≡ ok v)
  unfolding fetch
  lookup_returns timing ref path field val ttl (some v, cache) c a = (v, refl)
  lookup_returns timing ref path field val ttl (none, cache) c a =
      let (v, e) =
        finish_returns timing ref path field val ttl (cache_get timing.fetched ref cache) a in
      (
        v,
        ap
              (λ o.
                (finish timing.stored o ref (
                  or_read read_secret timing.fetched path field
                    (cache_get timing.fetched ref cache))).0)
              c
            ∙ e,
      )

  -- Where the call is not cancelled and the backend answers for the path and the field of a well-formed
  -- reference, Resolve returns a value, whatever the cache holds.
  pub resolve_returns :
      (timing : Timing) (cfg ref path field val : String) (ttl : ℤ) (cache : Cache)
      → timing.cancelled ≡ none
      → parse_reference cfg ≡ Reference.secret ref path field
      → read_secret timing.fetched path field ≡ ok (val, ttl)
      → (v : String) × ((resolve (some read_secret) timing cfg cache).0 ≡ ok v)
  unfolding resolve
  resolve_returns timing cfg ref path field val ttl cache c p a =
      let (v, e) =
        lookup_returns timing ref path field val ttl (cache_get timing.looked ref cache) c a in
      (v, ap (λ r. (resolve_reference (some read_secret) timing cache r).0) p ∙ e)
