-- ===== src/Secret.antt =====
-- The resolver of secret references: internal/secret/resolver.go. The backend is a parameter, which may
-- answer differently at each time; times are nanoseconds. Of the singleflight group only its effect on
-- one caller is modelled: a fetch that looks at the cache again before it reads the backend.
pub mod Fresh
pub mod Resolve
pub mod Jitter
pub mod Renewal
pub mod Vault
use solace_prometheus_export.Prelude.{
  ℕ, ◌+◌, String, Bool, true, false, ◌||◌, Option, none, some, List, [], ◌∷◌, ◌==◌, ltb,
  if◌then◌else◌, lookup, insert, delete,
}
use solace_prometheus_export.Prelude.Int.{ℤ, pos, leb_ℤ, pos_part}
use solace_prometheus_export.Prelude.Result.{Result, ok, err}
use solace_prometheus_export.Text.{cut, cut_prefix, is_empty}

abbrev pub vault_prefix : String
vault_prefix = "vault:"

pub record CachedSecret : Type 0 where
  pub value : String
  pub expires_at : ℕ

abbrev pub Cache : Type 0
Cache = List (String × CachedSecret)

-- ReadSecret at a time, with a path and a field: the value and the time to live.
abbrev pub Backend : Type 0
Backend = ℕ → String → String → Result String (String × ℤ)

entry_at : ℕ → String → Cache → Option CachedSecret → Option String × Cache
entry_at now ref cache none = (none, cache)
entry_at now ref cache (some cached) =
    if ltb cached.expires_at now then (none, delete ref cache) else (some cached.value, cache)

unfoldable pub cache_get : ℕ → String → Cache → Option String × Cache
unfolding entry_at
cache_get now ref cache = entry_at now ref cache (lookup ref cache)

unfoldable pub cache_set : ℕ → String → String → ℤ → Cache → Cache
cache_set now ref val ttl cache =
    if leb_ℤ ttl (pos 0)
    then delete ref cache
    else insert ref (record { value = val; expires_at = now + pos_part ttl }) cache

-- What a configured text is.
pub data Reference : Type 0 where
  literal : String → Reference
  invalid : String → Reference
  secret : (ref path field : String) → Reference

abbrev pub in_parts : String → Option (String × String) → Reference
in_parts ref none = invalid ref
in_parts ref (some (path, field)) =
    if is_empty path || is_empty field then invalid ref else secret ref path field

abbrev pub without_prefix : String → Option String → Reference
without_prefix cfg none = literal cfg
without_prefix cfg (some ref) = in_parts ref (cut b'#' ref)

unfoldable pub parse_reference : String → Reference
parse_reference cfg = without_prefix cfg (cut_prefix cfg vault_prefix)

-- The result of the shared fetch.
pub record Fetched : Type 0 where
  pub val : String
  pub ttl : ℤ
  pub from_cache : Bool

abbrev pub read_result : Result String (String × ℤ) → Result String Fetched
read_result (err e) = err e
read_result (ok (val, ttl)) = ok (record { val = val; ttl = ttl; from_cache = false })

abbrev pub or_read :
    Backend → ℕ → String → String → Option String × Cache → Result String Fetched × Cache
or_read read_secret now path field (some val, cache) =
    (ok (record { val = val; ttl = pos 0; from_cache = true }), cache)
or_read read_secret now path field (none, cache) = (read_result (read_secret now path field), cache)

-- The body of the shared fetch.
unfoldable pub fetch :
    Backend → ℕ → String → String → String → Cache → Result String Fetched × Cache
fetch read_secret now ref path field cache =
    or_read read_secret now path field (cache_get now ref cache)

-- When a caller looks at the cache, when its fetch runs and when it stores the result, and the error of
-- its context if that is done first.
pub record Timing : Type 0 where
  pub looked : ℕ
  pub fetched : ℕ
  pub stored : ℕ
  pub cancelled : Option String

-- The errors of Resolve, before they are written as texts.
pub data ResolveError : Type 0 where
  invalid_ref : String → ResolveError
  not_initialized : ResolveError
  resolving : String → String → ResolveError

-- The select on the context and the fetch. A fetch whose caller is gone stores nothing.
abbrev pub stored_in : ℕ → String → Fetched → Cache → Cache
stored_in now ref res cache =
    if res.from_cache then cache else cache_set now ref res.val res.ttl cache

abbrev pub returned :
    ℕ → String → Result String Fetched → Cache → Result ResolveError String × Cache
returned now ref (err e) cache = (err (resolving ref e), cache)
returned now ref (ok res) cache = (ok res.val, stored_in now ref res cache)

abbrev pub finish :
    ℕ → Option String → String → Result String Fetched × Cache → Result ResolveError String × Cache
finish now (some e) ref (out, cache) = (err (resolving ref e), cache)
finish now none ref (out, cache) = returned now ref out cache

abbrev pub on_miss :
    Option Backend → Timing → String → String → String → Cache → Result ResolveError String × Cache
on_miss none timing ref path field cache = (err not_initialized, cache)
on_miss (some read_secret) timing ref path field cache =
    finish timing.stored timing.cancelled ref
      (fetch read_secret timing.fetched ref path field cache)

abbrev pub on_lookup :
    Option Backend
    → Timing
    → String
    → String
    → String
    → Option String × Cache
    → Result ResolveError String × Cache
on_lookup backend timing ref path field (some val, cache) = (ok val, cache)
on_lookup backend timing ref path field (none, cache) = on_miss backend timing ref path field cache

abbrev pub resolve_reference :
    Option Backend → Timing → Cache → Reference → Result ResolveError String × Cache
resolve_reference backend timing cache (literal cfg) = (ok cfg, cache)
resolve_reference backend timing cache (invalid ref) = (err (invalid_ref ref), cache)
resolve_reference backend timing cache (secret ref path field) =
    on_lookup backend timing ref path field (cache_get timing.looked ref cache)

-- Resolver.Resolve
unfoldable pub resolve :
    Option Backend → Timing → String → Cache → Result ResolveError String × Cache
resolve backend timing cfg cache = resolve_reference backend timing cache (parse_reference cfg)
