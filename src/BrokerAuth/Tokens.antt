-- ===== src/BrokerAuth/Tokens.antt =====
-- The tokens that calls of getOAuthToken return, under any interleaving.
use solace_prometheus_export.Prelude.{
  ℕ, ◌++◌, ◌≤◌, false, ◌+◌, ◌<◌, String, true, false, ◌≡◌, refl, ◌⊎◌, inl, inr, Bool-cases, List,
  [], ◌∷◌, All, arith, map,
}
use solace_prometheus_export.Prelude.Result.{Result, ok, err}
use solace_prometheus_export.Text.{is_empty}
use solace_prometheus_export.BrokerAuth.{
  OAuthTokenCache, Token, TokenSource, Uses, begun, looked, locked, margin, is_usable, refresh,
  store, get_o_auth_token, new_o_auth_token_cache,
}

module _ (source : TokenSource) where
  -- The cache is empty, or holds the answer to a request.
  abbrev pub IsIssued : OAuthTokenCache → Type 0
  IsIssued cache =
      (is_empty cache.token ≡ true)
      ⊎ ((at : ℕ) × (t : Token) × (source at ≡ ok t)
          × (cache.token ≡ t.access_token)
          × (cache.expiry ≡ t.expiry))

  -- The token was requested for this use, or earlier and has more than five minutes left.
  abbrev pub IsGood : ℕ × Result String String → Type 0
  IsGood (now, err e) = Unit
  IsGood (now, ok token) =
      (at : ℕ) × (t : Token) × (source at ≡ ok t)
      × (token ≡ t.access_token)
      × ((at ≡ now) ⊎ (now + margin < t.expiry))

  usable_left :
      (now : ℕ) (cache : OAuthTokenCache)
      → is_usable now cache ≡ true
      → (is_empty cache.token ≡ false) × (now + margin < cache.expiry)
  unfolding is_usable
  usable_left now cache h = (ground arith, ground arith)

  cached-IsGood :
      (now : ℕ) (cache : OAuthTokenCache)
      → is_usable now cache ≡ true
      → IsIssued cache
      → IsGood (now, ok cache.token)
  cached-IsGood now cache h (inl e) = absurd (let k = (usable_left now cache h).0 in cc)
  cached-IsGood now cache h (inr (at, t, p, q, r)) =
      (at, t, p, q, inr (let k = (usable_left now cache h).1 in rw r at k))

  stored-IsGood : (now : ℕ) (cache : OAuthTokenCache) → IsGood (now, (store (source now) cache).0)
  stored-IsGood now cache = of_answer (source now) refl
    where
      of_answer : (a : Result String Token) → source now ≡ a → IsGood (now, (store a cache).0)
      of_answer (err e) h = tt
      of_answer (ok t) h = (now, t, h, refl, inl refl)

  store-IsIssued :
      (now : ℕ) (cache : OAuthTokenCache) → IsIssued cache → IsIssued (store (source now) cache).1
  store-IsIssued now cache v = of_answer (source now) refl
    where
      of_answer : (a : Result String Token) → source now ≡ a → IsIssued (store a cache).1
      of_answer (err e) h = v
      of_answer (ok t) h = inr (now, t, h, refl, refl)

  refresh-IsIssued :
      (now : ℕ) (cache : OAuthTokenCache)
      → IsIssued cache
      → IsGood (now, (refresh source now cache).0) × IsIssued (refresh source now cache).1
  unfolding refresh
  refresh-IsIssued now cache v = elim (Bool-cases (is_usable now cache)) [
    | inl e ↦ rw e (cached-IsGood now cache e v, v)
    | inr e ↦ rw e (stored-IsGood now cache, store-IsIssued now cache v)
  ]

  Uses-IsIssued :
      {start cache : OAuthTokenCache} {log : List (ℕ × Result String String)}
      → IsIssued start
      → Uses source start log cache
      → All IsGood log × IsIssued cache
  Uses-IsIssued v begun = (tt, v)
  Uses-IsIssued v (looked now h uses) =
      let (good, issued) = Uses-IsIssued v uses in ((cached-IsGood now _ h issued, good), issued)
  Uses-IsIssued v (locked now uses) =
      let (good, issued) = Uses-IsIssued v uses in
      let (g, i) = refresh-IsIssued now _ issued in ((g, good), i)

  -- In every history of a new cache, under any order of the sections of concurrent calls, each token
  -- returned is the answer of the token endpoint to a request that was made at that time, or made
  -- earlier, where the token has more than five minutes left.
  pub Uses-IsGood :
      (log : List (ℕ × Result String String)) (cache : OAuthTokenCache)
      → Uses source new_o_auth_token_cache log cache
      → All IsGood log
  Uses-IsGood log cache uses = (Uses-IsIssued (inl refl) uses).0

-- Calls one after the other, at these times.
abbrev pub calls :
    TokenSource → List ℕ → OAuthTokenCache → List (Result String String) × OAuthTokenCache
calls source [] cache = ([], cache)
calls source (now ∷ times) cache =
    let (out, after) = get_o_auth_token source now cache now cache in
    let (rest, last) = calls source times after in (out ∷ rest, last)

-- Five minutes in nanoseconds.
abbrev five_minutes : ℕ
five_minutes = 300000000000

usable-eq-true :
    (now : ℕ) (cache : OAuthTokenCache)
    → is_empty cache.token ≡ false
    → now + five_minutes < cache.expiry
    → is_usable now cache ≡ true
unfolding is_usable
usable-eq-true now cache e h = rw e (ground arith)

usable-eq-false :
    (now : ℕ) (cache : OAuthTokenCache)
    → cache.expiry ≤ now + five_minutes
    → is_usable now cache ≡ false
unfolding is_usable
usable-eq-false now cache h = ground arith

-- Calls return a cached token, and leave the cache as it is, for as long as the token has more than five
-- minutes left. The first call at which it has not asks the token endpoint, returns the token of its
-- answer, and leaves that token with its expiry in the cache.
pub calls_lem :
    (source : TokenSource) (times : List ℕ) (late : ℕ) (cache : OAuthTokenCache) (t : Token)
    → is_empty cache.token ≡ false
    → All (λ now. now + five_minutes < cache.expiry) times
    → cache.expiry ≤ late + five_minutes
    → source late ≡ ok t
    → calls source (times ++ (late ∷ [])) cache ≡ (
      map (λ now. ok cache.token) times ++ (ok t.access_token ∷ []),
      record { token = t.access_token; expiry = t.expiry },
    )
unfolding get_o_auth_token refresh
calls_lem source [] late cache t e h l a = rw (usable-eq-false late cache l, a) refl
calls_lem source (now ∷ times) late cache t e h l a =
    rw (usable-eq-true now cache e h.0, calls_lem source times late cache t e h.1 l a) refl
