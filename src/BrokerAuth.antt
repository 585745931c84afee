-- ===== src/BrokerAuth.antt =====
-- The authentication towards the broker: internal/exporter/auth.go. The token endpoint
-- (clientcredentials.Config.Token), base64 and http.Request.SetBasicAuth are parameters; times are
-- nanoseconds. The cache is there, since ParseConfig makes it.
pub mod Tokens
pub mod Header
use solace_prometheus_export.Prelude.{
  ℕ, ◌+◌, ◌*◌, String, Bool, not, ◌&&◌, Option, none, some, List, [], ◌∷◌, ◌==◌, ◌≡◌, true, false,
  ltb, if◌then◌else◌, insert,
}
use Prim.Native.String.{◌++◌ as ◌<>◌}
use solace_prometheus_export.Prelude.Result.{Result, ok, err}
use solace_prometheus_export.Text.{is_empty}
use solace_prometheus_export.Semp.{Request}
use solace_prometheus_export.Config.{Config, AuthType, auth_type_basic, auth_type_o_auth}

-- oAuthTokenCache without its mutex: each critical section is one function below.
pub record OAuthTokenCache : Type 0 where
  pub token : String
  pub expiry : ℕ

abbrev pub new_o_auth_token_cache : OAuthTokenCache
new_o_auth_token_cache = record { token = ""; expiry = 0 }

-- oauth2.Token
pub record Token : Type 0 where
  pub access_token : String
  pub expiry : ℕ

-- The answer of the token endpoint to a request made at a time.
abbrev pub TokenSource : Type 0
TokenSource = ℕ → Result String Token

-- time.Minute*5
abbrev pub margin : ℕ
margin = 5 * (60 * 1000000000)

-- cache.token != "" && time.Now().Before(cache.expiry.Add(-time.Minute*5))
unfoldable pub is_usable : ℕ → OAuthTokenCache → Bool
is_usable now cache = not (is_empty cache.token) && ltb (now + margin) cache.expiry

abbrev pub store : Result String Token → OAuthTokenCache → Result String String × OAuthTokenCache
store (err e) cache = (err e, cache)
store (ok t) cache = (ok t.access_token, record { token = t.access_token; expiry = t.expiry })

module _ (source : TokenSource) where
  -- The section under the write lock: the second look, and the request.
  unfoldable pub refresh : ℕ → OAuthTokenCache → Result String String × OAuthTokenCache
  refresh now cache =
      if is_usable now cache then (ok cache.token, cache) else store (source now) cache

  -- A call that finds a cache in its first look, and another one under the write lock, since other calls
  -- may come between the two.
  unfoldable pub get_o_auth_token :
      ℕ → OAuthTokenCache → ℕ → OAuthTokenCache → Result String String × OAuthTokenCache
  get_o_auth_token looked first locked second =
      if is_usable looked first then (ok first.token, second) else refresh locked second

  -- The histories of a cache that calls share, latest use first: each section of a call takes the lock
  -- on its own, so the sections of several calls come in any order.
  pub data Uses (start : OAuthTokenCache)
      : List (ℕ × Result String String) → OAuthTokenCache → Type 0 where
    begun : Uses start [] start
    looked :
        {log : List (ℕ × Result String String)} {cache : OAuthTokenCache} (now : ℕ)
        → is_usable now cache ≡ true
        → Uses start log cache
        → Uses start ((now, ok cache.token) ∷ log) cache
    locked :
        {log : List (ℕ × Result String String)} {cache : OAuthTokenCache} (now : ℕ)
        → Uses start log cache
        → Uses start ((now, (refresh now cache).0) ∷ log) (refresh now cache).1

module _ (raw_std : String → String) where
  -- `raw_std` is base64.RawStdEncoding.EncodeToString.
  unfoldable pub issuer_prefixed_token : Config → String → String
  issuer_prefixed_token conf token =
      if conf.o_auth_issuer == ""
      then token
      else "~" <> (raw_std conf.o_auth_issuer <> ("~" <> token))

  -- Header.Set replaces the values of a key. An error leaves the request without the header.
  abbrev pub with_token : Config → Result String String → Request → Request
  with_token conf (err e) request = request
  with_token conf (ok token) request = record request {
    headers =
        insert "Authorization" ("Bearer " <> issuer_prefixed_token conf token) request.headers;
  }

  -- The visitor that setAuthHeader returns, where `token` is what getOAuthToken answers at the time of
  -- the request. An AuthType has no other value than the two, so the default of the switch is left out.
  unfoldable pub set_auth_header :
      (set_basic_auth : String → String → Request → Request)
      → AuthType
      → Config
      → Result String String
      → Request
      → Request
  set_auth_header set_basic_auth auth_type_basic conf token request =
      set_basic_auth conf.username conf.password request
  set_auth_header set_basic_auth auth_type_o_auth conf token request = with_token conf token request
