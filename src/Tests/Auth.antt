-- ===== src/Tests/Auth.antt =====
-- Tests of the authentication towards the broker and of the Vault backend.
use Prim.Native.String.{◌++◌ as ◌<>◌}
use mathlib.Core.Path.{subst}
use solace_prometheus_export.Prelude.{
  Bool-cases, inl, inr, ◌++◌, arith, ℕ, ◌+◌, ◌≡◌, refl, String, true, Option, none, some, List, [],
  ◌∷◌, ◌==◌, All, lookup, delete, if◌then◌else◌, map,
}
use solace_prometheus_export.Prelude.Int.{pos}
use solace_prometheus_export.Prelude.Result.{Result, ok, err}
use solace_prometheus_export.Text.{cut, cut_prefix, contains, trim_space}
use solace_prometheus_export.Semp.{Request}
use solace_prometheus_export.Config.{Config, auth_type_o_auth}
use solace_prometheus_export.BrokerAuth.{
  TokenSource, OAuthTokenCache, Uses, begun, looked, locked, is_usable, refresh, margin,
  new_o_auth_token_cache, issuer_prefixed_token,
}
use solace_prometheus_export.BrokerAuth.Tokens.{IsGood, Uses-IsGood, calls, calls_lem}
use solace_prometheus_export.BrokerAuth.Header.{issuer_prefixed_token_lem}
use solace_prometheus_export.Secret.Vault.{
  VaultSecret, text, object, field, no_fields, find, kv_fields, read_secret, ttl_of, World,
  authenticate,
}
use solace_prometheus_export.Secret.{Timing, resolve}
use solace_prometheus_export.Secret.Fresh.{IsValid}
use solace_prometheus_export.Secret.Resolve.{OkIs}
use solace_prometheus_export.Secret.Vault.Resolved.{FromVault, resolve-FromVault, vault_backend}
use solace_prometheus_export.Secret.Vault.Laws.{
  HasShortLeases, IsShort, HeldIn, LivesFor, read_secret_lem, authenticate_twice,
}
use solace_prometheus_export.Tests.Settings.{conf}

-- A token endpoint that gives a token for ten minutes.
abbrev endpoint : TokenSource
endpoint now = ok (record { access_token = "token"; expiry = now + (margin + margin) })

-- One call takes the write lock at 7 and asks the endpoint, and two calls find its token, one in its
-- first look and one under the lock.
abbrev history :
    (log : List (ℕ × Result String String)) × (cache : OAuthTokenCache) × Uses endpoint
      new_o_auth_token_cache log cache
unfolding is_usable refresh
history = (_, _, locked 9 (looked 8 refl (locked 7 begun)))

Uses-IsGood_example : All (IsGood endpoint) history.0
Uses-IsGood_example = Uses-IsGood endpoint history.0 history.1 history.2

abbrev warm : OAuthTokenCache
warm = record { token = "token"; expiry = margin + margin }

calls_lem_example : calls endpoint ((1 ∷ 2 ∷ []) ++ (margin ∷ [])) warm ≡ (
  map {A = ℕ} (λ now. ok warm.token) (1 ∷ 2 ∷ []) ++ (ok "token" ∷ []),
  record { token = "token"; expiry = margin + (margin + margin) },
)
calls_lem_example =
    calls_lem endpoint (1 ∷ 2 ∷ []) margin warm
      (record { access_token = "token"; expiry = margin + (margin + margin) }) refl
      (omega arith, (omega arith, tt)) (omega arith) refl

abbrev issued : Config
issued = record conf { o_auth_issuer = "issuer"; auth_type = auth_type_o_auth }

issuer_prefixed_token_lem_example :
    (rest : String) × (cut_prefix (issuer_prefixed_token (λ s. s) issued "t~1") "~" ≡ some rest)
    × (cut b'~' rest ≡ some ("issuer", "t~1"))
unfolding contains
issuer_prefixed_token_lem_example = issuer_prefixed_token_lem (λ s. s) issued "t~1" refl refl

abbrev request : Request
request = record {
  method = "POST";
  uri = "/SEMP";
  headers = ("Content-Type", "application/xml") ∷ [];
  body = "";
}

-- A secret of KV version 2 with a lease of one minute.
abbrev versioned : VaultSecret
versioned = record {
  data_fields =
      field "data" (object (field "password" (text "pw") no_fields))
        (field "metadata" (object no_fields) no_fields);
  lease_duration = pos 60;
}

abbrev vault : ℕ → String → Result String (Option VaultSecret)
vault now path = if path == "secret/data/broker" then ok (some versioned) else ok none

vault-HasShortLeases : HasShortLeases vault
vault-HasShortLeases now path secret h = elim (Bool-cases (path == "secret/data/broker")) [
  | inl e ↦ subst (λ s. IsShort s.lease_duration) (same_of (rw e at h)) (omega arith)
  | inr e ↦ absurd (let k = (rw e at h) in cc)
]
  where
    same_of :
        ◌≡◌ {A = Result String (Option VaultSecret)} (ok (some versioned)) (ok (some secret))
        → versioned ≡ secret
    same_of k = cc

read_secret_lem_example :
    (secret : VaultSecret) × (vault 5 "secret/data/broker" ≡ ok (some secret))
    × HeldIn secret.data_fields "password" "pw"
    × LivesFor (pos 300) secret.lease_duration (pos 30000000000)
unfolding read_secret find kv_fields ttl_of
read_secret_lem_example =
    read_secret_lem (pos 300) vault 5 "secret/data/broker" "password" "pw" (pos 30000000000)
      vault-HasShortLeases refl

abbrev timing : Timing
timing = record { looked = 5; fetched = 6; stored = 7; cancelled = none }

empty-IsValid : IsValid (vault_backend (λ e. "no secret") (pos 300) vault) 5 []
unfolding lookup
empty-IsValid ref cached h = absurd (cc)

resolve-FromVault_example :
    OkIs
      (vault_backend (λ e. "no secret") (pos 300) vault)
      (FromVault (λ e. "no secret") (pos 300) vault timing "vault:secret/data/broker#password")
      (resolve
        (some (vault_backend (λ e. "no secret") (pos 300) vault))
        timing
        "vault:secret/data/broker#password"
        []).0
resolve-FromVault_example =
    resolve-FromVault (λ e. "no secret") (pos 300) vault timing "vault:secret/data/broker#password"
      [] (omega arith, omega arith) vault-HasShortLeases empty-IsValid

abbrev getenv : String → String
getenv name = if name == "VAULT_TOKEN_FILE" then "/run/token" else ""

abbrev before : World
before = record { client_token = none; files = ("/run/token", " s.1\n") ∷ [] }

abbrev after : World
after = record { client_token = some "s.1"; files = [] }

authenticate_twice_example :
    authenticate true getenv after ≡ (err (getenv "VAULT_TOKEN_FILE"), after)
unfolding authenticate trim_space lookup delete
authenticate_twice_example = authenticate_twice getenv before after refl refl
