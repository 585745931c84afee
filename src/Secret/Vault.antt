-- ===== src/Secret/Vault.antt =====
-- The backend for HashiCorp Vault: ReadSecret, authenticate, parseTokenRenewability and
-- maybeStartTokenRenewal of internal/secret/hashicorp_backend.go. The Vault client, the environment and
-- the files are parameters.
pub mod Laws
pub mod Resolved
use solace_prometheus_export.Prelude.{
  ℕ, ◌+◌, ◌*◌, ◌/◌, String, Bool, true, false, not, ◌&&◌, ◌||◌, Option, none, some, List, [], ◌∷◌,
  ◌==◌, ltb, if◌then◌else◌, lookup, delete,
}
use Prim.Native.String.{◌++◌ as ◌<>◌}
use solace_prometheus_export.Prelude.Int.{ℤ, pos, negsuc, sub_ℕ, ltb_ℤ}
use solace_prometheus_export.Prelude.Result.{Result, ok, err, ◌>>=◌}
use solace_prometheus_export.Text.{is_empty, trim_space}
use solace_prometheus_export.Text.Parse.{parse_int}
use solace_prometheus_export.Secret.Renewal.{second, wrap_64}

-- An interface{} value of decoded JSON, and a map of them. `number` is a json.Number by its text, and
-- `float` a float64 by what int(v) gives.
mutual
  pub data Value : Type 0 where
    text : String → Value
    number : String → Value
    float : ℤ → Value
    boolean : Bool → Value
    null : Value
    object : Fields → Value

  pub data Fields : Type 0 where
    no_fields : Fields
    field : String → Value → Fields → Fields

unfoldable pub find : String → Fields → Option Value
find key no_fields = none
find key (field k v rest) = let found = find key rest in if k == key then some v else found

-- vaultapi.Secret
pub record VaultSecret : Type 0 where
  pub data_fields : Fields
  pub lease_duration : ℤ

-- secret.Data["metadata"] == nil
abbrev pub is_nil_value : Option Value → Bool
is_nil_value none = true
is_nil_value (some null) = true
is_nil_value (some v) = false

-- The fields below `data` where there are some, or all of them.
abbrev pub nested_or : Fields → Option Value → Option Value → Fields
nested_or all (some (object nested)) metadata = if is_nil_value metadata then all else nested
nested_or all found metadata = all

unfoldable pub kv_fields : Fields → Fields
kv_fields all = nested_or all (find "data" all) (find "metadata" all)

pub data ReadError : Type 0 where
  client_failed : String → ReadError
  no_secret : String → ReadError
  field_not_found : (field path : String) → ReadError
  not_a_string : (field path : String) → ReadError

abbrev string_of : String → String → Option Value → Result ReadError String
string_of name path none = err (field_not_found name path)
string_of name path (some (text val)) = ok val
string_of name path (some v) = err (not_a_string name path)

-- d / 2, which Go rounds towards 0
abbrev pub half : ℤ → ℤ
half (pos n) = pos (n / 2)
half (negsuc n) = sub_ℕ 0 ((n + 1) / 2)

-- Half a lease, or the time to live of static secrets. The product of seconds wraps around.
unfoldable pub ttl_of : ℤ → ℤ → ℤ
ttl_of cache_ttl (pos n) = if ltb 0 n then half (wrap_64 (n * second)) else cache_ttl
ttl_of cache_ttl (negsuc n) = cache_ttl

abbrev read_answer :
    ℤ → String → String → Result String (Option VaultSecret) → Result ReadError (String × ℤ)
read_answer cache_ttl path name (err e) = err (client_failed e)
read_answer cache_ttl path name (ok none) = err (no_secret path)
read_answer cache_ttl path name (ok (some secret)) = do
  val ← string_of name path (find name (kv_fields secret.data_fields))
  ok (val, ttl_of cache_ttl secret.lease_duration)

-- `read` is Logical().ReadWithContext at a time.
module _ (cache_ttl : ℤ) (read : ℕ → String → Result String (Option VaultSecret)) where
  unfoldable pub read_secret : ℕ → String → String → Result ReadError (String × ℤ)
  read_secret now path name = read_answer cache_ttl path name (read now path)

-- What authenticate reads and changes: the token of the client, and the files.
pub record World : Type 0 where
  pub client_token : Option String
  pub files : List (String × String)

-- `removes` tells whether os.Remove succeeds, which is only logged where it does not. The error carries
-- the name of the file that cannot be read.
module _ (removes : Bool) where
  abbrev pub with_file : String → World → Option String → Result String Bool × World
  with_file token_file world none = (err token_file, world)
  with_file token_file world (some contents) = (
    ok true,
    record {
      client_token = some (trim_space contents);
      files = if removes then delete token_file world.files else world.files;
    },
  )

  unfoldable pub authenticate : (getenv : String → String) → World → Result String Bool × World
  authenticate getenv world =
      let token_file = getenv "VAULT_TOKEN_FILE" in
      let from_file =
        if token_file == ""
        then (ok false, world)
        else with_file token_file world (lookup token_file world.files) in
      if not (getenv "VAULT_TOKEN" == "")
      then (ok true, record world { client_token = some (getenv "VAULT_TOKEN") })
      else from_file

abbrev int_or_zero : Option ℤ → ℤ
int_or_zero none = pos 0
int_or_zero (some n) = n

abbrev bool_of : Option Value → Bool
bool_of (some (boolean b)) = b
bool_of v = false

abbrev seconds_of : Option Value → ℤ
seconds_of (some (number n)) = int_or_zero (parse_int n)
seconds_of (some (float n)) = n
seconds_of v = pos 0

unfoldable pub parse_token_renewability : Fields → Bool × ℤ
parse_token_renewability fields =
    (bool_of (find "renewable" fields), seconds_of (find "ttl" fields))

-- Whether maybeStartTokenRenewal starts the loop, from the answer of LookupSelf.
unfoldable pub starts_renewal : Result String (Option VaultSecret) → Bool
starts_renewal (err e) = true
starts_renewal (ok none) = true
starts_renewal (ok (some secret)) = (parse_token_renewability secret.data_fields).0
