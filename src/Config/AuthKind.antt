-- ===== src/Config/AuthKind.antt =====
-- Which authentication a configuration gives.
use solace_prometheus_export.Prelude.{String, ◌≡◌, true, false, ◌⊎◌, arith}
use solace_prometheus_export.Prelude.Result.{ok, err}
use solace_prometheus_export.Config.{
  Config, incomplete_o_auth, no_credentials, auth_type_basic, auth_type_o_auth, given,
  determine_auth_type, auth_type_of,
}

abbrev pub Given : String → Type 0
Given s = given s ≡ true

abbrev pub Empty : String → Type 0
Empty s = given s ≡ false

abbrev pub AllOAuth : Config → Type 0
AllOAuth c =
    Given c.o_auth_client_id
    × Given c.o_auth_client_secret
    × Given c.o_auth_token_url
    × Given c.o_auth_client_scope

abbrev pub NoOAuth : Config → Type 0
NoOAuth c =
    Empty c.o_auth_client_id
    × Empty c.o_auth_client_secret
    × Empty c.o_auth_token_url
    × Empty c.o_auth_client_scope

abbrev pub SomeOAuth : Config → Type 0
SomeOAuth c =
    (Given c.o_auth_client_id
      ⊎ Given c.o_auth_client_secret
      ⊎ Given c.o_auth_token_url
      ⊎ Given c.o_auth_client_scope)
    × (Empty c.o_auth_client_id
        ⊎ Empty c.o_auth_client_secret
        ⊎ Empty c.o_auth_token_url
        ⊎ Empty c.o_auth_client_scope)

-- With all four OAuth settings given the configuration authenticates with OAuth, whatever else is given;
-- with some of them but not all it is refused; with none it authenticates with the user name and the
-- password where both are given, and is refused otherwise. Nothing but the kind is changed.
pub determine_auth_type_cases :
    (c : Config)
    → AllOAuth c × (determine_auth_type c ≡ ok (record c { auth_type = auth_type_o_auth }))
      ⊎ SomeOAuth c × (determine_auth_type c ≡ err incomplete_o_auth)
      ⊎ NoOAuth c
        × Given c.username
        × Given c.password
        × (determine_auth_type c ≡ ok (record c { auth_type = auth_type_basic }))
      ⊎ NoOAuth c
        × (Empty c.username ⊎ Empty c.password)
        × (determine_auth_type c ≡ err no_credentials)
unfolding determine_auth_type auth_type_of
determine_auth_type_cases c = ground arith
