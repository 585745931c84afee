-- ===== src/BrokerAuth/Header.antt =====
-- What the visitor of setAuthHeader does with a request.
use Prim.Native.String.{◌∷◌ as ◌▹◌, ◌++◌ as ◌<>◌}
use Prim.Native.String.append
use solace_prometheus_export.Prelude.{String, ◌≡◌, refl, ◌∙◌, ap, false, some, ◌==◌}
use solace_prometheus_export.Prelude.Result.{Result}
use solace_prometheus_export.Text.{contains, cut, cut_prefix}
use solace_prometheus_export.Text.Split.{cut-append}
use solace_prometheus_export.Config.{Config}
use solace_prometheus_export.BrokerAuth.{issuer_prefixed_token}

tilde_append : (s : String) → ("~" <> s) ≡ ("~" ▹ s)
tilde_append s = append.cons "~" "" s ∙ ap (λ r. "~" ▹ r) (append.nil s)

cut_prefix_tilde : (s : String) → cut_prefix ("~" <> s) "~" ≡ some s
unfolding cut_prefix
cut_prefix_tilde s = rw (tilde_append s) refl

module _ (raw_std : String → String) where
  -- A token with an issuer is read back from its text: between the first two tildes stands the encoded
  -- issuer, and after them the token, where the encoding writes no tilde.
  pub issuer_prefixed_token_lem :
      (conf : Config) (token : String)
      → (conf.o_auth_issuer == "") ≡ false
      → contains b'~' (raw_std conf.o_auth_issuer) ≡ false
      → (rest : String) × (cut_prefix (issuer_prefixed_token raw_std conf token) "~" ≡ some rest)
        × (cut b'~' rest ≡ some (raw_std conf.o_auth_issuer, token))
  unfolding issuer_prefixed_token cut_prefix
  issuer_prefixed_token_lem conf token h k = (
    raw_std conf.o_auth_issuer <> ("~" <> token),
    rw h (cut_prefix_tilde (raw_std conf.o_auth_issuer <> ("~" <> token))),
    ap (λ r. cut b'~' (raw_std conf.o_auth_issuer <> r)) (tilde_append token)
        ∙ cut-append "~" (raw_std conf.o_auth_issuer) token k,
  )
