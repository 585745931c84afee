-- ===== src/Server/Auth.antt =====
-- The protection of the handlers: internal/web/auth.go. A handler is a function from requests to
-- responses; SHA-256 is a parameter, and the comparison in constant time is equality.
use solace_prometheus_export.Prelude.{
  ℕ, String, ◌≡◌, refl, sym, ap, ◌∙◌, Bool-cases, Bool, true, false, ◌&&◌, ◌||◌, not, ◌⊎◌, inl, inr,
  arith, Option, none, some, List, [], ◌∷◌, ◌==◌, eq_iff, if◌then◌else◌,
}
use solace_prometheus_export.Config.{ExporterAuthConfig, given}

-- What the handlers write: the status, the headers set and the body.
pub record Reply : Type 0 where
  pub status : ℕ
  pub headers : List (String × String)
  pub body : String

abbrev pub unauthorized : Reply
unauthorized = record {
  status = 401;
  headers = ("WWW-Authenticate", "Basic realm=\"restricted\"") ∷ [];
  body = "unauthorized\n";
}

-- The user name and the password of r.BasicAuth(); where it gives none they are empty.
abbrev pub user_of : Option (String × String) → String
user_of none = ""
user_of (some (u, p)) = u

abbrev pub password_of : Option (String × String) → String
password_of none = ""
password_of (some (u, p)) = p

abbrev pub present : Option (String × String) → Bool
present none = false
present (some c) = true

module _ {Request : Type 0} (sum_256 : String → String)
    (basic_auth_of : Request → Option (String × String)) where
  unfoldable pub basic_auth : (Request → Reply) → ExporterAuthConfig → Request → Reply
  basic_auth handler auth_conf r =
      let got = basic_auth_of r in
      let user_ok = sum_256 (user_of got) == sum_256 auth_conf.username in
      let pass_ok = sum_256 (password_of got) == sum_256 auth_conf.password in
      if not (present got) || not user_ok || not pass_ok then unauthorized else handler r

  unfoldable pub wrap_with_auth : (Request → Reply) → ExporterAuthConfig → Request → Reply
  wrap_with_auth handler auth_conf =
      if auth_conf.scheme == "basic" && given auth_conf.username && given auth_conf.password
      then basic_auth handler auth_conf
      else handler

  -- The configuration asks for credentials.
  abbrev pub Protects : ExporterAuthConfig → Type 0
  Protects a =
      ((a.scheme == "basic") ≡ true) × (given a.username ≡ true) × (given a.password ≡ true)

  -- The request's credentials have the digests of the configured ones.
  abbrev pub Admitted : ExporterAuthConfig → Request → Type 0
  Admitted a r =
      (u p : String) × (basic_auth_of r ≡ some (u, p))
      × (sum_256 u ≡ sum_256 a.username)
      × (sum_256 p ≡ sum_256 a.password)

  not_equal : {s t : String} → (s == t) ≡ false → s ≡ t → ⊥
  not_equal {s} {t} h e = ground (arith, eq_iff s t)

  -- The answer to a request with those credentials.
  checked : (Request → Reply) → ExporterAuthConfig → Request → Option (String × String) → Reply
  checked handler a r got =
      if not (present got)
        || not (sum_256 (user_of got) == sum_256 a.username)
        || not (sum_256 (password_of got) == sum_256 a.password)
      then unauthorized
      else handler r

  checked_cases :
      (handler : Request → Reply) (a : ExporterAuthConfig) (r : Request)
      (got : Option (String × String))
      → basic_auth_of r ≡ got
      → Admitted a r × (checked handler a r got ≡ handler r)
        ⊎ (Admitted a r → ⊥) × (checked handler a r got ≡ unauthorized)
  unfolding checked
  checked_cases handler a r none e = inr (λ (u, p, q, _, _). none_some (sym e ∙ q), refl)
    where
      none_some : {c : String × String} → none ≡ some c → ⊥
      none_some h = cc
  checked_cases handler a r (some (u, p)) e = elim (Bool-cases (sum_256 u == sum_256 a.username)) [
    | inl h ↦ elim (Bool-cases (sum_256 p == sum_256 a.password)) [
      | inl k ↦ inl ((u, p, e, (eq_iff _ _).0 h, (eq_iff _ _).0 k), rw (h, k) refl)
      | inr k ↦
          inr (λ (v, q, f, _, m). not_equal k (ap sum_256 (same (sym e ∙ f)).1 ∙ m), rw (h, k) refl)
    ]
    | inr h ↦ inr (λ (v, q, f, l, _). not_equal h (ap sum_256 (same (sym e ∙ f)).0 ∙ l), rw h refl)
  ]
    where
      same :
          {c d : String}
          → ◌≡◌ {A = Option (String × String)} (some (u, p)) (some (c, d))
          → (u ≡ c) × (p ≡ d)
      same h = ground arith

  -- A protected handler answers with what it protects where the request's credentials have the digests
  -- of the configured ones, and only there: every other request gets the answer 401, whatever the
  -- handler is.
  pub wrap_with_auth_cases :
      (handler : Request → Reply) (a : ExporterAuthConfig) (r : Request)
      → Protects a
      → Admitted a r × (wrap_with_auth handler a r ≡ handler r)
        ⊎ (Admitted a r → ⊥) × (wrap_with_auth handler a r ≡ unauthorized)
  unfolding wrap_with_auth basic_auth checked
  wrap_with_auth_cases handler a r (s, u, p) =
      rw (s, u, p) (checked_cases handler a r (basic_auth_of r) refl)
