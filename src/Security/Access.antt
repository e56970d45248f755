-- ===== src/Security/Access.antt =====
-- Which requests pass both guards of internal/security/http.go.
use riquet.Ha.{Handler, Request, Response, header}
use riquet.Prelude.{
  Bool-cases, Option, String, ap, arith, eq_iff, eq_refl, false, inl, inr, none, number_eq, refl,
  some, string_eq, true, ◌==◌, ◌≡◌, ◌≢◌, ◌⊎◌,
}
use riquet.Prelude.Texts.{after_prefix}
use riquet.Security.{
  AuthConfig, BasicAuth, authenticate, authorized, basic_authorized, bearer_authorized, forbidden,
  is_administrative_mutation, protect_administration, unauthorized,
}

-- What the mode of the configuration asks of a request.
pub data Credentials (basic_auth : BasicAuth) (config : AuthConfig) (r : Request) : Type 0 where
  open_mode : (config.mode ≡ "") ⊎ (config.mode ≡ "anonymous") → Credentials basic_auth config r
  basic_mode :
      config.mode ≡ "basic"
      → basic_auth (header r.headers "Authorization") ≡ some (config.username, config.password)
      → Credentials basic_auth config r
  bearer_mode :
      config.mode ≡ "bearer"
      → after_prefix "Bearer " (header r.headers "Authorization") ≡ some config.bearer_token
      → Credentials basic_auth config r

bearer_authorized-eq :
    (config : AuthConfig) (provided : Option String)
    → bearer_authorized config provided ≡ true
    → provided ≡ some config.bearer_token
bearer_authorized-eq config none h = absurd (cc)
bearer_authorized-eq config (some provided) h = ap some ((eq_iff provided config.bearer_token).0 h)

basic_authorized-eq :
    (config : AuthConfig) (provided : Option (String × String))
    → basic_authorized config provided ≡ true
    → provided ≡ some (config.username, config.password)
basic_authorized-eq config none h = absurd (cc)
basic_authorized-eq config (some (username, password)) h = λ i. some (
  (eq_iff username config.username).0
      (let e : (username == config.username) ≡ true = ground (arith, h) in e) i,
  (eq_iff password config.password).0
      (let e : (password == config.password) ≡ true = ground (arith, h) in e) i,
)

authorized-Credentials :
    (basic_auth : BasicAuth) (config : AuthConfig) (r : Request)
    → authorized basic_auth config r ≡ true
    → Credentials basic_auth config r
unfolding authorized
authorized-Credentials basic_auth config r h = elim (Bool-cases (config.mode == "")) [
  | inl e ↦ open_mode (inl ((eq_iff config.mode "").0 e))
  | inr no_mode ↦ elim (Bool-cases (config.mode == "anonymous")) [
    | inl e ↦ open_mode (inr ((eq_iff config.mode "anonymous").0 e))
    | inr named ↦ elim (Bool-cases (config.mode == "basic")) [
      | inl e ↦
          basic_mode ((eq_iff config.mode "basic").0 e)
            (basic_authorized-eq config _ (rw (no_mode, named, e) at h))
      | inr other ↦ elim (Bool-cases (config.mode == "bearer")) [
        | inl e ↦
            bearer_mode ((eq_iff config.mode "bearer").0 e)
              (bearer_authorized-eq config _ (rw (no_mode, named, other, e) at h))
        | inr unknown ↦
            absurd (let e : false ≡ true = rw (no_mode, named, other, unknown) at h in cc)
      ]
    ]
  ]
]

Credentials-authorized :
    (basic_auth : BasicAuth) (config : AuthConfig) (r : Request)
    → Credentials basic_auth config r
    → authorized basic_auth config r ≡ true
unfolding authorized
Credentials-authorized basic_auth config r (open_mode (inl e)) = rw (authorized, e) refl
Credentials-authorized basic_auth config r (open_mode (inr e)) = rw (authorized, e) refl
Credentials-authorized basic_auth config r (basic_mode e got) =
    rw (authorized, e, got, eq_refl config.username, eq_refl config.password) refl
Credentials-authorized basic_auth config r (bearer_mode e got) =
    rw (authorized, e, got, eq_refl config.bearer_token) refl

differs : {a b : String} → (a == b) ≡ false → a ≢ b
differs {a} {b} h e = let same : (a == b) ≡ true = (eq_iff a b).1 e in absurd (cc)

module _ {S : Type 0} (basic_auth : BasicAuth) (config : AuthConfig) (token : String)
    (handler : Handler S) where
  -- The ways in which a request to the guarded handler ends.
  pub data Guarded (r : Request) (s : S) : Response × S → Type 0 where
    unauthenticated : ¬ Credentials basic_auth config r → Guarded r s (unauthorized, s)
    no_administrator :
        Credentials basic_auth config r
        → is_administrative_mutation r ≡ true
        → token ≢ ""
        → header r.headers "X-Riquet-Admin-Token" ≢ token
        → Guarded r s (forbidden, s)
    passed :
        Credentials basic_auth config r
        → (is_administrative_mutation r ≡ false)
          ⊎ (token ≡ "")
          ⊎ (header r.headers "X-Riquet-Admin-Token" ≡ token)
        → Guarded r s (handler r s)

  -- A request to the handler behind both guards reaches it unchanged with the credentials that the
  -- mode asks for and, where it is an administrative mutation and a token is set, that token.
  -- Without the credentials the answer is 401, with them but without the token 403, and everything
  -- is left as it is.
  pub authenticate-Guarded :
      (r : Request) (s : S)
      → Guarded r s (authenticate basic_auth config (protect_administration token handler) r s)
  unfolding authenticate protect_administration
  authenticate-Guarded r s = elim (Bool-cases (authorized basic_auth config r)) [
    | inr bad ↦
        rw (authenticate, bad)
          (unauthenticated
            (λ known'. ground (arith, bad, Credentials-authorized basic_auth config r known')))
    | inl known' ↦ elim (Bool-cases (token == "")) [
      | inl none_set ↦
          rw (authenticate, known', protect_administration, none_set)
            (passed (authorized-Credentials basic_auth config r known')
              (inr (inl ((eq_iff token "").0 none_set))))
      | inr set ↦ elim (Bool-cases (is_administrative_mutation r)) [
        | inr usual ↦
            rw (authenticate, known', protect_administration, set, usual)
              (passed (authorized-Credentials basic_auth config r known') (inl usual))
        | inl administrative ↦
            elim (Bool-cases (header r.headers "X-Riquet-Admin-Token" == token)) [
              | inl same ↦
                  rw (authenticate, known', protect_administration, set, administrative, same)
                    (passed (authorized-Credentials basic_auth config r known')
                      (inr (inr ((eq_iff (header r.headers "X-Riquet-Admin-Token") token).0 same))))
              | inr other ↦
                  rw (authenticate, known', protect_administration, set, administrative, other)
                    (no_administrator (authorized-Credentials basic_auth config r known')
                      administrative (differs set) (differs other))
            ]
      ]
    ]
  ]
