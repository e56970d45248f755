-- ===== src/Security.antt =====
-- internal/security/http.go: who may use the public API, and who may administer it. The reading of
-- the Authorization header as Basic credentials (BasicAuth of net/http) is an argument.
pub mod Access
pub mod Tests
use Prim.Native.String.{◌++◌ as append}
use riquet.Domain.Guid.{bytes}
use riquet.Ha.{Handler, Request, Response, header}
use riquet.Prelude.{
  Bool, Option, String, [], false, if◌then◌else◌, none, not, number_eq, some, string_eq, true, ℕ,
  ◌&&◌, ◌==◌, ◌||◌, ◌∷◌,
}
use riquet.Prelude.Texts.{after_prefix, has_prefix}
use riquet.Storage.Kafka.Election.{then}

pub record AuthConfig : Type 0 where
  pub mode : String
  pub username : String
  pub password : String
  pub bearer_token : String

abbrev pub BasicAuth : Type 0
BasicAuth = String → Option (String × String)

-- writeAuthError
abbrev pub auth_error : ℕ → String → String → Response
auth_error status error_code explanation = record {
  status = status;
  headers = ("Content-Type", "application/vnd.schemaregistry.v1+json") ∷ [];
  body = bytes (
      append "{\"error_code\":"
        (append error_code (append ",\"message\":\"" (append explanation "\"}\n"))));
}

-- With the header WWW-Authenticate, which is set before the others.
abbrev pub unauthorized : Response
unauthorized = record (auth_error 401 "40101" "Unauthorized") {
  headers =
      ("WWW-Authenticate", "Basic realm=\"riquet\", Bearer")
      ∷ ("Content-Type", "application/vnd.schemaregistry.v1+json")
      ∷ [];
}

abbrev pub forbidden : Response
forbidden = auth_error 403 "40301" "Administrative mutation is forbidden"

abbrev pub basic_authorized : AuthConfig → Option (String × String) → Bool
basic_authorized config none = false
basic_authorized config (some (username, password)) =
    username == config.username && password == config.password

abbrev pub bearer_authorized : AuthConfig → Option String → Bool
bearer_authorized config none = false
bearer_authorized config (some provided) = provided == config.bearer_token

-- The switch of Authenticate; a mode that it does not name authorizes nobody.
unfoldable pub authorized : BasicAuth → AuthConfig → Request → Bool
unfolding after_prefix
authorized basic_auth config r =
    if config.mode == "" || config.mode == "anonymous"
    then true
    else if config.mode == "basic"
    then basic_authorized config (basic_auth (header r.headers "Authorization"))
    else if config.mode == "bearer"
    then bearer_authorized config (after_prefix "Bearer " (header r.headers "Authorization"))
    else false

unfoldable pub authenticate : {S : Type 0} → BasicAuth → AuthConfig → Handler S → Handler S
unfolding authorized
authenticate basic_auth config next r s =
    if not (authorized basic_auth config r) then (unauthorized, s) else next r s

unfoldable pub is_administrative_mutation : Request → Bool
unfolding after_prefix
is_administrative_mutation r =
    if r.method == "PUT"
      && (r.path == "/config"
          || has_prefix r.path "/config/"
          || r.path == "/mode"
          || has_prefix r.path "/mode/")
    then true
    else if r.method == "DELETE"
    then true
    else false

unfoldable pub protect_administration : {S : Type 0} → String → Handler S → Handler S
unfolding is_administrative_mutation
protect_administration token next r s =
    if token == "" || not (is_administrative_mutation r)
    then next r s
    else if token == "" || not (header r.headers "X-Riquet-Admin-Token" == token)
    then (forbidden, s)
    else next r s
