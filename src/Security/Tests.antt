-- ===== src/Security/Tests.antt =====
-- The guards of internal/security/http.go at concrete inputs.
use riquet.Ha.{Handler, Request}
use riquet.Map.{Map, get}
use riquet.Prelude.{String, [], none, number_eq, refl, string_eq, suc, ℕ, ◌∷◌, ◌≡◌}
use riquet.Prelude.Texts.{after_prefix}
use riquet.Security.{
  AuthConfig, BasicAuth, authenticate, authorized, forbidden, is_administrative_mutation,
  protect_administration, unauthorized,
}
use riquet.Security.Access.{Guarded, authenticate-Guarded}

-- A handler that counts its calls.
abbrev counting : Handler ℕ
counting r n = (record { status = 200; headers = []; body = r.body }, suc n)

abbrev bearer_config : AuthConfig
bearer_config = record { mode = "bearer"; username = ""; password = ""; bearer_token = "secret" }

abbrev no_basic : BasicAuth
no_basic authorization = none

abbrev set_mode : Map String String → Request
set_mode headers = record {
  method = "PUT";
  path = "/mode/user";
  query = "";
  headers = headers;
  body = [];
}

abbrev user_headers : Map String String
user_headers = ("Authorization", "Bearer secret") ∷ []

abbrev admin_headers : Map String String
admin_headers = ("Authorization", "Bearer secret") ∷ ("X-Riquet-Admin-Token", "root") ∷ []

abbrev guarded : Handler ℕ
guarded = authenticate no_basic bearer_config (protect_administration "root" counting)

user_refused : guarded (set_mode user_headers) 0 ≡ (forbidden, 0)
unfolding after_prefix authenticate authorized get is_administrative_mutation protect_administration
user_refused = refl

admin_passed : guarded (set_mode admin_headers) 0 ≡ counting (set_mode admin_headers) 0
unfolding after_prefix authenticate authorized get is_administrative_mutation protect_administration
admin_passed = refl

nobody_refused : guarded (set_mode []) 0 ≡ (unauthorized, 0)
unfolding after_prefix authenticate authorized get is_administrative_mutation protect_administration
nobody_refused = refl

authenticate-Guarded_example :
    Guarded no_basic bearer_config "root" counting (set_mode admin_headers) 0 (
      authenticate no_basic bearer_config
        (protect_administration "root" counting)
        (set_mode admin_headers)
        0)
authenticate-Guarded_example =
    authenticate-Guarded no_basic bearer_config "root" counting (set_mode admin_headers) 0
