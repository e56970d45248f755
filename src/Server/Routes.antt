-- ===== src/Server/Routes.antt =====
-- NewServer, Handler and middleware of internal/transport/confluent/server.go: which handler a
-- request reaches. http.ServeMux sends HEAD where it sends GET, answers 405 where only the method is
-- wrong, and 404 where no pattern has the path. No segment of a path is empty.
use riquet.Domain.Machine.{Hashes, Machine}
use riquet.Domain.Types.{SchemaType}
use riquet.Formats.{Engine}
use riquet.Map.{Map, get, put}
use riquet.Prelude.{
  Bool, List, Option, String, [], if◌then◌else◌, is_empty, none, number_eq, some, string_eq, ◌&&◌,
  ◌==◌, ◌∷◌,
}
use riquet.Server.{
  Arrival, Call, Checked, Reply, accepted, operation_id, plain_text, rejected, require,
}
use riquet.Server.Reads.{
  compatibility, get_global_config, get_global_mode, get_referrers, get_schema, get_schema_text,
  get_schema_versions, get_subject_config, get_subject_mode, get_version, health_live, health_ready,
  list_subjects, list_versions, lookup_schema, schema_types,
}
use riquet.Server.Writes.{
  post_schema, put_config, put_mode, remove_config, remove_mode, remove_subject, remove_version,
}

-- The handlers, with the values of their path.
pub data Route : Type 0 where
  live ready types : Route
  schema schema_text schema_versions : String → Route
  all_subjects : Route
  find_schema subject_versions new_schema : String → Route
  one_version drop_version referrers : String → String → Route
  drop_subject : String → Route
  config set_config mode_of set_mode_of : Option String → Route
  drop_config drop_mode : String → Route
  test_compatibility : String → String → Route

-- The patterns with two, three, four and five segments, by their methods.
abbrev pub two : String → String → Map String Route
two a b =
    if a == "health" && b == "live"
    then ("GET", live) ∷ []
    else if a == "health" && b == "ready"
    then ("GET", ready) ∷ []
    else if a == "schemas" && b == "types"
    then ("GET", types) ∷ []
    else if a == "subjects"
    then ("POST", find_schema b) ∷ ("DELETE", drop_subject b) ∷ []
    else if a == "config"
    then ("GET", config (some b)) ∷ ("PUT", set_config (some b)) ∷ ("DELETE", drop_config b) ∷ []
    else if a == "mode"
    then ("GET", mode_of (some b)) ∷ ("PUT", set_mode_of (some b)) ∷ ("DELETE", drop_mode b) ∷ []
    else []

abbrev pub three : String → String → String → Map String Route
three a b c =
    if a == "schemas" && b == "ids"
    then ("GET", schema c) ∷ []
    else if a == "subjects" && c == "versions"
    then ("GET", subject_versions b) ∷ ("POST", new_schema b) ∷ []
    else []

abbrev pub four : String → String → String → String → Map String Route
four a b c d =
    if a == "schemas" && b == "ids" && d == "schema"
    then ("GET", schema_text c) ∷ []
    else if a == "schemas" && b == "ids" && d == "versions"
    then ("GET", schema_versions c) ∷ []
    else if a == "subjects" && c == "versions"
    then ("GET", one_version b d) ∷ ("DELETE", drop_version b d) ∷ []
    else []

abbrev pub five : String → String → String → String → String → Map String Route
five a b c d e =
    if a == "subjects" && c == "versions" && e == "referencedby"
    then ("GET", referrers b d) ∷ []
    else if a == "compatibility" && b == "subjects" && d == "versions"
    then ("POST", test_compatibility c e) ∷ []
    else []

unfoldable pub patterns : List String → Map String Route
patterns (a ∷ []) =
    if a == "subjects"
    then ("GET", all_subjects) ∷ []
    else if a == "config"
    then ("GET", config none) ∷ ("PUT", set_config none) ∷ []
    else if a == "mode"
    then ("GET", mode_of none) ∷ ("PUT", set_mode_of none) ∷ []
    else []
patterns (a ∷ b ∷ []) = two a b
patterns (a ∷ b ∷ c ∷ []) = three a b c
patterns (a ∷ b ∷ c ∷ d ∷ []) = four a b c d
patterns (a ∷ b ∷ c ∷ d ∷ e ∷ []) = five a b c d e
patterns _ = []

unfoldable pub route : String → List String → Checked Route
unfolding patterns
route method path =
    let found = patterns path in
    if is_empty found
    then rejected (record { status = 404; body = plain_text "404 page not found\n" })
    else require (record { status = 405; body = plain_text "Method Not Allowed\n" })
        (get found (if method == "HEAD" then "GET" else method))

-- NewServer: the engines by their type.
unfoldable pub add_engines :
    {N : Type 0} → Map SchemaType (Engine N) → List (Engine N) → Map SchemaType (Engine N)
add_engines by_type [] = by_type
add_engines by_type (engine ∷ rest) = add_engines (put by_type engine.engine_type engine) rest

abbrev pub engines_by_type : {N : Type 0} → List (Engine N) → Map SchemaType (Engine N)
engines_by_type engines = add_engines [] engines

-- Server, but for its machine: the engines, and what the ready function says.
pub record Server (N : Type 0) : Type 0 where
  pub engines : Map SchemaType (Engine N)
  pub is_ready : Bool

module _ {L N : Type 0} (hashes : Hashes) (server : Server N) where
  unfoldable pub handle : Arrival → String → Machine L → Call → Route → Reply × Machine L
  unfolding health_live health_ready schema_types
  handle around operation m c live = (health_live, m)
  handle around operation m c ready = (health_ready server.is_ready, m)
  handle around operation m c types = (schema_types, m)
  handle around operation m c (schema id) = (get_schema m.state c id, m)
  handle around operation m c (schema_text id) = (get_schema_text m.state c id, m)
  handle around operation m c (schema_versions id) = (get_schema_versions m.state c id, m)
  handle around operation m c all_subjects = (list_subjects m.state c, m)
  handle around operation m c (find_schema subject) = (lookup_schema server.engines m c subject, m)
  handle around operation m c (subject_versions subject) = (list_versions m.state c subject, m)
  handle around operation m c (new_schema subject) =
      post_schema hashes server.engines around operation m c subject
  handle around operation m c (one_version subject version) =
      (get_version m.state c subject version, m)
  handle around operation m c (drop_version subject version) =
      remove_version hashes operation m c subject version
  handle around operation m c (referrers subject version) =
      (get_referrers m.state c subject version, m)
  handle around operation m c (drop_subject subject) = remove_subject hashes operation m c subject
  handle around operation m c (config none) = (get_global_config m.state c, m)
  handle around operation m c (config (some subject)) = (get_subject_config m.state c subject, m)
  handle around operation m c (set_config subject) = put_config hashes operation m c subject
  handle around operation m c (drop_config subject) = remove_config hashes operation m c subject
  handle around operation m c (mode_of none) = (get_global_mode m.state c, m)
  handle around operation m c (mode_of (some subject)) = (get_subject_mode m.state c subject, m)
  handle around operation m c (set_mode_of subject) = put_mode hashes operation m c subject
  handle around operation m c (drop_mode subject) = remove_mode hashes operation m c subject
  handle around operation m c (test_compatibility subject version) =
      (compatibility server.engines m c subject version, m)

  -- middleware and the mux: the answer carries the operation ID as its X-Request-ID.
  unfoldable pub serve : Arrival → Machine L → Call → (String × Reply) × Machine L
  unfolding operation_id route handle
  serve around m c =
      let operation = operation_id around c in
      elim (route c.method c.path) [
        | rejected reply ↦ ((operation, reply), m)
        | accepted found ↦
            let (reply, m') =
              handle around operation m (record c { request_id = operation }) found in
            ((operation, reply), m')
      ]

  -- Requests one after the other.
  unfoldable pub serve_all : Machine L → List (Arrival × Call) → Machine L
  unfolding serve
  serve_all m [] = m
  serve_all m ((around, c) ∷ rest) = serve_all (serve around m c).1 rest
