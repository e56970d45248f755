-- ===== src/Domain/Register.antt =====
-- Register and planRegister of internal/domain/machine.go.
pub mod Planned
pub mod Items
pub mod Chosen
pub mod Readable
pub mod Numbering
use riquet.Domain.Errors.{
  Outcome, conflict, domain_error, incompatible, invalid, not_found, ok, read_only, reject_if,
  ◌>>=◌, ◌>>◌,
}
use riquet.Domain.Guid.{fingerprint_guid}
use riquet.Domain.Machine.{Hashes, Machine, Plan, carry_out, commits, known, valid_schema_type}
use riquet.Domain.Payload.{RegistrationTransition, write_registration}
use riquet.Domain.Queries.{
  effective_compatibility, effective_mode, lookup, schema_or_zero, versions,
}
use riquet.Domain.Snapshot.{State, versions_of}
use riquet.Domain.Transition.{new_envelope, schema_registered}
use riquet.Domain.Types.{
  Reference, RegisterCommand, Result, Schema, SchemaId, SubjectVersion, Version, compatibility_none,
  mode_import, mode_read_only, no_result, no_version, transitive,
}
use riquet.Map.{get}
use riquet.Prelude.{
  Bool, List, Option, String, [], any, false, if◌then◌else◌, is_empty, none, not, number_eq, some,
  string_eq, ℕ, ◌&&◌, ◌==◌, ◌||◌, ◌∷◌,
}
use riquet.Prelude.Words.{inc, slt}

-- The loop of nextVersion.
unfoldable pub max_version : Version → List SubjectVersion → Version
max_version maximum [] = maximum
max_version maximum (item ∷ rest) =
    max_version (if slt maximum item.version then item.version else maximum) rest

unfoldable pub next_version : List SubjectVersion → Version
next_version items = inc (max_version 0 items)

-- The loop over the command's references.
unfoldable pub check_references : State → List Reference → Outcome (Unit {0})
check_references s [] = ok tt
check_references s (r ∷ rest) =
    let others = check_references s rest in
    do
      reject_if (r.name == "" || r.subject == "" || slt r.version 1)
          (domain_error invalid "reference" "name, subject, and positive version are required")
      reject_if (not (lookup s r.subject r.version false).2)
          (domain_error not_found "reference" "%s/%d")
      others

-- The loop for an active version of the subject with a known schema ID.
unfoldable pub active_with : SchemaId → List SubjectVersion → Option SubjectVersion
active_with id [] = none
active_with id (item ∷ rest) =
    let others = active_with id rest in
    if item.schema_id == id && not item.deleted && not item.permanent then some item else others

unfoldable pub known_registration : State → RegisterCommand → Option Result
known_registration s c = elim (get s.identity_to_id c.identity) [
  | none ↦ none
  | some id ↦ elim (active_with id (versions_of s c.subject)) [
    | none ↦ none
    | some item ↦ some (record {
      schema_id = id;
      guid = (schema_or_zero (get s.schemas id)).guid;
      version = item.version;
      versions = [];
    })
  ]
]

-- The ID of an identity that is already known must be the requested one, if any.
unfoldable pub identity_id : RegisterCommand → Option SchemaId → Outcome SchemaId
identity_id c none = ok c.requested_id
identity_id c (some id) = do
  reject_if (not (c.requested_id == 0) && not (c.requested_id == id))
      (domain_error conflict "schema" "identity already uses ID %d")
  ok id

abbrev pub belongs_elsewhere : String → Option Schema → Bool
belongs_elsewhere identity none = false
belongs_elsewhere identity (some schema) = not (schema.identity == identity)

unfoldable pub choose_id : State → RegisterCommand → Outcome SchemaId
choose_id s c = do
  id ← identity_id c (get s.identity_to_id c.identity)
  let chosen = if id == 0 then s.next_schema_id else id
  reject_if (belongs_elsewhere c.identity (get s.schemas chosen))
      (domain_error conflict "schema" "ID %d already belongs to another identity")
  ok chosen

unfoldable pub choose_version : State → RegisterCommand → Outcome Version
choose_version s c = do
  let version =
      if c.requested_version == 0
      then next_version (versions_of s c.subject)
      else c.requested_version
  reject_if (any (λ item. item.version == version) (versions_of s c.subject))
      (domain_error conflict c.subject "version %d already exists")
  ok version

unfoldable pub candidate : (List ℕ → List ℕ) → State → RegisterCommand → SchemaId → Schema
candidate md5 s c id = elim (get s.schemas id) [
  | some existing ↦ existing
  | none ↦ record {
    id = id;
    guid = fingerprint_guid md5 c.definition c.references;
    identity = c.identity;
    schema_type = c.schema_type;
    definition = c.definition;
    references = c.references;
  }
]

-- versions[len(versions)-1:]
unfoldable pub last_only : List Version → List Version
last_only [] = []
last_only (v ∷ []) = v ∷ []
last_only (v ∷ w ∷ rest) = last_only (w ∷ rest)

unfoldable pub looked_up : State → String → List Version → List Schema
looked_up s subject [] = []
looked_up s subject (version ∷ rest) =
    let others = looked_up s subject rest in
    let (item, schema, found) = lookup s subject version false in
    if found then schema ∷ others else others

-- compatibilitySchemas
unfoldable pub compatibility_schemas : State → String → List Schema
compatibility_schemas s subject =
    let all = versions s subject false in
    looked_up s subject
      (if transitive (effective_compatibility s subject) then all else last_only all)

-- The guard on the compatibility callback.
unfoldable pub must_check : State → RegisterCommand → Bool
must_check s c =
    not (effective_mode s c.subject == mode_import)
    && not (effective_compatibility s c.subject == compatibility_none)
    && not (is_empty (compatibility_schemas s c.subject))

-- The result and the payload of a new registration.
abbrev pub registered : (List ℕ → List ℕ) → State → RegisterCommand → SchemaId → Version → Result
registered md5 s c id version = record no_result {
  schema_id = id;
  guid = (candidate md5 s c id).guid;
  version = version;
}

abbrev pub registration :
    (List ℕ → List ℕ) → State → RegisterCommand → SchemaId → Version → RegistrationTransition
registration md5 s c id version = record {
  schema = candidate md5 s c id;
  version = record no_version {
    subject = c.subject;
    version = version;
    schema_id = id;
    timestamp = c.timestamp;
    sequence = inc s.sequence;
  };
}

abbrev pub known_or_new : Option Result → Outcome Plan → Outcome Plan
known_or_new none plan = plan
known_or_new (some result) plan = ok (known result)

module _ {L : Type 0} (hashes : Hashes) (m : Machine L) (c : RegisterCommand) where
  -- The part of planRegister after the search for a known registration.
  unfoldable pub plan_new : Outcome Plan
  plan_new = do
    id ← choose_id m.state c
    version ← choose_version m.state c
    let level = effective_compatibility m.state c.subject
    let previous = compatibility_schemas m.state c.subject
    reject_if
        (must_check m.state c
          && not (m.check m.state level (candidate hashes.md5 m.state c id) previous))
        (domain_error incompatible c.subject "%s")
    let result = registered hashes.md5 m.state c id version
    let payload = write_registration (registration hashes.md5 m.state c id version)
    ok (
        commits
          (new_envelope hashes.digest (inc m.state.sequence) c.operation_id schema_registered
            payload result)
          result)

  unfoldable pub plan_register : Outcome Plan
  plan_register = do
    reject_if
        (c.subject == ""
          || c.identity == ""
          || c.definition == ""
          || not (valid_schema_type c.schema_type))
        (domain_error invalid "schema" "subject, identity, definition, and valid type are required")
    reject_if (effective_mode m.state c.subject == mode_read_only)
        (domain_error read_only c.subject "schema registration is disabled")
    reject_if
        (not (c.requested_id == 0 && c.requested_version == 0)
          && not (effective_mode m.state c.subject == mode_import))
        (domain_error conflict c.subject "explicit ID/version requires IMPORT mode")
    check_references m.state c.references
    known_or_new (known_registration m.state c) plan_new

  -- Register
  unfoldable pub register : Outcome Result × Machine L
  register = carry_out hashes m c.operation_id plan_register
