-- ===== src/App.antt =====
-- The composition of the parts in internal/app/app.go: recovery from a store, the compatibility check
-- that the domain is given, and the machine that serves.
pub mod Restart
pub mod Tests
use riquet.Backup.{StoreOperations, starting_state}
use riquet.Domain.Machine.{CompatibilityCheck, Machine, new_machine}
use riquet.Domain.Queries.{or_default}
use riquet.Domain.Register.{candidate}
use riquet.Domain.Snapshot.{State}
use riquet.Domain.Transition.{Digest}
use riquet.Domain.Types.{CompatibilityLevel, Schema, SchemaType}
use riquet.Formats.{Engine, ParseRequest, Parsed, Resolver, default_limits, resolve}
use riquet.Map.{Map, get}
use riquet.Prelude.{Bool, List, Option, [], false, none, number_eq, some, string_eq, ◌∷◌}
use riquet.Storage.{Answer, done, failed}
use riquet.Storage.Bolt.Persisted.{Backend, apply_to, bolt_committer}

-- recoverState
unfoldable pub recover_state : {T : Type 0} → StoreOperations T → Digest → T → Answer State × T
unfolding starting_state
recover_state operations digest store =
    let (loaded, store') = operations.load store in
    elim (starting_state loaded) [
      | failed x ↦ (failed x, store')
      | done state ↦ operations.replay_from store' state.sequence (apply_to digest) state
    ]

-- A stored schema, as the check parses it again.
abbrev stored_request : Schema → ParseRequest
stored_request stored = record {
  definition = stored.definition;
  references = stored.references;
  normalize = false;
  limits = default_limits;
}

module _ {N : Type 0} (engine : Engine N) (resolver : Resolver) where
  unfoldable pub parse_all : List Schema → Option (List (Parsed N))
  parse_all [] = some []
  parse_all (stored ∷ rest) =
      let others = parse_all rest in
      elim (engine.parse (stored_request stored) resolver) [
        | none ↦ none
        | some parsed ↦ elim others [ none ↦ none | some ps ↦ some (parsed ∷ ps) ]
      ]

  -- compatibilityChecker, for the engine of the candidate's type.
  unfoldable pub check_with : CompatibilityLevel → Schema → List Schema → Bool
  unfolding parse_all
  check_with level candidate previous = elim (engine.parse (stored_request candidate) resolver) [
    | none ↦ false
    | some parsed ↦ elim (parse_all previous) [
      | none ↦ false
      | some others ↦ or_default false (engine.compatible level parsed others)
    ]
  ]

unfoldable pub compatibility_checker : {N : Type 0} → Map SchemaType (Engine N) → CompatibilityCheck
unfolding check_with resolve
compatibility_checker engines current level candidate previous =
    elim (get engines candidate.schema_type) [
      | none ↦ false
      | some engine ↦ check_with engine (resolve current) level candidate previous
    ]

-- The machine that Run starts over a bolt store.
unfoldable pub start_machine :
    {N : Type 0} → Digest → Map SchemaType (Engine N) → State → Backend → Machine Backend
unfolding new_machine
start_machine digest engines state log =
    new_machine state log (some (bolt_committer digest)) (some (compatibility_checker engines))
