-- ===== src/Domain/Machine.antt =====
-- internal/domain/machine.go: commands are planned against the current state, committed, applied and
-- published, one at a time under the machine's lock. `L` is what the committer keeps.
pub mod Cases
use riquet.Domain.Errors.{Error, Outcome, domain_error, err, ok, storage}
use riquet.Domain.Queries.{result_for}
use riquet.Domain.Snapshot.{State}
use riquet.Domain.State.{apply}
use riquet.Domain.Transition.{Digest, Envelope}
use riquet.Domain.Types.{
  CompatibilityLevel, Result, Schema, SchemaType, avro, json_schema, protobuf,
}
use riquet.Prelude.{
  Bool, List, Option, String, if◌then◌else◌, leb, none, number_eq, some, string_eq, true, ℕ, ◌==◌,
  ◌||◌,
}

-- The hashes of the standard library that the package calls.
pub record Hashes : Type 0 where
  pub digest : Digest
  pub md5 : List ℕ → List ℕ

-- Committer: whether the envelope was committed, and what is kept afterwards.
abbrev pub Committer : Type 0 → Type 0
Committer L = Envelope → L → Bool × L

-- CompatibilityCheck; the messages are not modelled.
abbrev pub CompatibilityCheck : Type 0
CompatibilityCheck = State → CompatibilityLevel → Schema → List Schema → Bool

pub record Machine (L : Type 0) : Type 0 where
  pub state : State
  pub log : L
  pub commit : Committer L
  pub check : CompatibilityCheck

-- NewMachine, and its defaults for a nil committer and a nil check.
unfoldable pub new_machine :
    {L : Type 0} → State → L → Option (Committer L) → Option CompatibilityCheck → Machine L
new_machine state log committer check = record {
  state = state;
  log = log;
  commit = elim committer [ none ↦ λ e l. (true, l) | some c ↦ c ];
  check = elim check [ none ↦ λ s level candidate previous. true | some c ↦ c ];
}

-- What planRegister returns: an envelope to commit, or the result of an earlier registration (the
-- source's envelope with an empty kind).
pub data Plan : Type 0 where
  known : Result → Plan
  commits : Envelope → Result → Plan

-- operationID != "" && ok
unfoldable pub replayed : State → String → Option Result
unfolding result_for
replayed s operation_id = if operation_id == "" then none else result_for s operation_id

unfoldable pub valid_schema_type : SchemaType → Bool
valid_schema_type t = t == avro || t == protobuf || t == json_schema

-- State.ApplyCommitted's machine method: an envelope that is already durable.
unfoldable pub apply_committed :
    {L : Type 0} → Hashes → Machine L → Envelope → Outcome (Unit {0}) × Machine L
apply_committed hashes m e =
    if leb e.sequence m.state.sequence then (ok tt, m) else elim (apply hashes.digest m.state e) [
      | err x ↦ (err x, m)
      | ok next ↦ (ok tt, record m { state = next })
    ]

abbrev pub storage_failure : Error
storage_failure = domain_error storage "transition" "durable commit failed"

-- commitApply: validate by applying, commit, and only then publish.
unfoldable pub commit_apply :
    {L : Type 0} → Hashes → Machine L → Envelope → Result → Outcome Result × Machine L
commit_apply hashes m e result = elim (apply hashes.digest m.state e) [
  | err x ↦ (err x, m)
  | ok next ↦
      let (committed, log) = m.commit e m.log in
      if committed
      then (ok result, record m { state = next; log = log })
      else (err storage_failure, record m { log = log })
]

-- The steps that every command method shares: answer a retry from the recorded operations, return
-- the plan's error or known result, or commit.
unfoldable pub carry_out :
    {L : Type 0} → Hashes → Machine L → String → Outcome Plan → Outcome Result × Machine L
carry_out hashes m operation_id plan = elim (replayed m.state operation_id) [
  | some result ↦ (ok result, m)
  | none ↦ elim plan [
    | err x ↦ (err x, m)
    | ok (known result) ↦ (ok result, m)
    | ok (commits e result) ↦ commit_apply hashes m e result
  ]
]
