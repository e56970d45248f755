-- ===== src/Domain/Commands.antt =====
-- The deletions and settings of internal/domain/machine.go.
pub mod Planned
use riquet.Domain.Errors.{
  Outcome, conflict, domain_error, err, invalid, not_found, ok, read_only, reject_if, ◌>>=◌, ◌>>◌,
}
use riquet.Domain.Json.{Json}
use riquet.Domain.Machine.{Hashes, Machine, Plan, carry_out, commits}
use riquet.Domain.Payload.{
  write_compatibility, write_delete_subject, write_delete_version, write_mode,
}
use riquet.Domain.Queries.{effective_mode, lookup, referenced_by, versions}
use riquet.Domain.Snapshot.{State}
use riquet.Domain.Transition.{
  TransitionKind, compatibility_deleted, compatibility_set, mode_deleted, mode_set, new_envelope,
  subject_deleted, version_deleted,
}
use riquet.Domain.Types.{
  CompatibilityLevel, DeleteSubjectCommand, DeleteVersionCommand, Mode, Result, Scope, Version,
  mode_read_only, no_result, valid_level, valid_mode,
}
use riquet.Prelude.{
  List, String, [], if◌then◌else◌, is_empty, not, number_eq, string_eq, true, ◌&&◌, ◌==◌, ◌∷◌,
}
use riquet.Prelude.Words.{inc}

unfoldable pub plan_delete_version : Hashes → State → DeleteVersionCommand → Outcome Plan
plan_delete_version hashes s c = do
  reject_if (effective_mode s c.subject == mode_read_only)
      (domain_error read_only c.subject "deletion is disabled")
  let (item, schema, found) = lookup s c.subject c.version c.permanent
  reject_if (not found) (domain_error not_found "version" "%s/%d")
  reject_if (c.permanent && not item.deleted)
      (domain_error conflict "version" "soft delete is required before permanent delete")
  reject_if (c.permanent && not (is_empty (referenced_by s c.subject c.version)))
      (domain_error conflict "version" "active schemas reference this version")
  let result = record no_result { version = c.version }
  let payload =
      write_delete_version
        (record { subject = c.subject; version = c.version; permanent = c.permanent })
  ok (
      commits
        (new_envelope hashes.digest (inc s.sequence) c.operation_id version_deleted payload result)
        result)

-- The loop over the versions of a permanent subject deletion.
unfoldable pub check_deletable : State → String → List Version → Outcome (Unit {0})
check_deletable s subject [] = ok tt
check_deletable s subject (version ∷ rest) =
    let others = check_deletable s subject rest in
    do
      reject_if (not (lookup s subject version true).0.deleted)
          (domain_error conflict "subject" "soft delete is required before permanent delete")
      reject_if (not (is_empty (referenced_by s subject version)))
          (domain_error conflict "subject" "active schemas reference version %d")
      others

unfoldable pub plan_delete_subject : Hashes → State → DeleteSubjectCommand → Outcome Plan
plan_delete_subject hashes s c = do
  reject_if (effective_mode s c.subject == mode_read_only)
      (domain_error read_only c.subject "deletion is disabled")
  let deleted = versions s c.subject c.permanent
  reject_if (is_empty deleted) (domain_error not_found "subject" "%s")
  if c.permanent then check_deletable s c.subject deleted else ok tt
  let result = record no_result { versions = deleted }
  let payload =
      write_delete_subject
        (record { subject = c.subject; versions = deleted; permanent = c.permanent })
  ok (
      commits
        (new_envelope hashes.digest (inc s.sequence) c.operation_id subject_deleted payload result)
        result)

-- The error of a command that returns nothing else.
abbrev pub error_only {ℓ} : {A : Type ℓ} → Outcome A → Outcome (Unit {0})
error_only (ok a) = ok tt
error_only (err e) = err e

module _ {L : Type 0} (hashes : Hashes) (m : Machine L) where
  -- DeleteVersion and DeleteSubject
  unfoldable pub delete_version : DeleteVersionCommand → Outcome Result × Machine L
  delete_version c = carry_out hashes m c.operation_id (plan_delete_version hashes m.state c)

  unfoldable pub delete_subject : DeleteSubjectCommand → Outcome Result × Machine L
  delete_subject c = carry_out hashes m c.operation_id (plan_delete_subject hashes m.state c)

  -- simpleMutation
  unfoldable pub simple_mutation : String → TransitionKind → Json → Outcome (Unit {0}) × Machine L
  simple_mutation operation_id kind payload =
      let envelope =
        new_envelope hashes.digest (inc m.state.sequence) operation_id kind payload no_result in
      let (outcome, m') = carry_out hashes m operation_id (ok (commits envelope no_result)) in
      (error_only outcome, m')

  -- SetCompatibility, DeleteCompatibility, SetMode and DeleteMode
  unfoldable pub set_compatibility :
      String → Scope → CompatibilityLevel → Outcome (Unit {0}) × Machine L
  unfolding simple_mutation
  set_compatibility operation_id scope level =
      if not (valid_level level)
      then (err (domain_error invalid "compatibility" "unsupported level %q"), m)
      else simple_mutation operation_id compatibility_set
          (write_compatibility (record { scope = scope; level = level }))

  unfoldable pub delete_compatibility : String → String → Outcome (Unit {0}) × Machine L
  unfolding simple_mutation
  delete_compatibility operation_id subject =
      if subject == ""
      then (err (domain_error invalid "compatibility" "global compatibility cannot be deleted"), m)
      else simple_mutation operation_id compatibility_deleted
          (write_compatibility (record { scope = record { subject = subject }; level = "" }))

  unfoldable pub set_mode : String → Scope → Mode → Outcome (Unit {0}) × Machine L
  unfolding simple_mutation
  set_mode operation_id scope mode =
      if not (valid_mode mode)
      then (err (domain_error invalid "mode" "unsupported mode %q"), m)
      else simple_mutation operation_id mode_set
          (write_mode (record { scope = scope; mode = mode }))

  unfoldable pub delete_mode : String → String → Outcome (Unit {0}) × Machine L
  unfolding simple_mutation
  delete_mode operation_id subject =
      if subject == ""
      then (err (domain_error invalid "mode" "global mode cannot be deleted"), m)
      else simple_mutation operation_id mode_deleted
          (write_mode (record { scope = record { subject = subject }; mode = "" }))
