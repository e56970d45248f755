-- ===== src/Domain/Commands/Planned.antt =====
-- What the deletions have checked when they give an envelope to commit.
use riquet.Domain.Commands.{check_deletable, plan_delete_subject, plan_delete_version}
use riquet.Domain.Errors.{>>-eq-ok, guarded, ok}
use riquet.Domain.Machine.{Hashes, commits, known}
use riquet.Domain.Payload.{write_delete_subject, write_delete_version}
use riquet.Domain.Queries.{effective_mode, lookup, referenced_by, versions}
use riquet.Domain.Register.Planned.{commits-not_known, commits_inj}
use riquet.Domain.Snapshot.{State}
use riquet.Domain.Transition.{Envelope, new_envelope, subject_deleted, version_deleted}
use riquet.Domain.Types.{
  DeleteSubjectCommand, DeleteVersionCommand, Result, mode_read_only, no_result,
}
use riquet.Prelude.{
  false, if◌then◌else◌, is_empty, not, not-false, number_eq, string_eq, true, ◌&&◌, ◌==◌, ◌≡◌,
}
use riquet.Prelude.Words.{inc}

module _ (hashes : Hashes) (s : State) where
  pub record IsVersionDeletion (c : DeleteVersionCommand) (e : Envelope) (result : Result)
      : Type 0 where
    pub writable : (effective_mode s c.subject == mode_read_only) ≡ false
    pub present : (lookup s c.subject c.version c.permanent).2 ≡ true
    pub soft_deleted :
        (c.permanent && not (lookup s c.subject c.version c.permanent).0.deleted) ≡ false
    pub unreferenced : (c.permanent && not (is_empty (referenced_by s c.subject c.version))) ≡ false
    pub outcome : result ≡ record no_result { version = c.version }
    pub envelope :
        e
        ≡ new_envelope hashes.digest
            (inc s.sequence)
            c.operation_id
            version_deleted
            (write_delete_version
              (record { subject = c.subject; version = c.version; permanent = c.permanent }))
            result

  pub plan_delete_version-IsVersionDeletion :
      (c : DeleteVersionCommand) {e : Envelope} {result : Result}
      → plan_delete_version hashes s c ≡ ok (commits e result)
      → IsVersionDeletion c e result
  unfolding plan_delete_version
  plan_delete_version-IsVersionDeletion c {e} {result} h =
      let (writable, h₁) = guarded _ _ _ h in
      let (present, h₂) = guarded _ _ _ h₁ in
      let (soft_deleted, h₃) = guarded _ _ _ h₂ in
      let (unreferenced, h₄) = guarded _ _ _ h₃ in
      let (same_envelope, same_result) =
        commits_inj _ e (record no_result { version = c.version }) result h₄ in
      record {
        writable = writable;
        present = not-false _ present;
        soft_deleted = soft_deleted;
        unreferenced = unreferenced;
        outcome = same_result;
        envelope = rw same_result same_envelope;
      }

  pub record IsSubjectDeletion (c : DeleteSubjectCommand) (e : Envelope) (result : Result)
      : Type 0 where
    pub writable : (effective_mode s c.subject == mode_read_only) ≡ false
    pub present : is_empty (versions s c.subject c.permanent) ≡ false
    pub deletable :
        (if c.permanent
          then check_deletable s c.subject (versions s c.subject c.permanent)
          else ok tt)
        ≡ ok tt
    pub outcome : result ≡ record no_result { versions = versions s c.subject c.permanent }
    pub envelope :
        e
        ≡ new_envelope hashes.digest
            (inc s.sequence)
            c.operation_id
            subject_deleted
            (write_delete_subject (record {
              subject = c.subject;
              versions = versions s c.subject c.permanent;
              permanent = c.permanent;
            }))
            result

  pub plan_delete_subject-IsSubjectDeletion :
      (c : DeleteSubjectCommand) {e : Envelope} {result : Result}
      → plan_delete_subject hashes s c ≡ ok (commits e result)
      → IsSubjectDeletion c e result
  unfolding plan_delete_subject
  plan_delete_subject-IsSubjectDeletion c {e} {result} h =
      let (writable, h₁) = guarded _ _ _ h in
      let (present, h₂) = guarded _ _ _ h₁ in
      let (deletable, h₃) = >>-eq-ok _ _ h₂ in
      let (same_envelope, same_result) =
        commits_inj _ e (record no_result { versions = versions s c.subject c.permanent }) result
          h₃ in
      record {
        writable = writable;
        present = present;
        deletable = deletable;
        outcome = same_result;
        envelope = rw same_result same_envelope;
      }

  -- The plans of the deletions are never an earlier result.
  pub plan_delete_version-not_known :
      (c : DeleteVersionCommand) (r : Result) → plan_delete_version hashes s c ≡ ok (known r) → ⊥
  unfolding plan_delete_version
  plan_delete_version-not_known c r h =
      let found = lookup s c.subject c.version c.permanent in
      let (_, h₁) = guarded (effective_mode s c.subject == mode_read_only) _ _ h in
      let (_, h₂) = guarded (not found.2) _ _ h₁ in
      let (_, h₃) = guarded (c.permanent && not found.0.deleted) _ _ h₂ in
      let (_, h₄) =
        guarded (c.permanent && not (is_empty (referenced_by s c.subject c.version))) _ _ h₃ in
      commits-not_known h₄

  pub plan_delete_subject-not_known :
      (c : DeleteSubjectCommand) (r : Result) → plan_delete_subject hashes s c ≡ ok (known r) → ⊥
  unfolding plan_delete_subject
  plan_delete_subject-not_known c r h =
      let deleted = versions s c.subject c.permanent in
      let (_, h₁) = guarded (effective_mode s c.subject == mode_read_only) _ _ h in
      let (_, h₂) = guarded (is_empty deleted) _ _ h₁ in
      let (_, h₃) =
        >>-eq-ok (if c.permanent then check_deletable s c.subject deleted else ok tt) _ h₂ in
      commits-not_known h₃
