-- ===== src/Domain/Execute/Deletion.antt =====
-- What the deletions leave to read.

use mathlib.Core.Path.{subst}
use riquet.Domain.Commands.{
  delete_subject, delete_version, plan_delete_subject, plan_delete_version,
}
use riquet.Domain.Commands.Planned.{
  plan_delete_subject-IsSubjectDeletion, plan_delete_subject-not_known,
  plan_delete_version-IsVersionDeletion, plan_delete_version-not_known,
}
use riquet.Domain.Errors.{ok}
use riquet.Domain.Machine.{Hashes, Machine, replayed}
use riquet.Domain.Machine.Cases.{answered, carry_out-Done, committed}
use riquet.Domain.Queries.{lookup, versions}
use riquet.Domain.Snapshot.{State, versions_of}
use riquet.Domain.Snapshot.Consistent.{IsConsistent}
use riquet.Domain.Snapshot.Filed.{AreFiled-versions_of}
use riquet.Domain.State.{mark_all, mark_deleted, mark_versions, record_operation}
use riquet.Domain.State.Covering.{Covers-versions, mark_all-none_visible, versions-none_visible}
use riquet.Domain.State.Effects.{apply-subject_deletion, apply-version_deletion}
use riquet.Domain.State.Marking.{
  Marked, lookup_in-Marked, lookup_in-Marked_other, mark_versions-Marked,
}
use riquet.Domain.Transition.{Envelope}
use riquet.Domain.Types.{
  DeleteSubjectCommand, DeleteVersionCommand, Result, SubjectVersion, Version,
}
use riquet.Map.{get-put, get-put_self, put}
use riquet.Prelude.{
  Bool, List, Option-cases, String, [], ap, arith, false, inl, inr, none, not, number_eq, string_eq,
  sym, ◌&&◌, ◌==◌, ◌∙◌, ◌∷◌, ◌≡◌,
}
use riquet.Prelude.Words.{inc}

-- What can be looked up after a deletion of one version: a search that includes deleted versions
-- still finds it unless it is permanently deleted, and all other versions, of this subject and of
-- others, are read as before.
pub record IsDeleted (s t : State) (subject : String) (version : Version) (permanent : Bool)
    : Type 0 where
  pub gone :
      (include_deleted : Bool)
      → (lookup t subject version include_deleted).2 ≡ (include_deleted && not permanent)
  pub others :
      (other : Version) (include_deleted : Bool)
      → (version == other) ≡ false
      → lookup t subject other include_deleted ≡ lookup s subject other include_deleted
  pub elsewhere :
      (owner : String) (other : Version) (include_deleted : Bool)
      → (subject == owner) ≡ false
      → lookup t owner other include_deleted ≡ lookup s owner other include_deleted

-- The marking of one version in a consistent state.
put-IsDeleted :
    (s : State) (subject : String) (version : Version) (permanent : Bool)
    (marked : List SubjectVersion)
    → IsConsistent s
    → Marked version permanent (versions_of s subject) marked
    → IsDeleted s (record s { subjects = put s.subjects subject marked }) subject version permanent
unfolding lookup
put-IsDeleted s subject version permanent marked ok' made =
    let (filed, once) = AreFiled-versions_of s subject ok' in
    let self = get-put_self s.subjects subject marked in
    record {
      gone = λ b. ground (arith, self, lookup_in-Marked s.schemas b subject [] once filed made);
      others = λ other b different.
          ground (arith, self, lookup_in-Marked_other s.schemas other b different made);
      elsewhere = λ owner other b different.
          ground (arith, different, get-put s.subjects subject marked owner);
    }

mark_all-IsDeleted :
    (s : State) (subject : String) (version : Version) (permanent : Bool) {u : State}
    → IsConsistent s
    → mark_all s subject (version ∷ []) permanent ≡ ok u
    → IsDeleted s u subject version permanent
unfolding mark_all mark_deleted
mark_all-IsDeleted s subject version permanent {u} ok' h =
    elim (Option-cases (mark_versions version permanent (versions_of s subject))) [
      | inl e ↦ absurd (ground (arith, e))
      | inr (marked, e) ↦
          subst (λ (x : State). IsDeleted s x subject version permanent)
            (let made : record s { subjects = put s.subjects subject marked } ≡ u =
                ground (arith, e) in
              made)
            (put-IsDeleted s subject version permanent marked ok'
              (mark_versions-Marked version permanent (versions_of s subject) e))
    ]

recorded-IsDeleted :
    (s u : State) (e : Envelope) (subject : String) (version : Version) (permanent : Bool)
    → IsDeleted s u subject version permanent
    → IsDeleted s (record_operation u e) subject version permanent
unfolding lookup record_operation
recorded-IsDeleted s u e subject version permanent d = record {
  gone = d.gone;
  others = d.others;
  elsewhere = d.elsewhere;
}

recorded-versions :
    (u : State) (e : Envelope) (subject : String) (include_deleted : Bool)
    → versions u subject include_deleted ≡ []
    → versions (record_operation u e) subject include_deleted ≡ []
unfolding versions record_operation
recorded-versions u e subject include_deleted h = h

module _ {L : Type 0} (hashes : Hashes) (m m' : Machine L) (r : Result) where
  -- In a consistent state, a DeleteVersion that succeeds for an operation not recorded before hides
  -- the version from plain reads; reads that include deleted versions still find it after a soft
  -- deletion and no longer after a permanent one. All other versions are read as before.
  pub delete_version-IsDeleted :
      (c : DeleteVersionCommand)
      → IsConsistent m.state
      → replayed m.state c.operation_id ≡ none
      → delete_version hashes m c ≡ (ok r, m')
      → IsDeleted m.state m'.state c.subject c.version c.permanent
  unfolding delete_version
  delete_version-IsDeleted c ok' fresh h =
      elim (carry_out-Done hashes m m' c.operation_id (plan_delete_version hashes m.state c) r fresh
        h) [
          | answered found same ↦ absurd (plan_delete_version-not_known hashes m.state c r found)
          | committed e next log planned applied same ↦
              let (u, marks', recorded) =
                apply-version_deletion hashes.digest m.state (inc m.state.sequence) c.operation_id r
                  (record { subject = c.subject; version = c.version; permanent = c.permanent })
                  (plan_delete_version-IsVersionDeletion hashes m.state c planned).envelope
                  applied in
              let d =
                recorded-IsDeleted m.state u e c.subject c.version c.permanent
                  (mark_all-IsDeleted m.state c.subject c.version c.permanent ok' marks') in
              subst (λ (x : State). IsDeleted m.state x c.subject c.version c.permanent)
                (sym recorded ∙ ap (λ (x : Machine L). x.state) (sym same)) d
        ]

  -- In a consistent state, after a DeleteSubject that succeeds for an operation not recorded
  -- before, Versions lists nothing that the command could have deleted: no active version after a
  -- soft deletion, no version at all after a permanent one. The result lists what Versions gave
  -- before.
  pub delete_subject-versions :
      (c : DeleteSubjectCommand)
      → IsConsistent m.state
      → replayed m.state c.operation_id ≡ none
      → delete_subject hashes m c ≡ (ok r, m')
      → (versions m'.state c.subject c.permanent ≡ [])
        × (r.versions ≡ versions m.state c.subject c.permanent)
  unfolding delete_subject
  delete_subject-versions c ok' fresh h =
      elim (carry_out-Done hashes m m' c.operation_id (plan_delete_subject hashes m.state c) r fresh
        h) [
          | answered found same ↦ absurd (plan_delete_subject-not_known hashes m.state c r found)
          | committed e next log planned applied same ↦
              let d = plan_delete_subject-IsSubjectDeletion hashes m.state c planned in
              let (u, marks', recorded) =
                apply-subject_deletion hashes.digest m.state (inc m.state.sequence) c.operation_id r
                  (record {
                    subject = c.subject;
                    versions = versions m.state c.subject c.permanent;
                    permanent = c.permanent;
                  })
                  d.envelope applied in
              let empty =
                mark_all-none_visible m.state c.subject (versions m.state c.subject c.permanent)
                  c.permanent (AreFiled-versions_of m.state c.subject ok').1
                  (Covers-versions m.state c.subject c.permanent) marks' in
              (
                subst (λ (x : State). versions x c.subject c.permanent ≡ [])
                    (sym recorded ∙ ap (λ (x : Machine L). x.state) (sym same))
                    (recorded-versions u e c.subject c.permanent
                      (versions-none_visible u c.subject c.permanent empty)),
                ap (λ (x : Result). x.versions) d.outcome,
              )
        ]
