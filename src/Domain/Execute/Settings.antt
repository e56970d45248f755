-- ===== src/Domain/Execute/Settings.antt =====
-- What the settings commands do to the effective settings of every subject.
use riquet.Domain.Commands.{
  delete_compatibility, delete_mode, error_only, set_compatibility, set_mode, simple_mutation,
}
use riquet.Domain.Errors.{Outcome, err, ok}
use riquet.Domain.Json.{Json}
use riquet.Domain.Machine.{Hashes, Machine, Plan, carry_out, commits, replayed}
use riquet.Domain.Machine.Cases.{answered, carry_out-Done, committed}
use riquet.Domain.Payload.{CompatibilityTransition, ModeTransition, write_compatibility, write_mode}
use riquet.Domain.Queries.{
  effective_compatibility, effective_mode, or_default, subject_compatibility, subject_mode,
}
use riquet.Domain.Register.Planned.{commits-not_known, commits_inj}
use riquet.Domain.Snapshot.{State}
use riquet.Domain.State.{apply_compatibility, apply_mode, apply_payload, record_operation}
use riquet.Domain.State.Effects.{
  apply-made, apply_payload-compatibility_deleted, apply_payload-compatibility_set,
  apply_payload-mode_deleted, apply_payload-mode_set,
}
use riquet.Domain.Transition.{
  Envelope, TransitionKind, compatibility_deleted, compatibility_set, encoded, mode_deleted,
  mode_set, new_envelope,
}
use riquet.Domain.Types.{CompatibilityLevel, Mode, Scope, no_result, valid_level, valid_mode}
use riquet.Map.{get-delete, get-put, same_refl}
use riquet.Prelude.{
  Bool-cases, String, ap, arith, if◌then◌else◌, inl, inr, none, number_eq, refl, string_eq, ◌==◌,
  ◌∙◌, ◌≡◌,
}
use riquet.Prelude.Words.{inc}

module _ {L : Type 0} (hashes : Hashes) (m m' : Machine L) (operation_id : String) where
  error_only-ok : {A : Type 0} (o : Outcome A) → error_only o ≡ ok tt → (a : A) × (o ≡ ok a)
  error_only-ok (ok a) h = (a, refl)
  error_only-ok (err x) h = absurd (cc)

  -- A settings command that succeeded has applied its payload.
  simple_mutation-applied :
      (kind : TransitionKind) (j : Json) (u : State)
      → replayed m.state operation_id ≡ none
      → apply_payload m.state kind (encoded j) ≡ ok u
      → simple_mutation hashes m operation_id kind j ≡ (ok tt, m')
      → (e : Envelope) × (m'.state ≡ record_operation u e)
  unfolding simple_mutation
  simple_mutation-applied kind j u fresh gives h =
      let plan : Outcome Plan = ok (
        commits (new_envelope hashes.digest (inc m.state.sequence) operation_id kind j no_result)
          no_result) in
      let outcome = carry_out hashes m operation_id plan in
      let (r, good) =
        error_only-ok outcome.0 (ap (λ (x : Outcome (Unit {0}) × Machine L). x.0) h) in
      let left = ap (λ (x : Outcome (Unit {0}) × Machine L). x.1) h in
      elim (carry_out-Done hashes m m' operation_id plan r fresh (λ i. (good i, left i))) [
        | answered found same ↦ absurd (commits-not_known found)
        | committed e next log planned applied same ↦
            let (made, _) = commits_inj _ e no_result r planned in
            (
              e,
              ap (λ (x : Machine L). x.state) same
                  ∙ apply-made hashes.digest m.state (inc m.state.sequence) operation_id no_result
                      kind j u made gives applied,
            )
      ]

  -- After a SetMode that succeeds for an operation not recorded before: the global scope gives the
  -- mode of every subject without one of its own, and any other scope changes that subject alone.
  pub set_mode-effective_mode :
      (scope : Scope) (mode : Mode)
      → replayed m.state operation_id ≡ none
      → set_mode hashes m operation_id scope mode ≡ (ok tt, m')
      → (subject : String)
      → effective_mode m'.state subject ≡ (
          if scope.subject == ""
          then or_default mode (subject_mode m.state subject)
          else if scope.subject == subject
          then mode
          else effective_mode m.state subject)
  unfolding set_mode effective_mode subject_mode apply_mode record_operation
  set_mode-effective_mode scope mode fresh h subject = elim (Bool-cases (valid_mode mode)) [
    | inr bad ↦ absurd (ground (arith, bad))
    | inl good ↦
        let t : ModeTransition = record { scope = scope; mode = mode } in
        let (e, left) =
          simple_mutation-applied mode_set (write_mode t) (apply_mode m.state mode_set t) fresh
            (apply_payload-mode_set m.state t) (ground (arith, good)) in
        ground (
          arith,
          ap (λ (x : State). x.global_mode) left,
          ap (λ (x : State). x.subject_modes) left,
          get-put m.state.subject_modes scope.subject mode subject,
        )
  ]

  -- After a SetCompatibility that succeeds for an operation not recorded before: the global scope
  -- gives the level of every subject without one of its own, and any other scope changes that
  -- subject alone.
  pub set_compatibility-effective_compatibility :
      (scope : Scope) (level : CompatibilityLevel)
      → replayed m.state operation_id ≡ none
      → set_compatibility hashes m operation_id scope level ≡ (ok tt, m')
      → (subject : String)
      → effective_compatibility m'.state subject ≡ (
          if scope.subject == ""
          then or_default level (subject_compatibility m.state subject)
          else if scope.subject == subject
          then level
          else effective_compatibility m.state subject)
  unfolding set_compatibility effective_compatibility subject_compatibility apply_compatibility
      record_operation
  set_compatibility-effective_compatibility scope level fresh h subject =
      elim (Bool-cases (valid_level level)) [
        | inr bad ↦ absurd (ground (arith, bad))
        | inl good ↦
            let t : CompatibilityTransition = record { scope = scope; level = level } in
            let (e, left) =
              simple_mutation-applied compatibility_set (write_compatibility t)
                (apply_compatibility m.state compatibility_set t) fresh
                (apply_payload-compatibility_set m.state t) (ground (arith, good)) in
            ground (
              arith,
              ap (λ (x : State). x.global_compatibility) left,
              ap (λ (x : State). x.subject_compatibility) left,
              get-put m.state.subject_compatibility scope.subject level subject,
            )
      ]

  -- After a DeleteMode that succeeds for an operation not recorded before, the subject has the
  -- global mode, and the others have what they had.
  pub delete_mode-effective_mode :
      (owner : String)
      → replayed m.state operation_id ≡ none
      → delete_mode hashes m operation_id owner ≡ (ok tt, m')
      → (subject : String)
      → effective_mode m'.state subject
        ≡ (if owner == subject then m.state.global_mode else effective_mode m.state subject)
  unfolding delete_mode effective_mode apply_mode record_operation
  delete_mode-effective_mode owner fresh h subject = elim (Bool-cases (owner == "")) [
    | inl bad ↦ absurd (ground (arith, bad))
    | inr good ↦
        let t : ModeTransition = record { scope = record { subject = owner }; mode = "" } in
        let (e, left) =
          simple_mutation-applied mode_deleted (write_mode t) (apply_mode m.state mode_deleted t)
            fresh (apply_payload-mode_deleted m.state t) (ground (arith, good)) in
        ground (
          arith,
          ap (λ (x : State). x.global_mode) left,
          ap (λ (x : State). x.subject_modes) left,
          get-delete m.state.subject_modes owner subject,
        )
  ]

  -- After a DeleteCompatibility that succeeds for an operation not recorded before, the subject has
  -- the global level, and the others have what they had.
  pub delete_compatibility-effective_compatibility :
      (owner : String)
      → replayed m.state operation_id ≡ none
      → delete_compatibility hashes m operation_id owner ≡ (ok tt, m')
      → (subject : String)
      → effective_compatibility m'.state subject ≡ (
          if owner == subject
          then m.state.global_compatibility
          else effective_compatibility m.state subject)
  unfolding delete_compatibility effective_compatibility apply_compatibility record_operation
  delete_compatibility-effective_compatibility owner fresh h subject =
      elim (Bool-cases (owner == "")) [
        | inl bad ↦ absurd (ground (arith, bad))
        | inr good ↦
            let t : CompatibilityTransition = record {
              scope = record { subject = owner };
              level = "";
            } in
            let (e, left) =
              simple_mutation-applied compatibility_deleted (write_compatibility t)
                (apply_compatibility m.state compatibility_deleted t) fresh
                (apply_payload-compatibility_deleted m.state t) (ground (arith, good)) in
            ground (
              arith,
              ap (λ (x : State). x.global_compatibility) left,
              ap (λ (x : State). x.subject_compatibility) left,
              get-delete m.state.subject_compatibility owner subject,
            )
      ]

  -- The subject then has no level of its own.
  pub delete_compatibility-subject_compatibility :
      (owner : String)
      → replayed m.state operation_id ≡ none
      → delete_compatibility hashes m operation_id owner ≡ (ok tt, m')
      → subject_compatibility m'.state owner ≡ none
  unfolding delete_compatibility subject_compatibility apply_compatibility record_operation
  delete_compatibility-subject_compatibility owner fresh h = elim (Bool-cases (owner == "")) [
    | inl bad ↦ absurd (ground (arith, bad))
    | inr good ↦
        let t : CompatibilityTransition = record {
          scope = record { subject = owner };
          level = "";
        } in
        let (e, left) =
          simple_mutation-applied compatibility_deleted (write_compatibility t)
            (apply_compatibility m.state compatibility_deleted t) fresh
            (apply_payload-compatibility_deleted m.state t) (ground (arith, good)) in
        ground (
          arith,
          ap (λ (x : State). x.subject_compatibility) left,
          get-delete m.state.subject_compatibility owner owner,
          same_refl owner,
        )
  ]
