-- ===== src/Domain/Execute/History.antt =====
-- What holds of the published state after any sequence of commands.
use riquet.Domain.Errors.{ok}
use riquet.Domain.Execute.{Command, execute, execute_cases, run}
use riquet.Domain.Machine.{Hashes, Machine, commit_apply}
use riquet.Domain.Machine.Cases.{commit_apply_cases}
use riquet.Domain.Snapshot.{State}
use riquet.Domain.Snapshot.Consistent.{IsConsistent, validate-IsConsistent}
use riquet.Domain.State.{apply}
use riquet.Domain.State.Allocation.{IsAllocated, apply-IsAllocated}
use riquet.Domain.State.Growth.{apply-Keeps}
use riquet.Domain.State.Steps.{apply-Applied}
use riquet.Domain.Transition.{Envelope}
use riquet.Domain.Types.{Result, Schema, SchemaId}
use riquet.Map.{get}
use riquet.Prelude.{List, [], number_eq, refl, some, string_eq, ◌∙◌, ◌∷◌, ◌≡◌}

module _ {L : Type 0} (hashes : Hashes) where
  -- What a transition of Apply keeps, every command keeps.
  commit_apply-keeps {ℓ} :
      (Q : State → Type ℓ)
      → ((s t : State) (e : Envelope) → apply hashes.digest s e ≡ ok t → Q s → Q t)
      → (m : Machine L) (e : Envelope) (result : Result) → Q m.state
      → Q (commit_apply hashes m e result).1.state
  commit_apply-keeps Q keeps m e result q =
      commit_apply_cases hashes m (λ o. Q o.1.state) e result (λ _ _. q)
        (λ next log applied committed. keeps m.state next e applied q) (λ log failed. q)

  pub run-keeps {ℓ} :
      (Q : State → Type ℓ)
      → ((s t : State) (e : Envelope) → apply hashes.digest s e ≡ ok t → Q s → Q t)
      → (m : Machine L) (cs : List Command) → Q m.state
      → Q (run hashes m cs).state
  unfolding run
  run-keeps Q keeps m [] q = q
  run-keeps Q keeps m (c ∷ cs) q = run-keeps Q keeps (execute hashes m c).1 cs (
      execute_cases hashes (λ x. Q x.state) m q
        (λ e result. commit_apply-keeps Q keeps m e result q) c)

  -- A consistent state is consistent after any commands, whatever their outcomes.
  pub run-IsConsistent :
      (m : Machine L) (cs : List Command)
      → IsConsistent m.state
      → IsConsistent (run hashes m cs).state
  run-IsConsistent =
      run-keeps IsConsistent
        (λ s t e h _. validate-IsConsistent t (apply-Applied hashes.digest s e h).valid)

  -- After any commands a stored schema is still stored under its ID, with its identity: an ID is
  -- never taken back, and never comes to mean another schema.
  pub run-schema :
      (m : Machine L) (cs : List Command) (id : SchemaId) (old : Schema)
      → get m.state.schemas id ≡ some old
      → (new : Schema) × (get (run hashes m cs).state.schemas id ≡ some new)
        × (new.identity ≡ old.identity)
  run-schema m cs id old found =
      run-keeps
        (λ s. (new : Schema) × (get s.schemas id ≡ some new) × (new.identity ≡ old.identity))
        (λ s t e h q.
          let (middle, at, same) = q in
          let (new, there, alike) = apply-Keeps hashes.digest s t e h id middle at in
          (new, there, alike ∙ same))
        m cs (old, found, refl)

  -- If each schema is stored under its own ID and below the next ID, as int64 numbers, then so it
  -- is after any commands.
  pub run-IsAllocated :
      (m : Machine L) (cs : List Command)
      → IsAllocated m.state
      → IsAllocated (run hashes m cs).state
  run-IsAllocated = run-keeps IsAllocated (apply-IsAllocated hashes.digest)
