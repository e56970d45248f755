-- ===== src/Storage/Bolt/Persisted.antt =====
-- A machine whose committer is a bolt store.
use mathlib.Core.Path.{subst, subst₂}
use riquet.Domain.Errors.{err, ok}
use riquet.Domain.Execute.{Command, execute, execute_cases, run}
use riquet.Domain.Execute.Durable.{replay, replay-append}
use riquet.Domain.Execute.Follower.{apply-sequence}
use riquet.Domain.Machine.{Committer, Hashes, Machine, commit_apply}
use riquet.Domain.Machine.Cases.{commit_apply_cases}
use riquet.Domain.Snapshot.{State}
use riquet.Domain.State.{apply}
use riquet.Domain.Transition.{Digest, Envelope}
use riquet.Domain.Types.{Result}
use riquet.Prelude.{
  Bool, List, [], ap, arith, false, number_eq, refl, some, string_eq, sym, true, ℕ, ◌++◌, ◌+◌, ◌<◌,
  ◌^◌, ◌∙◌, ◌∷◌, ◌≡◌, ◌≤◌,
}
use riquet.Storage.{Answer, Surroundings, done, failed, refused}
use riquet.Storage.Bolt.{Bucket, Database, Store, commit, read_sequence}
use riquet.Storage.Bolt.Chain.{
  IsChain, IsChain-append, bucket_put-append, envelopes, envelopes-append,
}
use riquet.Storage.Bolt.Commit.{
  Committed, IsWellFormed, appended, commit-Committed, rejected, was_there,
}
use riquet.Storage.Bolt.Keys.{read_sequence-uint64_key}

-- The store as the machine's committer: each commit meets the next of the listed surroundings, and
-- calm ones after the last.
abbrev pub calm : Surroundings
calm = record { is_cancelled = false; is_down = false }

abbrev pub is_done {ℓ} : {A : Type ℓ} → Answer A → Bool
is_done (done a) = true
is_done (failed x) = false

pub record Backend : Type 0 where
  pub store : Store
  pub ahead : List Surroundings

abbrev pub met : List Surroundings → Surroundings
met [] = calm
met (around ∷ rest) = around

abbrev pub later : List Surroundings → List Surroundings
later [] = []
later (around ∷ rest) = rest

unfoldable pub bolt_committer : Digest → Committer Backend
bolt_committer digest e log =
    let o = commit digest log.store (met log.ahead) e in
    (is_done o.0, record { store = o.1; ahead = later log.ahead })

-- The callback that applies a transition to a state.
unfoldable pub apply_to : Digest → Envelope → State → Answer State
apply_to digest e s = elim (apply digest s e) [ ok next ↦ done next | err x ↦ failed (refused x) ]

-- The machine's state is what the stored transitions make of `start`.
pub record IsStored (hashes : Hashes) (start : State) (m : Machine Backend) : Type 0 where
  pub commits_to : m.commit ≡ bolt_committer hashes.digest
  pub well_formed : IsWellFormed hashes.digest start.sequence m.log.store.db
  pub at_sequence : read_sequence m.log.store.db.last_sequence ≡ m.state.sequence
  pub replays : replay hashes.digest start (envelopes m.log.store.db.transitions) ≡ ok m.state

-- What a commit by the store can do to a database that is well-formed.
data Kept (digest : Digest) (first : ℕ) (e : Envelope) (db : Database)
    : Bool → Database → Type 0 where
  unchanged :
      (b : Bool)
      → (b ≡ true → e.sequence ≤ read_sequence db.last_sequence)
      → Kept digest first e db b db
  grown :
      (left : Database)
      → e.sequence ≡ read_sequence db.last_sequence + 1
      → IsWellFormed digest first left
      → read_sequence left.last_sequence ≡ e.sequence
      → left.transitions ≡ db.transitions ++ ((e.sequence, some e) ∷ [])
      → Kept digest first e db true left

commit-Kept :
    (digest : Digest) (first : ℕ) (s : Store) (around : Surroundings) (e : Envelope)
    → IsWellFormed digest first s.db
    → Kept digest first e s.db
        (is_done (commit digest s around e).0)
        (commit digest s around e).1.db
commit-Kept digest first s around e w = kept (commit-Committed digest s around e)
  where
    kept :
        {o : Answer (Unit {0}) × Store}
        → Committed digest s e o
        → Kept digest first e s.db (is_done o.0) o.1.db
    kept (rejected x left same) =
        subst (λ db. Kept digest first e s.db false db) (sym same)
          (unchanged false (λ h. absurd (cc)))
    kept (was_there old there) = unchanged true (λ h. ground (arith, old))
    kept (appended new follows intact) =
        let fits : e.sequence < 2 ^ 64 = ground (arith, follows) in
        let next : e.sequence ≡ read_sequence s.db.last_sequence + 1 =
          ground (arith, follows, new, w.bounded) in
        let written = read_sequence-uint64_key e.sequence fits in
        let put =
          bucket_put-append digest first s.db.transitions (read_sequence s.db.last_sequence)
            e.sequence (some e) w.chain (omega (arith, next)) in
        let chain =
          IsChain-append digest first s.db.transitions (read_sequence s.db.last_sequence) e w.chain
            next intact in
        grown _ next
          (record {
            bounded = subst (λ n. n < 2 ^ 64) (sym written) fits;
            chain = subst₂ (IsChain digest first) (sym put) (sym next ∙ sym written) chain;
          })
          written put

module _ (digest : Digest) (first : ℕ) (e : Envelope) where
  bolt_committer-Kept :
      (log : Backend)
      → IsWellFormed digest first log.store.db
      → Kept digest first e log.store.db
          (bolt_committer digest e log).0
          (bolt_committer digest e log).1.store.db
  unfolding bolt_committer
  bolt_committer-Kept log w = commit-Kept digest first log.store (met log.ahead) e w

  -- A commit that fails leaves the database.
  Kept-failed :
      {db left : Database} {b : Bool} → Kept digest first e db b left → b ≡ false → left ≡ db
  Kept-failed (unchanged b h) miss = refl
  Kept-failed (grown left _ _ _ _) miss = absurd (cc)

  -- A commit of the next transition that succeeds adds it.
  Kept-done :
      {db left : Database} {b : Bool}
      → Kept digest first e db b left
      → b ≡ true
      → read_sequence db.last_sequence < e.sequence
      → IsWellFormed digest first left
        × (read_sequence left.last_sequence ≡ e.sequence)
        × (left.transitions ≡ db.transitions ++ ((e.sequence, some e) ∷ []))
  Kept-done (unchanged b h) kept above = absurd (omega (arith, h kept))
  Kept-done (grown left next w written ends) kept above = (w, written, ends)

module _ (hashes : Hashes) (start : State) where
  -- What the committer leaves, for the outcome that the machine saw.
  committed-Kept :
      (m : Machine Backend) (e : Envelope) {b : Bool} {log : Backend}
      → IsStored hashes start m
      → m.commit e m.log ≡ (b, log)
      → Kept hashes.digest start.sequence e m.log.store.db b log.store.db
  committed-Kept m e p h =
      subst
        (λ (o : Bool × Backend).
          Kept hashes.digest start.sequence e m.log.store.db o.0 o.1.store.db)
        (ap (λ (c : Committer Backend). c e m.log) (sym p.commits_to) ∙ h)
        (bolt_committer-Kept hashes.digest start.sequence e m.log p.well_formed)

  commit_apply-IsStored :
      (m : Machine Backend) (e : Envelope) (result : Result)
      → IsStored hashes start m
      → IsStored hashes start (commit_apply hashes m e result).1
  commit_apply-IsStored m e result p =
      commit_apply_cases hashes m (λ o. IsStored hashes start o.1) e result (λ _ _. p) published
        failing
    where
      published :
          (next : State) (log : Backend)
          → apply hashes.digest m.state e ≡ ok next
          → m.commit e m.log ≡ (true, log)
          → IsStored hashes start (record m { state = next; log = log })
      published next log applied committed =
          let range : m.state.sequence < 2 ^ 64 =
            omega (arith, p.at_sequence, p.well_formed.bounded) in
          let (grows, own, bound) = apply-sequence hashes.digest m.state next e range applied in
          let above : read_sequence m.log.store.db.last_sequence < e.sequence =
            omega (arith, p.at_sequence, grows, own) in
          let (w, written, ends) =
            Kept-done hashes.digest start.sequence e (committed-Kept m e p committed) refl above in
          record {
            commits_to = p.commits_to;
            well_formed = w;
            at_sequence = written ∙ own;
            replays =
                ap (λ (b : Bucket). replay hashes.digest start (envelopes b)) ends
                ∙ ap (replay hashes.digest start)
                    (envelopes-append m.log.store.db.transitions e.sequence e)
                ∙ replay-append hashes.digest start (envelopes m.log.store.db.transitions) e
                    p.replays
                ∙ applied;
          }

      failing :
          (log : Backend)
          → m.commit e m.log ≡ (false, log)
          → IsStored hashes start (record m { log = log })
      failing log committed =
          let same =
            Kept-failed hashes.digest start.sequence e (committed-Kept m e p committed) refl in
          record {
            commits_to = p.commits_to;
            well_formed =
                subst (IsWellFormed hashes.digest start.sequence) (sym same) p.well_formed;
            at_sequence =
                ap (λ (db : Database). read_sequence db.last_sequence) same ∙ p.at_sequence;
            replays =
                ap (λ (db : Database). replay hashes.digest start (envelopes db.transitions)) same
                ∙ p.replays;
          }

  -- For a machine that commits to a bolt store: if the store holds the transitions after `start`
  -- without a gap and they make the published state, then so it is after any commands, whichever of
  -- their commits meet a cancelled context or a failing backend.
  pub run-IsStored :
      (m : Machine Backend) (cs : List Command)
      → IsStored hashes start m
      → IsStored hashes start (run hashes m cs)
  unfolding run
  run-IsStored m [] p = p
  run-IsStored m (c ∷ cs) p = run-IsStored (execute hashes m c).1 cs (
      execute_cases hashes (IsStored hashes start) m p
        (λ e result. commit_apply-IsStored m e result p) c)
