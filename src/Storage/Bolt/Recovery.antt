-- ===== src/Storage/Bolt/Recovery.antt =====
-- Recovery of a machine from its store.
use mathlib.Core.Path.{subst}
use riquet.Domain.Errors.{Outcome-cases, ok, ok_inj}
use riquet.Domain.Execute.Durable.{replay}
use riquet.Domain.Machine.{Hashes, Machine}
use riquet.Domain.Snapshot.{State}
use riquet.Domain.State.{apply}
use riquet.Domain.Transition.{Digest, Envelope, validate_envelope}
use riquet.Prelude.{
  List, [], ap, arith, false, if◌then◌else◌, inl, inr, none, number_eq, refl, some, string_eq, sym,
  ℕ, ◌++◌, ◌+◌, ◌<◌, ◌^◌, ◌∙◌, ◌∷◌, ◌≡◌,
}
use riquet.Prelude.Words.{inc}
use riquet.Storage.{Answer, closed_store, done, failed}
use riquet.Storage.Bolt.{
  Bucket, Database, Store, read_sequence, record_error, replay_after, replay_entries, seek, view,
}
use riquet.Storage.Bolt.Chain.{IsChain, IsChain-le, IsChain-rest, envelopes, seek-chain}
use riquet.Storage.Bolt.Persisted.{Backend, IsStored, apply_to, calm}

-- The loop of Replay over a chain.
replay_entries-chain :
    (digest : Digest) (first : ℕ) (m : Bucket) (last : ℕ) (s t : State)
    → last < 2 ^ 64
    → IsChain digest first m last
    → replay digest s (envelopes m) ≡ ok t
    → replay_entries digest calm (apply_to digest) (inc first) m s ≡ done t
unfolding replay_entries replay apply_to
replay_entries-chain digest first [] last s t bound c h = ap done (ok_inj h)
replay_entries-chain digest first ((k, none) ∷ rest) last s t bound c h =
    absurd (let (e, there, _, _) = c.1 in cc)
replay_entries-chain digest first ((k, some e) ∷ rest) last s t bound c h =
    elim (Outcome-cases (apply digest s e)) [
      | inr (x, bad) ↦ absurd (ground (arith, bad))
      | inl (next, good) ↦
          let (x, there, key, intact) = c.1 in
          let same : x ≡ e = cc in
          let own : e.sequence ≡ k = subst (λ (y : Envelope). y.sequence ≡ k) same key in
          let valid : validate_envelope digest e ≡ ok tt =
            subst (λ (y : Envelope). validate_envelope digest y ≡ ok tt) same intact in
          let room = IsChain-le digest (first + 1) rest last c.2 in
          let step : inc first ≡ first + 1 = ground (arith, room, bound) in
          let ih =
            replay_entries-chain digest (first + 1) rest last next t bound c.2
              (ground (arith, good)) in
          let ih' : replay_entries digest calm (apply_to digest) (inc (inc first)) rest next
              ≡ done t =
            rw step ih in
          ground (arith, own, c.0, step, valid, good, ih')
    ]

replay-split :
    (digest : Digest) (s u : State) (prior rest : List Envelope)
    → replay digest s prior ≡ ok u
    → replay digest s (prior ++ rest) ≡ replay digest u rest
unfolding replay
replay-split digest s u [] rest h = ap (λ x. replay digest x rest) (ok_inj h)
replay-split digest s u (e ∷ prior) rest h = elim (Outcome-cases (apply digest s e)) [
  | inr (x, bad) ↦ absurd (ground (arith, bad))
  | inl (next, good) ↦
      ground (arith, good, replay-split digest next u prior rest (ground (arith, good)))
]

envelopes_of-append :
    (prior rest : Bucket) → envelopes (prior ++ rest) ≡ envelopes prior ++ envelopes rest
envelopes_of-append [] rest = refl
envelopes_of-append ((k, none) ∷ prior) rest = envelopes_of-append prior rest
envelopes_of-append ((k, some e) ∷ prior) rest = ap (λ es. e ∷ es) (envelopes_of-append prior rest)

-- The entries after a sequence, replayed on the state that the entries up to there make.
entries-IsStored :
    (hashes : Hashes) (start : State) (m : Machine Backend) (prior rest : Bucket) (after : ℕ)
    (s : State)
    → IsStored hashes start m
    → m.log.store.db.transitions ≡ prior ++ rest
    → IsChain hashes.digest start.sequence prior after
    → after + 1 < 2 ^ 64
    → replay hashes.digest start (envelopes prior) ≡ ok s
    → replay_entries hashes.digest calm
        (apply_to hashes.digest)
        (inc after)
        (seek (inc after) m.log.store.db.transitions)
        s
      ≡ done m.state
entries-IsStored hashes start m prior rest after s p parts c room before =
    let last = read_sequence m.log.store.db.last_sequence in
    let whole : IsChain hashes.digest start.sequence (prior ++ rest) last =
      subst (λ (b : Bucket). IsChain hashes.digest start.sequence b last) parts
        p.well_formed.chain in
    let tail = IsChain-rest hashes.digest start.sequence prior rest after last c whole in
    let step : inc after ≡ after + 1 = ground (arith, room) in
    let found : seek (inc after) m.log.store.db.transitions ≡ rest =
      ap (λ n. seek n m.log.store.db.transitions) step
      ∙ ap (seek (after + 1)) parts
      ∙ seek-chain hashes.digest start.sequence prior rest after last c tail in
    let all : replay hashes.digest start (envelopes prior ++ envelopes rest) ≡ ok m.state =
      ap (replay hashes.digest start) (sym (envelopes_of-append prior rest))
      ∙ ap (λ (b : Bucket). replay hashes.digest start (envelopes b)) (sym parts)
      ∙ p.replays in
    let remaining =
      sym (replay-split hashes.digest start s (envelopes prior) (envelopes rest) before) ∙ all in
    ap (λ (b : Bucket). replay_entries hashes.digest calm (apply_to hashes.digest) (inc after) b s)
      found
    ∙ replay_entries-chain hashes.digest after rest last s m.state p.well_formed.bounded tail
        remaining

-- For a machine whose published state its bolt store makes from `start`: Replay on an open store
-- with the same database, nothing failing around it, after one of the sequences below the largest
-- uint64 and with the state that the transitions up to there make, gives the published state and
-- leaves the store.
pub replay_after-IsStored :
    (hashes : Hashes) (start : State) (m : Machine Backend) (opened : Store) (prior rest : Bucket)
    (after : ℕ) (s : State)
    → IsStored hashes start m
    → opened.is_closed ≡ false
    → opened.db ≡ m.log.store.db
    → m.log.store.db.transitions ≡ prior ++ rest
    → IsChain hashes.digest start.sequence prior after
    → after + 1 < 2 ^ 64
    → replay hashes.digest start (envelopes prior) ≡ ok s
    → replay_after hashes.digest opened calm after (apply_to hashes.digest) s
      ≡ (done m.state, opened)
unfolding replay_after view record_error
replay_after-IsStored hashes start m opened prior rest after s p is_open same parts c room before =
    let entries = entries-IsStored hashes start m prior rest after s p parts c room before in
    let there : replay_entries hashes.digest calm (apply_to hashes.digest) (inc after)
          (seek (inc after) opened.db.transitions) s
        ≡ done m.state =
      ap
        (λ (db : Database).
          replay_entries hashes.digest calm (apply_to hashes.digest) (inc after)
            (seek (inc after) db.transitions) s)
        same
      ∙ entries in
    let answer : (if opened.is_closed
          then failed closed_store
          else replay_entries hashes.digest calm (apply_to hashes.digest) (inc after)
              (seek (inc after) opened.db.transitions) s)
        ≡ done m.state =
      rw (is_open) there in
    ap (λ (a : Answer State). (a, record_error a opened)) answer
