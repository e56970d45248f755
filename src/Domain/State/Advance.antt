-- ===== src/Domain/State/Advance.antt =====
-- What State.Apply does to the sequence and to the operations recorded for retries.
use riquet.Domain.Errors.{ok}
use riquet.Domain.Queries.{result_for}
use riquet.Domain.Snapshot.{State}
use riquet.Domain.State.{apply, apply_payload, insert_registration, record_operation}
use riquet.Domain.State.Steps.{
  apply-Applied, apply_compatibility-frame, apply_mode-frame, apply_payload_cases,
  apply_registration-inserts, mark_all-frame,
}
use riquet.Domain.Transition.{Digest, Envelope, RawMessage, TransitionKind, validate_envelope}
use riquet.Map.{get-put}
use riquet.Prelude.{
  String, ap, arith, if◌then◌else◌, number_eq, some, string_eq, ◌+◌, ◌<◌, ◌==◌, ◌^◌, ◌≡◌,
}

-- An envelope that passes Envelope.Validate has a sequence other than zero and the right checksum.
pub validate_envelope-nonzero :
    (digest : Digest) (e : Envelope) → validate_envelope digest e ≡ ok tt → 0 < e.sequence
unfolding validate_envelope
validate_envelope-nonzero digest e h = ground arith

-- No payload touches the recorded operations or the sequence.
pub apply_payload-operations :
    (s : State) (kind : TransitionKind) (payload : RawMessage) (u : State)
    → apply_payload s kind payload ≡ ok u
    → u.operations ≡ s.operations
unfolding insert_registration
apply_payload-operations s =
    apply_payload_cases (λ u. u.operations ≡ s.operations) s
      (λ t u h. ap (λ (x : State). x.operations) (apply_registration-inserts s t h).0)
      (λ subject vs permanent u h.
        ap (λ (x : State). x.operations) (mark_all-frame s subject vs permanent h))
      (λ kind t. ap (λ (x : State). x.operations) (apply_compatibility-frame s kind t))
      (λ kind t. ap (λ (x : State). x.operations) (apply_mode-frame s kind t))

-- Where Apply succeeds on a uint64 sequence, the new sequence is the next number, with no
-- wrap-around; the operation of the envelope, if it has an ID, is recorded with its result, and
-- every other operation keeps what was recorded.
pub apply-advances :
    (digest : Digest) (s t : State) (e : Envelope)
    → s.sequence < 2 ^ 64
    → apply digest s e ≡ ok t
    → (t.sequence ≡ s.sequence + 1)
      × ((operation : String)
          → result_for t operation ≡ (
              if e.operation_id == ""
              then result_for s operation
              else if e.operation_id == operation
              then some e.result
              else result_for s operation))
unfolding result_for record_operation
apply-advances digest s t e range h =
    let a = apply-Applied digest s e h in
    let nonzero = validate_envelope-nonzero digest e a.intact in
    (
      ground (arith, ap (λ (x : State). x.sequence) a.recorded, a.in_sequence, nonzero, range),
      λ operation.
          rw (a.recorded, apply_payload-operations s e.kind e.payload a.applied a.payload)
            (ground (arith, get-put s.operations e.operation_id e.result operation)),
    )
