-- ===== src/Domain/Transition.antt =====
-- internal/domain/transition.go: the durable transition records and their checksum. The checksum is
-- the hexadecimal SHA-256 of the JSON of every other field; the hash is an argument, `digest`.
use riquet.Domain.Errors.{Outcome, corrupt, domain_error, reject_if, ◌>>◌}
use riquet.Domain.Json.{Json}
use riquet.Domain.Types.{Result, Sequence}
use riquet.Prelude.{Bool, String, false, not, number_eq, string_eq, true, ℕ, ◌==◌, ◌||◌}

pub data TransitionKind : Type 0 where
  schema_registered version_deleted subject_deleted : TransitionKind
  compatibility_set compatibility_deleted mode_set mode_deleted : TransitionKind
  other_kind : String → TransitionKind

-- json.RawMessage: no bytes, bytes that are no JSON, or the text of a JSON value.
pub data RawMessage : Type 0 where
  no_bytes : RawMessage
  malformed : RawMessage
  encoded : Json → RawMessage

-- What the checksum covers.
pub record ChecksumEnvelope : Type 0 where
  pub version : ℕ
  pub sequence : Sequence
  pub operation_id : String
  pub kind : TransitionKind
  pub payload : RawMessage
  pub result : Result

pub record Envelope : Type 0 where
  pub version : ℕ
  pub sequence : Sequence
  pub operation_id : String
  pub kind : TransitionKind
  pub payload : RawMessage
  pub result : Result
  pub checksum : String

abbrev pub envelope_version : ℕ
envelope_version = 1

abbrev pub Digest : Type 0
Digest = ChecksumEnvelope → String

unfoldable pub checksum : Digest → Envelope → String
checksum digest e = digest (record {
  version = e.version;
  sequence = e.sequence;
  operation_id = e.operation_id;
  kind = e.kind;
  payload = e.payload;
  result = e.result;
})

-- newEnvelope; encoding these payloads does not fail.
unfoldable pub new_envelope : Digest → Sequence → String → TransitionKind → Json → Result → Envelope
unfolding checksum
new_envelope digest sequence operation_id kind payload result =
    let fields : Envelope = record {
      version = envelope_version;
      sequence = sequence;
      operation_id = operation_id;
      kind = kind;
      payload = encoded payload;
      result = result;
      checksum = "";
    } in
    record fields { checksum = checksum digest fields }

-- Kind == "", len(Payload) == 0
abbrev is_no_kind : TransitionKind → Bool
is_no_kind (other_kind name) = name == ""
is_no_kind _ = false

abbrev is_no_bytes : RawMessage → Bool
is_no_bytes no_bytes = true
is_no_bytes _ = false

-- Envelope.Validate
unfoldable pub validate_envelope : Digest → Envelope → Outcome (Unit {0})
unfolding checksum
validate_envelope digest e = do
  reject_if (not (e.version == envelope_version))
      (domain_error corrupt "transition" "unsupported envelope version %d")
  reject_if (e.sequence == 0 || is_no_kind e.kind || is_no_bytes e.payload)
      (domain_error corrupt "transition" "missing sequence, kind, or payload")
  reject_if (not (e.checksum == checksum digest e))
      (domain_error corrupt "transition" "checksum mismatch")
