-- ===== src/Storage/Kafka/Tests/Log.antt =====
-- The theorems on the state topic at concrete inputs.
use riquet.Domain.Errors.{ok}
use riquet.Domain.Execute.Durable.{replay}
use riquet.Domain.Payload.{
  read_registration, read_schema, read_subject_version, write_registration, write_schema,
  write_subject_version,
}
use riquet.Domain.Snapshot.{
  check_identities, check_subjects, check_versions, new_state, restore, validate,
}
use riquet.Domain.State.{
  apply, apply_payload, apply_registration, insert_registration, record_operation, unmarshal,
}
use riquet.Domain.Tests.{user_envelope, user_state, weak_hashes}
use riquet.Domain.Transition.{validate_envelope}
use riquet.Domain.Types.{valid_level, valid_mode}
use riquet.Map.{get, put}
use riquet.Prelude.{
  List, String, [], arith, drop, eq_iff, false, none, number_eq, refl, some, string_eq, true, ℕ,
  ◌∷◌, ◌≡◌,
}
use riquet.Storage.{backend, done, message, no_lease}
use riquet.Storage.Kafka.Committed.{commit_transition-kept}
use riquet.Storage.Kafka.Compaction.Dropped.{Agrees, apply_records-compacted}
use riquet.Storage.Kafka.Compaction.Records.{ArePlain, has_key}
use riquet.Storage.Kafka.Compaction.Restored.{compacted-invalid, record_at, restored_log}
use riquet.Storage.Kafka.Kept.{Holds}
use riquet.Storage.Kafka.Layout.{primary_record_key, transition_key}
use riquet.Storage.Kafka.Store.{Encoding, Options, TopicStore, commit_transition, consume_loop}
use riquet.Storage.Kafka.Topic.{
  Fetch, KafkaRecord, Value, apply_fetch, apply_record, apply_records, empty_view, fetched,
  last_sequence, poll_error, validate_replay,
}

abbrev plain_value : String → Value
plain_value raw = record {
  raw = raw;
  as_envelope = none;
  as_snapshot = none;
  as_announcement = none;
  as_checkpoint = none;
}

abbrev primary_value : ℕ → Value
primary_value epoch = record (plain_value "primary") {
  as_announcement = some (record {
    announcement_version = 1;
    holder = "riquet-0";
    epoch = epoch;
    address = "http://riquet-0";
  });
}

-- An encoding that keeps what it encodes beside a short text.
abbrev short_encoding : Encoding
short_encoding = record {
  digest = weak_hashes.digest;
  sha256 = λ raw. raw;
  marshal_envelope = λ e. record (plain_value "transition") { as_envelope = some e };
  marshal_snapshot = λ s. record (plain_value "snapshot") { as_snapshot = some s };
  marshal_checkpoint = λ c. record (plain_value "checkpoint") { as_checkpoint = some c };
}

abbrev opened : TopicStore
opened = record {
  is_closed = false;
  is_ready = true;
  last_error = none;
  fatal_error = none;
  view = empty_view;
  lease = no_lease;
}

abbrev alone : Options
alone = record { require_leadership = false; max_ready_lag = 10 }

abbrev first_fetch : Fetch
first_fetch = record {
  last_stable = 1;
  records = record_at 0 (transition_key 1) (short_encoding.marshal_envelope user_envelope) ∷ [];
}

abbrev consumed : TopicStore
consumed = record opened {
  view = record empty_view {
    position = 1;
    committed_end = 1;
    items = (1, short_encoding.marshal_envelope user_envelope) ∷ [];
  };
}

abbrev kept : List KafkaRecord
kept =
    record_at 1 (transition_key 1) (short_encoding.marshal_envelope user_envelope)
    ∷ record_at 2 primary_record_key (primary_value 2)
    ∷ []

abbrev superseded_log : List KafkaRecord
superseded_log = record_at 0 primary_record_key (primary_value 1) ∷ kept

computed :
    (commit_transition alone short_encoding
        (some backend)
        (fetched first_fetch ∷ [])
        opened
        user_envelope
      ≡ (done tt, consumed))
    × ((apply_records weak_hashes.digest (λ raw. raw) superseded_log empty_view).0 ≡ none)
    × (validate_envelope weak_hashes.digest user_envelope ≡ ok tt)
    × (last_sequence opened.view ≡ 0)
    × (replay weak_hashes.digest new_state (user_envelope ∷ []) ≡ ok user_state)
    × (restore user_state ≡ ok user_state)
    × ArePlain superseded_log
    × (has_key primary_record_key kept ≡ true)
unfolding get put valid_level valid_mode write_schema write_subject_version write_registration
    read_schema read_subject_version read_registration validate_envelope check_identities
    check_versions check_subjects validate restore insert_registration apply_registration unmarshal
    apply_payload record_operation apply transition_key apply_record apply_fetch validate_replay
    commit_transition replay
computed = (
  refl,
  refl,
  refl,
  refl,
  refl,
  refl,
  (
    (refl, (primary_value 1, refl)),
    (
      (refl, (short_encoding.marshal_envelope user_envelope, refl)),
      ((refl, (primary_value 2, refl)), tt),
    ),
  ),
  refl,
)

commit_transition-kept_example :
    Holds
      (consume_loop short_encoding
        (poll_error backend ∷ fetched first_fetch ∷ [])
        consumed).view.items
      1
      "transition"
commit_transition-kept_example =
    commit_transition-kept short_encoding alone (some backend) (fetched first_fetch ∷ [])
      (poll_error backend ∷ fetched first_fetch ∷ []) opened consumed user_envelope
      (λ same. absurd (let e : false ≡ true = (eq_iff "transition" "").1 same in cc)) computed.0

apply_records-compacted_example :
    ((apply_records weak_hashes.digest (λ raw. raw) kept empty_view).0 ≡ none)
    × Agrees
        (apply_records weak_hashes.digest (λ raw. raw) superseded_log empty_view).1
        (apply_records weak_hashes.digest (λ raw. raw) kept empty_view).1
apply_records-compacted_example =
    apply_records-compacted weak_hashes.digest (λ raw. raw)
      (record_at 0 primary_record_key (primary_value 1)) kept computed.7 refl computed.6 []
      empty_view computed.1

compacted-invalid_example :
    ((apply_records weak_hashes.digest
        (λ raw. raw)
        (restored_log short_encoding user_state user_state)
        empty_view).0
      ≡ none)
    × ((apply_records weak_hashes.digest
          (λ raw. raw)
          (drop 1 (restored_log short_encoding user_state user_state))
          empty_view).0
        ≡ some (message "invalid Kafka restore checkpoint"))
compacted-invalid_example =
    compacted-invalid short_encoding (record { snapshots = λ s. refl; checkpoints = λ c. refl })
      user_state user_state computed.5 computed.5 (omega arith)
      (λ same. absurd (let e : false ≡ true = (eq_iff "snapshot" "").1 same in cc))
