-- ===== src/Domain/Tests.antt =====
-- The registry machine on small inputs: tests, and the theorems at concrete inputs.
pub mod Runs
pub mod Examples
use riquet.Domain.Machine.{Committer, Hashes, Machine}
use riquet.Domain.Payload.{write_registration}
use riquet.Domain.Queries.{subjects, versions}
use riquet.Domain.Register.{register}
use riquet.Domain.Snapshot.{State, new_state}
use riquet.Domain.Transition.{Envelope, checksum, encoded, schema_registered}
use riquet.Domain.Types.{
  DeleteSubjectCommand, DeleteVersionCommand, RegisterCommand, Result, Schema, SubjectVersion,
  no_version,
}
use riquet.Prelude.{List, [], false, number_eq, string_eq, true, ◌++◌, ◌∷◌}

-- A digest and an MD5 that tell nothing apart, and a committer that keeps every envelope.
abbrev pub weak_hashes : Hashes
weak_hashes = record { digest = λ _. ""; md5 = λ _. [] }

abbrev pub append_log : Committer (List Envelope)
append_log e log = (true, log ++ (e ∷ []))

abbrev pub empty_machine : Machine (List Envelope)
empty_machine = record { state = new_state; log = []; commit = append_log; check = λ _ _ _ _. true }

abbrev pub register_user : RegisterCommand
register_user = record {
  operation_id = "op-1";
  subject = "user";
  identity = "avro:user";
  schema_type = "AVRO";
  definition = "{}";
  references = [];
  requested_id = 0;
  requested_version = 0;
  timestamp = 7;
}

abbrev pub user_result : Result
user_result = record { schema_id = 1; guid = "----"; version = 1; versions = [] }

abbrev pub after_user : Machine (List Envelope)
after_user = (register weak_hashes empty_machine register_user).1

abbrev pub user_schema : Schema
user_schema = record {
  id = 1;
  guid = "----";
  identity = "avro:user";
  schema_type = "AVRO";
  definition = "{}";
  references = [];
}

abbrev pub user_version : SubjectVersion
user_version = record no_version {
  subject = "user";
  version = 1;
  schema_id = 1;
  timestamp = 7;
  sequence = 1;
}

abbrev pub user_state : State
user_state = record new_state {
  sequence = 1;
  next_schema_id = 2;
  schemas = (1, user_schema) ∷ [];
  identity_to_id = ("avro:user", 1) ∷ [];
  subjects = ("user", user_version ∷ []) ∷ [];
  operations = ("op-1", user_result) ∷ [];
}

-- The same machine as a literal.
abbrev pub user_machine : Machine (List Envelope)
user_machine = record empty_machine { state = user_state }

-- A second schema of the subject, and the first schema in another subject.
abbrev pub register_next : RegisterCommand
register_next = record register_user {
  operation_id = "op-2";
  identity = "avro:next";
  definition = "[]";
}

abbrev pub register_shared : RegisterCommand
register_shared = record register_user { operation_id = "op-3"; subject = "account" }

abbrev pub next_result : Result
next_result = record { schema_id = 2; guid = "----"; version = 2; versions = [] }

abbrev pub shared_result : Result
shared_result = record { schema_id = 1; guid = "----"; version = 1; versions = [] }

abbrev pub delete_user : DeleteVersionCommand
delete_user = record { operation_id = "op-4"; subject = "user"; version = 1; permanent = false }

abbrev pub delete_all : DeleteSubjectCommand
delete_all = record { operation_id = "op-5"; subject = "user"; permanent = false }

abbrev pub frozen_machine : Machine (List Envelope)
frozen_machine = record user_machine { state = record user_state { global_mode = "READONLY" } }

-- The envelope that the first registration commits.
abbrev pub user_envelope : Envelope
user_envelope = record {
  version = 1;
  sequence = 1;
  operation_id = "op-1";
  kind = schema_registered;
  payload = encoded (write_registration (record { schema = user_schema; version = user_version }));
  result = user_result;
  checksum = "";
}
