-- ===== src/Lib.antt =====
-- Riquet, a schema registry: the state that its nodes agree on, and the commands that change it.
--
-- internal/domain is the registry without any I/O. A Machine holds a State and a Committer. Each
-- command method looks for a recorded retry, plans an Envelope against the current state, applies it,
-- commits it, and only then publishes the new state. The stores keep the committed envelopes, a
-- follower applies them with ApplyCommitted, and the transport turns HTTP requests into commands.
--
-- The files:
--   Prelude, Prelude/*    tests and decisions, lists, Go's sorting, and int64 and uint64 as bit
--                         patterns below 2 ^ 64 that wrap around.
--   Map                   Go's built-in maps as association lists.
--   Domain/Errors         internal/domain/errors.go; an error is its category, resource and format.
--   Domain/Types          internal/domain/types.go; levels, modes and schema types
--                         are strings, since Go admits any string.
--   Domain/Guid           FingerprintGUID of types.go.
--   Domain/Json, Payload  the JSON of the payloads in transition.go, and encoding/json's reading of it.
--   Domain/Transition     transition.go: envelopes, their checksum and Validate.
--   Domain/Snapshot       state.go: Snapshot, NewState, Restore and validate. Snapshot/Consistent says
--                         what validate establishes.
--   Domain/Queries        state.go: the read methods.
--   Domain/State          state.go: Apply. State/Steps takes a successful Apply apart; the other
--                         children say what it keeps and what it changes.
--   Domain/Machine        machine.go: NewMachine, ApplyCommitted, commitApply, and the steps that all
--                         command methods share (carry_out).
--   Domain/Register       machine.go: Register, planRegister, nextVersion, compatibilitySchemas.
--   Domain/Commands       machine.go: the deletions and the settings.
--   Domain/Execute        a command as a value, sequences of commands, and what holds of them.
--   Domain/Equal          equality of envelopes.
--   Storage               internal/storage/store.go: Capabilities, Health, errors and answers.
--   Storage/Bolt          internal/storage/bolt/store.go: Open, Commit and Replay; Bolt/Snapshots has
--                         the snapshots, Backup, Health and Close; Bolt/Persisted puts the store
--                         under a machine.
--   Storage/Kafka         internal/storage/kafka/coordinator.go, seen from one replica: its lease, the
--                         store's lease and the primary announcement that it has read.
--   Storage/Kafka/Layout  internal/storage/kafka/layout.go: the keys of the records.
--   Storage/Kafka/Topic   internal/storage/kafka/store.go: what the consumer makes of the records.
--   Storage/Kafka/Store   store.go: Open, Commit and the consumer's loop; Replay has Replay and Follow,
--                         Snapshots the snapshots, Backup, Health, Status and Close. Compaction says
--                         what Kafka's log compaction may drop.
--   Backup                internal/backup/logical.go, over an interface of store operations that
--                         Backup/RoundTrip fills with the bolt store.
--   Ha                    internal/ha/forwarder.go: receive; Ha/Serving has servePublic and forward.
--   Security              internal/security/http.go: Authenticate and ProtectAdministration, in the
--                         order in which internal/app/app.go puts them around the public handler.
--   Formats               internal/formats/engine.go: the interface of the engines.
--   Server                internal/transport/confluent/server.go: answers, and the parsing of requests;
--                         Requests has the JSON, Reads and Writes the handlers, Routes the mux.
--   App                   internal/app/app.go: recoverState, compatibilityChecker and the machine that Run
--                         starts; App/Restart stops and starts it again over its bolt store.
--   */Tests               runs on small inputs, and every theorem at a concrete input.
--
-- How the model stands to the code:
--   A method with a pointer receiver takes the machine and returns the machine that it leaves. The
--   lock of Machine makes a command one step. Deep copies are the same value. A loop is structural
--   recursion on its list, so no fuel is needed. A range over a map visits the entries in the list's
--   order, which is one of the orders that Go may choose. Sorting is insertion sort by the source's
--   comparison.
--   Parameters: SHA-256 and MD5 (Hashes), the committer with what it keeps, and the compatibility
--   check. No theorem assumes anything of the check, and only the one on a restored topic of a hash;
--   those on a log assume of the committer that it appends what it accepts and keeps its log
--   otherwise. Those on the Kafka store assume that encoding/json reads back what it writes.
--   A payload is a JSON value, bytes that are no JSON, or no bytes. Keys match exactly, where
--   encoding/json also accepts another case; encoding the payloads, whose fields are strings, numbers
--   and booleans, does not fail.
--
--   bbolt is its documented behaviour: a bucket is a list in key order, and a transaction is kept as a
--   whole or not at all. What can fail around a call of the store, a cancelled context or a backend
--   that is down, is an argument of the call; one call sees one of them from its start to its end.
--   The store keeps an envelope or a snapshot as what encoding/json reads from its bytes.
--   In Ha the peers, the wrapped handler and what they keep are arguments; a header has one value.
--
--   The Kafka clients are arguments: how a transaction is reported, and the fetches that are polled
--   while a call waits or a context lives; a context ends with the list of polls. A value of the topic
--   is its bytes with what encoding/json reads from them. The server's requests come with what is
--   random and with the time; net/http's mux is its documented behaviour on the patterns of Handler.
--
-- Not modelled: migration, the trusted proxies, the format engines themselves, the provisioning of the
-- Kafka topic, configuration, and the rest of the process. The messages of a failed compatibility check
-- are left out, the texts of HTTP errors, and the cause that an Error wraps.
pub mod Prelude
pub mod Map
pub mod Domain
pub mod Storage
pub mod Backup
pub mod Ha
pub mod Formats
pub mod Security
pub mod Server
pub mod App
