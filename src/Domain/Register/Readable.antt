-- ===== src/Domain/Register/Readable.antt =====
-- A schema that Register has answered for can be read back.
use riquet.Domain.Machine.{Machine}
use riquet.Domain.Queries.{lookup}
use riquet.Domain.Snapshot.{State}
use riquet.Domain.Types.{Result}
use riquet.Prelude.{String, false, number_eq, string_eq, true, ◌≡◌}

-- The answer to a read: the subject's version is there, with a schema of the identity, and with the
-- ID and the GUID of the result.
pub record IsReadable (s : State) (subject identity : String) (r : Result) : Type 0 where
  pub found : (lookup s subject r.version false).2 ≡ true
  pub own_version : (lookup s subject r.version false).0.version ≡ r.version
  pub own_id : (lookup s subject r.version false).0.schema_id ≡ r.schema_id
  pub own_guid : (lookup s subject r.version false).1.guid ≡ r.guid
  pub own_identity : (lookup s subject r.version false).1.identity ≡ identity
