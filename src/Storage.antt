-- ===== src/Storage.antt =====
-- internal/storage/store.go: what the stores have in common.
pub mod Bolt
pub mod Kafka
pub mod Tests
use riquet.Domain.Errors.{Error}
use riquet.Domain.Types.{Sequence}
use riquet.Prelude.{Bool, Option, String, number_eq, string_eq, ℕ, ◌&&◌, ◌==◌}

-- Capabilities
pub record Capabilities : Type 0 where
  pub writable : Bool
  pub replays : Bool
  pub snapshots : Bool
  pub backup : Bool
  pub multi_replica : Bool
  pub leadership : Bool
  pub consistent_sequence : Bool

-- Errors of a store: a domain error, the context's, a closed store, one of the backend, or a message
-- of its own, given by its format.
pub data Failure : Type 0 where
  refused : Error → Failure
  cancelled closed_store backend not_primary : Failure
  message : String → Failure

pub data Answer {ℓ} (A : Type ℓ) : Type ℓ where
  done : A → Answer A
  failed : Failure → Answer A

-- Health, without the time.
pub record Health : Type 0 where
  pub healthy : Bool
  pub writable : Bool
  pub last_sequence : Sequence
  pub detail : Option Failure

-- What surrounds a call: a cancelled context, and a backend that cannot read or write.
pub record Surroundings : Type 0 where
  pub is_cancelled : Bool
  pub is_down : Bool

-- Lease: one fenced leadership epoch, and Lease{}.
pub record Lease : Type 0 where
  pub holder : String
  pub epoch : ℕ

abbrev pub same_lease : Lease → Lease → Bool
same_lease a b = a.holder == b.holder && a.epoch == b.epoch

abbrev pub no_lease : Lease
no_lease = record { holder = ""; epoch = 0 }
