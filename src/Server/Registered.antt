-- ===== src/Server/Registered.antt =====
-- What a POST has registered, read back by a GET.
use riquet.Domain.Machine.{Machine}
use riquet.Domain.Snapshot.{State}
use riquet.Map.{Map}
use riquet.Prelude.{number_eq, string_eq}
