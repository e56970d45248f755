-- ===== src/Server/Errors.antt =====
-- Requests that are not answered with 200.
use riquet.Domain.Machine.{Machine}
use riquet.Domain.Snapshot.{State}
use riquet.Map.{Map}
use riquet.Prelude.{number_eq, string_eq}
use riquet.Server.Routes.{Server}
