-- ===== src/Storage/Kafka/Acknowledged.antt =====
-- When Commit of internal/storage/kafka/store.go succeeds.
use riquet.Prelude.{number_eq, string_eq}
