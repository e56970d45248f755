-- ===== src/Storage/Kafka/Recovered.antt =====
-- A new replica: Open reads the topic, and Replay gives the state that its transitions make.
use riquet.Map.{Map}
use riquet.Prelude.{number_eq, string_eq}
