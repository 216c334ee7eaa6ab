-- ===== src/Kafka/Sample.antt =====
-- A Kafka client whose brokers always answer, for the tests: it is its settings.
use rust_basics.Prelude.{List, String, ok}
use rust_basics.Kafka.Connect.{Rdkafka}

abbrev pub rdkafka : Rdkafka
rdkafka = record {
  W = Unit {0};
  Inner = List (String × String);
  create = λ settings w. (w, ok settings);
  subscribe = λ topics inner w. (w, ok tt);
  fetch_metadata = λ inner w. (w, ok tt);
}
