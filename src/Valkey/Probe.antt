-- ===== src/Valkey/Probe.antt =====
-- crates/valkey/src/lib.rs and crates/kafka/src/lib.rs: the background probe that keeps a health
-- flag, and the readiness check that reads it. Each tick of the probe is one answer of the server.
use rust_basics.Prelude.{
  ◌≡◌, refl, ◌⊎◌, inl, inr, Bool, true, List, [], ◌∷◌, ◌++◌, String, Result, ok, err, if◌then◌else◌,
}

-- `connect` stores true; then each tick stores whether the server answered.
unfoldable pub probe : Bool → List Bool → Bool
probe healthy [] = healthy
probe healthy (answered ∷ ticks) = probe answered ticks

-- `readiness_check`, with the reason that it gives.
unfoldable pub readiness : String → Bool → Result String (Unit {0})
readiness reason healthy = if healthy then ok tt else err reason

abbrev pub valkey_reason : String
valkey_reason = "valkey unreachable"

abbrev pub kafka_reason : String
kafka_reason = "kafka brokers unreachable"

probe-append :
    (healthy answered : Bool) (ticks : List Bool)
    → probe healthy (ticks ++ answered ∷ []) ≡ answered
unfolding probe
probe-append healthy answered [] = refl
probe-append healthy answered (t ∷ ticks) = probe-append t answered ticks

-- `b` is the answer of the last tick; before the first one, the connection counts as an answer.
abbrev pub Latest : Bool → List Bool → Type 0
Latest b ticks = ((ticks ≡ []) × (b ≡ true)) ⊎ ((earlier : List Bool) × (ticks ≡ earlier ++ b ∷ []))

pub probe-Latest : (b : Bool) (ticks : List Bool) → Latest b ticks → probe true ticks ≡ b
probe-Latest b ticks (inl (none_yet, well)) = rw (none_yet, well) (unfold probe in refl)
probe-Latest b ticks (inr (earlier, e)) = rw e (probe-append true b earlier)
