-- ===== src/RateLimit.antt =====
-- crates/ratelimit/src/lib.rs: the keyed rate limiter. The algorithm is the `governor` crate's, which
-- is a parameter: a quota makes a limiter, and a check takes a cell for a key at a time.
use rust_basics.Prelude.{ℕ, String, Bool, Result, ok, err, max, if◌then◌else◌}

pub record Governor : Type 1 where
  pub Quota : Type 0
  pub L : Type 0
  pub quota_per_second : ℕ → Quota
  pub quota_per_minute : ℕ → Quota
  pub keyed : Quota → L
  pub check_key : L → String → ℕ → L × Bool
  pub retain : L → ℕ → L
  pub until_key_ready : L → String → ℕ → L × ℕ

pub data RateLimited : Type 0 where
  rate_limited : RateLimited

unfoldable pub nonzero : ℕ → ℕ
nonzero n = max n 1

module _ (governor : Governor) where
  open governor use {
    Quota, L, quota_per_second, quota_per_minute, keyed, check_key, retain, until_key_ready,
  }

  unfoldable pub with_quota : Quota → L
  with_quota quota = keyed quota

  unfoldable pub per_second : ℕ → L
  unfolding with_quota
  per_second n = with_quota (quota_per_second (nonzero n))

  unfoldable pub per_minute : ℕ → L
  unfolding with_quota
  per_minute n = with_quota (quota_per_minute (nonzero n))

  unfoldable pub check : L → String → ℕ → L × Result RateLimited (Unit {0})
  check l key now =
      let (l', free) = check_key l key now in (l', if free then ok tt else err rate_limited)

  unfoldable pub retain_recent : L → ℕ → L
  retain_recent l now = retain l now

  -- The wait ends at a time that the library chooses, with a cell taken.
  unfoldable pub until_ready : L → String → ℕ → L × ℕ
  until_ready l key now = until_key_ready l key now
