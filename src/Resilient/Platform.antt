-- ===== src/Resilient/Platform.antt =====
-- What the client takes from outside the repository: floats, the `governor` rate limiter, and the
-- responses and status codes of `reqwest`.
use rust_basics.Prelude.{ℕ, ◌≡◌, Bool, ◌&&◌, String, leb, ltb}
use rust_basics.Resilient.Float.{Float}

-- `per_second n` is a limiter with that quota, and `check l now` takes a cell from it, if it has
-- one at that time. `debug_duration` prints a `Duration` in milliseconds by `{:?}`.
pub record Platform : Type 1 where
  pub fl : Float
  pub Limiter : Type 0
  pub per_second : ℕ → Limiter
  pub check : Limiter → ℕ → Limiter × Bool
  pub Response : Type 0
  pub status : Response → ℕ
  pub is_success : ℕ → Bool
  pub is_redirection : ℕ → Bool
  pub is_server_error : ℕ → Bool
  pub debug_duration : ℕ → String

-- The documented ranges of the status codes.
pub record IsHttp (p : Platform) : Type 0 where
  pub success_range : (n : ℕ) → Platform.is_success p n ≡ (leb 200 n && ltb n 300)
  pub redirection_range : (n : ℕ) → Platform.is_redirection p n ≡ (leb 300 n && ltb n 400)
  pub server_error_range : (n : ℕ) → Platform.is_server_error p n ≡ (leb 500 n && ltb n 600)
