-- ===== src/Resilient/Samples.antt =====
-- Concrete instances of what the client takes from outside, for the tests: floats as fractions, a
-- limiter that counts its cells down, and status codes as responses.
use rust_basics.Prelude.{
  ℕ, ◌+◌, ◌-◌, ◌*◌, ◌/◌, ◌^◌, ◌≤◌, refl, true, false, not, ◌&&◌, none, some, [], min, ltb, lt→ltb,
  leb, ◌==◌, if◌then◌else◌, decimal, arith,
}
use rust_basics.Resilient.Float.{Float, IsExact}
use rust_basics.Resilient.Platform.{Platform, IsHttp}
use rust_basics.Resilient.Breaker.{Cells, Limits}
use rust_basics.Resilient.Shutdown.{Notify}
use rust_basics.Resilient.Request.{OutboundRequest, failed, responded}
use rust_basics.Resilient.Config.{OutboundTargetConfig}
use rust_basics.Resilient.Client.{Client, Attempt}

abbrev pub fractions : Float
fractions = record {
  F64 = ℕ × ℕ;
  of_int = λ n. (n, 1);
  fraction = λ m n. (m, n);
  div = λ x y. (x.0 * y.1, x.1 * y.0);
  mul = λ x y. (x.0 * y.0, x.1 * y.1);
  minimum = λ x y. if leb (x.0 / x.1) (y.0 / y.1) then x else y;
  powi2 = λ n. (2 ^ n, 1);
  powi2_neg = λ n. (1, 2 ^ n);
  to_u64 = λ x. min (x.0 / x.1) (2 ^ 64 - 1);
  geb = λ x y. not (x.1 == 0) && leb (y.0 * x.1) (x.0 * y.1);
  is_nan = λ x. x.1 == 0;
}

pub fractions-IsExact : IsExact fractions
fractions-IsExact = record {
  of_int_number = λ n. refl;
  to_u64-of_int = λ n h. omega arith;
  scaled_number = λ b n h. refl;
  to_u64-scaled = λ b n h. omega arith;
  to_u64-minimum_left = λ x y h. ground arith;
  to_u64-minimum_right = λ x y h. ground arith;
}

abbrev pub codes : Platform
codes = record {
  fl = fractions;
  Limiter = ℕ;
  per_second = λ n. n;
  check = λ l now. (l - 1, ltb 0 l);
  Response = ℕ;
  status = λ n. n;
  is_success = λ n. leb 200 n && ltb n 300;
  is_redirection = λ n. leb 300 n && ltb n 400;
  is_server_error = λ n. leb 500 n && ltb n 600;
  debug_duration = λ n. decimal n;
}

pub codes-IsHttp : IsHttp codes
codes-IsHttp = record {
  success_range = λ n. refl;
  redirection_range = λ n. refl;
  server_error_range = λ n. refl;
}

-- A ticket is the number of wakeups before it.
abbrev pub wakeups : Notify
wakeups = record {
  Cell = ℕ;
  Ticket = ℕ;
  fresh = 0;
  notified = λ c. (c, c);
  notify_waiters = λ c. c + 1;
  is_ready = λ c t. ltb t c;
  Registered = λ c t. t ≤ c;
  notified-Registered = λ c. omega arith;
  notify_waiters-Registered = λ c t h. omega arith;
  notify_waiters-is_ready = λ c t h. lt→ltb t (c + 1) (omega arith);
}

abbrev pub half : ℕ → ℕ
half c = c / 2

pub half-le : (c : ℕ) → half c ≤ c
half-le c = omega arith

abbrev pub closed_cells : Cells
closed_cells = record {
  state = 0;
  window_requests = 0;
  window_failures = 0;
  window_start_ms = 0;
  opened_at_ms = 0;
}

abbrev pub half_open_cells : Cells
half_open_cells = record closed_cells { state = 2; opened_at_ms = 1 }

abbrev pub limits : Limits (ℕ × ℕ)
limits = record {
  failure_threshold = (5, 10);
  min_requests = 2;
  window_duration_ms = 10000;
  half_open_timeout_ms = 30000;
}

abbrev pub target : OutboundTargetConfig fractions
target = record {
  name = "svc";
  selector = "";
  rate_limit = 2;
  timeout_ms = none;
  cb_threshold = (5, 10);
  cb_min_requests = 2;
  cb_window_secs = 10;
  cb_half_open_timeout_secs = 30;
  retry_max_attempts = 2;
  retry_base_ms = 100;
  retry_cap_ms = 1000;
}

-- A client that knows one policy for every target, with so many cells left in its limiter.
abbrev pub client : ℕ → Client codes
client cells = record {
  policies = λ key.
      some
        (record { rate_limiter = cells; cells = closed_cells; limits = limits; config = target });
  default_timeout = 5000;
  is_shutting_down = false;
  in_flight = 0;
  notified = false;
  log = [];
}

abbrev pub request : OutboundRequest
request = record { target = "svc"; method = "GET"; url = "http://svc"; headers = []; body = none }

-- The first try fails to connect, every other gets a 200.
abbrev pub attempt : ℕ → Attempt codes
attempt n = record {
  asked_at = n;
  reply = if n == 0 then failed false true "refused" else responded 200;
  replied_at = n;
  opened_at = n;
}
