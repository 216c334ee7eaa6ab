-- ===== src/Valkey/Connect.antt =====
-- crates/valkey/src/lib.rs: `Cache::connect`, and its probe. The client library is a parameter.
use rust_basics.Prelude.{
  ℕ, ◌*◌, ◌≤◌, ◌≡◌, refl, subst, Bool, true, String, Result, ok, max, arith, ok-inj,
}
use rust_basics.Monad.{M, return, lift, ◌>>=◌, >>=-ok}
use rust_basics.Valkey.Config.{Config}

-- What `connect` calls: `redis::Client::open`, `get_connection_manager` and the command `PING`.
pub record Redis : Type 1 where
  pub W : Type 0
  pub Client : Type 0
  pub Conn : Type 0
  pub open_client : String → Result String Client
  pub get_connection_manager : Client → M W Conn
  pub ping : Conn → M W String

module _ (lib : Redis) where
  open lib use {W, Client, Conn, open_client, get_connection_manager, ping}

  -- A handle, with the time between two probes in milliseconds.
  pub record Cache : Type 0 where
    pub conn : Conn
    pub healthy : Bool
    pub period : ℕ

  -- The handle around a connection that has answered.
  handle : Config → Conn → Cache
  handle cfg conn = record {
    conn = conn;
    healthy = true;
    period = max cfg.valkey_probe_secs 1 * 1000;
  }

  greet : Config → Conn → M W Cache
  unfolding handle
  greet cfg conn = do pong ← ping conn; return (handle cfg conn)

  unfoldable pub connect : Config → M W Cache
  unfolding greet
  connect cfg = do
    client ← lift (open_client cfg.valkey_url)
    conn ← get_connection_manager client
    greet cfg conn

  -- The handle is one whose server has answered a `PING`; it counts as healthy, and its probe waits
  -- at least a second between two ticks.
  pub record IsAnswered (cache : Cache) : Type 0 where
    pub before : W
    pub pong : String
    pub answered : (ping cache.conn before).1 ≡ ok pong
    pub starts_healthy : cache.healthy ≡ true
    pub period_pos : 1000 ≤ cache.period

  greet-IsAnswered :
      (cfg : Config) (conn : Conn) (w : W) (cache : Cache)
      → (greet cfg conn w).1 ≡ ok cache
      → IsAnswered cache
  unfolding greet
  greet-IsAnswered cfg conn w cache e =
      let (pong, answered, rest, _) = >>=-ok (ping conn) (λ _. return (handle cfg conn)) w e in
      subst IsAnswered (ok-inj rest) (record {
        before = w;
        pong = pong;
        answered = answered;
        starts_healthy = refl;
        period_pos = omega arith;
      })

  -- `connect` succeeds only with a handle whose server has answered.
  pub connect-IsAnswered :
      (cfg : Config) (w : W) (cache : Cache) → (connect cfg w).1 ≡ ok cache → IsAnswered cache
  unfolding connect
  connect-IsAnswered cfg w cache e =
      let (client, _, dialled, _) =
        >>=-ok (lift (open_client cfg.valkey_url))
          (λ client. get_connection_manager client >>= λ conn. greet cfg conn) w e in
      let (conn, _, greeted, _) =
        >>=-ok (get_connection_manager client) (λ conn. greet cfg conn) w dialled in
      greet-IsAnswered cfg conn _ cache greeted
