-- ===== src/Resilient/Request.antt =====
-- crates/resilient-client/src/error.rs, and the requests, replies and effects of client.rs.
use rust_basics.Prelude.{
  ℕ, Bool, true, false, Option, none, some, List, [], String, Result, ok, err, if◌then◌else◌,
}
use rust_basics.Resilient.Breaker.{CbState}

pub data OutboundError : Type 0 where
  transient fatal : String → OutboundError

unfoldable pub is_transient : OutboundError → Bool
is_transient (transient _) = true
is_transient (fatal _) = false

unfoldable pub is_fatal : OutboundError → Bool
is_fatal (transient _) = false
is_fatal (fatal _) = true

unfoldable pub error_type : OutboundError → String
error_type (transient _) = "transient"
error_type (fatal _) = "fatal"

-- The inner text of a `ResourceGroup` is the key of its policy.
pub record OutboundRequest : Type 0 where
  pub target : String
  pub method : String
  pub url : String
  pub headers : List (String × String)
  pub body : Option (List ℕ)

unfoldable pub new_request : String → String → String → OutboundRequest
new_request target method url = record {
  target = target;
  method = method;
  url = url;
  headers = [];
  body = none;
}

unfoldable pub get_request : String → String → OutboundRequest
unfolding new_request
get_request target url = new_request target "GET" url

unfoldable pub with_headers : OutboundRequest → List (String × String) → OutboundRequest
with_headers r headers = record r { headers = headers }

unfoldable pub with_body : OutboundRequest → List ℕ → OutboundRequest
with_body r body = record r { body = some body }

-- The calls of the metrics library, with their labels, and `tokio::time::sleep` in milliseconds.
pub data Effect : Type 0 where
  counted : String → String → String → String → Effect
  timed : String → String → Effect
  cb_state : String → CbState → Effect
  retried : String → Effect
  slept : ℕ → Effect

pub data ExecErr : Type 0 where
  timed_out : ExecErr
  connect : String → ExecErr
  other : String → ExecErr

-- How the wait for the network ends: the timer runs out, `reqwest` fails with an error that is a
-- timeout, a failed connection or neither, or a response comes.
pub data Reply (R : Type 0) : Type 0 where
  elapsed : Reply R
  failed : Bool → Bool → String → Reply R
  responded : R → Reply R

-- `execute`
unfoldable pub execute : {R : Type 0} → Reply R → Result ExecErr R
execute elapsed = err timed_out
execute (failed is_timeout is_connect message) =
    if is_timeout
    then err timed_out
    else if is_connect
    then err (connect message)
    else err (other message)
execute (responded r) = ok r
