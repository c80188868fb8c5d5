-- ===== src/Middleware.antt =====
-- The middleware that counts requests (internal/middleware/metrics.go). A handler is what it calls on
-- its writer, in order, or a panic. Durations are left out.
pub mod Counts
use pigeongram_chat.Base.{
  ℕ, suc, ◌+◌, Option, none, some, List, [], ◌∷◌, ◌++◌, ◌==◌, nat_eq, list_eq, if◌then◌else◌, Bool,
  true, false, all,
}
use pigeongram_chat.Base.Text.{Text, bytes}
use pigeongram_chat.Base.Dict.{Dict, lookup, insert}
use pigeongram_chat.Storage.{decimal}

-- A call on an `http.ResponseWriter`.
pub data Call : Type 0 where
  writes_header : ℕ → Call
  writes : Text → Call

-- `responseWriter`: the calls that reach the writer below it, and the code.
pub record ResponseWriter : Type 0 where
  pub passed : List Call
  pub status_code : ℕ

-- `WriteHeader`, and the embedded `Write`
unfoldable pub call : Call → ResponseWriter → ResponseWriter
call (writes_header code) w = record {
  passed = w.passed ++ (writes_header code ∷ []);
  status_code = code;
}
call (writes b) w = record w { passed = w.passed ++ (writes b ∷ []) }

unfoldable pub calls : List Call → ResponseWriter → ResponseWriter
unfolding call
calls [] w = w
calls (c ∷ cs) w = calls cs (call c w)

-- `Hijack`, with what the writer below offers
unfoldable pub hijack {ℓ} : {C : Type ℓ} → Option (Option C) → Option C
hijack (some connection) = connection
hijack none = none

pub record Request : Type 0 where
  pub method : Text
  pub path : Text

-- The values of the labels method, endpoint and status.
unfoldable pub labels : Request → ℕ → List Text
unfolding decimal
labels r status = r.method ∷ r.path ∷ decimal (suc status) status [] ∷ []

abbrev pub Counters : Type 0
Counters = Dict (List Text) ℕ

abbrev pub or_zero : Option ℕ → ℕ
or_zero none = 0
or_zero (some n) = n

-- What a counter shows.
abbrev pub shown : List Text → Counters → ℕ
shown label d = or_zero (lookup label d)

-- `HTTPRequestsTotal.WithLabelValues(...).Inc()`. Prometheus panics for a value that is not valid UTF-8;
-- what it accepts is a parameter.
unfoldable pub increment : (Text → Bool) → List Text → Counters → Option Counters
unfolding all
increment accepts label d =
    if all accepts label then some (insert label (shown label d + 1) d) else none

abbrev is_websocket : Request → Bool
is_websocket r = r.path == bytes "/ws"

abbrev pub fresh_writer : ResponseWriter
fresh_writer = record { passed = []; status_code = 200 }

-- The status of a request that is counted: one that the handler answers, and that is not for the
-- websocket.
unfoldable pub counted_status : Request → Option (List Call) → Option ℕ
unfolding calls
counted_status r none = none
counted_status r (some cs) =
    if is_websocket r then none else some (calls cs fresh_writer).status_code

module _ (accepts : Text → Bool) (next : Request → Option (List Call)) where
  -- `MetricsMiddleware` for one request. A panic of the handler passes the counting by, and one of
  -- `WithLabelValues` leaves the counters as they were.
  unfoldable pub serve : Request → Counters → Counters
  unfolding counted_status increment labels
  serve r d = elim (counted_status r (next r)) [
    | none ↦ d
    | some status ↦ elim (increment accepts (labels r status) d) [ none ↦ d | some d' ↦ d' ]
  ]

  unfoldable pub serve_all : List Request → Counters → Counters
  unfolding serve
  serve_all [] d = d
  serve_all (r ∷ rs) d = serve_all rs (serve r d)
