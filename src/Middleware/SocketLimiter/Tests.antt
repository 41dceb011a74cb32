-- ===== src/Middleware/SocketLimiter/Tests.antt =====
-- Runs of socketRateLimiter.ts.
use pm_chat.Base.{ℕ, zero, suc, ◌+◌, ◌≤◌, ◌≡◌, refl, none, List, [], ◌∷◌, ◌++◌, arith}
use pm_chat.Dict
use pm_chat.Utils.SecurityMonitor.{initial, record_rate_limit_hit, track}
use pm_chat.Middleware.SocketLimiter.{State, is_socket_rate_limited, cleanup_socket_buckets}
use pm_chat.Middleware.SocketLimiter.Windows.{
  Call, event, clean, step, run, passed, passed_total, allowance, passed_total-le-allowance,
}

limiter : Unit {0}
unfolding is_socket_rate_limited cleanup_socket_buckets record_rate_limit_hit track step run passed
    passed_total Dict.get Dict.set Dict.retain Dict.delete
limiter = tt

abbrev idle : State
idle = record { buckets = []; monitor = initial }

events : (now n : ℕ) → List Call
events now zero = []
events now (suc n) = event "u" none now ∷ events now n

-- The limit is for each window: around the end of one, 59 events pass within a millisecond.
burst : passed_total "u" idle (events 0 1 ++ events 10_000 40 ++ events 10_001 40) ≡ 60
unfolding limiter events
burst = refl

abbrev few : List Call
few = event "u" none 10_000 ∷ event "v" none 10_001 ∷ clean 10_002 ∷ event "u" none 10_003 ∷ []

passed_total-le-allowance_example :
    passed_total "u" idle few + allowance 10_000 (Dict.get "u" (run idle few).buckets)
    ≤ allowance 10_000 (Dict.get "u" idle.buckets)
passed_total-le-allowance_example = passed_total-le-allowance 10_000 "u" idle few (omega arith)
