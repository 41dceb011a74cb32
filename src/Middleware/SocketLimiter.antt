-- ===== src/Middleware/SocketLimiter.antt =====
-- apps/server/src/middleware/socketRateLimiter.ts: at most thirty events in a window of ten seconds
-- for each user. `now - bucket.windowStart` stops at 0 here, where the code's difference is
-- negative if the clock was set back; both fail the tests below. The caller's address is an
-- argument, and the monitor of securityMonitor.ts is part of the state.
pub mod Windows
mod Tests
use pm_chat.Base.{
  ℕ, ◌+◌, ◌-◌, ◌*◌, String, Bool, true, false, not, Option, none, some, if◌then◌else◌, ltb,
}
use pm_chat.Dict
use pm_chat.Dict.{Dict}
use pm_chat.Utils.SecurityMonitor.{Monitor, record_rate_limit_hit}

pub record RateBucket : Type 0 where
  pub count : ℕ
  pub window_start : ℕ

pub record State : Type 0 where
  pub buckets : Dict RateBucket
  pub monitor : Monitor

abbrev pub socket_window_ms : ℕ
socket_window_ms = 10_000

abbrev pub socket_max_events : ℕ
socket_max_events = 30

abbrev fresh : (now : ℕ) → RateBucket
fresh now = record { count = 1; window_start = now }

-- The answer is `true` if the event is blocked.
unfoldable pub is_socket_rate_limited :
    (key : String) (address : Option String) (now : ℕ) → State → State × Bool
is_socket_rate_limited key address now s = elim (Dict.get key s.buckets) [
  | none ↦ (record s { buckets = Dict.set key (fresh now) s.buckets }, false)
  | some bucket ↦
      if ltb socket_window_ms (now - bucket.window_start)
      then (record s { buckets = Dict.set key (fresh now) s.buckets }, false)
      else let counted = record bucket { count = bucket.count + 1 } in
        let buckets = Dict.set key counted s.buckets in
        if ltb socket_max_events counted.count
        then (record { buckets = buckets; monitor = record_rate_limit_hit address s.monitor }, true)
        else (record s { buckets = buckets }, false)
]

unfoldable pub cleanup_socket_buckets : (now : ℕ) → State → State
cleanup_socket_buckets now s = record s {
  buckets = Dict.retain (λ b. not (ltb (socket_window_ms * 2) (now - b.window_start))) s.buckets;
}
