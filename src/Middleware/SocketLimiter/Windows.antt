-- ===== src/Middleware/SocketLimiter/Windows.antt =====
-- How many events socketRateLimiter.ts lets through in ten seconds.
use pm_chat.Base.{
  ℕ, ◌+◌, ◌-◌, ◌≤◌, String, Option, none, some, List, [], ◌∷◌, arith, eq_iff, ◌===◌, if◌then◌else◌,
  ltb, All, Option-cases, inl, inr,
}
use pm_chat.Dict
use pm_chat.Middleware.SocketLimiter.{
  RateBucket, State, socket_window_ms, socket_max_events, fresh, is_socket_rate_limited,
  cleanup_socket_buckets,
}

pub data Call : Type 0 where
  event : (key : String) (address : Option String) (now : ℕ) → Call
  clean : (now : ℕ) → Call

abbrev pub time_of : Call → ℕ
time_of (event key address now) = now
time_of (clean now) = now

unfoldable pub step : State → Call → State
step s (event key address now) = (is_socket_rate_limited key address now s).0
step s (clean now) = cleanup_socket_buckets now s

unfoldable pub run : State → List Call → State
run s [] = s
run s (c ∷ cs) = run (step s c) cs

-- 1 if the call is an event of the user that is let through.
unfoldable pub passed : (key : String) → State → Call → ℕ
passed key s (event k address now) =
    if k === key then (if (is_socket_rate_limited k address now s).1 then 0 else 1) else 0
passed key s (clean now) = 0

unfoldable pub passed_total : (key : String) → State → List Call → ℕ
passed_total key s [] = 0
passed_total key s (c ∷ cs) = passed key s c + passed_total key (step s c) cs

-- The events that a user has left in the ten seconds from `start`: those of the current window,
-- and those of one more window if the current one began before `start`.
abbrev pub allowance : (start : ℕ) → Option RateBucket → ℕ
allowance start none = socket_max_events
allowance start (some b) =
    (socket_max_events - b.count) + (if ltb b.window_start start then socket_max_events else 0)

-- All calls fall into the ten seconds from `start`.
abbrev pub IsWithin : (start : ℕ) → Call → Type 0
IsWithin start c = (start ≤ time_of c) × (time_of c ≤ start + socket_window_ms)

event-allowance :
    (start now : ℕ) (key k : String) (address : Option String) (s : State)
    → start ≤ now
    → now ≤ start + socket_window_ms
    → passed key s (event k address now)
        + allowance start (Dict.get key (step s (event k address now)).buckets)
      ≤ allowance start (Dict.get key s.buckets)
unfolding passed step is_socket_rate_limited
event-allowance start now key k address s h h' = elim (Option-cases (Dict.get k s.buckets)) [
  | inl missing ↦ ground (arith, eq_iff k key, Dict.get-set k key (fresh now) s.buckets)
  | inr (b, found) ↦ ground (
    arith,
    eq_iff k key,
    Dict.get-set k key (fresh now) s.buckets,
    Dict.get-set k key (record b { count = b.count + 1 }) s.buckets,
  )
]

clean-allowance :
    (start now : ℕ) (key : String) (s : State)
    → now ≤ start + socket_window_ms
    → passed key s (clean now) + allowance start (Dict.get key (step s (clean now)).buckets)
      ≤ allowance start (Dict.get key s.buckets)
unfolding cleanup_socket_buckets passed step
clean-allowance start now key s h = rw Dict.get-retain (ground arith)

-- Whatever the state and whoever else sends events, and with cleanups between them, the events of
-- a user that pass within any ten seconds are at most those that the user has left: thirty where
-- no window is open, otherwise the rest of the open window, and thirty more if it began earlier.
pub passed_total-le-allowance :
    (start : ℕ) (key : String) (s : State) (cs : List Call)
    → All (IsWithin start) cs
    → passed_total key s cs + allowance start (Dict.get key (run s cs).buckets)
      ≤ allowance start (Dict.get key s.buckets)
unfolding passed_total run
passed_total-le-allowance start key s [] h = omega arith
passed_total-le-allowance start key s (event k address now ∷ cs) (h, hs) = omega (
  arith,
  event-allowance start now key k address s h.0 h.1,
  passed_total-le-allowance start key (step s (event k address now)) cs hs,
)
passed_total-le-allowance start key s (clean now ∷ cs) (h, hs) = omega (
  arith,
  clean-allowance start now key s h.1,
  passed_total-le-allowance start key (step s (clean now)) cs hs,
)
