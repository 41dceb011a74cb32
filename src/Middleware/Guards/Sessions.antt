-- ===== src/Middleware/Guards/Sessions.antt =====
-- How many requests of a user the session guard lets through in a minute.
use pm_chat.Base.{
  ℕ, ◌+◌, ◌-◌, ◌≤◌, ◌≡◌, false, String, Option, none, some, List, [], ◌∷◌, arith, eq_iff, ◌===◌,
  if◌then◌else◌, ltb, All, Option-cases, Bool-cases, inl, inr,
}
use pm_chat.Dict
use pm_chat.Middleware.Guards.{
  World, Entry, Decision, proceed, session_window_ms, session_max_requests, fresh, count_request,
  session_guard,
}

pub record Call : Type 0 where
  pub user_id : String
  pub now : ℕ

abbrev pub passes : Decision → ℕ
passes proceed = 1
passes _ = 0

-- The requests of the user that are let through.
unfoldable pub passed_total : (user_id : String) → World → List Call → ℕ
passed_total u w [] = 0
passed_total u w (c ∷ cs) =
    (if c.user_id === u then passes (session_guard (some c.user_id) c.now w).1 else 0)
    + passed_total u (session_guard (some c.user_id) c.now w).0 cs

-- What the user has left in the minute from `start`: the rest of the open window, and one more window
-- if it began before.
abbrev pub allowance : (start : ℕ) → Option Entry → ℕ
allowance start none = session_max_requests
allowance start (some e) =
    (session_max_requests - e.count)
    + (if ltb e.window_start start then session_max_requests else 0)

abbrev pub IsWithin : (start : ℕ) → Call → Type 0
IsWithin start c = (start ≤ c.now) × (c.now ≤ start + session_window_ms)

call-allowance :
    (start : ℕ) (u : String) (c : Call) (w : World)
    → (u === "") ≡ false
    → IsWithin start c
    → (if c.user_id === u then passes (session_guard (some c.user_id) c.now w).1 else 0)
        + allowance start (Dict.get u (session_guard (some c.user_id) c.now w).0.session_counts)
      ≤ allowance start (Dict.get u w.session_counts)
unfolding session_guard count_request
call-allowance start u c w named h = elim (Bool-cases (c.user_id === "")) [
  | inl empty ↦ ground (arith, eq_iff c.user_id u)
  | inr filled ↦ elim (Option-cases (Dict.get c.user_id w.session_counts)) [
    | inl missing ↦
        rw (filled, missing)
          (ground
            (arith, eq_iff c.user_id u, Dict.get-set c.user_id u (fresh c.now) w.session_counts))
    | inr (e, found) ↦
        rw (filled, found)
          (ground (
            arith,
            eq_iff c.user_id u,
            Dict.get-set c.user_id u (fresh c.now) w.session_counts,
            Dict.get-set c.user_id u (record e { count = e.count + 1 }) w.session_counts,
          ))
  ]
]

-- Whatever the state, the other users and the order, the requests of a user with a name that pass
-- within a minute are at most those that the user has left: three hundred where no window is open,
-- otherwise the rest of the open window, and three hundred more if it began earlier.
session_guard-le-allowance :
    (start : ℕ) (u : String) (w : World) (cs : List Call)
    → (u === "") ≡ false
    → All (IsWithin start) cs
    → passed_total u w cs ≤ allowance start (Dict.get u w.session_counts)
unfolding passed_total
session_guard-le-allowance start u w [] named h = omega arith
session_guard-le-allowance start u w (c ∷ cs) named (h, hs) = omega (
  arith,
  call-allowance start u c w named h,
  session_guard-le-allowance start u (session_guard (some c.user_id) c.now w).0 cs named hs,
)
