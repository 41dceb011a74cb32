-- ===== src/Server/Startup.antt =====
-- apps/server/src/startup.ts: `ensureConnected`, which handlers of requests may call at the same time.
-- A step runs from one `await` to the next.
pub mod Attempts
mod Tests
use pm_chat.Base.{ℕ, ◌+◌, ◌≡◌, Bool, true, false, if◌then◌else◌}

-- What the attempt that is under way waits for.
pub data Awaited : Type 0 where
  mongo redis : Awaited

-- `_connecting`: null, or a promise that is pending, resolved or rejected
pub data Connecting : Type 0 where
  idle resolved rejected : Connecting
  pending : Awaited → Connecting

-- `_connected` and `_connecting`, and how often each client was told to connect
pub record State : Type 0 where
  pub connected : Bool
  pub connecting : Connecting
  pub mongo_connects : ℕ
  pub redis_connects : ℕ

abbrev pub initial : State
initial = record { connected = false; connecting = idle; mongo_connects = 0; redis_connects = 0 }

abbrev pub finished : (promise : Connecting) → State → State
finished promise s = record s { connected = true; connecting = promise }

-- the attempt from the connection of MongoDB on; `promise` is what `_connecting` is after it
unfoldable pub connect_redis : (redis_is_open : Bool) (promise : Connecting) → State → State
connect_redis redis_is_open promise s =
    if redis_is_open
    then finished promise s
    else record s { connecting = pending redis; redis_connects = s.redis_connects + 1 }

-- An attempt that need not wait is over before `_connecting` is assigned its promise.
unfoldable pub start_attempt : (mongo_is_open redis_is_open : Bool) → State → State
start_attempt mongo_is_open redis_is_open s =
    if mongo_is_open
    then connect_redis redis_is_open resolved s
    else record s { connecting = pending mongo; mongo_connects = s.mongo_connects + 1 }

abbrev pub on_connecting : (mongo_is_open redis_is_open : Bool) → State → Connecting → State
on_connecting mongo_is_open redis_is_open s idle = start_attempt mongo_is_open redis_is_open s
on_connecting mongo_is_open redis_is_open s promise = s

-- `ensureConnected`: `mongo_is_open` is `readyState !== 0`, and `redis_is_open` that the status is
-- none of those that need `connect`.
unfoldable pub ensure_connected : (mongo_is_open redis_is_open : Bool) → State → State
ensure_connected mongo_is_open redis_is_open s =
    if s.connected then s else on_connecting mongo_is_open redis_is_open s s.connecting

-- The caller's promise is resolved at once, waits, or is rejected.
pub data Answer : Type 0 where
  ready waiting failing : Answer

abbrev pub answer_of : Connecting → Answer
answer_of idle = ready
answer_of resolved = ready
answer_of rejected = failing
answer_of (pending awaited) = waiting

-- What `ensureConnected` returns, in the state after it.
abbrev pub answer : State → Answer
answer s = if s.connected then ready else answer_of s.connecting

-- What can happen: a call, or the end of what the attempt waits for.
pub data Step : State → State → Type 0 where
  call :
      (mongo_is_open redis_is_open : Bool) (s : State)
      → Step s (ensure_connected mongo_is_open redis_is_open s)
  mongo_opened :
      (redis_is_open : Bool) (s : State)
      → s.connecting ≡ pending mongo
      → Step s (connect_redis redis_is_open idle s)
  redis_opened : (s : State) → s.connecting ≡ pending redis → Step s (finished idle s)
  failed :
      (awaited : Awaited) (s : State)
      → s.connecting ≡ pending awaited
      → Step s (record s { connecting = rejected })

pub data Reach (s : State) : State → Type 0 where
  here : Reach s s
  next : {t u : State} → Reach s t → Step t u → Reach s u
