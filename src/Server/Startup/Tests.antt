-- ===== src/Server/Startup/Tests.antt =====
-- Calls of `ensureConnected`.
use pm_chat.Base.{◌≤◌, ◌≡◌, refl, true, false}
use pm_chat.Server.Startup.{
  State, initial, rejected, pending, mongo, ensure_connected, start_attempt, connect_redis, Reach,
  here, next, call, answer, ready, failing,
}
use pm_chat.Server.Startup.Attempts.{Reach-single, failed-lasts}

starting : Unit {0}
unfolding ensure_connected start_attempt connect_redis
starting = tt

abbrev once : State
once = ensure_connected false false initial

-- A second call while the first one waits starts nothing.
waits : ensure_connected false false once ≡ record {
  connected = false;
  connecting = pending mongo;
  mongo_connects = 1;
  redis_connects = 0;
}
unfolding starting
waits = refl

nothing_to_wait_for : answer (ensure_connected true true initial) ≡ ready
unfolding starting
nothing_to_wait_for = refl

abbrev two_calls : State
two_calls = ensure_connected false true once

two_calls-Reach : Reach initial two_calls
two_calls-Reach = next (next here (call false false initial)) (call false true once)

Reach-single_example : (two_calls.mongo_connects ≤ 1) × (two_calls.redis_connects ≤ 1)
Reach-single_example = Reach-single two_calls two_calls-Reach

mongo_waits : once.connecting ≡ pending mongo
unfolding starting
mongo_waits = refl

-- Both services are back, and a call still fails.
abbrev later : State
later = ensure_connected true true (record once { connecting = rejected })

failed-lasts_example :
    (answer later ≡ failing) × (later.mongo_connects ≤ 1) × (later.redis_connects ≤ 1)
failed-lasts_example =
    failed-lasts mongo once later (next here (call false false initial)) mongo_waits
      (next here (call true true (record once { connecting = rejected })))
