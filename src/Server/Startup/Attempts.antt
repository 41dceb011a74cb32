-- ===== src/Server/Startup/Attempts.antt =====
-- At most one attempt is made, and it decides for good.
use pm_chat.Base.{ℕ, ◌≤◌, ◌≡◌, refl, Bool, true, false, arith, if◌then◌else◌, subst, ap, ◌∙◌}
use pm_chat.Server.Startup.{
  Awaited, mongo, redis, Connecting, idle, resolved, rejected, pending, State, initial,
  connect_redis, start_attempt, ensure_connected, Step, call, mongo_opened, redis_opened, failed,
  Reach, here, next, ready, failing, answer, answer_of, on_connecting,
}

-- How far an attempt has come.
abbrev ConnectsDone : Connecting → (mongo_connects redis_connects : ℕ) (connected : Bool) → Type 0
ConnectsDone idle m r true = (m ≤ 1) × (r ≤ 1)
ConnectsDone idle m r false = (m ≡ 0) × (r ≡ 0)
ConnectsDone resolved m r connected = (connected ≡ true) × (m ≤ 1) × (r ≤ 1)
ConnectsDone rejected m r connected = (connected ≡ false) × (m ≤ 1) × (r ≤ 1)
ConnectsDone (pending mongo) m r connected = (connected ≡ false) × (m ≡ 1) × (r ≡ 0)
ConnectsDone (pending redis) m r connected = (connected ≡ false) × (m ≤ 1) × (r ≡ 1)

abbrev Inv : State → Type 0
Inv s = ConnectsDone s.connecting s.mongo_connects s.redis_connects s.connected

state : Bool → Connecting → (mongo_connects redis_connects : ℕ) → State
state connected c m r = record {
  connected = connected;
  connecting = c;
  mongo_connects = m;
  redis_connects = r;
}

call-Inv :
    (mongo_is_open redis_is_open connected : Bool) (c : Connecting) (m r : ℕ)
    → ConnectsDone c m r connected
    → Inv (ensure_connected mongo_is_open redis_is_open (state connected c m r))
unfolding ensure_connected start_attempt connect_redis state
call-Inv mo ro true c m r h = h
call-Inv true true false idle m r h = (refl, omega arith, omega arith)
call-Inv true false false idle m r h = (refl, omega arith, omega arith)
call-Inv false ro false idle m r h = (refl, omega arith, omega arith)
call-Inv mo ro false resolved m r h = h
call-Inv mo ro false rejected m r h = h
call-Inv mo ro false (pending a) m r h = h

mongo-Inv :
    (redis_is_open : Bool) (s : State)
    → ConnectsDone (pending mongo) s.mongo_connects s.redis_connects s.connected
    → Inv (connect_redis redis_is_open idle s)
unfolding connect_redis
mongo-Inv true s (c, m, r) = (omega arith, omega arith)
mongo-Inv false s (c, m, r) = (c, omega arith, omega arith)

failed-Inv :
    (a : Awaited) (s : State)
    → ConnectsDone (pending a) s.mongo_connects s.redis_connects s.connected
    → Inv (record s { connecting = rejected })
failed-Inv mongo s (c, m, r) = (c, omega arith, omega arith)
failed-Inv redis s (c, m, r) = (c, omega arith, omega arith)

-- The invariant at a known value of `_connecting`.
at_value :
    (s : State) (c : Connecting)
    → s.connecting ≡ c
    → Inv s
    → ConnectsDone c s.mongo_connects s.redis_connects s.connected
at_value s c e h = subst (λ x. ConnectsDone x s.mongo_connects s.redis_connects s.connected) e h

Step-Inv : {s t : State} → Step s t → Inv s → Inv t
unfolding state
Step-Inv (call m r s) h = call-Inv m r s.connected s.connecting s.mongo_connects s.redis_connects h
Step-Inv (mongo_opened r s e) h = mongo-Inv r s (at_value s (pending mongo) e h)
Step-Inv (redis_opened s e) h =
    let (c, m, r) = at_value s (pending redis) e h in (omega arith, omega arith)
Step-Inv (failed a s e) h = failed-Inv a s (at_value s (pending a) e h)

Reach-Inv : {s t : State} → Inv s → Reach s t → Inv t
Reach-Inv h here = h
Reach-Inv h (next r st) = Step-Inv st (Reach-Inv h r)

Inv-single :
    (connected : Bool) (c : Connecting) (m r : ℕ) → ConnectsDone c m r connected → (m ≤ 1) × (r ≤ 1)
Inv-single true idle m r h = h
Inv-single false idle m r h = (omega arith, omega arith)
Inv-single connected resolved m r (c, h, k) = (h, k)
Inv-single connected rejected m r (c, h, k) = (h, k)
Inv-single connected (pending mongo) m r (c, h, k) = (omega arith, omega arith)
Inv-single connected (pending redis) m r (c, h, k) = (omega arith, omega arith)

-- However calls and the ends of waits follow one another, each of the two clients is told to connect
-- at most once in the life of the process.
pub Reach-single : (s : State) → Reach initial s → (s.mongo_connects ≤ 1) × (s.redis_connects ≤ 1)
Reach-single s r =
    Inv-single s.connected s.connecting s.mongo_connects s.redis_connects (Reach-Inv (refl, refl) r)

abbrev HasFailed : State → Type 0
HasFailed s = (s.connecting ≡ rejected) × (s.connected ≡ false)

Step-HasFailed : {s t : State} → Step s t → HasFailed s → HasFailed t
unfolding ensure_connected
Step-HasFailed (call m r s) (e, c) = (
  ap (λ b. (if b then s else on_connecting m r s s.connecting).connecting) c
      ∙ ap (λ x. (on_connecting m r s x).connecting) e
      ∙ e,
  ap (λ b. (if b then s else on_connecting m r s s.connecting).connected) c
      ∙ ap (λ x. (on_connecting m r s x).connected) e
      ∙ c,
)
Step-HasFailed (mongo_opened r s w) (e, c) = absurd (ground arith)
Step-HasFailed (redis_opened s w) (e, c) = absurd (ground arith)
Step-HasFailed (failed a s w) (e, c) = absurd (ground arith)

Reach-HasFailed : {s t : State} → HasFailed s → Reach s t → HasFailed t
Reach-HasFailed h here = h
Reach-HasFailed h (next r st) = Step-HasFailed st (Reach-HasFailed h r)

-- Once a connection has failed while the attempt waited for it, every later call fails: whatever
-- happens, also after the services are back, no new attempt is made.
pub failed-lasts :
    (awaited : Awaited) (s t : State)
    → Reach initial s
    → s.connecting ≡ pending awaited
    → Reach (record s { connecting = rejected }) t
    → (answer t ≡ failing) × (t.mongo_connects ≤ 1) × (t.redis_connects ≤ 1)
failed-lasts a s t before waits after =
    let inv = failed-Inv a s (at_value s (pending a) waits (Reach-Inv (refl, refl) before)) in
    let (e, c) = Reach-HasFailed (refl, inv.0) after in
    let single =
      Inv-single t.connected t.connecting t.mongo_connects t.redis_connects (Reach-Inv inv after) in
    (ap (λ b. if b then ready else answer_of t.connecting) c ∙ ap answer_of e, single.0, single.1)
