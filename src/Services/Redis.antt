-- ===== src/Services/Redis.antt =====
-- Redis, as apps/server/src/redis.ts configures and the server uses it: string values with a time
-- to live in seconds. `at db key t` is what a read at `t` finds if nothing is written before.
use pm_chat.Base.{ℕ, ◌+◌, ◌*◌, ◌<◌, ◌≡◌, ◌≢◌, String, Bool, true, false, Option, none, some}
use pm_chat.Services.{Answer, got}

pub record Redis : Type 1 where
  pub Db : Type 0
  pub at : Db → (key : String) (t : ℕ) → Option String
  -- GET
  pub get : (key : String) (now : ℕ) → Db → Answer (Option String)
  -- SET key value EX ttl NX: whether the key was set
  pub set_nx : (key value : String) (ttl now : ℕ) → Db → Answer (Db × Bool)
  -- SETEX
  pub setex : (key : String) (ttl : ℕ) (value : String) (now : ℕ) → Db → Answer Db
  -- DEL
  pub del : (key : String) (now : ℕ) → Db → Answer Db
  pub get_lem :
      (key : String) (now : ℕ) (db : Db) (o : Option String)
      → get key now db ≡ got o
      → o ≡ at db key now
  -- NX: a key that is there stays, and the database is as it was.
  pub set_nx_refused :
      (key value : String) (ttl now : ℕ) (db db' : Db)
      → set_nx key value ttl now db ≡ got (db', false)
      → (db' ≡ db) × (at db key now ≢ none)
  -- A key is set only where there was none, and it lives for its time.
  pub set_nx_stored :
      (key value : String) (ttl now : ℕ) (db db' : Db)
      → set_nx key value ttl now db ≡ got (db', true)
      → (at db key now ≡ none) × ((t : ℕ) → t < now + ttl * 1000 → at db' key t ≡ some value)
  pub set_nx_other :
      (key value : String) (ttl now : ℕ) (db db' : Db) (set : Bool) (j : String) (t : ℕ)
      → set_nx key value ttl now db ≡ got (db', set)
      → key ≢ j
      → at db' j t ≡ at db j t
  pub setex_self :
      (key : String) (ttl : ℕ) (value : String) (now : ℕ) (db db' : Db) (t : ℕ)
      → setex key ttl value now db ≡ got db'
      → t < now + ttl * 1000
      → at db' key t ≡ some value
  pub setex_other :
      (key : String) (ttl : ℕ) (value : String) (now : ℕ) (db db' : Db) (j : String) (t : ℕ)
      → setex key ttl value now db ≡ got db'
      → key ≢ j
      → at db' j t ≡ at db j t
  pub del_self :
      (key : String) (now : ℕ) (db db' : Db) (t : ℕ)
      → del key now db ≡ got db'
      → at db' key t ≡ none
  pub del_other :
      (key : String) (now : ℕ) (db db' : Db) (j : String) (t : ℕ)
      → del key now db ≡ got db'
      → key ≢ j
      → at db' j t ≡ at db j t
