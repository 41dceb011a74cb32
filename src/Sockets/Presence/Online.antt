-- ===== src/Sockets/Presence/Online.antt =====
-- What the presence key of a user says, over any run of the events of any clients.
use Prim.Native.String
use pm_chat.Texts.{head, head-append, append-injective}
use pm_chat.Base.{
  ap, ◌∙◌, subst, ℕ, ◌+◌, ◌≤◌, ◌<◌, ◌≡◌, ◌≢◌, refl, inl, inr, String, none, some, List, [], ◌∷◌,
  ◌++◌, arith, eq_iff, ◌===◌, Option-cases, Bool-cases, All,
}
use pm_chat.Schema.{Input}
use pm_chat.Services.{Answer-cases, got}
use pm_chat.Services.Redis.{Redis}
use pm_chat.Services.Mongo.{Mongo}
use pm_chat.Sockets.Events.{Client, World, emit, broadcast, user_presence}
use pm_chat.Sockets.Presence.{
  presence_key, typing_key, presence_ttl, typing_ttl, parse_typing, mark_online, heartbeat,
  typing_start, typing_stop, disconnect,
}

pub data Action : Type 0 where
  connects beats disconnects : Action
  starts stops : Input → Action

pub record Happening : Type 0 where
  pub client : Client
  pub now : ℕ
  pub action : Action

presence_key-differ : (u v : String) → u ≢ v → presence_key u ≢ presence_key v
presence_key-differ u v h e = h (append-injective "presence:" u v e)

typing_key-differ : (id u v : String) → typing_key id u ≢ presence_key v
typing_key-differ id u v e = ground (
  arith,
  ap head e,
  head-append "typing:" (String.◌++◌ id (String.◌++◌ ":" u)) (omega arith),
  head-append "presence:" v (omega arith),
)

module _ (R : Redis) (M : Mongo) where
  unfoldable pub act : Client → ℕ → Action → World R M → World R M
  act client now connects = mark_online R M client now
  act client now beats = heartbeat R M client now
  act client now disconnects = disconnect R M client now
  act client now (starts input) = typing_start R M client input now
  act client now (stops input) = typing_stop R M client input now

  unfoldable pub run : World R M → List Happening → World R M
  run w [] = w
  run w (h ∷ hs) = run (act h.client h.now h.action w) hs

  -- The event is no disconnect of the user, and comes no earlier than `since`.
  abbrev pub Keeps : (user_id : String) (since : ℕ) → Happening → Type 0
  Keeps u since h = ((h.action ≡ disconnects) → h.client.user_id ≢ u) × (since ≤ h.now)

  abbrev Shows : (u : String) (t : ℕ) → R.Db → Type 0
  Shows u t db = R.at db (presence_key u) t ≡ some "online"

  set-Shows :
      (u v : String) (since t now : ℕ) (db db' : R.Db)
      → since ≤ now
      → t < since + 30000
      → R.setex (presence_key v) presence_ttl "online" now db ≡ got db'
      → Shows u t db
      → Shows u t db'
  set-Shows u v since t now db db' later soon e shown = elim (Bool-cases (v === u)) [
    | inl same ↦
        R.setex_self (presence_key u) presence_ttl "online" now db db' t
          (subst (λ x. R.setex (presence_key x) presence_ttl "online" now db ≡ got db')
            ((eq_iff v u).0 same) e)
          (omega arith)
    | inr other ↦
        R.setex_other (presence_key v) presence_ttl "online" now db db' (presence_key u) t e
          (presence_key-differ v u (λ q. ground (arith, eq_iff v u)))
        ∙ shown
  ]

  act-Shows :
      (u : String) (since t : ℕ) (w : World R M) (client : Client) (now : ℕ) (action : Action)
      → ((action ≡ disconnects) → client.user_id ≢ u)
      → since ≤ now
      → t < since + 30000
      → Shows u t w.redis
      → Shows u t (act client now action w).redis
  unfolding act mark_online heartbeat disconnect typing_start typing_stop emit
  act-Shows u since t w c now connects k later soon shown =
      elim (Answer-cases (R.setex (presence_key c.user_id) presence_ttl "online" now w.redis)) [
        | inl e ↦ ground arith
        | inr (db, e) ↦
            ground (arith, set-Shows u c.user_id since t now w.redis db later soon e shown)
      ]
  act-Shows u since t w c now beats k later soon shown =
      elim (Answer-cases (R.setex (presence_key c.user_id) presence_ttl "online" now w.redis)) [
        | inl e ↦ ground arith
        | inr (db, e) ↦
            ground (arith, set-Shows u c.user_id since t now w.redis db later soon e shown)
      ]
  act-Shows u since t w c now disconnects k later soon shown =
      elim (Answer-cases (R.del (presence_key c.user_id) now w.redis)) [
        | inl e ↦ ground arith
        | inr (db, e) ↦ ground (
          arith,
          R.del_other (presence_key c.user_id) now w.redis db (presence_key u) t e
              (presence_key-differ c.user_id u (k refl)),
        )
      ]
  act-Shows u since t w c now (starts input) k later soon shown =
      elim (Option-cases (parse_typing input)) [
        | inl none_parsed ↦ ground arith
        | inr (id, parsed) ↦
            elim (Answer-cases (R.setex (typing_key id c.user_id) typing_ttl "1" now w.redis)) [
              | inl e ↦ ground arith
              | inr (db, e) ↦ ground (
                arith,
                R.setex_other (typing_key id c.user_id) typing_ttl "1" now w.redis db
                    (presence_key u) t e (typing_key-differ id c.user_id u),
              )
            ]
      ]
  act-Shows u since t w c now (stops input) k later soon shown =
      elim (Option-cases (parse_typing input)) [
        | inl none_parsed ↦ ground arith
        | inr (id, parsed) ↦ elim (Answer-cases (R.del (typing_key id c.user_id) now w.redis)) [
          | inl e ↦ ground arith
          | inr (db, e) ↦ ground (
            arith,
            R.del_other (typing_key id c.user_id) now w.redis db (presence_key u) t e
                (typing_key-differ id c.user_id u),
          )
        ]
      ]

  run-Shows :
      (u : String) (since t : ℕ) (hs : List Happening) (w : World R M)
      → All (Keeps u since) hs
      → t < since + 30000
      → Shows u t w.redis
      → Shows u t (run w hs).redis
  unfolding run
  run-Shows u since t [] w _ soon shown = shown
  run-Shows u since t (h ∷ hs) w (k, ks) soon shown =
      run-Shows u since t hs _ ks soon
        (act-Shows u since t w h.client h.now h.action k.0 k.1 soon shown)

  -- Once a heartbeat of a user has been stored, any run of later events of any clients, whether
  -- Redis fails in them or not, leaves the user's presence key at "online" for the 30 seconds after
  -- the heartbeat, if no socket of the user disconnects in the run.
  pub heartbeat-run :
      (client : Client) (now t : ℕ) (w : World R M) (db : R.Db) (hs : List Happening)
      → R.setex (presence_key client.user_id) presence_ttl "online" now w.redis ≡ got db
      → All (Keeps client.user_id now) hs
      → t < now + 30000
      → R.at (run (heartbeat R M client now w) hs).redis (presence_key client.user_id) t
        ≡ some "online"
  unfolding heartbeat
  heartbeat-run c now t w db hs e ks soon = run-Shows c.user_id now t hs _ ks soon (
      ground (
        arith,
        R.setex_self (presence_key c.user_id) presence_ttl "online" now w.redis db t e
            (omega arith),
      ))

  -- When a socket disconnects and Redis deletes the key, the user's presence key is gone and the
  -- others are told "offline", whatever ran before: also if another socket of the same user is
  -- connected and has just sent a heartbeat.
  disconnect-offline :
      (client : Client) (now t : ℕ) (w : World R M) (hs : List Happening) (db : R.Db)
      → R.del (presence_key client.user_id) now (run w hs).redis ≡ got db
      → (let v = disconnect R M client now (run w hs) in
          (R.at v.redis (presence_key client.user_id) t ≡ none)
          × (v.emitted
              ≡ (run w hs).emitted
                ++ record { target = broadcast; event = user_presence client.user_id "offline" }
                  ∷ []))
  unfolding disconnect emit
  disconnect-offline c now t w hs db e = (
    ground (arith, R.del_self (presence_key c.user_id) now (run w hs).redis db t e),
    ground arith,
  )
