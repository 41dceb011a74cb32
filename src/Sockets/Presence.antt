-- ===== src/Sockets/Presence.antt =====
-- apps/server/src/socket/handlers/presence.ts: who is online, and who is typing. The keys of Redis
-- have a time to live. A promise that rejects ends the handler there, or, behind `void`, nothing.
pub mod Online
mod Tests
use Prim.Native.String
use pm_chat.Base.{ℕ, String, Bool, true, false, Option, none, some}
use pm_chat.Schema.{Input, fields, string_of, ◌>>=◌}
use pm_chat.Dict
use pm_chat.Services.{Answer, failed, got}
use pm_chat.Services.Redis.{Redis}
use pm_chat.Services.Mongo.{Mongo}
use pm_chat.Sockets.Events.{
  Client, World, emit, broadcast, room_except, conv_room, user_presence, typing_indicator,
}

-- `REDIS_KEYS.userPresence`
abbrev pub presence_key : (user_id : String) → String
presence_key user_id = String.◌++◌ "presence:" user_id

-- `REDIS_KEYS.typingIndicator`
abbrev pub typing_key : (conversation_id user_id : String) → String
typing_key conversation_id user_id =
    String.◌++◌ "typing:" (String.◌++◌ conversation_id (String.◌++◌ ":" user_id))

-- `REDIS_TTL.presence`
abbrev pub presence_ttl : ℕ
presence_ttl = 30

-- `REDIS_TTL.typing`
abbrev pub typing_ttl : ℕ
typing_ttl = 5

-- `typingSchema`
unfoldable pub parse_typing : Input → Option String
parse_typing input = do d ← fields input; string_of 1 128 (Dict.get "conversationId" d)

module _ (R : Redis) (M : Mongo) (client : Client) where
  -- `await` an operation of Redis, and go on if it did not reject
  abbrev pub awaited : Answer R.Db → (World R M → World R M) → World R M → World R M
  awaited failed continue w = w
  awaited (got db) continue w = continue (record w { redis = db })

  -- `markOnline`
  unfoldable pub mark_online : (now : ℕ) → World R M → World R M
  mark_online now w =
      awaited (R.setex (presence_key client.user_id) presence_ttl "online" now w.redis)
        (emit R M broadcast (user_presence client.user_id "online")) w

  -- user:online
  unfoldable pub heartbeat : (now : ℕ) → World R M → World R M
  heartbeat now w =
      awaited (R.setex (presence_key client.user_id) presence_ttl "online" now w.redis) (λ v. v) w

  abbrev pub tell_typing : (conversation_id : String) → Bool → World R M → World R M
  tell_typing id is_typing =
      emit R M (room_except (conv_room id)) (typing_indicator id client.user_id is_typing)

  -- typing:start
  unfoldable pub typing_start : Input → (now : ℕ) → World R M → World R M
  typing_start input now w = elim (parse_typing input) [
    | none ↦ w
    | some id ↦
        tell_typing id true
          (awaited (R.setex (typing_key id client.user_id) typing_ttl "1" now w.redis) (λ v. v) w)
  ]

  -- typing:stop
  unfoldable pub typing_stop : Input → (now : ℕ) → World R M → World R M
  typing_stop input now w = elim (parse_typing input) [
    | none ↦ w
    | some id ↦
        tell_typing id false (awaited (R.del (typing_key id client.user_id) now w.redis) (λ v. v) w)
  ]

  -- disconnect
  unfoldable pub disconnect : (now : ℕ) → World R M → World R M
  disconnect now w =
      awaited (R.del (presence_key client.user_id) now w.redis)
        (emit R M broadcast (user_presence client.user_id "offline")) w
