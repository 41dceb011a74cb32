-- ===== src/Sockets/Status.antt =====
-- The events message:delivered, message:read and key:exchange of
-- apps/server/src/socket/handlers/message.ts, and the timers of burn-after-reading. Each handler
-- has one `await`; the clock is read where a timer is set.
pub mod Burning
pub mod Relay
mod Tests
use Prim.Native.String
use pm_chat.Base.{
  ℕ, ◌+◌, String, Bool, true, false, not, Option, none, some, List, [], ◌∷◌, ◌++◌, if◌then◌else◌,
  leb, keep,
}
use pm_chat.Models.{Message}
use pm_chat.Schema.{Input, fields, object_id, string_of, ◌>>=◌}
use pm_chat.Dict
use pm_chat.Services.{failed, got, or_same}
use pm_chat.Services.Redis.{Redis}
use pm_chat.Services.Mongo.{Mongo}
use pm_chat.Sockets.Events.{
  Client, World, emit, room, conv_room, user_room, message_status, key_received, Ack, error, ok,
  validation_failed, message_not_found, not_shared, server_error, BurnTimer,
}

pub record StatusPayload : Type 0 where
  pub message_id : String
  pub conversation_id : String

-- `statusSchema`
unfoldable pub parse_status : Input → Option StatusPayload
parse_status input = do
  d ← fields input
  message_id ← object_id (Dict.get "messageId" d)
  conversation_id ← object_id (Dict.get "conversationId" d)
  some (record { message_id = message_id; conversation_id = conversation_id })

pub record KeyPayload : Type 0 where
  pub target_user_id : String
  pub encrypted_key : String
  pub conversation_id : String

-- `keyExchangeSchema`
unfoldable pub parse_key : Input → Option KeyPayload
parse_key input = do
  d ← fields input
  target ← object_id (Dict.get "targetUserId" d)
  key ← string_of 1 4096 (Dict.get "encryptedKey" d)
  conversation_id ← object_id (Dict.get "conversationId" d)
  some (record { target_user_id = target; encrypted_key = key; conversation_id = conversation_id })

abbrev pub grace_period_ms : ℕ
grace_period_ms = 3000

module _ (R : Redis) (M : Mongo) (client : Client) where
  -- the event that tells the conversation of a new status
  abbrev pub notify : StatusPayload → (status : String) → World R M → World R M
  notify p status =
      emit R M (room (conv_room p.conversation_id))
        (message_status p.message_id p.conversation_id status)

  -- message:delivered
  unfoldable pub message_delivered : Input → World R M → World R M × Ack
  message_delivered input w = elim (parse_status input) [
    | none ↦ (w, error validation_failed)
    | some p ↦
        elim (M.mark_message (M.object_id p.message_id) (M.object_id p.conversation_id) false
          w.mongo) [
            | failed ↦ (w, error server_error)
            | got (db, none) ↦ (record w { mongo = db }, error message_not_found)
            | got (db, some message) ↦ (notify p "delivered" (record w { mongo = db }), ok)
          ]
  ]

  -- `setTimeout(…, 3000)`, where the message asks for it
  abbrev pub schedule : Message → (now : ℕ) → World R M → World R M
  schedule message now w = record w {
    burn_timers =
        if message.burn_after_reading
        then w.burn_timers ++ record { message_id = message.id; due = now + grace_period_ms } ∷ []
        else w.burn_timers;
  }

  -- message:read
  unfoldable pub message_read : Input → (now : ℕ) → World R M → World R M × Ack
  message_read input now w = elim (parse_status input) [
    | none ↦ (w, error validation_failed)
    | some p ↦
        elim (M.mark_message (M.object_id p.message_id) (M.object_id p.conversation_id) true
          w.mongo) [
            | failed ↦ (w, error server_error)
            | got (db, none) ↦ (record w { mongo = db }, error message_not_found)
            | got (db, some message) ↦
                (schedule message now (notify p "read" (record w { mongo = db })), ok)
          ]
  ]

  -- key:exchange
  unfoldable pub key_exchange : Input → World R M → World R M × Ack
  key_exchange input w = elim (parse_key input) [
    | none ↦ (w, error validation_failed)
    | some p ↦
        elim (M.find_conversation (M.object_id p.conversation_id)
          (M.object_id client.user_id ∷ M.object_id p.target_user_id ∷ []) w.mongo) [
            | failed ↦ (w, error server_error)
            | got none ↦ (w, error not_shared)
            | got (some conversation) ↦ (
              emit R M (room (user_room p.target_user_id))
                  (key_received client.user_id p.conversation_id p.encrypted_key) w,
              ok,
            )
          ]
  ]

module _ (M : Mongo) where
  -- the deletions of the timers that are due
  unfoldable pub burn_due : (now : ℕ) → List BurnTimer → M.Db → M.Db
  burn_due now [] db = db
  burn_due now (t ∷ ts) db =
      burn_due now ts (if leb t.due now then or_same db (M.delete_message t.message_id db) else db)

module _ (R : Redis) (M : Mongo) where
  -- the timers that are due fire, in the order in which they were set
  unfoldable pub fire_timers : (now : ℕ) → World R M → World R M
  fire_timers now w = record w {
    mongo = burn_due M now w.burn_timers w.mongo;
    burn_timers = keep (λ (t : BurnTimer). not (leb t.due now)) w.burn_timers;
  }

  -- `clearBurnTimers`
  unfoldable pub clear_burn_timers : World R M → World R M
  clear_burn_timers w = record w { burn_timers = [] }
