-- ===== src/Sockets/Send.antt =====
-- The event message:send of apps/server/src/socket/handlers/message.ts. The handler runs from one
-- `await` to the next without a break; each of these stretches is one step here, so that handlers
-- can interleave.
pub mod Replay
pub mod Delivery
mod Tests
use Prim.Native.String
use pm_chat.Base.{
  ℕ, zero, suc, ◌+◌, ◌*◌, String, Bool, true, false, Option, none, some, List, [], ◌∷◌,
  if◌then◌else◌,
}
use pm_chat.Models.{Message, Conversation}
use pm_chat.Schema.{Input, fields, object_id, string_of, positive_of, boolean_of, optional, ◌>>=◌}
use pm_chat.Dict
use pm_chat.Services.{failed, got}
use pm_chat.Services.Redis.{Redis}
use pm_chat.Services.Mongo.{Mongo, NewMessage}
use pm_chat.Utils.SecurityMonitor.{record_replay_attempt}
use pm_chat.Sockets.Events.{
  Client, World, emit, room, conv_room, message_new, Ack, error, sent, validation_failed,
  duplicate_nonce, not_a_participant, server_error,
}

pub record SendPayload : Type 0 where
  pub conversation_id : String
  pub encrypted_payload : String
  pub iv : String
  pub nonce : String
  pub encrypted_attachment_url : Option String
  pub expires_in_ms : Option ℕ
  pub burn_after_reading : Option Bool

abbrev week_ms : ℕ
week_ms = 7 * 24 * 3600 * 1000

-- `sendMessageSchema`
unfoldable pub parse_send : Input → Option SendPayload
parse_send input = do
  d ← fields input
  conversation_id ← object_id (Dict.get "conversationId" d)
  encrypted_payload ← string_of 1 65_536 (Dict.get "encryptedPayload" d)
  iv ← string_of 1 64 (Dict.get "iv" d)
  nonce ← string_of 8 128 (Dict.get "nonce" d)
  url ← optional (string_of 0 2048) (Dict.get "encryptedAttachmentUrl" d)
  expires_in_ms ← optional (positive_of week_ms) (Dict.get "expiresInMs" d)
  burn ← optional boolean_of (Dict.get "burnAfterReading" d)
  some (record {
    conversation_id = conversation_id;
    encrypted_payload = encrypted_payload;
    iv = iv;
    nonce = nonce;
    encrypted_attachment_url = url;
    expires_in_ms = expires_in_ms;
    burn_after_reading = burn;
  })

-- REDIS_KEYS.messageNonce and REDIS_TTL.nonce
abbrev pub message_nonce : String → String
message_nonce nonce = String.◌++◌ "nonce:" nonce

abbrev pub nonce_ttl : ℕ
nonce_ttl = 300

-- Where a handler stands: before one of its four awaits, or done.
pub data Progress : Type 0 where
  claiming : SendPayload → Progress
  joining : SendPayload → Progress
  creating : SendPayload → Conversation → Progress
  updating : SendPayload → Conversation → Message → Progress
  done : Ack → Progress

-- `payload.burnAfterReading ?? false`
abbrev or_false : Option Bool → Bool
or_false none = false
or_false (some b) = b

-- `payload.expiresInMs ? new Date(Date.now() + payload.expiresInMs) : undefined`
abbrev expiry : Option ℕ → (now : ℕ) → Option ℕ
expiry none now = none
expiry (some zero) now = none
expiry (some (suc n)) now = some (now + suc n)

unfoldable pub new_message : Mongo → Client → SendPayload → Conversation → (now : ℕ) → NewMessage
new_message M client p conversation now = record {
  conversation_id = conversation.id;
  sender_id = M.object_id client.user_id;
  encrypted_payload = p.encrypted_payload;
  iv = p.iv;
  encrypted_attachment_url = p.encrypted_attachment_url;
  expires_at = expiry p.expires_in_ms now;
  burn_after_reading = or_false p.burn_after_reading;
  delivered = false;
  read = false;
}

module _ (R : Redis) (M : Mongo) (client : Client) where
  -- the first stretch: the payload is parsed
  unfoldable pub start : Input → Progress
  start input = elim (parse_send input) [
    | none ↦ done (error validation_failed)
    | some p ↦ claiming p
  ]

  unfoldable pub claim : SendPayload → (now : ℕ) → World R M → World R M × Progress
  claim p now w = elim (R.set_nx (message_nonce p.nonce) "1" nonce_ttl now w.redis) [
    | failed ↦ (w, done (error server_error))
    | got (db, set) ↦ if set then (record w { redis = db }, joining p) else (
      record w { redis = db; monitor = record_replay_attempt client.address w.monitor },
      done (error duplicate_nonce),
    )
  ]

  unfoldable pub join : SendPayload → World R M → World R M × Progress
  join p w =
      elim (M.find_conversation (M.object_id p.conversation_id) (M.object_id client.user_id ∷ [])
        w.mongo) [
          | failed ↦ (w, done (error server_error))
          | got none ↦ (w, done (error not_a_participant))
          | got (some conversation) ↦ (w, creating p conversation)
        ]

  unfoldable pub create : SendPayload → Conversation → (now : ℕ) → World R M → World R M × Progress
  create p conversation now w =
      elim (M.create_message (new_message M client p conversation now) now w.mongo) [
        | failed ↦ (w, done (error server_error))
        | got (db, message) ↦ (record w { mongo = db }, updating p conversation message)
      ]

  abbrev pub announcement : SendPayload → Message → World R M → World R M
  announcement p message = emit R M (room (conv_room p.conversation_id)) (
      message_new message.id p.conversation_id client.user_id p.encrypted_payload p.iv
        p.encrypted_attachment_url message.timestamp message.expires_at message.burn_after_reading)

  unfoldable pub update : SendPayload → Conversation → Message → World R M → World R M × Progress
  update p conversation message w =
      elim (M.set_last_message_at conversation.id message.timestamp w.mongo) [
        | failed ↦ (w, done (error server_error))
        | got db ↦ (announcement p message (record w { mongo = db }), done (sent message.id))
      ]

  -- One stretch of the handler.
  unfoldable pub advance : Progress → (now : ℕ) → World R M → World R M × Progress
  advance (claiming p) now w = claim p now w
  advance (joining p) now w = join p w
  advance (creating p conversation) now w = create p conversation now w
  advance (updating p conversation message) now w = update p conversation message w
  advance (done ack) now w = (w, done ack)

  -- The handler alone, with the readings of the clock at its four awaits.
  unfoldable pub send : Input → (t₁ t₂ t₃ t₄ : ℕ) → World R M → World R M × Progress
  send input t₁ t₂ t₃ t₄ w =
      let (w₁, s₁) = advance (start input) t₁ w in
      let (w₂, s₂) = advance s₁ t₂ w₁ in let (w₃, s₃) = advance s₂ t₃ w₂ in advance s₃ t₄ w₃
