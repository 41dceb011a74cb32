-- ===== src/Sockets/Events.antt =====
-- What a handler of apps/server/src/socket works on: the services, the counters of
-- securityMonitor.ts, the events that it emits, and the answer that it gives the client.
use pm_chat.Base.{◌≡◌, ℕ, String, Bool, Option, List, ◌∷◌, [], ◌++◌}
use Prim.Native.String
use pm_chat.Texts.{append-injective}
use pm_chat.Services.Redis.{Redis}
use pm_chat.Services.Mongo.{Mongo}
use pm_chat.Utils.SecurityMonitor.{Monitor}

-- Who sends the event, as `socketAuthGuard` and the handshake set it.
pub record Client : Type 0 where
  pub user_id : String
  pub address : Option String

pub data Event : Type 0 where
  message_new :
      (message_id conversation_id sender_id encrypted_payload iv : String)
      (encrypted_attachment_url : Option String) (timestamp : ℕ) (expires_at : Option ℕ)
      (burn_after_reading : Bool)
      → Event
  message_status : (message_id conversation_id status : String) → Event
  key_received : (from_user_id conversation_id encrypted_key : String) → Event
  typing_indicator : (conversation_id user_id : String) (is_typing : Bool) → Event
  user_presence : (user_id status : String) → Event

-- Where an event goes: to a room, to a room but for the sender, or to all but the sender.
pub data Target : Type 0 where
  room room_except : String → Target
  broadcast : Target

pub record Emission : Type 0 where
  pub target : Target
  pub event : Event

abbrev pub conv_room : String → String
conv_room conversation_id = String.◌++◌ "conv:" conversation_id

abbrev pub user_room : String → String
user_room user_id = String.◌++◌ "user:" user_id

pub data Problem : Type 0 where
  validation_failed duplicate_nonce not_a_participant message_not_found : Problem
  not_shared server_error : Problem

-- The argument of the acknowledgement.
pub data Ack : Type 0 where
  error : Problem → Ack
  ok : Ack
  sent : (message_id : String) → Ack

-- A pending deletion of `setTimeout`.
pub record BurnTimer : Type 0 where
  pub message_id : String
  pub due : ℕ

module _ (R : Redis) (M : Mongo) where
  pub record World : Type 0 where
    pub redis : R.Db
    pub mongo : M.Db
    pub monitor : Monitor
    pub emitted : List Emission
    pub burn_timers : List BurnTimer

  unfoldable pub emit : Target → Event → World → World
  emit target event w = record w {
    emitted = w.emitted ++ record { target = target; event = event } ∷ [];
  }

-- Rooms have the same name only for the same text.
pub conv_room-injective : (id other : String) → conv_room id ≡ conv_room other → id ≡ other
conv_room-injective id other e = append-injective "conv:" id other e

pub user_room-injective : (id other : String) → user_room id ≡ user_room other → id ≡ other
user_room-injective id other e = append-injective "user:" id other e
