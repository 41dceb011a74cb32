-- ===== src/Sockets/Send/Tests.antt =====
-- Runs of message:send over services in memory.
use pm_chat.Base.{String, map, ◌+◌, ◌≤◌, ◌≡◌, refl, none, some, List, [], ◌∷◌, arith, length, all}
use pm_chat.Dict
use pm_chat.Dict.{Dict}
use pm_chat.NameSet
use pm_chat.Schema.{
  text, number, Input, object, units, is_object_id, object_id, string_of, positive_of, boolean_of,
  optional,
}
use pm_chat.Services.Memory.{
  small_letters, memory_redis, memory_mongo, put, put_new, insert_message, touch, mark_all,
}
use pm_chat.Utils.SecurityMonitor.{record_replay_attempt, track}
use pm_chat.Models.{Message}
use pm_chat.Sockets.Events.{
  emit, Emission, room, conv_room, sent, error, duplicate_nonce, not_a_participant,
}
use pm_chat.Sockets.Send.{
  SendPayload, claiming, done, parse_send, new_message, start, claim, join, create, update, advance,
  send,
}
use pm_chat.Sockets.Sample.{conversation_id, alice, mallory, world}
use pm_chat.Client.Socket.Sending.{Reaches, send-Reaches}
use pm_chat.Sockets.Send.Replay.{Turn, System, turn, turns, turns-replay}

sending : Unit {0}
unfolding small_letters parse_send new_message start claim join create update advance send units
    is_object_id object_id string_of positive_of boolean_of optional put put_new insert_message
    touch mark_all emit record_replay_attempt track Dict.get Dict.set NameSet.has turn turns all
sending = tt

abbrev input : Input
input = object (
    ("conversationId", text conversation_id)
    ∷ ("encryptedPayload", text "c2VjcmV0")
    ∷ ("iv", text "aXZpdml2")
    ∷ ("nonce", text "nonce-0001")
    ∷ ("expiresInMs", number 1000)
    ∷ [])

abbrev payload : SendPayload
payload = record {
  conversation_id = conversation_id;
  encrypted_payload = "c2VjcmV0";
  iv = "aXZpdml2";
  nonce = "nonce-0001";
  encrypted_attachment_url = none;
  expires_in_ms = some 1000;
  burn_after_reading = none;
}

parsed : parse_send input ≡ some payload
unfolding sending
parsed = refl

first_send : (send memory_redis memory_mongo alice input 10 11 12 13 world).1 ≡ done (sent "m")
unfolding sending
first_send = refl

stranger :
    (send memory_redis memory_mongo mallory input 10 11 12 13 world).1
    ≡ done (error not_a_participant)
unfolding sending
stranger = refl

second_send :
    (send memory_redis memory_mongo alice input 20 21 22 23
      (send memory_redis memory_mongo alice input 10 11 12 13 world).0).1
    ≡ done (error duplicate_nonce)
unfolding sending
second_send = refl

-- Under another spelling of its id, the conversation is found and the message kept, but announced to
-- another room.
abbrev spelt : String
spelt = "0123456789ABCDEF01234567"

abbrev spelt_input : Input
spelt_input = object (
    ("conversationId", text spelt)
    ∷ ("encryptedPayload", text "c2VjcmV0")
    ∷ ("iv", text "aXZpdml2")
    ∷ ("nonce", text "nonce-0001")
    ∷ [])

announced_elsewhere :
    (let (w, s) = send memory_redis memory_mongo alice spelt_input 10 11 12 13 world in
      (s ≡ done (sent "m"))
      × (map (λ (m : Message). m.conversation_id) w.mongo.messages ≡ conversation_id ∷ [])
      × (map (λ (e : Emission). e.target) w.emitted ≡ room (conv_room spelt) ∷ []))
unfolding sending
announced_elsewhere = (refl, refl, refl)

send-Reaches_example :
    Reaches memory_redis memory_mongo alice
      (λ time. "1970-01-01T00:00:00.012Z")
      input
      "m"
      world
      (send memory_redis memory_mongo alice input 10 11 12 13 world).0
send-Reaches_example =
    send-Reaches memory_redis memory_mongo alice (λ time. "1970-01-01T00:00:00.012Z") input 10 11 12
      13 world "m" first_send

-- Two handlers with one nonce that take turns.
abbrev racing : System memory_redis memory_mongo
racing = record {
  handlers =
      record { client = alice; progress = claiming payload }
      ∷ record { client = mallory; progress = claiming payload }
      ∷ [];
  world = world;
}

abbrev schedule : List Turn
schedule =
    record { handler = 1; now = 10 }
    ∷ record { handler = 0; now = 11 }
    ∷ record { handler = 1; now = 12 }
    ∷ record { handler = 0; now = 13 }
    ∷ []

turns-replay_example :
    length (turns memory_redis memory_mongo schedule racing).world.mongo.messages ≤ 0 + 1
turns-replay_example =
    turns-replay memory_redis memory_mongo "nonce-0001" 10 schedule racing (refl, (refl, tt))
      (omega arith)
