-- ===== src/Sockets/Status/Tests.antt =====
-- Runs of message:delivered, message:read and key:exchange over services in memory.
use pm_chat.Base.{◌≡◌, refl, true, false, some, [], ◌∷◌, arith, any, all, keep}
use pm_chat.Dict
use pm_chat.NameSet
use pm_chat.Schema.{Input, object, text, units, is_object_id, object_id, string_of}
use pm_chat.Services.Mongo.{is_message, first}
use pm_chat.Services.Memory.{small_letters, memory_redis, memory_mongo, mark_all}
use pm_chat.Sockets.Events.{emit, ok, error, not_shared}
use pm_chat.Sockets.Sample.{conversation_id, alice, mallory, burning, burning_world}
use pm_chat.Sockets.Status.{
  StatusPayload, parse_status, parse_key, message_delivered, message_read, key_exchange, burn_due,
  fire_timers,
}
use pm_chat.Sockets.Status.Burning.{Deletes, has_id, message_read_burns}
use pm_chat.Sockets.Status.Relay.{Exchanged, key_exchange-Exchanged}

status : Unit {0}
unfolding small_letters parse_status parse_key message_delivered message_read key_exchange burn_due
    fire_timers emit units is_object_id object_id string_of mark_all Dict.get NameSet.has all any
    keep
status = tt

abbrev input : Input
input = object (("messageId", text burning.id) ∷ ("conversationId", text conversation_id) ∷ [])

abbrev payload : StatusPayload
payload = record { message_id = burning.id; conversation_id = conversation_id }

-- Someone outside the conversation reads the message, and so burns it.
read_by_stranger : (message_read memory_redis memory_mongo mallory input 10 burning_world).1 ≡ ok
unfolding status
read_by_stranger = refl

burnt :
    (fire_timers memory_redis memory_mongo 3010
      (message_read memory_redis memory_mongo mallory input 10 burning_world).0).mongo.messages
    ≡ []
unfolding status
burnt = refl

deletes : Deletes memory_mongo
deletes id db = (_, refl)

parsed : parse_status input ≡ some payload
unfolding status
parsed = refl

found :
    first
      (is_message burning.id conversation_id)
      (message_read memory_redis memory_mongo mallory input 10 burning_world).0.mongo.messages
    ≡ some (record burning { delivered = true; read = true })
unfolding status
found = refl

message_read_burns_example :
    any
      (has_id burning.id)
      (fire_timers memory_redis memory_mongo 3010
        (message_read memory_redis memory_mongo mallory input 10 burning_world).0).mongo.messages
    ≡ false
unfolding small_letters
message_read_burns_example =
    message_read_burns memory_redis memory_mongo mallory deletes input 10 3010 burning_world payload
      (record burning { delivered = true; read = true }) parsed read_by_stranger found refl
      (omega arith)

abbrev key_input : Input
key_input = object (
    ("targetUserId", text "bbbbbbbbbbbbbbbbbbbbbbbb")
    ∷ ("encryptedKey", text "a2V5")
    ∷ ("conversationId", text conversation_id)
    ∷ [])

relayed_once : (key_exchange memory_redis memory_mongo alice key_input burning_world).1 ≡ ok
unfolding status
relayed_once = refl

refused :
    (key_exchange memory_redis memory_mongo mallory key_input burning_world).1 ≡ error not_shared
unfolding status
refused = refl

key_exchange-Exchanged_example :
    Exchanged memory_redis memory_mongo alice key_input burning_world
      (key_exchange memory_redis memory_mongo alice key_input burning_world)
key_exchange-Exchanged_example =
    key_exchange-Exchanged memory_redis memory_mongo alice key_input burning_world
