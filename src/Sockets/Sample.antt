-- ===== src/Sockets/Sample.antt =====
-- Clients and a state of the server for the tests of the handlers.
use pm_chat.Base.{String, true, false, some, none, [], ◌∷◌}
use pm_chat.Models.{Message}
use pm_chat.Services.Memory.{memory_redis, memory_mongo}
use pm_chat.Utils.SecurityMonitor.{initial}
use pm_chat.Sockets.Events.{Client, World}

abbrev pub conversation_id : String
conversation_id = "0123456789abcdef01234567"

abbrev pub alice : Client
alice = record { user_id = "aaaaaaaaaaaaaaaaaaaaaaaa"; address = some "ip1" }

abbrev pub mallory : Client
mallory = record { user_id = "ffffffffffffffffffffffff"; address = some "ip2" }

abbrev pub world : World memory_redis memory_mongo
world = record {
  redis = [];
  mongo = record {
    messages = [];
    conversations =
        record {
          id = conversation_id;
          participants = alice.user_id ∷ "bbbbbbbbbbbbbbbbbbbbbbbb" ∷ [];
          last_message_at = 0;
          self_destruct = false;
          expires_at = none;
        }
        ∷ [];
    next_id = "m";
  };
  monitor = initial;
  emitted = [];
  burn_timers = [];
}

-- A message that burns after reading.
abbrev pub burning : Message
burning = record {
  id = "00000000000000000000000a";
  conversation_id = conversation_id;
  sender_id = alice.user_id;
  encrypted_payload = "c2VjcmV0";
  iv = "aXZpdml2";
  encrypted_attachment_url = none;
  timestamp = 5;
  expires_at = none;
  burn_after_reading = true;
  delivered = false;
  read = false;
}

abbrev pub burning_world : World memory_redis memory_mongo
burning_world = record world {
  mongo = record {
    messages = burning ∷ [];
    conversations = world.mongo.conversations;
    next_id = "m";
  };
}
