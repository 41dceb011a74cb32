-- ===== src/Routes/Sample.antt =====
-- A store with two conversations, on which the tests of the routes run.
use pm_chat.Base.{ℕ, String, false, none, List, [], ◌∷◌}
use pm_chat.Models.{Message, Conversation}
use pm_chat.Services.Memory.{Store}

abbrev message : (id conversation_id : String) (timestamp : ℕ) → Message
message id conversation_id timestamp = record {
  id = id;
  conversation_id = conversation_id;
  sender_id = "alice";
  encrypted_payload = "x";
  iv = "y";
  encrypted_attachment_url = none;
  timestamp = timestamp;
  expires_at = none;
  burn_after_reading = false;
  delivered = false;
  read = false;
}

abbrev conversation : (id : String) → List String → (last_message_at : ℕ) → Conversation
conversation id participants last_message_at = record {
  id = id;
  participants = participants;
  last_message_at = last_message_at;
  self_destruct = false;
  expires_at = none;
}

abbrev pub m1 : Message
m1 = message "m1" "c" 10

abbrev pub m2 : Message
m2 = message "m2" "c" 20

abbrev pub m3 : Message
m3 = message "m3" "c" 30

abbrev pub elsewhere : Message
elsewhere = message "m4" "d" 20

abbrev pub talk : Conversation
talk = conversation "c" ("alice" ∷ "bob" ∷ []) 30

abbrev pub other_talk : Conversation
other_talk = conversation "d" ("bob" ∷ "carol" ∷ []) 20

abbrev pub store : Store
store = record {
  messages = m2 ∷ m1 ∷ elsewhere ∷ m3 ∷ [];
  conversations = talk ∷ other_talk ∷ [];
  next_id = "n";
}
