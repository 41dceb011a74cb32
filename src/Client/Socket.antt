-- ===== src/Client/Socket.antt =====
-- apps/web/src/hooks/useSocket.ts: what the client does with the events of the server. The events are
-- those that the handlers of apps/server/src/socket emit, as they arrive as JSON.
pub mod Arrival
pub mod Sending
mod Tests
use pm_chat.Base.{
  ℕ, String, Bool, true, false, Option, none, some, List, [], ◌∷◌, if◌then◌else◌, ◌===◌,
}
use pm_chat.Dict
use pm_chat.Sockets.Events.{
  Event, message_new, message_status, key_received, typing_indicator, user_presence,
}
use pm_chat.Client.ChatStore.{
  LocalMessage, ChatState, messages_of, add_message, increment_unread, set_typing, set_online,
  Status, delivered, read, update_message_status,
}

abbrev pub status_of : String → Option Status
status_of status =
    if status === "delivered" then some delivered else if status === "read" then some read else none

-- `updateMessageStatus` with a status off the wire: another one sets neither flag.
abbrev pub with_received_status :
    (conversation_id message_id : String) → Option Status → ChatState → ChatState
with_received_status id message_id none s = record s {
  messages = Dict.set id (messages_of id s) s.messages;
}
with_received_status id message_id (some status) s = update_message_status id message_id status s

-- `event.online`: the server's event has a field `status` and none of this name, so that this is
-- undefined, which `setOnline` takes for false.
abbrev pub online_field : (status : String) → Bool
online_field status = false

-- What `message:delivered` is emitted with.
abbrev pub acknowledged : Event → List (String × String)
acknowledged (message_new id c sender payload iv url time expires burn) = (id, c) ∷ []
acknowledged _ = []

-- `show` is the text of a time on the wire.
module _ (show : ℕ → String) where
  abbrev pub shown : Option ℕ → Option String
  shown none = none
  shown (some time) = some (show time)

  abbrev pub local_message :
      (message_id conversation_id sender_id encrypted_payload iv : String) (timestamp : ℕ)
      (expires_at : Option ℕ) (burn_after_reading : Bool)
      → LocalMessage
  local_message id c sender payload iv time expires burn = record {
    id = id;
    conversation_id = c;
    sender_id = sender;
    encrypted_payload = payload;
    iv = iv;
    timestamp = show time;
    delivered = false;
    read = false;
    burn_after_reading = burn;
    expires_at = shown expires;
    encrypted_attachment_url = none;
    plaintext = none;
    optimistic = none;
    local_id = none;
    reactions = none;
  }

  -- The four handlers; nothing listens to `key:received`.
  unfoldable pub receive : Event → ChatState → ChatState
  receive (message_new id c sender payload iv url time expires burn) s =
      increment_unread c (add_message c (local_message id c sender payload iv time expires burn) s)
  receive (message_status id c status) s = with_received_status c id (status_of status) s
  receive (key_received from c key) s = s
  receive (typing_indicator c user_id is_typing) s = set_typing c user_id is_typing s
  receive (user_presence user_id status) s = set_online user_id (online_field status) s
