-- ===== src/Client/ChatStore/Tests.antt =====
-- Runs of the chat store.
use pm_chat.Base.{◌≡◌, refl, String, true, false, none, some, List, [], ◌∷◌}
use pm_chat.Dict
use pm_chat.NameSet
use pm_chat.Client.ChatStore.{
  Conversation, LocalMessage, ChatState, initial, unread_of, messages_of, replace_first,
  upsert_conversation, remove_conversation, set_messages, prepend_messages, add_message,
  replace_optimistic_message, update_message_status, remove_message, read, set_typing, set_online,
  mark_read, increment_unread,
}
use pm_chat.Client.ChatStore.Counts.{
  Operation, sets_typing, sets_online, marks_read, increments_unread, step, run, unread_since,
  last_online, last_typing, is_online, is_typing_in, run-tallies,
}
use pm_chat.Client.ChatStore.Confirmation.{update_all, was_given}

store : Unit {0}
unfolding replace_first upsert_conversation remove_conversation set_messages prepend_messages
    add_message replace_optimistic_message update_message_status remove_message set_typing
    set_online mark_read increment_unread step run unread_since last_online last_typing update_all
    was_given Dict.get Dict.set NameSet.has NameSet.add NameSet.remove
store = tt

abbrev message : (id : String) → LocalMessage
message id = record {
  id = id;
  conversation_id = "c";
  sender_id = "u";
  encrypted_payload = "e";
  iv = "i";
  timestamp = "t";
  delivered = false;
  read = false;
  burn_after_reading = false;
  expires_at = none;
  encrypted_attachment_url = none;
  plaintext = none;
  optimistic = none;
  local_id = none;
  reactions = none;
}

abbrev waiting : LocalMessage
waiting = record (message "l1") { optimistic = some true; local_id = some "l1" }

abbrev conversation : (id at : String) → Conversation
conversation id at = record {
  id = id;
  participants = [];
  last_message_at = at;
  self_destruct = false;
  expires_at = none;
}

upserts :
    (upsert_conversation (conversation "b" "2") (
      upsert_conversation
        (conversation "a" "1")
        (upsert_conversation (conversation "b" "1") initial))).conversations
    ≡ conversation "a" "1" ∷ conversation "b" "2" ∷ []
unfolding store
upserts = refl

-- A message that is marked as read only is not marked as delivered.
read_only :
    messages_of "c" (update_message_status "c" "m" read (add_message "c" (message "m") initial))
    ≡ record (message "m") { read = true } ∷ []
unfolding store
read_only = refl

abbrev operations : List Operation
operations =
    increments_unread "c"
    ∷ sets_online "u" true
    ∷ marks_read "c"
    ∷ increments_unread "c"
    ∷ sets_typing "c" "u" true
    ∷ increments_unread "c"
    ∷ sets_online "v" true
    ∷ sets_online "u" false
    ∷ []

two_unread : unread_since "c" 0 operations ≡ 2
unfolding store
two_unread = refl

run-tallies_example :
    (unread_of "c" (run initial operations) ≡ unread_since "c" 0 operations)
    × (is_online "u" (run initial operations) ≡ last_online "u" false operations)
    × (is_typing_in "c" "u" (run initial operations) ≡ last_typing "c" "u" false operations)
run-tallies_example = run-tallies "c" "u" operations

abbrev before : ChatState
before = add_message "c" (message "m0") initial

abbrev during : ChatState
during = add_message "c" (message "m2") (add_message "c" waiting before)
