-- ===== src/Services/MemoryRest.antt =====
-- An instance of the interface in Rest over the store in Memory, with a fixed list of users.
use Prim.Native.String
use pm_chat.Base.{◌≡◌, String, not, List, [], ◌∷◌, ◌++◌, length, keep, ◌===◌, sym}
use pm_chat.NameSet
use pm_chat.Models.{Message, Conversation}
use pm_chat.Services.{got}
use pm_chat.Services.Memory.{Store, memory_mongo, got-injective}
use pm_chat.Services.Rest.{
  Rest, NewConversation, stored_conversation, in_conversation, takes_part, message_time,
  conversation_time,
}
use pm_chat.Routes.Paging.{page_of}
use pm_chat.Routes.Paging.Newest.{newest_first, newest_first-IsDescending, keep-newest_first}

abbrev sorted_messages : (id : String) → Store → List Message
sorted_messages id s = newest_first message_time (keep (in_conversation id) s.messages)

abbrev sorted_conversations : (user_id : String) → Store → List Conversation
sorted_conversations user_id s =
    newest_first conversation_time (keep (takes_part user_id) s.conversations)

unfoldable pub add_conversation : NewConversation → Store → Store × Conversation
add_conversation new s =
    let c = stored_conversation s.next_id new in
    (record s { conversations = s.conversations ++ c ∷ []; next_id = String.◌++◌ s.next_id "i" }, c)

pub add_conversation-laws :
    (new : NewConversation) (s s' : Store) (c : Conversation)
    → add_conversation new s ≡ (s', c)
    → (c ≡ stored_conversation c.id new)
      × (s'.conversations ≡ s.conversations ++ c ∷ [])
      × (s'.messages ≡ s.messages)
unfolding add_conversation
add_conversation-laws new s s' c h = (cc, cc, cc)

abbrev pub memory_rest : (users : List String) → Rest memory_mongo
memory_rest users = record {
  newest_messages = sorted_messages;
  newest_conversations = sorted_conversations;
  users = λ s. users;
  find_messages =
      λ id before limit s. got (page_of message_time before limit (sorted_messages id s));
  find_conversations =
      λ id before limit s. got (page_of conversation_time before limit (sorted_conversations id s));
  count_users = λ ids s. got (length (keep (λ id. NameSet.has id users) (NameSet.from [] ids)));
  populate = λ c s. got tt;
  create_conversation = λ new s. got (add_conversation new s);
  delete_messages =
      λ id s. got (record s { messages = keep (λ m. not (in_conversation id m)) s.messages });
  delete_conversation =
      λ id s. got (record s { conversations = keep (λ c. not (c.id === id)) s.conversations });
  messages_descending =
      λ id s. newest_first-IsDescending message_time (keep (in_conversation id) s.messages);
  messages_count =
      λ id s p. keep-newest_first message_time p (keep (in_conversation id) s.messages);
  conversations_descending =
      λ id s. newest_first-IsDescending conversation_time (keep (takes_part id) s.conversations);
  conversations_count =
      λ id s p. keep-newest_first conversation_time p (keep (takes_part id) s.conversations);
  find_messages_lem = λ id before limit s ms h. sym (got-injective h);
  find_conversations_lem = λ id before limit s cs h. sym (got-injective h);
  count_users_lem = λ ids s n h. sym (got-injective h);
  create_conversation_lem = λ new s s' c h. add_conversation-laws new s s' c (got-injective h);
  delete_messages_lem = λ id s s' h. (rw (← got-injective h), rw (← got-injective h));
  delete_conversation_lem = λ id s s' h. (rw (← got-injective h), rw (← got-injective h));
}
