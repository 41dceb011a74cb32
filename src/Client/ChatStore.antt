-- ===== src/Client/ChatStore.antt =====
-- apps/web/src/lib/store/chatStore.ts: the conversations and messages that the client shows. Each
-- operation is the function that the source gives to zustand's `set`, applied to the state. The keys
-- of the objects are identifiers of the database.
pub mod Counts
pub mod Confirmation
mod Tests
use pm_chat.Base.{
  ℕ, ◌+◌, String, Bool, true, false, not, ◌||◌, Option, none, some, List, [], ◌∷◌, ◌++◌, map,
  if◌then◌else◌, ◌===◌, is_text, keep,
}
use pm_chat.Dict
use pm_chat.Dict.{Dict}
use pm_chat.NameSet
use pm_chat.NameSet.{NameSet}

pub record Conversation : Type 0 where
  pub id : String
  pub participants : List String
  pub last_message_at : String
  pub self_destruct : Bool
  pub expires_at : Option String

pub record LocalMessage : Type 0 where
  pub id : String
  pub conversation_id : String
  pub sender_id : String
  pub encrypted_payload : String
  pub iv : String
  pub timestamp : String
  pub delivered : Bool
  pub read : Bool
  pub burn_after_reading : Bool
  pub expires_at : Option String
  pub encrypted_attachment_url : Option String
  pub plaintext : Option String
  pub optimistic : Option Bool
  pub local_id : Option String
  pub reactions : Option (Dict (List String))

pub record ChatState : Type 0 where
  pub conversations : List Conversation
  pub conversations_loaded : Bool
  pub messages : Dict (List LocalMessage)
  pub typing_users : Dict NameSet
  pub online_users : NameSet
  pub unread_counts : Dict ℕ

abbrev pub initial : ChatState
initial = record {
  conversations = [];
  conversations_loaded = false;
  messages = [];
  typing_users = [];
  online_users = [];
  unread_counts = [];
}

abbrev pub or_empty {ℓ} : {A : Type ℓ} → Option (List A) → List A
or_empty none = []
or_empty (some xs) = xs

abbrev pub or_zero : Option ℕ → ℕ
or_zero none = 0
or_zero (some n) = n

-- `s.messages[conversationId] ?? []`
abbrev pub messages_of : (conversation_id : String) → ChatState → List LocalMessage
messages_of conversation_id s = or_empty (Dict.get conversation_id s.messages)

abbrev pub unread_of : (conversation_id : String) → ChatState → ℕ
unread_of conversation_id s = or_zero (Dict.get conversation_id s.unread_counts)

-- `setConversations`
unfoldable pub set_conversations : List Conversation → ChatState → ChatState
set_conversations convs s = record s { conversations = convs; conversations_loaded = true }

-- `prependConversations`, which appends
unfoldable pub prepend_conversations : List Conversation → ChatState → ChatState
prepend_conversations convs s = record s { conversations = s.conversations ++ convs }

abbrev behind : Conversation → Option (List Conversation) → Option (List Conversation)
behind c none = none
behind c (some cs) = some (c ∷ cs)

-- the first conversation with the id, replaced; none: there is none
unfoldable pub replace_first : Conversation → List Conversation → Option (List Conversation)
replace_first conv [] = none
replace_first conv (c ∷ cs) =
    if c.id === conv.id then some (conv ∷ cs) else behind c (replace_first conv cs)

abbrev or_in_front :
    Conversation → List Conversation → Option (List Conversation) → List Conversation
or_in_front conv cs none = conv ∷ cs
or_in_front conv cs (some next) = next

-- `upsertConversation`
unfoldable pub upsert_conversation : Conversation → ChatState → ChatState
upsert_conversation conv s = record s {
  conversations = or_in_front conv s.conversations (replace_first conv s.conversations);
}

-- `removeConversation`
unfoldable pub remove_conversation : (id : String) → ChatState → ChatState
remove_conversation id s = record s {
  conversations = keep (λ (c : Conversation). not (c.id === id)) s.conversations;
}

-- `setMessages`
unfoldable pub set_messages : (conversation_id : String) → List LocalMessage → ChatState → ChatState
set_messages id messages s = record s { messages = Dict.set id messages s.messages }

-- `prependMessages`
unfoldable pub prepend_messages :
    (conversation_id : String) → List LocalMessage → ChatState → ChatState
prepend_messages id messages s = record s {
  messages = Dict.set id (messages ++ messages_of id s) s.messages;
}

-- `addMessage`
unfoldable pub add_message : (conversation_id : String) → LocalMessage → ChatState → ChatState
add_message id message s = record s {
  messages = Dict.set id (messages_of id s ++ message ∷ []) s.messages;
}

abbrev pub confirm : (local_id : String) (real m : LocalMessage) → LocalMessage
confirm local_id real m = if is_text m.local_id local_id then real else m

-- `replaceOptimisticMessage`
unfoldable pub replace_optimistic_message :
    (conversation_id local_id : String) → LocalMessage → ChatState → ChatState
replace_optimistic_message id local_id real s = record s {
  messages = Dict.set id (map (confirm local_id real) (messages_of id s)) s.messages;
}

pub data Status : Type 0 where
  delivered read : Status

abbrev is_delivered : Status → Bool
is_delivered delivered = true
is_delivered read = false

abbrev is_read : Status → Bool
is_read delivered = false
is_read read = true

abbrev pub with_status : (message_id : String) → Status → LocalMessage → LocalMessage
with_status message_id status m =
    if m.id === message_id
    then record m {
      delivered = is_delivered status || m.delivered;
      read = is_read status || m.read;
    }
    else m

-- `updateMessageStatus`
unfoldable pub update_message_status :
    (conversation_id message_id : String) → Status → ChatState → ChatState
update_message_status id message_id status s = record s {
  messages = Dict.set id (map (with_status message_id status) (messages_of id s)) s.messages;
}

abbrev with_plaintext : (message_id plaintext : String) → LocalMessage → LocalMessage
with_plaintext message_id plaintext m =
    if m.id === message_id then record m { plaintext = some plaintext } else m

-- `updateMessagePlaintext`
unfoldable pub update_message_plaintext :
    (conversation_id message_id plaintext : String) → ChatState → ChatState
update_message_plaintext id message_id plaintext s = record s {
  messages = Dict.set id (map (with_plaintext message_id plaintext) (messages_of id s)) s.messages;
}

-- `removeMessage`
unfoldable pub remove_message : (conversation_id message_id : String) → ChatState → ChatState
remove_message id message_id s = record s {
  messages =
      Dict.set id (keep (λ (m : LocalMessage). not (m.id === message_id)) (messages_of id s))
        s.messages;
}

abbrev toggled : (user_id : String) → Bool → NameSet → NameSet
toggled user_id present s = if present then NameSet.add user_id s else NameSet.remove user_id s

-- `setTyping`
unfoldable pub set_typing : (conversation_id user_id : String) → Bool → ChatState → ChatState
set_typing id user_id is_typing s = record s {
  typing_users =
      Dict.set id (toggled user_id is_typing (or_empty (Dict.get id s.typing_users)))
        s.typing_users;
}

-- `setOnline`
unfoldable pub set_online : (user_id : String) → Bool → ChatState → ChatState
set_online user_id online s = record s { online_users = toggled user_id online s.online_users }

-- `markRead`
unfoldable pub mark_read : (conversation_id : String) → ChatState → ChatState
mark_read id s = record s { unread_counts = Dict.set id 0 s.unread_counts }

-- `incrementUnread`
unfoldable pub increment_unread : (conversation_id : String) → ChatState → ChatState
increment_unread id s = record s {
  unread_counts = Dict.set id (unread_of id s + 1) s.unread_counts;
}
