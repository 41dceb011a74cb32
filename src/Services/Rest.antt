-- ===== src/Services/Rest.antt =====
-- MongoDB as the REST routes use it, besides what the handlers of Socket.IO use: pages of documents,
-- newest first, the users, and the creation and deletion of conversations.
use pm_chat.Base.{ℕ, ◌≡◌, String, Bool, not, Option, List, [], ◌∷◌, ◌++◌, ◌===◌, length, keep}
use pm_chat.Models.{Message, Conversation}
use pm_chat.NameSet
use pm_chat.Services.{Answer, got}
use pm_chat.Services.Mongo.{Mongo}
use pm_chat.Routes.Paging.{page_of, IsDescending}

-- What `Conversation.create` is given; the id is the database's.
pub record NewConversation : Type 0 where
  pub participants : List String
  pub last_message_at : ℕ
  pub self_destruct : Bool
  pub expires_at : Option ℕ

abbrev pub stored_conversation : (id : String) → NewConversation → Conversation
stored_conversation id new = record {
  id = id;
  participants = new.participants;
  last_message_at = new.last_message_at;
  self_destruct = new.self_destruct;
  expires_at = new.expires_at;
}

abbrev pub in_conversation : (conversation_id : String) → Message → Bool
in_conversation conversation_id m = m.conversation_id === conversation_id

abbrev pub takes_part : (user_id : String) → Conversation → Bool
takes_part user_id c = NameSet.has user_id c.participants

abbrev pub message_time : Message → ℕ
message_time m = m.timestamp

abbrev pub conversation_time : Conversation → ℕ
conversation_time c = c.last_message_at

pub record Rest (M : Mongo) : Type 0 where
  -- the documents as `sort({ timestamp: -1 })` and `sort({ lastMessageAt: -1 })` order them
  pub newest_messages : (conversation_id : String) → M.Db → List Message
  pub newest_conversations : (user_id : String) → M.Db → List Conversation
  pub users : M.Db → List String
  -- Message.find(…).sort({ timestamp: -1 }).limit(limit)
  pub find_messages :
      (conversation_id : String) (before : Option ℕ) (limit : ℕ) → M.Db → Answer (List Message)
  -- Conversation.find(…).sort({ lastMessageAt: -1 }).limit(limit)
  pub find_conversations :
      (user_id : String) (before : Option ℕ) (limit : ℕ) → M.Db → Answer (List Conversation)
  -- User.countDocuments({ _id: { $in: ids } })
  pub count_users : (ids : List String) → M.Db → Answer ℕ
  -- Conversation.create
  pub create_conversation : NewConversation → M.Db → Answer (M.Db × Conversation)
  -- conversation.populate, of which only the failure counts here
  pub populate : Conversation → M.Db → Answer (Unit {0})
  -- Message.deleteMany({ conversationId })
  pub delete_messages : (conversation_id : String) → M.Db → Answer M.Db
  -- conversation.deleteOne()
  pub delete_conversation : (id : String) → M.Db → Answer M.Db
  -- Sorting puts no older document first, and neither adds nor loses one.
  pub messages_descending :
      (id : String) (db : M.Db) → IsDescending message_time (newest_messages id db)
  pub messages_count :
      (id : String) (db : M.Db) (p : Message → Bool)
      → length (keep p (newest_messages id db))
        ≡ length (keep p (keep (in_conversation id) (M.messages db)))
  pub conversations_descending :
      (id : String) (db : M.Db) → IsDescending conversation_time (newest_conversations id db)
  pub conversations_count :
      (id : String) (db : M.Db) (p : Conversation → Bool)
      → length (keep p (newest_conversations id db))
        ≡ length (keep p (keep (takes_part id) (M.conversations db)))
  pub find_messages_lem :
      (id : String) (before : Option ℕ) (limit : ℕ) (db : M.Db) (ms : List Message)
      → find_messages id before limit db ≡ got ms
      → ms ≡ page_of message_time before limit (newest_messages id db)
  pub find_conversations_lem :
      (id : String) (before : Option ℕ) (limit : ℕ) (db : M.Db) (cs : List Conversation)
      → find_conversations id before limit db ≡ got cs
      → cs ≡ page_of conversation_time before limit (newest_conversations id db)
  -- Ids of users are unique, so the users found are as many as the ids of users in the list.
  pub count_users_lem :
      (ids : List String) (db : M.Db) (n : ℕ)
      → count_users ids db ≡ got n
      → n ≡ length (keep (λ id. NameSet.has id (users db)) (NameSet.from [] ids))
  pub create_conversation_lem :
      (new : NewConversation) (db db' : M.Db) (c : Conversation)
      → create_conversation new db ≡ got (db', c)
      → (c ≡ stored_conversation c.id new)
        × (M.conversations db' ≡ M.conversations db ++ c ∷ [])
        × (M.messages db' ≡ M.messages db)
  pub delete_messages_lem :
      (id : String) (db db' : M.Db)
      → delete_messages id db ≡ got db'
      → (M.messages db' ≡ keep (λ m. not (in_conversation id m)) (M.messages db))
        × (M.conversations db' ≡ M.conversations db)
  pub delete_conversation_lem :
      (id : String) (db db' : M.Db)
      → delete_conversation id db ≡ got db'
      → (M.conversations db' ≡ keep (λ c. not (c.id === id)) (M.conversations db))
        × (M.messages db' ≡ M.messages db)
