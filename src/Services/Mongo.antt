-- ===== src/Services/Mongo.antt =====
-- MongoDB through Mongoose, as the handlers of apps/server/src/socket use it: the collections of
-- messages and of conversations. The ids of documents, and the arguments of queries, are ObjectIds, by
-- the texts that they are shown by; `object_id` gives the ObjectId of a text that a client spelt.
use pm_chat.Base.{
  arith, eq_iff, Bool-cases, inl, inr, ℕ, ◌≡◌, String, Bool, true, Option, none, some, List, [],
  ◌∷◌, ◌++◌, map, keep, not, ◌===◌, ◌&&◌, ◌||◌, if◌then◌else◌, all,
}
use pm_chat.Models.{Message, Conversation}
use pm_chat.NameSet
use pm_chat.Services.{Answer, got}

-- What `Message.create` is given; the id and the time are the database's.
pub record NewMessage : Type 0 where
  pub conversation_id : String
  pub sender_id : String
  pub encrypted_payload : String
  pub iv : String
  pub encrypted_attachment_url : Option String
  pub expires_at : Option ℕ
  pub burn_after_reading : Bool
  pub delivered : Bool
  pub read : Bool

abbrev pub stored : (id : String) (timestamp : ℕ) → NewMessage → Message
stored id timestamp new = record {
  id = id;
  conversation_id = new.conversation_id;
  sender_id = new.sender_id;
  encrypted_payload = new.encrypted_payload;
  iv = new.iv;
  encrypted_attachment_url = new.encrypted_attachment_url;
  timestamp = timestamp;
  expires_at = new.expires_at;
  burn_after_reading = new.burn_after_reading;
  delivered = new.delivered;
  read = new.read;
}

-- the filter `{ _id, participants: { $all: members } }`
abbrev pub holds_members : (id : String) (members : List String) → Conversation → Bool
holds_members id members c = c.id === id && all (λ u. NameSet.has u c.participants) members

-- the filter `{ _id, conversationId }`
abbrev pub is_message : (id conversation_id : String) → Message → Bool
is_message id conversation_id m = m.id === id && m.conversation_id === conversation_id

-- the update `{ delivered: true }`, or `{ read: true, delivered: true }`
abbrev pub marked : (read : Bool) → Message → Message
marked read m = record m { delivered = true; read = read || m.read }

abbrev pub mark : (id conversation_id : String) (read : Bool) → Message → Message
mark id conversation_id read m = if is_message id conversation_id m then marked read m else m

abbrev pub first {ℓ} : {A : Type ℓ} → (A → Bool) → List A → Option A
first p [] = none
first p (x ∷ xs) = if p x then some x else first p xs

pub record Mongo : Type 1 where
  pub Db : Type 0
  -- new Types.ObjectId(text), as the text that it is shown by: the spellings of one id agree in it.
  pub object_id : String → String
  pub messages : Db → List Message
  pub conversations : Db → List Conversation
  -- Conversation.findOne
  pub find_conversation : (id : String) (members : List String) → Db → Answer (Option Conversation)
  -- Message.create
  pub create_message : NewMessage → (now : ℕ) → Db → Answer (Db × Message)
  -- Conversation.updateOne({ _id }, { lastMessageAt })
  pub set_last_message_at : (id : String) (timestamp : ℕ) → Db → Answer Db
  -- Message.findOneAndUpdate({ _id, conversationId }, …, { new: true })
  pub mark_message : (id conversation_id : String) (read : Bool) → Db → Answer (Db × Option Message)
  -- Message.deleteOne({ _id })
  pub delete_message : (id : String) → Db → Answer Db
  pub find_conversation_lem :
      (id : String) (members : List String) (db : Db) (o : Option Conversation)
      → find_conversation id members db ≡ got o
      → o ≡ first (holds_members id members) (conversations db)
  pub create_message_lem :
      (new : NewMessage) (now : ℕ) (db db' : Db) (m : Message)
      → create_message new now db ≡ got (db', m)
      → (m ≡ stored m.id now new)
        × (messages db' ≡ messages db ++ m ∷ [])
        × (conversations db' ≡ conversations db)
  pub set_last_message_at_lem :
      (id : String) (timestamp : ℕ) (db db' : Db)
      → set_last_message_at id timestamp db ≡ got db'
      → messages db' ≡ messages db
  pub mark_message_lem :
      (id conversation_id : String) (read : Bool) (db db' : Db) (o : Option Message)
      → mark_message id conversation_id read db ≡ got (db', o)
      → (messages db' ≡ map (mark id conversation_id read) (messages db))
        × (o ≡ first (is_message id conversation_id) (messages db'))
        × (conversations db' ≡ conversations db)
  pub delete_message_lem :
      (id : String) (db db' : Db)
      → delete_message id db ≡ got db'
      → messages db' ≡ keep (λ m. not (m.id === id)) (messages db)

-- What a query by id finds has the id.
pub first-id :
    (id : String) (members : List String) (cs : List Conversation) (c : Conversation)
    → first (holds_members id members) cs ≡ some c
    → c.id ≡ id
first-id id members [] c h = absurd (ground arith)
first-id id members (d ∷ cs) c h = elim (Bool-cases (holds_members id members d)) [
  | inl held ↦
      let same : d ≡ c = ground arith in
      let named : d.id ≡ id = (eq_iff d.id id).0 (ground arith) in rw (← same) named
  | inr other ↦ first-id id members cs c (ground arith)
]
