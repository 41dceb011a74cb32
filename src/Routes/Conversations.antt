-- ===== src/Routes/Conversations.antt =====
-- apps/server/src/routes/conversations.ts, behind `authMiddleware`. A query is as in Messages. A
-- conversation is answered with its participants' ids; `populate` adds their names and keys.
pub mod Creation
pub mod Deletion
mod Tests
use pm_chat.Base.{
  ℕ, ◌+◌, String, Bool, true, false, ◌&&◌, Option, none, some, List, [], ◌∷◌, map, if◌then◌else◌,
  leb, ◌==◌, length,
}
use pm_chat.Dict
use pm_chat.NameSet
use pm_chat.Schema.{is_object_id}
use pm_chat.Models.{Conversation}
use pm_chat.Services.{failed, got, Answer, or_same}
use pm_chat.Services.Mongo.{Mongo}
use pm_chat.Services.Rest.{Rest, NewConversation, conversation_time}
use pm_chat.Routes.Paging.{limit_of, next_cursor}

-- A body that `createConversationSchema` has let through: from 1 to 49 ids of 24 hexadecimal digits,
-- and a duration of at most a week.
pub record CreateBody : Type 0 where
  pub participant_ids : List String
  pub self_destruct : Option Bool
  pub expires_in_ms : Option ℕ

abbrev pub lasts_at_most_a_week : Option ℕ → Bool
lasts_at_most_a_week none = true
lasts_at_most_a_week (some n) = leb 1 n && leb n 604_800_000

abbrev pub or_false : Option Bool → Bool
or_false none = false
or_false (some b) = b

-- `createConversationSchema`, on fields of the right kinds
unfoldable pub meets_schema : CreateBody → Bool
meets_schema body =
    leb 1 (length body.participant_ids)
    && (leb (length body.participant_ids) 49
        && (pm_chat.Base.all is_object_id body.participant_ids
            && lasts_at_most_a_week body.expires_in_ms))

pub data ListReply : Type 0 where
  failure : ListReply
  page : (conversations : List Conversation) (next_cursor : Option ℕ) → ListReply

abbrev pub list_reply : (limit : ℕ) → Answer (List Conversation) → ListReply
list_reply limit failed = failure
list_reply limit (got found) = page found (next_cursor conversation_time limit found)

pub data Reply : Type 0 where
  server_error invalid unknown_participants not_found deleted : Reply
  shown created : Conversation → Reply

-- `selfDestruct && expiresInMs ? new Date(Date.now() + expiresInMs) : undefined`
abbrev pub expiry : (now : ℕ) → (self_destruct : Bool) → (expires_in_ms : Option ℕ) → Option ℕ
expiry now true (some ms) = some (now + ms)
expiry now _ _ = none

-- the validator of `participants` in models/Conversation.ts
unfoldable pub has_company : List String → Bool
has_company participants = leb 2 (length participants)

module _ (M : Mongo) (R : Rest M) where
  -- GET /
  unfoldable pub list_conversations :
      (user_id : String) (limit before : Option ℕ) → M.Db → ListReply
  list_conversations user_id limit before db =
      list_reply (limit_of 20 50 limit)
        (R.find_conversations (M.object_id user_id) before (limit_of 20 50 limit) db)

  -- the conversation with its participants, which are read after it is stored
  abbrev pub populated : Conversation → Answer (Unit {0}) → Reply
  populated conversation failed = server_error
  populated conversation (got _) = created conversation

  abbrev pub on_created : M.Db → Answer (M.Db × Conversation) → M.Db × Reply
  on_created db failed = (db, server_error)
  on_created db (got (after, conversation)) =
      (after, populated conversation (R.populate conversation after))

  -- Conversation.create, which validates the document before it is stored
  abbrev pub validated : NewConversation → M.Db → Answer (M.Db × Conversation)
  validated new db = if has_company new.participants then R.create_conversation new db else failed

  abbrev pub on_counted : NewConversation → M.Db → Answer ℕ → M.Db × Reply
  on_counted new db failed = (db, server_error)
  on_counted new db (got count) =
      if count == length new.participants
      then on_created db (validated new db)
      else (db, unknown_participants)

  -- `Array.from(new Set([req.userId, ...participantIds]))`, as ObjectIds
  abbrev pub all_ids : (user_id : String) → List String → List String
  all_ids user_id ids = map M.object_id (NameSet.from [] (user_id ∷ ids))

  abbrev pub new_conversation : (user_id : String) → CreateBody → (now : ℕ) → NewConversation
  new_conversation user_id body now = record {
    participants = all_ids user_id body.participant_ids;
    last_message_at = now;
    self_destruct = or_false body.self_destruct;
    expires_at = expiry now (or_false body.self_destruct) body.expires_in_ms;
  }

  -- POST /
  unfoldable pub create_conversation :
      (user_id : String) → CreateBody → (now : ℕ) → M.Db → M.Db × Reply
  create_conversation user_id body now db =
      let new = new_conversation user_id body now in
      if meets_schema body
      then on_counted new db (R.count_users new.participants db)
      else (db, invalid)

  abbrev pub shown_if_found : Answer (Option Conversation) → Reply
  shown_if_found failed = server_error
  shown_if_found (got none) = not_found
  shown_if_found (got (some conversation)) = shown conversation

  -- GET /:id
  unfoldable pub get_conversation : (user_id id : String) → M.Db → Reply
  get_conversation user_id id db =
      shown_if_found (M.find_conversation (M.object_id id) (M.object_id user_id ∷ []) db)

  abbrev pub both : Answer M.Db → Answer M.Db → Reply
  both failed b = server_error
  both (got a) failed = server_error
  both (got a) (got b) = deleted

  -- `Promise.all` of the two deletions: each is carried out even if the other fails
  abbrev pub delete_all : (id : String) → M.Db → M.Db × Reply
  delete_all id db =
      let first = R.delete_messages id db in
      let second = R.delete_conversation id (or_same db first) in
      (or_same (or_same db first) second, both first second)

  abbrev pub on_found : M.Db → Answer (Option Conversation) → M.Db × Reply
  on_found db failed = (db, server_error)
  on_found db (got none) = (db, not_found)
  on_found db (got (some conversation)) = delete_all conversation.id db

  -- DELETE /:id
  unfoldable pub delete_conversation : (user_id id : String) → M.Db → M.Db × Reply
  delete_conversation user_id id db =
      on_found db (M.find_conversation (M.object_id id) (M.object_id user_id ∷ []) db)
