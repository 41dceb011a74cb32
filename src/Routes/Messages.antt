-- ===== src/Routes/Messages.antt =====
-- apps/server/src/routes/messages.ts, behind `authMiddleware`. The query's limit is absent or a
-- whole number that is not negative, and its cursor is a time in milliseconds: what `Number` and
-- `Date` make of other texts is refused or read by the database's driver.
pub mod Pages
mod Tests
use pm_chat.Base.{ℕ, String, Option, none, some, List, [], ◌∷◌}
use pm_chat.Models.{Message, Conversation}
use pm_chat.Services.{failed, got, Answer}
use pm_chat.Services.Mongo.{Mongo}
use pm_chat.Services.Rest.{Rest, message_time}
use pm_chat.Routes.Paging.{limit_of, next_cursor}

pub data Reply : Type 0 where
  server_error not_found : Reply
  page : (messages : List Message) (next_cursor : Option ℕ) → Reply

abbrev pub page_reply : (limit : ℕ) → Answer (List Message) → Reply
page_reply limit failed = server_error
page_reply limit (got messages) = page messages (next_cursor message_time limit messages)

module _ (M : Mongo) (R : Rest M) where
  -- what follows once the conversation was looked up
  abbrev pub on_found : (limit before : Option ℕ) → M.Db → Answer (Option Conversation) → Reply
  on_found limit before db failed = server_error
  on_found limit before db (got none) = not_found
  on_found limit before db (got (some conversation)) =
      page_reply (limit_of 50 100 limit)
        (R.find_messages conversation.id before (limit_of 50 100 limit) db)

  -- GET /:conversationId
  unfoldable pub get_messages :
      (user_id conversation_id : String) (limit before : Option ℕ) → M.Db → Reply
  get_messages user_id conversation_id limit before db =
      on_found limit before db
        (M.find_conversation (M.object_id conversation_id) (M.object_id user_id ∷ []) db)
