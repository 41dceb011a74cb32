-- ===== src/Models.antt =====
-- apps/server/src/models: the documents of MongoDB. Ids are the hexadecimal texts of ObjectIds, and
-- dates are milliseconds.
use pm_chat.Base.{ℕ, String, Bool, Option, List}

pub record Message : Type 0 where
  pub id : String
  pub conversation_id : String
  pub sender_id : String
  pub encrypted_payload : String
  pub iv : String
  pub encrypted_attachment_url : Option String
  pub timestamp : ℕ
  pub expires_at : Option ℕ
  pub burn_after_reading : Bool
  pub delivered : Bool
  pub read : Bool

pub record Conversation : Type 0 where
  pub id : String
  pub participants : List String
  pub last_message_at : ℕ
  pub self_destruct : Bool
  pub expires_at : Option ℕ
