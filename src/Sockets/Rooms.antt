-- ===== src/Sockets/Rooms.antt =====
-- apps/server/src/socket/index.ts and handlers/conversation.ts: the rooms of a socket. It enters the
-- room of its user when it connects, and the rooms of conversations by conversation:join.
pub mod Membership
mod Tests
use pm_chat.Base.{String, Option, none, some, List, [], ◌∷◌, if◌then◌else◌}
use pm_chat.NameSet
use pm_chat.Schema.{Input, fields, object_id, ◌>>=◌}
use pm_chat.Dict
use pm_chat.Services.{failed, got}
use pm_chat.Services.Mongo.{Mongo}
use pm_chat.Sockets.Events.{
  Client, conv_room, user_room, Ack, error, ok, validation_failed, not_a_participant, server_error,
}

-- `joinLeaveSchema`
unfoldable pub parse_join_leave : Input → Option String
parse_join_leave input = do d ← fields input; object_id (Dict.get "conversationId" d)

module _ (M : Mongo) (client : Client) where
  -- the rooms of a socket that has connected
  unfoldable pub connect : List String
  connect = NameSet.add (user_room client.user_id) []

  -- conversation:join
  unfoldable pub conversation_join : Input → M.Db → (rooms : List String) → List String × Ack
  conversation_join input db rooms = elim (parse_join_leave input) [
    | none ↦ (rooms, error validation_failed)
    | some id ↦ elim (M.find_conversation (M.object_id id) (M.object_id client.user_id ∷ []) db) [
      | failed ↦ (rooms, error server_error)
      | got none ↦ (rooms, error not_a_participant)
      | got (some conversation) ↦ (NameSet.add (conv_room id) rooms, ok)
    ]
  ]

  -- conversation:leave
  unfoldable pub conversation_leave : Input → (rooms : List String) → List String × Ack
  conversation_leave input rooms = elim (parse_join_leave input) [
    | none ↦ (rooms, error validation_failed)
    | some id ↦ (NameSet.remove (conv_room id) rooms, ok)
  ]
