-- ===== src/Sockets/Rooms/Membership.antt =====
-- Which rooms a socket can be in, over any run of joins and leaves.
use pm_chat.Base.{
  ◌≡◌, ◌⊎◌, inl, inr, String, true, none, some, List, [], ◌∷◌, arith, eq_iff, ◌===◌, Option-cases,
  Bool-cases, sym,
}
use pm_chat.NameSet
use pm_chat.Models.{Conversation}
use pm_chat.Schema.{Input}
use pm_chat.Services.{Answer-cases}
use pm_chat.Services.Mongo.{Mongo, holds_members, first}
use pm_chat.Sockets.Events.{Client, conv_room}
use pm_chat.Sockets.Rooms.{parse_join_leave, conversation_join, conversation_leave}

module _ (M : Mongo) (client : Client) where
  -- A request of the socket, with the database as it is then.
  pub data Request : Type 0 where
    join leave : Input → M.Db → Request

  unfoldable pub step : List String → Request → List String
  step rooms (join input db) = (conversation_join M client input db rooms).0
  step rooms (leave input db) = (conversation_leave M client input rooms).0

  unfoldable pub run : List String → List Request → List String
  run rooms [] = rooms
  run rooms (r ∷ rs) = run (step rooms r) rs

  -- The request is a join for which the database shows the user as a participant.
  abbrev pub Admits : (room : String) → Request → Type 0
  Admits room (join input db) =
      (id : String) × (parse_join_leave input ≡ some id)
      × (room ≡ conv_room id)
      × ((c : Conversation) × (first
              (holds_members (M.object_id id) (M.object_id client.user_id ∷ []))
              (M.conversations db)
            ≡ some c))
  Admits room (leave input db) = ⊥

  abbrev pub Some : (Request → Type 0) → List Request → Type 0
  Some P [] = ⊥
  Some P (r ∷ rs) = P r ⊎ Some P rs

  step-Admits :
      (rooms : List String) (r : Request) (room : String)
      → NameSet.has room (step rooms r) ≡ true
      → Admits room r ⊎ (NameSet.has room rooms ≡ true)
  unfolding step conversation_join conversation_leave
  step-Admits rooms (join input db) room h = elim (Option-cases (parse_join_leave input)) [
    | inl bad ↦ inr (ground arith)
    | inr (id, parsed) ↦
        elim (Answer-cases
          (M.find_conversation (M.object_id id) (M.object_id client.user_id ∷ []) db)) [
            | inl e ↦ inr (ground arith)
            | inr (none, e) ↦ inr (ground arith)
            | inr (some c, e) ↦ elim (Bool-cases (conv_room id === room)) [
              | inl same ↦ inl (
                id,
                parsed,
                sym ((eq_iff _ _).0 same),
                (c, sym (M.find_conversation_lem _ _ _ _ e)),
              )
              | inr other ↦ inr (ground (arith, NameSet.has-add (conv_room id) room rooms))
            ]
          ]
  ]
  step-Admits rooms (leave input db) room h = elim (Option-cases (parse_join_leave input)) [
    | inl bad ↦ inr (ground arith)
    | inr (id, parsed) ↦ inr (ground (arith, NameSet.has-remove (conv_room id) room rooms))
  ]

  -- A socket is in a room only if it was before, or if one of its requests was a join by the id that
  -- names the room, at a time when the database showed its user as a participant of the conversation
  -- with that id, in whichever spelling.
  pub run-Admits :
      (rooms : List String) (rs : List Request) (room : String)
      → NameSet.has room (run rooms rs) ≡ true
      → (NameSet.has room rooms ≡ true) ⊎ Some (Admits room) rs
  unfolding run
  run-Admits rooms [] room h = inl h
  run-Admits rooms (r ∷ rs) room h = after (run-Admits (step rooms r) rs room h)
    where
      after :
          (NameSet.has room (step rooms r) ≡ true) ⊎ Some (Admits room) rs
          → (NameSet.has room rooms ≡ true) ⊎ Some (Admits room) (r ∷ rs)
      after (inl now) = here (step-Admits rooms r room now)
        where
          here :
              Admits room r ⊎ (NameSet.has room rooms ≡ true)
              → (NameSet.has room rooms ≡ true) ⊎ Some (Admits room) (r ∷ rs)
          here (inl a) = inr (inl a)
          here (inr b) = inl b
      after (inr later) = inr (inr later)
