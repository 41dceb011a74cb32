-- ===== src/Sockets/Status/Relay.antt =====
-- The relay of session keys by key:exchange, and the refusals of message:delivered.
use pm_chat.Base.{
  ◌≡◌, ◌↔◌, ap, refl, inl, inr, none, some, [], ◌∷◌, ◌++◌, map, Option-cases, sym, false,
}
use pm_chat.Models.{Conversation}
use pm_chat.Schema.{Input}
use pm_chat.Services.{Answer-cases}
use pm_chat.Services.Redis.{Redis}
use pm_chat.Services.Mongo.{Mongo, holds_members, first, mark}
use pm_chat.Sockets.Events.{
  Client, World, Emission, emit, room, user_room, user_room-injective, conv_room, key_received,
  message_status, Ack, ok,
}
use pm_chat.Sockets.Status.{
  KeyPayload, parse_key, key_exchange, StatusPayload, parse_status, message_delivered,
}

module _ (R : Redis) (M : Mongo) (client : Client) where
  -- the key as it is passed on
  abbrev pub relayed : KeyPayload → Emission
  relayed p = record {
    target = room (user_room p.target_user_id);
    event = key_received client.user_id p.conversation_id p.encrypted_key;
  }

  -- What an answer to key:exchange means. It is `ok` only for a valid payload and a conversation
  -- that holds both the sender and the target, in any spelling of the ids; then the key goes out once,
  -- unchanged, to the room under the target's id as it is spelt.
  abbrev pub Exchanged : Input → World R M → World R M × Ack → Type 0
  Exchanged input w (w', ok) =
      (p : KeyPayload) × (parse_key input ≡ some p)
      × ((c : Conversation) × (first
              (holds_members (M.object_id p.conversation_id)
                (M.object_id client.user_id ∷ M.object_id p.target_user_id ∷ []))
              (M.conversations w.mongo)
            ≡ some c))
      × (w' ≡ record w { emitted = w.emitted ++ relayed p ∷ [] })
      × ((user_room p.target_user_id ≡ user_room (M.object_id p.target_user_id))
          ↔ (p.target_user_id ≡ M.object_id p.target_user_id))
  Exchanged input w (w', _) = w' ≡ w

  -- key:exchange answers `ok` only to a valid payload that names, in any spelling of the ids, a
  -- conversation of both the sender and the target. It then passes the key on once, unchanged, to the
  -- room under the target's id as it is spelt, which is the room of the target exactly if the id is
  -- spelt as it is shown: otherwise the answer is `ok` and the key goes to another room. Any other
  -- answer passes nothing on, and in no case does the server store anything.
  pub key_exchange-Exchanged :
      (input : Input) (w : World R M) → Exchanged input w (key_exchange R M client input w)
  unfolding key_exchange emit
  key_exchange-Exchanged input w = elim (Option-cases (parse_key input)) [
    | inl bad ↦ rw (bad, key_exchange) refl
    | inr (p, parsed) ↦
        elim (Answer-cases (
          M.find_conversation (M.object_id p.conversation_id)
            (M.object_id client.user_id ∷ M.object_id p.target_user_id ∷ []) w.mongo)) [
              | inl e ↦ rw (parsed, key_exchange) (rw e refl)
              | inr (none, e) ↦ rw (parsed, key_exchange) (rw e refl)
              | inr (some c, e) ↦
                  rw (parsed, key_exchange)
                    (rw e (
                      p,
                      parsed,
                      (c, sym (M.find_conversation_lem _ _ _ _ e)),
                      refl,
                      ((λ x. user_room-injective _ _ x), λ x. ap user_room x),
                    ))
            ]
  ]

  abbrev pub Delivered : Input → World R M → World R M × Ack → Type 0
  Delivered input w (w', ok) =
      (p : StatusPayload) × (parse_status input ≡ some p)
      × (M.messages w'.mongo
          ≡ map (mark (M.object_id p.message_id) (M.object_id p.conversation_id) false)
              (M.messages w.mongo))
      × (w'.emitted
          ≡ w.emitted
            ++ record {
              target = room (conv_room p.conversation_id);
              event = message_status p.message_id p.conversation_id "delivered";
            }
              ∷ [])
  Delivered input w (w', _) = w'.emitted ≡ w.emitted

  -- message:delivered answers `ok` only to a valid payload; it has then marked the messages under
  -- that id and conversation, and no other, and told the conversation's room once. Any other
  -- answer announces nothing.
  message_delivered-Delivered :
      (input : Input) (w : World R M) → Delivered input w (message_delivered R M client input w)
  unfolding message_delivered emit
  message_delivered-Delivered input w = elim (Option-cases (parse_status input)) [
    | inl bad ↦ rw (bad, message_delivered) refl
    | inr (p, parsed) ↦
        elim (Answer-cases (
          M.mark_message (M.object_id p.message_id) (M.object_id p.conversation_id) false
            w.mongo)) [
              | inl e ↦ rw (parsed, message_delivered) (rw e refl)
              | inr ((db, none), e) ↦ rw (parsed, message_delivered) (rw e refl)
              | inr ((db, some m), e) ↦
                  rw (parsed, message_delivered)
                    (rw e (p, parsed, (M.mark_message_lem _ _ _ _ _ _ e).0, refl))
            ]
  ]
