-- ===== src/Client/Socket/Sending.antt =====
-- From one client's message:send to what the others show.
use pm_chat.Base.{
  ℕ, ◌+◌, ◌≡◌, ◌↔◌, refl, String, none, some, [], ◌∷◌, ◌++◌, arith, ap, sym, ◌∙◌, subst,
}
use pm_chat.Dict
use pm_chat.Services.Redis.{Redis}
use pm_chat.Models.{Conversation}
use pm_chat.Services.Mongo.{Mongo, first, holds_members}
use pm_chat.Schema.{Input}
use pm_chat.Sockets.Events.{Client, World, Event, message_new, room, conv_room, Ack, sent}
use pm_chat.Sockets.Send.{SendPayload, parse_send, send, done}
use pm_chat.Sockets.Send.Delivery.{send-Outcome, Outcome, IsDelivered}
use pm_chat.Client.ChatStore.{
  LocalMessage, ChatState, messages_of, unread_of, add_message, increment_unread,
}
use pm_chat.Client.ChatStore.Confirmation.{messages_of-set_self}
use pm_chat.Client.Socket.{receive, acknowledged}

done-injective : (a b : Ack) → done a ≡ done b → a ≡ b
done-injective a b e = ground arith

module _ (R : Redis) (M : Mongo) (client : Client) (show : ℕ → String) where
  -- The message as a client shows it: all of it but its attachment.
  pub record IsShown (id : String) (p : SendPayload) (m : LocalMessage) : Type 0 where
    named : m.id ≡ id
    from_sender : m.sender_id ≡ client.user_id
    same_payload : m.encrypted_payload ≡ p.encrypted_payload
    same_iv : m.iv ≡ p.iv
    no_attachment : m.encrypted_attachment_url ≡ none

  -- What the announcement of a message that was sent does to a client that receives it.
  pub record Reaches (input : Input) (id : String) (w w' : World R M) : Type 0 where
    payload : SendPayload
    conversation : Conversation
    event : Event
    parsed : parse_send input ≡ some payload
    member :
        first
          (holds_members (M.object_id payload.conversation_id) (M.object_id client.user_id ∷ []))
          (M.conversations w.mongo)
        ≡ some conversation
    announced :
        w'.emitted
        ≡ w.emitted
          ++ record { target = room (conv_room payload.conversation_id); event = event } ∷ []
    addressed :
        (conv_room payload.conversation_id ≡ conv_room conversation.id)
        ↔ (payload.conversation_id ≡ M.object_id payload.conversation_id)
    confirmed : acknowledged event ≡ (id, payload.conversation_id) ∷ []
    shown :
        (s : ChatState)
        → (m : LocalMessage) × (messages_of payload.conversation_id (receive show event s)
            ≡ messages_of payload.conversation_id s ++ m ∷ [])
          × IsShown id payload m
    counted :
        (s : ChatState)
        → unread_of payload.conversation_id (receive show event s)
          ≡ unread_of payload.conversation_id s + 1

  delivered-Reaches :
      (input : Input) (t₁ t₃ : ℕ) (id : String) (w w' : World R M)
      → IsDelivered R M client input t₁ t₃ w w' id
      → Reaches input id w w'
  unfolding receive add_message increment_unread
  delivered-Reaches input t₁ t₃ id w w' d = record {
    payload = d.payload;
    conversation = d.conversation;
    event =
        message_new d.message.id d.payload.conversation_id client.user_id
          d.payload.encrypted_payload d.payload.iv d.payload.encrypted_attachment_url
          d.message.timestamp d.message.expires_at d.message.burn_after_reading;
    parsed = d.parsed;
    member = d.member;
    addressed = d.addressed;
    announced = d.announced;
    confirmed = ap (λ x. (x, d.payload.conversation_id) ∷ []) d.named;
    shown = λ s. (
      _,
      messages_of-set_self d.payload.conversation_id _ s,
      record {
        named = d.named;
        from_sender = refl;
        same_payload = refl;
        same_iv = refl;
        no_attachment = refl;
      },
    );
    counted = λ s. ground (
      arith,
      Dict.get-set_self d.payload.conversation_id (unread_of d.payload.conversation_id s + 1)
          s.unread_counts,
    );
  }

  Outcome-Reaches :
      (input : Input) (t₁ t₃ : ℕ) (id : String) (w w' : World R M) (ack : Ack)
      → ack ≡ sent id
      → Outcome R M client input t₁ t₃ w ack w'
      → Reaches input id w w'
  Outcome-Reaches input t₁ t₃ id w w' ack same o =
      delivered-Reaches input t₁ t₃ id w w'
        (subst (λ a. Outcome R M client input t₁ t₃ w a w') same o)

  -- If message:send answers that a message was sent, one event has gone to the room under the id of
  -- the conversation as the sender spelt it, which is the conversation's room exactly if the id is
  -- spelt as it is shown. Each client that receives the event, the sender's own among them if it is
  -- in that room, appends the message to the conversation under that spelling, with the sender, the
  -- ciphertext and the IV that were sent, but without the attachment; counts it as unread; and
  -- confirms its delivery under the id of the answer.
  pub send-Reaches :
      (input : Input) (t₁ t₂ t₃ t₄ : ℕ) (w : World R M) (id : String)
      → (send R M client input t₁ t₂ t₃ t₄ w).1 ≡ done (sent id)
      → Reaches input id w (send R M client input t₁ t₂ t₃ t₄ w).0
  send-Reaches input t₁ t₂ t₃ t₄ w id e =
      let (ack, ended, o) = send-Outcome R M client input t₁ t₃ w t₂ t₄ in
      Outcome-Reaches input t₁ t₃ id w _ ack (done-injective ack (sent id) (sym ended ∙ e)) o
