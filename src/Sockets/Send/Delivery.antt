-- ===== src/Sockets/Send/Delivery.antt =====
-- What one run of message:send does, by its acknowledgement.
use pm_chat.Base.{
  ℕ, ◌≡◌, ◌↔◌, refl, ◌⊎◌, inl, inr, String, true, false, none, some, [], ◌∷◌, ◌++◌, Option-cases,
  sym, ap, ◌∙◌,
}
use pm_chat.Models.{Message, Conversation}
use pm_chat.Schema.{Input}
use pm_chat.Services.{Answer-cases}
use pm_chat.Services.Redis.{Redis}
use pm_chat.Services.Mongo.{Mongo, first-id, stored, holds_members, first}
use pm_chat.Sockets.Events.{
  Client, World, emit, room, conv_room, conv_room-injective, message_new, Ack, error, sent, ok,
  server_error,
}
use pm_chat.Sockets.Send.{
  SendPayload, Progress, joining, creating, updating, done, parse_send, message_nonce, nonce_ttl,
  new_message, start, claim, join, create, update, advance, send,
}

module _ (R : Redis) (M : Mongo) (client : Client) where
  -- What a message that was acknowledged as sent rests on, and what it has left.
  pub record IsDelivered (input : Input) (t₁ t₃ : ℕ) (w w' : World R M) (id : String) : Type 0 where
    pub payload : SendPayload
    pub conversation : Conversation
    pub message : Message
    pub parsed : parse_send input ≡ some payload
    pub fresh : R.at w.redis (message_nonce payload.nonce) t₁ ≡ none
    pub member :
        first
          (holds_members (M.object_id payload.conversation_id) (M.object_id client.user_id ∷ []))
          (M.conversations w.mongo)
        ≡ some conversation
    pub found_by : conversation.id ≡ M.object_id payload.conversation_id
    pub named : message.id ≡ id
    pub kept : message ≡ stored id t₃ (new_message M client payload conversation t₃)
    pub added : M.messages w'.mongo ≡ M.messages w.mongo ++ message ∷ []
    pub announced :
        w'.emitted
        ≡ w.emitted
          ++ record {
            target = room (conv_room payload.conversation_id);
            event =
                message_new message.id payload.conversation_id client.user_id
                  payload.encrypted_payload payload.iv payload.encrypted_attachment_url
                  message.timestamp message.expires_at message.burn_after_reading;
          }
            ∷ []
    -- The room is that of the conversation exactly if the client spelt its id as it is shown.
    pub addressed :
        (conv_room payload.conversation_id ≡ conv_room conversation.id)
        ↔ (payload.conversation_id ≡ M.object_id payload.conversation_id)

  module _ (input : Input) (t₁ t₃ : ℕ) (w₀ : World R M) where
    -- What each acknowledgement means: a refusal or a failure announces nothing; only a failure of
    -- the last step leaves a message behind.
    abbrev pub Outcome : Ack → World R M → Type 0
    Outcome (sent id) w = IsDelivered input t₁ t₃ w₀ w id
    Outcome (error e) w =
        (w.emitted ≡ w₀.emitted)
        × ((M.messages w.mongo ≡ M.messages w₀.mongo)
            ⊎ ((e ≡ server_error)
                × ((m : Message) × (M.messages w.mongo ≡ M.messages w₀.mongo ++ m ∷ []))))
    Outcome ok w = ⊥

    record IsClaimed (p : SendPayload) (w : World R M) : Type 0 where
      parsed : parse_send input ≡ some p
      fresh : R.at w₀.redis (message_nonce p.nonce) t₁ ≡ none
      same_mongo : w.mongo ≡ w₀.mongo
      silent : w.emitted ≡ w₀.emitted

    record IsJoined (p : SendPayload) (c : Conversation) (w : World R M) : Type 0 where
      claimed : IsClaimed p w
      member :
          first
            (holds_members (M.object_id p.conversation_id) (M.object_id client.user_id ∷ []))
            (M.conversations w₀.mongo)
          ≡ some c

    record IsCreated (p : SendPayload) (c : Conversation) (m : Message) (w : World R M)
        : Type 0 where
      parsed : parse_send input ≡ some p
      fresh : R.at w₀.redis (message_nonce p.nonce) t₁ ≡ none
      member :
          first
            (holds_members (M.object_id p.conversation_id) (M.object_id client.user_id ∷ []))
            (M.conversations w₀.mongo)
          ≡ some c
      kept : m ≡ stored m.id t₃ (new_message M client p c t₃)
      added : M.messages w.mongo ≡ M.messages w₀.mongo ++ m ∷ []
      silent : w.emitted ≡ w₀.emitted

    abbrev After₁ : Progress → World R M → Type 0
    After₁ (joining p) w = IsClaimed p w
    After₁ (done ack) w = Outcome ack w
    After₁ _ w = ⊥

    abbrev After₂ : Progress → World R M → Type 0
    After₂ (creating p c) w = IsJoined p c w
    After₂ (done ack) w = Outcome ack w
    After₂ _ w = ⊥

    abbrev After₃ : Progress → World R M → Type 0
    After₃ (updating p c m) w = IsCreated p c m w
    After₃ (done ack) w = Outcome ack w
    After₃ _ w = ⊥

    abbrev After₄ : Progress → World R M → Type 0
    After₄ (done ack) w = Outcome ack w
    After₄ _ w = ⊥

    claim_after :
        (p : SendPayload)
        → parse_send input ≡ some p
        → (let (w, s) = claim R M client p t₁ w₀ in After₁ s w)
    unfolding claim
    claim_after p parsed =
        elim (Answer-cases (R.set_nx (message_nonce p.nonce) "1" nonce_ttl t₁ w₀.redis)) [
          | inl e ↦ rw (e, claim) (refl, inl refl)
          | inr ((db, true), e) ↦
              rw (e, claim)
                (record {
                  parsed = parsed;
                  fresh = (R.set_nx_stored _ _ _ _ _ _ e).0;
                  same_mongo = refl;
                  silent = refl;
                })
          | inr ((db, false), e) ↦ rw (e, claim) (refl, inl refl)
        ]

    join_after :
        (p : SendPayload) (w : World R M)
        → IsClaimed p w
        → (let (w', s) = join R M client p w in After₂ s w')
    unfolding join
    join_after p w v =
        elim (Answer-cases (
          M.find_conversation (M.object_id p.conversation_id) (M.object_id client.user_id ∷ [])
            w.mongo)) [
              | inl e ↦ rw (e, join) (v.silent, inl (ap M.messages v.same_mongo))
              | inr (none, e) ↦ rw (e, join) (v.silent, inl (ap M.messages v.same_mongo))
              | inr (some c, e) ↦
                  let found = M.find_conversation_lem _ _ _ _ e in
                  rw (e, join) (record { claimed = v; member = rw v.same_mongo at (sym found) })
            ]

    create_after :
        (p : SendPayload) (c : Conversation) (w : World R M)
        → IsJoined p c w
        → (let (w', s) = create R M client p c t₃ w in After₃ s w')
    unfolding create
    create_after p c w v =
        elim (Answer-cases (M.create_message (new_message M client p c t₃) t₃ w.mongo)) [
          | inl e ↦ rw (e, create) (v.claimed.silent, inl (ap M.messages v.claimed.same_mongo))
          | inr ((db, m), e) ↦
              let laws = M.create_message_lem _ _ _ _ _ e in
              rw (e, create)
                (record {
                  parsed = v.claimed.parsed;
                  fresh = v.claimed.fresh;
                  member = v.member;
                  kept = laws.0;
                  added = rw v.claimed.same_mongo at laws.1;
                  silent = v.claimed.silent;
                })
        ]

    update_after :
        (p : SendPayload) (c : Conversation) (m : Message) (w : World R M)
        → IsCreated p c m w
        → (let (w', s) = update R M client p c m w in After₄ s w')
    unfolding update emit
    update_after p c m w v = elim (Answer-cases (M.set_last_message_at c.id m.timestamp w.mongo)) [
      | inl e ↦ rw (e, update) (v.silent, inr (refl, (m, v.added)))
      | inr (db, e) ↦
          let own = first-id _ _ (M.conversations w₀.mongo) c v.member in
          rw (e, update)
            (record {
              payload = p;
              conversation = c;
              message = m;
              parsed = v.parsed;
              fresh = v.fresh;
              member = v.member;
              found_by = own;
              named = refl;
              kept = v.kept;
              added = M.set_last_message_at_lem _ _ _ _ e ∙ v.added;
              announced = rw v.silent refl;
              addressed = (
                (λ e. conv_room-injective p.conversation_id c.id e ∙ own),
                λ e. ap conv_room (e ∙ sym own),
              );
            })
    ]

    step₁ : (let (w, s) = advance R M client (start R M client input) t₁ w₀ in After₁ s w)
    unfolding advance start
    step₁ = elim (Option-cases (parse_send input)) [
      | inl e ↦ rw (e, start) (refl, inl refl)
      | inr (p, e) ↦ rw (e, start) (claim_after p e)
    ]

    step₂ :
        (s : Progress) (w : World R M) (now : ℕ)
        → After₁ s w
        → (let (w', s') = advance R M client s now w in After₂ s' w')
    unfolding advance
    step₂ (joining p) w now v = join_after p w v
    step₂ (done ack) w now v = v
    step₂ _ w now v = absurd v

    step₃ :
        (s : Progress) (w : World R M)
        → After₂ s w
        → (let (w', s') = advance R M client s t₃ w in After₃ s' w')
    unfolding advance
    step₃ (creating p c) w v = create_after p c w v
    step₃ (done ack) w v = v
    step₃ _ w v = absurd v

    step₄ :
        (s : Progress) (w : World R M) (now : ℕ)
        → After₃ s w
        → (let (w', s') = advance R M client s now w in After₄ s' w')
    unfolding advance
    step₄ (updating p c m) w now v = update_after p c m w v
    step₄ (done ack) w now v = v
    step₄ _ w now v = absurd v

    ended :
        (s : Progress) (w : World R M) → After₄ s w → (ack : Ack) × (s ≡ done ack) × Outcome ack w
    ended (done ack) w v = (ack, refl, v)
    ended _ w v = absurd v

    pub send-Outcome :
        (t₂ t₄ : ℕ)
        → (let (w, s) = send R M client input t₁ t₂ t₃ t₄ w₀ in
            (ack : Ack) × (s ≡ done ack) × Outcome ack w)
    unfolding send
    send-Outcome t₂ t₄ = ended _ _ (step₄ _ _ t₄ (step₃ _ _ (step₂ _ _ t₂ step₁)))
