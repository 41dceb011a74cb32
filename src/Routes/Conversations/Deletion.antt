-- ===== src/Routes/Conversations/Deletion.antt =====
-- What a deletion leaves.
use pm_chat.Base.{
  ◌≡◌, refl, ◌⊎◌, inl, inr, String, not, none, some, ◌∷◌, [], keep, ◌===◌, ap, sym, ◌∙◌, subst,
}
use pm_chat.Models.{Conversation}
use pm_chat.Services.{Answer-cases}
use pm_chat.Services.Mongo.{Mongo, first, first-id, holds_members}
use pm_chat.Services.Rest.{Rest, in_conversation}
use pm_chat.Routes.Conversations.{
  Reply, server_error, not_found, deleted, delete_all, on_found, delete_conversation,
}

module _ (M : Mongo) (R : Rest M) where
  -- The conversation and its messages are gone, and all else is as it was.
  pub record IsGone (id : String) (db db' : M.Db) : Type 0 where
    messages : M.messages db' ≡ keep (λ m. not (in_conversation id m)) (M.messages db)
    conversations : M.conversations db' ≡ keep (λ c. not (c.id === id)) (M.conversations db)

  pub data Outcome (user_id id : String) (db : M.Db) : M.Db × Reply → Type 0 where
    unchanged :
        (r : M.Db × Reply)
        → r.0 ≡ db
        → (r.1 ≡ server_error) ⊎ (r.1 ≡ not_found)
        → Outcome user_id id db r
    halfway :
        (r : M.Db × Reply) (c : Conversation)
        → first (holds_members (M.object_id id) (M.object_id user_id ∷ [])) (M.conversations db)
          ≡ some c
        → r.1 ≡ server_error
        → (M.messages r.0 ≡ keep (λ m. not (in_conversation (M.object_id id) m)) (M.messages db))
          ⊎ (M.messages r.0 ≡ M.messages db)
        → Outcome user_id id db r
    gone :
        (r : M.Db × Reply) (c : Conversation)
        → first (holds_members (M.object_id id) (M.object_id user_id ∷ [])) (M.conversations db)
          ≡ some c
        → r.1 ≡ deleted
        → IsGone (M.object_id id) db r.0
        → Outcome user_id id db r

  delete_all-Outcome :
      (user_id id : String) (db : M.Db) (c : Conversation)
      → first (holds_members (M.object_id id) (M.object_id user_id ∷ [])) (M.conversations db)
        ≡ some c
      → Outcome user_id id db (delete_all M R (M.object_id id) db)
  delete_all-Outcome u id db c found = elim (Answer-cases (R.delete_messages (M.object_id id) db)) [
    | inl down ↦ elim (Answer-cases (R.delete_conversation (M.object_id id) db)) [
      | inl down' ↦ unchanged _ (rw (down, down')) (inl (rw down))
      | inr (db', e') ↦
          halfway _ c found (rw down)
            (inr (rw (down, e') (R.delete_conversation_lem (M.object_id id) db db' e').1))
    ]
    | inr (db', e) ↦ elim (Answer-cases (R.delete_conversation (M.object_id id) db')) [
      | inl down' ↦
          halfway _ c found (rw (e, down'))
            (inl (rw (e, down') (R.delete_messages_lem (M.object_id id) db db' e).0))
      | inr (db'', e') ↦
          let (messages, same) = R.delete_messages_lem (M.object_id id) db db' e in
          let (conversations, same') = R.delete_conversation_lem (M.object_id id) db' db'' e' in
          gone _ c found (rw (e, e')) (
            rw (e, e')
              (record {
                messages = same' ∙ messages;
                conversations = conversations ∙ ap (keep (λ x. not (x.id === M.object_id id))) same;
              }))
    ]
  ]

  -- A deletion by someone who takes no part in the conversation changes nothing. One that answers
  -- `deleted` was asked for by a participant, and leaves of the conversation neither the document nor
  -- a message, and everything else. Where the database fails, the answer is an error: the messages
  -- may be deleted then while the conversation stays, or the other way round.
  pub delete_conversation-Outcome :
      (user_id id : String) (db : M.Db)
      → Outcome user_id id db (delete_conversation M R user_id id db)
  unfolding delete_conversation
  delete_conversation-Outcome u id db =
      elim (Answer-cases (M.find_conversation (M.object_id id) (M.object_id u ∷ []) db)) [
        | inl down ↦
            subst (λ a. Outcome u id db (on_found M R db a)) (sym down)
              (unchanged _ refl (inl refl))
        | inr (none, e) ↦
            subst (λ a. Outcome u id db (on_found M R db a)) (sym e) (unchanged _ refl (inr refl))
        | inr (some c, e) ↦
            let found = sym (M.find_conversation_lem _ _ _ _ e) in
            let same =
              first-id (M.object_id id) (M.object_id u ∷ []) (M.conversations db) c found in
            subst (λ a. Outcome u id db (on_found M R db a)) (sym e)
              (subst (λ i. Outcome u id db (delete_all M R i db)) (sym same)
                (delete_all-Outcome u id db c found))
      ]
