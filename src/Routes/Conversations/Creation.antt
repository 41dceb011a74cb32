-- ===== src/Routes/Conversations/Creation.antt =====
-- Who takes part in a conversation that is created.
use pm_chat.Base.{
  ℕ, ◌≡◌, ◌≢◌, inl, inr, String, true, false, List, [], ◌∷◌, ◌++◌, arith, eq_refl, ◌==◌, length,
  keep, keep_full, All, Bool-cases, ap, sym, ◌∙◌, subst,
}
use pm_chat.NameSet
use pm_chat.NameSet.{has-from, length-from-le, has-map, All_of_has, All-has}
use pm_chat.Models.{Conversation}
use pm_chat.Services.{failed, got, Answer-cases}
use pm_chat.Services.Mongo.{Mongo}
use pm_chat.Services.Rest.{Rest, stored_conversation}
use pm_chat.Routes.Conversations.{
  CreateBody, meets_schema, has_company, Reply, created, invalid, server_error,
  unknown_participants, all_ids, new_conversation, create_conversation,
}

-- If as many of the ids as there are belong to users, they all do.
all_users :
    (users ids : List String)
    → length (keep (λ id. NameSet.has id users) (NameSet.from [] ids)) ≡ length ids
    → All (λ id. NameSet.has id users ≡ true) ids
unfolding NameSet.has
all_users users ids h =
    let full =
      keep_full (λ id. NameSet.has id users) (NameSet.from [] ids)
        (omega (arith, length-from-le ids [])) in
    All_of_has (λ id. NameSet.has id users ≡ true) ids
      (λ x m.
        All-has (λ id. NameSet.has id users ≡ true) x (NameSet.from [] ids) full
          (has-from x ids [] ∙ m))

module _ (M : Mongo) (R : Rest M) where
  -- A new conversation is in the database as it was asked for: its participants are the creator and
  -- those that were named, who are all users.
  pub record IsCreated (user_id : String) (body : CreateBody) (now : ℕ) (db db' : M.Db)
      (c : Conversation) : Type 0 where
    accepted : meets_schema body ≡ true
    in_company : has_company c.participants ≡ true
    as_asked : c ≡ stored_conversation c.id (new_conversation M R user_id body now)
    users : All (λ id. NameSet.has id (R.users db) ≡ true) c.participants
    creator : NameSet.has (M.object_id user_id) c.participants ≡ true
    added : M.conversations db' ≡ M.conversations db ++ c ∷ []
    messages_kept : M.messages db' ≡ M.messages db

  creator_in :
      (u : String) (ids : List String) → NameSet.has (M.object_id u) (all_ids M R u ids) ≡ true
  unfolding NameSet.has
  creator_in u ids =
      has-map M.object_id u (NameSet.from [] (u ∷ ids))
        (has-from u (u ∷ ids) [] ∙ (ground (arith, eq_refl u)))

  -- The participants that a body asks for, and how many different users there are among them.
  abbrev pub asked : (user_id : String) → CreateBody → List String
  asked user_id body = all_ids M R user_id body.participant_ids

  abbrev pub known : M.Db → List String → ℕ
  known db ids = length (keep (λ id. NameSet.has id (R.users db)) (NameSet.from [] ids))

  -- The answers of the route, each with all that it says. No two have conditions that hold together.
  pub data Answers (user_id : String) (body : CreateBody) (now : ℕ) (db : M.Db)
      : M.Db × Reply → Type 0 where
    refused : meets_schema body ≡ false → Answers user_id body now db (db, invalid)
    uncounted :
        meets_schema body ≡ true
        → R.count_users (asked user_id body) db ≡ failed
        → Answers user_id body now db (db, server_error)
    unknown :
        meets_schema body ≡ true
        → R.count_users (asked user_id body) db ≡ got (known db (asked user_id body))
        → known db (asked user_id body) ≢ length (asked user_id body)
        → Answers user_id body now db (db, unknown_participants)
    alone :
        meets_schema body ≡ true
        → R.count_users (asked user_id body) db ≡ got (length (asked user_id body))
        → known db (asked user_id body) ≡ length (asked user_id body)
        → has_company (asked user_id body) ≡ false
        → Answers user_id body now db (db, server_error)
    unstored :
        meets_schema body ≡ true
        → R.count_users (asked user_id body) db ≡ got (length (asked user_id body))
        → known db (asked user_id body) ≡ length (asked user_id body)
        → has_company (asked user_id body) ≡ true
        → R.create_conversation (new_conversation M R user_id body now) db ≡ failed
        → Answers user_id body now db (db, server_error)
    unanswered :
        (db' : M.Db) (c : Conversation)
        → R.count_users (asked user_id body) db ≡ got (length (asked user_id body))
        → IsCreated user_id body now db db' c
        → R.populate c db' ≡ failed
        → Answers user_id body now db (db', server_error)
    made :
        (db' : M.Db) (c : Conversation)
        → R.count_users (asked user_id body) db ≡ got (length (asked user_id body))
        → IsCreated user_id body now db db' c
        → R.populate c db' ≡ got tt
        → Answers user_id body now db (db', created c)

  made-IsCreated :
      (user_id : String) (body : CreateBody) (now n : ℕ) (db db' : M.Db) (c : Conversation)
      → meets_schema body ≡ true
      → R.count_users (new_conversation M R user_id body now).participants db ≡ got n
      → (n == length (new_conversation M R user_id body now).participants) ≡ true
      → has_company (asked user_id body) ≡ true
      → R.create_conversation (new_conversation M R user_id body now) db ≡ got (db', c)
      → IsCreated user_id body now db db' c
  made-IsCreated u body now n db db' c met counted whole paired stored =
      let new = new_conversation M R u body now in
      let (same, added, kept) = R.create_conversation_lem new db db' c stored in
      let members : c.participants ≡ new.participants = ap (λ x. x.participants) same in
      record {
        accepted = met;
        in_company = subst (λ xs. has_company xs ≡ true) (sym members) paired;
        as_asked = same;
        users = subst (All (λ id. NameSet.has id (R.users db) ≡ true)) (sym members) (
            all_users (R.users db) new.participants
              (sym (R.count_users_lem new.participants db n counted) ∙ (ground arith)));
        creator =
            subst (λ xs. NameSet.has (M.object_id u) xs ≡ true) (sym members)
              (creator_in u body.participant_ids);
        added = added;
        messages_kept = kept;
      }

  -- A body that does not meet the schema is refused, and only such a body is. Of another, the
  -- participants are said to be unknown exactly if the database counts them and finds fewer
  -- different users among their ids than there are ids. A conversation is created only if all of
  -- them, the creator and at least one more, are users; it is then as it was asked for and added to the others.
  -- A body that names nobody but the creator is answered as an error of the server, by the validator
  -- of the model. Any other server error means that the database failed. Either leaves everything as
  -- it was, unless only the participants of the conversation that was created could not be read.
  pub create_conversation-Answers :
      (user_id : String) (body : CreateBody) (now : ℕ) (db : M.Db)
      → Answers user_id body now db (create_conversation M R user_id body now db)
  unfolding create_conversation
  create_conversation-Answers u body now db =
      let new = new_conversation M R u body now in
      elim (Bool-cases (meets_schema body)) [
        | inr not_met ↦ rw not_met (refused not_met)
        | inl met ↦ elim (Answer-cases (R.count_users new.participants db)) [
          | inl down ↦ rw (met, down) (uncounted met down)
          | inr (n, counted) ↦
              let n_known : n ≡ known db new.participants =
                R.count_users_lem new.participants db n counted in
              elim (Bool-cases (n == length new.participants)) [
                | inr differs ↦
                    rw (met, counted, differs)
                      (unknown met (counted ∙ ap got n_known)
                        (λ e. absurd (ground (arith, n_known))))
                | inl whole ↦
                    let n_all : n ≡ length new.participants = ground arith in
                    let count = counted ∙ ap got n_all in
                    let all_known = sym n_known ∙ n_all in
                    elim (Bool-cases (has_company new.participants)) [
                      | inr lone ↦ rw (met, counted, whole, lone) (alone met count all_known lone)
                      | inl paired ↦ elim (Answer-cases (R.create_conversation new db)) [
                        | inl down ↦
                            rw (met, counted, whole, paired, down)
                              (unstored met count all_known paired down)
                        | inr ((db', c), stored) ↦
                            let is_created =
                              made-IsCreated u body now n db db' c met counted whole paired
                                stored in
                            elim (Answer-cases (R.populate c db')) [
                              | inl down ↦
                                  rw (met, counted, whole, paired, stored, down)
                                    (unanswered db' c count is_created down)
                              | inr (tt, read) ↦
                                  rw (met, counted, whole, paired, stored, read)
                                    (made db' c count is_created read)
                            ]
                      ]
                    ]
              ]
        ]
      ]
