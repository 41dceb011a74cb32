-- ===== src/Routes/Messages/Pages.antt =====
-- What a participant reads, page by page.
use pm_chat.Base.{
  ℕ, zero, suc, ◌+◌, ◌≤◌, ◌≡◌, ◌≢◌, ◌⊎◌, refl, String, Option, none, some, List, [], ◌∷◌, arith,
  ◌==◌, min, length, keep, length-take-le, inl, inr, ap, ◌∙◌, sym, subst,
}
use pm_chat.Models.{Message, Conversation}
use pm_chat.Services.{got, Answer-cases}
use pm_chat.Services.Mongo.{Mongo, first, first-id, holds_members}
use pm_chat.Services.Rest.{Rest, in_conversation, message_time}
use pm_chat.Routes.Paging.{limit_of, limited, is_before, next_cursor, page_of}
use pm_chat.Routes.Paging.Newest.{descending-IsStrict}
use pm_chat.Routes.Paging.Follow.{follow, follow-all}
use pm_chat.Routes.Messages.{Reply, server_error, not_found, page, on_found, get_messages}

-- What a client goes on with.
abbrev pub served : Reply → Option (List Message × Option ℕ)
served server_error = none
served not_found = none
served (page messages cursor) = some (messages, cursor)

limit_positive : (limit : Option ℕ) → limit ≢ some 0 → (n : ℕ) × (limit_of 50 100 limit ≡ suc n)
limit_positive none h = (49, refl)
limit_positive (some zero) h = absurd (h refl)
limit_positive (some (suc n)) h = (min n 99, omega arith)

page_bound :
    (limit before : Option ℕ) (all : List Message)
    → (length (page_of message_time before (limit_of 50 100 limit) all) ≤ 100)
      ⊎ ((limit ≡ some 0)
          × (page_of message_time before (limit_of 50 100 limit) all
              ≡ keep (is_before message_time before) all))
page_bound none before all =
    inl (omega (arith, length-take-le (keep (is_before message_time before) all) 50))
page_bound (some zero) before all = inr (refl, refl)
page_bound (some (suc n)) before all =
    let e : limit_of 50 100 (some (suc n)) ≡ suc (min n 99) = omega arith in
    inl (
      subst (λ k. length (limited k (keep (is_before message_time before) all)) ≤ 100) (sym e)
        (omega (arith, length-take-le (keep (is_before message_time before) all) (suc (min n 99)))))

module _ (M : Mongo) (R : Rest M) where
  -- The database answers the queries of the route.
  pub record IsUp (user_id conversation_id : String) (db : M.Db) : Type 0 where
    pub conversation : Conversation
    pub participates :
        M.find_conversation (M.object_id conversation_id) (M.object_id user_id ∷ []) db
        ≡ got (some conversation)
    pub finds :
        (before : Option ℕ) (limit : ℕ)
        → (ms : List Message) × (R.find_messages (M.object_id conversation_id) before limit db
            ≡ got ms)

  -- No two messages of the conversation have the same time.
  abbrev pub HasDistinctTimes : (conversation_id : String) → M.Db → Type 0
  HasDistinctTimes id db =
      (t : ℕ)
      → length (keep (λ m. message_time m == t) (keep (in_conversation id) (M.messages db))) ≤ 1

  get_messages-page :
      (user_id conversation_id : String) (limit before : Option ℕ) (db : M.Db)
      → IsUp user_id conversation_id db
      → served (get_messages M R user_id conversation_id limit before db)
        ≡ some (
          page_of message_time before
              (limit_of 50 100 limit)
              (R.newest_messages (M.object_id conversation_id) db),
          next_cursor message_time (limit_of 50 100 limit) (
              page_of message_time before
                (limit_of 50 100 limit)
                (R.newest_messages (M.object_id conversation_id) db)),
        )
  unfolding get_messages
  get_messages-page u id limit before db up =
      let same =
        first-id (M.object_id id) (M.object_id u ∷ []) (M.conversations db) up.conversation
          (sym (M.find_conversation_lem _ _ _ _ up.participates)) in
      let (ms, found) = up.finds before (limit_of 50 100 limit) in
      ap (λ a. served (on_found M R limit before db a)) up.participates
      ∙ (rw (same, found)
          (ap (λ xs. some (xs, next_cursor message_time (limit_of 50 100 limit) xs))
            (R.find_messages_lem (M.object_id id) before (limit_of 50 100 limit) db ms found)))

  -- Where the database answers, a participant who asks with any limit but 0, and follows the cursors,
  -- gets all messages of the conversation, newest first and each once, if no two of them have the
  -- same time. One request more than there are messages is enough.
  pub follow-get_messages :
      (user_id conversation_id : String) (limit : Option ℕ) (db : M.Db)
      → IsUp user_id conversation_id db
      → HasDistinctTimes (M.object_id conversation_id) db
      → limit ≢ some 0
      → follow
          (length (R.newest_messages (M.object_id conversation_id) db) + 1)
          (λ before. served (get_messages M R user_id conversation_id limit before db))
          none
        ≡ some (R.newest_messages (M.object_id conversation_id) db)
  follow-get_messages u id limit db up distinct some_limit =
      let (n, e) = limit_positive limit some_limit in
      follow-all message_time n (R.newest_messages (M.object_id id) db)
        (λ before. served (get_messages M R u id limit before db))
        (λ before.
          get_messages-page u id limit before db up
          ∙ ap
              (λ k. some (
                page_of message_time before k (R.newest_messages (M.object_id id) db),
                next_cursor message_time k
                    (page_of message_time before k (R.newest_messages (M.object_id id) db)),
              ))
              e)
        (length (R.newest_messages (M.object_id id) db) + 1) (omega arith)
        (descending-IsStrict message_time (R.newest_messages (M.object_id id) db)
          (R.messages_descending (M.object_id id) db)
          (λ t.
            omega
              (arith, R.messages_count (M.object_id id) db (λ m. message_time m == t), distinct t)))

  -- An answer with messages goes to a participant of the conversation only. The messages are those of
  -- the page that the query asks for, at most a hundred, unless the limit of the query is 0, with
  -- which they are all that are older than the cursor.
  pub get_messages-IsPage :
      (user_id conversation_id : String) (limit before : Option ℕ) (db : M.Db) (ms : List Message)
      (cursor : Option ℕ)
      → get_messages M R user_id conversation_id limit before db ≡ page ms cursor
      → ((c : Conversation) × (first
              (holds_members (M.object_id conversation_id) (M.object_id user_id ∷ []))
              (M.conversations db)
            ≡ some c))
        × (ms
            ≡ page_of message_time before
                (limit_of 50 100 limit)
                (R.newest_messages (M.object_id conversation_id) db))
        × ((length ms ≤ 100)
            ⊎ ((limit ≡ some 0)
                × (ms
                    ≡ keep
                        (is_before message_time before)
                        (R.newest_messages (M.object_id conversation_id) db))))
  unfolding get_messages
  get_messages-IsPage u id limit before db ms cursor done =
      elim (Answer-cases (M.find_conversation (M.object_id id) (M.object_id u ∷ []) db)) [
        | inl down ↦ absurd (ground arith)
        | inr (none, e) ↦ absurd (ground arith)
        | inr (some c, e) ↦
            let found = M.find_conversation_lem _ _ _ _ e in
            let same =
              first-id (M.object_id id) (M.object_id u ∷ []) (M.conversations db) c (sym found) in
            elim (Answer-cases (R.find_messages c.id before (limit_of 50 100 limit) db)) [
              | inl down ↦ absurd (ground arith)
              | inr (xs, f) ↦
                  let given : xs ≡ ms = ground arith in
                  let asked =
                    sym given
                    ∙ R.find_messages_lem c.id before (limit_of 50 100 limit) db xs f
                    ∙ ap
                        (λ i.
                          page_of message_time before (limit_of 50 100 limit)
                            (R.newest_messages i db))
                        same in
                  (
                    (c, sym found),
                    asked,
                    subst
                        (λ ys.
                          (length ys ≤ 100)
                          ⊎ ((limit ≡ some 0)
                              × (ys
                                  ≡ keep (is_before message_time before)
                                      (R.newest_messages (M.object_id id) db))))
                        (sym asked)
                        (page_bound limit before (R.newest_messages (M.object_id id) db)),
                  )
            ]
      ]
