-- ===== src/Client/ChatStore/Counts.antt =====
-- Unread counts, and who is online or typing, over any run of operations of the store.
use pm_chat.Base.{
  ℕ, ◌+◌, ◌≡◌, refl, String, Bool, true, false, List, [], ◌∷◌, arith, eq_iff, ◌===◌, if◌then◌else◌,
  ap, ◌∙◌,
}
use pm_chat.Dict
use pm_chat.NameSet
use pm_chat.Client.ChatStore.{
  Conversation, LocalMessage, Status, ChatState, initial, or_empty, unread_of, set_conversations,
  prepend_conversations, upsert_conversation, remove_conversation, set_messages, prepend_messages,
  add_message, replace_optimistic_message, update_message_status, update_message_plaintext,
  remove_message, set_typing, set_online, mark_read, increment_unread,
}

pub data Operation : Type 0 where
  sets_conversations prepends_conversations : List Conversation → Operation
  upserts_conversation : Conversation → Operation
  removes_conversation : (id : String) → Operation
  sets_messages prepends_messages : (conversation_id : String) → List LocalMessage → Operation
  adds_message : (conversation_id : String) → LocalMessage → Operation
  replaces_message : (conversation_id local_id : String) → LocalMessage → Operation
  updates_status : (conversation_id message_id : String) → Status → Operation
  updates_plaintext : (conversation_id message_id plaintext : String) → Operation
  removes_message : (conversation_id message_id : String) → Operation
  sets_typing : (conversation_id user_id : String) → Bool → Operation
  sets_online : (user_id : String) → Bool → Operation
  marks_read increments_unread : (conversation_id : String) → Operation

unfoldable pub step : ChatState → Operation → ChatState
step s (sets_conversations convs) = set_conversations convs s
step s (prepends_conversations convs) = prepend_conversations convs s
step s (upserts_conversation conv) = upsert_conversation conv s
step s (removes_conversation id) = remove_conversation id s
step s (sets_messages id ms) = set_messages id ms s
step s (prepends_messages id ms) = prepend_messages id ms s
step s (adds_message id m) = add_message id m s
step s (replaces_message id local_id real) = replace_optimistic_message id local_id real s
step s (updates_status id message_id status) = update_message_status id message_id status s
step s (updates_plaintext id message_id plaintext) =
    update_message_plaintext id message_id plaintext s
step s (removes_message id message_id) = remove_message id message_id s
step s (sets_typing id user_id is_typing) = set_typing id user_id is_typing s
step s (sets_online user_id online) = set_online user_id online s
step s (marks_read id) = mark_read id s
step s (increments_unread id) = increment_unread id s

unfoldable pub run : ChatState → List Operation → ChatState
run s [] = s
run s (o ∷ os) = run (step s o) os

abbrev unread_step : (conversation_id : String) (n : ℕ) → Operation → ℕ
unread_step id n (marks_read other) = if other === id then 0 else n
unread_step id n (increments_unread other) = if other === id then n + 1 else n
unread_step id n _ = n

-- The increments of a conversation since it was last marked as read, after `n` before the run.
unfoldable pub unread_since : (conversation_id : String) (n : ℕ) → List Operation → ℕ
unread_since id n [] = n
unread_since id n (o ∷ os) = unread_since id (unread_step id n o) os

abbrev online_step : (user_id : String) (before : Bool) → Operation → Bool
online_step user_id before (sets_online other online) = if other === user_id then online else before
online_step user_id before _ = before

-- What the last operation on a user's presence said, or `before` if there was none.
unfoldable pub last_online : (user_id : String) (before : Bool) → List Operation → Bool
last_online user_id before [] = before
last_online user_id before (o ∷ os) = last_online user_id (online_step user_id before o) os

abbrev typing_step : (conversation_id user_id : String) (before : Bool) → Operation → Bool
typing_step id user_id before (sets_typing c u is_typing) =
    if c === id then (if u === user_id then is_typing else before) else before
typing_step id user_id before _ = before

-- The same for a user who types in a conversation.
unfoldable pub last_typing :
    (conversation_id user_id : String) (before : Bool) → List Operation → Bool
last_typing id user_id before [] = before
last_typing id user_id before (o ∷ os) = last_typing id user_id (typing_step id user_id before o) os

abbrev pub is_online : (user_id : String) → ChatState → Bool
is_online user_id s = NameSet.has user_id s.online_users

abbrev pub is_typing_in : (conversation_id user_id : String) → ChatState → Bool
is_typing_in id user_id s = NameSet.has user_id (or_empty (Dict.get id s.typing_users))

has-toggled :
    (u v : String) (present : Bool) (s : NameSet.NameSet)
    → NameSet.has v (if present then NameSet.add u s else NameSet.remove u s)
      ≡ (if u === v then present else NameSet.has v s)
has-toggled u v true s = ground (arith, NameSet.has-add u v s)
has-toggled u v false s = NameSet.has-remove u v s

abbrev Steps : (conversation_id user_id : String) → ChatState → Operation → Type 0
Steps id u s o =
    (unread_of id (step s o) ≡ unread_step id (unread_of id s) o)
    × (is_online u (step s o) ≡ online_step u (is_online u s) o)
    × (is_typing_in id u (step s o) ≡ typing_step id u (is_typing_in id u s) o)

step-Steps : (id u : String) (s : ChatState) (o : Operation) → Steps id u s o
unfolding step set_conversations prepend_conversations upsert_conversation remove_conversation
    set_messages prepend_messages add_message replace_optimistic_message update_message_status
    update_message_plaintext remove_message set_typing set_online mark_read increment_unread
step-Steps id u s (sets_conversations convs) = (refl, refl, refl)
step-Steps id u s (prepends_conversations convs) = (refl, refl, refl)
step-Steps id u s (upserts_conversation conv) = (refl, refl, refl)
step-Steps id u s (removes_conversation c) = (refl, refl, refl)
step-Steps id u s (sets_messages c ms) = (refl, refl, refl)
step-Steps id u s (prepends_messages c ms) = (refl, refl, refl)
step-Steps id u s (adds_message c m) = (refl, refl, refl)
step-Steps id u s (replaces_message c local_id real) = (refl, refl, refl)
step-Steps id u s (updates_status c message_id status) = (refl, refl, refl)
step-Steps id u s (updates_plaintext c message_id plaintext) = (refl, refl, refl)
step-Steps id u s (removes_message c message_id) = (refl, refl, refl)
step-Steps id u s (sets_typing c v is_typing) = (
  refl,
  refl,
  ground (
    arith,
    eq_iff c id,
    Dict.get-set c id
        (if is_typing
          then NameSet.add v (or_empty (Dict.get c s.typing_users))
          else NameSet.remove v (or_empty (Dict.get c s.typing_users)))
        s.typing_users,
    has-toggled v u is_typing (or_empty (Dict.get c s.typing_users)),
  ),
)
step-Steps id u s (sets_online v online) = (refl, has-toggled v u online s.online_users, refl)
step-Steps id u s (marks_read c) = (ground (arith, Dict.get-set c id 0 s.unread_counts), refl, refl)
step-Steps id u s (increments_unread c) =
    (ground (arith, eq_iff c id, Dict.get-set c id (unread_of c s + 1) s.unread_counts), refl, refl)

run_from :
    (id u : String) (os : List Operation) (s : ChatState)
    → (unread_of id (run s os) ≡ unread_since id (unread_of id s) os)
      × (is_online u (run s os) ≡ last_online u (is_online u s) os)
      × (is_typing_in id u (run s os) ≡ last_typing id u (is_typing_in id u s) os)
unfolding run unread_since last_online last_typing
run_from id u [] s = (refl, refl, refl)
run_from id u (o ∷ os) s =
    let (unread, online, typing) = run_from id u os (step s o) in
    let (unread', online', typing') = step-Steps id u s o in
    (
      unread ∙ ap (λ n. unread_since id n os) unread',
      online ∙ ap (λ b. last_online u b os) online',
      typing ∙ ap (λ b. last_typing id u b os) typing',
    )

-- After any run of operations of the store, a conversation's unread count is the number of its
-- increments since it was last marked as read, a user is online exactly if the last operation on
-- the user's presence said so, and types in a conversation exactly if the last operation on that
-- user in that conversation said so. No other operation interferes.
pub run-tallies :
    (id user_id : String) (os : List Operation)
    → (unread_of id (run initial os) ≡ unread_since id 0 os)
      × (is_online user_id (run initial os) ≡ last_online user_id false os)
      × (is_typing_in id user_id (run initial os) ≡ last_typing id user_id false os)
unfolding Dict.get NameSet.has
run-tallies id u os = run_from id u os initial
