-- ===== src/Client/ChatStore/Confirmation.antt =====
-- The messages of a conversation: the confirmation of an optimistic message, and status updates.
use pm_chat.Base.{
  ◌≡◌, ◌≢◌, refl, inl, inr, String, Bool, true, false, some, List, [], ◌∷◌, ◌++◌, map, arith,
  eq_iff, eq_refl, ◌===◌, ◌||◌, ◌&&◌, if◌then◌else◌, is_text, All, Bool-cases, ap, ◌∙◌, sym,
}
use pm_chat.Dict
use pm_chat.Client.ChatStore.{
  LocalMessage, ChatState, messages_of, add_message, confirm, replace_optimistic_message, Status,
  delivered, read, with_status, update_message_status,
}

pub messages_of-set :
    (id c : String) (ms : List LocalMessage) (s : ChatState)
    → messages_of c (record s { messages = Dict.set id ms s.messages })
      ≡ (if id === c then ms else messages_of c s)
messages_of-set id c ms s = ground (arith, Dict.get-set id c ms s.messages)

pub messages_of-set_self :
    (id : String) (ms : List LocalMessage) (s : ChatState)
    → messages_of id (record s { messages = Dict.set id ms s.messages }) ≡ ms
messages_of-set_self id ms s = ground (arith, eq_refl id, messages_of-set id id ms s)

-- The message is not the one that waits under the local identifier.
abbrev pub IsOther : (local_id : String) → LocalMessage → Type 0
IsOther local_id m = is_text m.local_id local_id ≡ false

map-confirm :
    (l : String) (real : LocalMessage) (ms : List LocalMessage)
    → All (IsOther l) ms
    → map (confirm l real) ms ≡ ms
map-confirm l real [] h = refl
map-confirm l real (m ∷ ms) (o, h) = ground (arith, o, map-confirm l real ms h)

map-append :
    (f : LocalMessage → LocalMessage) (xs ys : List LocalMessage)
    → map f (xs ++ ys) ≡ map f xs ++ map f ys
map-append f [] ys = refl
map-append f (x ∷ xs) ys = ap (λ zs. f x ∷ zs) (map-append f xs ys)

snoc-append :
    (xs : List LocalMessage) (y : LocalMessage) (ys : List LocalMessage)
    → (xs ++ y ∷ []) ++ ys ≡ xs ++ y ∷ ys
snoc-append [] y ys = refl
snoc-append (x ∷ xs) y ys = ap (λ zs. x ∷ zs) (snoc-append xs y ys)

confirmed :
    (l : String) (real waiting : LocalMessage) (later : List LocalMessage)
    → waiting.local_id ≡ some l
    → All (IsOther l) later
    → map (confirm l real) (waiting ∷ later) ≡ real ∷ later
confirmed l real waiting later w h = ground (arith, w, eq_refl l, map-confirm l real later h)

-- An optimistic message that is added under a local identifier that no message of its conversation
-- has, followed by messages that do not have it either, is replaced by the message of the server in
-- its place: the others stay, in their order, and other conversations are as they were.
replace_optimistic_message-place :
    (id c local_id : String) (waiting real : LocalMessage) (later : List LocalMessage)
    (s t : ChatState)
    → waiting.local_id ≡ some local_id
    → All (IsOther local_id) (messages_of id s)
    → All (IsOther local_id) later
    → messages_of id t ≡ messages_of id (add_message id waiting s) ++ later
    → (let after = replace_optimistic_message id local_id real t in
        (messages_of id after ≡ messages_of id s ++ real ∷ later)
        × (id ≢ c → messages_of c after ≡ messages_of c t))
unfolding replace_optimistic_message add_message
replace_optimistic_message-place id c l waiting real later s t w before after e = (
  messages_of-set_self id _ t
      ∙ ap (map (confirm l real)) (
          e
          ∙ ap (λ ms. ms ++ later) (messages_of-set_self id _ s)
          ∙ snoc-append (messages_of id s) waiting later)
      ∙ map-append (confirm l real) (messages_of id s) (waiting ∷ later)
      ∙ ap (λ ms. ms ++ map (confirm l real) (waiting ∷ later))
          (map-confirm l real (messages_of id s) before)
      ∙ ap (λ ms. messages_of id s ++ ms) (confirmed l real waiting later w after),
  λ other.
      ground (arith, eq_iff id c, messages_of-set id c (map (confirm l real) (messages_of id t)) t),
)

-- Status updates of one conversation, in turn.
unfoldable pub update_all :
    (conversation_id : String) → List (String × Status) → ChatState → ChatState
update_all id [] s = s
update_all id ((message_id, status) ∷ us) s =
    update_all id us (update_message_status id message_id status s)

abbrev same_status : Status → Status → Bool
same_status delivered delivered = true
same_status read read = true
same_status _ _ = false

-- The message was given the status by one of the updates.
unfoldable pub was_given : (message_id : String) → Status → List (String × Status) → Bool
was_given message_id status [] = false
was_given message_id status ((i, st) ∷ us) =
    (message_id === i && same_status st status) || was_given message_id status us

-- The message with every status that it was given.
abbrev pub updated : List (String × Status) → LocalMessage → LocalMessage
updated us m = record m {
  delivered = was_given m.id delivered us || m.delivered;
  read = was_given m.id read us || m.read;
}

updated-with_status :
    (i : String) (status : Status) (us : List (String × Status)) (m : LocalMessage)
    → updated us (with_status i status m) ≡ updated ((i, status) ∷ us) m
unfolding was_given
updated-with_status i delivered us m = elim (Bool-cases (m.id === i)) [
  | inl same ↦ ground arith
  | inr other ↦ ground arith
]
updated-with_status i read us m = elim (Bool-cases (m.id === i)) [
  | inl same ↦ ground arith
  | inr other ↦ ground arith
]

map-updated :
    (i : String) (status : Status) (us : List (String × Status)) (ms : List LocalMessage)
    → map (updated us) (map (with_status i status) ms) ≡ map (updated ((i, status) ∷ us)) ms
map-updated i status us [] = refl
map-updated i status us (m ∷ ms) =
    ap (λ n. n ∷ map (updated us) (map (with_status i status) ms))
      (updated-with_status i status us m)
    ∙ ap (λ ns. updated ((i, status) ∷ us) m ∷ ns) (map-updated i status us ms)

map-updated_none : (ms : List LocalMessage) → map (updated []) ms ≡ ms
unfolding was_given
map-updated_none [] = refl
map-updated_none (m ∷ ms) = ap (λ ns. m ∷ ns) (map-updated_none ms)

-- After any run of status updates of a conversation, in any order and with repetitions, each of
-- its messages is marked as delivered exactly if it was before or an update said so, and as read
-- likewise; nothing else of it changes, and no message comes or goes.
update_all-updated :
    (id : String) (us : List (String × Status)) (s : ChatState)
    → messages_of id (update_all id us s) ≡ map (updated us) (messages_of id s)
unfolding update_all update_message_status
update_all-updated id [] s = sym (map-updated_none (messages_of id s))
update_all-updated id ((i, status) ∷ us) s =
    update_all-updated id us (update_message_status id i status s)
    ∙ ap (map (updated us)) (messages_of-set_self id _ s)
    ∙ map-updated i status us (messages_of id s)
