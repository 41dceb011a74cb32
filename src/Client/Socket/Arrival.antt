-- ===== src/Client/Socket/Arrival.antt =====
-- What the events of the server leave in the client's state.
use pm_chat.Base.{
  ℕ, ◌+◌, ◌≡◌, refl, String, false, Option, none, some, List, [], ◌∷◌, ◌++◌, map, if◌then◌else◌,
  ◌===◌, arith, eq_iff, length, length-append, Bool-cases, ap, sym, ◌∙◌, inl, inr,
}
use mathlib.Core.List.{append-nil, append_assoc}
use pm_chat.Dict
use pm_chat.NameSet
use pm_chat.Sockets.Events.{
  Event, message_new, message_status, key_received, typing_indicator, user_presence,
}
use pm_chat.Client.ChatStore.{
  LocalMessage, ChatState, initial, or_zero, messages_of, unread_of, add_message, increment_unread,
  set_typing, set_online, Status, with_status, update_message_status,
}
use pm_chat.Client.ChatStore.Confirmation.{messages_of-set}
use pm_chat.Client.Socket.{receive, local_message, status_of, with_received_status}

-- The ids of the messages of the conversation that the events bring, in their order.
unfoldable pub arrived : (conversation_id : String) → List Event → List String
arrived c [] = []
arrived c (message_new id d sender payload iv url time expires burn ∷ es) =
    if d === c then id ∷ arrived c es else arrived c es
arrived c (_ ∷ es) = arrived c es

abbrev pub ids_of : (conversation_id : String) → ChatState → List String
ids_of c s = map (λ (m : LocalMessage). m.id) (messages_of c s)

with_status-ids :
    (id : String) (status : Status) (ms : List LocalMessage)
    → map (λ (m : LocalMessage). m.id) (map (with_status id status) ms)
      ≡ map (λ (m : LocalMessage). m.id) ms
with_status-ids id status [] = refl
with_status-ids id status (m ∷ ms) = ground (arith, with_status-ids id status ms)

ids-put :
    (d c : String) (ms : List LocalMessage) (s : ChatState)
    → ids_of c (record s { messages = Dict.set d ms s.messages })
      ≡ (if d === c then map (λ (m : LocalMessage). m.id) ms else ids_of c s)
ids-put d c ms s = elim (Bool-cases (d === c)) [
  | inl same ↦ rw (messages_of-set d c ms s, same) refl
  | inr other ↦ rw (messages_of-set d c ms s, other) refl
]

-- Putting back the messages with the same ids changes no ids.
ids-put_same :
    (d c : String) (ms : List LocalMessage) (s : ChatState)
    → map (λ (m : LocalMessage). m.id) ms ≡ ids_of d s
    → ids_of c (record s { messages = Dict.set d ms s.messages }) ≡ ids_of c s
ids-put_same d c ms s e = ids-put d c ms s ∙ (elim (Bool-cases (d === c)) [
  | inl same ↦
      ap (λ b. if b then map (λ (m : LocalMessage). m.id) ms else ids_of c s) same
      ∙ (e ∙ ap (λ x. ids_of x s) ((eq_iff d c).0 same))
  | inr other ↦ ap (λ b. if b then map (λ (m : LocalMessage). m.id) ms else ids_of c s) other
])

ids-append :
    (ms : List LocalMessage) (m : LocalMessage)
    → map (λ (m : LocalMessage). m.id) (ms ++ m ∷ [])
      ≡ map (λ (m : LocalMessage). m.id) ms ++ m.id ∷ []
ids-append [] m = refl
ids-append (x ∷ ms) m = ap (λ ids. x.id ∷ ids) (ids-append ms m)

-- The ids of a conversation after a message for a conversation.
ids-arrived :
    (d c : String) (m : LocalMessage) (s : ChatState)
    → ids_of c (record s { messages = Dict.set d (messages_of d s ++ m ∷ []) s.messages })
      ≡ ids_of c s ++ (if d === c then m.id ∷ [] else [])
ids-arrived d c m s = ids-put d c (messages_of d s ++ m ∷ []) s ∙ (elim (Bool-cases (d === c)) [
  | inl same ↦
      rw same
        (ids-append (messages_of d s) m ∙ ap (λ x. ids_of x s ++ m.id ∷ []) ((eq_iff d c).0 same))
  | inr other ↦ rw other (sym (append-nil (ids_of c s)))
])

arrived-cons :
    (c : String) (e : Event) (es : List Event)
    → arrived c (e ∷ es) ≡ arrived c (e ∷ []) ++ arrived c es
unfolding arrived
arrived-cons c (message_new id d sender payload iv url time expires burn) es = ground arith
arrived-cons c (message_status id d status) es = refl
arrived-cons c (key_received from d key) es = refl
arrived-cons c (typing_indicator d v is_typing) es = refl
arrived-cons c (user_presence v status) es = refl

module _ (show : ℕ → String) where
  unfoldable pub run : List Event → ChatState → ChatState
  run [] s = s
  run (e ∷ es) s = run es (receive show e s)

  -- What one event does to the messages and the unread count of a conversation, and to who is online.
  record Steps (c u : String) (e : Event) (s s' : ChatState) : Type 0 where
    ids : ids_of c s' ≡ ids_of c s ++ arrived c (e ∷ [])
    unread : unread_of c s' ≡ unread_of c s + length (arrived c (e ∷ []))
    offline : NameSet.has u s.online_users ≡ false → NameSet.has u s'.online_users ≡ false

  status-ids :
      (d c id : String) (o : Option Status) (s : ChatState)
      → ids_of c (with_received_status d id o s) ≡ ids_of c s
  unfolding update_message_status
  status-ids d c id none s = ids-put_same d c (messages_of d s) s refl
  status-ids d c id (some status) s =
      ids-put_same d c _ s (with_status-ids id status (messages_of d s))

  status-kept :
      (d id : String) (o : Option Status) (s : ChatState)
      → ((with_received_status d id o s).unread_counts ≡ s.unread_counts)
        × ((with_received_status d id o s).online_users ≡ s.online_users)
  unfolding update_message_status
  status-kept d id none s = (refl, refl)
  status-kept d id (some status) s = (refl, refl)

  receive-Steps : (c u : String) (e : Event) (s : ChatState) → Steps c u e s (receive show e s)
  unfolding receive arrived add_message increment_unread set_typing set_online update_message_status
  receive-Steps c u (message_new id d sender payload iv url time expires burn) s = record {
    ids = ids-arrived d c (local_message show id d sender payload iv time expires burn) s;
    unread = ground (arith, Dict.get-set d c (unread_of d s + 1) s.unread_counts, eq_iff d c);
    offline = λ h. h;
  }
  receive-Steps c u (message_status id d status) s = record {
    ids = status-ids d c id (status_of status) s ∙ sym (append-nil (ids_of c s));
    unread =
        omega (arith, ap (λ x. or_zero (Dict.get c x)) (status-kept d id (status_of status) s).0);
    offline = λ h. (ap (NameSet.has u) (status-kept d id (status_of status) s).1 ∙ h);
  }
  receive-Steps c u (key_received from d key) s = record {
    ids = sym (append-nil (ids_of c s));
    unread = omega arith;
    offline = λ h. h;
  }
  receive-Steps c u (typing_indicator d v is_typing) s = record {
    ids = sym (append-nil (ids_of c s));
    unread = omega arith;
    offline = λ h. h;
  }
  receive-Steps c u (user_presence v status) s = record {
    ids = sym (append-nil (ids_of c s));
    unread = omega arith;
    offline = λ h. (NameSet.has-remove v u s.online_users ∙ (ground (arith, h)));
  }

  run-from :
      (c u : String) (es : List Event) (s : ChatState)
      → NameSet.has u s.online_users ≡ false
      → (ids_of c (run es s) ≡ ids_of c s ++ arrived c es)
        × (unread_of c (run es s) ≡ unread_of c s + length (arrived c es))
        × (NameSet.has u (run es s).online_users ≡ false)
  unfolding run arrived
  run-from c u [] s h = (sym (append-nil (ids_of c s)), omega arith, h)
  run-from c u (e ∷ es) s h =
      let now = receive-Steps c u e s in
      let (ids, unread, off) = run-from c u es (receive show e s) (now.offline h) in
      (
        ids
            ∙ (ap (λ xs. xs ++ arrived c es) now.ids
                ∙ (append_assoc (ids_of c s) (arrived c (e ∷ [])) (arrived c es)
                    ∙ ap (λ xs. ids_of c s ++ xs) (sym (arrived-cons c e es)))),
        omega (
          arith,
          unread,
          now.unread,
          ap length (arrived-cons c e es),
          length-append (arrived c (e ∷ [])) (arrived c es),
        ),
        off,
      )

  -- Whatever events of the server the client has received since it started, and until the user does
  -- anything: the messages of a conversation are those that the events brought, in their order; each
  -- of them counts as unread, so also those that the user sent; and no user is shown as online,
  -- whatever the server said of them.
  pub run-views :
      (conversation_id user_id : String) (es : List Event)
      → (ids_of conversation_id (run es initial) ≡ arrived conversation_id es)
        × (unread_of conversation_id (run es initial) ≡ length (arrived conversation_id es))
        × (NameSet.has user_id (run es initial).online_users ≡ false)
  unfolding NameSet.has Dict.get
  run-views c u es =
      let (ids, unread, off) = run-from c u es initial refl in (ids, omega (arith, unread), off)
