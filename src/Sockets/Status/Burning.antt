-- ===== src/Sockets/Status/Burning.antt =====
-- Messages that burn after reading.
use pm_chat.Base.{
  ℕ, ◌+◌, ◌≤◌, ◌≡◌, refl, String, Bool, true, false, not, ◌&&◌, ◌||◌, none, some, List, [], ◌∷◌,
  ◌++◌, map, arith, eq_iff, ◌===◌, if◌then◌else◌, leb, keep, any, any-append, Option-cases,
  Bool-cases, inl, inr, ap, sym, subst,
}
use pm_chat.Models.{Message}
use pm_chat.Schema.{Input}
use pm_chat.Services.{Answer-cases, got}
use pm_chat.Services.Redis.{Redis}
use pm_chat.Services.Mongo.{Mongo, is_message, mark, first}
use pm_chat.Sockets.Events.{Client, World, emit, BurnTimer, ok, room, conv_room, message_status}
use pm_chat.Sockets.Status.{
  StatusPayload, parse_status, grace_period_ms, message_read, burn_due, fire_timers,
}

abbrev pub has_id : (id : String) → Message → Bool
has_id id m = m.id === id

any-keep-not :
    (id other : String) (ms : List Message)
    → any (has_id id) (keep (λ m. not (m.id === other)) ms)
      ≡ (not (other === id) && any (has_id id) ms)
unfolding any keep
any-keep-not id other [] = ground arith
any-keep-not id other (m ∷ ms) =
    ground (arith, eq_iff m.id other, eq_iff m.id id, eq_iff other id, any-keep-not id other ms)

module _ (M : Mongo) where
  -- A deletion does not fail.
  abbrev pub Deletes : Type 0
  Deletes = (id : String) (db : M.Db) → (db' : M.Db) × (M.delete_message id db ≡ got db')

  burn_due_gone :
      Deletes
      → (id : String) (now : ℕ) (ts : List BurnTimer) (db : M.Db)
      → any (has_id id) (M.messages db) ≡ false
      → any (has_id id) (M.messages (burn_due M now ts db)) ≡ false
  unfolding burn_due
  burn_due_gone deletes id now [] db gone = gone
  burn_due_gone deletes id now (t ∷ ts) db gone = elim (Bool-cases (leb t.due now)) [
    | inl due ↦
        let (db', e) = deletes t.message_id db in
        let left = M.delete_message_lem t.message_id db db' e in
        rw due (
          rw e (
            burn_due_gone deletes id now ts db'
              (rw left (rw (any-keep-not id t.message_id (M.messages db)) (ground arith)))))
    | inr early ↦ rw early (burn_due_gone deletes id now ts db gone)
  ]

  burn_due_burns :
      Deletes
      → (id : String) (now : ℕ) (ts : List BurnTimer) (db : M.Db)
      → any (λ t. t.message_id === id && leb t.due now) ts ≡ true
      → any (has_id id) (M.messages (burn_due M now ts db)) ≡ false
  unfolding burn_due any
  burn_due_burns deletes id now [] db h = absurd (ground arith)
  burn_due_burns deletes id now (t ∷ ts) db h = elim (Bool-cases (leb t.due now)) [
    | inl due ↦
        let (db', e) = deletes t.message_id db in
        let left = M.delete_message_lem t.message_id db db' e in
        elim (Bool-cases (t.message_id === id)) [
          | inl mine ↦ rw due (
              rw e (
                burn_due_gone deletes id now ts db'
                  (rw left (rw (any-keep-not id t.message_id (M.messages db)) (ground arith)))))
          | inr foreign ↦ rw due (rw e (burn_due_burns deletes id now ts db' (ground arith)))
        ]
    | inr early ↦ rw early (burn_due_burns deletes id now ts db (ground arith))
  ]

any-due :
    (id named : String) (later due : ℕ) (before : Bool)
    → named ≡ id
    → due ≤ later
    → (before
        || any
            (λ (t : BurnTimer). t.message_id === id && leb t.due later)
            (record { message_id = named; due = due } ∷ []))
      ≡ true
unfolding any
any-due id named later due before same late = ground (arith, eq_iff named id)

first-holds {ℓ} :
    {A : Type ℓ} (p : A → Bool) (xs : List A) (x : A) → first p xs ≡ some x → p x ≡ true
first-holds p [] x h = absurd (ground arith)
first-holds p (y ∷ xs) x h = elim (Bool-cases (p y)) [
  | inl yes_y ↦ let e : y ≡ x = ground arith in rw (← e) yes_y
  | inr no_y ↦ first-holds p xs x (ground arith)
]

module _ (R : Redis) (M : Mongo) (client : Client) where
  -- What an accepted message:read rests on, and what it has left.
  pub record IsRead (p : StatusPayload) (now : ℕ) (w w' : World R M) : Type 0 where
    pub message : Message
    pub found :
        first
          (is_message (M.object_id p.message_id) (M.object_id p.conversation_id))
          (M.messages w'.mongo)
        ≡ some message
    pub updated :
        M.messages w'.mongo
        ≡ map
            (mark (M.object_id p.message_id) (M.object_id p.conversation_id) true)
            (M.messages w.mongo)
    pub announced :
        w'.emitted
        ≡ w.emitted
          ++ record {
            target = room (conv_room p.conversation_id);
            event = message_status p.message_id p.conversation_id "read";
          }
            ∷ []
    pub scheduled : w'.burn_timers ≡ (
        if message.burn_after_reading
        then w.burn_timers
          ++ record { message_id = M.object_id p.message_id; due = now + grace_period_ms } ∷ []
        else w.burn_timers)

  -- An accepted message:read comes from a valid payload whose message is in the conversation that
  -- it names; it marks that message, tells the conversation's room once, and sets a timer for the
  -- message exactly if it burns after reading.
  message_read-ok :
      (input : Input) (now : ℕ) (w : World R M)
      → (message_read R M client input now w).1 ≡ ok
      → (p : StatusPayload) × (parse_status input ≡ some p)
        × IsRead p now w (message_read R M client input now w).0
  unfolding message_read emit
  message_read-ok input now w h = elim (Option-cases (parse_status input)) [
    | inl bad ↦ absurd (ground arith)
    | inr (p, parsed) ↦
        elim (Answer-cases (
          M.mark_message (M.object_id p.message_id) (M.object_id p.conversation_id) true w.mongo)) [
            | inl e ↦ absurd (ground arith)
            | inr ((db, none), e) ↦ absurd (ground arith)
            | inr ((db, some m), e) ↦
                let laws = M.mark_message_lem _ _ _ _ _ _ e in
                let same : m.id ≡ M.object_id p.message_id = ground (
                  arith,
                  first-holds
                      (is_message (M.object_id p.message_id) (M.object_id p.conversation_id))
                      (M.messages db) m (sym laws.1),
                  eq_iff m.id (M.object_id p.message_id),
                ) in
                rw (parsed, message_read)
                  (rw e (
                    p,
                    refl,
                    record {
                      message = m;
                      found = sym laws.1;
                      updated = laws.0;
                      announced = refl;
                      scheduled = rw same;
                    },
                  ))
          ]
  ]

  -- A read message that burns is gone from the database three seconds later, once the timers that
  -- are due have fired, if deletions do not fail. The reader need not take part in the
  -- conversation: the statement is of any client who names the message and its conversation.
  pub message_read_burns :
      Deletes M
      → (input : Input) (now later : ℕ) (w : World R M) → (p : StatusPayload) (m : Message)
      → parse_status input ≡ some p
      → (message_read R M client input now w).1 ≡ ok
      → first
          (is_message (M.object_id p.message_id) (M.object_id p.conversation_id))
          (M.messages (message_read R M client input now w).0.mongo)
        ≡ some m
      → m.burn_after_reading ≡ true
      → now + grace_period_ms ≤ later
      → any
          (has_id (M.object_id p.message_id))
          (M.messages (fire_timers R M later (message_read R M client input now w).0).mongo)
        ≡ false
  unfolding fire_timers
  message_read_burns deletes input now later w p m parsed h there burns late =
      let (p', parsed', v) = message_read-ok input now w h in
      let same : p' ≡ p = ground arith in
      let found =
        subst
          (λ q.
            first (is_message (M.object_id q.message_id) (M.object_id q.conversation_id))
              (M.messages (message_read R M client input now w).0.mongo)
            ≡ some v.message)
          same v.found in
      let is_m : v.message ≡ m = ground arith in
      let burns' : v.message.burn_after_reading ≡ true = rw is_m burns in
      let timers = rw burns' at v.scheduled in
      burn_due_burns M deletes (M.object_id p.message_id) later _ _ (
        rw timers (
          rw any-append (
            any-due (M.object_id p.message_id) (M.object_id p'.message_id) later
              (now + grace_period_ms) _ (ap (λ q. M.object_id q.message_id) same) late)))
