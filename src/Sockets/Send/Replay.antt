-- ===== src/Sockets/Send/Replay.antt =====
-- The replay protection of message:send, with any number of handlers that interleave.
use pm_chat.Base.{
  ℕ, ◌+◌, ◌*◌, ◌≤◌, ◌<◌, ◌≡◌, ◌≢◌, refl, ◌⊎◌, inl, inr, String, true, false, none, some, List, [],
  ◌∷◌, arith, length, length-append, get_elem?, set, total, total-set, All, All-set, get_elem?-All,
  Option-cases, ap, subst, sym,
}
use pm_chat.Models.{Message, Conversation}
use pm_chat.Services.{Answer-cases, got}
use pm_chat.Services.Redis.{Redis}
use pm_chat.Services.Mongo.{Mongo}
use pm_chat.Sockets.Events.{Client, World, emit, ok}
use pm_chat.Sockets.Send.{
  SendPayload, Progress, claiming, joining, creating, updating, done, message_nonce, nonce_ttl,
  new_message, claim, join, create, update, advance,
}

-- A handler at work: whose it is, and where it stands.
pub record Handler : Type 0 where
  pub client : Client
  pub progress : Progress

-- A turn lets one handler run to its next await, at a reading of the clock.
pub record Turn : Type 0 where
  pub handler : ℕ
  pub now : ℕ

-- The turn falls into the life of a nonce that is claimed at `start`.
abbrev pub IsDuring : (start : ℕ) → Turn → Type 0
IsDuring start t = (start ≤ t.now) × (t.now < start + nonce_ttl * 1000)

module _ (R : Redis) (M : Mongo) where
  pub record System : Type 0 where
    pub handlers : List Handler
    pub world : World R M

  unfoldable pub turn : Turn → System → System
  turn t s = elim (get_elem? s.handlers t.handler) [
    | none ↦ s
    | some h ↦
        let (w, progress) = advance R M h.client h.progress t.now s.world in
        record { handlers = set s.handlers t.handler (record h { progress = progress }); world = w }
  ]

  unfoldable pub turns : List Turn → System → System
  turns [] s = s
  turns (t ∷ ts) s = turns ts (turn t s)

  abbrev pub IsStartingAt : (nonce : String) → Progress → Type 0
  IsStartingAt nonce (claiming p) = p.nonce ≡ nonce
  IsStartingAt nonce (done ack) = Unit
  IsStartingAt nonce _ = ⊥

  -- The handler is about to claim the nonce, or has ended.
  abbrev pub IsStarting : (nonce : String) → Handler → Type 0
  IsStarting nonce h = IsStartingAt nonce h.progress

  -- The messages that a handler may still add.
  abbrev credit_at : Progress → ℕ
  credit_at (joining p) = 1
  credit_at (creating p c) = 1
  credit_at _ = 0

  abbrev credit : Handler → ℕ
  credit h = credit_at h.progress

  -- A handler that has not claimed its nonce yet is about to claim this one.
  abbrev UsesAt : (nonce : String) → Progress → Type 0
  UsesAt nonce (claiming p) = p.nonce ≡ nonce
  UsesAt nonce _ = Unit

  abbrev Uses : (nonce : String) → Handler → Type 0
  Uses nonce h = UsesAt nonce h.progress

  module _ (nonce : String) (start before : ℕ) where
    abbrev IsTaken : (key : String) → R.Db → Type 0
    IsTaken key db = (t : ℕ) → t < start + nonce_ttl * 1000 → start ≤ t → R.at db key t ≢ none

    -- Either the nonce is taken, and at most one message is added or can be, or none is.
    abbrev Balance : (credits : ℕ) → R.Db → M.Db → Type 0
    Balance credits db m =
        (IsTaken (message_nonce nonce) db × (length (M.messages m) + credits ≤ before + 1))
        ⊎ ((credits ≡ 0) × (length (M.messages m) ≤ before))

    abbrev Balanced : (credits : ℕ) → World R M → Type 0
    Balanced credits w = Balance credits w.redis w.mongo

    -- What a stretch of a handler leaves, beside the credits of the others.
    abbrev Keeps : (others : ℕ) → World R M × Progress → Type 0
    Keeps k (w, s) = Balanced (credit_at s + k) w × UsesAt nonce s

    recount : {a b : ℕ} (db : R.Db) (m : M.Db) → a ≡ b → Balance a db m → Balance b db m
    recount db m e b = subst (λ n. Balance n db m) e b

    claim_fresh :
        (key : String) (now k : ℕ) (db db' : R.Db) (m : M.Db)
        → key ≡ message_nonce nonce
        → start ≤ now
        → now < start + nonce_ttl * 1000
        → R.set_nx key "1" nonce_ttl now db ≡ got (db', true)
        → Balance k db m
        → Balance (1 + k) db' m
    claim_fresh key now k db db' m same lo hi e (inl (taken, h)) =
        absurd (
          taken now hi lo
            (subst (λ j. R.at db j now ≡ none) same (R.set_nx_stored _ _ _ _ _ _ e).0))
    claim_fresh key now k db db' m same lo hi e (inr (z, h)) =
        let lives = (R.set_nx_stored _ _ _ _ _ _ e).1 in
        inl (
          λ t before_end after_start gone.
              let there = lives t (omega arith) in
              let there' = subst (λ j. R.at db' j t ≡ some "1") same there in cc,
          omega arith,
        )

    claim_balance :
        (client : Client) (p : SendPayload) (now k : ℕ) (w : World R M)
        → p.nonce ≡ nonce
        → start ≤ now
        → now < start + nonce_ttl * 1000
        → Balanced k w
        → Keeps k (claim R M client p now w)
    unfolding claim
    claim_balance client p now k w same lo hi b =
        elim (Answer-cases (R.set_nx (message_nonce p.nonce) "1" nonce_ttl now w.redis)) [
          | inl e ↦ rw (e, claim) (recount w.redis w.mongo (omega arith) b, tt)
          | inr ((db, true), e) ↦
              rw (e, claim)
                (claim_fresh _ now k w.redis db w.mongo (ap message_nonce same) lo hi e b, tt)
          | inr ((db, false), e) ↦
              let unchanged = (R.set_nx_refused _ _ _ _ _ _ e).0 in
              rw (e, claim)
                (
                  recount db w.mongo (omega arith)
                      (subst (λ r. Balance k r w.mongo) (sym unchanged) b),
                  tt,
                )
        ]

    join_balance :
        (client : Client) (p : SendPayload) (k : ℕ) (w : World R M)
        → Balanced (1 + k) w
        → Keeps k (join R M client p w)
    unfolding join
    join_balance client p k w b =
        elim (Answer-cases (
          M.find_conversation (M.object_id p.conversation_id) (M.object_id client.user_id ∷ [])
            w.mongo)) [
              | inl e ↦ rw (e, join) (spend w.redis w.mongo b, tt)
              | inr (none, e) ↦ rw (e, join) (spend w.redis w.mongo b, tt)
              | inr (some c, e) ↦ rw (e, join) (b, tt)
            ]
      where
        spend : (db : R.Db) (m : M.Db) → Balance (1 + k) db m → Balance (0 + k) db m
        spend db m (inl (taken, h)) = inl (taken, omega arith)
        spend db m (inr (z, h)) = absurd (omega arith)

    create_balance :
        (client : Client) (p : SendPayload) (c : Conversation) (now k : ℕ) (w : World R M)
        → Balanced (1 + k) w
        → Keeps k (create R M client p c now w)
    unfolding create
    create_balance client p c now k w (inl (taken, h)) =
        elim (Answer-cases (M.create_message (new_message M client p c now) now w.mongo)) [
          | inl e ↦ rw (e, create) (inl (taken, omega arith), tt)
          | inr ((db, m), e) ↦
              let added = (M.create_message_lem _ _ _ _ _ e).1 in
              rw (e, create)
                (
                  inl (
                    taken,
                    omega (arith, ap length added, length-append (M.messages w.mongo) (m ∷ [])),
                  ),
                  tt,
                )
        ]
    create_balance client p c now k w (inr (z, h)) = absurd (omega arith)

    update_balance :
        (client : Client) (p : SendPayload) (c : Conversation) (m : Message) (k : ℕ) (w : World R M)
        → Balanced k w
        → Keeps k (update R M client p c m w)
    unfolding update emit
    update_balance client p c m k w b =
        elim (Answer-cases (M.set_last_message_at c.id m.timestamp w.mongo)) [
          | inl e ↦ rw (e, update) (recount w.redis w.mongo (omega arith) b, tt)
          | inr (db, e) ↦
              let same = M.set_last_message_at_lem _ _ _ _ e in
              rw (e, update) (recount w.redis db (omega arith) (carry db same b), tt)
        ]
      where
        carry :
            (db : M.Db) → M.messages db ≡ M.messages w.mongo → Balanced k w → Balance k w.redis db
        carry db same (inl (taken, h)) = inl (taken, omega (arith, ap length same))
        carry db same (inr (z, h)) = inr (z, omega (arith, ap length same))

    advance_balance :
        (client : Client) (s : Progress) (now k : ℕ) (w : World R M)
        → UsesAt nonce s
        → start ≤ now
        → now < start + nonce_ttl * 1000
        → Balanced (credit_at s + k) w
        → Keeps k (advance R M client s now w)
    unfolding advance
    advance_balance client (claiming p) now k w same lo hi b =
        claim_balance client p now k w same lo hi (recount w.redis w.mongo (omega arith) b)
    advance_balance client (joining p) now k w _ lo hi b = join_balance client p k w b
    advance_balance client (creating p c) now k w _ lo hi b = create_balance client p c now k w b
    advance_balance client (updating p c m) now k w _ lo hi b =
        update_balance client p c m k w (recount w.redis w.mongo (omega arith) b)
    advance_balance client (done ack) now k w _ lo hi b = (b, tt)

    turn_keeps :
        (t : Turn) (s : System)
        → IsDuring start t
        → All (Uses nonce) s.handlers
        → Balanced (total credit s.handlers) s.world
        → All (Uses nonce) (turn t s).handlers
          × Balanced (total credit (turn t s).handlers) (turn t s).world
    unfolding turn
    turn_keeps t s (lo, hi) uses b = elim (Option-cases (get_elem? s.handlers t.handler)) [
      | inl idle ↦ rw (idle, turn) (uses, b)
      | inr (h, there) ↦
          let i = t.handler in
          let hs = s.handlers in
          let k = total credit (set hs i (record h { progress = done ok })) in
          let own = get_elem?-All (Uses nonce) hs i h uses there in
          let split : total credit hs ≡ credit h + k =
            omega (arith, total-set credit hs i h (record h { progress = done ok }) there) in
          let (kept, uses') =
            advance_balance h.client h.progress t.now k s.world own lo hi
              (recount s.world.redis s.world.mongo split b) in
          let next = advance R M h.client h.progress t.now s.world in
          let h' = record h { progress = next.1 } in
          let joined : credit h' + k ≡ total credit (set hs i h') = omega (
            arith,
            total-set credit hs i h (record h { progress = done ok }) there,
            total-set credit hs i h h' there,
          ) in
          rw (there, turn)
            (All-set (Uses nonce) hs i h' uses' uses, recount next.0.redis next.0.mongo joined kept)
    ]

    turns_keep :
        (ts : List Turn) (s : System)
        → All (IsDuring start) ts
        → All (Uses nonce) s.handlers
        → Balanced (total credit s.handlers) s.world
        → length (M.messages (turns ts s).world.mongo) ≤ before + 1
    unfolding turns
    turns_keep [] s _ uses (inl (taken, h)) = omega arith
    turns_keep [] s _ uses (inr (z, h)) = omega arith
    turns_keep (t ∷ ts) s (during, later) uses b =
        let (uses', b') = turn_keeps t s during uses b in turns_keep ts (turn t s) later uses' b'

  starting-Uses :
      (nonce : String) (hs : List Handler) → All (IsStarting nonce) hs → All (Uses nonce) hs
  starting-Uses nonce [] _ = tt
  starting-Uses nonce (h ∷ hs) (p, ps) = (at h.progress p, starting-Uses nonce hs ps)
    where
      at : (s : Progress) → IsStartingAt nonce s → UsesAt nonce s
      at (claiming p) q = q
      at _ q = ground arith

  starting_credit :
      (nonce : String) (hs : List Handler) → All (IsStarting nonce) hs → total credit hs ≡ 0
  unfolding total
  starting_credit nonce [] _ = refl
  starting_credit nonce (h ∷ hs) (p, ps) =
      omega (arith, at h.progress p, starting_credit nonce hs ps)
    where
      at : (s : Progress) → IsStartingAt nonce s → credit_at s ≡ 0
      at (claiming p) q = refl
      at (done ack) q = refl
      at _ q = absurd q

  -- However many handlers of message:send carry the same nonce, from whichever users and sockets,
  -- and however their steps interleave in the five minutes from `start`, at most one of them adds
  -- a message.
  pub turns-replay :
      (nonce : String) (start : ℕ) (ts : List Turn) (s : System)
      → All (IsStarting nonce) s.handlers
      → All (IsDuring start) ts
      → length (M.messages (turns ts s).world.mongo) ≤ length (M.messages s.world.mongo) + 1
  turns-replay nonce start ts s starting during =
      turns_keep nonce start (length (M.messages s.world.mongo)) ts s during
        (starting-Uses nonce s.handlers starting)
        (inr (starting_credit nonce s.handlers starting, omega arith))
