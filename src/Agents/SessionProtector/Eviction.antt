-- ===== src/Agents/SessionProtector/Eviction.antt =====
-- The session that gives way when a user has too many.
use pm_chat.Base.{
  ℕ, ◌+◌, ◌≤◌, ◌≡◌, refl, ◌⊎◌, inl, inr, String, true, Option, none, some, [], ◌∷◌, arith, eq_iff,
  eq_refl, ◌===◌, ltb, leb, length, All, All-keep, ◌&&◌, Bool-cases, Option-cases, ap, ◌∙◌, sym,
  subst,
}
use pm_chat.Dict
use pm_chat.Dict.{Dict}
use pm_chat.NameSet
use pm_chat.NameSet.{NameSet}
use pm_chat.Agents.SessionProtector.Tokens.{Filled, has-keep, has-Filled}
use pm_chat.Agents.SessionProtector.{
  Session, Protector, Params, is_some, tokens_of, earlier, oldest, make_room, live,
  register_session, new_session, max_concurrent_sessions,
}

-- where a find comes from
abbrev Origin : Dict Session → NameSet → (b c : String × ℕ) → Type 0
Origin sessions ts b c =
    (c ≡ b)
    ⊎ ((NameSet.has c.0 ts ≡ true)
        × ((s : Session) × (Dict.get c.0 sessions ≡ some s) × (s.created_at ≡ c.1)))

-- The find of the loop that starts with the best `b`: it comes from `b` or from a token's session,
-- and nothing there is older.
record IsEarliest (sessions : Dict Session) (ts : NameSet) (b c : String × ℕ) : Type 0 where
  found : oldest sessions ts (some b) ≡ some c
  below : c.1 ≤ b.1
  origin : Origin sessions ts b c
  least :
      (k : String) (r : Session)
      → NameSet.has k ts ≡ true
      → Dict.get k sessions ≡ some r
      → c.1 ≤ r.created_at

-- One round of the loop.
record IsRound (j : String) (o : Option Session) (b c : String × ℕ) : Type 0 where
  made : earlier j o (some b) ≡ some c
  below : c.1 ≤ b.1
  origin : (c ≡ b) ⊎ ((s : Session) × (o ≡ some s) × (c ≡ (j, s.created_at)))
  least : (s : Session) → o ≡ some s → c.1 ≤ s.created_at

earlier-IsRound :
    (j : String) (o : Option Session) (b : String × ℕ) → (c : String × ℕ) × IsRound j o b c
earlier-IsRound j none b = (
  b,
  record {
    made = refl;
    below = omega arith;
    origin = inl refl;
    least = λ s e. absurd (ground arith);
  },
)
earlier-IsRound j (some s) b = elim (Bool-cases (ltb s.created_at b.1)) [
  | inl older ↦ (
    (j, s.created_at),
    record {
      made = ground arith;
      below = ground arith;
      origin = inr (s, refl, refl);
      least = λ r e. ground arith;
    },
  )
  | inr younger ↦ (
    b,
    record {
      made = ground arith;
      below = omega arith;
      origin = inl refl;
      least = λ r e. ground arith;
    },
  )
]

join_first :
    (sessions : Dict Session) (j : String) (ts : NameSet) (s : Session) (c : String × ℕ)
    → Dict.get j sessions ≡ some s
    → Origin sessions ts (j, s.created_at) c
    → (NameSet.has c.0 (j ∷ ts) ≡ true)
      × ((r : Session) × (Dict.get c.0 sessions ≡ some r) × (r.created_at ≡ c.1))
unfolding NameSet.has
join_first sessions j ts s c known (inl e) = (
  ground (arith, ap (λ x. x.0) e, eq_refl j),
  (s, ground (arith, ap (λ x. x.0) e), ground (arith, ap (λ x. x.1) e)),
)
join_first sessions j ts s c known (inr (h, s')) = (ground arith, s')

join_origins :
    (sessions : Dict Session) (j : String) (ts : NameSet) (b m c : String × ℕ)
    → (m ≡ b) ⊎ ((s : Session) × (Dict.get j sessions ≡ some s) × (m ≡ (j, s.created_at)))
    → Origin sessions ts m c
    → Origin sessions (j ∷ ts) b c
unfolding NameSet.has
join_origins sessions j ts b m c _ (inr (h, s)) = inr (ground arith, s)
join_origins sessions j ts b m c (inl e) (inl f) = inl (f ∙ e)
join_origins sessions j ts b m c (inr (s, known, e)) (inl f) =
    inr (join_first sessions j ts s c known (inl (f ∙ e)))

oldest-IsEarliest :
    (sessions : Dict Session) (ts : NameSet) (b : String × ℕ)
    → (c : String × ℕ) × IsEarliest sessions ts b c
unfolding oldest NameSet.has
oldest-IsEarliest sessions [] b = (
  b,
  record {
    found = refl;
    below = omega arith;
    origin = inl refl;
    least = λ k r h e. absurd (ground arith);
  },
)
oldest-IsEarliest sessions (j ∷ ts) b =
    let (m, round) = earlier-IsRound j (Dict.get j sessions) b in
    let (c, rest) = oldest-IsEarliest sessions ts m in
    (
      c,
      record {
        found = ap (oldest sessions ts) round.made ∙ rest.found;
        below = ground (arith, rest.below, round.below);
        origin = join_origins sessions j ts b m c round.origin rest.origin;
        least = λ k r h e. elim (Bool-cases (j === k)) [
          | inl same ↦ ground (
            arith,
            rest.below,
            round.least r (subst (λ x. Dict.get x sessions ≡ some r) (sym ((eq_iff j k).0 same)) e),
          )
          | inr other ↦ rest.least k r (ground arith) e
        ];
      },
    )

-- A token whose session is the oldest among those of the tokens.
abbrev pub IsFirst : Dict Session → NameSet → String × ℕ → Type 0
IsFirst sessions ts c =
    (NameSet.has c.0 ts ≡ true)
    × ((s : Session) × (Dict.get c.0 sessions ≡ some s) × (s.created_at ≡ c.1))
    × ((k : String) (r : Session)
        → NameSet.has k ts ≡ true
        → Dict.get k sessions ≡ some r
        → c.1 ≤ r.created_at)

abbrev pub IsLive : Dict Session → NameSet → Type 0
IsLive sessions ts =
    (k : String) → NameSet.has k ts ≡ true → (s : Session) × (Dict.get k sessions ≡ some s)

oldest-IsFirst :
    (sessions : Dict Session) (ts : NameSet)
    → IsLive sessions ts
    → 1 ≤ length ts
    → (c : String × ℕ) × (oldest sessions ts none ≡ some c) × IsFirst sessions ts c
unfolding oldest NameSet.has
oldest-IsFirst sessions [] alive h = absurd (omega arith)
oldest-IsFirst sessions (j ∷ ts) alive h =
    let (s, known) = alive j (ground (arith, eq_refl j)) in
    let (c, o) = oldest-IsEarliest sessions ts (j, s.created_at) in
    (
      c,
      ap (λ x. oldest sessions ts (earlier j x none)) known ∙ o.found,
      (
        (join_first sessions j ts s c known o.origin).0,
        (join_first sessions j ts s c known o.origin).1,
        λ k r at e. elim (Bool-cases (j === k)) [
          | inl same ↦ ground (arith, o.below, ap (λ x. Dict.get x sessions) ((eq_iff j k).0 same))
          | inr other ↦ o.least k r (ground arith) e
        ],
      ),
    )

pub make_room_cases :
    (sessions : Dict Session) (ts : NameSet)
    → IsLive sessions ts
    → All Filled ts
    → ((make_room ts sessions ≡ (ts, sessions)) × (length ts + 1 ≤ 3))
      ⊎ ((c : String × ℕ) × IsFirst sessions ts c
          × (make_room ts sessions ≡ (NameSet.remove c.0 ts, Dict.delete c.0 sessions)))
unfolding make_room
make_room_cases sessions ts alive filled =
    elim (Bool-cases (leb max_concurrent_sessions (length ts))) [
      | inl full ↦
          let (c, found, first) = oldest-IsFirst sessions ts alive (ground arith) in
          inr (c, first, ground (arith, eq_iff c.0 "", has-Filled c.0 ts filled first.0))
      | inr room ↦ inl (ground arith, ground arith)
    ]

pub live-has :
    (k : String) (sessions : Dict Session) (ts : NameSet)
    → NameSet.has k (live sessions ts) ≡ (NameSet.has k ts && is_some (Dict.get k sessions))
unfolding live
live-has k sessions ts = has-keep k (λ j. is_some (Dict.get j sessions)) ts

pub live-Filled :
    (sessions : Dict Session) (ts : NameSet) → All Filled ts → All Filled (live sessions ts)
unfolding live
live-Filled sessions ts h = All-keep Filled (λ j. is_some (Dict.get j sessions)) ts h

pub live-IsLive : (sessions : Dict Session) (ts : NameSet) → IsLive sessions (live sessions ts)
unfolding live
live-IsLive sessions ts k h = elim (Option-cases (Dict.get k sessions)) [
  | inl missing ↦ absurd (ground (arith, has-keep k (λ j. is_some (Dict.get j sessions)) ts))
  | inr known ↦ known
]

-- Registering a session drops at most sessions of the same user that were, of all the user's, the
-- oldest: if a session is there before and its token has none after, the token was one of the
-- user's and no session of the user was created before it.
register_session-oldest :
    (digest : String → String) (params : Params) (now : ℕ) (p : Protector) (k : String)
    (r : Session)
    → All Filled (tokens_of params.user_id p.user_sessions)
    → Dict.get k p.sessions ≡ some r
    → Dict.get k (register_session digest params now p).sessions ≡ none
    → (NameSet.has k (tokens_of params.user_id p.user_sessions) ≡ true)
      × ((j : String) (s : Session)
          → NameSet.has j (tokens_of params.user_id p.user_sessions) ≡ true
          → Dict.get j p.sessions ≡ some s
          → r.created_at ≤ s.created_at)
unfolding register_session
register_session-oldest digest params now p k r filled known gone =
    elim (make_room_cases p.sessions kept (live-IsLive p.sessions ts)
      (live-Filled p.sessions ts filled)) [
        | inl (same, _) ↦ absurd (
            ground (
              arith,
              Dict.get-set params.jti k (new_session digest params now)
                  (make_room kept p.sessions).1,
              ap (λ x. Dict.get k x.1) same,
            ))
        | inr (c, (at, (s', known', time), least), made) ↦
            let is_k : c.0 === k ≡ true = ground (
              arith,
              Dict.get-set params.jti k (new_session digest params now)
                  (make_room kept p.sessions).1,
              ap (λ x. Dict.get k x.1) made,
              Dict.get-delete c.0 k p.sessions,
            ) in
            (
              ground (arith, eq_iff c.0 k, is_k, kept-has c.0),
              λ j s h e. ground (
                arith,
                eq_iff c.0 k,
                is_k,
                ap (λ x. Dict.get x p.sessions) ((eq_iff c.0 k).0 is_k),
                known',
                least j s (ground (arith, kept-has j, e)) e,
              ),
            )
      ]
  where
    ts : NameSet
    ts = tokens_of params.user_id p.user_sessions

    kept : NameSet
    kept = live p.sessions ts

    kept-has :
        (j : String) → NameSet.has j kept ≡ (NameSet.has j ts && is_some (Dict.get j p.sessions))
    kept-has j = live-has j p.sessions ts
