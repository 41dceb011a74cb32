-- ===== src/Agents/SessionProtector/Tracking.antt =====
-- The two tables of the agent agree, over any run of its operations.
use pm_chat.Base.{
  ℕ, ◌+◌, ◌≤◌, ◌≡◌, ◌≢◌, inl, inr, String, Bool, true, false, some, [], ◌∷◌, arith, eq_iff, ◌===◌,
  if◌then◌else◌, ltb, length, All, length-keep-le, Bool-cases, Option-cases, subst, sym,
}
use pm_chat.Dict
use pm_chat.Dict.{Dict}
use pm_chat.NameSet
use pm_chat.NameSet.{NameSet}
use pm_chat.Agents.SessionProtector.Tokens.{Filled, All-remove, All-add}
use pm_chat.Agents.SessionProtector.Eviction.{make_room_cases, live-IsLive, live-Filled, live-has}
use pm_chat.Agents.SessionProtector.{
  Session, Protector, session_inactive_timeout_ms, Params, is_some, tokens_of, make_room, live,
  drop_token, forget, remove_session, sweep, new_session, register_session,
}

-- Every session is among the tokens of its user.
abbrev pub IsTracked : Dict Session → Dict NameSet → Type 0
IsTracked sessions user_sessions =
    (jti : String) (s : Session)
    → Dict.get jti sessions ≡ some s
    → NameSet.has jti (tokens_of s.user_id user_sessions) ≡ true

-- A user has at most three tokens, none of them empty.
abbrev pub IsSmall : Dict NameSet → Type 0
IsSmall user_sessions =
    (user_id : String)
    → (length (tokens_of user_id user_sessions) ≤ 3) × All Filled (tokens_of user_id user_sessions)

abbrev pub IsSound : Protector → Type 0
IsSound p = IsTracked p.sessions p.user_sessions × IsSmall p.user_sessions

tokens_of-set :
    (u v : String) (ts : NameSet) (us : Dict NameSet)
    → tokens_of v (Dict.set u ts us) ≡ (if u === v then ts else tokens_of v us)
tokens_of-set u v ts us = ground (arith, Dict.get-set u v ts us)

tokens_of-drop_token :
    (j u v : String) (us : Dict NameSet)
    → tokens_of v (drop_token j u us)
      ≡ (if u === v then NameSet.remove j (tokens_of v us) else tokens_of v us)
unfolding drop_token NameSet.remove
tokens_of-drop_token j u v us = elim (Option-cases (Dict.get u us)) [
  | inl missing ↦ ground (arith, eq_iff u v)
  | inr (ts, found) ↦ ground (arith, eq_iff u v, tokens_of-set u v (NameSet.remove j ts) us)
]

abbrev pub Fits : NameSet → Type 0
Fits ts = (length ts ≤ 3) × All Filled ts

remove-Fits : (j : String) (ts : NameSet) → Fits ts → Fits (NameSet.remove j ts)
remove-Fits j ts (short, filled) =
    (ground (arith, NameSet.length-remove-le j ts), All-remove j ts filled)

forget-IsSound : (j : String) (s : Session) (p : Protector) → IsSound p → IsSound (forget j s p)
unfolding forget
forget-IsSound j s p (tracked, small) = (
  λ k r e. ground (
    arith,
    Dict.get-delete j k p.sessions,
    eq_iff j k,
    tokens_of-drop_token j s.user_id r.user_id p.user_sessions,
    NameSet.has-remove j k (tokens_of r.user_id p.user_sessions),
    tracked k r (ground (arith, Dict.get-delete j k p.sessions)),
  ),
  λ u. elim (Bool-cases (s.user_id === u)) [
    | inl same ↦
        subst Fits (ground (arith, tokens_of-drop_token j s.user_id u p.user_sessions))
          (remove-Fits j (tokens_of u p.user_sessions) (small u))
    | inr other ↦
        subst Fits (ground (arith, tokens_of-drop_token j s.user_id u p.user_sessions)) (small u)
  ],
)

pub remove_session-IsSound : (j : String) (p : Protector) → IsSound p → IsSound (remove_session j p)
unfolding remove_session
remove_session-IsSound j p h = elim (Option-cases (Dict.get j p.sessions)) [
  | inl missing ↦ ground (arith, h)
  | inr (s, found) ↦ ground (arith, forget-IsSound j s p h)
]

if-IsSound : (b : Bool) (p q : Protector) → IsSound p → IsSound q → IsSound (if b then p else q)
if-IsSound true p q h k = h
if-IsSound false p q h k = k

pub sweep-IsSound :
    (now : ℕ) (entries : Dict Session) (p : Protector) → IsSound p → IsSound (sweep now entries p)
unfolding sweep
sweep-IsSound now [] p h = h
sweep-IsSound now ((j, s) ∷ entries) p h = sweep-IsSound now entries _ (
    if-IsSound (ltb (s.last_seen + session_inactive_timeout_ms) now) _ _ (forget-IsSound j s p h) h)

length-live-le : (sessions : Dict Session) (ts : NameSet) → length (live sessions ts) ≤ length ts
unfolding live
length-live-le sessions ts = length-keep-le (λ j. is_some (Dict.get j sessions)) ts

-- What `make_room` leaves of the tokens that are live.
abbrev IsKept : Dict Session → NameSet → NameSet × Dict Session → Type 0
IsKept sessions ts kept =
    (length kept.0 + 1 ≤ 3)
    × All Filled kept.0
    × ((k : String) (r : Session)
        → Dict.get k kept.1 ≡ some r
        → (Dict.get k sessions ≡ some r) × (NameSet.has k ts ≡ true → NameSet.has k kept.0 ≡ true))

make_room-IsKept :
    (sessions : Dict Session) (ts : NameSet)
    → Fits ts
    → IsKept sessions ts (make_room (live sessions ts) sessions)
make_room-IsKept sessions ts (short, filled) =
    elim (make_room_cases sessions (live sessions ts) (live-IsLive sessions ts)
      (live-Filled sessions ts filled)) [
        | inl (same, room) ↦ subst (IsKept sessions ts) (sym same) (
          room,
          live-Filled sessions ts filled,
          λ k r e. (e, λ h. ground (arith, live-has k sessions ts)),
        )
        | inr (c, (at, _, _), made) ↦ subst (IsKept sessions ts) (sym made) (
          ground (
            arith,
            NameSet.length-remove-lt c.0 (live sessions ts) at,
            length-live-le sessions ts,
          ),
          All-remove c.0 (live sessions ts) (live-Filled sessions ts filled),
          λ k r e. (
            ground (arith, Dict.get-delete c.0 k sessions),
            λ h. ground (
              arith,
              live-has k sessions ts,
              NameSet.has-remove c.0 k (live sessions ts),
              Dict.get-delete c.0 k sessions,
            ),
          ),
        )
      ]

pub register_session-IsSound :
    (digest : String → String) (params : Params) (now : ℕ) (p : Protector)
    → params.jti ≢ ""
    → IsSound p
    → IsSound (register_session digest params now p)
unfolding register_session
register_session-IsSound digest params now p named (tracked, small) =
    let (short, filled, kept) =
      make_room-IsKept p.sessions (tokens_of params.user_id p.user_sessions)
        (small params.user_id) in
    (
      λ k r e. elim (Bool-cases (params.jti === k)) [
        | inl same ↦ ground (
          arith,
          e,
          Dict.get-set params.jti k (new_session digest params now) room.1,
          tokens_of-set params.user_id r.user_id (NameSet.add params.jti room.0) p.user_sessions,
          NameSet.has-add params.jti k room.0,
          eq_iff params.user_id r.user_id,
        )
        | inr other ↦
            let (before, still) = kept k r (
              ground
                (arith, e, Dict.get-set params.jti k (new_session digest params now) room.1)) in
            elim (Bool-cases (params.user_id === r.user_id)) [
              | inl owner ↦ ground (
                arith,
                tokens_of-set params.user_id r.user_id (NameSet.add params.jti room.0)
                    p.user_sessions,
                NameSet.has-add params.jti k room.0,
                still (
                    subst (λ x. NameSet.has k (tokens_of x p.user_sessions) ≡ true)
                      (sym ((eq_iff params.user_id r.user_id).0 owner)) (tracked k r before)),
              )
              | inr stranger ↦ ground (
                arith,
                tokens_of-set params.user_id r.user_id (NameSet.add params.jti room.0)
                    p.user_sessions,
                tracked k r before,
              )
            ]
      ],
      λ u. elim (Bool-cases (params.user_id === u)) [
        | inl same ↦
            subst Fits
              (ground (
                arith,
                tokens_of-set params.user_id u (NameSet.add params.jti room.0) p.user_sessions,
              ))
              (
                ground (arith, NameSet.length-add params.jti room.0),
                All-add params.jti room.0 named filled,
              )
        | inr other ↦
            subst Fits
              (ground (
                arith,
                tokens_of-set params.user_id u (NameSet.add params.jti room.0) p.user_sessions,
              ))
              (small u)
      ],
    )
  where
    room : NameSet × Dict Session
    room = make_room (live p.sessions (tokens_of params.user_id p.user_sessions)) p.sessions
