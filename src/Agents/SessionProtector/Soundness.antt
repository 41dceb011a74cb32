-- ===== src/Agents/SessionProtector/Soundness.antt =====
-- The invariant of Tracking, over any run of the agent's operations.
use pm_chat.Base.{
  ℕ, ◌+◌, ◌≡◌, ◌≢◌, refl, inl, inr, String, true, List, [], ◌∷◌, arith, eq_iff, ◌===◌, All,
  Bool-cases, Option-cases, subst, sym, some,
}
use pm_chat.Dict
use pm_chat.NameSet
use pm_chat.Agents.SessionProtector.{
  Session, Protector, initial, Params, tokens_of, remove_session, cleanup, fingerprint_of,
  register_session, is_frequent, validate_session,
}
use pm_chat.Agents.SessionProtector.Tracking.{
  IsSound, remove_session-IsSound, sweep-IsSound, register_session-IsSound,
}

put-IsSound :
    (j : String) (s' : Session) (p : Protector) (s : Session)
    → Dict.get j p.sessions ≡ some s
    → s'.user_id ≡ s.user_id
    → IsSound p
    → IsSound (record p { sessions = Dict.set j s' p.sessions })
put-IsSound j s' p s known owner (tracked, small) = (
  λ k r e. elim (Bool-cases (j === k)) [
    | inl same ↦ ground (
      arith,
      Dict.get-set j k s' p.sessions,
      eq_iff j k,
      subst (λ x. NameSet.has j (tokens_of x p.user_sessions) ≡ true) (sym owner)
          (tracked j s known),
    )
    | inr other ↦ tracked k r (ground (arith, Dict.get-set j k s' p.sessions))
  ],
  small,
)

validate_session-IsSound :
    (digest : String → String) (params : Params) (now : ℕ) (p : Protector)
    → IsSound p
    → IsSound (validate_session digest params now p).0
unfolding validate_session
validate_session-IsSound digest params now p h =
    elim (Option-cases (Dict.get params.jti p.sessions)) [
      | inl missing ↦ ground (arith, h)
      | inr (s, known) ↦ elim (Bool-cases (fingerprint_of digest params === s.fingerprint)) [
        | inr changed ↦ ground (
          arith,
          put-IsSound params.jti
              (record s { last_seen = now; request_count = s.request_count + 1; suspicious = true })
              p s known refl h,
        )
        | inl same ↦
            elim (Bool-cases (
              is_frequent digest (record s { last_seen = now; request_count = s.request_count + 1 })
                now)) [
                  | inl often ↦ ground (
                    arith,
                    put-IsSound params.jti
                        (record s {
                          last_seen = now;
                          request_count = s.request_count + 1;
                          suspicious = true;
                        })
                        p s known refl h,
                  )
                  | inr seldom ↦ ground (
                    arith,
                    put-IsSound params.jti
                        (record s { last_seen = now; request_count = s.request_count + 1 }) p s
                        known refl h,
                  )
                ]
      ]
    ]

pub data Operation : Type 0 where
  registers validates : Params → ℕ → Operation
  removes : (jti : String) → Operation
  cleans : ℕ → Operation

module _ (digest : String → String) where
  unfoldable pub step : Protector → Operation → Protector
  step p (registers params now) = register_session digest params now p
  step p (validates params now) = (validate_session digest params now p).0
  step p (removes jti) = remove_session jti p
  step p (cleans now) = cleanup now p

  unfoldable pub run : Protector → List Operation → Protector
  run p [] = p
  run p (o ∷ os) = run (step p o) os

  -- No session is registered under the empty token.
  abbrev pub IsNamed : Operation → Type 0
  IsNamed (registers params now) = params.jti ≢ ""
  IsNamed _ = Unit

  step-IsSound : (p : Protector) (o : Operation) → IsNamed o → IsSound p → IsSound (step p o)
  unfolding step cleanup
  step-IsSound p (registers params now) n h = register_session-IsSound digest params now p n h
  step-IsSound p (validates params now) n h = validate_session-IsSound digest params now p h
  step-IsSound p (removes jti) n h = remove_session-IsSound jti p h
  step-IsSound p (cleans now) n h = sweep-IsSound now p.sessions p h

  run-IsSound_from :
      (p : Protector) (os : List Operation) → All IsNamed os → IsSound p → IsSound (run p os)
  unfolding run
  run-IsSound_from p [] n h = h
  run-IsSound_from p (o ∷ os) (n, ns) h = run-IsSound_from (step p o) os ns (step-IsSound p o n h)

  -- Over any run of registrations, validations, removals and cleanups of any users, with tokens
  -- that are not empty and at any times: every session is among its user's tokens, and no user
  -- has more than three tokens, none of them empty.
  pub run-IsSound : (os : List Operation) → All IsNamed os → IsSound (run initial os)
  unfolding Dict.get
  run-IsSound os named =
      run-IsSound_from initial os named
        ((λ k r e. absurd (ground arith)), (λ u. (ground arith, tt)))
