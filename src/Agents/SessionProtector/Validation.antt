-- ===== src/Agents/SessionProtector/Validation.antt =====
-- Which requests of a session pass.
use pm_chat.Base.{
  ℕ, ◌+◌, ◌*◌, ◌-◌, ◌≤◌, ◌≡◌, ◌↔◌, ◌⊎◌, inl, inr, String, none, some, arith, eq_iff, ◌===◌, ltb,
  true, false, Bool-cases, Option-cases,
}
use pm_chat.Dict
use pm_chat.Agents.SessionProtector.{
  Session, Protector, Params, valid, fingerprint_of, is_frequent, judge, touched, validate_session,
}

module _ (digest : String → String) where
  -- The request has the fingerprint of its session, and with it the session has had at most ten
  -- requests a second since it was created, or no time has passed.
  abbrev pub Fits : Params → (now : ℕ) → Session → Type 0
  Fits params now s =
      (fingerprint_of digest params ≡ s.fingerprint)
      × ((now ≤ s.created_at) ⊎ ((s.request_count + 1) * 1000 ≤ 10 * (now - s.created_at)))

  often_apart :
      (params : Params) (now : ℕ) (s : Session)
      → is_frequent digest (touched digest s now) now ≡ true
      → (now ≤ s.created_at) ⊎ ((s.request_count + 1) * 1000 ≤ 10 * (now - s.created_at))
      → ⊥
  often_apart params now s often (inl h) = ground arith
  often_apart params now s often (inr h) = ground arith

  apart :
      (params : Params) (now : ℕ) (s : Session)
      → is_frequent digest (touched digest s now) now ≡ false
      → (now ≤ s.created_at) ⊎ ((s.request_count + 1) * 1000 ≤ 10 * (now - s.created_at))
  apart params now s seldom = elim (Bool-cases (ltb 0 (now - s.created_at))) [
    | inl some_time ↦ inr (ground arith)
    | inr no_time ↦ inl (ground arith)
  ]

  judge_iff :
      (params : Params) (now : ℕ) (p : Protector) (s : Session)
      → ((judge digest params (touched digest s now) now p).1 ≡ valid) ↔ Fits params now s
  judge_iff params now p s = elim (Bool-cases (fingerprint_of digest params === s.fingerprint)) [
    | inr changed ↦ (
      (λ e. absurd (ground arith)),
      λ f. absurd (ground (arith, eq_iff (fingerprint_of digest params) s.fingerprint, f.0)),
    )
    | inl same ↦ elim (Bool-cases (is_frequent digest (touched digest s now) now)) [
      | inl often ↦ ((λ e. absurd (ground arith)), λ f. absurd (often_apart params now s often f.1))
      | inr seldom ↦ ((λ e. ((eq_iff _ _).0 same, apart params now s seldom)), λ f. ground arith)
    ]
  ]

  with_session :
      (params : Params) (now : ℕ) (p : Protector) (s : Session)
      → Dict.get params.jti p.sessions ≡ some s
      → (Dict.get params.jti p.sessions ≡ none)
        ⊎ ((t : Session) × (Dict.get params.jti p.sessions ≡ some t) × Fits params now t)
      → (validate_session digest params now p).1 ≡ valid
  unfolding validate_session
  with_session params now p s known (inl missing) = absurd (ground arith)
  with_session params now p s known (inr (t, found, fits)) =
      ground (arith, found, (judge_iff params now p t).1 fits)

  -- `validateSession` lets a request pass exactly if its token has no session, or if it has the
  -- fingerprint of its session and either no time has passed since the session was registered,
  -- however many requests it has had, or the requests of the session, this one included, are at most
  -- ten a second on average over its whole life, so that a burst after a pause may pass.
  pub valid_iff :
      (params : Params) (now : ℕ) (p : Protector)
      → ((validate_session digest params now p).1 ≡ valid) ↔ (
          (Dict.get params.jti p.sessions ≡ none)
          ⊎ ((s : Session) × (Dict.get params.jti p.sessions ≡ some s) × Fits params now s))
  unfolding validate_session
  valid_iff params now p = elim (Option-cases (Dict.get params.jti p.sessions)) [
    | inl missing ↦ ((λ e. inl missing), λ c. ground arith)
    | inr (s, known) ↦ (
      (λ e. inr (s, known, (judge_iff params now p s).0 (ground arith))),
      λ c. with_session params now p s known c,
    )
  ]
