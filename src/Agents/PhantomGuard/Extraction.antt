-- ===== src/Agents/PhantomGuard/Extraction.antt =====
-- What the guard knows of a user's decryptions.
use pm_chat.Base.{
  ℕ, ◌+◌, ◌≤◌, ◌≡◌, refl, String, List, [], ◌∷◌, ◌++◌, arith, eq_iff, ap, subst, sym, ◌∙◌, ◌===◌,
  if◌then◌else◌, ltb, keep, keep-append, Bool-cases, inl, inr,
}
use pm_chat.Dict
use pm_chat.Agents.PhantomGuard.{
  Guard, initial, rapid_decrypt_window_ms, recent, or_nil, verdict_of, monitor_decryption, cleanup,
  generate_watermark,
}
use pm_chat.Agents.PhantomGuard.Traces.{Call, watermark, decryption, clean, step, run}

abbrev pub time : Call → ℕ
time (watermark trace_id conversation_id user_id message_id now) = now
time (decryption user_id now) = now
time (clean now) = now

abbrev pub InOrder : (from till : ℕ) → List Call → Type 0
InOrder from till [] = from ≤ till
InOrder from till (c ∷ cs) = (from ≤ time c) × InOrder (time c) till cs

abbrev decrypted_step : (user_id : String) → List ℕ → Call → List ℕ
decrypted_step u before (decryption v now) = if v === u then before ++ now ∷ [] else before
decrypted_step u before _ = before

-- The times of all decryptions of the user, after those before the calls.
unfoldable pub decrypted_by : (user_id : String) → List ℕ → List Call → List ℕ
decrypted_by u before [] = before
decrypted_by u before (c ∷ cs) = decrypted_by u (decrypted_step u before c) cs

-- What is recent later on was recent before.
recent-recent : (now t : ℕ) (xs : List ℕ) → now ≤ t → recent t (recent now xs) ≡ recent t xs
unfolding keep
recent-recent now t [] h = refl
recent-recent now t (x ∷ xs) h = elim (Bool-cases (ltb now (x + rapid_decrypt_window_ms))) [
  | inl new ↦ ground (arith, recent-recent now t xs h)
  | inr old ↦ ground (arith, recent-recent now t xs h)
]

-- The guard keeps of the user what counts from `from` on.
abbrev Knows : (user_id : String) (from : ℕ) → List ℕ → Guard → Type 0
Knows u from all g = (t : ℕ) → from ≤ t → recent t (or_nil (Dict.get u g.timestamps)) ≡ recent t all

recent-push :
    (from now t : ℕ) (xs all : List ℕ)
    → from ≤ now
    → now ≤ t
    → ((x : ℕ) → from ≤ x → recent x xs ≡ recent x all)
    → recent t (recent now (xs ++ now ∷ [])) ≡ recent t (all ++ now ∷ [])
recent-push from now t xs all h later k =
    recent-recent now t (xs ++ now ∷ []) later
    ∙ keep-append (λ x. ltb t (x + rapid_decrypt_window_ms)) xs (now ∷ [])
    ∙ ap (λ ys. ys ++ recent t (now ∷ [])) (k t (omega arith))
    ∙ sym (keep-append (λ x. ltb t (x + rapid_decrypt_window_ms)) all (now ∷ []))

module _ (hmac : (key content : String) → String) where
  step-Knows :
      (u : String) (from : ℕ) (all : List ℕ) (g : Guard) (c : Call)
      → from ≤ time c
      → Knows u from all g
      → Knows u (time c) (decrypted_step u all c) (step hmac g c)
  unfolding step generate_watermark monitor_decryption cleanup
  step-Knows u from all g (watermark i c v m now) h k = λ t later. k t (omega arith)
  step-Knows u from all g (clean now) h k = λ t later. k t (omega arith)
  step-Knows u from all g (decryption v now) h k = λ t later. elim (Bool-cases (v === u)) [
    | inr other ↦ rw (Dict.get-set, other) (k t (omega arith))
    | inl same ↦
        let named : v ≡ u = (eq_iff v u).0 same in
        rw (Dict.get-set, same)
          (recent-push from now t (or_nil (Dict.get v g.timestamps)) all h later
            (subst (λ x. Knows x from all g) (sym named) k))
  ]

  run-Knows :
      (u : String) (from till : ℕ) (all : List ℕ) (cs : List Call) (g : Guard)
      → InOrder from till cs
      → Knows u from all g
      → Knows u till (decrypted_by u all cs) (run hmac g cs)
  unfolding run decrypted_by
  run-Knows u from till all [] g h k = λ t later. k t (omega arith)
  run-Knows u from till all (c ∷ cs) g (h, hs) k =
      run-Knows u (time c) till _ cs _ hs (step-Knows u from all g c h k)

  -- After any run of calls at times that do not go back, the verdict on a decryption of a user is
  -- the one that all decryptions of this user in the last minute give, this one included: what the
  -- guard drops, and the decryptions of others, make no difference.
  pub monitor_decryption-run :
      (user_id : String) (now : ℕ) (cs : List Call)
      → InOrder 0 now cs
      → (monitor_decryption user_id now (run hmac initial cs)).1
        ≡ verdict_of (recent now (decrypted_by user_id [] cs ++ now ∷ []))
  unfolding monitor_decryption Dict.get
  monitor_decryption-run u now cs h =
      let k = run-Knows u 0 now [] cs initial h (λ t later. refl) in
      ap verdict_of (
        keep-append (λ x. ltb now (x + rapid_decrypt_window_ms)) _ (now ∷ [])
        ∙ ap (λ ys. ys ++ recent now (now ∷ [])) (k now (omega arith))
        ∙ sym (keep-append (λ x. ltb now (x + rapid_decrypt_window_ms)) _ (now ∷ [])))
