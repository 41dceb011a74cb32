-- ===== src/Agents/ContentIntegrity/Reuse.antt =====
-- The reuse of an IV in a conversation.
use pm_chat.Base.{
  ℕ, ◌+◌, ◌≤◌, ◌≡◌, refl, inl, inr, String, Bool, false, List, [], ◌∷◌, arith, eq_iff, ◌===◌, ◌&&◌,
  ◌||◌, length, Option-cases, ap, ◌∙◌, sym, subst,
}
use pm_chat.Dict
use pm_chat.Dict.{Dict}
use pm_chat.NameSet
use pm_chat.NameSet.{NameSet}
use pm_chat.Agents.ContentIntegrity.{
  Histories, initial, Params, ivs_of, or_empty, errors_of, validate_message_integrity, trim_all,
  cleanup,
}

pub data Event : Type 0 where
  validates : Params → Event
  cleans : Event

module _ (is_low is_critical : String → Bool) where
  unfoldable pub step : Histories → Event → Histories
  step h (validates p) = (validate_message_integrity is_low is_critical p h).0
  step h cleans = cleanup h

  unfoldable pub run : Histories → List Event → Histories
  run h [] = h
  run h (e ∷ es) = run (step h e) es

-- One of the events validated a message of the conversation with the IV.
unfoldable pub was_used : (conversation_id iv : String) → List Event → Bool
was_used c iv [] = false
was_used c iv (cleans ∷ es) = was_used c iv es
was_used c iv (validates p ∷ es) = (p.conversation_id === c && p.iv === iv) || was_used c iv es

abbrev IsShort : (n : ℕ) → String → NameSet → Type 0
IsShort n c ivs = length ivs ≤ n

trim_all-IsShort :
    (n : ℕ) (d : Dict NameSet) → n ≤ 10_000 → Dict.Each (IsShort n) d → trim_all d ≡ d
unfolding trim_all
trim_all-IsShort n [] h e = refl
trim_all-IsShort n ((c, ivs) ∷ d) h (short, e) = ground (arith, trim_all-IsShort n d h e)

Each-more : (m n : ℕ) (d : Dict NameSet) → m ≤ n → Dict.Each (IsShort m) d → Dict.Each (IsShort n) d
Each-more m n [] h e = tt
Each-more m n ((c, ivs) ∷ d) h (short, e) = (omega arith, Each-more m n d h e)

ivs_of-IsShort :
    (n : ℕ) (c : String) (h : Histories)
    → Dict.Each (IsShort n) h.iv_history
    → length (ivs_of c h) ≤ n
ivs_of-IsShort n c h e = elim (Option-cases (Dict.get c h.iv_history)) [
  | inl missing ↦ ground arith
  | inr (ivs, found) ↦ ground (arith, Dict.get-Each (IsShort n) c ivs h.iv_history e found)
]

module _ (is_low is_critical : String → Bool) where
  validate-has :
      (p : Params) (h : Histories) (c iv : String)
      → NameSet.has iv (ivs_of c (validate_message_integrity is_low is_critical p h).0)
        ≡ ((p.conversation_id === c && p.iv === iv) || NameSet.has iv (ivs_of c h))
  unfolding validate_message_integrity
  validate-has p h c iv = ground (
    arith,
    eq_iff p.conversation_id c,
    Dict.get-set p.conversation_id c (NameSet.add p.iv (ivs_of p.conversation_id h)) h.iv_history,
    NameSet.has-add p.iv iv (ivs_of p.conversation_id h),
  )

  validate-IsShort :
      (n : ℕ) (p : Params) (h : Histories)
      → Dict.Each (IsShort n) h.iv_history
      → Dict.Each (IsShort (n + 1)) (validate_message_integrity is_low is_critical p h).0.iv_history
  unfolding validate_message_integrity
  validate-IsShort n p h e =
      Dict.Each-set (IsShort (n + 1)) p.conversation_id _ h.iv_history
        (ground (
          arith,
          NameSet.length-add p.iv (ivs_of p.conversation_id h),
          ivs_of-IsShort n p.conversation_id h e,
        ))
        (Each-more n (n + 1) h.iv_history (omega arith) e)

  run-has :
      (n : ℕ) (c iv : String) (es : List Event) (h : Histories)
      → n + length es ≤ 10_000
      → Dict.Each (IsShort n) h.iv_history
      → NameSet.has iv (ivs_of c (run is_low is_critical h es))
        ≡ (was_used c iv es || NameSet.has iv (ivs_of c h))
  unfolding run step was_used cleanup
  run-has n c iv [] h few short = refl
  run-has n c iv (cleans ∷ es) h few short =
      let same = trim_all-IsShort n h.iv_history (omega arith) short in
      run-has n c iv es (cleanup h) (omega arith) (subst (Dict.Each (IsShort n)) (sym same) short)
      ∙ ap (λ d. was_used c iv es || NameSet.has iv (or_empty (Dict.get c d))) same
  run-has n c iv (validates p ∷ es) h few short = ground (
    arith,
    run-has (n + 1) c iv es (validate_message_integrity is_low is_critical p h).0 (omega arith)
        (validate-IsShort n p h short),
    validate-has p h c iv,
  )

  -- After any run of at most ten thousand validations and cleanups, the checks of a message find
  -- its IV reused exactly if a message of the same conversation was validated with that IV before.
  pub errors-was_used :
      (p : Params) (es : List Event)
      → length es ≤ 10_000
      → (validate_message_integrity is_low is_critical p
          (run is_low is_critical initial es)).1.errors
        ≡ errors_of is_low is_critical p (was_used p.conversation_id p.iv es)
  unfolding validate_message_integrity Dict.get NameSet.has
  errors-was_used p es few =
      ap (errors_of is_low is_critical p)
        (run-has 0 p.conversation_id p.iv es initial (omega arith) tt ∙ ground arith)
