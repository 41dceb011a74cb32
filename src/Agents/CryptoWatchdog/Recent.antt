-- ===== src/Agents/CryptoWatchdog/Recent.antt =====
-- The exchanges of keys of the last five minutes, among the hundred events that are kept.
use pm_chat.Base.{
  ℕ, zero, suc, ◌+◌, ◌-◌, ◌≤◌, ◌≡◌, ◌⊎◌, refl, inl, inr, true, List, [], ◌∷◌, ◌++◌, arith,
  if◌then◌else◌, ltb, length, keep, drop, last, All, All-append, All-drop, Bool-cases, length-drop,
}
use pm_chat.Agents.CryptoWatchdog.{
  CryptoEvent, key_exchange, exchange_window_ms, is_recent, trimmed,
}

-- How many of the times lie in the five minutes up to `t`.
unfoldable pub within : (t : ℕ) → List ℕ → ℕ
within t [] = 0
within t (x ∷ xs) = (if ltb (t - x) exchange_window_ms then 1 else 0) + within t xs

-- How many of the events `recentExchanges` counts at `t`.
abbrev pub seen : (t : ℕ) → List CryptoEvent → ℕ
seen t events = length (keep (is_recent t) events)

pub within-append :
    (t : ℕ) (xs : List ℕ) (x : ℕ) → within t (xs ++ x ∷ []) ≡ within t xs + within t (x ∷ [])
unfolding within
within-append t [] x = omega arith
within-append t (y ∷ xs) x = omega (arith, within-append t xs x)

pub within_later : (now t : ℕ) (xs : List ℕ) → now ≤ t → within t xs ≤ within now xs
unfolding within
within_later now t [] h = omega arith
within_later now t (x ∷ xs) h = ground (arith, within_later now t xs h)

-- Times that are all long past are not in the window.
pub within_past :
    (t bound : ℕ) (xs : List ℕ)
    → bound + exchange_window_ms ≤ t
    → All (λ x. x ≤ bound) xs
    → within t xs ≡ 0
unfolding within
within_past t bound [] h a = refl
within_past t bound (x ∷ xs) h (b, a) = ground (arith, within_past t bound xs h a)

pub seen-append :
    (t : ℕ) (es : List CryptoEvent) (e : CryptoEvent)
    → seen t (es ++ e ∷ []) ≡ seen t es + seen t (e ∷ [])
unfolding keep
seen-append t [] e = omega arith
seen-append t (x ∷ es) e = ground (arith, seen-append t es e)

-- The events are exchanges whose times never go back.
abbrev pub From : CryptoEvent → CryptoEvent → Type 0
From x e = (e.kind ≡ key_exchange) × (x.timestamp ≤ e.timestamp)

abbrev pub IsChain : List CryptoEvent → Type 0
IsChain [] = Unit {0}
IsChain (x ∷ xs) = All (From x) xs × IsChain xs

abbrev pub Until : ℕ → CryptoEvent → Type 0
Until now e = e.timestamp ≤ now

pub IsChain-push :
    (es : List CryptoEvent) (now : ℕ) (e : CryptoEvent)
    → e.kind ≡ key_exchange
    → e.timestamp ≡ now
    → All (Until now) es
    → IsChain es
    → IsChain (es ++ e ∷ [])
IsChain-push [] now e k at h c = (tt, tt)
IsChain-push (x ∷ es) now e k at (b, h) (a, c) =
    (All-append (From x) es (e ∷ []) a ((k, omega arith), tt), IsChain-push es now e k at h c)

pub IsChain-drop : (n : ℕ) (es : List CryptoEvent) → IsChain es → IsChain (drop n es)
IsChain-drop zero es c = c
IsChain-drop (suc n) [] c = tt
IsChain-drop (suc n) (x ∷ es) (a, c) = IsChain-drop n es c

pub seen_all :
    (t : ℕ) (x : CryptoEvent) (es : List CryptoEvent)
    → is_recent t x ≡ true
    → All (From x) es
    → seen t es ≡ length es
unfolding keep
seen_all t x [] r a = refl
seen_all t x (e ∷ es) r ((k, le), a) = ground (arith, seen_all t x es r a)

-- Dropping the oldest events drops none that counts, or leaves only events that count.
pub seen-drop :
    (t n : ℕ) (es : List CryptoEvent)
    → IsChain es
    → (seen t es ≤ seen t (drop n es)) ⊎ (seen t (drop n es) ≡ length (drop n es))
unfolding keep
seen-drop t zero es c = inl (omega arith)
seen-drop t (suc n) [] c = inl (omega arith)
seen-drop t (suc n) (x ∷ es) (a, c) = elim (Bool-cases (is_recent t x)) [
  | inl new ↦ inr (seen_all t x (drop n es) new (All-drop (From x) n es a))
  | inr old ↦ elim (seen-drop t n es c) [ inl more ↦ inl ground arith | inr whole ↦ inr whole ]
]

-- Up to a hundred that are known to count are among the hundred events that are kept.
pub seen-trimmed :
    (t w : ℕ) (es : List CryptoEvent)
    → IsChain es
    → w ≤ 100
    → w ≤ seen t es
    → w ≤ seen t (trimmed es)
unfolding trimmed last
seen-trimmed t w es c few h = elim (Bool-cases (ltb 100 (length es))) [
  | inr short ↦ rw short h
  | inl long ↦ rw long (elim (seen-drop t (length es - 100) es c) [
    | inl more ↦ omega arith
    | inr whole ↦ ground (arith, length-drop (length es - 100) es)
  ])
]

pub trimmed_keeps :
    (now : ℕ) (es : List CryptoEvent)
    → IsChain es
    → All (Until now) es
    → IsChain (trimmed es) × All (Until now) (trimmed es)
unfolding trimmed last
trimmed_keeps now es c h = elim (Bool-cases (ltb 100 (length es))) [
  | inr short ↦ rw short (c, h)
  | inl long ↦
      rw long (IsChain-drop (length es - 100) es c, All-drop (Until now) (length es - 100) es h)
]
