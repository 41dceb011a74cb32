-- ===== src/Agents/CryptoWatchdog/Window.antt =====
-- How many exchanges of keys a user is let make in five minutes.
use pm_chat.Base.{
  ℕ, ◌≤◌, ◌≡◌, refl, inl, inr, String, false, List, [], ◌∷◌, ◌++◌, arith, eq_iff, ◌===◌,
  if◌then◌else◌, Bool-cases, subst, ◌∙◌, sym,
}
use pm_chat.Dict
use pm_chat.Agents.CryptoWatchdog.{Profiles, exchange_rate_limit, monitor_key_exchange, cleanup}
use pm_chat.Agents.CryptoWatchdog.Recent.{within}
use pm_chat.Agents.CryptoWatchdog.Knowledge.{
  Knows, with_event-Pushed, judge-Knows, elsewhere, clean-Knows,
}

pub data Call : Type 0 where
  exchange : (user_id target_user_id public_key : String) (now : ℕ) → Call
  clean : (now : ℕ) → Call

abbrev pub time : Call → ℕ
time (exchange user_id target_user_id public_key now) = now
time (clean now) = now

unfoldable pub step : Profiles → Call → Profiles
step s (exchange u target key now) = (monitor_key_exchange u target key now s).0
step s (clean now) = cleanup now s

-- The times of the user's exchanges with those of the call, if it is one that is let through.
unfoldable pub noted : (user_id : String) → Profiles → List ℕ → Call → List ℕ
noted u s before (exchange v target key now) =
    if v === u
    then (if (monitor_key_exchange v target key now s).1 then before ++ now ∷ [] else before)
    else before
noted u s before (clean now) = before

-- The times of all exchanges of the user that are let through.
unfoldable pub allowed : (user_id : String) → Profiles → List ℕ → List Call → List ℕ
allowed u s before [] = before
allowed u s before (c ∷ cs) = allowed u (step s c) (noted u s before c) cs

abbrev pub InOrder : (from till : ℕ) → List Call → Type 0
InOrder from till [] = from ≤ till
InOrder from till (c ∷ cs) = (from ≤ time c) × InOrder (time c) till cs

moved :
    (v u target key : String) (now : ℕ) (s : Profiles)
    → (v === u) ≡ false
    → Dict.get u (step s (exchange v target key now)) ≡ Dict.get u s
unfolding step monitor_key_exchange
moved v u target key now s other = Dict.get-set v u _ s ∙ (rw other)

step-Knows :
    (u : String) (from : ℕ) (times : List ℕ) (s : Profiles) (c : Call)
    → from ≤ time c
    → Knows from times (Dict.get u s)
    → Knows (time c) (noted u s times c) (Dict.get u (step s c))
unfolding step noted cleanup monitor_key_exchange
step-Knows u from times s (clean now) h k =
    subst (Knows now times) (sym (Dict.get-retain u _ s))
      (clean-Knows from now times (Dict.get u s) h k)
step-Knows u from times s (exchange v target key now) h k = elim (Bool-cases (v === u)) [
  | inr other ↦
      subst (λ xs. Knows now xs (Dict.get u (step s (exchange v target key now)))) (ground arith)
        (subst (Knows now times) (sym (moved v u target key now s other))
          (elsewhere from now times (Dict.get u s) h k))
  | inl same ↦
      let here : Knows from times (Dict.get v s) =
        subst (λ x. Knows from times (Dict.get x s)) (sym ((eq_iff v u).0 same)) k in
      rw same (
        subst
          (Knows now
            (if (monitor_key_exchange v target key now s).1 then times ++ now ∷ [] else times))
          (sym (Dict.get-set v u _ s ∙ (rw same)))
          (judge-Knows key from now times (Dict.get v s) _ h here
            (with_event-Pushed v target key from now times (Dict.get v s) h here)))
]

run-Knows :
    (u : String) (from till : ℕ) (times : List ℕ) (cs : List Call) (s : Profiles)
    → InOrder from till cs
    → Knows from times (Dict.get u s)
    → (t : ℕ) → till ≤ t
    → within t (allowed u s times cs) ≤ exchange_rate_limit
unfolding allowed
run-Knows u from till times [] s h k t late = k.few t (omega arith)
run-Knows u from till times (c ∷ cs) s (h, hs) k t late =
    run-Knows u (time c) till _ cs _ hs (step-Knows u from times s c h k) t late

-- From the start of the watchdog, with calls at times that do not go back, exchanges of all users
-- and cleanups in any order, a user is let make at most twenty exchanges of keys in any five
-- minutes: neither the cut to a hundred events nor the deletion of a profile lets in more.
pub allowed_within-le :
    (user_id : String) (cs : List Call) (till t : ℕ)
    → InOrder 0 till cs
    → till ≤ t
    → within t (allowed user_id [] [] cs) ≤ exchange_rate_limit
unfolding Dict.get within
allowed_within-le u cs till t h late =
    run-Knows u 0 till [] cs [] h
      (record { few = λ x later. omega arith; before = tt; told = λ x later. refl }) t late
