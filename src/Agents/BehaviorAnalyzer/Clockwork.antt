-- ===== src/Agents/BehaviorAnalyzer/Clockwork.antt =====
-- A sender as regular as a clock is taken for a bot.
use pm_chat.Base.{
  ℕ, zero, suc, ◌+◌, ◌-◌, ◌*◌, ◌≤◌, ◌<◌, ◌≡◌, refl, min, String, true, false, none, List, [], ◌∷◌,
  ◌++◌, arith, ltb, leb_iff, length, last, any, All, All-append, All-drop, length-append,
  length-drop, Bool-cases, inl, inr, sym, subst,
}
use pm_chat.Dict
use pm_chat.Agents.Regularity.{is_regular_equal, mean_below_equal}
use pm_chat.Agents.BehaviorAnalyzer.{
  BehaviorModel, Models, or_new, push_100, with_message, has_regular_intervals, has_uniform_lengths,
  has_no_pause, score_of, analyze_message_behavior,
}

-- The messages of the user, one for each of the hours, at times that are `gap` apart.
unfoldable pub beats :
    (user_id : String) (message_length gap now : ℕ) (hours : List ℕ) → Models → Models
beats u len gap now [] s = s
beats u len gap now (hour ∷ hours) s =
    beats u len gap (now + gap) hours (analyze_message_behavior u len hour now s).0

push_100-All : (P : ℕ → Type 0) (xs : List ℕ) (x : ℕ) → All P xs → P x → All P (push_100 xs x)
unfolding push_100 last
push_100-All P xs x h p = elim (Bool-cases (ltb 100 (length (xs ++ x ∷ [])))) [
  | inl long ↦ rw long (All-drop P _ _ (All-append P xs (x ∷ []) h (p, tt)))
  | inr short ↦ rw short (All-append P xs (x ∷ []) h (p, tt))
]

push_100-length : (xs : List ℕ) (x n : ℕ) → n ≤ 100 → n ≤ length xs + 1 → n ≤ length (push_100 xs x)
unfolding push_100 last
push_100-length xs x n small h =
    ground
      (arith, length-append xs (x ∷ []), length-drop (length (xs ++ x ∷ []) - 100) (xs ++ x ∷ []))

-- The model of such a sender when message number `n` comes, at `now`.
record IsClockwork (len gap now n : ℕ) (m : BehaviorModel) : Type 0 where
  intervals : All (λ x. x ≡ gap) m.message_intervals
  lengths : All (λ x. x ≡ len) m.message_lengths
  some_intervals : min 20 (n - 1) ≤ length m.message_intervals
  some_lengths : min 20 n ≤ length m.message_lengths
  first : n ≡ 0 → m.last_message_at ≡ 0
  later : 0 < n → (0 < m.last_message_at) × (m.last_message_at + gap ≡ now)

with_message-IsClockwork :
    (len gap hour now n : ℕ) (m : BehaviorModel)
    → 0 < now
    → IsClockwork len gap now n m
    → IsClockwork len gap (now + gap) (n + 1) (with_message len hour now m)
unfolding with_message
with_message-IsClockwork len gap hour now zero m pos k =
    let none_yet : ltb 0 m.last_message_at ≡ false = ground (arith, k.first refl) in
    record {
      intervals = rw none_yet k.intervals;
      lengths = push_100-All (λ x. x ≡ len) m.message_lengths len k.lengths refl;
      some_intervals = rw none_yet (omega arith);
      some_lengths =
          push_100-length m.message_lengths len _ (omega arith) (omega (arith, k.some_lengths));
      first = λ e. absurd (omega arith);
      later = λ h. (pos, refl);
    }
with_message-IsClockwork len gap hour now (suc n) m pos k =
    let (known, next) = k.later (omega arith) in
    let going : ltb 0 m.last_message_at ≡ true = ground arith in
    record {
      intervals =
          rw going (push_100-All (λ x. x ≡ gap) m.message_intervals _ k.intervals (omega arith));
      lengths = push_100-All (λ x. x ≡ len) m.message_lengths len k.lengths refl;
      some_intervals =
          rw going (
            push_100-length m.message_intervals _ _ (omega arith)
              (omega (arith, k.some_intervals)));
      some_lengths =
          push_100-length m.message_lengths len _ (omega arith) (omega (arith, k.some_lengths));
      first = λ e. absurd (omega arith);
      later = λ h. (pos, refl);
    }

last_20 :
    (P : ℕ → Type 0) (xs : List ℕ)
    → 20 ≤ length xs
    → All P xs
    → (length (last 20 xs) ≡ 20) × All P (last 20 xs)
unfolding last
last_20 P xs long h =
    (omega (arith, length-drop (length xs - 20) xs), All-drop P (length xs - 20) xs h)

no_pause_equal :
    (gap : ℕ) (xs : List ℕ)
    → gap ≤ 30_000
    → All (λ x. x ≡ gap) xs
    → any (λ i. ltb 30_000 i) xs ≡ false
unfolding any
no_pause_equal gap [] small h = refl
no_pause_equal gap (x ∷ xs) small (e, h) = ground (arith, no_pause_equal gap xs small h)

clockwork_score :
    (len gap now t n : ℕ) (m : BehaviorModel)
    → 20 < n
    → gap < 5_000
    → IsClockwork len gap t n m
    → 50 ≤ score_of now m
unfolding score_of
clockwork_score len gap now t n m many fast k =
    let i =
      last_20 (λ x. x ≡ gap) m.message_intervals (omega (arith, k.some_intervals)) k.intervals in
    let l = last_20 (λ x. x ≡ len) m.message_lengths (omega (arith, k.some_lengths)) k.lengths in
    let r1 = is_regular_equal 10 gap (last 20 m.message_intervals) (omega (arith, i.0)) i.1 in
    let r2 =
      mean_below_equal 5_000 gap (last 20 m.message_intervals) (omega (arith, i.0)) i.1 fast in
    let r3 = is_regular_equal 20 len (last 20 m.message_lengths) (omega (arith, l.0)) l.1 in
    let r4 = no_pause_equal gap (last 20 m.message_intervals) (omega arith) i.1 in
    let e1 : has_regular_intervals m ≡ true = ground (arith, k.some_intervals) in
    let e2 : has_uniform_lengths m ≡ true = ground (arith, k.some_lengths) in
    let e3 : has_no_pause m ≡ true = ground (arith, k.some_intervals) in
    rw (e1, e2, e3) (omega arith)

rescored-IsClockwork :
    (len gap now n score : ℕ) (m : BehaviorModel)
    → IsClockwork len gap now n m
    → IsClockwork len gap now n (record m { bot_score = score })
rescored-IsClockwork len gap now n score m k = record {
  intervals = k.intervals;
  lengths = k.lengths;
  some_intervals = k.some_intervals;
  some_lengths = k.some_lengths;
  first = k.first;
  later = k.later;
}

-- The user's model, when message number `n` comes at `now`.
abbrev Beat : (user_id : String) (len gap now n : ℕ) → Models → Type 0
Beat u len gap now n s = IsClockwork len gap now n (or_new u now (Dict.get u s))

analyzed-Beat :
    (u : String) (len gap hour now n : ℕ) (s : Models)
    → 0 < now
    → Beat u len gap now n s
    → Beat u len gap (now + gap) (n + 1) (analyze_message_behavior u len hour now s).0
unfolding analyze_message_behavior
analyzed-Beat u len gap hour now n s pos k =
    let m = with_message len hour now (or_new u now (Dict.get u s)) in
    let after = record m { bot_score = min 100 (score_of now m) } in
    subst (λ o. IsClockwork len gap (now + gap) (n + 1) (or_new u (now + gap) o))
      (sym (Dict.get-set_self u after s))
      (rescored-IsClockwork len gap (now + gap) (n + 1) (min 100 (score_of now m)) m
        (with_message-IsClockwork len gap hour now n (or_new u now (Dict.get u s)) pos k))

beats-Beat :
    (u : String) (len gap now n : ℕ) (hours : List ℕ) (s : Models)
    → 0 < now
    → Beat u len gap now n s
    → Beat u len gap (now + length hours * gap) (n + length hours) (beats u len gap now hours s)
unfolding beats
beats-Beat u len gap now n [] s pos k =
    let e1 : now + 0 * gap ≡ now = omega arith in let e2 : n + 0 ≡ n = omega arith in rw (e1, e2) k
beats-Beat u len gap now n (hour ∷ hours) s pos k =
    let e1 : now + gap + length hours * gap ≡ now + suc (length hours) * gap = grind arith in
    let e2 : n + 1 + length hours ≡ n + suc (length hours) = omega arith in
    rw (← e1, ← e2)
      (beats-Beat u len gap (now + gap) (n + 1) hours _ (omega arith)
        (analyzed-Beat u len gap hour now n s pos k))

start-Beat :
    (u : String) (len gap now : ℕ) (s : Models) → Dict.get u s ≡ none → Beat u len gap now 0 s
start-Beat u len gap now s new = rw new (record {
  intervals = tt;
  lengths = tt;
  some_intervals = omega arith;
  some_lengths = omega arith;
  first = λ e. refl;
  later = λ h. absurd (omega arith);
})

-- A user of whom the analyzer has no model, and who sends messages of one length at times that are
-- all the same number of milliseconds apart, fewer than 5000, is found likely to be a bot from the
-- 21st message on, at whatever hours the messages fall.
pub clockwork_is_bot :
    (user_id : String) (message_length gap now hour : ℕ) (hours : List ℕ) (s : Models)
    → 0 < now
    → gap < 5_000
    → 20 ≤ length hours
    → Dict.get user_id s ≡ none
    → (analyze_message_behavior user_id message_length hour
        (now + length hours * gap)
        (beats user_id message_length gap now hours s)).1.bot_likely
      ≡ true
unfolding analyze_message_behavior
clockwork_is_bot u len gap now hour hours s pos fast many new =
    let t = now + length hours * gap in
    (leb_iff 50 _).1 (
      clockwork_score len gap t (t + gap) (0 + length hours + 1) _ (omega arith) fast (
        with_message-IsClockwork len gap hour t (0 + length hours) _ (omega arith)
          (beats-Beat u len gap now 0 hours s pos (start-Beat u len gap now s new))))
