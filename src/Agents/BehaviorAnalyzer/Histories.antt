-- ===== src/Agents/BehaviorAnalyzer/Histories.antt =====
-- What holds of every model that the analyzer keeps.
use pm_chat.Base.{
  ℕ, zero, suc, ◌+◌, ◌-◌, ◌≤◌, ◌<◌, ◌≡◌, ◌∙◌, refl, String, List, [], ◌∷◌, ◌++◌, arith, length, All,
  Option-cases, inl, inr, length-last-le, total,
}
use pm_chat.Dict
use pm_chat.Agents.Regularity.{sum}
use pm_chat.Agents.BehaviorAnalyzer.{
  BehaviorModel, Models, or_new, bump, push_100, with_message, analyze_message_behavior,
  record_conversation_initiation, cleanup,
}

pub data Call : Type 0 where
  message : (user_id : String) (message_length hour now : ℕ) → Call
  initiation : (user_id : String) (now : ℕ) → Call
  clean : (now : ℕ) → Call

unfoldable pub step : Models → Call → Models
step s (message u len hour now) = (analyze_message_behavior u len hour now s).0
step s (initiation u now) = record_conversation_initiation u now s
step s (clean now) = cleanup now s

unfoldable pub run : Models → List Call → Models
run s [] = s
run s (c ∷ cs) = run (step s c) cs

abbrev pub HasHour : Call → Type 0
HasHour (message u len hour now) = hour < 24
HasHour _ = Unit {0}

pub record HasHistories (user_id : String) (m : BehaviorModel) : Type 0 where
  hours : length m.hourly_activity ≡ 24
  each_counted : sum m.hourly_activity ≡ m.total_messages
  few_intervals : length m.message_intervals ≤ 100
  few_lengths : length m.message_lengths ≤ 100
  score : m.bot_score ≤ 100

length-bump : (hour : ℕ) (xs : List ℕ) → length (bump hour xs) ≡ length xs
unfolding bump
length-bump zero [] = refl
length-bump (suc hour) [] = refl
length-bump zero (x ∷ xs) = refl
length-bump (suc hour) (x ∷ xs) = omega (arith, length-bump hour xs)

sum-bump : (hour : ℕ) (xs : List ℕ) → hour < length xs → sum (bump hour xs) ≡ sum xs + 1
unfolding bump total
sum-bump zero [] h = absurd (omega arith)
sum-bump (suc hour) [] h = absurd (omega arith)
sum-bump zero (x ∷ xs) h = omega arith
sum-bump (suc hour) (x ∷ xs) h = omega (arith, sum-bump hour xs (omega arith))

push_100_bound : (xs : List ℕ) (x : ℕ) → length (push_100 xs x) ≤ 100
unfolding push_100
push_100_bound xs x = ground (arith, length-last-le 100 (xs ++ x ∷ []))

or_new-HasHistories :
    (u : String) (now : ℕ) (s : Models)
    → Dict.Each HasHistories s
    → HasHistories u (or_new u now (Dict.get u s))
unfolding total
or_new-HasHistories u now s h = elim (Option-cases (Dict.get u s)) [
  | inl missing ↦ rw missing (record {
    hours = refl;
    each_counted = refl;
    few_intervals = omega arith;
    few_lengths = omega arith;
    score = omega arith;
  })
  | inr (m, found) ↦ rw found (Dict.get-Each HasHistories u m s h found)
]

analyzed-HasHistories :
    (u : String) (len hour now b : ℕ) (m : BehaviorModel)
    → hour < 24
    → b ≤ 100
    → HasHistories u m
    → HasHistories u (record (with_message len hour now m) { bot_score = b })
unfolding with_message
analyzed-HasHistories u len hour now b m h small k = record {
  hours = length-bump hour m.hourly_activity ∙ k.hours;
  each_counted =
      omega (arith, sum-bump hour m.hourly_activity (omega (arith, k.hours)), k.each_counted);
  few_intervals =
      ground (arith, k.few_intervals, push_100_bound m.message_intervals (now - m.last_message_at));
  few_lengths = push_100_bound m.message_lengths len;
  score = small;
}

step-Each :
    (s : Models) (c : Call)
    → HasHour c
    → Dict.Each HasHistories s
    → Dict.Each HasHistories (step s c)
unfolding step analyze_message_behavior record_conversation_initiation cleanup
step-Each s (message u len hour now) h k =
    Dict.Each-set HasHistories u _ s
      (analyzed-HasHistories u len hour now _ _ h (omega arith) (or_new-HasHistories u now s k)) k
step-Each s (initiation u now) h k =
    let c = or_new-HasHistories u now s k in
    Dict.Each-set HasHistories u _ s
      (record {
        hours = c.hours;
        each_counted = c.each_counted;
        few_intervals = c.few_intervals;
        few_lengths = c.few_lengths;
        score = c.score;
      })
      k
step-Each s (clean now) h k = Dict.Each-retain HasHistories _ s k

-- After any run of messages, initiations and cleanups, with hours of the day, every model has 24
-- counters that add up to the number of the user's messages, at most a hundred intervals and a
-- hundred lengths, and a score of at most 100.
run-HasHistories :
    (cs : List Call) (s : Models)
    → All HasHour cs
    → Dict.Each HasHistories s
    → Dict.Each HasHistories (run s cs)
unfolding run
run-HasHistories [] s h k = k
run-HasHistories (c ∷ cs) s (h, hs) k = run-HasHistories cs (step s c) hs (step-Each s c h k)
