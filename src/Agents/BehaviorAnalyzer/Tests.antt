-- ===== src/Agents/BehaviorAnalyzer/Tests.antt =====
-- Runs of the behavior analyzer.
use pm_chat.Base.{
  ℕ, zero, suc, ◌+◌, ◌*◌, ◌≡◌, refl, arith, String, Bool, true, false, Option, none, some, List, [],
  ◌∷◌, ◌++◌, length,
}
use pm_chat.Dict
use pm_chat.Agents.Regularity.{is_regular}
use pm_chat.Agents.BehaviorAnalyzer.{
  replicate, bump, push_100, with_message, score_of, indicators_of, analyze_message_behavior,
  regular_intervals, uniform_lengths, no_pause, night_activity, get_behavior_analyzer_metrics,
  record_conversation_initiation, cleanup,
}
use pm_chat.Agents.BehaviorAnalyzer.Clockwork.{beats, clockwork_is_bot}
use pm_chat.Agents.BehaviorAnalyzer.Histories.{step, run}

analyzer : Unit {0}
unfolding bump push_100 with_message score_of indicators_of analyze_message_behavior
    get_behavior_analyzer_metrics record_conversation_initiation cleanup step run beats is_regular
    pm_chat.Base.total pm_chat.Base.any pm_chat.Base.last Dict.get Dict.set Dict.delete Dict.retain
analyzer = tt

bot :
    (analyze_message_behavior "u" 7 3 21_000 (beats "u" 7 1_000 1_000 (replicate 20 3) [])).1
    ≡ record {
      bot_likely = true;
      score = 75;
      indicators = regular_intervals ∷ uniform_lengths ∷ no_pause ∷ night_activity ∷ [];
    }
unfolding analyzer
bot = refl

human :
    (analyze_message_behavior "u" 9 14 90_000 (
      beats "u" 30 20_000 50_000
        (12 ∷ 12 ∷ [])
        (beats "u" 7 1_000 1_000 (12 ∷ 13 ∷ []) []))).1.score
    ≡ 0
unfolding analyzer
human = refl

clockwork_is_bot_example :
    (analyze_message_behavior "u" 7 14
      (1_000 + length {A = ℕ} (replicate 20 3) * 500)
      (beats "u" 7 500 1_000 (replicate 20 3) [])).1.bot_likely
    ≡ true
unfolding Dict.get
clockwork_is_bot_example =
    clockwork_is_bot "u" 7 500 1_000 14 (replicate 20 3) [] (omega arith) (omega arith)
      (omega arith) refl
