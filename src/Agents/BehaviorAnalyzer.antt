-- ===== src/Agents/BehaviorAnalyzer.antt =====
-- apps/server/src/agents/behaviorAnalyzer.ts: what a user's messages have in common with those of a
-- bot. The means and deviations, floating point in the source, are compared exactly, as in
-- Regularity. `now` is the clock, which does not go back, and `hour` the hour of the day.
pub mod Clockwork
pub mod Histories
mod Tests
use pm_chat.Base.{
  ℕ, zero, suc, ◌+◌, ◌-◌, ◌*◌, min, String, Bool, true, false, not, ◌&&◌, Option, none, some, List,
  [], ◌∷◌, ◌++◌, if◌then◌else◌, ltb, leb, length, last, any, take, push_if, get_elem?, set,
}
use pm_chat.Dict
use pm_chat.Dict.{Dict}
use pm_chat.Agents.Regularity.{sum, is_regular, mean_below}

pub record BehaviorModel : Type 0 where
  pub user_id : String
  pub hourly_activity : List ℕ
  pub message_lengths : List ℕ
  pub message_intervals : List ℕ
  pub conversations_initiated : ℕ
  pub total_messages : ℕ
  pub last_message_at : ℕ
  pub bot_score : ℕ
  pub created_at : ℕ

-- `behaviorModels`
abbrev pub Models : Type 0
Models = Dict BehaviorModel

abbrev pub replicate {ℓ} : {A : Type ℓ} → ℕ → A → List A
replicate zero x = []
replicate (suc n) x = x ∷ replicate n x

-- `getOrCreateModel`
abbrev pub or_new : (user_id : String) (now : ℕ) → Option BehaviorModel → BehaviorModel
or_new user_id now none = record {
  user_id = user_id;
  hourly_activity = replicate 24 0;
  message_lengths = [];
  message_intervals = [];
  conversations_initiated = 0;
  total_messages = 0;
  last_message_at = 0;
  bot_score = 0;
  created_at = now;
}
or_new user_id now (some model) = model

-- `hourlyActivity[hour]++`
unfoldable pub bump : (hour : ℕ) → List ℕ → List ℕ
bump hour [] = []
bump zero (n ∷ ns) = (n + 1) ∷ ns
bump (suc hour) (n ∷ ns) = n ∷ bump hour ns

-- `push`, and `slice(-100)` of what is longer than 100
unfoldable pub push_100 : List ℕ → ℕ → List ℕ
push_100 xs x = if ltb 100 (length (xs ++ x ∷ [])) then last 100 (xs ++ x ∷ []) else xs ++ x ∷ []

-- the model with the message
unfoldable pub with_message : (message_length hour now : ℕ) → BehaviorModel → BehaviorModel
with_message message_length hour now m = record m {
  hourly_activity = bump hour m.hourly_activity;
  message_intervals =
      if ltb 0 m.last_message_at
      then push_100 m.message_intervals (now - m.last_message_at)
      else m.message_intervals;
  last_message_at = now;
  message_lengths = push_100 m.message_lengths message_length;
  total_messages = m.total_messages + 1;
}

pub data Indicator : Type 0 where
  regular_intervals uniform_lengths no_pause night_activity high_volume : Indicator

abbrev pub has_regular_intervals : BehaviorModel → Bool
has_regular_intervals m =
    leb 10 (length m.message_intervals)
    && (is_regular 10 (last 20 m.message_intervals)
        && mean_below 5_000 (last 20 m.message_intervals))

abbrev pub has_uniform_lengths : BehaviorModel → Bool
has_uniform_lengths m =
    leb 10 (length m.message_lengths)
    && (is_regular 20 (last 20 m.message_lengths) && leb 15 (length (last 20 m.message_lengths)))

abbrev pub has_no_pause : BehaviorModel → Bool
has_no_pause m =
    leb 20 (length m.message_intervals)
    && not (any (λ i. ltb 30_000 i) (last 20 m.message_intervals))

abbrev pub is_nocturnal : BehaviorModel → Bool
is_nocturnal m =
    ltb 0 (sum m.hourly_activity)
    && ltb (6 * sum m.hourly_activity) (10 * sum (take 6 m.hourly_activity))

-- more than 30 messages a minute since the model was made
abbrev pub is_voluminous : (now : ℕ) → BehaviorModel → Bool
is_voluminous now m =
    ltb 100 m.total_messages
    && (ltb 0 (now - m.created_at) && ltb (30 * (now - m.created_at)) (m.total_messages * 60_000))

abbrev pub points : ℕ → Bool → ℕ
points n test = if test then n else 0

unfoldable pub score_of : (now : ℕ) → BehaviorModel → ℕ
score_of now m =
    points 30 (has_regular_intervals m)
    + points 20 (has_uniform_lengths m)
    + points 15 (has_no_pause m)
    + points 10 (is_nocturnal m)
    + points 25 (is_voluminous now m)

unfoldable pub indicators_of : (now : ℕ) → BehaviorModel → List Indicator
indicators_of now m = push_if (has_regular_intervals m) regular_intervals (
    push_if (has_uniform_lengths m) uniform_lengths (
      push_if (has_no_pause m) no_pause
        (push_if (is_nocturnal m) night_activity (push_if (is_voluminous now m) high_volume []))))

pub record Analysis : Type 0 where
  pub bot_likely : Bool
  pub score : ℕ
  pub indicators : List Indicator

abbrev pub analysis_of : (now : ℕ) → BehaviorModel → Analysis
analysis_of now m = record {
  bot_likely = leb 50 (score_of now m);
  score = score_of now m;
  indicators = indicators_of now m;
}

-- `analyzeMessageBehavior`
unfoldable pub analyze_message_behavior :
    (user_id : String) (message_length hour now : ℕ) → Models → Models × Analysis
analyze_message_behavior user_id message_length hour now models =
    let m = with_message message_length hour now (or_new user_id now (Dict.get user_id models)) in
    (Dict.set user_id (record m { bot_score = min 100 (score_of now m) }) models, analysis_of now m)

-- `recordConversationInitiation`
unfoldable pub record_conversation_initiation : (user_id : String) (now : ℕ) → Models → Models
record_conversation_initiation user_id now models =
    let m = or_new user_id now (Dict.get user_id models) in
    Dict.set user_id (record m { conversations_initiated = m.conversations_initiated + 1 }) models

pub record Metrics : Type 0 where
  pub tracked_users : ℕ
  pub suspected_bots : ℕ
  pub total_messages_analyzed : ℕ

abbrev plus_model : BehaviorModel → Metrics → Metrics
plus_model m rest = record {
  tracked_users = rest.tracked_users + 1;
  suspected_bots = (if leb 50 m.bot_score then 1 else 0) + rest.suspected_bots;
  total_messages_analyzed = m.total_messages + rest.total_messages_analyzed;
}

-- `getBehaviorAnalyzerMetrics`
unfoldable pub get_behavior_analyzer_metrics : Models → Metrics
get_behavior_analyzer_metrics [] = record {
  tracked_users = 0;
  suspected_bots = 0;
  total_messages_analyzed = 0;
}
get_behavior_analyzer_metrics ((user_id, m) ∷ rest) =
    plus_model m (get_behavior_analyzer_metrics rest)

-- the cleanup of every fifteen minutes
unfoldable pub cleanup : (now : ℕ) → Models → Models
cleanup now models =
    Dict.retain (λ m. not (ltb (m.last_message_at + 7_200_000) now && ltb 0 m.last_message_at))
      models
