-- ===== src/Agents/ThreatIntelligence.antt =====
-- apps/server/src/agents/threatIntelligence.ts: the score of a target from the signals about it, and
-- the response. Times are milliseconds of a clock that does not go back. The weights of the source
-- are multiplied by 3600000 here, so that the score is computed on whole numbers, without the
-- rounding errors of floating point. A severity is a whole number that is not negative.
pub mod Quarantine
pub mod Severity
mod Tests
use pm_chat.Base.{
  ℕ, ◌+◌, ◌*◌, ◌-◌, ◌/◌, min, max, String, Bool, true, false, not, ◌&&◌, ◌||◌, Option, none, some,
  List, [], ◌∷◌, ◌++◌, if◌then◌else◌, ltb, leb, ◌==◌, length, last,
}
use pm_chat.Dict
use pm_chat.Dict.{Dict}

pub data Action : Type 0 where
  allow warn throttle block quarantine : Action

pub record Signal : Type 0 where
  pub source : String
  pub severity : ℕ
  pub message : String
  pub timestamp : ℕ

pub record ThreatRecord : Type 0 where
  pub target : String
  pub score : ℕ
  pub signals : List Signal
  pub last_action : Action
  pub last_updated : ℕ
  pub quarantine_until : Option ℕ

-- `threatDatabase`
abbrev pub Database : Type 0
Database = Dict ThreatRecord

abbrev pub quarantine_duration_ms : ℕ
quarantine_duration_ms = 3_600_000

-- `ACTION_THRESHOLDS`, in the order of its keys
abbrev pub action_thresholds : List (Action × ℕ)
action_thresholds = (allow, 0) ∷ (warn, 20) ∷ (throttle, 40) ∷ (block, 60) ∷ (quarantine, 80) ∷ []

-- `getOrCreateRecord`
abbrev pub or_new : (target : String) (now : ℕ) → Option ThreatRecord → ThreatRecord
or_new target now none = record {
  target = target;
  score = 0;
  signals = [];
  last_action = allow;
  last_updated = now;
  quarantine_until = none;
}
or_new target now (some r) = r

-- `Math.max(0.1, 1 - age / 60)` of an age in minutes, 3600000 times
abbrev pub weight : (now : ℕ) → Signal → ℕ
weight now signal = max 360_000 (3_600_000 - (now - signal.timestamp))

unfoldable pub total_weight : (now : ℕ) → List Signal → ℕ
total_weight now [] = 0
total_weight now (s ∷ signals) = weight now s + total_weight now signals

-- the sum of `signal.severity * weight`
unfoldable pub weighted_score : (now : ℕ) → List Signal → ℕ
weighted_score now [] = 0
weighted_score now (s ∷ signals) = s.severity * weight now s + weighted_score now signals

-- `Math.round` of a quotient
abbrev pub round : (a b : ℕ) → ℕ
round a b = (2 * a + b) / (2 * b)

-- `Math.min(100, Math.round(weightedScore / Math.max(1, totalWeight)))`
unfoldable pub score_of : (now : ℕ) → List Signal → ℕ
score_of now signals =
    min 100 (round (10 * weighted_score now signals) (max 3_600_000 (total_weight now signals)))

-- the loop that determines the action
unfoldable pub reached : (score : ℕ) → Action → List (Action × ℕ) → Action
reached score action [] = action
reached score action ((act, threshold) ∷ rest) =
    reached score (if leb threshold score then act else action) rest

unfoldable pub action_of : (score : ℕ) → Action
action_of score = reached score allow action_thresholds

abbrev pub quarantined : (now : ℕ) → Action → Option ℕ → Option ℕ
quarantined now quarantine until = some (now + quarantine_duration_ms)
quarantined now _ until = until

-- the record after a signal
unfoldable pub with_signal : Signal → (now : ℕ) → ThreatRecord → ThreatRecord
with_signal signal now r =
    let signals = last 50 (r.signals ++ signal ∷ []) in
    let score = score_of now signals in
    record r {
      score = score;
      signals = signals;
      last_action = action_of score;
      last_updated = now;
      quarantine_until = quarantined now (action_of score) r.quarantine_until;
    }

pub record Report : Type 0 where
  pub action : Action
  pub score : ℕ

abbrev pub signal_at : (source : String) (severity : ℕ) (message : String) (now : ℕ) → Signal
signal_at source severity message now = record {
  source = source;
  severity = severity;
  message = message;
  timestamp = now;
}

-- `reportThreatSignal`
unfoldable pub report_threat_signal :
    (target source : String) (severity : ℕ) (message : String) (now : ℕ)
    → Database
    → Database × Report
report_threat_signal target source severity message now db =
    let r =
      with_signal (signal_at source severity message now) now
        (or_new target now (Dict.get target db)) in
    (Dict.set target r db, record { action = r.last_action; score = r.score })

pub record Status : Type 0 where
  pub allowed : Bool
  pub action : Action
  pub score : ℕ

abbrev pub is_let_through : Action → Bool
is_let_through block = false
is_let_through quarantine = false
is_let_through _ = true

abbrev pub status : ThreatRecord → Status
status r = record {
  allowed = is_let_through r.last_action;
  action = r.last_action;
  score = r.score;
}

-- an expired quarantine is cleared
abbrev pub cleared : ThreatRecord → ThreatRecord
cleared r = record r { quarantine_until = none; score = r.score - 30; last_action = allow }

abbrev pub check_record :
    (target : String) (now : ℕ) → ThreatRecord → Option ℕ → Database → Database × Status
check_record target now r none db = (db, status r)
check_record target now r (some until) db =
    if ltb now until
    then (db, record { allowed = false; action = quarantine; score = r.score })
    else (Dict.set target (cleared r) db, status (cleared r))

-- `checkThreatStatus`
unfoldable pub check_threat_status : (target : String) (now : ℕ) → Database → Database × Status
check_threat_status target now db = elim (Dict.get target db) [
  | none ↦ (db, record { allowed = true; action = allow; score = 0 })
  | some r ↦ check_record target now r r.quarantine_until db
]

abbrev pub is_none {ℓ} : {A : Type ℓ} → Option A → Bool
is_none none = true
is_none (some a) = false

-- one record of the periodic decay; `none`: it is deleted
unfoldable pub decay_record : (now : ℕ) → ThreatRecord → Option ThreatRecord
decay_record now r =
    if ltb 3_600_000 (now - r.last_updated)
    then if (r.score - 10 == 0) && is_none r.quarantine_until
      then none
      else some (record r { score = r.score - 10 })
    else if ltb 300_000 (now - r.last_updated)
    then some (record r { score = r.score - 2 })
    else some r

abbrev keep_some : String → Option ThreatRecord → Database → Database
keep_some target none rest = rest
keep_some target (some r) rest = (target, r) ∷ rest

-- the decay of every two minutes
unfoldable pub decay : (now : ℕ) → Database → Database
decay now [] = []
decay now ((target, r) ∷ rest) = keep_some target (decay_record now r) (decay now rest)

pub record Metrics : Type 0 where
  pub tracked_targets : ℕ
  pub active_threats : ℕ
  pub quarantined_targets : ℕ
  pub total_signals : ℕ

abbrev is_quarantined : (now : ℕ) → Option ℕ → Bool
is_quarantined now none = false
is_quarantined now (some until) = ltb now until

abbrev counted : (now : ℕ) → ThreatRecord → Metrics → Metrics
counted now r m = record {
  tracked_targets = m.tracked_targets + 1;
  active_threats = (if ltb 20 r.score then 1 else 0) + m.active_threats;
  quarantined_targets =
      (if is_quarantined now r.quarantine_until then 1 else 0) + m.quarantined_targets;
  total_signals = length r.signals + m.total_signals;
}

-- `getThreatIntelligenceMetrics`
unfoldable pub get_threat_intelligence_metrics : (now : ℕ) → Database → Metrics
get_threat_intelligence_metrics now [] = record {
  tracked_targets = 0;
  active_threats = 0;
  quarantined_targets = 0;
  total_signals = 0;
}
get_threat_intelligence_metrics now ((target, r) ∷ rest) =
    counted now r (get_threat_intelligence_metrics now rest)
