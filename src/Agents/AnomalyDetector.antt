-- ===== src/Agents/AnomalyDetector.antt =====
-- apps/server/src/agents/anomalyDetector.ts: the rate of a user's messages, changes of address and
-- repeated logins. Times are milliseconds of a clock that does not go back.
pub mod Scores
pub mod Timestamps
pub mod Rates
mod Tests
use pm_chat.Base.{
  ℕ, ◌+◌, ◌-◌, min, String, Bool, true, false, not, ◌&&◌, Option, none, some, List, [], ◌∷◌, ◌++◌,
  if◌then◌else◌, ltb, ◌===◌, length, keep, get_last?,
}
use pm_chat.Dict
use pm_chat.Dict.{Dict}
use pm_chat.NameSet
use pm_chat.NameSet.{NameSet}

pub record Sighting : Type 0 where
  pub ip : String
  pub timestamp : ℕ

pub record Profile : Type 0 where
  pub user_id : String
  pub message_timestamps : List ℕ
  pub login_timestamps : List ℕ
  pub ip_history : List Sighting
  pub avg_message_interval : ℕ
  pub max_messages_per_minute : ℕ
  pub device_fingerprints : NameSet
  pub anomaly_score : ℕ
  pub last_activity : ℕ

-- `profiles`
abbrev pub Profiles : Type 0
Profiles = Dict Profile

abbrev pub window_ms : ℕ
window_ms = 300_000

abbrev pub max_messages : ℕ
max_messages = 60

abbrev pub anomaly_threshold : ℕ
anomaly_threshold = 75

-- `getOrCreateProfile`
abbrev pub or_new : (user_id : String) (now : ℕ) → Option Profile → Profile
or_new user_id now none = record {
  user_id = user_id;
  message_timestamps = [];
  login_timestamps = [];
  ip_history = [];
  avg_message_interval = 0;
  max_messages_per_minute = 0;
  device_fingerprints = [];
  anomaly_score = 0;
  last_activity = now;
}
or_new user_id now (some p) = p

-- `filter((t) => now - t < span)`
abbrev pub recent : (span now : ℕ) → List ℕ → List ℕ
recent span now = keep (λ t. ltb (now - t) span)

abbrev pub raised : (by : ℕ) → Profile → Profile
raised by p = record p { anomaly_score = min 100 (p.anomaly_score + by) }

-- `lastIP && lastIP.ip !== ip && now - lastIP.timestamp < 60_000`
abbrev pub has_jumped : (ip : String) (now : ℕ) → Option Sighting → Bool
has_jumped ip now none = false
has_jumped ip now (some last) = not (last.ip === ip) && ltb (now - last.timestamp) 60_000

pub data Verdict : Type 0 where
  velocity burst ip_change normal : Verdict

-- the profile with the message
abbrev pub with_message : (now : ℕ) → Profile → Profile
with_message now p = record p {
  message_timestamps = recent window_ms now (p.message_timestamps ++ now ∷ []);
  last_activity = now;
}

-- the checks on a profile with the message
unfoldable pub judge : (ip : String) (now : ℕ) → Profile → Profile × Verdict
judge ip now p =
    if ltb max_messages (length (recent 60_000 now p.message_timestamps))
    then (raised 20 p, velocity)
    else if ltb 10 (length (recent 5_000 now p.message_timestamps))
    then (raised 15 p, burst)
    else if has_jumped ip now (get_last? p.ip_history)
    then (raised 25 p, ip_change)
    else (
      record p {
        ip_history = p.ip_history ++ record { ip = ip; timestamp = now } ∷ [];
        anomaly_score = p.anomaly_score - 1;
      },
      normal,
    )

pub record Reading : Type 0 where
  pub verdict : Verdict
  pub score : ℕ

-- `recordMessageEvent`
unfoldable pub record_message_event :
    (user_id ip : String) (now : ℕ) → Profiles → Profiles × Reading
record_message_event user_id ip now profiles =
    let judged = judge ip now (with_message now (or_new user_id now (Dict.get user_id profiles))) in
    (
      Dict.set user_id judged.0 profiles,
      record { verdict = judged.1; score = judged.0.anomaly_score },
    )

-- `if (fingerprint)`
unfoldable pub with_fingerprint : Option String → Profile → Profile
with_fingerprint none p = p
with_fingerprint (some fingerprint) p =
    if fingerprint === ""
    then p
    else let known =
        if ltb 0 (length p.device_fingerprints)
          && not (NameSet.has fingerprint p.device_fingerprints)
        then raised 10 p
        else p in
      record known { device_fingerprints = NameSet.add fingerprint p.device_fingerprints }

unfoldable pub judge_login : (now : ℕ) → Profile → Profile × Bool
judge_login now p =
    if ltb 5 (length (recent 300_000 now p.login_timestamps))
    then (raised 15 p, true)
    else (p, ltb anomaly_threshold p.anomaly_score)

-- `recordLoginEvent`
unfoldable pub record_login_event :
    (user_id : String) (fingerprint : Option String) (now : ℕ) → Profiles → Profiles × Bool
record_login_event user_id fingerprint now profiles =
    let p = or_new user_id now (Dict.get user_id profiles) in
    let seen = record p {
      login_timestamps = p.login_timestamps ++ now ∷ [];
      last_activity = now;
    } in
    let (after, suspicious) = judge_login now (with_fingerprint fingerprint seen) in
    (Dict.set user_id after profiles, suspicious)

abbrev score_or_zero : Option Profile → ℕ
score_or_zero none = 0
score_or_zero (some p) = p.anomaly_score

-- `getAnomalyScore`
unfoldable pub get_anomaly_score : (user_id : String) → Profiles → ℕ
get_anomaly_score user_id profiles = score_or_zero (Dict.get user_id profiles)

-- the cleanup of every ten minutes
unfoldable pub cleanup : (now : ℕ) → Profiles → Profiles
cleanup now profiles = Dict.retain (λ p. not (ltb (p.last_activity + 3_600_000) now)) profiles

pub record Metrics : Type 0 where
  pub tracked_users : ℕ
  pub high_risk_users : ℕ
  pub total_events : ℕ

abbrev counted : Profile → Metrics → Metrics
counted p m = record {
  tracked_users = m.tracked_users + 1;
  high_risk_users = (if ltb anomaly_threshold p.anomaly_score then 1 else 0) + m.high_risk_users;
  total_events = length p.message_timestamps + length p.login_timestamps + m.total_events;
}

-- `getAnomalyDetectorMetrics`
unfoldable pub get_anomaly_detector_metrics : Profiles → Metrics
get_anomaly_detector_metrics [] = record {
  tracked_users = 0;
  high_risk_users = 0;
  total_events = 0;
}
get_anomaly_detector_metrics ((user_id, p) ∷ rest) = counted p (get_anomaly_detector_metrics rest)
