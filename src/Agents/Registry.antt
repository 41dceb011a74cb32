-- ===== src/Agents/Registry.antt =====
-- apps/server/src/agents/index.ts: the state of all eight agents in one list, the recent security
-- events, and the threat report. The names, descriptions and dates, which are texts for people, are
-- left out.
pub mod Report
pub mod Ring
use pm_chat.Base.{
  ℕ, ◌+◌, String, Bool, true, false, not, ◌||◌, Option, List, [], ◌∷◌, ◌++◌, map, if◌then◌else◌,
  ltb, length, drop, last, any, is_empty,
}
use pm_chat.Json.{Json}
use pm_chat.Agents.LinkGuard
use pm_chat.Agents.LinkGuard.{get_link_guard_metrics}
use pm_chat.Agents.AnomalyDetector
use pm_chat.Agents.AnomalyDetector.{get_anomaly_detector_metrics}
use pm_chat.Agents.ContentIntegrity
use pm_chat.Agents.ContentIntegrity.{get_content_integrity_metrics}
use pm_chat.Agents.ThreatIntelligence
use pm_chat.Agents.ThreatIntelligence.{get_threat_intelligence_metrics}
use pm_chat.Agents.SessionProtector
use pm_chat.Agents.SessionProtector.{get_session_protector_metrics}
use pm_chat.Agents.BehaviorAnalyzer
use pm_chat.Agents.BehaviorAnalyzer.{get_behavior_analyzer_metrics}
use pm_chat.Agents.CryptoWatchdog
use pm_chat.Agents.CryptoWatchdog.{get_crypto_watchdog_metrics}
use pm_chat.Agents.PhantomGuard
use pm_chat.Agents.PhantomGuard.{get_phantom_guard_metrics}

pub data ThreatLevel : Type 0 where
  calm low medium high critical : ThreatLevel

pub data Status : Type 0 where
  active standby alert disabled : Status

pub record SecurityAgent : Type 0 where
  pub id : String
  pub status : Status
  pub threat_level : ThreatLevel
  pub events_processed : ℕ
  pub threats_blocked : ℕ
  pub premium : Bool

-- What a client reports: the fields of a body that nothing checks, as `POST /event` passes them on.
pub record SecurityEvent : Type 0 where
  pub agent_id : Option Json
  pub event_type : Option Json
  pub severity : Option Json
  pub message : Option Json
  pub metadata : Option Json
  pub timestamp : ℕ
  pub ip : Option String
  pub user_id : String

-- `recentEvents`
abbrev pub Events : Type 0
Events = List SecurityEvent

abbrev pub max_events : ℕ
max_events = 200

-- `recordSecurityEvent`
unfoldable pub record_security_event : SecurityEvent → Events → Events
record_security_event event events =
    let pushed = events ++ event ∷ [] in
    if ltb max_events (length pushed) then drop 1 pushed else pushed

-- The state of the agents.
pub record Agents : Type 0 where
  pub link_guard : LinkGuard.Store
  pub anomaly_detector : AnomalyDetector.Profiles
  pub content_integrity : ContentIntegrity.Histories
  pub threat_intelligence : ThreatIntelligence.Database
  pub session_protector : SessionProtector.Protector
  pub behavior_analyzer : BehaviorAnalyzer.Models
  pub crypto_watchdog : CryptoWatchdog.Profiles
  pub phantom_guard : PhantomGuard.Guard

-- `count > 0 ? level : "none"`
abbrev pub level_if : (count : ℕ) → ThreatLevel → ThreatLevel
level_if count level = if ltb 0 count then level else calm

abbrev agent :
    (id : String) → ThreatLevel → (processed blocked : ℕ) → (premium : Bool) → SecurityAgent
agent id level processed blocked premium = record {
  id = id;
  status = active;
  threat_level = level;
  events_processed = processed;
  threats_blocked = blocked;
  premium = premium;
}

abbrev link_guard_agent : (now : ℕ) → Agents → SecurityAgent
link_guard_agent now s =
    let m = get_link_guard_metrics now s.link_guard in
    agent "link-guard" (level_if m.blocked_accesses medium) m.total_accesses m.blocked_accesses
      false

abbrev anomaly_detector_agent : Agents → SecurityAgent
anomaly_detector_agent s =
    let m = get_anomaly_detector_metrics s.anomaly_detector in
    agent "anomaly-detector" (level_if m.high_risk_users high) m.total_events m.high_risk_users
      false

abbrev content_integrity_agent : Agents → SecurityAgent
content_integrity_agent s =
    let m = get_content_integrity_metrics s.content_integrity in
    agent "content-integrity" calm m.total_ivs_tracked m.iv_reuses_detected false

abbrev threat_intelligence_agent : (now : ℕ) → Agents → SecurityAgent
threat_intelligence_agent now s =
    let m = get_threat_intelligence_metrics now s.threat_intelligence in
    agent "threat-intelligence"
      (if ltb 0 m.quarantined_targets then critical else level_if m.active_threats medium)
      m.total_signals m.quarantined_targets true

abbrev session_protector_agent : Agents → SecurityAgent
session_protector_agent s =
    let m = get_session_protector_metrics s.session_protector in
    agent "session-protector" (level_if m.suspicious_sessions high) m.active_sessions
      m.suspicious_sessions true

abbrev behavior_analyzer_agent : Agents → SecurityAgent
behavior_analyzer_agent s =
    let m = get_behavior_analyzer_metrics s.behavior_analyzer in
    agent "behavior-analyzer" (level_if m.suspected_bots high) m.total_messages_analyzed
      m.suspected_bots true

abbrev crypto_watchdog_agent : Agents → SecurityAgent
crypto_watchdog_agent s =
    let m = get_crypto_watchdog_metrics s.crypto_watchdog in
    agent "crypto-watchdog" (level_if m.alerts_raised medium) m.total_key_exchanges m.alerts_raised
      true

abbrev phantom_guard_agent : Agents → SecurityAgent
phantom_guard_agent s =
    let m = get_phantom_guard_metrics s.phantom_guard in
    agent "phantom-guard" (level_if m.suspicious_users high) m.active_traces
      m.bulk_extraction_attempts true

-- `getAllAgents`
unfoldable pub get_all_agents : (now : ℕ) → Agents → List SecurityAgent
get_all_agents now s =
    link_guard_agent now s
    ∷ anomaly_detector_agent s
    ∷ content_integrity_agent s
    ∷ threat_intelligence_agent now s
    ∷ session_protector_agent s
    ∷ behavior_analyzer_agent s
    ∷ crypto_watchdog_agent s
    ∷ phantom_guard_agent s
    ∷ []

abbrev pub is_level : ThreatLevel → ThreatLevel → Bool
is_level calm calm = true
is_level low low = true
is_level medium medium = true
is_level high high = true
is_level critical critical = true
is_level _ _ = false

-- `levels.includes(level)`
abbrev pub includes : ThreatLevel → List SecurityAgent → Bool
includes level agents = any (λ (a : SecurityAgent). is_level a.threat_level level) agents

unfoldable pub overall : List SecurityAgent → ThreatLevel
overall agents =
    if includes critical agents
    then critical
    else if includes high agents
    then high
    else if includes medium agents
    then medium
    else if includes low agents
    then low
    else calm

pub data Recommendation : Type 0 where
  immediate_action reinforced_watch : (agent_id : String) → Recommendation
  no_threat_detected : Recommendation

-- the texts that the loop over the agents pushes
unfoldable pub advice : List SecurityAgent → List Recommendation
advice [] = []
advice (a ∷ rest) =
    let others = advice rest in
    elim a.threat_level [
      | critical ↦ immediate_action a.id ∷ others
      | high ↦ reinforced_watch a.id ∷ others
      | _ ↦ others
    ]

abbrev pub or_all_clear : List Recommendation → List Recommendation
or_all_clear [] = no_threat_detected ∷ []
or_all_clear (r ∷ rs) = r ∷ rs

pub record ThreatReport : Type 0 where
  pub overall_threat_level : ThreatLevel
  pub agents : List SecurityAgent
  pub recent_events : List SecurityEvent
  pub recommendations : List Recommendation

-- `generateThreatReport`
unfoldable pub generate_threat_report : (now : ℕ) → Agents → Events → ThreatReport
generate_threat_report now s events =
    let agents = get_all_agents now s in
    record {
      overall_threat_level = overall agents;
      agents = agents;
      recent_events = last 50 events;
      recommendations = or_all_clear (advice agents);
    }
