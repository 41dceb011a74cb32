-- ===== src/Routes/Security/Tests.antt =====
-- The routes of security at given states.
use pm_chat.Base.{
  ℕ, ◌≡◌, ◌<◌, ◌↔◌, refl, String, true, false, none, some, List, [], ◌∷◌, length, keep, All, arith,
  not,
}
use pm_chat.Dict
use pm_chat.NameSet
use pm_chat.Json.{text, object, end, field, get_field}
use pm_chat.Premium.Tiers.{secure}
use pm_chat.Premium.Access.{UserTiers, get_user_tier}
use pm_chat.Agents.LinkGuard
use pm_chat.Agents.ThreatIntelligence
use pm_chat.Agents.ThreatIntelligence.{get_threat_intelligence_metrics}
use pm_chat.Agents.ContentIntegrity
use pm_chat.Agents.SessionProtector
use pm_chat.Agents.PhantomGuard
use pm_chat.Agents.Registry.{
  Agents, SecurityEvent, Recommendation, no_threat_detected, generate_threat_report, get_all_agents,
  overall, advice, medium, record_security_event,
}
use pm_chat.Agents.Registry.Report.{rank, greatest, generate_threat_report-level}
use pm_chat.Agents.Registry.Ring.{record_all}
use pm_chat.Routes.Security.{Shown, show, agents, report, event}
use pm_chat.Routes.Security.Locks.{AgreesWith, agents-AgreesWith}

security : Unit {0}
unfolding agents report event show generate_threat_report get_all_agents overall advice
    record_security_event get_user_tier get_field Dict.get Dict.delete NameSet.has
    LinkGuard.get_link_guard_metrics ThreatIntelligence.get_threat_intelligence_metrics
    ContentIntegrity.get_content_integrity_metrics SessionProtector.get_session_protector_metrics
    pm_chat.Agents.AnomalyDetector.get_anomaly_detector_metrics
    pm_chat.Agents.BehaviorAnalyzer.get_behavior_analyzer_metrics
    pm_chat.Agents.CryptoWatchdog.get_crypto_watchdog_metrics PhantomGuard.get_phantom_guard_metrics
    PhantomGuard.metrics_of SessionProtector.count_suspicious record_all pm_chat.Base.any
    pm_chat.Base.keep pm_chat.Base.total pm_chat.Base.last Dict.values
security = tt

-- A revoked link counts as a blocked access, so the level is medium.
abbrev blocked_link : LinkGuard.StoredLink
blocked_link = record {
  token = "t";
  conversation_id = "c";
  created_by = "u";
  expires_at = 5;
  max_views = 2;
  current_views = 0;
  pin_hash = none;
  one_time_view = false;
  ip_whitelist = [];
  active = false;
  created_at = 1;
  access_log = [];
}

abbrev quiet : Agents
quiet = record {
  link_guard = ("t", blocked_link) ∷ [];
  anomaly_detector = [];
  content_integrity = ContentIntegrity.initial;
  threat_intelligence = [];
  session_protector = SessionProtector.initial;
  behavior_analyzer = [];
  crypto_watchdog = [];
  phantom_guard = PhantomGuard.initial;
}

medium_and_clear :
    ((generate_threat_report 9 quiet []).overall_threat_level ≡ medium)
    × ((generate_threat_report 9 quiet []).recommendations ≡ no_threat_detected ∷ [])
unfolding security
medium_and_clear = (refl, refl)

locked_for_free : (agents "u" 9 quiet []).1.total_active ≡ 3
unfolding security
locked_for_free = refl

no_report_for_free : (report "u" 9 quiet [] []).1 ≡ none
unfolding security
no_report_for_free = refl

abbrev tiers : UserTiers
tiers = ("u", record { tier = secure; activated_at = 1; expires_at = none }) ∷ []

unnamed_event : event "u" none 9 (field "agentId" (text "x") end) [] ≡ ([], false)
unfolding security
unnamed_event = refl

abbrev reported : SecurityEvent
reported = record {
  agent_id = some (text "link-guard");
  event_type = some (text "probe");
  severity = some (text "low");
  message = some (text "");
  metadata = some (object end);
  timestamp = 9;
  ip = none;
  user_id = "u";
}

named_event :
    event "u" none 9 (field "agentId" (text "link-guard") (field "type" (text "probe") end)) []
    ≡ (reported ∷ [], true)
unfolding security
named_event = refl

agents-AgreesWith_example :
    All (AgreesWith (get_user_tier "u" 9 tiers).1) (agents "u" 9 quiet tiers).1.agents
    × ((agents "u" 9 quiet tiers).1.total_active
        ≡ length (keep (λ (x : Shown). not x.locked) (agents "u" 9 quiet tiers).1.agents))
agents-AgreesWith_example = agents-AgreesWith "u" 9 quiet tiers

generate_threat_report-level_example :
    (rank (generate_threat_report 9 quiet []).overall_threat_level
      ≡ greatest (generate_threat_report 9 quiet []).agents)
    × (((generate_threat_report 9 quiet []).overall_threat_level ≡ pm_chat.Agents.Registry.critical)
        ↔ (0 < (get_threat_intelligence_metrics 9 quiet.threat_intelligence).quarantined_targets))
    × (((generate_threat_report 9 quiet []).recommendations ≡ no_threat_detected ∷ [])
        ↔ (greatest (generate_threat_report 9 quiet []).agents < 3))
generate_threat_report-level_example = generate_threat_report-level 9 quiet []
