-- ===== src/Routes/Security.antt =====
-- apps/server/src/routes/security.ts, behind `authenticate`.
pub mod Locks
mod Tests
use pm_chat.Base.{
  ℕ, String, Bool, true, false, not, ◌&&◌, ◌||◌, Option, none, some, List, [], ◌∷◌, map,
  if◌then◌else◌, length, keep,
}
use pm_chat.Json.{Json, null, text, object, Fields, end, get_field, is_truthy}
use pm_chat.Premium.Tiers.{Tier, free, secure, fortress}
use pm_chat.Premium.Access.{UserTiers, get_user_tier}
use pm_chat.Agents.Registry.{
  Status, disabled, SecurityAgent, SecurityEvent, Events, Agents, ThreatReport, get_all_agents,
  generate_threat_report, record_security_event,
}

abbrev pub is_free : Tier → Bool
is_free free = true
is_free secure = false
is_free fortress = false

-- An agent with `locked`; where it is locked, the answer names the tier "secure".
pub record Shown : Type 0 where
  pub agent : SecurityAgent
  pub locked : Bool

unfoldable pub show : Tier → SecurityAgent → Shown
show tier a =
    if a.premium && is_free tier
    then record {
      agent = record a { status = disabled; events_processed = 0; threats_blocked = 0 };
      locked = true;
    }
    else record { agent = a; locked = false }

pub record Overview : Type 0 where
  pub agents : List Shown
  pub user_tier : Tier
  pub total_active : ℕ
  pub total_agents : ℕ

abbrev overview_of : Tier → List SecurityAgent → Overview
overview_of tier all = record {
  agents = map (show tier) all;
  user_tier = tier;
  total_active = length (keep (λ (a : SecurityAgent). not a.premium || not (is_free tier)) all);
  total_agents = length all;
}

-- GET /agents
unfoldable pub agents : (user_id : String) (now : ℕ) → Agents → UserTiers → UserTiers × Overview
agents user_id now s tiers =
    let found = get_user_tier user_id now tiers in
    (found.0, overview_of found.1 (get_all_agents now s))

-- GET /report: `none` is the refusal with status 403.
unfoldable pub report :
    (user_id : String) (now : ℕ) → Agents → Events → UserTiers → UserTiers × Option ThreatReport
report user_id now s events tiers =
    let found = get_user_tier user_id now tiers in
    (found.0, if is_free found.1 then none else some (generate_threat_report now s events))

-- `value ?? word`
abbrev pub or_word : (word : String) → Option Json → Option Json
or_word word none = some (text word)
or_word word (some null) = some (text word)
or_word word (some value) = some value

-- `value ?? {}`
abbrev pub or_no_fields : Option Json → Option Json
or_no_fields none = some (object end)
or_no_fields (some null) = some (object end)
or_no_fields (some value) = some value

-- POST /event, with a body that is an object: the answer tells whether the event was recorded.
unfoldable pub event :
    (user_id : String) (ip : Option String) (now : ℕ) (body : Fields) → Events → Events × Bool
event user_id ip now body events =
    if not (is_truthy (get_field "agentId" body)) || not (is_truthy (get_field "type" body))
    then (events, false)
    else (
      record_security_event
          (record {
            agent_id = get_field "agentId" body;
            event_type = get_field "type" body;
            severity = or_word "low" (get_field "severity" body);
            message = or_word "" (get_field "message" body);
            metadata = or_no_fields (get_field "metadata" body);
            timestamp = now;
            ip = ip;
            user_id = user_id;
          })
          events,
      true,
    )
