-- ===== src/Premium/Tiers.antt =====
-- apps/server/src/premium/tiers.ts: the definitions of the tiers, without their texts for people.
-- A price is in cents; the limit -1 is `unlimited`.
use pm_chat.Base.{ℕ, String, Bool, true, false, List, [], ◌∷◌, ◌===◌, if◌then◌else◌}
use pm_chat.NameSet

pub data Tier : Type 0 where
  free secure fortress : Tier

pub data Limit : Type 0 where
  unlimited : Limit
  at_most : ℕ → Limit

pub record Feature : Type 0 where
  pub id : String
  pub included : Bool

pub record TierDefinition : Type 0 where
  pub id : Tier
  pub price_cents : ℕ
  pub features : List Feature
  pub agent_ids : List String
  pub max_conversations : Limit
  pub max_message_retention_days : ℕ
  pub max_shared_links : Limit
  pub priority_support : Bool

abbrev feature : String → Bool → Feature
feature id included = record { id = id; included = included }

abbrev pub free_definition : TierDefinition
free_definition = record {
  id = free;
  price_cents = 0;
  features =
      feature "e2ee" true
      ∷ feature "link-share" true
      ∷ feature "burn-after-reading" true
      ∷ feature "basic-agents" true
      ∷ feature "advanced-agents" false
      ∷ feature "phantom-guard" false
      ∷ feature "priority-support" false
      ∷ [];
  agent_ids = "link-guard" ∷ "anomaly-detector" ∷ "content-integrity" ∷ [];
  max_conversations = at_most 10;
  max_message_retention_days = 7;
  max_shared_links = at_most 5;
  priority_support = false;
}

abbrev pub secure_definition : TierDefinition
secure_definition = record {
  id = secure;
  price_cents = 499;
  features =
      feature "e2ee" true
      ∷ feature "link-share" true
      ∷ feature "burn-after-reading" true
      ∷ feature "basic-agents" true
      ∷ feature "advanced-agents" true
      ∷ feature "phantom-guard" false
      ∷ feature "priority-support" false
      ∷ [];
  agent_ids =
      "link-guard" ∷ "anomaly-detector" ∷ "content-integrity" ∷ "threat-intelligence"
      ∷ "session-protector" ∷ "behavior-analyzer" ∷ "crypto-watchdog" ∷ [];
  max_conversations = at_most 50;
  max_message_retention_days = 30;
  max_shared_links = at_most 25;
  priority_support = false;
}

abbrev pub fortress_definition : TierDefinition
fortress_definition = record {
  id = fortress;
  price_cents = 1499;
  features =
      feature "e2ee" true
      ∷ feature "link-share" true
      ∷ feature "burn-after-reading" true
      ∷ feature "basic-agents" true
      ∷ feature "advanced-agents" true
      ∷ feature "phantom-guard" true
      ∷ feature "priority-support" true
      ∷ [];
  agent_ids =
      "link-guard" ∷ "anomaly-detector" ∷ "content-integrity" ∷ "threat-intelligence"
      ∷ "session-protector" ∷ "behavior-analyzer" ∷ "crypto-watchdog" ∷ "phantom-guard" ∷ [];
  max_conversations = unlimited;
  max_message_retention_days = 90;
  max_shared_links = unlimited;
  priority_support = true;
}

-- `getAllTiers`
unfoldable pub get_all_tiers : List TierDefinition
get_all_tiers = free_definition ∷ secure_definition ∷ fortress_definition ∷ []

-- `getTier`: every tier has its definition.
unfoldable pub get_tier : Tier → TierDefinition
get_tier free = free_definition
get_tier secure = secure_definition
get_tier fortress = fortress_definition

-- `isAgentAvailable`
unfoldable pub is_agent_available : Tier → (agent_id : String) → Bool
is_agent_available tier agent_id = NameSet.has agent_id (get_tier tier).agent_ids

-- `features.find((f) => f.id === featureId)?.included ?? false`
unfoldable pub includes : (feature_id : String) → List Feature → Bool
includes feature_id [] = false
includes feature_id (f ∷ fs) = if f.id === feature_id then f.included else includes feature_id fs

-- `isFeatureAvailable`
unfoldable pub is_feature_available : Tier → (feature_id : String) → Bool
is_feature_available tier feature_id = includes feature_id (get_tier tier).features
