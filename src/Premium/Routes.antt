-- ===== src/Premium/Routes.antt =====
-- apps/server/src/routes/premium.ts: the answers of the four routes, behind `authenticate`.
use pm_chat.Base.{ℕ, String, Bool, Option, none, some, List, if◌then◌else◌, ◌===◌}
use pm_chat.Premium.Tiers.{
  Tier, free, secure, fortress, Feature, Limit, TierDefinition, get_all_tiers, get_tier,
  is_feature_available,
}
use pm_chat.Premium.Access.{UserTiers, get_user_tier, set_user_tier, expiry}

-- GET /tiers
unfoldable pub tiers : List TierDefinition
tiers = get_all_tiers

pub record Me : Type 0 where
  pub user_id : String
  pub tier : Tier
  pub features : List Feature
  pub max_conversations : Limit
  pub max_message_retention_days : ℕ
  pub max_shared_links : Limit
  pub priority_support : Bool

abbrev describe : (user_id : String) → TierDefinition → Me
describe user_id d = record {
  user_id = user_id;
  tier = d.id;
  features = d.features;
  max_conversations = d.max_conversations;
  max_message_retention_days = d.max_message_retention_days;
  max_shared_links = d.max_shared_links;
  priority_support = d.priority_support;
}

-- GET /me
unfoldable pub me : (user_id : String) (now : ℕ) → UserTiers → UserTiers × Me
me user_id now store =
    let (after, tier) = get_user_tier user_id now store in (after, describe user_id (get_tier tier))

-- what `["free", "secure", "fortress"].includes(tier)` lets through
unfoldable pub tier_named : String → Option Tier
tier_named name =
    if name === "free"
    then some free
    else if name === "secure"
    then some secure
    else if name === "fortress"
    then some fortress
    else none

pub data Activation : Type 0 where
  invalid_tier thrown : Activation
  activated : Tier → (activated_at expires_at : ℕ) → Activation

-- `body.durationDays ?? 30`
abbrev pub days_or_default : Option ℕ → ℕ
days_or_default none = 30
days_or_default (some days) = days

abbrev finish : Tier → (days now : ℕ) → UserTiers → Option UserTiers → UserTiers × Activation
finish tier days now before none = (before, thrown)
finish tier days now before (some after) = (after, activated tier now (expiry days now))

-- POST /activate
unfoldable pub activate :
    (user_id : String) (tier : Option String) (duration_days : Option ℕ) (now : ℕ)
    → UserTiers
    → UserTiers × Activation
activate user_id none duration_days now store = (store, invalid_tier)
activate user_id (some name) duration_days now store = elim (tier_named name) [
  | none ↦ (store, invalid_tier)
  | some tier ↦
      let days = days_or_default duration_days in
      finish tier days now store (set_user_tier user_id tier (some days) now store)
]

pub data Verification : Type 0 where
  feature_missing : Verification
  verified : (user_id : String) → Tier → (feature_id : String) (allowed : Bool) → Verification

abbrev answer : (user_id feature_id : String) → UserTiers × Tier → UserTiers × Verification
answer user_id id (store, tier) = (store, verified user_id tier id (is_feature_available tier id))

-- POST /verify
unfoldable pub verify :
    (user_id : String) (feature_id : Option String) (now : ℕ) → UserTiers → UserTiers × Verification
verify user_id none now store = (store, feature_missing)
verify user_id (some id) now store =
    if id === ""
    then (store, feature_missing)
    else answer user_id id (get_user_tier user_id now store)
