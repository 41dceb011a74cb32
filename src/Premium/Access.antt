-- ===== src/Premium/Access.antt =====
-- apps/server/src/premium/middleware.ts: who has which tier until when, and the guards of routes.
use pm_chat.Base.{
  ℕ, ◌+◌, ◌*◌, String, Bool, false, Option, none, some, if◌then◌else◌, ltb, leb, ◌==◌, ◌===◌,
}
use pm_chat.Dict
use pm_chat.Dict.{Dict}
use pm_chat.Premium.Tiers.{Tier, free, is_feature_available, is_agent_available}

pub record Entry : Type 0 where
  pub tier : Tier
  pub activated_at : ℕ
  pub expires_at : Option ℕ

-- `userTiers`
abbrev pub UserTiers : Type 0
UserTiers = Dict Entry

-- `entry.expiresAt && new Date(entry.expiresAt) < new Date()`
abbrev pub has_expired : (now : ℕ) → Option ℕ → Bool
has_expired now none = false
has_expired now (some end) = ltb end now

-- `getUserTier`
unfoldable pub get_user_tier : (user_id : String) (now : ℕ) → UserTiers → UserTiers × Tier
get_user_tier user_id now tiers = elim (Dict.get user_id tiers) [
  | none ↦ (tiers, free)
  | some entry ↦
      if has_expired now entry.expires_at
      then (Dict.delete user_id tiers, free)
      else (tiers, entry.tier)
]

-- the last moment that a `Date` can hold, in milliseconds
abbrev pub max_date : ℕ
max_date = 8_640_000_000_000_000

abbrev pub expiry : (duration_days now : ℕ) → ℕ
expiry duration_days now = now + duration_days * 86_400_000

abbrev store_tier : (user_id : String) → Tier → Option ℕ → (now : ℕ) → UserTiers → UserTiers
store_tier user_id tier expires_at now =
    Dict.set user_id (record { tier = tier; activated_at = now; expires_at = expires_at })

-- `setUserTier` with a whole number of days that is not negative. A date beyond the last one makes
-- `toISOString` throw: `none`.
unfoldable pub set_user_tier :
    (user_id : String)
    → Tier
    → (duration_days : Option ℕ) → (now : ℕ) → UserTiers
    → Option UserTiers
set_user_tier user_id tier none now tiers = some (store_tier user_id tier none now tiers)
set_user_tier user_id tier (some days) now tiers =
    if days == 0
    then some (store_tier user_id tier none now tiers)
    else if leb (expiry days now) max_date
    then some (store_tier user_id tier (some (expiry days now)) now tiers)
    else none

pub data Decision : Type 0 where
  unauthenticated : Decision
  feature_refused : (feature_id : String) (current_tier : Tier) (required_tier : String) → Decision
  agent_refused : (agent_id : String) (current_tier : Tier) → Decision
  next : Decision

-- the shared part of the guards: `req.userId` is missing or empty where nobody is authenticated
abbrev authenticated :
    (user_id : Option String) → (String → UserTiers × Decision) → UserTiers → UserTiers × Decision
authenticated none continue tiers = (tiers, unauthenticated)
authenticated (some user_id) continue tiers =
    if user_id === "" then (tiers, unauthenticated) else continue user_id

-- `requireFeature`
unfoldable pub require_feature :
    (feature_id : String) (user_id : Option String) (now : ℕ) → UserTiers → UserTiers × Decision
require_feature feature_id user_id now tiers =
    authenticated user_id
      (λ u.
        let (after, tier) = get_user_tier u now tiers in
        (
          after,
          if is_feature_available tier feature_id
              then next
              else feature_refused feature_id tier "secure",
        ))
      tiers

-- `requireAgent`
unfoldable pub require_agent :
    (agent_id : String) (user_id : Option String) (now : ℕ) → UserTiers → UserTiers × Decision
require_agent agent_id user_id now tiers =
    authenticated user_id
      (λ u.
        let (after, tier) = get_user_tier u now tiers in
        (after, if is_agent_available tier agent_id then next else agent_refused agent_id tier))
      tiers
