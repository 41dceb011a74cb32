-- ===== src/Premium/Tests.antt =====
-- Runs of the premium routes.
use pm_chat.Base.{◌≤◌, ◌≡◌, refl, arith, true, none, some, List, [], ◌∷◌}
use pm_chat.Dict
use pm_chat.Premium.Tiers.{
  free, secure, fortress, get_tier, is_agent_available, is_feature_available, includes,
}
use pm_chat.Premium.Access.{get_user_tier, set_user_tier, require_feature, feature_refused}
use pm_chat.Premium.Routes.{tier_named, activate, activated, me, verify}
use pm_chat.Premium.Additive.{Within, upgrade-keeps}
use pm_chat.Premium.Activation.{
  Request, activates, queries, asks, needs_feature, query, step, run, grant, grant_step, granted,
  tier_at, get_user_tier-run,
}

premium : Unit {0}
unfolding get_user_tier set_user_tier require_feature tier_named activate me verify query step run
    grant grant_step granted get_tier is_feature_available includes Dict.get Dict.set Dict.delete
premium = tt

-- Of 0 days, the answer says that the tier ends now; the entry has no end.
no_days : (activate "u" (some "secure") (some 0) 1000 []).1 ≡ activated secure 1000 1000
unfolding premium
no_days = refl

no_end :
    (get_user_tier "u" 99_000_000_000 (activate "u" (some "secure") (some 0) 1000 []).0).1 ≡ secure
unfolding premium
no_end = refl

-- The secure tier lacks what the refusal says that it unlocks.
wrong_hint :
    (require_feature "phantom-guard"
      (some "u")
      2000
      (activate "u" (some "secure") none 1000 []).0).1
    ≡ feature_refused "phantom-guard" secure "secure"
unfolding premium
wrong_hint = refl

abbrev requests : List Request
requests =
    activates "u" (some "fortress") (some 1) 1000
    ∷ queries "u" 2000 (needs_feature "phantom-guard")
    ∷ activates "w" (some "secure") none 3000
    ∷ queries "u" 86_401_001 asks
    ∷ []

expired : (get_user_tier "u" 86_401_002 (run [] requests)).1 ≡ free
unfolding premium
expired = refl

get_user_tier-run_example :
    (get_user_tier "u" 86_401_002 (run [] requests)).1
    ≡ tier_at 86_401_002 (granted "u" none requests)
get_user_tier-run_example =
    get_user_tier-run "u" 86_401_002 requests
      (omega arith, (omega arith, (omega arith, (omega arith, omega arith))))

upgrade-keeps_example :
    (is_agent_available free "link-guard" ≡ true → is_agent_available fortress "link-guard" ≡ true)
    × (is_feature_available free "e2ee" ≡ true → is_feature_available fortress "e2ee" ≡ true)
    × Within (get_tier free).max_conversations (get_tier fortress).max_conversations
    × Within (get_tier free).max_shared_links (get_tier fortress).max_shared_links
    × ((get_tier free).max_message_retention_days ≤ (get_tier fortress).max_message_retention_days)
upgrade-keeps_example = upgrade-keeps free fortress "link-guard" "e2ee" (omega arith)
