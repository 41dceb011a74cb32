-- ===== src/Routes/Security/Locks.antt =====
-- Which agents a tier unlocks, by the route and by the definitions of the tiers.
use pm_chat.Base.{
  ℕ, ◌≡◌, refl, String, Bool, true, false, not, ◌&&◌, ◌||◌, ◌===◌, List, [], ◌∷◌, map,
  if◌then◌else◌, length, keep, All, arith, Bool-cases, inl, inr, sym, ◌∙◌,
}
use pm_chat.Premium.Tiers.{Tier, free, secure, fortress, is_agent_available, get_tier}
use pm_chat.Premium.Access.{UserTiers, get_user_tier}
use pm_chat.NameSet
use pm_chat.Agents.Registry.{Agents, SecurityAgent, get_all_agents}
use pm_chat.Routes.Security.{is_free, Shown, show, agents}

abbrev is_secure : Tier → Bool
is_secure free = false
is_secure secure = true
is_secure fortress = false

-- What the answer shows of an agent is what the definition of the tier says, but for the phantom
-- guard in the tier secure; and a locked agent shows no events.
pub record AgreesWith (tier : Tier) (shown : Shown) : Type 0 where
  lock : shown.locked ≡ (
      if is_secure tier && shown.agent.id === "phantom-guard"
      then false
      else not (is_agent_available tier shown.agent.id))
  hidden :
      shown.locked ≡ true → (shown.agent.events_processed ≡ 0) × (shown.agent.threats_blocked ≡ 0)

-- The answer agrees where the test of the route does.
show-AgreesWith :
    (tier : Tier) (a : SecurityAgent)
    → (a.premium && is_free tier) ≡ (
        if is_secure tier && a.id === "phantom-guard"
        then false
        else not (is_agent_available tier a.id))
    → AgreesWith tier (show tier a)
unfolding show
show-AgreesWith tier a h = elim (Bool-cases (a.premium && is_free tier)) [
  | inl closed ↦ rw closed (record { lock = sym closed ∙ h; hidden = λ e. (refl, refl) })
  | inr open_to ↦
      rw open_to (record { lock = sym open_to ∙ h; hidden = λ e. absurd (ground arith) })
]

all_agree :
    (now : ℕ) (s : Agents) (tier : Tier)
    → All (AgreesWith tier) (map (show tier) (get_all_agents now s))
unfolding get_all_agents is_agent_available get_tier NameSet.has
all_agree now s free =
    let ok = show-AgreesWith free in
    (
      ok _ refl,
      (ok _ refl, (ok _ refl, (ok _ refl, (ok _ refl, (ok _ refl, (ok _ refl, (ok _ refl, tt))))))),
    )
all_agree now s secure =
    let ok = show-AgreesWith secure in
    (
      ok _ refl,
      (ok _ refl, (ok _ refl, (ok _ refl, (ok _ refl, (ok _ refl, (ok _ refl, (ok _ refl, tt))))))),
    )
all_agree now s fortress =
    let ok = show-AgreesWith fortress in
    (
      ok _ refl,
      (ok _ refl, (ok _ refl, (ok _ refl, (ok _ refl, (ok _ refl, (ok _ refl, (ok _ refl, tt))))))),
    )

active_count :
    (tier : Tier) (all : List SecurityAgent)
    → length (keep (λ (a : SecurityAgent). not a.premium || not (is_free tier)) all)
      ≡ length (keep (λ (x : Shown). not x.locked) (map (show tier) all))
unfolding show keep
active_count tier [] = refl
active_count tier (a ∷ rest) = ground (arith, active_count tier rest)

-- Whatever the state of the agents and of the tiers, the route shows as locked exactly the agents
-- that the user's tier does not include, but for the phantom guard, which it shows unlocked to the
-- tier secure; a locked agent shows no events, and the number of active agents that it states is
-- the number of those that it does not lock.
pub agents-AgreesWith :
    (user_id : String) (now : ℕ) (s : Agents) (tiers : UserTiers)
    → All (AgreesWith (get_user_tier user_id now tiers).1) (agents user_id now s tiers).1.agents
      × ((agents user_id now s tiers).1.total_active
          ≡ length (keep (λ (x : Shown). not x.locked) (agents user_id now s tiers).1.agents))
unfolding agents
agents-AgreesWith u now s tiers = (all_agree now s _, active_count _ (get_all_agents now s))
