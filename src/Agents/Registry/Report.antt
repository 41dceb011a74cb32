-- ===== src/Agents/Registry/Report.antt =====
-- What the threat report says of the agents.
use pm_chat.Base.{
  ℕ, ◌<◌, ◌≡◌, ◌≢◌, ◌↔◌, inl, inr, refl, true, false, List, [], ◌∷◌, arith, if◌then◌else◌, leb, any,
  is_empty, Bool-cases,
}
use pm_chat.Agents.Registry.{
  ThreatLevel, calm, low, medium, high, critical, SecurityAgent, Agents, Events, overall, advice,
  or_all_clear, Recommendation, no_threat_detected, get_all_agents, generate_threat_report,
}
use pm_chat.Agents.ThreatIntelligence.{get_threat_intelligence_metrics}

abbrev pub rank : ThreatLevel → ℕ
rank calm = 0
rank low = 1
rank medium = 2
rank high = 3
rank critical = 4

-- The greatest level of the agents.
abbrev pub greatest : List SecurityAgent → ℕ
greatest [] = 0
greatest (a ∷ rest) =
    if leb (rank a.threat_level) (greatest rest) then greatest rest else rank a.threat_level

overall-greatest : (agents : List SecurityAgent) → rank (overall agents) ≡ greatest agents
unfolding overall any
overall-greatest [] = refl
overall-greatest (a ∷ rest) = ground (arith, overall-greatest rest)

advice-empty :
    (agents : List SecurityAgent) → (is_empty (advice agents) ≡ true) ↔ (greatest agents < 3)
unfolding advice
advice-empty [] = (λ h. omega arith, λ h. refl)
advice-empty (a ∷ rest) =
    (λ h. ground (arith, advice-empty rest), λ h. ground (arith, advice-empty rest))

advice-ne-clear :
    (agents : List SecurityAgent) (rs : List Recommendation)
    → advice agents ≢ no_threat_detected ∷ rs
unfolding advice
advice-ne-clear [] rs h = ground arith
advice-ne-clear (a ∷ rest) rs h = ground (arith, advice-ne-clear rest rs)

all_clear_iff :
    (agents : List SecurityAgent)
    → (or_all_clear (advice agents) ≡ no_threat_detected ∷ []) ↔ (greatest agents < 3)
all_clear_iff agents = elim (Bool-cases (is_empty (advice agents))) [
  | inl empty ↦ (λ h. (advice-empty agents).0 empty, λ h. by_empty (advice agents) empty)
  | inr some_advice ↦ (
    λ h. absurd (advice-ne-clear agents [] (by_advice (advice agents) some_advice h)),
    λ h. absurd (ground (arith, (advice-empty agents).1 h)),
  )
]
  where
    by_empty :
        (rs : List Recommendation) → is_empty rs ≡ true → or_all_clear rs ≡ no_threat_detected ∷ []
    by_empty [] e = refl
    by_empty (r ∷ rs) e = absurd (ground arith)

    by_advice :
        (rs : List Recommendation)
        → is_empty rs ≡ false
        → or_all_clear rs ≡ no_threat_detected ∷ []
        → rs ≡ no_threat_detected ∷ []
    by_advice [] e h = absurd (ground arith)
    by_advice (r ∷ rs) e h = h

critical_iff :
    (now : ℕ) (s : Agents)
    → (overall (get_all_agents now s) ≡ critical)
      ↔ (0 < (get_threat_intelligence_metrics now s.threat_intelligence).quarantined_targets)
unfolding overall get_all_agents any
critical_iff now s = (λ h. ground arith, λ h. ground arith)

-- In every state of the agents, the report's level is the greatest of the levels of its agents; it
-- is critical exactly if a target is in quarantine; and the report says that no threat is detected
-- exactly if no agent's level is above medium, so also where the level of the report is medium.
pub generate_threat_report-level :
    (now : ℕ) (s : Agents) (events : Events)
    → (rank (generate_threat_report now s events).overall_threat_level
        ≡ greatest (generate_threat_report now s events).agents)
      × (((generate_threat_report now s events).overall_threat_level ≡ critical)
          ↔ (0 < (get_threat_intelligence_metrics now s.threat_intelligence).quarantined_targets))
      × (((generate_threat_report now s events).recommendations ≡ no_threat_detected ∷ [])
          ↔ (greatest (generate_threat_report now s events).agents < 3))
unfolding generate_threat_report
generate_threat_report-level now s events = (
  overall-greatest (get_all_agents now s),
  critical_iff now s,
  all_clear_iff (get_all_agents now s),
)
