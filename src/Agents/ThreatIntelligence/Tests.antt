-- ===== src/Agents/ThreatIntelligence/Tests.antt =====
-- Runs of the threat intelligence agent.
use pm_chat.Base.{◌≡◌, refl, arith, true, false, List, [], ◌∷◌, last}
use pm_chat.Dict
use pm_chat.Agents.ThreatIntelligence.{
  allow, throttle, block, quarantine, total_weight, weighted_score, score_of, reached, action_of,
  with_signal, report_threat_signal, check_threat_status, decay_record, decay,
  get_threat_intelligence_metrics,
}
use pm_chat.Agents.ThreatIntelligence.Quarantine.{
  Operation, reports, checks, decays, step, run, quarantine-lasts,
}
use pm_chat.Agents.ThreatIntelligence.Severity.{}

threats : Unit {0}
unfolding total_weight weighted_score score_of reached action_of with_signal report_threat_signal
    check_threat_status decay_record decay get_threat_intelligence_metrics step run Dict.get
    Dict.set last
threats = tt

-- One signal gives ten times its severity.
one_signal : (report_threat_signal "ip" "a" 6 "m" 1000 []).1 ≡ record { action = block; score = 60 }
unfolding threats
one_signal = refl

-- An older signal weighs less: ages of half an hour and of none, severities 8 and 2.
older_weighs_less :
    (report_threat_signal "ip" "a" 2 "m" 1_800_000 (report_threat_signal "ip" "a" 8 "m" 0 []).0).1
    ≡ record { action = throttle; score = 40 }
unfolding threats
older_weighs_less = refl

-- The score decays below every threshold, but the last action stays: the target is still blocked.
still_blocked :
    (check_threat_status "ip" 4_000_000 (
      run [] (
        reports "ip" "a" 6 "m" 0
        ∷ decays 3_700_000
        ∷ decays 3_700_001
        ∷ decays 3_700_002
        ∷ decays 3_700_003
        ∷ decays 3_700_004
        ∷ []))).1
    ≡ record { allowed = false; action = block; score = 10 }
unfolding threats
still_blocked = refl

-- An hour after a quarantine the target is let through again.
released :
    (check_threat_status "ip" 3_600_000 (report_threat_signal "ip" "a" 9 "m" 0 []).0).1
    ≡ record { allowed = true; action = allow; score = 60 }
unfolding threats
released = refl

counts :
    get_threat_intelligence_metrics 5
      (run [] (reports "a" "x" 9 "m" 0 ∷ reports "b" "x" 1 "m" 0 ∷ []))
    ≡ record { tracked_targets = 2; active_threats = 1; quarantined_targets = 1; total_signals = 2 }
unfolding threats
counts = refl

abbrev meanwhile : List Operation
meanwhile =
    reports "ip" "a" 1 "m" 10 ∷ decays 400_000 ∷ checks "ip" 500_000 ∷ checks "other" 3_000_000 ∷ []

quarantine-lasts_example :
    (let status =
        (check_threat_status "ip" 3_599_999
          (run (report_threat_signal "ip" "a" 9 "m" 0 []).0 meanwhile)).1 in
      (status.allowed ≡ false) × (status.action ≡ quarantine))
unfolding threats
quarantine-lasts_example =
    quarantine-lasts "ip" "a" 9 "m" 0 3_599_999 [] meanwhile refl
      (
        (omega arith, omega arith),
        (
          (omega arith, omega arith),
          ((omega arith, omega arith), ((omega arith, omega arith), tt)),
        ),
      )
      (omega arith)

abbrev mild : List Operation
mild = reports "ip" "a" 5 "m" 0 ∷ reports "ip" "b" 5 "m" 1 ∷ checks "ip" 2 ∷ decays 3 ∷ []
