-- ===== src/Agents/AnomalyDetector/Tests.antt =====
-- Runs of the anomaly detector.
use pm_chat.Base.{
  ℕ, zero, suc, ◌+◌, ◌≤◌, ◌≡◌, ◌⊎◌, refl, arith, String, true, false, none, some, List, [], ◌∷◌,
}
use pm_chat.Dict
use pm_chat.NameSet
use pm_chat.Agents.AnomalyDetector.{
  Verdict, burst, ip_change, normal, judge, record_message_event, with_fingerprint, judge_login,
  record_login_event, get_anomaly_score, cleanup, get_anomaly_detector_metrics,
}
use pm_chat.Agents.AnomalyDetector.Scores.{Event, messages, logins, cleans, step, run}
use pm_chat.Agents.AnomalyDetector.Rates.{sent_by, rate, by_rates, record_message_event-run}

detector : Unit {0}
unfolding judge record_message_event with_fingerprint judge_login record_login_event cleanup
    get_anomaly_score get_anomaly_detector_metrics step run sent_by rate Dict.get Dict.set
    Dict.delete Dict.retain NameSet.has NameSet.add pm_chat.Base.keep
detector = tt

abbrev sending : (count : ℕ) → (start : ℕ) → List Event
sending zero start = []
sending (suc n) start = messages "u" "ip" start ∷ sending n (start + 1)

eleventh_is_burst :
    (record_message_event "u" "ip" 20 (run [] (sending 10 0))).1
    ≡ record { verdict = burst; score = 15 }
unfolding detector
eleventh_is_burst = refl

-- The address that is suspect is not recorded: the old one stays the last.
address_changes :
    (record_message_event "u" "ip2" 20_000 (run [] (sending 2 0))).1
    ≡ record { verdict = ip_change; score = 25 }
unfolding detector
address_changes = refl

new_devices :
    get_anomaly_score "u"
      (run [] (logins "u" (some "d1") 1 ∷ logins "u" (some "d2") 2 ∷ logins "u" none 3 ∷ []))
    ≡ 10
unfolding detector
new_devices = refl

forgotten : run [] (messages "u" "ip" 0 ∷ cleans 3_600_001 ∷ []) ≡ []
unfolding detector
forgotten = refl

counts :
    get_anomaly_detector_metrics (run [] (sending 3 0))
    ≡ record { tracked_users = 1; high_risk_users = 0; total_events = 3 }
unfolding detector
counts = refl

record_message_event-run_example :
    (rest : Verdict) × ((rest ≡ ip_change) ⊎ (rest ≡ normal))
    × ((record_message_event "u" "ip" 9 (run [] (sending 3 0))).1.verdict
        ≡ by_rates
            (rate 60_000 9 (sent_by "u" [] (sending 3 0)))
            (rate 5_000 9 (sent_by "u" [] (sending 3 0)))
            rest)
record_message_event-run_example =
    record_message_event-run "u" "ip" 9 (sending 3 0)
      (omega arith, (omega arith, (omega arith, omega arith)))
