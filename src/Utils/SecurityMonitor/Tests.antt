-- ===== src/Utils/SecurityMonitor/Tests.antt =====
-- A run of securityMonitor.ts.
use pm_chat.Base.{ℕ, zero, suc, ◌≡◌, refl, true, some, List, [], ◌∷◌, leb}
use pm_chat.Dict
use pm_chat.NameSet
use pm_chat.Utils.SecurityMonitor.{
  initial, track, track_suspicious_ip, record_replay_attempt, record_malformed_payload,
  record_rate_limit_hit, record_auth_failure, record_crypto_failure, is_ip_blocked,
  get_security_metrics_json, auto_block_threshold,
}
use pm_chat.Utils.SecurityMonitor.Blocking.{
  Violation, replay, malformed, rate_limit, auth_failure, crypto_failure, step, run, times_named,
  is_ip_blocked-run,
}

monitor : Unit {0}
unfolding track track_suspicious_ip record_replay_attempt record_malformed_payload
    record_rate_limit_hit record_auth_failure record_crypto_failure is_ip_blocked
    get_security_metrics_json step run times_named Dict.get Dict.set NameSet.has NameSet.add
monitor = tt

-- Ten rounds of five violations from one address.
rounds : ℕ → List Violation
rounds zero = []
rounds (suc n) =
    replay (some "ip1")
    ∷ malformed (some "ip1")
    ∷ rate_limit (some "ip1")
    ∷ auth_failure (some "ip2")
    ∷ crypto_failure
    ∷ rounds n

fifty_one : times_named "ip1" (rounds 17) ≡ 51
unfolding monitor rounds
fifty_one = refl

blocked_after : is_ip_blocked "ip1" (run initial (rounds 17)) ≡ true
unfolding monitor rounds
blocked_after = refl

summary : (get_security_metrics_json (run initial (rounds 17))).auth_failures ≡ 17
unfolding monitor rounds
summary = refl

is_ip_blocked-run_example :
    is_ip_blocked "ip1" (run initial (rounds 17))
    ≡ leb auto_block_threshold (times_named "ip1" (rounds 17))
is_ip_blocked-run_example = is_ip_blocked-run (rounds 17) "ip1"
