-- ===== src/Utils/SecurityMonitor.antt =====
-- apps/server/src/utils/securityMonitor.ts: counters of violations, and the automatic block of the
-- addresses that commit many of them.
pub mod Blocking
mod Tests
use pm_chat.Base.{
  ℕ, ◌+◌, String, Bool, not, ◌&&◌, Option, none, some, List, [], ◌∷◌, if◌then◌else◌, leb, truthy,
  length,
}
use pm_chat.Dict
use pm_chat.Dict.{Dict}
use pm_chat.NameSet

pub record SecurityMetrics : Type 0 where
  pub replay_attempts_blocked : ℕ
  pub malformed_payloads_rejected : ℕ
  pub rate_limit_hits : ℕ
  pub auth_failures : ℕ
  pub crypto_failures : ℕ
  pub suspicious_ips : Dict ℕ

-- The two module variables.
pub record Monitor : Type 0 where
  pub metrics : SecurityMetrics
  pub blocked_ips : List String

abbrev pub initial : Monitor
initial = record {
  metrics = record {
    replay_attempts_blocked = 0;
    malformed_payloads_rejected = 0;
    rate_limit_hits = 0;
    auth_failures = 0;
    crypto_failures = 0;
    suspicious_ips = [];
  };
  blocked_ips = [];
}

abbrev pub auto_block_threshold : ℕ
auto_block_threshold = 50

-- `metrics.suspiciousIPs.get(ip) ?? 0`
abbrev pub or_zero : Option ℕ → ℕ
or_zero none = 0
or_zero (some n) = n

unfoldable pub track_suspicious_ip : String → Monitor → Monitor
track_suspicious_ip ip m =
    let n = or_zero (Dict.get ip m.metrics.suspicious_ips) + 1 in
    let old = m.metrics in
    record {
      metrics = record old { suspicious_ips = Dict.set ip n old.suspicious_ips };
      blocked_ips =
          if leb auto_block_threshold n && not (NameSet.has ip m.blocked_ips)
          then NameSet.add ip m.blocked_ips
          else m.blocked_ips;
    }

-- `if (ip) trackSuspiciousIP(ip)`
unfoldable pub track : Option String → Monitor → Monitor
track none m = m
track (some ip) m = if truthy (some ip) then track_suspicious_ip ip m else m

unfoldable pub record_replay_attempt : Option String → Monitor → Monitor
record_replay_attempt ip m =
    let old = m.metrics in
    track ip (record m {
      metrics = record old { replay_attempts_blocked = old.replay_attempts_blocked + 1 };
    })

unfoldable pub record_malformed_payload : Option String → Monitor → Monitor
record_malformed_payload ip m =
    let old = m.metrics in
    track ip (record m {
      metrics = record old { malformed_payloads_rejected = old.malformed_payloads_rejected + 1 };
    })

unfoldable pub record_rate_limit_hit : Option String → Monitor → Monitor
record_rate_limit_hit ip m =
    let old = m.metrics in
    track ip (record m { metrics = record old { rate_limit_hits = old.rate_limit_hits + 1 } })

unfoldable pub record_auth_failure : Option String → Monitor → Monitor
record_auth_failure ip m =
    let old = m.metrics in
    track ip (record m { metrics = record old { auth_failures = old.auth_failures + 1 } })

unfoldable pub record_crypto_failure : Monitor → Monitor
record_crypto_failure m =
    let old = m.metrics in
    record m { metrics = record old { crypto_failures = old.crypto_failures + 1 } }

unfoldable pub is_ip_blocked : String → Monitor → Bool
is_ip_blocked ip m = NameSet.has ip m.blocked_ips

-- The counters of `getSecurityMetricsJSON`; its dates are left out.
pub record Summary : Type 0 where
  pub replay_attempts_blocked : ℕ
  pub malformed_payloads_rejected : ℕ
  pub rate_limit_hits : ℕ
  pub auth_failures : ℕ
  pub crypto_failures : ℕ
  pub blocked_ip_count : ℕ
  pub suspicious_ip_count : ℕ

unfoldable pub get_security_metrics_json : Monitor → Summary
get_security_metrics_json m = record {
  replay_attempts_blocked = m.metrics.replay_attempts_blocked;
  malformed_payloads_rejected = m.metrics.malformed_payloads_rejected;
  rate_limit_hits = m.metrics.rate_limit_hits;
  auth_failures = m.metrics.auth_failures;
  crypto_failures = m.metrics.crypto_failures;
  blocked_ip_count = length m.blocked_ips;
  suspicious_ip_count = length m.metrics.suspicious_ips;
}
