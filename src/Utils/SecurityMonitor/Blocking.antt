-- ===== src/Utils/SecurityMonitor/Blocking.antt =====
-- Which addresses securityMonitor.ts blocks, over any run of its calls.
use pm_chat.Base.{
  ℕ, ◌+◌, ◌≡◌, refl, String, ◌&&◌, Option, none, some, List, [], ◌∷◌, arith, eq_iff, leb,
  if◌then◌else◌, truthy, is_text,
}
use pm_chat.Dict
use pm_chat.NameSet
use pm_chat.Utils.SecurityMonitor.{
  Monitor, initial, auto_block_threshold, or_zero, track_suspicious_ip, track,
  record_replay_attempt, record_malformed_payload, record_rate_limit_hit, record_auth_failure,
  record_crypto_failure, is_ip_blocked,
}

pub data Violation : Type 0 where
  replay malformed rate_limit auth_failure : Option String → Violation
  crypto_failure : Violation

unfoldable pub step : Monitor → Violation → Monitor
step m (replay ip) = record_replay_attempt ip m
step m (malformed ip) = record_malformed_payload ip m
step m (rate_limit ip) = record_rate_limit_hit ip m
step m (auth_failure ip) = record_auth_failure ip m
step m crypto_failure = record_crypto_failure m

unfoldable pub run : Monitor → List Violation → Monitor
run m [] = m
run m (v ∷ vs) = run (step m v) vs

-- The address that a call names, if any.
abbrev pub named : Violation → Option String
named (replay ip) = ip
named (malformed ip) = ip
named (rate_limit ip) = ip
named (auth_failure ip) = ip
named crypto_failure = none

-- How many of the calls name the address; an empty address counts as none.
unfoldable pub times_named : String → List Violation → ℕ
times_named ip [] = 0
times_named ip (v ∷ vs) =
    (if truthy (named v) && is_text (named v) ip then 1 else 0) + times_named ip vs

abbrev pub count_of : String → Monitor → ℕ
count_of ip m = or_zero (Dict.get ip m.metrics.suspicious_ips)

-- The address is blocked exactly when its count has reached the threshold.
abbrev pub IsExact : String → Monitor → Type 0
IsExact ip m = NameSet.has ip m.blocked_ips ≡ leb auto_block_threshold (count_of ip m)

abbrev pub names : Option String → String → ℕ
names who x = if truthy who && is_text who x then 1 else 0

pub track-count :
    (who : Option String) (x : String) (m : Monitor)
    → count_of x (track who m) ≡ names who x + count_of x m
unfolding track track_suspicious_ip
track-count none x m = omega arith
track-count (some ip) x m =
    ground (arith, eq_iff ip x, Dict.get-set ip x (count_of ip m + 1) m.metrics.suspicious_ips)

pub track-IsExact :
    (who : Option String) (x : String) (m : Monitor) → IsExact x m → IsExact x (track who m)
unfolding track track_suspicious_ip
track-IsExact none x m v = v
track-IsExact (some ip) x m v = ground (
  arith,
  eq_iff ip x,
  Dict.get-set ip x (count_of ip m + 1) m.metrics.suspicious_ips,
  NameSet.has-add ip x m.blocked_ips,
)

pub step-count :
    (m : Monitor) (e : Violation) (x : String)
    → count_of x (step m e) ≡ names (named e) x + count_of x m
unfolding step record_replay_attempt record_malformed_payload record_rate_limit_hit
    record_auth_failure record_crypto_failure
step-count m (replay ip) x = track-count ip x _
step-count m (malformed ip) x = track-count ip x _
step-count m (rate_limit ip) x = track-count ip x _
step-count m (auth_failure ip) x = track-count ip x _
step-count m crypto_failure x = omega arith

pub step-IsExact : (m : Monitor) (e : Violation) (x : String) → IsExact x m → IsExact x (step m e)
unfolding step record_replay_attempt record_malformed_payload record_rate_limit_hit
    record_auth_failure record_crypto_failure
step-IsExact m (replay ip) x v = track-IsExact ip x _ v
step-IsExact m (malformed ip) x v = track-IsExact ip x _ v
step-IsExact m (rate_limit ip) x v = track-IsExact ip x _ v
step-IsExact m (auth_failure ip) x v = track-IsExact ip x _ v
step-IsExact m crypto_failure x v = v

run-blocked :
    (m : Monitor) (es : List Violation) (x : String)
    → IsExact x m
    → is_ip_blocked x (run m es) ≡ leb auto_block_threshold (count_of x m + times_named x es)
unfolding run is_ip_blocked times_named
run-blocked m [] x v = ground arith
run-blocked m (e ∷ es) x v =
    ground (arith, step-count m e x, run-blocked (step m e) es x (step-IsExact m e x v))

-- From the start of the server, an address is blocked exactly when at least fifty of the recorded
-- violations named it, whatever their kinds and whatever other addresses did between them.
pub is_ip_blocked-run :
    (es : List Violation) (x : String)
    → is_ip_blocked x (run initial es) ≡ leb auto_block_threshold (times_named x es)
unfolding Dict.get NameSet.has
is_ip_blocked-run es x = ground (arith, run-blocked initial es x refl)
