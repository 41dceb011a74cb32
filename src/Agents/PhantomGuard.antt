-- ===== src/Agents/PhantomGuard.antt =====
-- apps/server/src/agents/phantomGuard.ts: watermarks that name who saw a message, and users who
-- decrypt so fast or so evenly that a tool may be at work. `hmac` is HMAC-SHA-256 in hexadecimal,
-- the trace id, from `crypto.randomBytes`, is an argument, and `show` prints a number. A clock that
-- does not go back gives `now`.
pub mod Traces
pub mod Extraction
mod Tests
use Prim.Native.String
use pm_chat.Base.{
  ℕ, ◌+◌, ◌-◌, String, Bool, true, false, not, ◌&&◌, Option, none, some, List, [], ◌∷◌, ◌++◌,
  if◌then◌else◌, ltb, leb, length, keep,
}
use pm_chat.Dict
use pm_chat.Dict.{Dict}
use pm_chat.Texts.{substring}
use pm_chat.Agents.Regularity.{is_regular, mean_below}

pub record PhantomTrace : Type 0 where
  pub trace_id : String
  pub conversation_id : String
  pub user_id : String
  pub timestamp : ℕ
  pub context : String

pub record ExtractionPattern : Type 0 where
  pub user_id : String
  pub rapid_decryption_count : ℕ
  pub last_decryption_timestamp : ℕ
  pub bulk_download_attempts : ℕ
  pub suspicious : Bool

-- `phantomTraces`, `extractionPatterns` and `decryptionTimestamps`
pub record Guard : Type 0 where
  pub traces : Dict PhantomTrace
  pub patterns : Dict ExtractionPattern
  pub timestamps : Dict (List ℕ)

abbrev pub initial : Guard
initial = record { traces = []; patterns = []; timestamps = [] }

abbrev pub rapid_decrypt_threshold : ℕ
rapid_decrypt_threshold = 50

abbrev pub rapid_decrypt_window_ms : ℕ
rapid_decrypt_window_ms = 60_000

abbrev colon : String → String → String
colon s t = String.◌++◌ s (String.◌++◌ ":" t)

module _ (hmac : (key content : String) → String) where
  abbrev pub trace_of :
      (trace_id conversation_id user_id message_id : String) (now : ℕ) → PhantomTrace
  trace_of trace_id conversation_id user_id message_id now = record {
    trace_id = trace_id;
    conversation_id = conversation_id;
    user_id = user_id;
    timestamp = now;
    context = substring 16 (hmac trace_id (colon conversation_id (colon user_id message_id)));
  }

  -- `generateWatermark`, whose result is the trace id
  unfoldable pub generate_watermark :
      (trace_id conversation_id user_id message_id : String) (now : ℕ) → Guard → Guard
  generate_watermark trace_id conversation_id user_id message_id now g = record g {
    traces = Dict.set trace_id (trace_of trace_id conversation_id user_id message_id now) g.traces;
  }

  -- `generateHoneypot`
  unfoldable pub generate_honeypot :
      (show : ℕ → String) (conversation_id : String) (now : ℕ) → String
  generate_honeypot show conversation_id now =
      substring 24 (hmac "phantom-honeypot" (colon conversation_id (show now)))

-- `verifyWatermark`
unfoldable pub verify_watermark : (trace_id : String) → Guard → Option PhantomTrace
verify_watermark trace_id g = Dict.get trace_id g.traces

-- `timestamps.filter((t) => t > cutoff)`
abbrev pub recent : (now : ℕ) → List ℕ → List ℕ
recent now = keep (λ t. ltb now (t + rapid_decrypt_window_ms))

-- the differences of neighbours
unfoldable pub intervals : List ℕ → List ℕ
intervals [] = []
intervals (x ∷ []) = []
intervals (x ∷ y ∷ rest) = (y - x) ∷ intervals (y ∷ rest)

pub data Verdict : Type 0 where
  rapid even unsuspicious : Verdict

-- what the times of a user's decryptions in the last minute show
unfoldable pub verdict_of : List ℕ → Verdict
verdict_of times =
    if ltb rapid_decrypt_threshold (length times)
    then rapid
    else if leb 10 (length times)
        && (is_regular 10 (intervals times) && mean_below 1_000 (intervals times))
    then even
    else unsuspicious

abbrev or_new : (user_id : String) (now : ℕ) → Option ExtractionPattern → ExtractionPattern
or_new user_id now none = record {
  user_id = user_id;
  rapid_decryption_count = 0;
  last_decryption_timestamp = now;
  bulk_download_attempts = 0;
  suspicious = false;
}
or_new user_id now (some pattern) = pattern

abbrev noted : Verdict → ExtractionPattern → ExtractionPattern
noted rapid p = record p {
  suspicious = true;
  bulk_download_attempts = p.bulk_download_attempts + 1;
}
noted even p = record p { suspicious = true }
noted unsuspicious p = p

abbrev pub or_nil : Option (List ℕ) → List ℕ
or_nil none = []
or_nil (some times) = times

-- `monitorDecryption`
unfoldable pub monitor_decryption : (user_id : String) (now : ℕ) → Guard → Guard × Verdict
monitor_decryption user_id now g =
    let times = recent now (or_nil (Dict.get user_id g.timestamps) ++ now ∷ []) in
    let found = or_new user_id now (Dict.get user_id g.patterns) in
    let pattern = record found {
      last_decryption_timestamp = now;
      rapid_decryption_count = length times;
    } in
    (
      record g {
        timestamps = Dict.set user_id times g.timestamps;
        patterns = Dict.set user_id (noted (verdict_of times) pattern) g.patterns;
      },
      verdict_of times,
    )

pub record Metrics : Type 0 where
  pub active_traces : ℕ
  pub suspicious_users : ℕ
  pub bulk_extraction_attempts : ℕ

abbrev plus_pattern : ExtractionPattern → Metrics → Metrics
plus_pattern p m = record m {
  suspicious_users = (if p.suspicious then 1 else 0) + m.suspicious_users;
  bulk_extraction_attempts = p.bulk_download_attempts + m.bulk_extraction_attempts;
}

unfoldable pub metrics_of : (active_traces : ℕ) → Dict ExtractionPattern → Metrics
metrics_of active_traces [] = record {
  active_traces = active_traces;
  suspicious_users = 0;
  bulk_extraction_attempts = 0;
}
metrics_of active_traces ((user_id, p) ∷ rest) = plus_pattern p (metrics_of active_traces rest)

-- `getPhantomGuardMetrics`
unfoldable pub get_phantom_guard_metrics : Guard → Metrics
get_phantom_guard_metrics g = metrics_of (length g.traces) g.patterns

-- the cleanup of every hour, which leaves the timestamps
unfoldable pub cleanup : (now : ℕ) → Guard → Guard
cleanup now g = record g {
  traces = Dict.retain (λ t. not (ltb (t.timestamp + 86_400_000) now)) g.traces;
  patterns = Dict.retain (λ p. not (ltb (p.last_decryption_timestamp + 86_400_000) now)) g.patterns;
}
