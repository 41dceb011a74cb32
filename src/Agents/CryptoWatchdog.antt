-- ===== src/Agents/CryptoWatchdog.antt =====
-- apps/server/src/agents/cryptoWatchdog.ts: the form of public keys, and how often a user exchanges
-- keys. Texts are as in `substring`: each character is one UTF-16 unit. A clock that does not go
-- back gives `now`.
pub mod Keys
pub mod Knowledge
pub mod Recent
pub mod Window
mod Tests
use pm_chat.Base.{
  ℕ, ◌+◌, ◌-◌, String, Bool, true, false, not, ◌&&◌, ◌||◌, Option, none, some, List, [], ◌∷◌, ◌++◌,
  if◌then◌else◌, ltb, ◌===◌, length, keep, last, push_if, is_empty,
}
use pm_chat.Dict
use pm_chat.Dict.{Dict}
use pm_chat.NameSet
use pm_chat.NameSet.{NameSet}
use pm_chat.Texts.{substring}
use pm_chat.Schema.{codes, units}
use pm_chat.Json.{Json, null, text, object, end, Fields, get_field, is_truthy}

pub data EventKind : Type 0 where
  key_exchange key_generation encrypt decrypt key_import : EventKind

pub record CryptoEvent : Type 0 where
  pub kind : EventKind
  pub user_id : String
  pub timestamp : ℕ
  pub target_user_id : String
  pub key_prefix : String

pub data Alert : Type 0 where
  many_public_keys : Alert

pub record UserCryptoProfile : Type 0 where
  pub user_id : String
  pub key_exchange_count : ℕ
  pub public_keys : NameSet
  pub last_key_exchange : ℕ
  pub events : List CryptoEvent
  pub alerts : List Alert

-- `cryptoProfiles`
abbrev pub Profiles : Type 0
Profiles = Dict UserCryptoProfile

abbrev pub exchange_rate_limit : ℕ
exchange_rate_limit = 20

abbrev pub exchange_window_ms : ℕ
exchange_window_ms = 300_000

-- `getOrCreateProfile`
abbrev pub or_new : (user_id : String) → Option UserCryptoProfile → UserCryptoProfile
or_new user_id none = record {
  user_id = user_id;
  key_exchange_count = 0;
  public_keys = [];
  last_key_exchange = 0;
  events = [];
  alerts = [];
}
or_new user_id (some profile) = profile

pub data KeyError : Type 0 where
  not_ec wrong_curve x_missing y_missing private_key unparsable : KeyError

pub data KeyWarning : Type 0 where
  x_length y_length : KeyWarning

-- `value !== word`
abbrev pub differs : (word : String) → Option Json → Bool
differs word (some (text s)) = not (s === word)
differs word _ = true

-- `!value || typeof value !== "string"`
abbrev pub no_text : Option Json → Bool
no_text (some (text s)) = s === ""
no_text _ = true

-- `typeof value === "string" && (value.length < 40 || value.length > 50)`
abbrev pub is_odd : Option Json → Bool
is_odd (some (text s)) = ltb (units (codes s)) 40 || ltb 50 (units (codes s))
is_odd _ = false

unfoldable pub errors_of : Fields → List KeyError
errors_of key = push_if (differs "EC" (get_field "kty" key)) not_ec (
    push_if (differs "P-256" (get_field "crv" key)) wrong_curve (
      push_if (no_text (get_field "x" key)) x_missing (
        push_if (no_text (get_field "y" key)) y_missing
          (push_if (is_truthy (get_field "d" key)) private_key []))))

unfoldable pub warnings_of : Fields → List KeyWarning
warnings_of key =
    push_if (is_odd (get_field "x" key)) x_length (push_if (is_odd (get_field "y" key)) y_length [])

pub record Validation : Type 0 where
  pub valid : Bool
  pub warnings : List KeyWarning
  pub errors : List KeyError

abbrev pub checked : Fields → Validation
checked key = record {
  valid = is_empty (errors_of key);
  warnings = warnings_of key;
  errors = errors_of key;
}

-- `validatePublicKey`, on what `JSON.parse` makes of the text: `none` where it throws. Reading a
-- property of null throws; any other value that is no object has none of the properties.
unfoldable pub validate_public_key : Option Json → Validation
validate_public_key none = record { valid = false; warnings = []; errors = unparsable ∷ [] }
validate_public_key (some null) = record { valid = false; warnings = []; errors = unparsable ∷ [] }
validate_public_key (some (object key)) = checked key
validate_public_key (some _) = checked end

abbrev pub is_exchange : EventKind → Bool
is_exchange key_exchange = true
is_exchange _ = false

-- the events that `recentExchanges` counts
abbrev pub is_recent : (now : ℕ) → CryptoEvent → Bool
is_recent now e = is_exchange e.kind && ltb (now - e.timestamp) exchange_window_ms

abbrev pub exchange_event : (user_id target_user_id public_key : String) (now : ℕ) → CryptoEvent
exchange_event user_id target_user_id public_key now = record {
  kind = key_exchange;
  user_id = user_id;
  timestamp = now;
  target_user_id = target_user_id;
  key_prefix = substring 20 public_key;
}

-- `if (events.length > 100) events = events.slice(-100)`
unfoldable pub trimmed : List CryptoEvent → List CryptoEvent
trimmed events = if ltb 100 (length events) then last 100 events else events

-- the profile of an exchange that is let through
abbrev pub counted : (public_key : String) (now : ℕ) → UserCryptoProfile → UserCryptoProfile
counted public_key now profile =
    let keys = NameSet.add (substring 50 public_key) profile.public_keys in
    record profile {
      public_keys = keys;
      alerts =
          if ltb 10 (length keys) then profile.alerts ++ many_public_keys ∷ [] else profile.alerts;
      last_key_exchange = now;
      key_exchange_count = profile.key_exchange_count + 1;
    }

unfoldable pub judge :
    (public_key : String) (now : ℕ) → UserCryptoProfile → UserCryptoProfile × Bool
judge public_key now profile =
    if ltb exchange_rate_limit (length (keep (is_recent now) profile.events))
    then (profile, false)
    else (counted public_key now profile, true)

abbrev pub with_event : CryptoEvent → UserCryptoProfile → UserCryptoProfile
with_event e profile = record profile { events = trimmed (profile.events ++ e ∷ []) }

-- `monitorKeyExchange`, with `allowed`
unfoldable pub monitor_key_exchange :
    (user_id target_user_id public_key : String) (now : ℕ) → Profiles → Profiles × Bool
monitor_key_exchange user_id target_user_id public_key now profiles =
    let judged = judge public_key now (
      with_event (exchange_event user_id target_user_id public_key now)
        (or_new user_id (Dict.get user_id profiles))) in
    (Dict.set user_id judged.0 profiles, judged.1)

-- `detectKeySubstitution`, with `substituted`
unfoldable pub detect_key_substitution :
    (current_public_key : String) (previous_public_key : Option String) → Bool
detect_key_substitution current_public_key none = false
detect_key_substitution current_public_key (some previous) =
    if previous === "" then false else not (current_public_key === previous)

pub record Metrics : Type 0 where
  pub users_monitored : ℕ
  pub total_key_exchanges : ℕ
  pub alerts_raised : ℕ

abbrev plus_profile : UserCryptoProfile → Metrics → Metrics
plus_profile p m = record {
  users_monitored = m.users_monitored + 1;
  total_key_exchanges = p.key_exchange_count + m.total_key_exchanges;
  alerts_raised = length p.alerts + m.alerts_raised;
}

-- `getCryptoWatchdogMetrics`
unfoldable pub get_crypto_watchdog_metrics : Profiles → Metrics
get_crypto_watchdog_metrics [] = record {
  users_monitored = 0;
  total_key_exchanges = 0;
  alerts_raised = 0;
}
get_crypto_watchdog_metrics ((user_id, p) ∷ rest) =
    plus_profile p (get_crypto_watchdog_metrics rest)

abbrev pub is_idle : (now : ℕ) → UserCryptoProfile → Bool
is_idle now p = ltb (p.last_key_exchange + 3_600_000) now && ltb 0 p.last_key_exchange

-- the cleanup of every ten minutes
unfoldable pub cleanup : (now : ℕ) → Profiles → Profiles
cleanup now profiles = Dict.retain (λ p. not (is_idle now p)) profiles
