-- ===== src/Agents/SessionProtector.antt =====
-- apps/server/src/agents/sessionProtector.ts: the sessions of each user, at most three, and their
-- fingerprints. `digest` is the digest of `generateFingerprint`. Times are milliseconds of a clock
-- that does not go back; the quotient of requests per second is compared exactly.
pub mod Tokens
pub mod Tracking
pub mod Soundness
pub mod Eviction
pub mod Validation
mod Tests
use Prim.Native.String
use pm_chat.Base.{
  ℕ, ◌+◌, ◌*◌, ◌-◌, String, Bool, true, false, not, ◌&&◌, Option, none, some, List, [], ◌∷◌,
  if◌then◌else◌, ltb, leb, ◌===◌, length, keep,
}
use pm_chat.Dict
use pm_chat.Dict.{Dict}
use pm_chat.NameSet
use pm_chat.NameSet.{NameSet}

pub record Session : Type 0 where
  pub user_id : String
  pub fingerprint : String
  pub ip : String
  pub user_agent : String
  pub created_at : ℕ
  pub last_seen : ℕ
  pub request_count : ℕ
  pub suspicious : Bool

-- `sessions`, by token, and `userSessions`
pub record Protector : Type 0 where
  pub sessions : Dict Session
  pub user_sessions : Dict NameSet

abbrev pub initial : Protector
initial = record { sessions = []; user_sessions = [] }

pub record Params : Type 0 where
  pub jti : String
  pub user_id : String
  pub ip : String
  pub user_agent : String
  pub accept_language : String

abbrev pub max_concurrent_sessions : ℕ
max_concurrent_sessions = 3

abbrev pub session_inactive_timeout_ms : ℕ
session_inactive_timeout_ms = 900_000

abbrev pub is_some {ℓ} : {A : Type ℓ} → Option A → Bool
is_some none = false
is_some (some a) = true

abbrev or_empty : Option NameSet → NameSet
or_empty none = []
or_empty (some s) = s

abbrev pub tokens_of : (user_id : String) → Dict NameSet → NameSet
tokens_of user_id user_sessions = or_empty (Dict.get user_id user_sessions)

-- `if (session && session.createdAt < oldestTime)`
abbrev pub earlier : String → Option Session → Option (String × ℕ) → Option (String × ℕ)
earlier jti none best = best
earlier jti (some session) none = some (jti, session.created_at)
earlier jti (some session) (some (old, time)) =
    if ltb session.created_at time then some (jti, session.created_at) else some (old, time)

-- the loop that finds the oldest of the tokens
unfoldable pub oldest : Dict Session → NameSet → Option (String × ℕ) → Option (String × ℕ)
oldest sessions [] best = best
oldest sessions (jti ∷ tokens) best =
    oldest sessions tokens (earlier jti (Dict.get jti sessions) best)

-- `if (oldestJti)`: an empty token is falsy
abbrev pub evict_found : Option (String × ℕ) → NameSet → Dict Session → NameSet × Dict Session
evict_found none tokens sessions = (tokens, sessions)
evict_found (some (jti, time)) tokens sessions =
    if jti === "" then (tokens, sessions) else (NameSet.remove jti tokens, Dict.delete jti sessions)

-- what is left when the user has too many sessions
unfoldable pub make_room : NameSet → Dict Session → NameSet × Dict Session
make_room tokens sessions =
    if leb max_concurrent_sessions (length tokens)
    then evict_found (oldest sessions tokens none) tokens sessions
    else (tokens, sessions)

-- "Clean expired sessions"
unfoldable pub live : Dict Session → NameSet → NameSet
live sessions = keep (λ jti. is_some (Dict.get jti sessions))

-- `if (userSessionSet) userSessionSet.delete(jti)`
unfoldable pub drop_token : (jti user_id : String) → Dict NameSet → Dict NameSet
drop_token jti user_id user_sessions = elim (Dict.get user_id user_sessions) [
  | none ↦ user_sessions
  | some tokens ↦ Dict.set user_id (NameSet.remove jti tokens) user_sessions
]

unfoldable pub forget : (jti : String) → Session → Protector → Protector
forget jti session p = record {
  sessions = Dict.delete jti p.sessions;
  user_sessions = drop_token jti session.user_id p.user_sessions;
}

-- `removeSession`
unfoldable pub remove_session : (jti : String) → Protector → Protector
remove_session jti p = elim (Dict.get jti p.sessions) [
  | none ↦ p
  | some session ↦ forget jti session p
]

unfoldable pub sweep : (now : ℕ) → Dict Session → Protector → Protector
sweep now [] p = p
sweep now ((jti, session) ∷ entries) p =
    sweep now entries (
      if ltb (session.last_seen + session_inactive_timeout_ms) now then forget jti session p else p)

-- the cleanup of every five minutes
unfoldable pub cleanup : (now : ℕ) → Protector → Protector
cleanup now p = sweep now p.sessions p

unfoldable pub count_suspicious : Dict Session → ℕ
count_suspicious [] = 0
count_suspicious ((jti, session) ∷ entries) =
    (if session.suspicious then 1 else 0) + count_suspicious entries

pub record Metrics : Type 0 where
  pub active_sessions : ℕ
  pub suspicious_sessions : ℕ
  pub unique_users : ℕ

-- `getSessionProtectorMetrics`
unfoldable pub get_session_protector_metrics : Protector → Metrics
get_session_protector_metrics p = record {
  active_sessions = length p.sessions;
  suspicious_sessions = count_suspicious p.sessions;
  unique_users = length p.user_sessions;
}

pub data Validity : Type 0 where
  valid fingerprint_changed too_frequent : Validity

module _ (digest : String → String) where
  -- `generateFingerprint`
  abbrev pub fingerprint_of : Params → String
  fingerprint_of params = digest (
      String.◌++◌ params.ip
        (String.◌++◌ ":" (String.◌++◌ params.user_agent (String.◌++◌ ":" params.accept_language))))

  abbrev pub new_session : Params → (now : ℕ) → Session
  new_session params now = record {
    user_id = params.user_id;
    fingerprint = fingerprint_of params;
    ip = params.ip;
    user_agent = params.user_agent;
    created_at = now;
    last_seen = now;
    request_count = 0;
    suspicious = false;
  }

  -- `registerSession`, which always allows
  unfoldable pub register_session : Params → (now : ℕ) → Protector → Protector
  register_session params now p =
      let kept =
        make_room (live p.sessions (tokens_of params.user_id p.user_sessions)) p.sessions in
      record {
        sessions = Dict.set params.jti (new_session params now) kept.1;
        user_sessions = Dict.set params.user_id (NameSet.add params.jti kept.0) p.user_sessions;
      }

  -- `sessionAge > 0 && requestsPerSecond > 10`
  abbrev pub is_frequent : Session → (now : ℕ) → Bool
  is_frequent session now =
      ltb 0 (now - session.created_at)
      && ltb (10 * (now - session.created_at)) (session.request_count * 1000)

  abbrev pub touched : Session → (now : ℕ) → Session
  touched session now = record session {
    last_seen = now;
    request_count = session.request_count + 1;
  }

  abbrev put : (jti : String) → Session → Protector → Protector
  put jti session p = record p { sessions = Dict.set jti session p.sessions }

  abbrev pub judge : Params → Session → (now : ℕ) → Protector → Protector × Validity
  judge params session now p =
      if not (fingerprint_of params === session.fingerprint)
      then (put params.jti (record session { suspicious = true }) p, fingerprint_changed)
      else if is_frequent session now
      then (put params.jti (record session { suspicious = true }) p, too_frequent)
      else (put params.jti session p, valid)

  -- `validateSession`
  unfoldable pub validate_session : Params → (now : ℕ) → Protector → Protector × Validity
  validate_session params now p = elim (Dict.get params.jti p.sessions) [
    | none ↦ (p, valid)
    | some session ↦ judge params (touched session now) now p
  ]
