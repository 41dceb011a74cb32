-- ===== src/Middleware/Guards.antt =====
-- apps/server/src/middleware/securityGuards.ts, in front of the routes: the guards share the monitor
-- of securityMonitor.ts and the tracker of errorTracker.ts. `createApp.ts` runs `sanitizeBody`, the
-- network guard and the integrity guard on every request, in this order.
pub mod Blocks
pub mod Sessions
mod Tests
use pm_chat.Base.{
  ℕ, zero, suc, ◌+◌, ◌-◌, String, Bool, true, false, not, ◌&&◌, ◌||◌, Option, none, some, List, [],
  ◌∷◌, ◌++◌, if◌then◌else◌, ltb, ◌==◌, ◌===◌, any, truthy,
}
use pm_chat.Dict
use pm_chat.Dict.{Dict}
use pm_chat.NameSet
use pm_chat.Texts.{substring}
use pm_chat.Schema.{codes, units}
use pm_chat.Json.{
  Json, null, boolean, number, text, array, object, Items, nil, cons, Fields, end, field, get_field,
  is_truthy,
}
use pm_chat.Utils.SecurityMonitor.{Monitor, is_ip_blocked, record_malformed_payload}
use pm_chat.Utils.ErrorTracker.{Tracker, Text, crypto, auth, track_error}
use pm_chat.Middleware.InputGuard.{sanitize_body}

pub record Entry : Type 0 where
  pub count : ℕ
  pub window_start : ℕ

pub record World : Type 0 where
  pub monitor : Monitor
  pub tracker : Tracker
  -- `sessionRequestCounts`
  pub session_counts : Dict Entry

pub record Request : Type 0 where
  pub ip : Option String
  pub remote_address : Option String
  pub method : String
  pub content_type : Option String
  pub body : Option Json

pub data Decision : Type 0 where
  proceed forbidden invalid_payload invalid_iv unsupported_type too_many_requests : Decision

-- `req.ip ?? req.socket.remoteAddress ?? "unknown"`
abbrev pub address_or : Option String → Option String → String
address_or (some ip) remote = ip
address_or none (some remote) = remote
address_or none none = "unknown"

abbrev pub address : Request → String
address r = address_or r.ip r.remote_address

-- `networkGuard`
unfoldable pub network_guard : Request → World → World × Decision
network_guard r w = (w, if is_ip_blocked (address r) w.monitor then forbidden else proceed)

-- the fields of a body; what is no object has none
abbrev pub fields_of : Option Json → Fields
fields_of (some (object fields)) = fields
fields_of _ = end

abbrev pub is_shorter : (n : ℕ) → Option Json → Bool
is_shorter n (some (text s)) = ltb (units (codes s)) n
is_shorter n _ = true

abbrev pub is_undefined : Option Json → Bool
is_undefined none = true
is_undefined (some v) = false

abbrev pub malformed : Request → (now : ℕ) → (message : Text) → World → World
malformed r now message w = record w {
  monitor = record_malformed_payload (some (address r)) w.monitor;
  tracker = track_error crypto message now w.tracker;
}

-- `cryptoGuard`
unfoldable pub crypto_guard : Request → (now : ℕ) → World → World × Decision
crypto_guard r now w =
    let body = fields_of r.body in
    if not (is_truthy r.body) || is_undefined (get_field "encryptedPayload" body)
    then (w, proceed)
    else if is_shorter 16 (get_field "encryptedPayload" body)
    then (
      malformed r now (codes "Message with invalid encrypted payload rejected") w,
      invalid_payload,
    )
    else if is_shorter 8 (get_field "iv" body)
    then (malformed r now (codes "Message missing or invalid IV") w, invalid_iv)
    else (w, proceed)

-- `Object.keys(body).length > 0`, and false where the body is falsy
abbrev pub has_keys : Option Json → Bool
has_keys (some (object (field key value rest))) = true
has_keys (some (array (cons item rest))) = true
has_keys (some (text s)) = truthy (some s)
has_keys _ = false

abbrev pub starts_with : List ℕ → List ℕ → Bool
starts_with [] s = true
starts_with (p ∷ ps) [] = false
starts_with (p ∷ ps) (c ∷ s) = p == c && starts_with ps s

-- `s.includes(part)`
unfoldable pub includes : (part : List ℕ) → List ℕ → Bool
includes part [] = starts_with part []
includes part (c ∷ s) = starts_with part (c ∷ s) || includes part s

abbrev pub accepted_types : List String
accepted_types =
    "application/json" ∷ "application/octet-stream" ∷ "multipart/form-data"
    ∷ "application/encrypted" ∷ []

abbrev pub or_empty : Option String → String
or_empty none = ""
or_empty (some s) = s

unfoldable pub is_unsupported : Request → Bool
is_unsupported r =
    NameSet.has r.method ("POST" ∷ "PUT" ∷ "PATCH" ∷ [])
    && (has_keys r.body
        && not
            (any (λ part. includes (codes part) (codes (or_empty r.content_type))) accepted_types))

-- `integrityGuard`
unfoldable pub integrity_guard : Request → World → World × Decision
integrity_guard r w =
    if is_unsupported r
    then (
      record w { monitor = record_malformed_payload (some (address r)) w.monitor },
      unsupported_type,
    )
    else (w, proceed)

abbrev pub sanitized : Request → Request
sanitized r = record r { body = sanitize_body r.body }

-- `next()` runs the guard that follows.
abbrev pub and_then : World × Decision → (World → World × Decision) → World × Decision
and_then (w, proceed) next = next w
and_then (w, refusal) next = (w, refusal)

-- the guards in front of every route
unfoldable pub front : Request → World → World × Decision
front r w = and_then (network_guard (sanitized r) w) (integrity_guard (sanitized r))

abbrev pub session_window_ms : ℕ
session_window_ms = 60_000

abbrev pub session_max_requests : ℕ
session_max_requests = 300

abbrev fresh : (now : ℕ) → Entry
fresh now = record { count = 1; window_start = now }

abbrev with_entry : (user_id : String) → Entry → World → World
with_entry user_id entry w = record w { session_counts = Dict.set user_id entry w.session_counts }

-- what the tracker is told of a user
abbrev anomaly : (user_id : String) → Text
anomaly user_id = codes "Session anomaly for user " ++ (codes (substring 8 user_id) ++ codes "...")

-- the request of a user in a window that is open, unless more than a minute old
unfoldable pub count_request :
    (user_id : String) (now : ℕ) → World → Option Entry → World × Decision
count_request user_id now w none = (with_entry user_id (fresh now) w, proceed)
count_request user_id now w (some entry) =
    let counted = with_entry user_id (record entry { count = entry.count + 1 }) w in
    if ltb session_window_ms (now - entry.window_start)
    then (with_entry user_id (fresh now) w, proceed)
    else if ltb session_max_requests (entry.count + 1)
    then (
      record counted { tracker = track_error auth (anomaly user_id) now w.tracker },
      too_many_requests,
    )
    else (counted, proceed)

-- `sessionGuard`
unfoldable pub session_guard : (user_id : Option String) (now : ℕ) → World → World × Decision
session_guard none now w = (w, proceed)
session_guard (some user_id) now w =
    if user_id === ""
    then (w, proceed)
    else count_request user_id now w (Dict.get user_id w.session_counts)
