-- ===== src/Middleware/Guards/Tests.antt =====
-- Requests at the guards, and bodies with NUL bytes.
use pm_chat.Base.{
  ℕ, zero, suc, ◌+◌, ◌≤◌, ◌≡◌, refl, String, Bool, true, false, Option, none, some, List, [], ◌∷◌,
  arith, All, eq_iff,
}
use pm_chat.Dict
use pm_chat.NameSet
use pm_chat.Texts
use pm_chat.Schema
use pm_chat.Json.{Json, text, object, array, nil, cons, end, field, get_field}
use pm_chat.Utils.SecurityMonitor
use pm_chat.Utils.ErrorTracker
use pm_chat.Middleware.InputGuard.{strip_text, strip_nul_bytes, strip_fields, sanitize_body}
use pm_chat.Middleware.InputGuard.Clean.{
  is_clean, is_clean_text, strip_found, strip_fields-is_clean,
}
use pm_chat.Middleware.Guards.{
  Request, proceed, forbidden, unsupported_type, invalid_iv, network_guard, crypto_guard, includes,
  is_unsupported, integrity_guard, front, count_request, session_guard,
}
use pm_chat.Utils.SecurityMonitor.Blocking.{replay}
use pm_chat.Middleware.Guards.Blocks.{Event, request, elsewhere, start, run, happen, offences}
use pm_chat.Middleware.Guards.Sessions.{Call, passed_total}

guards : Unit {0}
unfolding network_guard crypto_guard includes is_unsupported integrity_guard front count_request
    session_guard happen run offences passed_total strip_text strip_nul_bytes sanitize_body is_clean
    is_clean_text get_field Texts.substring Schema.units SecurityMonitor.is_ip_blocked
    SecurityMonitor.record_malformed_payload SecurityMonitor.track
    SecurityMonitor.track_suspicious_ip ErrorTracker.track_error ErrorTracker.trim
    ErrorTracker.merge ErrorTracker.bump ErrorTracker.same_text Dict.get Dict.set NameSet.has
    NameSet.add pm_chat.Base.any pm_chat.Base.last
guards = tt

abbrev posting : Option String → Json → Request
posting content_type body = record {
  ip = some "1.2.3.4";
  remote_address = none;
  method = "POST";
  content_type = content_type;
  body = some body;
}

abbrev one_field : Json
one_field = object (field "a" (text "b") end)

plain_text : (front (posting (some "text/plain") one_field) start).1 ≡ unsupported_type
unfolding guards
plain_text = refl

json_body : (front (posting (some "application/json; charset=utf-8") one_field) start).1 ≡ proceed
unfolding guards
json_body = refl

abbrev many : (n : ℕ) → Request → List Event
many zero r = []
many (suc n) r = request r ∷ many n r

blocked :
    (front
      (posting (some "application/json") one_field)
      (run start (many 50 (posting none one_field)))).1
    ≡ forbidden
unfolding guards
blocked = refl

no_iv :
    (crypto_guard
      (posting none (object (field "encryptedPayload" (text "0123456789abcdef") end)))
      5
      start).1
    ≡ invalid_iv
unfolding guards
no_iv = refl

abbrev calls : (n : ℕ) → List Call
calls zero = []
calls (suc n) = record { user_id = "u"; now = 7 } ∷ calls n

at_most_300 : passed_total "u" start (calls 310) ≡ 300
unfolding guards
at_most_300 = refl

nested :
    strip_nul_bytes (array (cons (object (field "k" (text "a\0b") end)) nil))
    ≡ array (cons (object (field "k" (text "ab") end)) nil)
unfolding guards
nested = refl

-- A request of an unsupported type, and a replayed nonce from the same address.
abbrev events : List Event
events = request (posting none one_field) ∷ elsewhere (replay (some "1.2.3.4")) ∷ []

named_user : ◌≡◌ {A = Bool} (pm_chat.Base.◌===◌ "u" "") false
named_user = refl

strip_fields-is_clean_example :
    (is_clean (strip_nul_bytes (object (field "k" (text "a\0b") end))) ≡ true)
    × ((name : String)
        → get_field name (strip_fields (field "k" (text "a\0b") end))
          ≡ strip_found (get_field name (field "k" (text "a\0b") end)))
    × (is_clean (object (field "k" (text "a\0b") end)) ≡ true
        → strip_nul_bytes (object (field "k" (text "a\0b") end))
          ≡ object (field "k" (text "a\0b") end))
strip_fields-is_clean_example = strip_fields-is_clean (field "k" (text "a\0b") end)
