-- ===== src/Agents/CryptoWatchdog/Tests.antt =====
-- Runs of the crypto watchdog.
use pm_chat.Base.{
  ℕ, zero, suc, ◌+◌, ◌≤◌, ◌≡◌, ◌↔◌, refl, arith, String, Bool, true, false, Option, none, some,
  List, [], ◌∷◌, ◌++◌,
}
use pm_chat.Dict
use pm_chat.NameSet
use pm_chat.Texts
use pm_chat.Schema
use pm_chat.Json.{null, text, object, Fields, end, field, get_field}
use pm_chat.Agents.CryptoWatchdog.{
  validate_public_key, errors_of, warnings_of, unparsable, private_key, x_length, y_length, judge,
  trimmed, monitor_key_exchange, detect_key_substitution, get_crypto_watchdog_metrics, cleanup,
}
use pm_chat.Agents.CryptoWatchdog.Recent.{within}
use pm_chat.Agents.CryptoWatchdog.Window.{
  Call, exchange, clean, step, noted, allowed, allowed_within-le,
}

watchdog : Unit {0}
unfolding validate_public_key errors_of warnings_of monitor_key_exchange judge trimmed
    detect_key_substitution get_crypto_watchdog_metrics cleanup step noted allowed within Dict.get
    Dict.set Dict.retain Dict.delete NameSet.add Texts.substring Schema.units get_field
    pm_chat.Base.keep pm_chat.Base.last
watchdog = tt

abbrev key : Fields
key =
    field "kty" (text "EC")
      (field "crv" (text "P-256") (field "x" (text "x0") (field "y" (text "y0") end)))

short_coordinates :
    validate_public_key (some (object key))
    ≡ record { valid = true; warnings = x_length ∷ y_length ∷ []; errors = [] }
unfolding watchdog
short_coordinates = refl

leaked :
    (validate_public_key (some (object (field "d" (text "secret") key)))).errors ≡ private_key ∷ []
unfolding watchdog
leaked = refl

null_key : (validate_public_key (some null)).errors ≡ unparsable ∷ []
unfolding watchdog
null_key = refl

abbrev exchanges : (count start : ℕ) → List Call
exchanges zero start = []
exchanges (suc n) start = exchange "u" "v" "key" start ∷ exchanges n (start + 1)

abbrev after_25 : List ℕ
after_25 = allowed "u" [] [] (exchanges 25 1)

twenty_of_25 : within 30 after_25 ≡ 20
unfolding watchdog
twenty_of_25 = refl

changed : detect_key_substitution "k2" (some "k1") ≡ true
unfolding watchdog
changed = refl

abbrev few_calls : List Call
few_calls =
    exchange "u" "v" "key" 5
    ∷ exchange "v" "u" "key" 6
    ∷ clean 4_000_000
    ∷ exchange "u" "v" "key" 4_000_001
    ∷ []

allowed_within-le_example : within 4_000_002 (allowed "u" [] [] few_calls) ≤ 20
allowed_within-le_example =
    allowed_within-le "u" few_calls 4_000_001 4_000_002
      (omega arith, (omega arith, (omega arith, (omega arith, omega arith)))) (omega arith)
