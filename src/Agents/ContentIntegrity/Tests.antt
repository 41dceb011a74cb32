-- ===== src/Agents/ContentIntegrity/Tests.antt =====
-- Runs of the content integrity agent, with no payload of low entropy.
use pm_chat.Base.{◌≡◌, refl, arith, String, Bool, true, false, List, [], ◌∷◌, total}
use pm_chat.Dict
use pm_chat.NameSet
use pm_chat.Schema.{units}
use pm_chat.Agents.ContentIntegrity.{
  Params, initial, iv_reused, nonce_short, errors_of, is_rest, is_base64,
  validate_message_integrity, trim_all, cleanup, get_content_integrity_metrics,
}
use pm_chat.Agents.ContentIntegrity.Reuse.{
  Event, validates, cleans, step, run, was_used, errors-was_used,
}

integrity : Unit {0}
unfolding is_rest is_base64 validate_message_integrity trim_all cleanup
    get_content_integrity_metrics step run was_used units total Dict.get Dict.set Dict.values
    NameSet.has NameSet.add
integrity = tt

abbrev never : String → Bool
never s = false

abbrev message : (conversation_id iv : String) → Params
message conversation_id iv = record {
  encrypted_payload = "YWJjZGVmZ2hpamts";
  iv = iv;
  nonce = "nonce";
  conversation_id = conversation_id;
  sender_id = "u";
}

abbrev events : List Event
events = validates (message "c" "aXZpdml2aXZpdml2") ∷ cleans ∷ []

found_again :
    (validate_message_integrity never never
      (message "c" "aXZpdml2aXZpdml2")
      (run never never initial events)).1
    ≡ record { valid = false; warnings = nonce_short ∷ []; errors = iv_reused ∷ [] }
unfolding integrity
found_again = refl

elsewhere :
    (validate_message_integrity never never
      (message "d" "aXZpdml2aXZpdml2")
      (run never never initial events)).1.valid
    ≡ true
unfolding integrity
elsewhere = refl

-- Padding stands at the end.
padding : is_base64 (b'a' ∷ b'=' ∷ b'=' ∷ []) ≡ true
unfolding integrity
padding = refl

no_padding : is_base64 (b'a' ∷ b'=' ∷ b'a' ∷ []) ≡ false
unfolding integrity
no_padding = refl

counts :
    get_content_integrity_metrics (run never never initial events)
    ≡ record { conversations_monitored = 1; total_ivs_tracked = 1; iv_reuses_detected = 0 }
unfolding integrity
counts = refl

errors-was_used_example :
    (validate_message_integrity never never
      (message "c" "aXZpdml2aXZpdml2")
      (run never never initial events)).1.errors
    ≡ errors_of never never
        (message "c" "aXZpdml2aXZpdml2")
        (was_used "c" "aXZpdml2aXZpdml2" events)
errors-was_used_example =
    errors-was_used never never (message "c" "aXZpdml2aXZpdml2") events (omega arith)
