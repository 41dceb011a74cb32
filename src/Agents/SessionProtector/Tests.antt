-- ===== src/Agents/SessionProtector/Tests.antt =====
-- Runs of the session protector, with the identity for the digest.
use pm_chat.Base.{
  ℕ, ◌≤◌, ◌≡◌, ◌↔◌, ◌⊎◌, refl, arith, eq_iff, String, true, false, none, some, List, [], ◌∷◌,
  length,
}
use pm_chat.Dict
use pm_chat.NameSet
use pm_chat.Agents.SessionProtector.{
  Session, Protector, initial, Params, tokens_of, oldest, make_room, live, drop_token, forget,
  remove_session, sweep, cleanup, count_suspicious, get_session_protector_metrics, valid,
  fingerprint_changed, too_frequent, register_session, validate_session,
}
use pm_chat.Agents.SessionProtector.Eviction.{}
use pm_chat.Agents.SessionProtector.Tracking.{IsSound}
use pm_chat.Agents.SessionProtector.Soundness.{Operation, registers, step, run, run-IsSound}
use pm_chat.Agents.SessionProtector.Validation.{Fits, valid_iff}

protector : Unit {0}
unfolding oldest make_room live drop_token forget remove_session sweep cleanup count_suspicious
    get_session_protector_metrics register_session validate_session step run Dict.get Dict.set
    Dict.delete NameSet.has NameSet.add NameSet.remove pm_chat.Base.keep
protector = tt

abbrev plain : String → String
plain s = s

abbrev asking : (jti ip : String) → Params
asking jti ip = record {
  jti = jti;
  user_id = "u";
  ip = ip;
  user_agent = "agent";
  accept_language = "fr";
}

abbrev four : List Operation
four =
    registers (asking "a" "ip1") 10
    ∷ registers (asking "b" "ip1") 20
    ∷ registers (asking "c" "ip1") 30
    ∷ registers (asking "d" "ip1") 40
    ∷ []

oldest_evicted : tokens_of "u" (run plain initial four).user_sessions ≡ "b" ∷ "c" ∷ "d" ∷ []
unfolding protector
oldest_evicted = refl

-- The evicted session still passes: its token is unknown here, and left to others.
evicted_passes : (validate_session plain (asking "a" "ip1") 50 (run plain initial four)).1 ≡ valid
unfolding protector
evicted_passes = refl

-- A changed address makes a request fail, and leaves the session: the next good one passes.
mismatch :
    (validate_session plain (asking "b" "ip2") 500 (run plain initial four)).1 ≡ fingerprint_changed
unfolding protector
mismatch = refl

not_revoked :
    (validate_session plain
      (asking "b" "ip1")
      900
      (validate_session plain (asking "b" "ip2") 500 (run plain initial four)).0).1
    ≡ valid
unfolding protector
not_revoked = refl

frequent : (validate_session plain (asking "d" "ip1") 41 (run plain initial four)).1 ≡ too_frequent
unfolding protector
frequent = refl

counted :
    get_session_protector_metrics (cleanup 900_025 (run plain initial four))
    ≡ record { active_sessions = 2; suspicious_sessions = 0; unique_users = 1 }
unfolding protector
counted = refl

run-IsSound_example : IsSound (run plain initial four)
run-IsSound_example = run-IsSound plain four (
  (λ e. ground (arith, eq_iff "a" "")),
  (
    (λ e. ground (arith, eq_iff "b" "")),
    ((λ e. ground (arith, eq_iff "c" "")), ((λ e. ground (arith, eq_iff "d" "")), tt)),
  ),
)

valid_iff_example :
    ((validate_session plain (asking "b" "ip2") 500 (run plain initial four)).1 ≡ valid) ↔ (
      (Dict.get "b" (run plain initial four).sessions ≡ none)
      ⊎ ((s : Session) × (Dict.get "b" (run plain initial four).sessions ≡ some s)
          × Fits plain (asking "b" "ip2") 500 s))
valid_iff_example = valid_iff plain (asking "b" "ip2") 500 (run plain initial four)

abbrev three : Protector
three = run plain initial (
    registers (asking "a" "ip1") 10
    ∷ registers (asking "b" "ip1") 20
    ∷ registers (asking "c" "ip1") 30
    ∷ [])

abbrev first_session : Session
first_session = record {
  user_id = "u";
  fingerprint = "ip1:agent:fr";
  ip = "ip1";
  user_agent = "agent";
  created_at = 10;
  last_seen = 10;
  request_count = 0;
  suspicious = false;
}
