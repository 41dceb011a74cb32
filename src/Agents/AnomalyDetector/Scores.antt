-- ===== src/Agents/AnomalyDetector/Scores.antt =====
-- Events of the detector, and the bounds of its scores.
use pm_chat.Base.{
  ℕ, ◌≤◌, inl, inr, String, Option, none, some, List, [], ◌∷◌, ◌++◌, arith, ◌===◌, ◌&&◌, not, ltb,
  length, Bool-cases, Option-cases, get_last?,
}
use pm_chat.Dict
use pm_chat.NameSet
use pm_chat.Agents.AnomalyDetector.{
  Profile, Profiles, max_messages, or_new, recent, has_jumped, with_message, judge,
  record_message_event, with_fingerprint, judge_login, record_login_event, cleanup,
  get_anomaly_score,
}

pub data Event : Type 0 where
  messages : (user_id ip : String) (now : ℕ) → Event
  logins : (user_id : String) (fingerprint : Option String) (now : ℕ) → Event
  cleans : (now : ℕ) → Event

unfoldable pub step : Profiles → Event → Profiles
step s (messages user_id ip now) = (record_message_event user_id ip now s).0
step s (logins user_id fingerprint now) = (record_login_event user_id fingerprint now s).0
step s (cleans now) = cleanup now s

unfoldable pub run : Profiles → List Event → Profiles
run s [] = s
run s (e ∷ es) = run (step s e) es

abbrev IsBounded : String → Profile → Type 0
IsBounded user_id p = p.anomaly_score ≤ 100

judge_score-le :
    (ip : String) (now : ℕ) (p : Profile)
    → p.anomaly_score ≤ 100
    → (judge ip now p).0.anomaly_score ≤ 100
unfolding judge
judge_score-le ip now p h =
    elim (Bool-cases (ltb max_messages (length (recent 60_000 now p.message_timestamps)))) [
      | inl fast ↦ ground arith
      | inr slow ↦ elim (Bool-cases (ltb 10 (length (recent 5_000 now p.message_timestamps)))) [
        | inl dense ↦ ground arith
        | inr sparse ↦ elim (Bool-cases (has_jumped ip now (get_last? p.ip_history))) [
          | inl jumped ↦ ground arith
          | inr stayed ↦ ground arith
        ]
      ]
    ]

fingerprint_score-le :
    (fingerprint : Option String) (p : Profile)
    → p.anomaly_score ≤ 100
    → (with_fingerprint fingerprint p).anomaly_score ≤ 100
unfolding with_fingerprint
fingerprint_score-le none p h = h
fingerprint_score-le (some f) p h = elim (Bool-cases (f === "")) [
  | inl empty ↦ ground arith
  | inr filled ↦
      elim (Bool-cases
        (ltb 0 (length p.device_fingerprints) && not (NameSet.has f p.device_fingerprints))) [
          | inl fresh ↦ ground arith
          | inr known ↦ ground arith
        ]
]

login_score-le :
    (now : ℕ) (p : Profile) → p.anomaly_score ≤ 100 → (judge_login now p).0.anomaly_score ≤ 100
unfolding judge_login
login_score-le now p h =
    elim (Bool-cases (ltb 5 (length (recent 300_000 now p.login_timestamps)))) [
      | inl often ↦ ground arith
      | inr seldom ↦ ground arith
    ]

or_new_score-le :
    (u : String) (now : ℕ) (s : Profiles)
    → Dict.Each IsBounded s
    → (or_new u now (Dict.get u s)).anomaly_score ≤ 100
or_new_score-le u now s h = elim (Option-cases (Dict.get u s)) [
  | inl missing ↦ ground arith
  | inr (p, found) ↦ ground (arith, Dict.get-Each IsBounded u p s h found)
]

step-Each : (s : Profiles) (e : Event) → Dict.Each IsBounded s → Dict.Each IsBounded (step s e)
unfolding step record_message_event record_login_event cleanup
step-Each s (messages u ip now) h =
    Dict.Each-set IsBounded u _ s
      (judge_score-le ip now (with_message now (or_new u now (Dict.get u s)))
        (or_new_score-le u now s h))
      h
step-Each s (logins u f now) h =
    let p = or_new u now (Dict.get u s) in
    let seen = record p {
      login_timestamps = p.login_timestamps ++ now ∷ [];
      last_activity = now;
    } in
    Dict.Each-set IsBounded u _ s
      (login_score-le now (with_fingerprint f seen)
        (fingerprint_score-le f seen (or_new_score-le u now s h)))
      h
step-Each s (cleans now) h = Dict.Each-retain IsBounded _ s h

run-Each : (es : List Event) (s : Profiles) → Dict.Each IsBounded s → Dict.Each IsBounded (run s es)
unfolding run
run-Each [] s h = h
run-Each (e ∷ es) s h = run-Each es (step s e) (step-Each s e h)

-- After any run of events a user's anomaly score is at most 100.
get_anomaly_score-le :
    (es : List Event) (user_id : String) → get_anomaly_score user_id (run [] es) ≤ 100
unfolding get_anomaly_score
get_anomaly_score-le es u = elim (Option-cases (Dict.get u (run [] es))) [
  | inl missing ↦ ground arith
  | inr (p, found) ↦
      ground (arith, Dict.get-Each IsBounded u p (run [] es) (run-Each es [] tt) found)
]
