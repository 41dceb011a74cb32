-- ===== src/Agents/ThreatIntelligence/Severity.antt =====
-- Scores and severities.
use native.Mathlib.Nat.{div-lt_iff_lt-mul, mul-le-mul_right}
use pm_chat.Base.{
  ℕ, ◌+◌, ◌*◌, ◌≤◌, ◌≡◌, refl, inl, inr, max, String, true, Option, none, some, List, [], ◌∷◌, ◌++◌,
  arith, if◌then◌else◌, leb, All, All-append, All-drop, Bool-cases, Option-cases, last, length, ◌-◌,
  ltb, ◌==◌, ◌&&◌, sym, subst,
}
use pm_chat.Dict
use pm_chat.Agents.ThreatIntelligence.Quarantine.{Operation, reports, checks, decays, step, run}
use pm_chat.Agents.ThreatIntelligence.{
  Action, allow, warn, throttle, block, quarantine, Signal, ThreatRecord, Database, or_new, weight,
  total_weight, weighted_score, score_of, reached, action_of, quarantined, with_signal, signal_at,
  report_threat_signal, is_let_through, decay_record, decay, is_none, check_threat_status,
}

-- A signal of half the greatest severity at most.
abbrev pub IsMild : Signal → Type 0
IsMild s = s.severity ≤ 5

mild_weighted :
    (now : ℕ) (signals : List Signal)
    → All IsMild signals
    → weighted_score now signals ≤ 5 * total_weight now signals
unfolding weighted_score total_weight
mild_weighted now [] h = omega arith
mild_weighted now (s ∷ signals) (m, ms) =
    omega (arith, mul-le-mul_right (weight now s) m, mild_weighted now signals ms)

-- Of mild signals only, the score is at most 50.
mild_score-le : (now : ℕ) (signals : List Signal) → All IsMild signals → score_of now signals ≤ 50
unfolding score_of
mild_score-le now signals h = omega (
  arith,
  (div-lt_iff_lt-mul {k = 2 * max 3_600_000 (total_weight now signals)}
        {x = 2 * (10 * weighted_score now signals) + max 3_600_000 (total_weight now signals)}
        {y = 51} (omega arith)).1
      (omega (arith, mild_weighted now signals h)),
)

-- The action of a score, as its thresholds say.
abbrev pub graded : (score : ℕ) → Action
graded score =
    if leb 80 score
    then quarantine
    else if leb 60 score
    then block
    else if leb 40 score
    then throttle
    else if leb 20 score
    then warn
    else allow

action_of-graded : (score : ℕ) → action_of score ≡ graded score
unfolding action_of reached
action_of-graded score = ground arith

abbrev IsSafe : String → ThreatRecord → Type 0
IsSafe k r =
    All IsMild r.signals × (is_let_through r.last_action ≡ true) × (r.quarantine_until ≡ none)

low_action :
    (now score : ℕ) (until : Option ℕ)
    → score ≤ 50
    → until ≡ none
    → (is_let_through (graded score) ≡ true) × (quarantined now (graded score) until ≡ none)
low_action now score until low free = elim (Bool-cases (leb 40 score)) [
  | inl much ↦ (ground arith, ground arith)
  | inr less ↦ elim (Bool-cases (leb 20 score)) [
    | inl some_score ↦ (ground arith, ground arith)
    | inr little ↦ (ground arith, ground arith)
  ]
]

with_signal-IsSafe :
    (source : String) (severity : ℕ) (message : String) (now : ℕ) (k : String) (r : ThreatRecord)
    → severity ≤ 5
    → IsSafe k r
    → IsSafe k (with_signal (signal_at source severity message now) now r)
unfolding with_signal last
with_signal-IsSafe source severity message now k r m (mild, through, free) =
    let signals = last 50 (r.signals ++ signal_at source severity message now ∷ []) in
    let all_mild : All IsMild signals =
      All-drop IsMild (length (r.signals ++ signal_at source severity message now ∷ []) - 50)
        (r.signals ++ signal_at source severity message now ∷ [])
        (All-append IsMild r.signals (signal_at source severity message now ∷ []) mild (m, tt)) in
    let (through', free') =
      subst (λ a. (is_let_through a ≡ true) × (quarantined now a r.quarantine_until ≡ none))
        (sym (action_of-graded (score_of now signals)))
        (low_action now (score_of now signals) r.quarantine_until
          (mild_score-le now signals all_mild) free) in
    (all_mild, through', free')

decay_record-IsSafe :
    (now : ℕ) (k : String) (r r' : ThreatRecord)
    → IsSafe k r
    → decay_record now r ≡ some r'
    → IsSafe k r'
unfolding decay_record
decay_record-IsSafe now k r r' h e = elim (Bool-cases (ltb 3_600_000 (now - r.last_updated))) [
  | inl old ↦ elim (Bool-cases ((r.score - 10 == 0) && is_none r.quarantine_until)) [
    | inl gone ↦ absurd (ground arith)
    | inr stays ↦
        let same : record r { score = r.score - 10 } ≡ r' = ground arith in subst (IsSafe k) same h
  ]
  | inr recent ↦ elim (Bool-cases (ltb 300_000 (now - r.last_updated))) [
    | inl older ↦
        let same : record r { score = r.score - 2 } ≡ r' = ground arith in subst (IsSafe k) same h
    | inr newer ↦ let same : r ≡ r' = ground arith in subst (IsSafe k) same h
  ]
]

decay-IsSafe : (now : ℕ) (db : Database) → Dict.Each IsSafe db → Dict.Each IsSafe (decay now db)
unfolding decay
decay-IsSafe now [] h = tt
decay-IsSafe now ((k, r) ∷ db) (p, h) = elim (Option-cases (decay_record now r)) [
  | inl gone ↦ ground (arith, decay-IsSafe now db h)
  | inr (r', left) ↦ ground (arith, decay-IsSafe now db h, decay_record-IsSafe now k r r' p left)
]

-- A report is of a mild signal.
abbrev pub IsMildReport : Operation → Type 0
IsMildReport (reports target source severity message now) = severity ≤ 5
IsMildReport _ = Unit

or_new-IsSafe :
    (t : String) (now : ℕ) (db : Database)
    → Dict.Each IsSafe db
    → IsSafe t (or_new t now (Dict.get t db))
or_new-IsSafe t now db h = from_found (Dict.get t db) refl
  where
    from_found : (o : Option ThreatRecord) → Dict.get t db ≡ o → IsSafe t (or_new t now o)
    from_found none e = (tt, refl, refl)
    from_found (some r) e = Dict.get-Each IsSafe t r db h e

check-same :
    (t : String) (now : ℕ) (db : Database)
    → Dict.Each IsSafe db
    → ((check_threat_status t now db).0 ≡ db) × ((check_threat_status t now db).1.allowed ≡ true)
unfolding check_threat_status
check-same t now db h = elim (Option-cases (Dict.get t db)) [
  | inl missing ↦ (ground arith, ground arith)
  | inr (r, found) ↦
      let (mild, through, free) = Dict.get-Each IsSafe t r db h found in
      (ground arith, ground arith)
]

step-IsSafe :
    (db : Database) (o : Operation)
    → IsMildReport o
    → Dict.Each IsSafe db
    → Dict.Each IsSafe (step db o)
unfolding step report_threat_signal
step-IsSafe db (reports t source severity message now) m h =
    Dict.Each-set IsSafe t _ db
      (with_signal-IsSafe source severity message now t _ m (or_new-IsSafe t now db h)) h
step-IsSafe db (checks t now) m h = subst (Dict.Each IsSafe) (sym (check-same t now db h).0) h
step-IsSafe db (decays now) m h = decay-IsSafe now db h

run-IsSafe :
    (os : List Operation) (db : Database)
    → All IsMildReport os
    → Dict.Each IsSafe db
    → Dict.Each IsSafe (run db os)
unfolding run
run-IsSafe [] db m h = h
run-IsSafe (o ∷ os) db (m, ms) h = run-IsSafe os (step db o) ms (step-IsSafe db o m h)

-- Signals of severity 5 at most never get a target refused, however many there are and at whatever
-- times: after any run of such reports, checks and decays every check lets its target through.
mild-allowed :
    (os : List Operation) (target : String) (now : ℕ)
    → All IsMildReport os
    → (check_threat_status target now (run [] os)).1.allowed ≡ true
mild-allowed os target now m = (check-same target now (run [] os) (run-IsSafe os [] m tt)).1
