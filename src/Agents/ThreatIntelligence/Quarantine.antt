-- ===== src/Agents/ThreatIntelligence/Quarantine.antt =====
-- How long a response of the agent lasts, over any run of its operations.
use pm_chat.Base.{
  ℕ, ◌+◌, ◌-◌, ◌≤◌, ◌<◌, ◌≡◌, refl, inl, inr, String, false, some, List, [], ◌∷◌, arith, eq_iff,
  ◌===◌, ltb, All, Bool-cases, Option-cases, ap, eq_refl, sym, subst,
}
use pm_chat.Dict
use pm_chat.Agents.ThreatIntelligence.{
  Action, allow, block, quarantine, ThreatRecord, Database, quarantine_duration_ms, or_new,
  with_signal, signal_at, report_threat_signal, quarantined, cleared, warn, throttle,
  check_threat_status, decay_record, decay,
}

pub data Operation : Type 0 where
  reports : (target source : String) (severity : ℕ) (message : String) (now : ℕ) → Operation
  checks : (target : String) (now : ℕ) → Operation
  decays : (now : ℕ) → Operation

unfoldable pub step : Database → Operation → Database
step db (reports target source severity message now) =
    (report_threat_signal target source severity message now db).0
step db (checks target now) = (check_threat_status target now db).0
step db (decays now) = decay now db

unfoldable pub run : Database → List Operation → Database
run db [] = db
run db (o ∷ os) = run (step db o) os

-- The record of the target holds it in quarantine at least until `end`.
abbrev IsHeld : (target : String) (end : ℕ) → Database → Type 0
IsHeld target end db =
    (r : ThreatRecord) × (until : ℕ) × (Dict.get target db ≡ some r)
    × (r.quarantine_until ≡ some until)
    × (end ≤ until)

-- The operation is between the two moments: no check or report comes later than the end.
abbrev pub IsDuring : (start end : ℕ) → Operation → Type 0
IsDuring start end (reports target source severity message now) = (start ≤ now) × (now < end)
IsDuring start end (checks target now) = (start ≤ now) × (now < end)
IsDuring start end (decays now) = (start ≤ now) × (now < end)

decay_record-until :
    (now : ℕ) (r : ThreatRecord) (until : ℕ)
    → r.quarantine_until ≡ some until
    → (r' : ThreatRecord) × (decay_record now r ≡ some r') × (r'.quarantine_until ≡ some until)
unfolding decay_record
decay_record-until now r until h = elim (Bool-cases (ltb 3_600_000 (now - r.last_updated))) [
  | inl old ↦ (record r { score = r.score - 10 }, ground arith, h)
  | inr recent ↦ elim (Bool-cases (ltb 300_000 (now - r.last_updated))) [
    | inl older ↦ (record r { score = r.score - 2 }, ground arith, h)
    | inr newer ↦ (r, ground arith, h)
  ]
]

get-decay :
    (now : ℕ) (db : Database) (k : String) (r r' : ThreatRecord)
    → Dict.get k db ≡ some r
    → decay_record now r ≡ some r'
    → Dict.get k (decay now db) ≡ some r'
unfolding Dict.get decay
get-decay now [] k r r' h e = absurd (ground arith)
get-decay now ((j, q) ∷ db) k r r' h e = elim (Bool-cases (j === k)) [
  | inl same ↦ ground arith
  | inr other ↦ elim (Option-cases (decay_record now q)) [
    | inl gone ↦ ground (arith, get-decay now db k r r' (ground arith) e)
    | inr (q', left) ↦ ground (arith, get-decay now db k r r' (ground arith) e)
  ]
]

quarantined-until :
    (now end : ℕ) (action : Action) (until : ℕ)
    → end ≤ until
    → end ≤ now + quarantine_duration_ms
    → (u : ℕ) × (quarantined now action (some until) ≡ some u) × (end ≤ u)
quarantined-until now end allow until le le' = (until, refl, le)
quarantined-until now end warn until le le' = (until, refl, le)
quarantined-until now end throttle until le le' = (until, refl, le)
quarantined-until now end block until le le' = (until, refl, le)
quarantined-until now end quarantine until le le' = (now + quarantine_duration_ms, refl, le')

check-other :
    (u t : String) (now : ℕ) (db : Database)
    → (u === t) ≡ false
    → Dict.get t (check_threat_status u now db).0 ≡ Dict.get t db
unfolding check_threat_status
check-other u t now db other = elim (Option-cases (Dict.get u db)) [
  | inl missing ↦ ground arith
  | inr (q, found) ↦ elim (Option-cases q.quarantine_until) [
    | inl free ↦ ground arith
    | inr (v, held) ↦ elim (Bool-cases (ltb now v)) [
      | inl soon ↦ ground arith
      | inr over ↦ ground (arith, Dict.get-set u t (cleared q) db)
    ]
  ]
]

check-held :
    (t : String) (now : ℕ) (db : Database) (r : ThreatRecord) (until : ℕ)
    → Dict.get t db ≡ some r
    → r.quarantine_until ≡ some until
    → now < until
    → check_threat_status t now db
      ≡ (db, record { allowed = false; action = quarantine; score = r.score })
unfolding check_threat_status
check-held t now db r until found held lt = ground arith

step-IsHeld :
    (target : String) (start end : ℕ) (db : Database) (o : Operation)
    → end ≤ start + quarantine_duration_ms
    → IsDuring start end o
    → IsHeld target end db
    → IsHeld target end (step db o)
unfolding step report_threat_signal with_signal
step-IsHeld t start end db (decays now) w d (r, until, found, held, le) =
    let (r', left, kept) = decay_record-until now r until held in
    (r', until, get-decay now db t r r' found left, kept, le)
step-IsHeld t start end db (checks u now) w d (r, until, found, held, le) =
    elim (Bool-cases (u === t)) [
      | inl same ↦ (
        r,
        until,
        subst (λ x. Dict.get t (check_threat_status x now db).0 ≡ some r)
            (sym ((eq_iff u t).0 same))
            (ground (
              arith,
              ap (λ x. Dict.get t x.0) (check-held t now db r until found held (omega arith)),
            )),
        held,
        le,
      )
      | inr other ↦ (r, until, ground (arith, check-other u t now db other), held, le)
    ]
step-IsHeld t start end db (reports u source severity message now) w d (r, until, found, held, le) =
    elim (Bool-cases (u === t)) [
      | inl same ↦
          let after = with_signal (signal_at source severity message now) now r in
          let (v, e, le') = quarantined-until now end after.last_action until le (omega arith) in
          (
            after,
            v,
            ground (
              arith,
              Dict.get-set u t
                  (with_signal (signal_at source severity message now) now
                    (or_new u now (Dict.get u db)))
                  db,
              eq_iff u t,
              ap (λ x. Dict.get x db) ((eq_iff u t).0 same),
            ),
            ground (arith, e, held),
            le',
          )
      | inr other ↦ (
        r,
        until,
        ground (
          arith,
          Dict.get-set u t
              (with_signal (signal_at source severity message now) now
                (or_new u now (Dict.get u db)))
              db,
        ),
        held,
        le,
      )
    ]

run-IsHeld :
    (target : String) (start end : ℕ) (os : List Operation) (db : Database)
    → end ≤ start + quarantine_duration_ms
    → All (IsDuring start end) os
    → IsHeld target end db
    → IsHeld target end (run db os)
unfolding run
run-IsHeld t start end [] db w d h = h
run-IsHeld t start end (o ∷ os) db w (d, ds) h =
    run-IsHeld t start end os (step db o) w ds (step-IsHeld t start end db o w d h)

report-IsHeld :
    (target source : String) (severity : ℕ) (message : String) (now : ℕ) (db : Database)
    → (report_threat_signal target source severity message now db).1.action ≡ quarantine
    → IsHeld target
        (now + quarantine_duration_ms)
        (report_threat_signal target source severity message now db).0
unfolding report_threat_signal with_signal
report-IsHeld t source severity message now db e =
    let r =
      with_signal (signal_at source severity message now) now (or_new t now (Dict.get t db)) in
    (
      r,
      now + quarantine_duration_ms,
      ground (arith, eq_refl t, Dict.get-set t t r db),
      ground (arith, e),
      omega arith,
    )

-- Once a report has answered "quarantine", the target is refused with "quarantine" for an hour,
-- whatever reports, checks and decays of any targets come in the meantime: neither a lower score
-- nor the decay lets it out.
pub quarantine-lasts :
    (target source : String) (severity : ℕ) (message : String) (now t : ℕ) (db : Database)
    (os : List Operation)
    → (report_threat_signal target source severity message now db).1.action ≡ quarantine
    → All (IsDuring now (now + 3_600_000)) os
    → t < now + 3_600_000
    → (let status =
          (check_threat_status target t
            (run (report_threat_signal target source severity message now db).0 os)).1 in
        (status.allowed ≡ false) × (status.action ≡ quarantine))
quarantine-lasts target source severity message now t db os e d lt =
    let (r, until, found, held, le) =
      run-IsHeld target now (now + 3_600_000) os _ (omega arith) d
        (report-IsHeld target source severity message now db e) in
    let shown = ap (λ x. x.1) (check-held target t _ r until found held (omega arith)) in
    (ap (λ x. x.allowed) shown, ap (λ x. x.action) shown)
