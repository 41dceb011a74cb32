-- ===== src/Agents/AnomalyDetector/Timestamps.antt =====
-- The timestamps of messages that the detector keeps of one user.
use pm_chat.Base.{
  ℕ, ◌+◌, ◌-◌, ◌≤◌, ◌<◌, ◌≡◌, refl, inl, inr, String, not, ◌&&◌, Option, none, some, List, [], ◌∷◌,
  ◌++◌, arith, ◌===◌, ltb, length, keep, keep-append, All, All-append, All-keep, Bool-cases,
  get_last?, subst, ap, ◌∙◌, sym,
}
use pm_chat.Dict
use pm_chat.NameSet
use pm_chat.Agents.AnomalyDetector.{
  Profile, window_ms, max_messages, or_new, recent, has_jumped, with_message, judge,
  with_fingerprint, judge_login,
}

abbrev pub stamps : Option Profile → List ℕ
stamps none = []
stamps (some p) = p.message_timestamps

-- What is recent later on was recent before.
pub recent-recent :
    (span now t : ℕ) (xs : List ℕ)
    → now ≤ t
    → span ≤ window_ms
    → recent span t (recent window_ms now xs) ≡ recent span t xs
unfolding keep
recent-recent span now t [] h k = refl
recent-recent span now t (x ∷ xs) h k = elim (Bool-cases (ltb (now - x) window_ms)) [
  | inl new ↦ ground (arith, recent-recent span now t xs h k)
  | inr old ↦ ground (arith, recent-recent span now t xs h k)
]

-- Of times that are all long past, none is recent.
recent-past :
    (t last : ℕ) (xs : List ℕ)
    → last + window_ms ≤ t
    → All (λ x. x ≤ last) xs
    → recent window_ms t xs ≡ []
unfolding keep
recent-past t last [] h a = refl
recent-past t last (x ∷ xs) h (b, a) = ground (arith, recent-past t last xs h a)

judge-kept :
    (ip : String) (now : ℕ) (p : Profile)
    → ((judge ip now p).0.message_timestamps ≡ p.message_timestamps)
      × ((judge ip now p).0.last_activity ≡ p.last_activity)
unfolding judge
judge-kept ip now p =
    elim (Bool-cases (ltb max_messages (length (recent 60_000 now p.message_timestamps)))) [
      | inl fast ↦ (ground arith, ground arith)
      | inr slow ↦ elim (Bool-cases (ltb 10 (length (recent 5_000 now p.message_timestamps)))) [
        | inl dense ↦ (ground arith, ground arith)
        | inr sparse ↦ elim (Bool-cases (has_jumped ip now (get_last? p.ip_history))) [
          | inl jumped ↦ (ground arith, ground arith)
          | inr stayed ↦ (ground arith, ground arith)
        ]
      ]
    ]

fingerprint-kept :
    (f : Option String) (p : Profile)
    → ((with_fingerprint f p).message_timestamps ≡ p.message_timestamps)
      × ((with_fingerprint f p).last_activity ≡ p.last_activity)
unfolding with_fingerprint
fingerprint-kept none p = (refl, refl)
fingerprint-kept (some f) p = elim (Bool-cases (f === "")) [
  | inl empty ↦ (ground arith, ground arith)
  | inr filled ↦
      elim (Bool-cases
        (ltb 0 (length p.device_fingerprints) && not (NameSet.has f p.device_fingerprints))) [
          | inl fresh ↦ (ground arith, ground arith)
          | inr known ↦ (ground arith, ground arith)
        ]
]

login-kept :
    (now : ℕ) (p : Profile)
    → ((judge_login now p).0.message_timestamps ≡ p.message_timestamps)
      × ((judge_login now p).0.last_activity ≡ p.last_activity)
unfolding judge_login
login-kept now p = elim (Bool-cases (ltb 5 (length (recent 300_000 now p.login_timestamps)))) [
  | inl often ↦ (ground arith, ground arith)
  | inr seldom ↦ (ground arith, ground arith)
]

-- What the detector knows of a user from `from` on.
abbrev pub Knows : (from : ℕ) → List ℕ → Option Profile → Type 0
Knows from sent o =
    ((t : ℕ) → from ≤ t → recent window_ms t (stamps o) ≡ recent window_ms t sent)
    × ((p : Profile)
        → o ≡ some p
        → All (λ x. x ≤ p.last_activity) p.message_timestamps × (p.last_activity ≤ from))

pub or_new-stamps :
    (u : String) (now : ℕ) (o : Option Profile) → (or_new u now o).message_timestamps ≡ stamps o
or_new-stamps u now none = refl
or_new-stamps u now (some p) = refl

All-later : (a b : ℕ) (xs : List ℕ) → a ≤ b → All (λ x. x ≤ a) xs → All (λ x. x ≤ b) xs
All-later a b [] h k = tt
All-later a b (x ∷ xs) h (l, ls) = (omega arith, All-later a b xs h ls)

or_new-All :
    (u : String) (from now : ℕ) (sent : List ℕ) (o : Option Profile)
    → from ≤ now
    → Knows from sent o
    → All (λ x. x ≤ now) (or_new u now o).message_timestamps
or_new-All u from now sent none h k = tt
or_new-All u from now sent (some p) h (_, known) =
    let (below, active) = known p refl in
    All-later p.last_activity now p.message_timestamps (omega arith) below

settled :
    (r q : Profile) (now : ℕ) (xs : List ℕ)
    → some r ≡ some q
    → r.message_timestamps ≡ xs
    → r.last_activity ≡ now
    → All (λ x. x ≤ now) xs
    → All (λ x. x ≤ q.last_activity) q.message_timestamps × (q.last_activity ≤ now)
settled r q now xs e kept active h =
    let same : r ≡ q = cc in
    let last : now ≡ q.last_activity = cc in
    let times : xs ≡ q.message_timestamps = cc in
    (
      subst (λ n. All (λ x. x ≤ n) q.message_timestamps) last (subst (All (λ x. x ≤ now)) times h),
      omega arith,
    )

pub message-Knows :
    (u ip : String) (from now : ℕ) (sent : List ℕ) (o : Option Profile)
    → from ≤ now
    → Knows from sent o
    → Knows now (sent ++ now ∷ []) (some (judge ip now (with_message now (or_new u now o))).0)
message-Knows u ip from now sent o h k = (
  λ t later.
      ap (recent window_ms t) (judge-kept ip now (with_message now p)).0
      ∙ recent-recent window_ms now t (p.message_timestamps ++ now ∷ []) later (omega arith)
      ∙ keep-append (λ x. ltb (t - x) window_ms) p.message_timestamps (now ∷ [])
      ∙ ap (λ xs. xs ++ recent window_ms t (now ∷ []))
          (ap (recent window_ms t) (or_new-stamps u now o) ∙ k.0 t (omega arith))
      ∙ sym (keep-append (λ x. ltb (t - x) window_ms) sent (now ∷ [])),
  λ q e.
      settled _ q now _ e (judge-kept ip now (with_message now p)).0
        (judge-kept ip now (with_message now p)).1
        (All-keep (λ x. x ≤ now) (λ x. ltb (now - x) window_ms) (p.message_timestamps ++ now ∷ [])
          (All-append (λ x. x ≤ now) p.message_timestamps (now ∷ [])
            (or_new-All u from now sent o h k) (omega arith, tt))),
)
  where
    p : Profile
    p = or_new u now o

pub login-Knows :
    (u : String) (f : Option String) (from now : ℕ) (sent : List ℕ) (o : Option Profile)
    → from ≤ now
    → Knows from sent o
    → Knows now sent (
        some
          (judge_login now (
            with_fingerprint f (record (or_new u now o) {
              login_timestamps = (or_new u now o).login_timestamps ++ now ∷ [];
              last_activity = now;
            }))).0)
login-Knows u f from now sent o h k = (
  λ t later.
      ap (recent window_ms t) (
        (login-kept now (with_fingerprint f seen)).0
        ∙ (fingerprint-kept f seen).0
        ∙ or_new-stamps u now o)
      ∙ k.0 t (omega arith),
  λ q e.
      settled _ q now _ e
        ((login-kept now (with_fingerprint f seen)).0 ∙ (fingerprint-kept f seen).0)
        ((login-kept now (with_fingerprint f seen)).1 ∙ (fingerprint-kept f seen).1)
        (or_new-All u from now sent o h k),
)
  where
    seen : Profile
    seen = record (or_new u now o) {
      login_timestamps = (or_new u now o).login_timestamps ++ now ∷ [];
      last_activity = now;
    }

pub Knows-later :
    (from now : ℕ) (sent : List ℕ) (o : Option Profile)
    → from ≤ now
    → Knows from sent o
    → Knows now sent o
Knows-later from now sent o h k =
    ((λ t later. k.0 t (omega arith)), λ p e. ((k.1 p e).0, omega (arith, (k.1 p e).1)))

-- A profile without activity for an hour has nothing recent.
Knows-idle :
    (from now : ℕ) (sent : List ℕ) (p : Profile)
    → p.last_activity + 3_600_000 < now
    → from ≤ now
    → Knows from sent (some p)
    → Knows now sent none
unfolding keep
Knows-idle from now sent p idle h k = (
  (λ t later.
      sym (recent-past t p.last_activity p.message_timestamps (omega arith) (k.1 p refl).0)
      ∙ k.0 t (omega arith)),
  λ q e. absurd (ground arith),
)

pub clean-Knows :
    (from now : ℕ) (sent : List ℕ) (o : Option Profile)
    → from ≤ now
    → Knows from sent o
    → Knows now sent (Dict.pass_if (λ p. not (ltb (p.last_activity + 3_600_000) now)) o)
clean-Knows from now sent none h k = Knows-later from now sent none h k
clean-Knows from now sent (some p) h k = elim (Bool-cases (ltb (p.last_activity + 3_600_000) now)) [
  | inl idle ↦ subst (Knows now sent) (ground arith) (Knows-idle from now sent p (ground arith) h k)
  | inr active ↦ subst (Knows now sent) (ground arith) (Knows-later from now sent (some p) h k)
]
