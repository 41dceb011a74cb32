-- ===== src/Premium/Activation.antt =====
-- The tier that a user has, over any run of requests: the last activation decides.
use pm_chat.Base.{
  ℕ, ◌+◌, ◌*◌, ◌≤◌, ◌≡◌, refl, inl, inr, String, true, Option, none, some, List, [], ◌∷◌, arith,
  ◌===◌, ◌==◌, leb, if◌then◌else◌, Option-cases, Bool-cases, eq_iff, ap, ◌∙◌,
}
use pm_chat.Dict
use pm_chat.Premium.Tiers.{Tier, free}
use pm_chat.Premium.Access.{
  Entry, UserTiers, has_expired, get_user_tier, max_date, expiry, set_user_tier, require_feature,
  require_agent,
}
use pm_chat.Premium.Routes.{tier_named, days_or_default, me, activate, verify}

pub data Query : Type 0 where
  asks : Query
  verifies : Option String → Query
  needs_feature needs_agent : String → Query

pub data Request : Type 0 where
  activates : (user_id : String) (tier : Option String) (days : Option ℕ) (now : ℕ) → Request
  queries : (user_id : String) (now : ℕ) → Query → Request

abbrev pub time : Request → ℕ
time (activates user_id tier days now) = now
time (queries user_id now q) = now

unfoldable pub query : (user_id : String) (now : ℕ) → Query → UserTiers → UserTiers
query u now asks store = (me u now store).0
query u now (verifies feature) store = (verify u feature now store).0
query u now (needs_feature feature) store = (require_feature feature (some u) now store).0
query u now (needs_agent agent) store = (require_agent agent (some u) now store).0

unfoldable pub step : UserTiers → Request → UserTiers
step store (activates u tier days now) = (activate u tier days now store).0
step store (queries u now q) = query u now q store

unfoldable pub run : UserTiers → List Request → UserTiers
run store [] = store
run store (r ∷ rs) = run (step store r) rs

-- What an activation for some days at `now` grants: nothing if the last day is no date, a tier
-- without an end for 0 days.
unfoldable pub grant : Tier → (days now : ℕ) → Option Entry → Option Entry
grant tier days now before =
    if days == 0
    then some (record { tier = tier; activated_at = now; expires_at = none })
    else if leb (now + days * 86_400_000) max_date
    then some
        (record { tier = tier; activated_at = now; expires_at = some (now + days * 86_400_000) })
    else before

abbrev grant_named : Option Tier → (days now : ℕ) → Option Entry → Option Entry
grant_named none days now before = before
grant_named (some tier) days now before = grant tier days now before

abbrev named : Option String → Option Tier
named none = none
named (some name) = tier_named name

unfoldable pub grant_step : (user_id : String) → Option Entry → Request → Option Entry
grant_step u before (activates v tier days now) =
    if v === u then grant_named (named tier) (days_or_default days) now before else before
grant_step u before (queries v now q) = before

-- The last activation of a user that took effect.
unfoldable pub granted : (user_id : String) → Option Entry → List Request → Option Entry
granted u before [] = before
granted u before (r ∷ rs) = granted u (grant_step u before r) rs

-- The tier that an activation gives at `now`.
abbrev pub tier_at : (now : ℕ) → Option Entry → Tier
tier_at now none = free
tier_at now (some e) = if has_expired now e.expires_at then free else e.tier

-- The times of the requests are between the two bounds and never go back.
abbrev pub Ordered : (from till : ℕ) → List Request → Type 0
Ordered from till [] = from ≤ till
Ordered from till (r ∷ rs) = (from ≤ time r) × Ordered (time r) till rs

look-tier_at :
    (u : String) (now : ℕ) (store : UserTiers)
    → (get_user_tier u now store).1 ≡ tier_at now (Dict.get u store)
unfolding get_user_tier
look-tier_at u now store = elim (Option-cases (Dict.get u store)) [
  | inl missing ↦ ground arith
  | inr (e, found) ↦ elim (Bool-cases (has_expired now e.expires_at)) [
    | inl gone ↦ ground arith
    | inr valid ↦ ground arith
  ]
]

expired_later :
    (now t : ℕ) (end : Option ℕ) → now ≤ t → has_expired now end ≡ true → has_expired t end ≡ true
expired_later now t none h e = e
expired_later now t (some end) h e = ground arith

look-view :
    (u v : String) (now t : ℕ) (store : UserTiers)
    → now ≤ t
    → tier_at t (Dict.get u (get_user_tier v now store).0) ≡ tier_at t (Dict.get u store)
unfolding get_user_tier
look-view u v now t store h = elim (Option-cases (Dict.get v store)) [
  | inl missing ↦ ground arith
  | inr (e, found) ↦ elim (Bool-cases (has_expired now e.expires_at)) [
    | inl gone ↦ elim (Bool-cases (v === u)) [
      | inl same ↦
          ground
            (arith, eq_iff v u, Dict.get-delete v u store, expired_later now t e.expires_at h gone)
      | inr other ↦ ground (arith, Dict.get-delete v u store)
    ]
    | inr valid ↦ ground arith
  ]
]

query-view :
    (u v : String) (now t : ℕ) (q : Query) (store : UserTiers)
    → now ≤ t
    → tier_at t (Dict.get u (query v now q store)) ≡ tier_at t (Dict.get u store)
unfolding query me verify require_feature require_agent
query-view u v now t asks store h = look-view u v now t store h
query-view u v now t (verifies none) store h = refl
query-view u v now t (verifies (some id)) store h = elim (Bool-cases (id === "")) [
  | inl empty ↦ ground arith
  | inr filled ↦ ground (arith, look-view u v now t store h)
]
query-view u v now t (needs_feature id) store h = elim (Bool-cases (v === "")) [
  | inl empty ↦ ground arith
  | inr filled ↦ ground (arith, look-view u v now t store h)
]
query-view u v now t (needs_agent id) store h = elim (Bool-cases (v === "")) [
  | inl empty ↦ ground arith
  | inr filled ↦ ground (arith, look-view u v now t store h)
]

activate-get :
    (u v : String) (tier : Option String) (days : Option ℕ) (now : ℕ) (store : UserTiers)
    → Dict.get u (activate v tier days now store).0
      ≡ grant_step u (Dict.get u store) (activates v tier days now)
unfolding activate grant_step grant set_user_tier
activate-get u v none days now store = ground arith
activate-get u v (some name) days now store = elim (Option-cases (tier_named name)) [
  | inl bad ↦ ground arith
  | inr (tier, known) ↦ elim (Bool-cases (days_or_default days == 0)) [
    | inl zero ↦ ground (
      arith,
      Dict.get-set v u (record { tier = tier; activated_at = now; expires_at = none }) store,
    )
    | inr more ↦ elim (Bool-cases (leb (expiry (days_or_default days) now) max_date)) [
      | inl fits ↦ ground (
        arith,
        Dict.get-set v u
            (record {
              tier = tier;
              activated_at = now;
              expires_at = some (expiry (days_or_default days) now);
            })
            store,
      )
      | inr late ↦ ground arith
    ]
  ]
]

-- What the store shows of a user from `from` on is what `g` says.
abbrev Agrees : (user_id : String) (from : ℕ) → Option Entry → UserTiers → Type 0
Agrees u from g store = (t : ℕ) → from ≤ t → tier_at t (Dict.get u store) ≡ tier_at t g

grant_step-view :
    (u : String) (r : Request) (t : ℕ) (a b : Option Entry)
    → tier_at t a ≡ tier_at t b
    → tier_at t (grant_step u a r) ≡ tier_at t (grant_step u b r)
unfolding grant_step grant
grant_step-view u (queries v now q) t a b h = h
grant_step-view u (activates v tier days now) t a b h = elim (Bool-cases (v === u)) [
  | inl same ↦ elim (Option-cases (named tier)) [
    | inl bad ↦ ground arith
    | inr (known, e) ↦ elim (Bool-cases (days_or_default days == 0)) [
      | inl zero ↦ ground arith
      | inr more ↦ elim (Bool-cases (leb (now + (days_or_default days) * 86_400_000) max_date)) [
        | inl fits ↦ ground arith
        | inr late ↦ ground arith
      ]
    ]
  ]
  | inr other ↦ ground arith
]

step-Agrees :
    (u : String) (from : ℕ) (g : Option Entry) (store : UserTiers) (r : Request)
    → from ≤ time r
    → Agrees u from g store
    → Agrees u (time r) (grant_step u g r) (step store r)
unfolding step grant_step
step-Agrees u from g store (activates v tier days now) h a t k =
    ap (tier_at t) (activate-get u v tier days now store)
    ∙ grant_step-view u (activates v tier days now) t (Dict.get u store) g (a t (omega arith))
step-Agrees u from g store (queries v now q) h a t k =
    query-view u v now t q store k
    ∙ a t (omega arith)
    ∙ grant_step-view u (queries v now q) t g g refl

run-Agrees :
    (u : String) (from till : ℕ) (g : Option Entry) (rs : List Request) (store : UserTiers)
    → Ordered from till rs
    → Agrees u from g store
    → Agrees u till (granted u g rs) (run store rs)
unfolding run granted
run-Agrees u from till g [] store h a = λ t k. a t (omega arith)
run-Agrees u from till g (r ∷ rs) store (h, hs) a =
    run-Agrees u (time r) till _ rs _ hs (step-Agrees u from g store r h a)

-- After any run of requests of any users at times that do not go back, `getUserTier` answers with
-- the tier of the user's last activation that took effect, until the moment of its end, and with
-- the free tier after that moment or if there was none. That entries are deleted only when a
-- lookup finds them expired makes no difference.
pub get_user_tier-run :
    (user_id : String) (now : ℕ) (rs : List Request)
    → Ordered 0 now rs
    → (get_user_tier user_id now (run [] rs)).1 ≡ tier_at now (granted user_id none rs)
unfolding Dict.get
get_user_tier-run u now rs h =
    look-tier_at u now (run [] rs) ∙ run-Agrees u 0 now none rs [] h (λ t k. refl) now (omega arith)
