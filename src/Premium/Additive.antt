-- ===== src/Premium/Additive.antt =====
-- "Premium features are additive, never subtractive": a higher tier unlocks what a lower one does.
use pm_chat.Base.{
  ℕ, ◌≤◌, ◌≡◌, refl, inl, inr, String, true, List, [], ◌∷◌, arith, ◌===◌, if◌then◌else◌, all,
  Bool-cases, eq_iff,
}
use pm_chat.NameSet
use pm_chat.Premium.Tiers.{
  Tier, free, secure, fortress, Feature, Limit, unlimited, at_most, get_tier, is_agent_available,
  is_feature_available, includes,
}

-- the order of the tiers by their price
abbrev pub rank : Tier → ℕ
rank free = 0
rank secure = 1
rank fortress = 2

abbrev pub Within : Limit → Limit → Type 0
Within a unlimited = Unit
Within unlimited (at_most n) = ⊥
Within (at_most m) (at_most n) = m ≤ n

has-all :
    (x : String) (s t : NameSet.NameSet)
    → all (λ y. NameSet.has y t) s ≡ true
    → NameSet.has x s ≡ true
    → NameSet.has x t ≡ true
unfolding NameSet.has all
has-all x [] t h e = absurd (ground arith)
has-all x (y ∷ s) t h e = elim (Bool-cases (y === x)) [
  | inl same ↦ ground (arith, eq_iff y x)
  | inr other ↦ ground (arith, has-all x s t (ground arith) (ground arith))
]

-- The features that are included are a list of names.
abbrev included_ids : List Feature → List String
included_ids [] = []
included_ids (f ∷ fs) = if f.included then f.id ∷ included_ids fs else included_ids fs

includes-has :
    (x : String) (fs : List Feature) → includes x fs ≡ true → NameSet.has x (included_ids fs) ≡ true
unfolding includes NameSet.has
includes-has x [] e = absurd (ground arith)
includes-has x (f ∷ fs) e = elim (Bool-cases (f.id === x)) [
  | inl same ↦ ground arith
  | inr other ↦ elim (Bool-cases f.included) [
    | inl counted ↦ ground (arith, includes-has x fs (ground arith))
    | inr out ↦ ground (arith, includes-has x fs (ground arith))
  ]
]

includes-all :
    (x : String) (fs : List Feature) (s : List String)
    → all (λ y. includes y fs) s ≡ true
    → NameSet.has x s ≡ true
    → includes x fs ≡ true
unfolding NameSet.has all
includes-all x fs [] h e = absurd (ground arith)
includes-all x fs (y ∷ s) h e = elim (Bool-cases (y === x)) [
  | inl same ↦ ground (arith, eq_iff y x)
  | inr other ↦ ground (arith, includes-all x fs s (ground arith) (ground arith))
]

included-all :
    (s t : Tier)
    → rank s ≤ rank t
    → (all (λ y. NameSet.has y (get_tier t).agent_ids) (get_tier s).agent_ids ≡ true)
      × (all (λ y. includes y (get_tier t).features) (included_ids (get_tier s).features) ≡ true)
unfolding all NameSet.has get_tier includes
included-all free free h = (refl, refl)
included-all free secure h = (refl, refl)
included-all free fortress h = (refl, refl)
included-all secure free h = absurd (omega arith)
included-all secure secure h = (refl, refl)
included-all secure fortress h = (refl, refl)
included-all fortress free h = absurd (omega arith)
included-all fortress secure h = absurd (omega arith)
included-all fortress fortress h = (refl, refl)

limits-Within :
    (s t : Tier)
    → rank s ≤ rank t
    → Within (get_tier s).max_conversations (get_tier t).max_conversations
      × Within (get_tier s).max_shared_links (get_tier t).max_shared_links
      × ((get_tier s).max_message_retention_days ≤ (get_tier t).max_message_retention_days)
unfolding get_tier
limits-Within free free h = (omega arith, omega arith, omega arith)
limits-Within free secure h = (omega arith, omega arith, omega arith)
limits-Within free fortress h = (tt, tt, omega arith)
limits-Within secure free h = absurd (omega arith)
limits-Within secure secure h = (omega arith, omega arith, omega arith)
limits-Within secure fortress h = (tt, tt, omega arith)
limits-Within fortress free h = absurd (omega arith)
limits-Within fortress secure h = absurd (omega arith)
limits-Within fortress fortress h = (tt, tt, omega arith)

-- A tier that ranks as high as another, in the order free, secure, fortress, has every agent and
-- every feature of the other, and no lower limit on conversations, shared links and retention.
pub upgrade-keeps :
    (s t : Tier) (agent_id feature_id : String)
    → rank s ≤ rank t
    → (is_agent_available s agent_id ≡ true → is_agent_available t agent_id ≡ true)
      × (is_feature_available s feature_id ≡ true → is_feature_available t feature_id ≡ true)
      × Within (get_tier s).max_conversations (get_tier t).max_conversations
      × Within (get_tier s).max_shared_links (get_tier t).max_shared_links
      × ((get_tier s).max_message_retention_days ≤ (get_tier t).max_message_retention_days)
unfolding is_agent_available is_feature_available
upgrade-keeps s t a f h =
    let (agents, features) = included-all s t h in
    let (conversations, links, days) = limits-Within s t h in
    (
      has-all a (get_tier s).agent_ids (get_tier t).agent_ids agents,
      (λ e.
          includes-all f (get_tier t).features (included_ids (get_tier s).features) features
            (includes-has f (get_tier s).features e)),
      conversations,
      links,
      days,
    )
