-- ===== src/Agents/SessionProtector/Tokens.antt =====
-- Sets of tokens that are not empty.
use pm_chat.Base.{
  ◌≡◌, ◌≢◌, inl, inr, String, Bool, true, ◌&&◌, [], ◌∷◌, arith, eq_iff, ◌===◌, keep, All,
  Bool-cases, subst,
}
use pm_chat.NameSet
use pm_chat.NameSet.{NameSet}

abbrev pub Filled : String → Type 0
Filled j = j ≢ ""

pub has-keep :
    (x : String) (p : String → Bool) (s : NameSet)
    → NameSet.has x (keep p s) ≡ (NameSet.has x s && p x)
unfolding NameSet.has keep
has-keep x p [] = ground arith
has-keep x p (y ∷ s) = elim (Bool-cases (y === x)) [
  | inl same ↦ elim (Bool-cases (p y)) [
    | inl passes ↦ ground (arith, eq_iff y x)
    | inr fails ↦ ground (arith, eq_iff y x, has-keep x p s)
  ]
  | inr other ↦ ground (arith, has-keep x p s)
]

pub All-remove : (x : String) (s : NameSet) → All Filled s → All Filled (NameSet.remove x s)
unfolding NameSet.remove
All-remove x [] h = tt
All-remove x (y ∷ s) (q, h) = ground (arith, All-remove x s h)

pub All-add : (x : String) (s : NameSet) → Filled x → All Filled s → All Filled (NameSet.add x s)
unfolding NameSet.add
All-add x [] p h = (p, tt)
All-add x (y ∷ s) p (q, h) = ground (arith, All-add x s p h)

pub has-Filled : (x : String) (s : NameSet) → All Filled s → NameSet.has x s ≡ true → x ≢ ""
unfolding NameSet.has
has-Filled x [] h e = absurd (ground arith)
has-Filled x (y ∷ s) (q, h) e = elim (Bool-cases (y === x)) [
  | inl same ↦ subst Filled ((eq_iff y x).0 same) q
  | inr other ↦ has-Filled x s h (ground arith)
]
