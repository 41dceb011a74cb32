-- ===== src/NameSet.antt =====
-- JavaScript's `Set` of strings: the members in insertion order, each once.
use pm_chat.Base.{
  ◌+◌, ◌≤◌, String, ◌≡◌, refl, List, [], ◌∷◌, arith, eq_iff, ◌===◌, if◌then◌else◌, Bool, true,
  false, ◌||◌, length, map, ap, subst, eq_refl, All, Bool-cases, inl, inr,
}

abbrev pub NameSet : Type 0
NameSet = List String

-- s.has(x)
unfoldable pub has : String → NameSet → Bool
has x [] = false
has x (y ∷ s) = y === x || has x s

-- s.add(x)
unfoldable pub add : String → NameSet → NameSet
add x [] = x ∷ []
add x (y ∷ s) = if y === x then y ∷ s else y ∷ add x s

-- s.delete(x)
unfoldable pub remove : String → NameSet → NameSet
remove x [] = []
remove x (y ∷ s) = if y === x then remove x s else y ∷ remove x s

-- new Set(xs)
unfoldable pub from : NameSet → List String → NameSet
from s [] = s
from s (x ∷ xs) = from (add x s) xs

pub has-add : (x y : String) (s : NameSet) → has y (add x s) ≡ (x === y || has y s)
unfolding has add
has-add x y [] = refl
has-add x y (z ∷ s) = ground (arith, eq_iff x y, eq_iff z x, eq_iff z y, has-add x y s)

pub has-remove :
    (x y : String) (s : NameSet) → has y (remove x s) ≡ (if x === y then false else has y s)
unfolding has remove
has-remove x y [] = ground arith
has-remove x y (z ∷ s) = ground (arith, eq_iff x y, eq_iff z x, eq_iff z y, has-remove x y s)

pub length-add :
    (x : String) (s : NameSet) → length (add x s) ≡ (if has x s then length s else length s + 1)
unfolding has add
length-add x [] = omega arith
length-add x (z ∷ s) = ground (arith, length-add x s)

pub length-remove-le : (x : String) (s : NameSet) → length (remove x s) ≤ length s
unfolding remove
length-remove-le x [] = omega arith
length-remove-le x (z ∷ s) = ground (arith, length-remove-le x s)

-- Removing a member makes the set smaller.
pub length-remove-lt :
    (x : String) (s : NameSet) → has x s ≡ true → length (remove x s) + 1 ≤ length s
unfolding has remove
length-remove-lt x [] h = absurd (ground arith)
length-remove-lt x (z ∷ s) h = ground (arith, length-remove-lt x s, length-remove-le x s)

pub has-from :
    (y : String) (xs : List String) (s : NameSet) → has y (from s xs) ≡ (has y s || has y xs)
unfolding has from
has-from y [] s = ground arith
has-from y (x ∷ xs) s = ground (arith, has-from y xs (add x s), has-add x y s)

pub length-from-le : (xs : List String) (s : NameSet) → length (from s xs) ≤ length s + length xs
unfolding from
length-from-le [] s = omega arith
length-from-le (x ∷ xs) s = ground (arith, length-from-le xs (add x s), length-add x s)

pub has-map :
    (f : String → String) (x : String) (xs : List String)
    → has x xs ≡ true
    → has (f x) (map f xs) ≡ true
unfolding has
has-map f x [] h = absurd (ground arith)
has-map f x (y ∷ xs) h = elim (Bool-cases (y === x)) [
  | inl same ↦ let e : f y ≡ f x = ap f ((eq_iff y x).0 same) in ground (arith, eq_iff (f y) (f x))
  | inr other ↦ ground (arith, has-map f x xs)
]

-- What holds of every member of a list holds of all its elements.
pub All_of_has {κ} :
    (P : String → Type κ) (xs : List String) → ((x : String) → has x xs ≡ true → P x) → All P xs
unfolding has
All_of_has P [] h = tt
All_of_has P (x ∷ xs) h =
    (h x (ground (arith, eq_refl x)), All_of_has P xs (λ y m. h y (ground (arith))))

pub All-has {κ} :
    (P : String → Type κ) (x : String) (xs : List String) → All P xs → has x xs ≡ true → P x
unfolding has
All-has P x [] a h = absurd (ground arith)
All-has P x (y ∷ xs) (p, a) h = elim (Bool-cases (y === x)) [
  | inl same ↦ subst P ((eq_iff y x).0 same) p
  | inr other ↦ All-has P x xs a (ground arith)
]
