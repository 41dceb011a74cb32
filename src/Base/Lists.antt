-- ===== src/Base/Lists.antt =====
-- Lists measured by native numbers, and filters by a Boolean test, as JavaScript arrays have them.
use Prim.Native.Nat.{ℕ, zero, suc, ◌+◌, ◌-◌, ◌≤◌, min}
use mathlib.Core.Path.{◌≡◌, refl, sym, ap, ◌∙◌}
use mathlib.Core.Bool.{Bool, true, false, ◌||◌, ◌&&◌}
use mathlib.Core.Logic.{◌↔◌, inl, inr}
use mathlib.Core.Option.{Option, none, some}
use mathlib.Core.List.{List, [], ◌∷◌, ◌++◌}
use native.Mathlib.Omega.{arith}
use pm_chat.Base.Tests.{if◌then◌else◌, Bool-cases}

abbrev pub All {ℓ κ} : {A : Type ℓ} → (A → Type κ) → List A → Type κ
All P [] = Unit
All P (x ∷ xs) = P x × All P xs

module _ {ℓ} {A : Type ℓ} where
  abbrev pub length : List A → ℕ
  length [] = 0
  length (x ∷ xs) = suc (length xs)

  abbrev pub drop : ℕ → List A → List A
  drop zero xs = xs
  drop (suc n) [] = []
  drop (suc n) (x ∷ xs) = drop n xs

  abbrev pub take : ℕ → List A → List A
  take zero xs = []
  take (suc n) [] = []
  take (suc n) (x ∷ xs) = x ∷ take n xs

  abbrev pub get_elem? : List A → ℕ → Option A
  get_elem? [] i = none
  get_elem? (x ∷ xs) zero = some x
  get_elem? (x ∷ xs) (suc i) = get_elem? xs i

  -- A write out of bounds changes nothing.
  abbrev pub set : List A → ℕ → A → List A
  set [] i v = []
  set (x ∷ xs) zero v = v ∷ xs
  set (x ∷ xs) (suc i) v = x ∷ set xs i v

  -- `xs.slice(-n)` for a positive `n`: the last `n` elements, or all of them.
  unfoldable pub last : ℕ → List A → List A
  last n xs = drop (length xs - n) xs

  -- `xs[xs.length - 1]`
  abbrev pub get_last? : List A → Option A
  get_last? [] = none
  get_last? (x ∷ []) = some x
  get_last? (x ∷ y ∷ xs) = get_last? (y ∷ xs)

  unfoldable pub keep : (A → Bool) → List A → List A
  keep p [] = []
  keep p (x ∷ xs) = if p x then x ∷ keep p xs else keep p xs

  -- an element in front if the test holds, as a `push` under `if` collects them
  abbrev pub push_if : Bool → A → List A → List A
  push_if b x xs = if b then x ∷ xs else xs

  abbrev pub is_empty : List A → Bool
  is_empty [] = true
  is_empty (x ∷ xs) = false

  pub is_empty-push_if :
      (b : Bool) (x : A) (xs : List A)
      → (is_empty (push_if b x xs) ≡ true) ↔ ((b ≡ false) × (is_empty xs ≡ true))
  is_empty-push_if true x xs = (λ h. (sym h, absurd (ground arith)), λ h. ground arith)
  is_empty-push_if false x xs = (λ h. (refl, h), λ h. h.1)

  unfoldable pub any : (A → Bool) → List A → Bool
  any p [] = false
  any p (x ∷ xs) = p x || any p xs

  unfoldable pub all : (A → Bool) → List A → Bool
  all p [] = true
  all p (x ∷ xs) = p x && all p xs

  unfoldable pub total : (A → ℕ) → List A → ℕ
  total f [] = 0
  total f (x ∷ xs) = f x + total f xs

  pub length-append : (xs ys : List A) → length (xs ++ ys) ≡ length xs + length ys
  length-append [] ys = omega arith
  length-append (x ∷ xs) ys = omega (arith, length-append xs ys)

  pub length-drop : (n : ℕ) (xs : List A) → length (drop n xs) ≡ length xs - n
  length-drop zero xs = omega arith
  length-drop (suc n) [] = omega arith
  length-drop (suc n) (x ∷ xs) = omega (arith, length-drop n xs)

  pub length-last-le : (n : ℕ) (xs : List A) → length (last n xs) ≤ n
  unfolding last
  length-last-le n xs = omega (arith, length-drop (length xs - n) xs)

  pub length-keep-le : (p : A → Bool) (xs : List A) → length (keep p xs) ≤ length xs
  unfolding keep
  length-keep-le p [] = omega arith
  length-keep-le p (x ∷ xs) = ground (arith, length-keep-le p xs)

  -- Where a filter keeps the length, every element passes.
  pub keep_full :
      (p : A → Bool) (xs : List A) → length xs ≤ length (keep p xs) → All (λ x. p x ≡ true) xs
  unfolding keep
  keep_full p [] h = tt
  keep_full p (x ∷ xs) h = elim (Bool-cases (p x)) [
    | inl passes ↦ (passes, keep_full p xs (ground arith))
    | inr fails ↦ absurd (ground (arith, length-keep-le p xs))
  ]

  pub keep-append : (p : A → Bool) (xs ys : List A) → keep p (xs ++ ys) ≡ keep p xs ++ keep p ys
  unfolding keep
  keep-append p [] ys = refl
  keep-append p (x ∷ xs) ys = elim (Bool-cases (p x)) [
    | inl passes ↦ ground (arith, keep-append p xs ys)
    | inr fails ↦ ground (arith, keep-append p xs ys)
  ]

  pub last_of_length-le : (n : ℕ) (xs : List A) → length xs ≤ n → last n xs ≡ xs
  unfolding last
  last_of_length-le n xs h = let e : length xs - n ≡ 0 = omega arith in ap (λ k. drop k xs) e

  pub drop-append : (n : ℕ) (xs ys : List A) → n ≤ length xs → drop n (xs ++ ys) ≡ drop n xs ++ ys
  drop-append zero xs ys h = refl
  drop-append (suc n) [] ys h = absurd (omega arith)
  drop-append (suc n) (x ∷ xs) ys h = drop-append n xs ys (omega arith)

  pub drop-nil : (n : ℕ) → drop n [] ≡ []
  drop-nil zero = refl
  drop-nil (suc n) = refl

  pub drop-drop : (n m : ℕ) (xs : List A) → drop n (drop m xs) ≡ drop (m + n) xs
  drop-drop n zero xs = ap (λ k. drop k xs) (omega arith)
  drop-drop n (suc m) [] = drop-nil n ∙ sym (drop-nil (suc m + n))
  drop-drop n (suc m) (x ∷ xs) =
      let e : suc m + n ≡ suc (m + n) = omega arith in rw e (drop-drop n m xs)

  pub length-last : (n : ℕ) (xs : List A) → length (last n xs) ≡ length xs - (length xs - n)
  unfolding last
  length-last n xs = length-drop (length xs - n) xs

  -- Without its first element, the last part is one shorter.
  pub drop-last :
      (n : ℕ) (xs : List A) → n ≤ length xs → drop 1 (last n xs) ≡ drop (length xs + 1 - n) xs
  unfolding last
  drop-last n xs h = drop-drop 1 (length xs - n) xs ∙ ap (λ k. drop k xs) (omega arith)

  pub last-last : (m n : ℕ) (xs : List A) → m ≤ n → last m (last n xs) ≡ last m xs
  unfolding last
  last-last m n xs h =
      drop-drop (length (drop (length xs - n) xs) - m) (length xs - n) xs
      ∙ ap (λ k. drop k xs) (omega (arith, length-drop (length xs - n) xs))

  pub length-take-le : (xs : List A) (n : ℕ) → length (take n xs) ≤ n
  length-take-le (x ∷ rest) (suc n) = omega (arith, length-take-le rest n)
  length-take-le [] (suc n) = omega arith
  length-take-le _ _ = omega arith

  pub length-take : (xs : List A) (n : ℕ) → length (take n xs) ≡ min n (length xs)
  length-take xs zero = omega arith
  length-take [] (suc n) = omega arith
  length-take (x ∷ rest) (suc n) = omega (arith, length-take rest n)

  pub take_whole : (xs : List A) (n : ℕ) → length xs ≤ n → take n xs ≡ xs
  take_whole [] zero fits = refl
  take_whole [] (suc n) fits = refl
  take_whole (x ∷ rest) zero fits = absurd (omega arith)
  take_whole (x ∷ rest) (suc n) fits = cc (take_whole rest n (omega arith))

  pub take-drop : (n : ℕ) (xs : List A) → take n xs ++ drop n xs ≡ xs
  take-drop zero xs = refl
  take-drop (suc n) [] = refl
  take-drop (suc n) (x ∷ xs) = ap (◌∷◌ x) (take-drop n xs)

  pub any-append : (p : A → Bool) (xs ys : List A) → any p (xs ++ ys) ≡ (any p xs || any p ys)
  unfolding any
  any-append p [] ys = refl
  any-append p (x ∷ xs) ys = ground (arith, any-append p xs ys)

  pub total-append : (f : A → ℕ) (xs ys : List A) → total f (xs ++ ys) ≡ total f xs + total f ys
  unfolding total
  total-append f [] ys = omega arith
  total-append f (x ∷ xs) ys = omega (arith, total-append f xs ys)

  -- A write moves a sum by the difference of the two values.
  pub total-set :
      (f : A → ℕ) (xs : List A) (i : ℕ) (old new : A)
      → get_elem? xs i ≡ some old
      → total f (set xs i new) + f old ≡ total f xs + f new
  unfolding total
  total-set f [] i old new h = absurd (ground arith)
  total-set f (x ∷ xs) zero old new h = let e : x ≡ old = ground arith in rw e (omega arith)
  total-set f (x ∷ xs) (suc i) old new h = omega (arith, total-set f xs i old new h)

  pub total-drop-le : (f : A → ℕ) (n : ℕ) (xs : List A) → total f (drop n xs) ≤ total f xs
  unfolding total
  total-drop-le f zero xs = omega arith
  total-drop-le f (suc n) [] = omega arith
  total-drop-le f (suc n) (x ∷ xs) = omega (arith, total-drop-le f n xs)

  -- The last `n` elements of a list that ends in at most `n` known ones include these.
  pub last-append :
      (n : ℕ) (xs ys : List A)
      → length ys ≤ n
      → last n (xs ++ ys) ≡ drop (length xs + length ys - n) xs ++ ys
  unfolding last
  last-append n xs ys h =
      rw (length-append xs ys) (drop-append (length xs + length ys - n) xs ys (omega arith))

module _ {ℓ κ} {A : Type ℓ} (P : A → Type κ) where
  pub All-append : (xs ys : List A) → All P xs → All P ys → All P (xs ++ ys)
  All-append [] ys h k = k
  All-append (x ∷ xs) ys (p, h) k = (p, All-append xs ys h k)

  pub All-drop : (n : ℕ) (xs : List A) → All P xs → All P (drop n xs)
  All-drop zero xs h = h
  All-drop (suc n) [] h = tt
  All-drop (suc n) (x ∷ xs) (p, h) = All-drop n xs h

  pub All-keep : (p : A → Bool) (xs : List A) → All P xs → All P (keep p xs)
  unfolding keep
  All-keep p [] h = tt
  All-keep p (x ∷ xs) (q, h) = ground (arith, All-keep p xs h)

  pub All-take : (n : ℕ) (xs : List A) → All P xs → All P (take n xs)
  All-take zero xs h = tt
  All-take (suc n) [] h = tt
  All-take (suc n) (x ∷ xs) (p, h) = (p, All-take n xs h)

  pub All-set : (xs : List A) (i : ℕ) (v : A) → P v → All P xs → All P (set xs i v)
  All-set [] i v p h = tt
  All-set (x ∷ xs) zero v p (q, h) = (p, h)
  All-set (x ∷ xs) (suc i) v p (q, h) = (q, All-set xs i v p h)

  pub get_elem?-All : (xs : List A) (i : ℕ) (v : A) → All P xs → get_elem? xs i ≡ some v → P v
  get_elem?-All [] i v h e = absurd (ground arith)
  get_elem?-All (x ∷ xs) zero v (q, h) e = let same : x ≡ v = ground arith in rw (← same) q
  get_elem?-All (x ∷ xs) (suc i) v (q, h) e = get_elem?-All xs i v h e
