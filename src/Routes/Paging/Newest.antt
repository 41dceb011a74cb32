-- ===== src/Routes/Paging/Newest.antt =====
-- Sorting by falling time, and documents with distinct times.
use pm_chat.Base.{
  ℕ, ◌≤◌, ◌<◌, ◌≡◌, refl, Bool, List, [], ◌∷◌, arith, if◌then◌else◌, leb, ◌==◌, length, keep, All,
  Bool-cases, inl, inr,
}
use pm_chat.Routes.Paging.{IsDescending, IsStrict}

module _ {ℓ} {A : Type ℓ} (time : A → ℕ) where
  insert_newest : A → List A → List A
  insert_newest a [] = a ∷ []
  insert_newest a (b ∷ rest) =
      if leb (time b) (time a) then a ∷ b ∷ rest else b ∷ insert_newest a rest

  unfoldable pub newest_first : List A → List A
  unfolding insert_newest
  newest_first [] = []
  newest_first (a ∷ rest) = insert_newest a (newest_first rest)

  insert-All :
      (t : ℕ) (a : A) (xs : List A)
      → time a ≤ t
      → All (λ b. time b ≤ t) xs
      → All (λ b. time b ≤ t) (insert_newest a xs)
  unfolding insert_newest
  insert-All t a [] h k = (h, tt)
  insert-All t a (b ∷ rest) h (l, k) = elim (Bool-cases (leb (time b) (time a))) [
    | inl older ↦ rw older (h, (l, k))
    | inr newer ↦ rw newer (l, insert-All t a rest h k)
  ]

  All-lower : (s t : ℕ) (xs : List A) → s ≤ t → All (λ b. time b ≤ s) xs → All (λ b. time b ≤ t) xs
  All-lower s t [] h k = tt
  All-lower s t (x ∷ xs) h (l, k) = (omega arith, All-lower s t xs h k)

  insert-IsDescending :
      (a : A) (xs : List A) → IsDescending time xs → IsDescending time (insert_newest a xs)
  unfolding insert_newest
  insert-IsDescending a [] h = (tt, tt)
  insert-IsDescending a (b ∷ rest) (l, h) = elim (Bool-cases (leb (time b) (time a))) [
    | inl older ↦
        let le : time b ≤ time a = ground arith in
        rw older ((le, All-lower (time b) (time a) rest le l), (l, h))
    | inr newer ↦
        let le : time a ≤ time b = ground arith in
        rw newer (insert-All (time b) a rest le l, insert-IsDescending a rest h)
  ]

  pub newest_first-IsDescending : (xs : List A) → IsDescending time (newest_first xs)
  unfolding newest_first
  newest_first-IsDescending [] = tt
  newest_first-IsDescending (a ∷ rest) =
      insert-IsDescending a (newest_first rest) (newest_first-IsDescending rest)

  keep-insert :
      (p : A → Bool) (a : A) (xs : List A)
      → length (keep p (insert_newest a xs)) ≡ length (keep p (a ∷ xs))
  unfolding insert_newest keep
  keep-insert p a [] = refl
  keep-insert p a (b ∷ rest) = ground (arith, keep-insert p a rest)

  pub keep-newest_first :
      (p : A → Bool) (xs : List A) → length (keep p (newest_first xs)) ≡ length (keep p xs)
  unfolding newest_first keep
  keep-newest_first p [] = refl
  keep-newest_first p (a ∷ rest) =
      ground (arith, keep-insert p a (newest_first rest), keep-newest_first p rest)

  at_most_none :
      (t : ℕ) (xs : List A)
      → All (λ b. time b ≤ t) xs
      → length (keep (λ a. time a == t) xs) ≡ 0
      → All (λ b. time b < t) xs
  unfolding keep
  at_most_none t [] h k = tt
  at_most_none t (x ∷ xs) (l, h) k = elim (Bool-cases (time x == t)) [
    | inl same ↦ absurd (ground arith)
    | inr other ↦ (ground arith, at_most_none t xs h (ground arith))
  ]

  -- In descending order, with no time twice, the times fall.
  pub descending-IsStrict :
      (xs : List A)
      → IsDescending time xs
      → ((t : ℕ) → length (keep (λ a. time a == t) xs) ≤ 1)
      → IsStrict time xs
  unfolding keep
  descending-IsStrict [] h once = tt
  descending-IsStrict (x ∷ xs) (l, h) once = (
    at_most_none (time x) xs l (ground (arith, once (time x))),
    descending-IsStrict xs h (λ t. ground (arith, once t)),
  )
