-- ===== src/Routes/Paging/Follow.antt =====
-- A client that follows the cursors.
use pm_chat.Base.{
  ℕ, zero, suc, ◌≤◌, ◌<◌, ◌≡◌, refl, false, Option, none, some, List, [], ◌∷◌, ◌++◌, arith, ltb,
  ◌==◌, length, take, drop, keep, get_last?, All, All-take, Bool-cases, inl, inr, ap, ◌∙◌, sym,
  subst, take_whole, take-drop, length-drop, length-take,
}
use pm_chat.Routes.Paging.{is_before, time_of, next_cursor, page_of, IsStrict}

module _ {ℓ} {A : Type ℓ} where
  abbrev prepend : List A → Option (List A) → Option (List A)
  prepend page none = none
  prepend page (some rest) = some (page ++ rest)

  -- What a page and the pages after it give.
  abbrev with_rest : (Option ℕ → Option (List A)) → Option (List A × Option ℕ) → Option (List A)
  with_rest next none = none
  with_rest next (some (page, none)) = some page
  with_rest next (some (page, some t)) = prepend page (next (some t))

  -- All documents that a client gets who asks for a page, and as long as there is a cursor for the
  -- next one; `none` if a request fails or the fuel, a number of requests, runs out.
  unfoldable pub follow :
      (fuel : ℕ) → (Option ℕ → Option (List A × Option ℕ)) → (before : Option ℕ) → Option (List A)
  follow zero serve before = none
  follow (suc fuel) serve before = with_rest (follow fuel serve) (serve before)

module _ {ℓ} {A : Type ℓ} (time : A → ℕ) where
  keep_all :
      (t : ℕ) (xs : List A) → All (λ b. time b < t) xs → keep (is_before time (some t)) xs ≡ xs
  unfolding keep
  keep_all t [] h = refl
  keep_all t (x ∷ xs) (l, h) = ground (arith, keep_all t xs h)

  keep-none : (xs : List A) → keep (is_before time none) xs ≡ xs
  unfolding keep
  keep-none [] = refl
  keep-none (x ∷ xs) = ap (◌∷◌ x) (keep-none xs)

  keep-keep :
      (b t : ℕ) (xs : List A)
      → t ≤ b
      → keep (is_before time (some t)) (keep (is_before time (some b)) xs)
        ≡ keep (is_before time (some t)) xs
  unfolding keep
  keep-keep b t [] h = refl
  keep-keep b t (x ∷ xs) h = elim (Bool-cases (ltb (time x) b)) [
    | inl passes ↦ ground (arith, keep-keep b t xs h)
    | inr fails ↦ ground (arith, keep-keep b t xs h)
  ]

  kept_before : (b : ℕ) (xs : List A) → All (λ a. time a < b) (keep (is_before time (some b)) xs)
  unfolding keep
  kept_before b [] = tt
  kept_before b (x ∷ xs) = elim (Bool-cases (ltb (time x) b)) [
    | inl passes ↦ rw passes (ground arith, kept_before b xs)
    | inr fails ↦ rw fails (kept_before b xs)
  ]

  last_below :
      (u t : ℕ) (xs : List A)
      → All (λ b. time b < u) xs
      → time_of time (get_last? xs) ≡ some t
      → t < u
  last_below u t [] h e = absurd (ground arith)
  last_below u t (x ∷ []) (l, h) e = ground arith
  last_below u t (x ∷ y ∷ xs) (l, h) e = last_below u t (y ∷ xs) h e

  some_last : (xs : List A) → 0 < length xs → (t : ℕ) × (time_of time (get_last? xs) ≡ some t)
  some_last [] h = absurd (omega arith)
  some_last (x ∷ []) h = (time x, refl)
  some_last (x ∷ y ∷ xs) h = some_last (y ∷ xs) (omega arith)

  -- In a list of falling times, the documents older than the last of a page are those after it.
  keep_after :
      (n t : ℕ) (xs : List A)
      → IsStrict time xs
      → time_of time (get_last? (take (suc n) xs)) ≡ some t
      → keep (is_before time (some t)) xs ≡ drop (suc n) xs
  unfolding keep
  keep_after n t [] s h = absurd (ground arith)
  keep_after zero t (x ∷ xs) (l, s) h =
      let same : time x ≡ t = ground arith in
      let all : keep (is_before time (some t)) xs ≡ xs = rw (← same) (keep_all (time x) xs l) in
      ground arith
  keep_after (suc n) t (x ∷ []) (l, s) h = ground arith
  keep_after (suc n) t (x ∷ y ∷ xs) (l, s) h =
      let below =
        last_below (time x) t (take (suc n) (y ∷ xs))
          (All-take (λ b. time b < time x) (suc n) (y ∷ xs) l) h in
      let rest = keep_after n t (y ∷ xs) s h in
      let newer : ltb (time x) t ≡ false = ground arith in rw newer rest

  IsStrict-drop : (n : ℕ) (xs : List A) → IsStrict time xs → IsStrict time (drop n xs)
  IsStrict-drop zero xs s = s
  IsStrict-drop (suc n) [] s = tt
  IsStrict-drop (suc n) (x ∷ xs) (l, s) = IsStrict-drop n xs s

  -- The next cursor cuts off the page, whatever the cursor of the page was.
  next_cut :
      (n t : ℕ) (before : Option ℕ) (all rest : List A)
      → keep (is_before time before) all ≡ rest
      → IsStrict time rest
      → time_of time (get_last? (take (suc n) rest)) ≡ some t
      → keep (is_before time (some t)) all ≡ drop (suc n) rest
  next_cut n t none all rest cut s h =
      ap (keep (is_before time (some t))) (sym (keep-none all) ∙ cut) ∙ keep_after n t rest s h
  next_cut n t (some b) all rest cut s h =
      let older = subst (All (λ a. time a < b)) cut (kept_before b all) in
      let le =
        last_below b t (take (suc n) rest) (All-take (λ a. time a < b) (suc n) rest older) h in
      sym (keep-keep b t all (omega arith))
      ∙ ap (keep (is_before time (some t))) cut
      ∙ keep_after n t rest s h

  module _ (n : ℕ) (all : List A) (serve : Option ℕ → Option (List A × Option ℕ))
      (serves : (before : Option ℕ)
        → serve before
          ≡ some (
            page_of time before (suc n) all,
            next_cursor time (suc n) (page_of time before (suc n) all),
          )) where
    served :
        (before : Option ℕ) (rest : List A)
        → keep (is_before time before) all ≡ rest
        → serve before ≡ some (take (suc n) rest, next_cursor time (suc n) (take (suc n) rest))
    served before rest cut =
        serves before
        ∙ ap (λ xs. some (take (suc n) xs, next_cursor time (suc n) (take (suc n) xs))) cut

    follow_rest :
        (fuel : ℕ) (before : Option ℕ) (rest : List A)
        → length rest < fuel
        → keep (is_before time before) all ≡ rest
        → IsStrict time rest
        → follow fuel serve before ≡ some rest
    unfolding follow next_cursor
    follow_rest zero before rest h cut s = absurd (omega arith)
    follow_rest (suc fuel) before rest h cut s =
        elim (Bool-cases (length (take (suc n) rest) == suc n)) [
          | inr short ↦
              let fits : length rest ≤ suc n = ground (arith, length-take rest (suc n)) in
              ap (with_rest (follow fuel serve)) (served before rest cut)
              ∙ (rw short (ap some (take_whole rest (suc n) fits)))
          | inl full ↦
              let (t, at) = some_last (take (suc n) rest) (ground arith) in
              let next =
                follow_rest fuel (some t) (drop (suc n) rest)
                  (ground (arith, length-drop (suc n) rest, length-take rest (suc n)))
                  (next_cut n t before all rest cut s at) (IsStrict-drop (suc n) rest s) in
              ap (with_rest (follow fuel serve)) (served before rest cut)
              ∙ (rw (full, at, next) (ap some (take-drop (suc n) rest)))
        ]

    -- A server of pages of at least one document, and a client that follows the cursors from the
    -- newest on: with more requests than documents, the client gets them all, in order, each once,
    -- if their times fall.
    pub follow-all :
        (fuel : ℕ) → length all < fuel → IsStrict time all → follow fuel serve none ≡ some all
    follow-all fuel h s = follow_rest fuel none all h (keep-none all) s
