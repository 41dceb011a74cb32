-- ===== src/Utils/ErrorTracker/Merging.antt =====
-- Which reports errorTracker.ts merges.
use pm_chat.Base.{
  ℕ, ◌+◌, ◌-◌, ◌≤◌, ◌<◌, ◌≡◌, refl, Bool, true, false, List, [], ◌∷◌, ◌++◌, arith, length, drop,
  take, last, any, any-append, All, All-drop, length-append, take_whole, last-append, if◌then◌else◌,
  leb, length-last-le, drop-append,
}
use pm_chat.Utils.ErrorTracker.{
  ErrorCategory, Text, TrackedError, Tracker, same_text, same_category, matches, bump, merge, trim,
  track_error,
}
use pm_chat.Utils.ErrorTracker.Bounds.{IsBounded, IsShort, length-bump, length-merge}

same_text-length : (a b : Text) → same_text a b ≡ true → length a ≡ length b
unfolding same_text
same_text-length [] [] h = refl
same_text-length (x ∷ a) (y ∷ b) h = ground (arith, same_text-length a b)
same_text-length _ _ h = ground arith

same_text_refl : (a : Text) → same_text a a ≡ true
unfolding same_text
same_text_refl [] = refl
same_text_refl (x ∷ a) = ground (arith, same_text_refl a)

same_category_refl : (c : ErrorCategory) → same_category c c ≡ true
same_category_refl c = ground arith

long-unmatched :
    (c : ErrorCategory) (m : Text) (es : List TrackedError)
    → 200 < length m
    → All IsShort es
    → any (matches c m) es ≡ false
unfolding any
long-unmatched c m [] h v = refl
long-unmatched c m (e ∷ es) h (short, v) =
    ground (arith, long-unmatched c m es h v, same_text-length e.message m)

-- A report whose message has more than two hundred units is never merged: though the records hold
-- such a message cut to two hundred, the search compares them with the whole of it. So the report
-- of the same error as the last adds a record, up to the trimming.
long_never_merged :
    (c : ErrorCategory) (m : Text) (now : ℕ) (t : Tracker)
    → IsBounded t
    → 200 < length m
    → (track_error c m now t).recent_errors
      ≡ trim (
          t.recent_errors
          ++ record { category = c; message = take 200 m; timestamp = now; count = 1 } ∷ [])
unfolding track_error last
long_never_merged c m now t v h =
    let n = length t.recent_errors - 5 in
    ground (
      arith,
      long-unmatched c m (drop n t.recent_errors) h (All-drop IsShort n t.recent_errors v.short),
    )

any-last-append :
    (p : TrackedError → Bool) (n : ℕ) (xs ys : List TrackedError)
    → length ys ≤ n
    → any p ys ≡ true
    → any p (last n (xs ++ ys)) ≡ true
any-last-append p n xs ys h k =
    rw (last-append n xs ys h)
      (ground (arith, any-append p (drop (length xs + length ys - n) xs) ys))

any-bump :
    (c : ErrorCategory) (m : Text) (now : ℕ) (es : List TrackedError)
    → any (matches c m) (bump c m now es) ≡ any (matches c m) es
unfolding any bump
any-bump c m now [] = refl
any-bump c m now (e ∷ es) = ground (arith, any-bump c m now es)

trim-append :
    (es : List TrackedError) (e : TrackedError)
    → trim (es ++ e ∷ [])
      ≡ (if leb (length es + 1) 200 then es else drop (length es + 1 - 200) es) ++ e ∷ []
unfolding trim
trim-append es e =
    ground (arith, length-append es (e ∷ []), drop-append (length es + 1 - 200) es (e ∷ []))

tracked-matched :
    (c : ErrorCategory) (m : Text) (now : ℕ) (t : Tracker)
    → length m ≤ 200
    → any (matches c m) (last 5 (track_error c m now t).recent_errors) ≡ true
unfolding track_error merge any
tracked-matched c m now t h =
    let e : TrackedError = record {
      category = c;
      message = take 200 m;
      timestamp = now;
      count = 1;
    } in
    let es = t.recent_errors in
    let front = (if leb (length es + 1) 200 then es else drop (length es + 1 - 200) es) in
    ground (
      arith,
      trim-append es e,
      any-last-append (matches c m) 5 front (e ∷ []),
      take_whole m 200,
      same_text_refl m,
      same_category_refl c,
      any-last-append (matches c m) 5 (take (length es - 5) es) (bump c m now (last 5 es)),
      length-bump c m now (last 5 es),
      length-last-le 5 es,
      any-bump c m now (last 5 es),
    )

length-matched :
    (c : ErrorCategory) (m : Text) (now : ℕ) (s : Tracker)
    → any (matches c m) (last 5 s.recent_errors) ≡ true
    → length (track_error c m now s).recent_errors ≡ length s.recent_errors
unfolding track_error
length-matched c m now s k = rw k (length-merge c m now s.recent_errors)

-- A message of at most two hundred units that is reported twice in a row leaves as many records as
-- once, whatever was there before.
repeat_merged :
    (c : ErrorCategory) (m : Text) (now later : ℕ) (t : Tracker)
    → length m ≤ 200
    → length (track_error c m later (track_error c m now t)).recent_errors
      ≡ length (track_error c m now t).recent_errors
repeat_merged c m now later t h =
    length-matched c m later (track_error c m now t) (tracked-matched c m now t h)
