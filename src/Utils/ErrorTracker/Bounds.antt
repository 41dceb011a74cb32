-- ===== src/Utils/ErrorTracker/Bounds.antt =====
-- errorTracker.ts keeps a bounded number of short records.
use pm_chat.Base.{
  ℕ, ◌-◌, ◌≤◌, ◌≡◌, List, [], ◌∷◌, ◌++◌, arith, length, drop, take, last, All, All-append, All-drop,
  length-append, length-drop, length-take-le, take-drop, All-take, ap,
}
use pm_chat.Utils.ErrorTracker.{
  ErrorCategory, Text, TrackedError, Tracker, bump, merge, trim, track_error, max_tracked_errors,
}

-- A call of `trackError`.
pub record Report : Type 0 where
  pub category : ErrorCategory
  pub message : Text
  pub now : ℕ

unfoldable pub run : Tracker → List Report → Tracker
run t [] = t
run t (r ∷ rs) = run (track_error r.category r.message r.now t) rs

abbrev pub IsShort : TrackedError → Type 0
IsShort e = length e.message ≤ 200

pub record IsBounded (t : Tracker) : Type 0 where
  pub few : length t.recent_errors ≤ max_tracked_errors
  pub short : All IsShort t.recent_errors

pub length-bump :
    (c : ErrorCategory) (m : Text) (now : ℕ) (es : List TrackedError)
    → length (bump c m now es) ≡ length es
unfolding bump
length-bump c m now [] = omega arith
length-bump c m now (e ∷ es) = ground (arith, length-bump c m now es)

bump-IsShort :
    (c : ErrorCategory) (m : Text) (now : ℕ) (es : List TrackedError)
    → All IsShort es
    → All IsShort (bump c m now es)
unfolding bump
bump-IsShort c m now [] h = tt
bump-IsShort c m now (e ∷ es) (p, h) = ground (arith, bump-IsShort c m now es h)

trim-IsShort : (es : List TrackedError) → All IsShort es → All IsShort (trim es)
unfolding trim
trim-IsShort es h = ground (arith, All-drop IsShort (length es - 200) es h)

length-trim-le : (es : List TrackedError) → length (trim es) ≤ max_tracked_errors
unfolding trim
length-trim-le es = ground (arith, length-drop (length es - 200) es)

pub length-merge :
    (c : ErrorCategory) (m : Text) (now : ℕ) (es : List TrackedError)
    → length (merge c m now es) ≡ length es
unfolding merge last
length-merge c m now es =
    let n = length es - 5 in
    omega (
      arith,
      length-append (take n es) (bump c m now (drop n es)),
      length-bump c m now (drop n es),
      length-append (take n es) (drop n es),
      ap length (take-drop n es),
    )

merge-IsShort :
    (c : ErrorCategory) (m : Text) (now : ℕ) (es : List TrackedError)
    → All IsShort es
    → All IsShort (merge c m now es)
unfolding merge last
merge-IsShort c m now es h =
    let n = length es - 5 in
    All-append IsShort (take n es) (bump c m now (drop n es)) (All-take IsShort n es h)
      (bump-IsShort c m now (drop n es) (All-drop IsShort n es h))

track_error-IsBounded :
    (c : ErrorCategory) (m : Text) (now : ℕ) (t : Tracker)
    → IsBounded t
    → IsBounded (track_error c m now t)
unfolding track_error
track_error-IsBounded c m now t v =
    let entry : TrackedError = record {
      category = c;
      message = take 200 m;
      timestamp = now;
      count = 1;
    } in
    let grown = t.recent_errors ++ entry ∷ [] in
    let short =
      All-append IsShort t.recent_errors (entry ∷ []) v.short (length-take-le m 200, tt) in
    record {
      few = ground (arith, length-merge c m now t.recent_errors, length-trim-le grown);
      short =
          ground (arith, merge-IsShort c m now t.recent_errors v.short, trim-IsShort grown short);
    }

-- Any reports leave at most two hundred records, and no message of more than two hundred units, if
-- that held before.
run-IsBounded : (t : Tracker) (rs : List Report) → IsBounded t → IsBounded (run t rs)
unfolding run
run-IsBounded t [] v = v
run-IsBounded t (r ∷ rs) v =
    run-IsBounded (track_error r.category r.message r.now t) rs
      (track_error-IsBounded r.category r.message r.now t v)
