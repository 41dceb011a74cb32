-- ===== src/Utils/ErrorTracker/Counts.antt =====
-- What the counters of errorTracker.ts count, over any run of reports.
use pm_chat.Base.{
  ℕ, ◌+◌, ◌-◌, ◌≤◌, ◌≡◌, true, List, [], ◌∷◌, ◌++◌, arith, length, drop, take, last, total,
  total-append, total-drop-le, take-drop, if◌then◌else◌, ap,
}
use pm_chat.Utils.ErrorTracker.{
  ErrorCategory, Text, TrackedError, Tracker, initial, same_category, bump, merge, trim,
  track_error,
}
use pm_chat.Utils.ErrorTracker.Bounds.{Report, run}

-- How many reports have the category.
unfoldable pub reported : ErrorCategory → List Report → ℕ
reported c [] = 0
reported c (r ∷ rs) = (if same_category c r.category then 1 else 0) + reported c rs

-- What a record adds to the reports that it stands for.
abbrev pub stands_for : ErrorCategory → TrackedError → ℕ
stands_for c e = if same_category c e.category then e.count else 0

run-error_counts :
    (t : Tracker) (rs : List Report) (c : ErrorCategory)
    → (run t rs).error_counts c ≡ t.error_counts c + reported c rs
unfolding run reported track_error
run-error_counts t [] c = omega arith
run-error_counts t (r ∷ rs) c =
    ground (arith, run-error_counts (track_error r.category r.message r.now t) rs c)

same_category-eq :
    (a b c : ErrorCategory) → same_category a b ≡ true → same_category c a ≡ same_category c b
same_category-eq a b c h = ground arith

total-bump-le :
    (d c : ErrorCategory) (m : Text) (now : ℕ) (es : List TrackedError)
    → total (stands_for d) (bump c m now es)
      ≤ total (stands_for d) es + (if same_category d c then 1 else 0)
unfolding bump total
total-bump-le d c m now [] = omega arith
total-bump-le d c m now (e ∷ es) =
    ground (arith, total-bump-le d c m now es, same_category-eq e.category c d)

total-merge-le :
    (d c : ErrorCategory) (m : Text) (now : ℕ) (es : List TrackedError)
    → total (stands_for d) (merge c m now es)
      ≤ total (stands_for d) es + (if same_category d c then 1 else 0)
unfolding merge last
total-merge-le d c m now es =
    let n = length es - 5 in
    omega (
      arith,
      total-append (stands_for d) (take n es) (bump c m now (drop n es)),
      total-bump-le d c m now (drop n es),
      total-append (stands_for d) (take n es) (drop n es),
      ap (total (stands_for d)) (take-drop n es),
    )

track_error-total-le :
    (d c : ErrorCategory) (m : Text) (now : ℕ) (t : Tracker)
    → total (stands_for d) (track_error c m now t).recent_errors
      ≤ total (stands_for d) t.recent_errors + (if same_category d c then 1 else 0)
unfolding track_error trim total
track_error-total-le d c m now t =
    let entry : TrackedError = record {
      category = c;
      message = take 200 m;
      timestamp = now;
      count = 1;
    } in
    let grown = t.recent_errors ++ entry ∷ [] in
    ground (
      arith,
      total-merge-le d c m now t.recent_errors,
      total-append (stands_for d) t.recent_errors (entry ∷ []),
      total-drop-le (stands_for d) (length grown - 200) grown,
    )

run-total-le :
    (t : Tracker) (rs : List Report) (d : ErrorCategory)
    → total (stands_for d) (run t rs).recent_errors
      ≤ total (stands_for d) t.recent_errors + reported d rs
unfolding run reported
run-total-le t [] d = omega arith
run-total-le t (r ∷ rs) d = omega (
  arith,
  track_error-total-le d r.category r.message r.now t,
  run-total-le (track_error r.category r.message r.now t) rs d,
)

-- From the start of the server, the count of a category is the number of its reports, and the
-- records kept of the category stand for at most that many reports: none is counted twice.
pub run-counts :
    (rs : List Report) (c : ErrorCategory)
    → ((run initial rs).error_counts c ≡ reported c rs)
      × (total (stands_for c) (run initial rs).recent_errors ≤ (run initial rs).error_counts c)
unfolding total
run-counts rs c = (
  omega (arith, run-error_counts initial rs c),
  omega (arith, run-error_counts initial rs c, run-total-le initial rs c),
)
