-- ===== src/Utils/ErrorTracker/Tests.antt =====
-- Runs of errorTracker.ts.
use pm_chat.Base.{ℕ, zero, suc, ◌≤◌, ◌≡◌, refl, List, [], ◌∷◌, arith, length, last, any, total}
use pm_chat.Utils.ErrorTracker.{
  crypto, database, Text, initial, same_text, bump, merge, trim, track_error,
}
use pm_chat.Utils.ErrorTracker.Bounds.{Report, run, IsBounded}
use pm_chat.Utils.ErrorTracker.Counts.{reported, stands_for, run-counts}

tracker : Unit {0}
unfolding same_text bump merge trim track_error run reported last any total
tracker = tt

-- A message of `n` letters.
abbrev letters : ℕ → Text
letters zero = []
letters (suc n) = b'a' ∷ letters n

abbrev reports : List Report
reports =
    record { category = crypto; message = letters 3; now = 1 }
    ∷ record { category = database; message = letters 3; now = 2 }
    ∷ record { category = crypto; message = letters 3; now = 3 }
    ∷ []

two_records : length (run initial reports).recent_errors ≡ 2
unfolding tracker
two_records = refl

initial-IsBounded : IsBounded initial
initial-IsBounded = record { few = omega arith; short = tt }

run-counts_example :
    ((run initial reports).error_counts crypto ≡ reported crypto reports)
    × (total (stands_for crypto) (run initial reports).recent_errors
        ≤ (run initial reports).error_counts crypto)
run-counts_example = run-counts reports crypto

-- The same long message twice makes two records.
long_twice :
    length
      (track_error crypto
        (letters 201)
        2
        (track_error crypto (letters 201) 1 initial)).recent_errors
    ≡ 2
unfolding tracker
long_twice = refl
