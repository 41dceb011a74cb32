-- ===== src/Utils/ErrorTracker.antt =====
-- apps/server/src/utils/errorTracker.ts: counts of errors by category, and the recent ones with
-- repeated messages merged. A message is the list of its UTF-16 code units; `timestamp` is the
-- reading of the clock. The log lines are left out.
pub mod Bounds
pub mod Counts
pub mod Merging
mod Tests
use pm_chat.Base.{
  ℕ, ◌+◌, ◌-◌, Bool, true, false, ◌&&◌, List, [], ◌∷◌, ◌++◌, if◌then◌else◌, ltb, ◌==◌, length, drop,
  take, last, any,
}

pub data ErrorCategory : Type 0 where
  network crypto auth server validation database : ErrorCategory

abbrev pub same_category : ErrorCategory → ErrorCategory → Bool
same_category network network = true
same_category crypto crypto = true
same_category auth auth = true
same_category server server = true
same_category validation validation = true
same_category database database = true
same_category _ _ = false

abbrev pub Text : Type 0
Text = List ℕ

-- `===` on messages.
unfoldable pub same_text : Text → Text → Bool
same_text [] [] = true
same_text (x ∷ xs) (y ∷ ys) = x == y && same_text xs ys
same_text _ _ = false

pub record TrackedError : Type 0 where
  pub category : ErrorCategory
  pub message : Text
  pub timestamp : ℕ
  pub count : ℕ

-- The two module variables.
pub record Tracker : Type 0 where
  pub recent_errors : List TrackedError
  pub error_counts : ErrorCategory → ℕ

abbrev pub initial : Tracker
initial = record { recent_errors = []; error_counts = λ c. 0 }

abbrev pub max_tracked_errors : ℕ
max_tracked_errors = 200

-- the test of `find`
abbrev pub matches : ErrorCategory → Text → TrackedError → Bool
matches category message e = same_category e.category category && same_text e.message message

-- the first match counts once more, at the new time
unfoldable pub bump : ErrorCategory → Text → ℕ → List TrackedError → List TrackedError
bump category message now [] = []
bump category message now (e ∷ es) =
    if matches category message e
    then record e { count = e.count + 1; timestamp = now } ∷ es
    else e ∷ bump category message now es

-- the match among the last five is bumped where it stands
unfoldable pub merge : ErrorCategory → Text → ℕ → List TrackedError → List TrackedError
merge category message now es = take (length es - 5) es ++ bump category message now (last 5 es)

abbrev pub increment : ErrorCategory → (ErrorCategory → ℕ) → ErrorCategory → ℕ
increment category counts c = if same_category c category then counts c + 1 else counts c

-- `recentErrors.splice(0, recentErrors.length - MAX_TRACKED_ERRORS)` where there are too many
unfoldable pub trim : List TrackedError → List TrackedError
trim es =
    if ltb max_tracked_errors (length es) then drop (length es - max_tracked_errors) es else es

unfoldable pub track_error : ErrorCategory → Text → (now : ℕ) → Tracker → Tracker
track_error category message now t =
    let counts = increment category t.error_counts in
    if any (matches category message) (last 5 t.recent_errors)
    then record {
      recent_errors = merge category message now t.recent_errors;
      error_counts = counts;
    }
    else record {
      recent_errors = trim (
          t.recent_errors
          ++ record { category = category; message = take 200 message; timestamp = now; count = 1 }
            ∷ []);
      error_counts = counts;
    }

pub record ErrorSummary : Type 0 where
  pub counts : ErrorCategory → ℕ
  pub recent : List TrackedError

unfoldable pub get_error_summary : Tracker → ErrorSummary
get_error_summary t = record { counts = t.error_counts; recent = last 20 t.recent_errors }
