-- ===== src/Routes/Paging.antt =====
-- Pages by a cursor, as routes/messages.ts and routes/conversations.ts serve them: the newest
-- documents first, a page ends at the limit, and the time of its last document is the cursor from
-- which the next page takes the older ones.
pub mod Follow
pub mod Newest
use pm_chat.Base.{
  ℕ, zero, suc, ◌≤◌, ◌<◌, Bool, true, Option, none, some, List, [], ◌∷◌, if◌then◌else◌, ltb, ◌==◌,
  min, length, take, keep, get_last?, All,
}

-- `.limit(n)`, where 0 is no limit
abbrev pub limited {ℓ} : {A : Type ℓ} → ℕ → List A → List A
limited zero xs = xs
limited (suc n) xs = take (suc n) xs

-- `Math.min(Number(query.limit ?? default), most)`, for a query that is absent or a whole number
abbrev pub limit_of : (default most : ℕ) → Option ℕ → ℕ
limit_of default most none = min default most
limit_of default most (some n) = min n most

module _ {ℓ} {A : Type ℓ} (time : A → ℕ) where
  -- the filter `{ $lt: before }`, if there is a cursor
  abbrev pub is_before : Option ℕ → A → Bool
  is_before none a = true
  is_before (some t) a = ltb (time a) t

  abbrev pub time_of : Option A → Option ℕ
  time_of none = none
  time_of (some a) = some (time a)

  -- `nextCursor`
  unfoldable pub next_cursor : (limit : ℕ) → List A → Option ℕ
  next_cursor limit page = if length page == limit then time_of (get_last? page) else none

  -- What a database answers that has the documents in the order of the list.
  abbrev pub page_of : (before : Option ℕ) (limit : ℕ) → List A → List A
  page_of before limit all = limited limit (keep (is_before before) all)

  -- Times never grow along the list.
  abbrev pub IsDescending : List A → Type 0
  IsDescending [] = Unit {0}
  IsDescending (a ∷ rest) = All (λ b. time b ≤ time a) rest × IsDescending rest

  -- Times fall along the list.
  abbrev pub IsStrict : List A → Type 0
  IsStrict [] = Unit {0}
  IsStrict (a ∷ rest) = All (λ b. time b < time a) rest × IsStrict rest
