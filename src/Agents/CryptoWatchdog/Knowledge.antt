-- ===== src/Agents/CryptoWatchdog/Knowledge.antt =====
-- What the watchdog knows of a user: how the events of a profile bound the exchanges that were let
-- through.
use pm_chat.Base.{
  ℕ, ◌+◌, ◌≤◌, ◌<◌, ◌≡◌, refl, inl, inr, String, false, not, Option, none, some, List, [], ◌∷◌,
  ◌++◌, arith, if◌then◌else◌, ltb, keep, All, All-append, Bool-cases,
}
use pm_chat.Dict
use pm_chat.Agents.CryptoWatchdog.{
  CryptoEvent, UserCryptoProfile, exchange_rate_limit, exchange_window_ms, or_new, exchange_event,
  judge, with_event, is_idle,
}
use pm_chat.Agents.CryptoWatchdog.Recent.{
  within, seen, within-append, within_later, within_past, seen-append, IsChain, Until, IsChain-push,
  seen-trimmed, trimmed_keeps,
}

All-later : (a b : ℕ) (xs : List ℕ) → a ≤ b → All (λ x. x ≤ a) xs → All (λ x. x ≤ b) xs
All-later a b [] h k = tt
All-later a b (x ∷ xs) h (l, ls) = (omega arith, All-later a b xs h ls)

Until-later : (a b : ℕ) (es : List CryptoEvent) → a ≤ b → All (Until a) es → All (Until b) es
Until-later a b [] h k = tt
Until-later a b (x ∷ xs) h (l, ls) = (omega arith, Until-later a b xs h ls)

-- What the profile of a user tells of the times at which exchanges were let through.
pub record Tells (from : ℕ) (times : List ℕ) (p : UserCryptoProfile) : Type 0 where
  chain : IsChain p.events
  past : All (Until from) p.events
  last_of_all : 0 < p.last_key_exchange → All (λ x. x ≤ p.last_key_exchange) times
  counts : (t : ℕ) → from ≤ t → within t times ≤ seen t p.events

abbrev pub ToldBy : (from : ℕ) → List ℕ → Option UserCryptoProfile → Type 0
ToldBy from times none = (t : ℕ) → from ≤ t → within t times ≡ 0
ToldBy from times (some p) = Tells from times p

pub record Knows (from : ℕ) (times : List ℕ) (o : Option UserCryptoProfile) : Type 0 where
  pub few : (t : ℕ) → from ≤ t → within t times ≤ exchange_rate_limit
  pub before : All (λ x. x ≤ from) times
  pub told : ToldBy from times o

-- The profile with one more event, whatever the verdict.
pub record Pushed (from now : ℕ) (times : List ℕ) (p : UserCryptoProfile) : Type 0 where
  chain : IsChain p.events
  past : All (Until now) p.events
  last_of_all : 0 < p.last_key_exchange → All (λ x. x ≤ p.last_key_exchange) times
  counts :
      (t w : ℕ) → now ≤ t → w ≤ within t times + within t (now ∷ []) → w ≤ 100 → w ≤ seen t p.events

one_seen :
    (u target key : String) (now t : ℕ)
    → within t (now ∷ []) ≤ seen t (exchange_event u target key now ∷ [])
unfolding within keep
one_seen u target key now t = ground arith

pub with_event-Pushed :
    (u target key : String) (from now : ℕ) (times : List ℕ) (o : Option UserCryptoProfile)
    → from ≤ now
    → Knows from times o
    → Pushed from now times (with_event (exchange_event u target key now) (or_new u o))
with_event-Pushed u target key from now times o h k = record {
  chain =
      (trimmed_keeps now _ (IsChain-push es now e refl refl (prior o k).1 (prior o k).0) whole).0;
  past =
      (trimmed_keeps now _ (IsChain-push es now e refl refl (prior o k).1 (prior o k).0) whole).1;
  last_of_all = lasts o k;
  counts = λ t w later le small.
      seen-trimmed t w (es ++ e ∷ []) (IsChain-push es now e refl refl (prior o k).1 (prior o k).0)
        small
        (omega
          (arith, seen-append t es e, one_seen u target key now t, (prior o k).2 t (omega arith)));
}
  where
    es : List CryptoEvent
    es = (or_new u o).events

    e : CryptoEvent
    e = exchange_event u target key now

    prior :
        (o : Option UserCryptoProfile)
        → Knows from times o
        → IsChain (or_new u o).events
          × All (Until now) (or_new u o).events
          × ((t : ℕ) → from ≤ t → within t times ≤ seen t (or_new u o).events)
    prior none k = (tt, tt, λ t le. omega (arith, k.told t le))
    prior (some p) k = (k.told.chain, Until-later from now p.events h k.told.past, k.told.counts)

    lasts :
        (o : Option UserCryptoProfile)
        → Knows from times o
        → 0 < (or_new u o).last_key_exchange
        → All (λ x. x ≤ (or_new u o).last_key_exchange) times
    lasts none k pos = absurd (omega arith)
    lasts (some p) k pos = k.told.last_of_all pos

    whole : All (Until now) (es ++ e ∷ [])
    whole = All-append (Until now) es (e ∷ []) (prior o k).1 (omega arith, tt)

within_one : (t x : ℕ) → within t (x ∷ []) ≤ 1
unfolding within
within_one t x = ground arith

pub judge-Knows :
    (key : String) (from now : ℕ) (times : List ℕ) (o : Option UserCryptoProfile)
    (p : UserCryptoProfile)
    → from ≤ now
    → Knows from times o
    → Pushed from now times p
    → Knows now
        (if (judge key now p).1 then times ++ now ∷ [] else times)
        (some (judge key now p).0)
unfolding judge
judge-Knows key from now times o p h k q =
    elim (Bool-cases (ltb exchange_rate_limit (seen now p.events))) [
      | inl many ↦ rw many (record {
        few = λ t later. k.few t (omega arith);
        before = All-later from now times h k.before;
        told = record {
          chain = q.chain;
          past = q.past;
          last_of_all = q.last_of_all;
          counts = λ t later.
              q.counts t (within t times) later (omega arith)
                (omega (arith, k.few t (omega arith)));
        };
      })
      | inr few ↦ rw few (record {
        few = λ t later. omega (
          arith,
          within_later now t (times ++ now ∷ []) later,
          shown now (omega arith),
          not_more few,
        );
        before = whole;
        told = record {
          chain = q.chain;
          past = q.past;
          last_of_all = λ pos. whole;
          counts = shown;
        };
      })
    ]
  where
    whole : All (λ x. x ≤ now) (times ++ now ∷ [])
    whole =
        All-append (λ x. x ≤ now) times (now ∷ []) (All-later from now times h k.before)
          (omega arith, tt)

    shown : (t : ℕ) → now ≤ t → within t (times ++ now ∷ []) ≤ seen t p.events
    shown t later =
        q.counts t (within t (times ++ now ∷ [])) later (omega (arith, within-append t times now))
          (omega (arith, within-append t times now, within_one t now, k.few t (omega arith)))

    not_more :
        ltb exchange_rate_limit (seen now p.events) ≡ false
        → seen now p.events ≤ exchange_rate_limit
    not_more e = ground arith

pub elsewhere :
    (from now : ℕ) (times : List ℕ) (o : Option UserCryptoProfile)
    → from ≤ now
    → Knows from times o
    → Knows now times o
elsewhere from now times none h k = record {
  few = λ t later. k.few t (omega arith);
  before = All-later from now times h k.before;
  told = λ t later. k.told t (omega arith);
}
elsewhere from now times (some p) h k = record {
  few = λ t later. k.few t (omega arith);
  before = All-later from now times h k.before;
  told = record {
    chain = k.told.chain;
    past = Until-later from now p.events h k.told.past;
    last_of_all = k.told.last_of_all;
    counts = λ t later. k.told.counts t (omega arith);
  };
}

-- A profile that the cleanup deletes holds nothing that still counts.
pub clean-Knows :
    (from now : ℕ) (times : List ℕ) (o : Option UserCryptoProfile)
    → from ≤ now
    → Knows from times o
    → Knows now times (Dict.pass_if (λ p. not (is_idle now p)) o)
clean-Knows from now times none h k = elsewhere from now times none h k
clean-Knows from now times (some p) h k = elim (Bool-cases (is_idle now p)) [
  | inr active ↦ rw active (elsewhere from now times (some p) h k)
  | inl idle ↦ rw idle (record {
    few = λ t later. k.few t (omega arith);
    before = All-later from now times h k.before;
    told = λ t later.
        let old : p.last_key_exchange + exchange_window_ms ≤ t = ground arith in
        let pos : 0 < p.last_key_exchange = ground arith in
        within_past t p.last_key_exchange times old (k.told.last_of_all pos);
  })
]
