-- ===== src/Agents/Registry/Ring.antt =====
-- The recent events are the last ones of all that were recorded.
use pm_chat.Base.{
  ℕ, ◌+◌, ◌≤◌, ◌≡◌, inl, inr, List, [], ◌∷◌, ◌++◌, arith, ap, ◌∙◌, sym, ltb, length, last,
  Bool-cases, length-append, drop-append, last_of_length-le, last-append, length-last, drop-last,
  last-last,
}
use mathlib.Core.List.{append-nil, append_assoc}
use pm_chat.Agents.Registry.{
  SecurityEvent, Agents, Events, max_events, record_security_event, generate_threat_report,
}

-- The events after those of the list, one by one.
unfoldable pub record_all : Events → List SecurityEvent → Events
record_all events [] = events
record_all events (e ∷ es) = record_all (record_security_event e events) es

record-last :
    (e : SecurityEvent) (all : List SecurityEvent)
    → record_security_event e (last max_events all) ≡ last max_events (all ++ e ∷ [])
unfolding record_security_event
record-last e all = elim (Bool-cases (ltb max_events (length (last max_events all ++ e ∷ [])))) [
  | inr fits ↦
      let short : length all + 1 ≤ max_events =
        ground (arith, length-append (last max_events all) (e ∷ []), length-last 200 all) in
      rw fits (
        ap (λ xs. xs ++ e ∷ []) (last_of_length-le max_events all (omega arith))
        ∙ sym (
            last_of_length-le max_events (all ++ e ∷ [])
              (omega (arith, length-append all (e ∷ [])))))
  | inl full ↦
      let long : max_events ≤ length all =
        ground (arith, length-append (last max_events all) (e ∷ []), length-last 200 all) in
      rw full (
        drop-append 1 (last max_events all) (e ∷ []) (omega (arith, length-last 200 all))
        ∙ ap (λ xs. xs ++ e ∷ []) (drop-last 200 all long)
        ∙ sym (last-append max_events all (e ∷ []) (omega arith)))
]

record_all-last :
    (before es : List SecurityEvent)
    → record_all (last max_events before) es ≡ last max_events (before ++ es)
unfolding record_all
record_all-last before [] = ap (last max_events) (sym (append-nil before))
record_all-last before (e ∷ es) =
    ap (λ xs. record_all xs es) (record-last e before)
    ∙ record_all-last (before ++ e ∷ []) es
    ∙ ap (last max_events) (append_assoc before (e ∷ []) es)

-- Whatever the state of the agents, and however many events were recorded since the server started,
-- the report shows the last fifty of them: the cut to 200 events loses none that it shows.
report-recent_events :
    (now : ℕ) (s : Agents) (all : List SecurityEvent)
    → (generate_threat_report now s (record_all [] all)).recent_events ≡ last 50 all
unfolding generate_threat_report last
report-recent_events now s all =
    ap (last 50) (record_all-last [] all) ∙ last-last 50 max_events all (omega arith)
