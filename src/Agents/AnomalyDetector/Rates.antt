-- ===== src/Agents/AnomalyDetector/Rates.antt =====
-- Bursts and velocity: what the detector finds in the timestamps that it keeps is what a complete
-- record of the user's messages would show.
use pm_chat.Base.{
  ℕ, ◌-◌, ◌≤◌, ◌≡◌, ◌⊎◌, refl, inl, inr, String, Bool, true, false, Option, some, List, [], ◌∷◌,
  ◌++◌, arith, eq_iff, ◌===◌, if◌then◌else◌, ltb, length, Bool-cases, get_last?, keep-append, subst,
  ap, ◌∙◌, sym,
}
use pm_chat.Dict
use pm_chat.Agents.AnomalyDetector.{
  Profile, Profiles, window_ms, or_new, recent, has_jumped, with_message, Verdict, velocity, burst,
  ip_change, normal, judge, record_message_event, record_login_event, cleanup,
}
use pm_chat.Agents.AnomalyDetector.Scores.{Event, messages, logins, cleans, step, run}
use pm_chat.Agents.AnomalyDetector.Timestamps.{
  stamps, recent-recent, or_new-stamps, message-Knows, login-Knows, Knows-later, clean-Knows, Knows,
}

abbrev pub time : Event → ℕ
time (messages user_id ip now) = now
time (logins user_id fingerprint now) = now
time (cleans now) = now

abbrev sent_step : (user_id : String) → List ℕ → Event → List ℕ
sent_step u sent (messages v ip now) = if v === u then sent ++ now ∷ [] else sent
sent_step u sent _ = sent

-- The times of all messages of the user, after those before the events.
unfoldable pub sent_by : (user_id : String) → List ℕ → List Event → List ℕ
sent_by u sent [] = sent
sent_by u sent (e ∷ es) = sent_by u (sent_step u sent e) es

-- The times of the events are between the two bounds and never go back.
abbrev pub InOrder : (from till : ℕ) → List Event → Type 0
InOrder from till [] = from ≤ till
InOrder from till (e ∷ es) = (from ≤ time e) × InOrder (time e) till es

-- What an event of user `v` that leaves the profile `p` means for the user `u`.
set-Knows :
    (u v : String) (now : ℕ) (sent : List ℕ) (p : Profile) (s : Profiles)
    → (v === u) ≡ true
    → Knows now sent (some p)
    → Knows now sent (Dict.get u (Dict.set v p s))
set-Knows u v now sent p s same k = subst (Knows now sent) (ground (arith, Dict.get-set v u p s)) k

elsewhere-Knows :
    (u v : String) (from now : ℕ) (sent : List ℕ) (p : Profile) (s : Profiles)
    → (v === u) ≡ false
    → from ≤ now
    → Knows from sent (Dict.get u s)
    → Knows now sent (Dict.get u (Dict.set v p s))
elsewhere-Knows u v from now sent p s other h k =
    subst (Knows now sent) (ground (arith, Dict.get-set v u p s))
      (Knows-later from now sent (Dict.get u s) h k)

step-Knows :
    (u : String) (from : ℕ) (sent : List ℕ) (s : Profiles) (e : Event)
    → from ≤ time e
    → Knows from sent (Dict.get u s)
    → Knows (time e) (sent_step u sent e) (Dict.get u (step s e))
unfolding step record_message_event record_login_event cleanup
step-Knows u from sent s (cleans now) h k =
    subst (Knows now sent) (sym (Dict.get-retain u _ s))
      (clean-Knows from now sent (Dict.get u s) h k)
step-Knows u from sent s (messages v ip now) h k = elim (Bool-cases (v === u)) [
  | inl same ↦
      let here : Knows from sent (Dict.get v s) =
        subst (λ x. Knows from sent (Dict.get x s)) (sym ((eq_iff v u).0 same)) k in
      subst (λ xs. Knows now xs (Dict.get u (step s (messages v ip now)))) (ground arith)
        (set-Knows u v now (sent ++ now ∷ []) _ s same
          (message-Knows v ip from now sent (Dict.get v s) h here))
  | inr other ↦
      subst (λ xs. Knows now xs (Dict.get u (step s (messages v ip now)))) (ground arith)
        (elsewhere-Knows u v from now sent _ s other h k)
]
step-Knows u from sent s (logins v f now) h k = elim (Bool-cases (v === u)) [
  | inl same ↦
      let here : Knows from sent (Dict.get v s) =
        subst (λ x. Knows from sent (Dict.get x s)) (sym ((eq_iff v u).0 same)) k in
      set-Knows u v now sent _ s same (login-Knows v f from now sent (Dict.get v s) h here)
  | inr other ↦ elsewhere-Knows u v from now sent _ s other h k
]

run-Knows :
    (u : String) (from till : ℕ) (sent : List ℕ) (es : List Event) (s : Profiles)
    → InOrder from till es
    → Knows from sent (Dict.get u s)
    → Knows till (sent_by u sent es) (Dict.get u (run s es))
unfolding run sent_by
run-Knows u from till sent [] s h k = Knows-later from till sent (Dict.get u s) h k
run-Knows u from till sent (e ∷ es) s (h, hs) k =
    run-Knows u (time e) till _ es _ hs (step-Knows u from sent s e h k)

-- How many of the user's messages are within the span before `now`, with one now.
unfoldable pub rate : (span now : ℕ) → List ℕ → ℕ
rate span now sent = length (recent span now (sent ++ now ∷ []))

-- The verdict by the two rates, as long as a change of address or nothing comes after them.
abbrev pub by_rates : (minute seconds : ℕ) → (rest : Verdict) → Verdict
by_rates minute seconds rest =
    if ltb 60 minute then velocity else if ltb 10 seconds then burst else rest

if_one_of :
    (b : Bool)
    → ((if b then ip_change else normal) ≡ ip_change) ⊎ ((if b then ip_change else normal) ≡ normal)
if_one_of true = inl refl
if_one_of false = inr refl

judge-by_rates :
    (ip : String) (now : ℕ) (p : Profile)
    → (judge ip now p).1
      ≡ by_rates
          (length (recent 60_000 now p.message_timestamps))
          (length (recent 5_000 now p.message_timestamps))
          (if has_jumped ip now (get_last? p.ip_history) then ip_change else normal)
unfolding judge
judge-by_rates ip now p = ground arith

known_rate :
    (u : String) (span now : ℕ) (sent : List ℕ) (o : Option Profile)
    → span ≤ window_ms
    → Knows now sent o
    → length (recent span now (with_message now (or_new u now o)).message_timestamps)
      ≡ rate span now sent
unfolding rate
known_rate u span now sent o h k = ap length (
    recent-recent span now now ((or_new u now o).message_timestamps ++ now ∷ []) (omega arith) h
    ∙ keep-append (λ x. ltb (now - x) span) (or_new u now o).message_timestamps (now ∷ [])
    ∙ ap (λ xs. xs ++ recent span now (now ∷ []))
        (ap (recent span now) (or_new-stamps u now o)
          ∙ sym (recent-recent span now now (stamps o) (omega arith) h)
          ∙ ap (recent span now) (k.0 now (omega arith))
          ∙ recent-recent span now now sent (omega arith) h)
    ∙ sym (keep-append (λ x. ltb (now - x) span) sent (now ∷ [])))

-- After any run of events of any users at times that do not go back, a message of a user is
-- reported as too fast exactly if it is more than the 60th within a minute, counting all messages
-- that the user has sent, otherwise as a burst exactly if it is more than the 10th within five
-- seconds, and otherwise as a change of address or as normal. That old timestamps and idle
-- profiles are dropped makes no difference.
pub record_message_event-run :
    (user_id ip : String) (now : ℕ) (es : List Event)
    → InOrder 0 now es
    → (rest : Verdict) × ((rest ≡ ip_change) ⊎ (rest ≡ normal))
      × ((record_message_event user_id ip now (run [] es)).1.verdict
          ≡ by_rates
              (rate 60_000 now (sent_by user_id [] es))
              (rate 5_000 now (sent_by user_id [] es))
              rest)
unfolding record_message_event Dict.get
record_message_event-run u ip now es h =
    let k = run-Knows u 0 now [] es [] h ((λ t later. refl), λ p e. absurd (ground arith)) in
    let o = Dict.get u (run [] es) in
    let p = with_message now (or_new u now o) in
    let rest = if has_jumped ip now (get_last? p.ip_history) then ip_change else normal in
    (
      rest,
      if_one_of (has_jumped ip now (get_last? p.ip_history)),
      judge-by_rates ip now p
          ∙ ap (λ n. by_rates n (length (recent 5_000 now p.message_timestamps)) rest)
              (known_rate u 60_000 now _ o (omega arith) k)
          ∙ ap (λ n. by_rates (rate 60_000 now (sent_by u [] es)) n rest)
              (known_rate u 5_000 now _ o (omega arith) k),
    )
