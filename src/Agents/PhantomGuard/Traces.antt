-- ===== src/Agents/PhantomGuard/Traces.antt =====
-- How long a watermark can be traced.
use pm_chat.Base.{ℕ, ◌+◌, ◌≤◌, ◌≡◌, ◌≢◌, String, some, List, [], ◌∷◌, arith, eq_iff, eq_refl, All}
use pm_chat.Dict
use pm_chat.Agents.PhantomGuard.{
  PhantomTrace, Guard, trace_of, generate_watermark, verify_watermark, monitor_decryption, cleanup,
}

pub data Call : Type 0 where
  watermark : (trace_id conversation_id user_id message_id : String) (now : ℕ) → Call
  decryption : (user_id : String) (now : ℕ) → Call
  clean : (now : ℕ) → Call

module _ (hmac : (key content : String) → String) where
  unfoldable pub step : Guard → Call → Guard
  step g (watermark trace_id conversation_id user_id message_id now) =
      generate_watermark hmac trace_id conversation_id user_id message_id now g
  step g (decryption user_id now) = (monitor_decryption user_id now g).0
  step g (clean now) = cleanup now g

  unfoldable pub run : Guard → List Call → Guard
  run g [] = g
  run g (c ∷ cs) = run (step g c) cs

  -- Another trace id is drawn, and a cleanup comes within a day of `start`.
  abbrev pub Leaves : (trace_id : String) (start : ℕ) → Call → Type 0
  Leaves trace_id start (watermark other conversation_id user_id message_id now) = other ≢ trace_id
  Leaves trace_id start (decryption user_id now) = Unit {0}
  Leaves trace_id start (clean now) = now ≤ start + 86_400_000

  step-verify :
      (id : String) (trace : PhantomTrace) (g : Guard) (c : Call)
      → Leaves id trace.timestamp c
      → verify_watermark id g ≡ some trace
      → verify_watermark id (step g c) ≡ some trace
  unfolding verify_watermark step generate_watermark monitor_decryption cleanup
  step-verify id trace g (watermark other conv u m now) ne h =
      ground
        (arith, eq_iff other id, Dict.get-set other id (trace_of hmac other conv u m now) g.traces)
  step-verify id trace g (decryption u now) _ h = h
  step-verify id trace g (clean now) early h = rw Dict.get-retain (rw h (ground arith))

  run-verify :
      (id : String) (trace : PhantomTrace) (cs : List Call) (g : Guard)
      → All (Leaves id trace.timestamp) cs
      → verify_watermark id g ≡ some trace
      → verify_watermark id (run g cs) ≡ some trace
  unfolding run
  run-verify id trace [] g a h = h
  run-verify id trace (c ∷ cs) g (l, a) h =
      run-verify id trace cs (step g c) a (step-verify id trace g c l h)

  -- Whatever happens after a watermark was made, as long as its trace id is not drawn again and no
  -- cleanup comes more than a day later, the trace id leads to the conversation, the user and the
  -- time that the watermark was made for.
  pub verify_watermark-run :
      (trace_id conversation_id user_id message_id : String) (now : ℕ) (g : Guard) (cs : List Call)
      → All (Leaves trace_id now) cs
      → verify_watermark trace_id
          (run (generate_watermark hmac trace_id conversation_id user_id message_id now g) cs)
        ≡ some (trace_of hmac trace_id conversation_id user_id message_id now)
  unfolding verify_watermark generate_watermark
  verify_watermark-run id conv u m now g cs a =
      run-verify id (trace_of hmac id conv u m now) cs _ a
        (ground (arith, eq_refl id, Dict.get-set id id (trace_of hmac id conv u m now) g.traces))
