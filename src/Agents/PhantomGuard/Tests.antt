-- ===== src/Agents/PhantomGuard/Tests.antt =====
-- Runs of the phantom guard.
use pm_chat.Base.{
  ℕ, zero, suc, ◌+◌, ◌≡◌, ◌≢◌, refl, arith, String, Bool, true, false, Option, none, some, List, [],
  ◌∷◌, ◌++◌, eq_iff,
}
use pm_chat.Dict
use pm_chat.Agents.Regularity.{is_regular}
use pm_chat.Agents.PhantomGuard.{
  initial, trace_of, generate_watermark, verify_watermark, recent, intervals, rapid, even,
  unsuspicious, verdict_of, monitor_decryption, metrics_of, get_phantom_guard_metrics, cleanup,
}
use pm_chat.Agents.PhantomGuard.Traces.{
  Call, watermark, decryption, clean, step, run, verify_watermark-run,
}
use pm_chat.Agents.PhantomGuard.Extraction.{decrypted_by, monitor_decryption-run}

guard : Unit {0}
unfolding generate_watermark verify_watermark intervals verdict_of monitor_decryption metrics_of
    get_phantom_guard_metrics cleanup step run is_regular decrypted_by pm_chat.Base.keep
    pm_chat.Base.total Dict.get Dict.set Dict.delete Dict.retain
guard = tt

abbrev plain : (key content : String) → String
plain key content = content

abbrev decrypting : (count gap start : ℕ) → List Call
decrypting zero gap start = []
decrypting (suc n) gap start = decryption "u" start ∷ decrypting n gap (start + gap)

fast : (monitor_decryption "u" 60 (run plain initial (decrypting 50 1 10))).1 ≡ rapid
unfolding guard
fast = refl

clockwork : (monitor_decryption "u" 5_500 (run plain initial (decrypting 10 500 500))).1 ≡ even
unfolding guard
clockwork = refl

uneven :
    (monitor_decryption "u" 9_000
      (run plain initial (decrypting 5 500 500 ++ decrypting 5 900 4_000))).1
    ≡ unsuspicious
unfolding guard
uneven = refl

summed :
    get_phantom_guard_metrics (run plain initial (watermark "i" "c" "u" "m" 1 ∷ decrypting 52 1 10))
    ≡ record { active_traces = 1; suspicious_users = 1; bulk_extraction_attempts = 2 }
unfolding guard
summed = refl

forgotten :
    verify_watermark "i" (run plain initial (watermark "i" "c" "u" "m" 1 ∷ clean 86_400_002 ∷ []))
    ≡ none
unfolding guard
forgotten = refl

other_trace : ◌≢◌ {A = String} "j" "i"
other_trace e = ground (arith, eq_iff "j" "i")

verify_watermark-run_example :
    verify_watermark "i" (
      run plain
        (generate_watermark plain "i" "c" "u" "m" 5 initial)
        (watermark "j" "c" "v" "m" 6 ∷ decryption "v" 7 ∷ clean 80_000_000 ∷ []))
    ≡ some (trace_of plain "i" "c" "u" "m" 5)
verify_watermark-run_example =
    verify_watermark-run plain "i" "c" "u" "m" 5 initial
      (watermark "j" "c" "v" "m" 6 ∷ decryption "v" 7 ∷ clean 80_000_000 ∷ [])
      (other_trace, (tt, (omega arith, tt)))

monitor_decryption-run_example :
    (monitor_decryption "u" 70_000 (run plain initial (decrypting 2 5 10 ++ clean 50_000 ∷ []))).1
    ≡ verdict_of (
        recent 70_000 (decrypted_by "u" [] (decrypting 2 5 10 ++ clean 50_000 ∷ []) ++ 70_000 ∷ []))
monitor_decryption-run_example =
    monitor_decryption-run plain "u" 70_000 (decrypting 2 5 10 ++ clean 50_000 ∷ [])
      (omega arith, (omega arith, (omega arith, omega arith)))
