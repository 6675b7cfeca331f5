-- ===== src/Agent/LoopGuard/Gate.antt =====
-- internal/agent/loopguard.go: the gate before a call.
use foya.Prelude.{
  ℕ, suc, ◌≡◌, Bool, ◌&&◌, List, [], ◌∷◌, arith, leb, if◌then◌else◌, Text, text_eq, text_eq_iff,
}
use foya.Agent.LoopGuard.{LoopGuard, new_guard, block_before_exec, record_result}

-- A call's signature and whether it failed, latest first.
abbrev pub Results : Type 0
Results = List (Text × Bool)

abbrev pub after_results : Results → LoopGuard
after_results [] = new_guard
after_results ((sig, is_err) ∷ rs) = record_result (after_results rs) sig is_err

-- How many of the latest results in a row are failures of the call.
abbrev pub failures : Text → Results → ℕ
failures sig [] = 0
failures sig ((t, is_err) ∷ rs) = if is_err && text_eq t sig then suc (failures sig rs) else 0

streak :
    (rs : Results) (sig : Text)
    → failures sig rs
      ≡ (if text_eq sig (after_results rs).last_fail_sig then (after_results rs).fail_streak else 0)
unfolding record_result
streak [] sig = ground arith
streak ((t, is_err) ∷ rs) sig = ground (
  arith,
  streak rs sig,
  streak rs t,
  text_eq_iff t sig,
  text_eq_iff sig t,
  text_eq_iff sig (after_results rs).last_fail_sig,
  text_eq_iff t (after_results rs).last_fail_sig,
)

-- After any results, a call is blocked exactly when at least the last two results are failures of
-- this very call; a success or another call in between opens the gate.
pub block_before_exec-failures :
    (rs : Results) (sig : Text) → block_before_exec (after_results rs) sig ≡ leb 2 (failures sig rs)
unfolding block_before_exec
block_before_exec-failures rs sig = ground (arith, streak rs sig)
