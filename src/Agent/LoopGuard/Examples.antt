-- ===== src/Agent/LoopGuard/Examples.antt =====
-- Runs of the guard, and its theorems at a few calls.
use foya.Prelude.{
  ◌≡◌, refl, true, ◌&&◌, List, [], ◌∷◌, leb, ltb, count_if, keep_if, take, Text, text, text_eq,
}
use foya.Agent.LoopGuard.{block_before_exec, record_result, record_step}
use foya.Agent.LoopGuard.Gate.{Results, after_results, failures, block_before_exec-failures}
use foya.Agent.LoopGuard.Window.{after_steps, has_sig, record_step-count}

abbrev results : Results
results = (text "edit", true) ∷ (text "edit", true) ∷ (text "read", true) ∷ []

gate_runs : block_before_exec (after_results results) (text "edit") ≡ true
unfolding block_before_exec record_result text_eq
gate_runs = refl

block_before_exec-failures_example :
    block_before_exec (after_results results) (text "edit") ≡ leb 2 (failures (text "edit") results)
block_before_exec-failures_example = block_before_exec-failures results (text "edit")

abbrev steps : List Text
steps = text "a" ∷ [] ∷ text "a" ∷ text "b" ∷ []

record_step-count_example : (record_step (after_steps steps) (text "a")).1 ≡ (
    has_sig (text "a")
    && ltb 8 (count_if (λ s. text_eq s (text "a")) (take 20 (keep_if has_sig (text "a" ∷ steps)))))
record_step-count_example = record_step-count steps (text "a")
