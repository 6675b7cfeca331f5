-- ===== src/Agent/LoopGuard.antt =====
-- internal/agent/loopguard.go: the guard against repeated work within a turn. JSON normalisation and
-- SHA-256 are the standard library's, and are arguments.
pub mod Gate
pub mod Window
mod Examples
use foya.Prelude.{
  ℕ, suc, ◌+◌, ◌-◌, Bool, true, false, ◌&&◌, List, [], ◌∷◌, ◌++◌, length, drop, is_empty, leb, ltb,
  count_if, if◌then◌else◌, Text, text, text_eq,
}

abbrev pub loop_gate_threshold : ℕ
loop_gate_threshold = 3

abbrev pub repeat_window_size : ℕ
repeat_window_size = 20

abbrev pub repeat_max_count : ℕ
repeat_max_count = 8

pub record LoopGuard : Type 0 where
  pub last_fail_sig : Text
  pub fail_streak : ℕ
  pub window : List Text

abbrev pub new_guard : LoopGuard
new_guard = record { last_fail_sig = []; fail_streak = 0; window = [] }

unfoldable pub block_before_exec : LoopGuard → Text → Bool
block_before_exec g sig = text_eq sig g.last_fail_sig && leb (loop_gate_threshold - 1) g.fail_streak

unfoldable pub record_result : LoopGuard → Text → Bool → LoopGuard
record_result g sig is_err =
    if is_err
    then (if text_eq sig g.last_fail_sig
        then record g { fail_streak = g.fail_streak + 1 }
        else record g { last_fail_sig = sig; fail_streak = 1 })
    else record g { last_fail_sig = []; fail_streak = 0 }

-- The last `repeat_window_size` signatures.
abbrev pub shorten : List Text → List Text
shorten window =
    if ltb repeat_window_size (length window)
    then drop (length window - repeat_window_size) window
    else window

unfoldable pub record_step : LoopGuard → Text → LoopGuard × Bool
unfolding count_if
record_step g sig =
    let window = shorten (g.window ++ sig ∷ []) in
    if is_empty sig
    then (g, false)
    else (record g { window = window }, ltb repeat_max_count (count_if (λ s. text_eq s sig) window))

pub record StepInteraction : Type 0 where
  pub name : Text
  pub input : Text
  pub output : Text

module _ (normal_json : Text → Text) (sha256_hex : Text → Text) where
  -- `normal_json` unmarshals and marshals, and is the raw text where that fails.
  pub canonical_json : Text → Text
  canonical_json raw = if is_empty raw then [] else normal_json raw

  unfoldable pub call_sig : Text → Text → Text
  unfolding canonical_json
  call_sig name input = name ++ 0 ∷ canonical_json input

  abbrev pub step_bytes : List StepInteraction → Text
  step_bytes [] = []
  step_bytes (c ∷ cs) =
      c.name ++ 0 ∷ (canonical_json c.input ++ 0 ∷ (c.output ++ 0 ∷ step_bytes cs))

  unfoldable pub step_sig : List StepInteraction → Text
  step_sig calls = if is_empty calls then [] else sha256_hex (step_bytes calls)
