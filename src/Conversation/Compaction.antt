-- ===== src/Conversation/Compaction.antt =====
-- internal/conversation/compaction.go: token budgets, and the excerpt of a long tool output. A text is
-- the list of its code points. An int64 is a natural number without a bound; where the source tests
-- for a number below 1, 0 stands for all of them.
pub mod Budgets
pub mod Excerpts
mod Examples
use foya.Prelude.{
  ℕ, zero, suc, ◌+◌, ◌-◌, ◌*◌, ◌/◌, Bool, true, false, ◌||◌, List, [], ◌∷◌, ◌++◌, length, reverse,
  take, drop, leb, ltb, ◌==◌, if◌then◌else◌, Text, text, trim_space, min, max,
}

abbrev pub unknown_history_budget_tokens : ℕ
unknown_history_budget_tokens = 32000

abbrev pub unknown_reserve_tokens : ℕ
unknown_reserve_tokens = 16384

abbrev pub max_reserve_tokens : ℕ
max_reserve_tokens = 16384

abbrev pub min_adaptive_reserve_tokens : ℕ
min_adaptive_reserve_tokens = 1024

abbrev pub max_adaptive_reserve_tokens : ℕ
max_adaptive_reserve_tokens = 8192

pub record Budget : Type 0 where
  pub context_window : ℕ
  pub reserve_tokens : ℕ
  pub high_water : ℕ
  pub estimated : Bool

-- `max(1, window - reserve)`, 1 also where the difference is negative.
abbrev pub water : ℕ → ℕ → ℕ
water window reserve = if ltb (window - reserve) 1 then 1 else window - reserve

-- The two tests after each other.
abbrev pub clamp : ℕ → ℕ → ℕ → ℕ
clamp low high n =
    let raised = if ltb n low then low else n in if ltb high raised then high else raised

unfoldable pub derive_budget : ℕ → Budget
derive_budget window =
    if window == 0
    then record {
      context_window = unknown_history_budget_tokens + unknown_reserve_tokens;
      reserve_tokens = unknown_reserve_tokens;
      high_water = unknown_history_budget_tokens;
      estimated = true;
    }
    else (let reserve = clamp 1 max_reserve_tokens (window / 4) in
        record {
          context_window = window;
          reserve_tokens = reserve;
          high_water = water window reserve;
          estimated = false;
        })

unfoldable pub derive_budget_for_output : ℕ → ℕ → Budget
unfolding derive_budget
derive_budget_for_output window prior_output_tokens =
    if window == 0 || prior_output_tokens == 0
    then derive_budget window
    else (let reserve =
          clamp min_adaptive_reserve_tokens max_adaptive_reserve_tokens (prior_output_tokens * 2) in
        record (derive_budget window) {
          reserve_tokens = reserve;
          high_water = water window reserve;
        })

abbrev pub tool_output_omission : Text
tool_output_omission = text "\n\n[... middle of tool output omitted ...]\n\n"

abbrev pub rune_units : ℕ → ℕ
rune_units r = if ltb 0x7f r then 4 else 1

unfoldable pub weighted_units : Text → ℕ
weighted_units [] = 0
weighted_units (r ∷ rs) = rune_units r + weighted_units rs

-- The loop of `prefixRunesWithin` from `used` on; `suffixRunesWithin` runs over the runes from the
-- last one on.
unfoldable pub fit : ℕ → ℕ → Text → ℕ
fit max_units used [] = 0
fit max_units used (r ∷ rs) =
    let rest = fit max_units (used + rune_units r) rs in
    if ltb max_units (used + rune_units r) then 0 else suc rest

unfoldable pub prefix_runes_within : Text → ℕ → ℕ
unfolding fit
prefix_runes_within runes max_units = fit max_units 0 runes

unfoldable pub suffix_runes_within : Text → ℕ → ℕ
unfolding fit
suffix_runes_within runes max_units = length runes - fit max_units 0 (reverse runes)

abbrev pub head_units : ℕ → ℕ
head_units max_tokens = max_tokens * 4 * 3 / 5

abbrev pub head_end : Text → ℕ → ℕ
head_end t max_tokens = prefix_runes_within t (head_units max_tokens)

abbrev pub tail_start : Text → ℕ → ℕ
tail_start t max_tokens =
    let start = suffix_runes_within t (max_tokens * 4 - head_units max_tokens) in
    if ltb start (head_end t max_tokens) then head_end t max_tokens else start

unfoldable pub bounded_head_tail : Text → ℕ → Text
unfolding weighted_units prefix_runes_within suffix_runes_within trim_space
bounded_head_tail t max_tokens =
    if max_tokens == 0
    then []
    else if leb (weighted_units t) (max_tokens * 4)
    then trim_space t
    else trim_space (take (head_end t max_tokens) t)
      ++ (tool_output_omission ++ trim_space (drop (tail_start t max_tokens) t))
