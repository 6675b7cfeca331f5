-- ===== src/Conversation/Compaction/Budgets.antt =====
-- internal/conversation/compaction.go: what a budget leaves of the context window.
use foya.Prelude.{
  ℕ, ◌+◌, ◌*◌, ◌≤◌, ◌<◌, ◌≡◌, refl, false, arith, ◌==◌, ==_iff, Bool-cases, inl, inr,
}
use foya.Conversation.Compaction.{Budget, clamp, derive_budget, derive_budget_for_output}

-- A budget splits its window into a reserve and what the history may fill, neither of them empty.
pub record Splits (b : Budget) : Type 0 where
  pub whole : b.reserve_tokens + b.high_water ≡ b.context_window
  pub some_reserve : 1 ≤ b.reserve_tokens
  pub most : b.reserve_tokens ≤ 16384
  pub some_history : 1 ≤ b.high_water

-- The budget of any window but of one token splits the window, and reserves no more than 16384 tokens.
derive_budget-Splits : (window : ℕ) → (window == 1) ≡ false → Splits (derive_budget window)
unfolding derive_budget
derive_budget-Splits window h = elim (Bool-cases (window == 0)) [
  | inl none_known ↦ rw (none_known) (record {
    whole = refl;
    some_reserve = omega arith;
    most = omega arith;
    some_history = omega arith;
  })
  | inr known ↦ rw (known) (record {
    whole = ground (arith, ==_iff window 0, ==_iff window 1);
    some_reserve = ground arith;
    most = ground arith;
    some_history = ground arith;
  })
]

-- For a known window that is longer than twice the prior output and than 1024 tokens, the budget splits
-- the window too, and reserves twice the prior output within 1024 and 8192 tokens.
derive_budget_for_output-Splits :
    (window prior : ℕ)
    → 1024 < window
    → prior * 2 < window
    → 0 < prior
    → Splits (derive_budget_for_output window prior)
      × ((derive_budget_for_output window prior).reserve_tokens ≡ clamp 1024 8192 (prior * 2))
unfolding derive_budget_for_output
derive_budget_for_output-Splits window prior h k p = (
  record {
    whole = ground (arith, ==_iff window 0, ==_iff prior 0);
    some_reserve = ground (arith, ==_iff window 0, ==_iff prior 0);
    most = ground (arith, ==_iff window 0, ==_iff prior 0);
    some_history = ground (arith, ==_iff window 0, ==_iff prior 0);
  },
  ground (arith, ==_iff window 0, ==_iff prior 0),
)
