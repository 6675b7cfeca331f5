-- ===== src/Subagent/Manager/Usage.antt =====
-- internal/subagent/manager.go and subagent.go: the calls that cancel runs, the tokens that are charged
-- to a root run, and the limits.
use Prim.Native.Nat.{◌^◌}
use foya.Prelude.{
  ℕ, ◌+◌, ◌%◌, Bool, true, false, ◌&&◌, none, some, leb, ltb, ◌==◌, if◌then◌else◌, Text, text_eq,
  map,
}
use foya.Prelude.Map.{insert}
use foya.Prelude.Result.{Result, ok, err}
use foya.Subagent.Manager.{
  Status, queued, running, Error, not_exist, Limits, Run, Manager, find_run, modify_run, is_of_root,
  tokens_of, or_default, default_max_concurrency, default_max_per_root,
}

unfoldable pub cancel_run : ℕ → Manager → Result Error Manager
cancel_run id m = elim (find_run id m.runs) [
  | none ↦ err not_exist
  | some r ↦ ok (record m { runs = modify_run id (λ q. record q { is_cancelled = true }) m.runs })
]

abbrev pub is_active : Status → Bool
is_active queued = true
is_active running = true
is_active _ = false

-- The snapshots that `cancelRunTree` and `CancelTree`, at the root session that it finds, choose. Each
-- snapshot is read by itself, and each run that is chosen is then cancelled by a call of `Cancel`.
abbrev pub in_run_tree : Text → Run → Bool
in_run_tree root r = is_of_root root r && is_active r.status

abbrev pub in_tree : Text → Run → Bool
in_tree root_session r = text_eq r.root_session root_session && is_active r.status

-- `budgetForRun(...).Exceeded`, for the int64 that is kept: from 2 ^ 63 on it is negative.
abbrev pub is_exceeded : Manager → Text → Bool
is_exceeded m root =
    ltb 0 m.limits.max_tree_tokens
    && ltb (tokens_of m root) (2 ^ 63)
    && leb m.limits.max_tree_tokens (tokens_of m root)

-- `treeTokens[root] += tokens`, which wraps around, and what the runs of the root show.
abbrev pub charge : Text → ℕ → Manager → Manager
charge root tokens m = record m {
  tree_tokens = insert root ((tokens_of m root + tokens) % 2 ^ 64) m.tree_tokens;
  runs =
      map
        (λ r.
          if is_of_root root r
          then record r { tokens_used = (tokens_of m root + tokens) % 2 ^ 64 }
          else r)
        m.runs;
}

-- What `ObserveUsage` of a child's session does under its own lock, where the run has the root `root`;
-- `tokens` is 0 where the usage is not positive. The budget is read afterwards, and if it is exceeded,
-- the runs of `in_run_tree` are cancelled one by one.
unfoldable pub charge_usage : Text → ℕ → Manager → Manager
charge_usage root tokens m = if tokens == 0 then m else charge root tokens m

unfoldable pub update_limits : Limits → Manager → Manager
update_limits l m = record m {
  limits = record l {
    max_global_concurrency = or_default default_max_concurrency l.max_global_concurrency;
    max_per_root = or_default default_max_per_root l.max_per_root;
    max_children_per_root = m.limits.max_children_per_root;
  };
}
