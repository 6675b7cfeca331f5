-- ===== src/Subagent/Manager/Examples.antt =====
-- Runs of the child agents' scheduler, and its theorems at two children of a root run.
use foya.Prelude.{◌≡◌, refl, ◌≤◌, true, false, List, [], ◌∷◌, count_if, exists, Text, text, text_eq}
use foya.Prelude.Map.{lookup, insert, delete}
use foya.Subagent.Manager.{
  Run, completed, returned, Limits, new_manager, start, acquire_slot, end_child, release_slot,
  find_run, modify_run, spawn_acquire, spawn_release, remove_one, active_of, or_default,
  default_max_concurrency, default_max_per_root, succeeds,
}
use foya.Subagent.Manager.Usage.{charge_usage}
use foya.Subagent.Manager.Counts.{holders, holders_of, children_of}
use foya.Subagent.Manager.Runs.{
  Op, starts, acquires, cancels, releases, ends, charges, spawn_acquires, spawn_releases, apply,
  run, run-slots,
}
use foya.Subagent.Manager.Bounds.{run-limits}
use foya.Subagent.Manager.Children.{run-children}
use foya.Subagent.Manager.Changes.{Remains}
use foya.Subagent.Manager.Finals.{run-finals}
use foya.Subagent.Manager.Statuses.{is_odd, run-statuses}

abbrev limits : Limits
limits = record {
  max_global_concurrency = 1;
  max_per_root = 0;
  max_children_per_root = 2;
  max_tree_tokens = 100;
}

abbrev root : Text
root = text "r1"

-- Two children, of which the second waits until the first and a call of `Spawn` have
-- given their slots back.
abbrev steps : List Op
steps =
    starts true (text "s1") root (text "s1")
    ∷ starts true (text "s1") root (text "s1")
    ∷ acquires 0
    ∷ acquires 1
    ∷ charges root 60
    ∷ ends 0 succeeds
    ∷ releases 0
    ∷ spawn_acquires root
    ∷ acquires 1
    ∷ spawn_releases root
    ∷ acquires 1
    ∷ []

slot_runs : (run steps (new_manager limits)).global_active ≡ 1
unfolding run apply new_manager start count_if acquire_slot end_child release_slot charge_usage
    find_run modify_run text_eq lookup insert delete spawn_acquire spawn_release exists remove_one
slot_runs = refl

run-slots_example :
    ((run steps (new_manager limits)).global_active ≡ holders (run steps (new_manager limits)))
    × ((t : Text)
        → active_of (run steps (new_manager limits)) t
          ≡ holders_of (run steps (new_manager limits)) t)
run-slots_example = run-slots limits steps

run-limits_example :
    (holders (run steps (new_manager limits)) ≤ or_default default_max_concurrency 1)
    × ((t : Text)
        → holders_of (run steps (new_manager limits)) t ≤ or_default default_max_per_root 0)
run-limits_example =
    run-limits limits steps (tt, (tt, (tt, (tt, (tt, (tt, (tt, (tt, (tt, (tt, (tt, tt)))))))))))

run-children_example :
    children_of (run steps (new_manager limits)) root
    ≤ (run steps (new_manager limits)).limits.max_children_per_root
run-children_example = run-children limits steps root

run-statuses_example : count_if is_odd (run steps (new_manager limits)).runs ≡ 0
run-statuses_example = run-statuses limits steps

abbrev first_child : Run
first_child = record {
  id = 0;
  status = completed;
  root_session = text "s1";
  root_run = root;
  parent_session = text "s1";
  tokens_used = 60;
  phase = returned;
  is_cancelled = false;
}

run-finals_example :
    Remains 0 first_child
      (run (cancels 0 ∷ ends 1 succeeds ∷ releases 1 ∷ []) (run steps (new_manager limits))).runs
unfolding run apply new_manager start count_if acquire_slot end_child release_slot charge_usage
    find_run modify_run text_eq lookup insert delete spawn_acquire spawn_release exists remove_one
run-finals_example =
    run-finals limits steps (cancels 0 ∷ ends 1 succeeds ∷ releases 1 ∷ []) 0 first_child refl
