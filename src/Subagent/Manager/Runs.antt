-- ===== src/Subagent/Manager/Runs.antt =====
-- internal/subagent: the steps of the runs and the calls of the clients, in any order.
use foya.Prelude.{
  ℕ, ◌≡◌, refl, Bool, true, false, List, [], ◌∷◌, arith, ◌==◌, count_if, leb, Text, Bool-cases,
  Option-cases, inl, inr,
}
use foya.Prelude.Map.{lookup}
use foya.Prelude.Result.{Result, ok, err}
use foya.Subagent.Manager.{
  Manager, find_run, is_of_root, Limits, Error, active_of, new_manager, start, acquire_slot,
  ChildEnd, end_child, release_slot, give_up, spawn_acquire, spawn_release,
}
use foya.Subagent.Manager.Usage.{cancel_run, charge, charge_usage, update_limits}
use foya.Subagent.Manager.Counts.{
  holds, holds_of, holders, holders_of, count_if-modify_same, count_if-map_same,
}
use foya.Subagent.Manager.Slots.{
  IsValid, recount, give_up-IsValid, acquire_slot-IsValid, end_child-IsValid, release_slot-IsValid,
}
use foya.Subagent.Manager.Spawns.{spawn_acquire-IsValid, spawn_release-IsValid}

-- A refused call changes nothing.
abbrev pub settle : Manager → Result Error Manager → Manager
settle m (ok m') = m'
settle m (err e) = m

pub data Op : Type 0 where
  starts : Bool → Text → Text → Text → Op
  acquires gives_up releases cancels : ℕ → Op
  ends : ℕ → ChildEnd → Op
  spawn_acquires spawn_releases : Text → Op
  charges : Text → ℕ → Op
  updates : Limits → Op

unfoldable pub apply : Op → Manager → Manager
apply (starts found root_session root_run parent) m =
    settle m (start found root_session root_run parent m)
apply (acquires id) m = acquire_slot id m
apply (releases id) m = release_slot id m
apply (cancels id) m = settle m (cancel_run id m)
apply (ends id c) m = end_child id c m
apply (gives_up id) m = give_up id m
apply (spawn_acquires root) m = spawn_acquire root m
apply (spawn_releases root) m = spawn_release root m
apply (charges root tokens) m = charge_usage root tokens m
apply (updates l) m = update_limits l m

unfoldable pub run : List Op → Manager → Manager
unfolding apply
run [] m = m
run (o ∷ os) m = run os (apply o m)

start-IsValid :
    (found : Bool) (rs rr p : Text) (m : Manager)
    → IsValid m
    → IsValid (settle m (start found rs rr p m))
unfolding start count_if
start-IsValid false rs rr p m v = v
start-IsValid true rs rr p m v =
    elim (Bool-cases (leb m.limits.max_children_per_root (count_if (is_of_root rr) m.runs))) [
      | inl full ↦ rw (full) v
      | inr free ↦ rw (free) (recount m _ refl refl refl refl (λ root. refl) v)
    ]

cancel_run-IsValid : (id : ℕ) (m : Manager) → IsValid m → IsValid (settle m (cancel_run id m))
unfolding cancel_run
cancel_run-IsValid id m v = elim (Option-cases (find_run id m.runs)) [
  | inl e ↦ rw (e, cancel_run) v
  | inr (r, e) ↦
      rw (e, cancel_run)
        (recount m _ refl refl refl (count_if-modify_same holds _ id m.runs (λ q. refl))
          (λ root. count_if-modify_same (holds_of root) _ id m.runs (λ q. refl)) v)
]

charge-IsValid :
    (root : Text) (tokens : ℕ) (m : Manager) → IsValid m → IsValid (charge root tokens m)
charge-IsValid root tokens m v =
    recount m _ refl refl refl (count_if-map_same holds _ m.runs (λ r. ground arith))
      (λ t. count_if-map_same (holds_of t) _ m.runs (λ r. ground arith)) v

charge_usage-IsValid :
    (root : Text) (tokens : ℕ) (m : Manager) → IsValid m → IsValid (charge_usage root tokens m)
unfolding charge_usage
charge_usage-IsValid root tokens m v = elim (Bool-cases (tokens == 0)) [
  | inl zero_used ↦ rw (zero_used) v
  | inr used ↦ rw (used) (charge-IsValid root tokens m v)
]

apply-IsValid : (o : Op) (m : Manager) → IsValid m → IsValid (apply o m)
unfolding apply
apply-IsValid (starts found rs rr p) m v = start-IsValid found rs rr p m v
apply-IsValid (acquires id) m v = acquire_slot-IsValid id m v
apply-IsValid (releases id) m v = release_slot-IsValid id m v
apply-IsValid (cancels id) m v = cancel_run-IsValid id m v
apply-IsValid (ends id c) m v = end_child-IsValid id c m v
apply-IsValid (gives_up id) m v = give_up-IsValid id m v
apply-IsValid (spawn_acquires root) m v = spawn_acquire-IsValid root m v
apply-IsValid (spawn_releases root) m v = spawn_release-IsValid root m v
apply-IsValid (charges root tokens) m v = charge_usage-IsValid root tokens m v
apply-IsValid (updates l) m v =
    unfold update_limits in recount m _ refl refl refl refl (λ root. refl) v

new_manager-IsValid : (l : Limits) → IsValid (new_manager l)
unfolding new_manager lookup count_if
new_manager-IsValid l = record { total = refl; each = λ root. refl }

run-IsValid : (os : List Op) (m : Manager) → IsValid m → IsValid (run os m)
unfolding run
run-IsValid [] m v = v
run-IsValid (o ∷ os) m v = run-IsValid os (apply o m) (apply-IsValid o m v)

-- Through any steps and calls, the scheduler's two counters are the numbers of runs and calls of `Spawn`
-- together that have a slot, in all and of each root.
pub run-slots :
    (l : Limits) (os : List Op)
    → let m = run os (new_manager l) in
      (m.global_active ≡ holders m) × ((root : Text) → active_of m root ≡ holders_of m root)
run-slots l os =
    let v = run-IsValid os (new_manager l) (new_manager-IsValid l) in (v.total, λ root. v.each root)
