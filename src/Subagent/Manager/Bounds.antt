-- ===== src/Subagent/Manager/Bounds.antt =====
-- internal/subagent: the limits on the runs that have a slot and on the runs of one root.
use foya.Prelude.{
  ℕ, ◌+◌, ◌≤◌, ◌≡◌, refl, sym, ap, ◌∙◌, Bool, true, List, [], ◌∷◌, arith, Text, Bool-cases, exists,
  text_eq, Option-cases, inl, inr, subst,
}
use foya.Prelude.Map.{lookup, lookup-insert}
use foya.Subagent.Manager.{
  Run, Phase, waiting, blocked, working, finished, returned, Manager, find_run, Limits, or_zero,
  or_default, default_max_concurrency, default_max_per_root, active_of, new_manager, start,
  has_slot, take_slot, give_slot, begin_waiting, acquire_slot, ChildEnd, end_child, release_slot,
  give_up, spawn_acquire, spawn_release,
}
use foya.Subagent.Manager.Usage.{cancel_run, charge_usage}
use foya.Subagent.Manager.Counts.{holders, holders_of}
use foya.Subagent.Manager.Slots.{same_active, lookup-drop_active}
use foya.Subagent.Manager.Runs.{
  Op, starts, acquires, gives_up, releases, cancels, ends, spawn_acquires, spawn_releases, charges,
  updates, settle, apply, run, run-slots,
}

-- The counters are within the limits.
record IsWithin (m : Manager) : Type 0 where
  total : m.global_active ≤ m.limits.max_global_concurrency
  each : (root : Text) → active_of m root ≤ m.limits.max_per_root

-- Nothing that the limits are about is changed.
record Keeps (m m' : Manager) : Type 0 where
  global : m'.global_active ≡ m.global_active
  roots : m'.root_active ≡ m.root_active
  limits : m'.limits ≡ m.limits

Keeps-IsWithin : (m m' : Manager) → Keeps m m' → IsWithin m → IsWithin m'
Keeps-IsWithin m m' k w = record {
  total =
      subst (λ l. m'.global_active ≤ l.max_global_concurrency) (sym k.limits)
        (omega (arith, w.total, k.global));
  each = λ root.
      subst (λ l. active_of m' root ≤ l.max_per_root) (sym k.limits)
        (omega (arith, w.each root, ap (λ x. or_zero (lookup root x)) k.roots));
}

take_slot-IsWithin :
    (r : Run) (m : Manager) → has_slot m r.root_run ≡ true → IsWithin m → IsWithin (take_slot r m)
take_slot-IsWithin r m h w = record {
  total = ground arith;
  each = λ root. ground (
    arith,
    lookup-insert r.root_run root (active_of m r.root_run + 1) m.root_active,
    w.each root,
    same_active m r.root_run root,
  );
}

give_slot-IsWithin : (r : Run) (m : Manager) → IsWithin m → IsWithin (give_slot r m)
give_slot-IsWithin r m w = record {
  total = omega (arith, w.total);
  each = λ root. ground (
    arith,
    lookup-drop_active r.root_run root (active_of m r.root_run) m.root_active,
    w.each root,
    w.each r.root_run,
  );
}

begin_waiting-IsWithin : (r : Run) (m : Manager) → IsWithin m → IsWithin (begin_waiting r m)
begin_waiting-IsWithin r m w = elim (Bool-cases (has_slot m r.root_run)) [
  | inl free ↦ rw (free) (take_slot-IsWithin r m free w)
  | inr full ↦
      rw (full) (Keeps-IsWithin m _ (record { global = refl; roots = refl; limits = refl }) w)
]

spawn_acquire-IsWithin : (root : Text) (m : Manager) → IsWithin m → IsWithin (spawn_acquire root m)
unfolding spawn_acquire
spawn_acquire-IsWithin root m w = elim (Bool-cases (has_slot m root)) [
  | inr full ↦ rw (full) w
  | inl free ↦ rw (free) (record {
    total = ground arith;
    each = λ k. ground (
      arith,
      lookup-insert root k (active_of m root + 1) m.root_active,
      w.each k,
      same_active m root k,
    );
  })
]

spawn_release-IsWithin : (root : Text) (m : Manager) → IsWithin m → IsWithin (spawn_release root m)
unfolding spawn_release
spawn_release-IsWithin root m w = elim (Bool-cases (exists (λ t. text_eq t root) m.spawned)) [
  | inr nobody ↦ rw (nobody) w
  | inl there ↦ rw (there) (record {
    total = omega (arith, w.total);
    each = λ k.
        ground (
          arith,
          lookup-drop_active root k (active_of m root) m.root_active,
          w.each k,
          w.each root,
        );
  })
]

acquire_slot-IsWithin : (id : ℕ) (m : Manager) → IsWithin m → IsWithin (acquire_slot id m)
unfolding acquire_slot
acquire_slot-IsWithin id m w = elim (Option-cases (find_run id m.runs)) [
  | inl e ↦ rw (e, acquire_slot) w
  | inr (r, e) ↦ rw (e, acquire_slot) (go r r.phase)
]
  where
    go :
        (r : Run) (p : Phase)
        → IsWithin (elim p [ waiting ↦ begin_waiting r m | blocked ↦ begin_waiting r m | _ ↦ m ])
    go r waiting = begin_waiting-IsWithin r m w
    go r blocked = begin_waiting-IsWithin r m w
    go r working = w
    go r finished = w
    go r returned = w

release_slot-IsWithin : (id : ℕ) (m : Manager) → IsWithin m → IsWithin (release_slot id m)
unfolding release_slot
release_slot-IsWithin id m w = elim (Option-cases (find_run id m.runs)) [
  | inl e ↦ rw (e, release_slot) w
  | inr (r, e) ↦ rw (e, release_slot) (go r r.phase)
]
  where
    go : (r : Run) (p : Phase) → IsWithin (elim p [ finished ↦ give_slot r m | _ ↦ m ])
    go r waiting = w
    go r blocked = w
    go r working = w
    go r finished = give_slot-IsWithin r m w
    go r returned = w

start-Keeps :
    (found : Bool) (rs rr p : Text) (m : Manager) → Keeps m (settle m (start found rs rr p m))
unfolding start
start-Keeps found rs rr p m = record {
  global = ground arith;
  roots = ground arith;
  limits = ground arith;
}

cancel_run-Keeps : (id : ℕ) (m : Manager) → Keeps m (settle m (cancel_run id m))
unfolding cancel_run
cancel_run-Keeps id m = record {
  global = ground arith;
  roots = ground arith;
  limits = ground arith;
}

end_child-Keeps : (id : ℕ) (c : ChildEnd) (m : Manager) → Keeps m (end_child id c m)
unfolding end_child
end_child-Keeps id c m = record {
  global = ground arith;
  roots = ground arith;
  limits = ground arith;
}

give_up-Keeps : (id : ℕ) (m : Manager) → Keeps m (give_up id m)
unfolding give_up
give_up-Keeps id m = record { global = ground arith; roots = ground arith; limits = ground arith }

charge_usage-Keeps : (root : Text) (tokens : ℕ) (m : Manager) → Keeps m (charge_usage root tokens m)
unfolding charge_usage
charge_usage-Keeps root tokens m = record {
  global = ground arith;
  roots = ground arith;
  limits = ground arith;
}

-- The limits stay those that they are.
abbrev pub IsSteady : Op → Type 0
IsSteady (updates l) = ⊥
IsSteady _ = Unit {0}

abbrev pub AreSteady : List Op → Type 0
AreSteady [] = Unit {0}
AreSteady (o ∷ os) = IsSteady o × AreSteady os

apply-IsWithin : (o : Op) (m : Manager) → IsSteady o → IsWithin m → IsWithin (apply o m)
unfolding apply
apply-IsWithin (starts found rs rr p) m s w = Keeps-IsWithin m _ (start-Keeps found rs rr p m) w
apply-IsWithin (acquires id) m s w = acquire_slot-IsWithin id m w
apply-IsWithin (releases id) m s w = release_slot-IsWithin id m w
apply-IsWithin (cancels id) m s w = Keeps-IsWithin m _ (cancel_run-Keeps id m) w
apply-IsWithin (ends id c) m s w = Keeps-IsWithin m _ (end_child-Keeps id c m) w
apply-IsWithin (gives_up id) m s w = Keeps-IsWithin m _ (give_up-Keeps id m) w
apply-IsWithin (spawn_acquires root) m s w = spawn_acquire-IsWithin root m w
apply-IsWithin (spawn_releases root) m s w = spawn_release-IsWithin root m w
apply-IsWithin (charges root tokens) m s w = Keeps-IsWithin m _ (charge_usage-Keeps root tokens m) w
apply-IsWithin (updates l) m s w = absurd s

limits-apply : (o : Op) (m : Manager) → IsSteady o → (apply o m).limits ≡ m.limits
unfolding apply
limits-apply (starts found rs rr p) m s = (start-Keeps found rs rr p m).limits
limits-apply (acquires id) m s = unfold acquire_slot in ground arith
limits-apply (releases id) m s = unfold release_slot in ground arith
limits-apply (cancels id) m s = (cancel_run-Keeps id m).limits
limits-apply (ends id c) m s = (end_child-Keeps id c m).limits
limits-apply (gives_up id) m s = (give_up-Keeps id m).limits
limits-apply (spawn_acquires root) m s = unfold spawn_acquire in ground arith
limits-apply (spawn_releases root) m s = unfold spawn_release in ground arith
limits-apply (charges root tokens) m s = (charge_usage-Keeps root tokens m).limits
limits-apply (updates l) m s = absurd s

run-IsWithin :
    (os : List Op) (m : Manager)
    → AreSteady os
    → IsWithin m
    → IsWithin (run os m) × ((run os m).limits ≡ m.limits)
unfolding run
run-IsWithin [] m s w = (w, refl)
run-IsWithin (o ∷ os) m s w =
    let (v, e) = run-IsWithin os (apply o m) s.1 (apply-IsWithin o m s.0 w) in
    (v, e ∙ limits-apply o m s.0)

new_manager-IsWithin : (l : Limits) → IsWithin (new_manager l)
unfolding new_manager lookup
new_manager-IsWithin l = record { total = omega arith; each = λ root. omega arith }

-- Through any steps and calls that do not set the limits anew, the runs and calls of `Spawn` that have a
-- slot are, in all and of each root, no more than the limits that the manager is made with, where a
-- limit of 0 is the default.
pub run-limits :
    (l : Limits) (os : List Op)
    → AreSteady os
    → let m = run os (new_manager l) in
      (holders m ≤ or_default default_max_concurrency l.max_global_concurrency)
      × ((root : Text) → holders_of m root ≤ or_default default_max_per_root l.max_per_root)
unfolding new_manager
run-limits l os s =
    let (w, e) = run-IsWithin os (new_manager l) s (new_manager-IsWithin l) in
    let (total, each) = run-slots l os in
    (
      omega (arith, w.total, total, ap (λ x. x.max_global_concurrency) e),
      λ root. omega (arith, w.each root, each root, ap (λ x. x.max_per_root) e),
    )
