-- ===== src/Subagent/Manager/Children.antt =====
-- internal/subagent: how many children a root run may have.
use foya.Prelude.{
  ℕ, ◌≤◌, ◌≡◌, refl, ap, Bool, true, false, Option, none, some, List, [], ◌∷◌, arith, ◌==◌,
  count_if, leb, Text, text_eq, text_eq_sound, Bool-cases, exists, if◌then◌else◌, Option-cases, inl,
  inr,
}
use foya.Subagent.Manager.{
  Run, Phase, waiting, blocked, working, finished, returned, Status, cancelled, Manager, find_run,
  is_of_root, Limits, new_manager, start, has_slot, take_slot, give_slot, begin_waiting,
  finish_state, acquire_slot, ChildEnd, end_status, end_child, release_slot, block, give_up,
  spawn_acquire, spawn_release,
}
use foya.Subagent.Manager.Usage.{cancel_run, charge, charge_usage, update_limits}
use foya.Subagent.Manager.Counts.{children_of, count_if-modify_same, count_if-map_same}
use foya.Subagent.Manager.Runs.{
  Op, starts, acquires, gives_up, releases, cancels, ends, spawn_acquires, spawn_releases, charges,
  updates, settle, apply, run,
}

-- No root run has more runs than the limit.
abbrev IsFew : Manager → Type 0
IsFew m = (root : Text) → children_of m root ≤ m.limits.max_children_per_root

-- No run is added, and the limit stays.
record Keeps (m m' : Manager) : Type 0 where
  children : (root : Text) → children_of m' root ≡ children_of m root
  limit : m'.limits.max_children_per_root ≡ m.limits.max_children_per_root

Keeps-IsFew : (m m' : Manager) → Keeps m m' → IsFew m → IsFew m'
Keeps-IsFew m m' k w root = omega (arith, w root, k.children root, k.limit)

Keeps-self : (m : Manager) → Keeps m m
Keeps-self m = record { children = λ root. refl; limit = refl }

finish_state-Keeps :
    (id : ℕ) (status : Status) (phase : Phase) (m : Manager)
    → Keeps m (finish_state id status phase m)
finish_state-Keeps id status phase m = record {
  children = λ root. count_if-modify_same (is_of_root root) _ id m.runs (λ r. refl);
  limit = refl;
}

take_slot-Keeps : (r : Run) (m : Manager) → Keeps m (take_slot r m)
take_slot-Keeps r m = record {
  children = λ root. count_if-modify_same (is_of_root root) _ r.id m.runs (λ q. refl);
  limit = refl;
}

give_slot-Keeps : (r : Run) (m : Manager) → Keeps m (give_slot r m)
give_slot-Keeps r m = record {
  children = λ root. count_if-modify_same (is_of_root root) _ r.id m.runs (λ q. refl);
  limit = refl;
}

block-Keeps : (id : ℕ) (m : Manager) → Keeps m (block id m)
block-Keeps id m = record {
  children = λ root. count_if-modify_same (is_of_root root) _ id m.runs (λ q. refl);
  limit = refl;
}

begin_waiting-Keeps : (r : Run) (m : Manager) → Keeps m (begin_waiting r m)
begin_waiting-Keeps r m = elim (Bool-cases (has_slot m r.root_run)) [
  | inl free ↦ rw (free) (take_slot-Keeps r m)
  | inr full ↦ rw (full) (block-Keeps r.id m)
]

-- A step of a run that is found, in whatever phase.
found-Keeps :
    (id : ℕ) (m : Manager) (f : Run → Manager)
    → ((r : Run) → Keeps m (f r))
    → Keeps m (elim (find_run id m.runs) [ none ↦ m | some r ↦ f r ])
found-Keeps id m f h = go (find_run id m.runs)
  where
    go : (o : Option Run) → Keeps m (elim o [ none ↦ m | some r ↦ f r ])
    go none = Keeps-self m
    go (some r) = h r

acquire_slot-Keeps : (id : ℕ) (m : Manager) → Keeps m (acquire_slot id m)
unfolding acquire_slot
acquire_slot-Keeps id m = found-Keeps id m _ (λ r. go r r.phase)
  where
    go :
        (r : Run) (p : Phase)
        → Keeps m (elim p [ waiting ↦ begin_waiting r m | blocked ↦ begin_waiting r m | _ ↦ m ])
    go r waiting = begin_waiting-Keeps r m
    go r blocked = begin_waiting-Keeps r m
    go r working = Keeps-self m
    go r finished = Keeps-self m
    go r returned = Keeps-self m

release_slot-Keeps : (id : ℕ) (m : Manager) → Keeps m (release_slot id m)
unfolding release_slot
release_slot-Keeps id m = found-Keeps id m _ (λ r. go r r.phase)
  where
    go : (r : Run) (p : Phase) → Keeps m (elim p [ finished ↦ give_slot r m | _ ↦ m ])
    go r waiting = Keeps-self m
    go r blocked = Keeps-self m
    go r working = Keeps-self m
    go r finished = give_slot-Keeps r m
    go r returned = Keeps-self m

end_child-Keeps : (id : ℕ) (c : ChildEnd) (m : Manager) → Keeps m (end_child id c m)
unfolding end_child
end_child-Keeps id c m = found-Keeps id m _ (λ r. go r r.phase)
  where
    go :
        (r : Run) (p : Phase)
        → Keeps m (elim p [ working ↦ finish_state id (end_status c) finished m | _ ↦ m ])
    go r waiting = Keeps-self m
    go r blocked = Keeps-self m
    go r working = finish_state-Keeps id (end_status c) finished m
    go r finished = Keeps-self m
    go r returned = Keeps-self m

give_up-Keeps : (id : ℕ) (m : Manager) → Keeps m (give_up id m)
unfolding give_up
give_up-Keeps id m = found-Keeps id m _ (λ r. go r r.phase)
  where
    go :
        (r : Run) (p : Phase)
        → Keeps m (elim p [
          | blocked ↦ if r.is_cancelled then finish_state r.id cancelled returned m else m
          | _ ↦ m
        ])
    go r waiting = Keeps-self m
    go r blocked = elim (Bool-cases r.is_cancelled) [
      | inl gone ↦ rw (gone) (finish_state-Keeps r.id cancelled returned m)
      | inr there ↦ rw (there) (Keeps-self m)
    ]
    go r working = Keeps-self m
    go r finished = Keeps-self m
    go r returned = Keeps-self m

spawn_acquire-Keeps : (root : Text) (m : Manager) → Keeps m (spawn_acquire root m)
unfolding spawn_acquire
spawn_acquire-Keeps root m = elim (Bool-cases (has_slot m root)) [
  | inl free ↦ rw (free) (record { children = λ t. refl; limit = refl })
  | inr full ↦ rw (full) (Keeps-self m)
]

spawn_release-Keeps : (root : Text) (m : Manager) → Keeps m (spawn_release root m)
unfolding spawn_release
spawn_release-Keeps root m = elim (Bool-cases (exists (λ t. text_eq t root) m.spawned)) [
  | inl there ↦ rw (there) (record { children = λ t. refl; limit = refl })
  | inr nobody ↦ rw (nobody) (Keeps-self m)
]

charge-Keeps : (root : Text) (tokens : ℕ) (m : Manager) → Keeps m (charge root tokens m)
charge-Keeps root tokens m = record {
  children = λ t. count_if-map_same (is_of_root t) _ m.runs (λ r. ground arith);
  limit = refl;
}

charge_usage-Keeps : (root : Text) (tokens : ℕ) (m : Manager) → Keeps m (charge_usage root tokens m)
unfolding charge_usage
charge_usage-Keeps root tokens m = elim (Bool-cases (tokens == 0)) [
  | inl zero_used ↦ rw (zero_used) (Keeps-self m)
  | inr used ↦ rw (used) (charge-Keeps root tokens m)
]

same_children : (m : Manager) (a b : Text) → text_eq a b ≡ true → children_of m a ≡ children_of m b
same_children m a b h = ap (λ t. children_of m t) (text_eq_sound a b h)

start-IsFew :
    (found : Bool) (rs rr p : Text) (m : Manager)
    → IsFew m
    → IsFew (settle m (start found rs rr p m))
unfolding start count_if
start-IsFew false rs rr p m w = w
start-IsFew true rs rr p m w =
    elim (Bool-cases (leb m.limits.max_children_per_root (count_if (is_of_root rr) m.runs))) [
      | inl full ↦ rw (full) w
      | inr free ↦ rw (free) (λ root. ground (arith, w root, same_children m rr root))
    ]

cancel_run-IsFew : (id : ℕ) (m : Manager) → IsFew m → IsFew (settle m (cancel_run id m))
unfolding cancel_run
cancel_run-IsFew id m w = elim (Option-cases (find_run id m.runs)) [
  | inl e ↦ rw (e, cancel_run) w
  | inr (r, e) ↦
      rw (e, cancel_run)
        (λ root. omega (
          arith,
          w root,
          count_if-modify_same (is_of_root root) (λ q. record q { is_cancelled = true }) id m.runs
              (λ q. refl),
        ))
]

apply-IsFew : (o : Op) (m : Manager) → IsFew m → IsFew (apply o m)
unfolding apply
apply-IsFew (starts found rs rr p) m w = start-IsFew found rs rr p m w
apply-IsFew (acquires id) m w = Keeps-IsFew m _ (acquire_slot-Keeps id m) w
apply-IsFew (releases id) m w = Keeps-IsFew m _ (release_slot-Keeps id m) w
apply-IsFew (cancels id) m w = cancel_run-IsFew id m w
apply-IsFew (ends id c) m w = Keeps-IsFew m _ (end_child-Keeps id c m) w
apply-IsFew (gives_up id) m w = Keeps-IsFew m _ (give_up-Keeps id m) w
apply-IsFew (spawn_acquires root) m w = Keeps-IsFew m _ (spawn_acquire-Keeps root m) w
apply-IsFew (spawn_releases root) m w = Keeps-IsFew m _ (spawn_release-Keeps root m) w
apply-IsFew (charges root tokens) m w = Keeps-IsFew m _ (charge_usage-Keeps root tokens m) w
apply-IsFew (updates l) m w = unfold update_limits in w

run-IsFew : (os : List Op) (m : Manager) → IsFew m → IsFew (run os m)
unfolding run
run-IsFew [] m w = w
run-IsFew (o ∷ os) m w = run-IsFew os (apply o m) (apply-IsFew o m w)

-- Through any steps and calls, also those that set the limits anew, `Start` has made no more runs of a
-- root than the manager's limit of children. The calls of `Spawn` are not runs and are not counted.
pub run-children :
    (l : Limits) (os : List Op) (root : Text)
    → let m = run os (new_manager l) in children_of m root ≤ m.limits.max_children_per_root
unfolding new_manager count_if
run-children l os root = run-IsFew os (new_manager l) (λ t. omega arith) root
