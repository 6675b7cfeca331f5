-- ===== src/Subagent/Manager/Statuses.antt =====
-- internal/subagent: the status of a run and where its goroutine stands.
use foya.Prelude.{
  ℕ, ◌≡◌, refl, sym, ap, ◌∙◌, Bool, true, false, not, some, List, [], ◌∷◌, arith, ◌==◌, count_if,
  leb, Text, text_eq, Bool-cases, exists, if◌then◌else◌, Option-cases, inl, inr,
}
use foya.Subagent.Manager.{
  Run, Phase, waiting, blocked, working, finished, returned, Status, queued, running, Manager,
  find_run, modify_run, is_of_root, Limits, new_manager, start, has_slot, give_slot, begin_waiting,
  finish_state, acquire_slot, ChildEnd, succeeds, fails_cancelled, fails, end_status, end_child,
  release_slot, cancelled, give_up, spawn_acquire, spawn_release,
}
use foya.Subagent.Manager.Usage.{cancel_run, charge, charge_usage, update_limits}
use foya.Subagent.Manager.Counts.{
  bit, count_if-modify_run, count_if-modify_same, count_if-map_same, count_if-find_run,
}
use foya.Subagent.Manager.Slots.{by_own_id}
use foya.Subagent.Manager.Runs.{
  Op, starts, acquires, gives_up, releases, cancels, ends, spawn_acquires, spawn_releases, charges,
  updates, settle, apply, run,
}

abbrev pub is_final : Status → Bool
is_final queued = false
is_final running = false
is_final _ = true

abbrev pub is_queued : Status → Bool
is_queued queued = true
is_queued _ = false

-- The status of a goroutine that stands there.
abbrev pub stands : Phase → Status → Bool
stands waiting s = is_queued s
stands blocked s = is_queued s
stands working running = true
stands working _ = false
stands finished s = is_final s
stands returned s = is_final s

abbrev pub is_odd : Run → Bool
is_odd r = not (stands r.phase r.status)

abbrev pub AllStand : Manager → Type 0
AllStand m = count_if is_odd m.runs ≡ 0

modify-AllStand :
    (f : Run → Run) (id : ℕ) (r : Run) (m : Manager)
    → find_run id m.runs ≡ some r
    → is_odd (f r) ≡ false
    → AllStand m
    → count_if is_odd (modify_run id f m.runs) ≡ 0
modify-AllStand f id r m e h a =
    omega (arith, count_if-modify_run is_odd f id m.runs r e, ap bit h, a)

pub found-stands :
    (id : ℕ) (r : Run) (m : Manager) → find_run id m.runs ≡ some r → AllStand m → is_odd r ≡ false
found-stands id r m e a = elim (Bool-cases (is_odd r)) [
  | inl odd ↦ absurd (omega (arith, count_if-find_run is_odd id m.runs r e odd, a))
  | inr even ↦ even
]

begin_waiting-AllStand :
    (r : Run) (m : Manager)
    → find_run r.id m.runs ≡ some r
    → not (is_queued r.status) ≡ false
    → AllStand m
    → AllStand (begin_waiting r m)
begin_waiting-AllStand r m e q a = elim (Bool-cases (has_slot m r.root_run)) [
  | inl free ↦ rw (free) (modify-AllStand _ r.id r m e refl a)
  | inr full ↦ rw (full) (modify-AllStand _ r.id r m e q a)
]

acquire_slot-AllStand : (id : ℕ) (m : Manager) → AllStand m → AllStand (acquire_slot id m)
unfolding acquire_slot
acquire_slot-AllStand id m a = elim (Option-cases (find_run id m.runs)) [
  | inl e ↦ rw (e, acquire_slot) a
  | inr (r, e) ↦ rw (e, acquire_slot) (go r e r.phase refl)
]
  where
    go :
        (r : Run)
        → find_run id m.runs ≡ some r
        → (p : Phase) → r.phase ≡ p
        → AllStand (elim p [ waiting ↦ begin_waiting r m | blocked ↦ begin_waiting r m | _ ↦ m ])
    go r e waiting w =
        begin_waiting-AllStand r m (by_own_id id m r e)
          (sym (ap (λ x. not (stands x r.status)) w) ∙ found-stands id r m e a) a
    go r e blocked w =
        begin_waiting-AllStand r m (by_own_id id m r e)
          (sym (ap (λ x. not (stands x r.status)) w) ∙ found-stands id r m e a) a
    go r e working w = a
    go r e finished w = a
    go r e returned w = a

give_up-AllStand : (id : ℕ) (m : Manager) → AllStand m → AllStand (give_up id m)
unfolding give_up
give_up-AllStand id m a = elim (Option-cases (find_run id m.runs)) [
  | inl e ↦ rw (e, give_up) a
  | inr (r, e) ↦ rw (e, give_up) (go r e r.phase)
]
  where
    go :
        (r : Run)
        → find_run id m.runs ≡ some r
        → (p : Phase)
        → AllStand (elim p [
          | blocked ↦ if r.is_cancelled then finish_state r.id cancelled returned m else m
          | _ ↦ m
        ])
    go r e waiting = a
    go r e blocked = elim (Bool-cases r.is_cancelled) [
      | inl gone ↦ rw (gone) (modify-AllStand _ r.id r m (by_own_id id m r e) refl a)
      | inr there ↦ rw (there) a
    ]
    go r e working = a
    go r e finished = a
    go r e returned = a

spawn_acquire-AllStand : (root : Text) (m : Manager) → AllStand m → AllStand (spawn_acquire root m)
unfolding spawn_acquire
spawn_acquire-AllStand root m a = elim (Bool-cases (has_slot m root)) [
  | inl free ↦ rw (free) a
  | inr full ↦ rw (full) a
]

spawn_release-AllStand : (root : Text) (m : Manager) → AllStand m → AllStand (spawn_release root m)
unfolding spawn_release
spawn_release-AllStand root m a = elim (Bool-cases (exists (λ t. text_eq t root) m.spawned)) [
  | inl there ↦ rw (there) a
  | inr nobody ↦ rw (nobody) a
]

end_status-final : (c : ChildEnd) → is_final (end_status c) ≡ true
end_status-final succeeds = refl
end_status-final fails_cancelled = refl
end_status-final fails = refl

end_child-AllStand :
    (id : ℕ) (c : ChildEnd) (m : Manager) → AllStand m → AllStand (end_child id c m)
unfolding end_child
end_child-AllStand id c m a = elim (Option-cases (find_run id m.runs)) [
  | inl e ↦ rw (e, end_child) a
  | inr (r, e) ↦ rw (e, end_child) (go r e r.phase)
]
  where
    go :
        (r : Run)
        → find_run id m.runs ≡ some r
        → (p : Phase)
        → AllStand (elim p [ working ↦ finish_state id (end_status c) finished m | _ ↦ m ])
    go r e working = modify-AllStand _ id r m e (ap not (end_status-final c)) a
    go r e waiting = a
    go r e blocked = a
    go r e finished = a
    go r e returned = a

finished-final : (r : Run) → r.phase ≡ finished → is_odd r ≡ false → not (is_final r.status) ≡ false
finished-final r p h = sym (ap (λ x. not (stands x r.status)) p) ∙ h

release_slot-AllStand : (id : ℕ) (m : Manager) → AllStand m → AllStand (release_slot id m)
unfolding release_slot
release_slot-AllStand id m a = elim (Option-cases (find_run id m.runs)) [
  | inl e ↦ rw (e, release_slot) a
  | inr (r, e) ↦ rw (e, release_slot) (go r e r.phase refl)
]
  where
    go :
        (r : Run)
        → find_run id m.runs ≡ some r
        → (p : Phase) → r.phase ≡ p
        → AllStand (elim p [ finished ↦ give_slot r m | _ ↦ m ])
    go r e finished w =
        modify-AllStand _ r.id r m (by_own_id id m r e)
          (finished-final r w (found-stands id r m e a)) a
    go r e waiting w = a
    go r e blocked w = a
    go r e working w = a
    go r e returned w = a

start-AllStand :
    (found : Bool) (rs rr p : Text) (m : Manager)
    → AllStand m
    → AllStand (settle m (start found rs rr p m))
unfolding start count_if
start-AllStand false rs rr p m a = a
start-AllStand true rs rr p m a =
    elim (Bool-cases (leb m.limits.max_children_per_root (count_if (is_of_root rr) m.runs))) [
      | inl full ↦ rw (full) a
      | inr free ↦ rw (free) a
    ]

cancel_run-AllStand : (id : ℕ) (m : Manager) → AllStand m → AllStand (settle m (cancel_run id m))
unfolding cancel_run
cancel_run-AllStand id m a = elim (Option-cases (find_run id m.runs)) [
  | inl e ↦ rw (e, cancel_run) a
  | inr (r, e) ↦ rw (e, cancel_run) (count_if-modify_same is_odd _ id m.runs (λ q. refl) ∙ a)
]

charge-AllStand :
    (root : Text) (tokens : ℕ) (m : Manager) → AllStand m → AllStand (charge root tokens m)
charge-AllStand root tokens m a = count_if-map_same is_odd _ m.runs (λ r. ground arith) ∙ a

charge_usage-AllStand :
    (root : Text) (tokens : ℕ) (m : Manager) → AllStand m → AllStand (charge_usage root tokens m)
unfolding charge_usage
charge_usage-AllStand root tokens m a = elim (Bool-cases (tokens == 0)) [
  | inl zero_used ↦ rw (zero_used) a
  | inr used ↦ rw (used) (charge-AllStand root tokens m a)
]

pub apply-AllStand : (o : Op) (m : Manager) → AllStand m → AllStand (apply o m)
unfolding apply
apply-AllStand (starts found rs rr p) m a = start-AllStand found rs rr p m a
apply-AllStand (acquires id) m a = acquire_slot-AllStand id m a
apply-AllStand (releases id) m a = release_slot-AllStand id m a
apply-AllStand (cancels id) m a = cancel_run-AllStand id m a
apply-AllStand (ends id c) m a = end_child-AllStand id c m a
apply-AllStand (gives_up id) m a = give_up-AllStand id m a
apply-AllStand (spawn_acquires root) m a = spawn_acquire-AllStand root m a
apply-AllStand (spawn_releases root) m a = spawn_release-AllStand root m a
apply-AllStand (charges root tokens) m a = charge_usage-AllStand root tokens m a
apply-AllStand (updates l) m a = unfold update_limits in a

pub run-AllStand : (os : List Op) (m : Manager) → AllStand m → AllStand (run os m)
unfolding run
run-AllStand [] m a = a
run-AllStand (o ∷ os) m a = run-AllStand os (apply o m) (apply-AllStand o m a)

-- Through any steps and calls, the status of every run says where its goroutine stands: queued while it
-- waits for a slot, running while the child runs, and final from then on.
pub run-statuses : (l : Limits) (os : List Op) → count_if is_odd (run os (new_manager l)).runs ≡ 0
unfolding new_manager count_if
run-statuses l os = run-AllStand os (new_manager l) refl
