-- ===== src/Subagent/Manager/Finals.antt =====
-- internal/subagent: what becomes of one run through all later steps.
use foya.Prelude.{
  ℕ, ◌≡◌, refl, sym, ap, ◌∙◌, true, false, not, Option, none, some, List, [], ◌∷◌, arith, ◌==◌,
  count_if, if◌then◌else◌, Text, Bool-cases, Option-cases, inl, inr,
}
use foya.Subagent.Manager.{
  Run, Phase, waiting, blocked, working, finished, returned, Status, queued, running, completed,
  failed, interrupted, cancelled, Manager, find_run, Limits, new_manager, has_slot, take_slot,
  give_slot, block, begin_waiting, finish_state, acquire_slot, give_up, ChildEnd, end_status,
  end_child, release_slot, spawn_acquire, spawn_release,
}
use foya.Subagent.Manager.Usage.{cancel_run, charge, charge_usage, update_limits}
use foya.Subagent.Manager.Runs.{
  Op, starts, acquires, gives_up, releases, cancels, ends, spawn_acquires, spawn_releases, charges,
  updates, settle, apply, run,
}
use foya.Subagent.Manager.Slots.{by_own_id}
use foya.Subagent.Manager.Statuses.{
  is_final, stands, AllStand, found-stands, apply-AllStand, run-AllStand,
}
use foya.Subagent.Manager.Changes.{
  Follows, Follows-trans, Remains, Change, same-Change, modify-Change, map-Change, start-Change,
}

-- A run that has not finished has no final status.
is_queued-open : (s : Status) → not (stands waiting s) ≡ false → is_final s ≡ false
is_queued-open queued h = refl
is_queued-open running h = refl
is_queued-open completed h = cc
is_queued-open failed h = cc
is_queued-open cancelled h = cc
is_queued-open interrupted h = cc

is_running-open : (s : Status) → not (stands working s) ≡ false → is_final s ≡ false
is_running-open queued h = refl
is_running-open running h = refl
is_running-open completed h = cc
is_running-open failed h = cc
is_running-open cancelled h = cc
is_running-open interrupted h = cc

open-Follows :
    (q : Run) (status : Status) (phase : Phase)
    → is_final q.status ≡ false
    → Follows q (record q { status = status; phase = phase })
open-Follows q status phase h = record {
  root = refl;
  final = λ f. absurd (cc (sym h ∙ f));
  cancelled_still = λ c. c;
}

phase-Follows : (q : Run) (phase : Phase) → Follows q (record q { phase = phase })
phase-Follows q phase = record { root = refl; final = λ f. refl; cancelled_still = λ c. c }

begin_waiting-Change :
    (r : Run) (m : Manager)
    → find_run r.id m.runs ≡ some r
    → is_final r.status ≡ false
    → Change m (begin_waiting r m)
begin_waiting-Change r m e q = elim (Bool-cases (has_slot m r.root_run)) [
  | inl free ↦ rw (free) (
      modify-Change r.id _ r m (take_slot r m) e (λ x. refl) (open-Follows r running working q) refl
        refl)
  | inr full ↦
      rw (full)
        (modify-Change r.id _ r m (block r.id m) e (λ x. refl) (phase-Follows r blocked) refl refl)
]

waiting-open :
    (id : ℕ) (r : Run) (m : Manager) (p : Phase)
    → find_run id m.runs ≡ some r
    → AllStand m
    → r.phase ≡ p
    → not (stands p r.status) ≡ false
waiting-open id r m p e a w = sym (ap (λ x. not (stands x r.status)) w) ∙ found-stands id r m e a

-- A step of a run that is found, in whatever phase.
found-Change :
    (id : ℕ) (m : Manager) (f : Run → Manager)
    → ((r : Run) → find_run id m.runs ≡ some r → Change m (f r))
    → Change m (elim (find_run id m.runs) [ none ↦ m | some r ↦ f r ])
found-Change id m f h = go (find_run id m.runs) refl
  where
    go : (o : Option Run) → find_run id m.runs ≡ o → Change m (elim o [ none ↦ m | some r ↦ f r ])
    go none e = same-Change m m refl refl
    go (some r) e = h r e

acquire_slot-Change : (id : ℕ) (m : Manager) → AllStand m → Change m (acquire_slot id m)
unfolding acquire_slot
acquire_slot-Change id m a = found-Change id m _ (λ r e. go r e r.phase refl)
  where
    go :
        (r : Run)
        → find_run id m.runs ≡ some r
        → (p : Phase) → r.phase ≡ p
        → Change m (elim p [ waiting ↦ begin_waiting r m | blocked ↦ begin_waiting r m | _ ↦ m ])
    go r e waiting w =
        begin_waiting-Change r m (by_own_id id m r e)
          (is_queued-open r.status (waiting-open id r m waiting e a w))
    go r e blocked w =
        begin_waiting-Change r m (by_own_id id m r e)
          (is_queued-open r.status (waiting-open id r m blocked e a w))
    go r e working w = same-Change m m refl refl
    go r e finished w = same-Change m m refl refl
    go r e returned w = same-Change m m refl refl

give_up-Change : (id : ℕ) (m : Manager) → AllStand m → Change m (give_up id m)
unfolding give_up
give_up-Change id m a = found-Change id m _ (λ r e. go r e r.phase refl)
  where
    go :
        (r : Run)
        → find_run id m.runs ≡ some r
        → (p : Phase) → r.phase ≡ p
        → Change m (elim p [
          | blocked ↦ if r.is_cancelled then finish_state r.id cancelled returned m else m
          | _ ↦ m
        ])
    go r e blocked w = elim (Bool-cases r.is_cancelled) [
      | inl gone ↦ rw (gone) (
          modify-Change r.id _ r m (finish_state r.id cancelled returned m) (by_own_id id m r e)
            (λ x. refl)
            (open-Follows r cancelled returned
              (is_queued-open r.status (waiting-open id r m blocked e a w)))
            refl refl)
      | inr there ↦ rw (there) (same-Change m m refl refl)
    ]
    go r e waiting w = same-Change m m refl refl
    go r e working w = same-Change m m refl refl
    go r e finished w = same-Change m m refl refl
    go r e returned w = same-Change m m refl refl

end_child-Change : (id : ℕ) (c : ChildEnd) (m : Manager) → AllStand m → Change m (end_child id c m)
unfolding end_child
end_child-Change id c m a = found-Change id m _ (λ r e. go r e r.phase refl)
  where
    go :
        (r : Run)
        → find_run id m.runs ≡ some r
        → (p : Phase) → r.phase ≡ p
        → Change m (elim p [ working ↦ finish_state id (end_status c) finished m | _ ↦ m ])
    go r e working w =
        modify-Change id _ r m (finish_state id (end_status c) finished m) e (λ x. refl)
          (open-Follows r (end_status c) finished
            (is_running-open r.status (waiting-open id r m working e a w)))
          refl refl
    go r e waiting w = same-Change m m refl refl
    go r e blocked w = same-Change m m refl refl
    go r e finished w = same-Change m m refl refl
    go r e returned w = same-Change m m refl refl

release_slot-Change : (id : ℕ) (m : Manager) → Change m (release_slot id m)
unfolding release_slot
release_slot-Change id m = found-Change id m _ (λ r e. go r e r.phase)
  where
    go :
        (r : Run)
        → find_run id m.runs ≡ some r
        → (p : Phase) → Change m (elim p [ finished ↦ give_slot r m | _ ↦ m ])
    go r e finished =
        modify-Change r.id _ r m (give_slot r m) (by_own_id id m r e) (λ x. refl)
          (phase-Follows r returned) refl refl
    go r e waiting = same-Change m m refl refl
    go r e blocked = same-Change m m refl refl
    go r e working = same-Change m m refl refl
    go r e returned = same-Change m m refl refl

cancel_run-Change : (id : ℕ) (m : Manager) → Change m (settle m (cancel_run id m))
unfolding cancel_run
cancel_run-Change id m = elim (Option-cases (find_run id m.runs)) [
  | inl e ↦ rw (e, cancel_run) (same-Change m m refl refl)
  | inr (r, e) ↦
      rw (e, cancel_run)
        (modify-Change id (λ q. record q { is_cancelled = true }) r m _ e (λ x. refl)
          (record { root = refl; final = λ f. refl; cancelled_still = λ c. refl }) refl refl)
]

charge_usage-Change :
    (root : Text) (tokens : ℕ) (m : Manager) → Change m (charge_usage root tokens m)
unfolding charge_usage
charge_usage-Change root tokens m = elim (Bool-cases (tokens == 0)) [
  | inl zero_used ↦ rw (zero_used) (same-Change m m refl refl)
  | inr used ↦ rw (used) (
      map-Change _ m (charge root tokens m) (λ x. ground arith)
        (λ x. record {
          root = ground arith;
          final = λ f. ground arith;
          cancelled_still = λ c. ground (arith, c);
        })
        refl refl)
]

apply-Change : (o : Op) (m : Manager) → AllStand m → Change m (apply o m)
unfolding apply
apply-Change (starts found rs rr p) m a = start-Change found rs rr p m
apply-Change (acquires id) m a = acquire_slot-Change id m a
apply-Change (releases id) m a = release_slot-Change id m
apply-Change (cancels id) m a = cancel_run-Change id m
apply-Change (ends id c) m a = end_child-Change id c m a
apply-Change (gives_up id) m a = give_up-Change id m a
apply-Change (spawn_acquires root) m a =
    unfold spawn_acquire in same-Change m _ (ground arith) (ground arith)
apply-Change (spawn_releases root) m a =
    unfold spawn_release in same-Change m _ (ground arith) (ground arith)
apply-Change (charges root tokens) m a = charge_usage-Change root tokens m
apply-Change (updates l) m a = unfold update_limits in same-Change m _ refl refl

run-Change : (os : List Op) (m : Manager) → AllStand m → Change m (run os m)
unfolding run
run-Change [] m a = same-Change m m refl refl
run-Change (o ∷ os) m a =
    let c = apply-Change o m a in
    let d = run-Change os (apply o m) (apply-AllStand o m a) in
    record {
      given = λ g. d.given (c.given g);
      remains = λ id r e g.
          let (x, f, w) = c.remains id r e g in
          let (y, h, v) = d.remains id x f (c.given g) in (y, h, Follows-trans r x y w v);
    }

-- A run that `Start` has made is kept through any later steps and calls: it stays a run of its root, a
-- final status does not change any more, and a cancellation is not undone.
pub run-finals :
    (l : Limits) (os later : List Op) (id : ℕ) (r : Run)
    → find_run id (run os (new_manager l)).runs ≡ some r
    → Remains id r (run later (run os (new_manager l))).runs
unfolding new_manager count_if
run-finals l os later id r e =
    (run-Change later (run os (new_manager l)) (run-AllStand os (new_manager l) refl)).remains id r
      e ((run-Change os (new_manager l) refl).given refl)
