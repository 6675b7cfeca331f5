-- ===== src/Subagent/Manager/Slots.antt =====
-- internal/subagent: the two counters of slots under the steps of a run.
use foya.Prelude.{
  ℕ, ◌+◌, ◌-◌, ◌≡◌, refl, sym, ap, ◌∙◌, true, false, some, arith, length, count_if, if◌then◌else◌,
  Text, text_eq, text_eq_sound, ==_iff, Bool-cases, Option-cases, inl, inr,
}
use foya.Prelude.Map.{Map, lookup, lookup-insert, lookup-delete}
use foya.Subagent.Manager.{
  Run, Phase, waiting, blocked, working, finished, returned, Status, running, cancelled, Manager,
  find_run, or_zero, active_of, take_slot, give_slot, drop_active, has_slot, finish_state,
  begin_waiting, block, give_up, acquire_slot, ChildEnd, end_status, end_child, release_slot,
}
use foya.Subagent.Manager.Counts.{
  bit, has_slot_in, holds, holds_of, holders, holders_of, count_if-modify_run, find_run-id,
}

-- The two counters count the runs and the calls of `Spawn` that have a slot.
pub record IsValid (m : Manager) : Type 0 where
  pub total : m.global_active ≡ holders m
  pub each : (root : Text) → active_of m root ≡ holders_of m root

pub by_own_id :
    (id : ℕ) (m : Manager) (r : Run) → find_run id m.runs ≡ some r → find_run r.id m.runs ≡ some r
by_own_id id m r e = ap (λ i. find_run i m.runs) (find_run-id id m.runs r e) ∙ e

pub same_active : (m : Manager) (a b : Text) → text_eq a b ≡ true → active_of m a ≡ active_of m b
same_active m a b h = ap (λ t. active_of m t) (text_eq_sound a b h)

pub lookup-drop_active :
    (k j : Text) (n : ℕ) (active : Map ℕ)
    → or_zero (lookup j (drop_active k n active))
      ≡ (if text_eq k j then n - 1 else or_zero (lookup j active))
lookup-drop_active k j n active =
    ground (arith, lookup-insert k j (n - 1) active, lookup-delete k j active, ==_iff n 1)

take_slot-IsValid :
    (r : Run) (m : Manager)
    → find_run r.id m.runs ≡ some r
    → has_slot_in r.phase ≡ false
    → IsValid m
    → IsValid (take_slot r m)
take_slot-IsValid r m e w v = record {
  total = omega (
    arith,
    v.total,
    count_if-modify_run holds (λ q. record q { status = running; phase = working }) r.id m.runs r e,
    ap bit w,
  );
  each = λ root. ground (
    arith,
    lookup-insert r.root_run root (active_of m r.root_run + 1) m.root_active,
    v.each root,
    count_if-modify_run (holds_of root) (λ q. record q { status = running; phase = working }) r.id
        m.runs r e,
    w,
    same_active m r.root_run root,
  );
}

give_slot-IsValid :
    (r : Run) (m : Manager)
    → find_run r.id m.runs ≡ some r
    → r.phase ≡ finished
    → IsValid m
    → IsValid (give_slot r m)
give_slot-IsValid r m e w v = record {
  total = omega (
    arith,
    v.total,
    count_if-modify_run holds (λ q. record q { phase = returned }) r.id m.runs r e,
    ap (λ p. bit (has_slot_in p)) w,
  );
  each = λ root. ground (
    arith,
    lookup-drop_active r.root_run root (active_of m r.root_run) m.root_active,
    v.each root,
    count_if-modify_run (holds_of root) (λ q. record q { phase = returned }) r.id m.runs r e,
    ap has_slot_in w,
    same_active m r.root_run root,
  );
}

-- What changes neither the counters nor who has a slot.
pub recount :
    (m m' : Manager)
    → m'.global_active ≡ m.global_active
    → m'.root_active ≡ m.root_active
    → m'.spawned ≡ m.spawned
    → count_if holds m'.runs ≡ count_if holds m.runs
    → ((root : Text) → count_if (holds_of root) m'.runs ≡ count_if (holds_of root) m.runs)
    → IsValid m
    → IsValid m'
recount m m' g a sp h k v = record {
  total = omega (arith, g, v.total, h, ap length sp);
  each = λ root. omega (
    arith,
    ap (λ x. or_zero (lookup root x)) a,
    v.each root,
    k root,
    ap (count_if (λ t. text_eq t root)) sp,
  );
}

finish_state-IsValid :
    (id : ℕ) (status : Status) (phase : Phase) (r : Run) (m : Manager)
    → find_run id m.runs ≡ some r
    → has_slot_in phase ≡ holds r
    → IsValid m
    → IsValid (finish_state id status phase m)
finish_state-IsValid id status phase r m e h v = record {
  total = omega (
    arith,
    v.total,
    count_if-modify_run holds (λ q. record q { status = status; phase = phase }) id m.runs r e,
    ap bit h,
  );
  each = λ root. ground (
    arith,
    v.each root,
    count_if-modify_run (holds_of root) (λ q. record q { status = status; phase = phase }) id m.runs
        r e,
  );
}

block-IsValid :
    (id : ℕ) (r : Run) (m : Manager)
    → find_run id m.runs ≡ some r
    → has_slot_in r.phase ≡ false
    → IsValid m
    → IsValid (block id m)
block-IsValid id r m e h v = record {
  total = omega (
    arith,
    v.total,
    count_if-modify_run holds (λ q. record q { phase = blocked }) id m.runs r e,
    ap bit h,
  );
  each = λ root. ground (
    arith,
    v.each root,
    count_if-modify_run (holds_of root) (λ q. record q { phase = blocked }) id m.runs r e,
    h,
  );
}

begin_waiting-IsValid :
    (r : Run) (m : Manager)
    → find_run r.id m.runs ≡ some r
    → has_slot_in r.phase ≡ false
    → IsValid m
    → IsValid (begin_waiting r m)
begin_waiting-IsValid r m e w v = elim (Bool-cases (has_slot m r.root_run)) [
  | inl free ↦ rw (free) (take_slot-IsValid r m e w v)
  | inr full ↦ rw (full) (block-IsValid r.id r m e w v)
]

pub acquire_slot-IsValid : (id : ℕ) (m : Manager) → IsValid m → IsValid (acquire_slot id m)
unfolding acquire_slot
acquire_slot-IsValid id m v = elim (Option-cases (find_run id m.runs)) [
  | inl e ↦ rw (e, acquire_slot) v
  | inr (r, e) ↦ rw (e, acquire_slot) (go r e r.phase refl)
]
  where
    go :
        (r : Run)
        → find_run id m.runs ≡ some r
        → (p : Phase) → r.phase ≡ p
        → IsValid (elim p [ waiting ↦ begin_waiting r m | blocked ↦ begin_waiting r m | _ ↦ m ])
    go r e waiting w = begin_waiting-IsValid r m (by_own_id id m r e) (ap has_slot_in w) v
    go r e blocked w = begin_waiting-IsValid r m (by_own_id id m r e) (ap has_slot_in w) v
    go r e working w = v
    go r e finished w = v
    go r e returned w = v

pub give_up-IsValid : (id : ℕ) (m : Manager) → IsValid m → IsValid (give_up id m)
unfolding give_up
give_up-IsValid id m v = elim (Option-cases (find_run id m.runs)) [
  | inl e ↦ rw (e, give_up) v
  | inr (r, e) ↦ rw (e, give_up) (go r e r.phase refl)
]
  where
    go :
        (r : Run)
        → find_run id m.runs ≡ some r
        → (p : Phase) → r.phase ≡ p
        → IsValid (elim p [
          | blocked ↦ if r.is_cancelled then finish_state r.id cancelled returned m else m
          | _ ↦ m
        ])
    go r e waiting w = v
    go r e blocked w = elim (Bool-cases r.is_cancelled) [
      | inl gone ↦ rw (gone) (
          finish_state-IsValid r.id cancelled returned r m (by_own_id id m r e)
            (sym (ap has_slot_in w)) v)
      | inr there ↦ rw (there) v
    ]
    go r e working w = v
    go r e finished w = v
    go r e returned w = v

pub end_child-IsValid :
    (id : ℕ) (c : ChildEnd) (m : Manager) → IsValid m → IsValid (end_child id c m)
unfolding end_child
end_child-IsValid id c m v = elim (Option-cases (find_run id m.runs)) [
  | inl e ↦ rw (e, end_child) v
  | inr (r, e) ↦ rw (e, end_child) (go r e r.phase refl)
]
  where
    go :
        (r : Run)
        → find_run id m.runs ≡ some r
        → (p : Phase) → r.phase ≡ p
        → IsValid (elim p [ working ↦ finish_state id (end_status c) finished m | _ ↦ m ])
    go r e working w =
        finish_state-IsValid id (end_status c) finished r m e (sym (ap has_slot_in w)) v
    go r e waiting w = v
    go r e blocked w = v
    go r e finished w = v
    go r e returned w = v

pub release_slot-IsValid : (id : ℕ) (m : Manager) → IsValid m → IsValid (release_slot id m)
unfolding release_slot
release_slot-IsValid id m v = elim (Option-cases (find_run id m.runs)) [
  | inl e ↦ rw (e, release_slot) v
  | inr (r, e) ↦ rw (e, release_slot) (go r e r.phase refl)
]
  where
    go :
        (r : Run)
        → find_run id m.runs ≡ some r
        → (p : Phase) → r.phase ≡ p
        → IsValid (elim p [ finished ↦ give_slot r m | _ ↦ m ])
    go r e finished w = give_slot-IsValid r m (by_own_id id m r e) w v
    go r e waiting w = v
    go r e blocked w = v
    go r e working w = v
    go r e returned w = v
