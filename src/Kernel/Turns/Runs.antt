-- ===== src/Kernel/Turns/Runs.antt =====
-- internal/kernel/queue.go: the handlers in any order, as the requests, the turns and the compactions
-- of many goroutines take the lock.
use foya.Prelude.{
  ℕ, ◌≡◌, ◌≤◌, refl, ap, inl, inr, Bool, true, false, Option, none, some, List, [], ◌∷◌, length,
  arith, if◌then◌else◌, Text, Bool-cases, ℤ,
}
use foya.Prelude.Map.{lookup}
use foya.Conversation.Message.{UserInput}
use foya.Kernel.Turns.{
  Runner, Loop, Turns, new_turn_scheduler, is_some, is_compacting, is_running, positions_from,
}
use foya.Kernel.Turns.Submit.{submit, enqueue}
use foya.Kernel.Turns.Edit.{update_queued, delete_queued}
use foya.Kernel.Turns.Control.{
  dispatch_queued, cancel_current_turn, begin_compaction, end_compaction, stop_session, finish_turn,
}
use foya.Kernel.Turns.Valid.{loops_of, Owns, Ok, IsValid}
use foya.Kernel.Turns.Steps.{settle, settle_only}
use foya.Kernel.Turns.Steps.{
  submit-IsValid, enqueue-IsValid, update_queued-IsValid, delete_queued-IsValid,
  dispatch_queued-IsValid, cancel_current_turn-IsValid,
}
use foya.Kernel.Turns.Ends.{finish_turn-IsValid}
use foya.Kernel.Turns.Stops.{begin_compaction-IsValid, end_compaction-IsValid, stop_session-IsValid}

-- One critical section; the identifier and the time of a new item are the caller's.
pub data Op : Type 0 where
  submits enqueues : Text → UserInput → Text → ℕ → Op
  updates : Text → Text → Option Text → Option ℤ → ℕ → Op
  deletes dispatches : Text → Text → Op
  cancels begins_compaction ends_compaction stops : Text → Op
  finishes : Text → ℕ → Bool → Op

-- A compaction ends only where one has begun.
unfoldable pub apply : Op → Turns → Turns
apply (submits s input id now) k = settle k (submit s input id now k)
apply (enqueues s input id now) k = settle k (enqueue s input id now k)
apply (updates s id content position now) k = settle k (update_queued s id content position now k)
apply (deletes s id) k = settle_only k (delete_queued s id k)
apply (dispatches s id) k = settle k (dispatch_queued s id k)
apply (cancels s) k = cancel_current_turn s k
apply (begins_compaction s) k = settle_only k (begin_compaction s k)
apply (ends_compaction s) k = if is_compacting k s then end_compaction s k else k
apply (stops s) k = stop_session s k
apply (finishes s rid exists) k = finish_turn s rid exists k

unfoldable pub run : List Op → Turns → Turns
unfolding apply
run [] k = k
run (o ∷ os) k = run os (apply o k)

apply-IsValid : (o : Op) (k : Turns) → IsValid k → IsValid (apply o k)
unfolding apply
apply-IsValid (submits s input id now) k v = submit-IsValid s input id now k v
apply-IsValid (enqueues s input id now) k v = enqueue-IsValid s input id now k v
apply-IsValid (updates s id content position now) k v =
    update_queued-IsValid s id content position now k v
apply-IsValid (deletes s id) k v = delete_queued-IsValid s id k v
apply-IsValid (dispatches s id) k v = dispatch_queued-IsValid s id k v
apply-IsValid (cancels s) k v = cancel_current_turn-IsValid s k v
apply-IsValid (begins_compaction s) k v = begin_compaction-IsValid s k v
apply-IsValid (ends_compaction s) k v = elim (Bool-cases (is_compacting k s)) [
  | inl busy ↦ rw (busy) (end_compaction-IsValid s k busy v)
  | inr free ↦ rw (free) v
]
apply-IsValid (stops s) k v = stop_session-IsValid s k v
apply-IsValid (finishes s rid exists) k v = finish_turn-IsValid s rid exists k v

run-IsValid : (os : List Op) (k : Turns) → IsValid k → IsValid (run os k)
unfolding run
run-IsValid [] k v = v
run-IsValid (o ∷ os) k v = run-IsValid os (apply o k) (apply-IsValid o k v)

new-IsValid : IsValid new_turn_scheduler
unfolding new_turn_scheduler lookup loops_of positions_from
new-IsValid = record {
  ok_at = λ s. record {
    owned = refl;
    exclusive = λ h. cc;
    numbered = refl;
    stored = λ e. cc;
    deleted_empty = λ h. refl;
    deleted_stops = λ h. tt;
  };
}

pub run-new-IsValid : (os : List Op) → IsValid (run os new_turn_scheduler)
run-new-IsValid os = run-IsValid os new_turn_scheduler new-IsValid

Owns-one : (s : Text) (r : Option Runner) (ls : List Loop) → Owns s r ls → length ls ≤ 1
Owns-one s none ls o = omega (arith, ap length o)
Owns-one s (some r) ls (input, o) = omega (arith, ap length o)

Owns-none :
    (s : Text) (r : Option Runner) (ls : List Loop) → Owns s r ls → is_some r ≡ false → ls ≡ []
Owns-none s none ls o h = o
Owns-none s (some r) ls o h = cc

-- Whatever the order of requests, at most one turn of a session runs at a time, and none while the
-- session is compacted.
pub run-exclusive :
    (os : List Op) (s : Text)
    → let k = run os new_turn_scheduler in
      (length (loops_of s k.loops) ≤ 1) × (is_compacting k s ≡ true → loops_of s k.loops ≡ [])
run-exclusive os s =
    let k = run os new_turn_scheduler in
    let o = (run-new-IsValid os).ok_at s in
    (
      Owns-one s (lookup s k.runners) (loops_of s k.loops) o.owned,
      λ busy. Owns-none s (lookup s k.runners) (loops_of s k.loops) o.owned (idle k o busy),
    )
  where
    idle : (k : Turns) → Ok k s → is_compacting k s ≡ true → is_running k s ≡ false
    idle k o busy = elim (Bool-cases (is_running k s)) [
      | inl running ↦ cc (o.exclusive running)
      | inr no_runner ↦ no_runner
    ]
