-- ===== src/Kernel/Turns/Control.antt =====
-- internal/kernel/queue.go: dispatch, cancellation, compaction, deletion, and the end of a turn.
use foya.Prelude.{
  ℕ, zero, suc, Bool, true, false, ◌&&◌, ◌||◌, not, Option, none, some, List, [], ◌∷◌, is_empty,
  ◌==◌, if◌then◌else◌, Text, text_eq, get_elem?,
}
use foya.Prelude.Map.{lookup, insert, delete}
use foya.Prelude.Result.{Result, ok, err}
use foya.Conversation.Message.{QueuedMessage, queue_input}
use foya.Kernel.Turns.{
  Error, Reason, Runner, Loop, Turns, queue, is_compacting, is_deleted, is_running, emit,
  broadcast_queue, set_queue, normalize_positions, start_loop, start_next, not_found,
  queued_message_not_found, session_busy, queue_dispatch, user_stop, session_deleted, run_input,
  cancel_engine, cancel_runner, cancel_and_wait,
}
use foya.Kernel.Turns.Edit.{queue_index, remove_at}

-- The selected item put at the head of the queue, where it is not there yet.
abbrev pub to_front : Text → ℕ → QueuedMessage → Turns → Turns
to_front s zero m k = k
to_front s (suc i) m k = record k {
  queues = insert s (normalize_positions (m ∷ remove_at (suc i) (queue k s))) k.queues;
}

abbrev pub head_or : QueuedMessage → List QueuedMessage → QueuedMessage
head_or m [] = m
head_or m (x ∷ xs) = x

abbrev pub set_stop : Text → Bool → Option Runner → Turns → Turns
set_stop s b none k = k
set_stop s b (some r) k = record k {
  runners = insert s (record r { stop_after_current = b }) k.runners;
}

abbrev pub cancel_both : Text → Reason → Turns → Turns
cancel_both s reason k = emit (cancel_runner s reason) (emit (cancel_engine s reason) k)

-- `DispatchQueuedMessage` once the item is found.
unfoldable pub dispatch_item : Text → ℕ → QueuedMessage → Turns → Turns × QueuedMessage
dispatch_item s index m k =
    let front = to_front s index m k in
    elim (lookup s k.runners) [
      | some r ↦ (
        cancel_both s queue_dispatch (broadcast_queue s (set_stop s false (some r) front)),
        head_or m (queue front s),
      )
      | none ↦
          if is_compacting k s
          then (
            emit (cancel_engine s queue_dispatch) (broadcast_queue s front),
            head_or m (queue front s),
          )
          else (
            start_loop s (queue_input m) (
                broadcast_queue s
                  (set_queue s (normalize_positions (remove_at index (queue k s))) k)),
            m,
          )
    ]

unfoldable pub dispatch_queued : Text → Text → Turns → Result Error (Turns × QueuedMessage)
unfolding dispatch_item
dispatch_queued s id k =
    if is_deleted k s then err not_found else elim (queue_index (queue k s) id) [
      | none ↦ err queued_message_not_found
      | some index ↦ elim (get_elem? (queue k s) index) [
        | none ↦ err queued_message_not_found
        | some m ↦ ok (dispatch_item s index m k)
      ]
    ]

-- `cancelCurrentTurn`.
unfoldable pub cancel_current_turn : Text → Turns → Turns
cancel_current_turn s k = elim (lookup s k.runners) [
  | some r ↦ cancel_both s user_stop (set_stop s true (some r) k)
  | none ↦ if is_compacting k s then emit (cancel_engine s user_stop) k else k
]

-- `CompactSession` up to the call of the engine, and after it.
unfoldable pub begin_compaction : Text → Turns → Result Error Turns
begin_compaction s k =
    if is_deleted k s
    then err not_found
    else if is_running k s || is_compacting k s
    then err session_busy
    else ok (record k { compacting = insert s true k.compacting })

unfoldable pub end_compaction : Text → Turns → Turns
end_compaction s k =
    let k' = record k { compacting = delete s k.compacting } in
    if is_deleted k s || is_empty (queue k s) then k' else start_next s k'

-- `stopSessionAndWait`.
unfoldable pub stop_session : Text → Turns → Turns
stop_session s k =
    let k' = record k { deleted = insert s tt k.deleted; queues = delete s k.queues } in
    elim (lookup s k.runners) [
      | some r ↦ cancel_both s session_deleted (set_stop s true (some r) k')
      | none ↦ emit (cancel_and_wait s) k'
    ]

-- The goroutine of a runner, gone.
unfoldable pub end_loop : Text → ℕ → List Loop → List Loop
end_loop s rid [] = []
end_loop s rid (l ∷ ls) =
    if text_eq l.session s && l.runner == rid then end_loop s rid ls else l ∷ end_loop s rid ls

abbrev pub drop_runner : Text → Turns → Turns
drop_runner s k = record k { runners = delete s k.runners }

-- The next round of the loop: the runner stays the one that it is.
abbrev pub continue_loop : Text → ℕ → Turns → Turns
continue_loop s rid k = elim (queue k s) [
  | [] ↦ drop_runner s k
  | m ∷ ms ↦
      let k' = broadcast_queue s (set_queue s (normalize_positions ms) k) in
      record k' {
        loops = record { session = s; runner = rid; input = queue_input m } ∷ k'.loops;
        effects = run_input s (queue_input m) ∷ k'.effects;
      }
]

-- `runTurnLoop` from the return of `RunInput` to the next call of it or to the loop's end;
-- `exists` is what `sessions.Get` says.
unfoldable pub finish_turn : Text → ℕ → Bool → Turns → Turns
unfolding end_loop
finish_turn s rid exists k =
    let k' = record k { loops = end_loop s rid k.loops } in
    elim (lookup s k.runners) [
      | none ↦ k'
      | some r ↦
          if not (r.id == rid)
          then k'
          else if r.stop_after_current || not exists
          then drop_runner s k'
          else continue_loop s rid k'
    ]
