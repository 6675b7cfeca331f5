-- ===== src/Kernel/Turns/Submit.antt =====
-- internal/kernel/queue.go: how a message gets into a session's queue, or starts a turn.
use foya.Prelude.{ℕ, ◌||◌, Option, none, some, length, is_empty, if◌then◌else◌, Text}
use foya.Prelude.Result.{Result, ok, err}
use foya.Conversation.Message.{UserInput, QueuedMessage, new_queued_message}
use foya.Kernel.Turns.{
  Error, Turns, queue, is_compacting, is_deleted, is_running, broadcast_queue, append_item,
  start_loop, start_next, not_found,
}

pub data Status : Type 0 where
  started queued : Status

pub record Submission : Type 0 where
  pub status : Status
  pub item : Option QueuedMessage

-- `SubmitInput` from its lock on; `id` and `now` are those of the new item.
unfoldable pub submit : Text → UserInput → Text → ℕ → Turns → Result Error (Turns × Submission)
unfolding new_queued_message
submit s input id now k =
    let item = new_queued_message id now s input (length (queue k s)) in
    if is_deleted k s
    then err not_found
    else if is_running k s || is_compacting k s
    then ok (broadcast_queue s (append_item s item k), record { status = queued; item = some item })
    else if is_empty (queue k s)
    then ok (start_loop s input k, record { status = started; item = none })
    else ok (start_next s (append_item s item k), record { status = queued; item = some item })

-- `EnqueueInput` from its lock on.
unfoldable pub enqueue : Text → UserInput → Text → ℕ → Turns → Result Error (Turns × QueuedMessage)
unfolding new_queued_message
enqueue s input id now k =
    let item = new_queued_message id now s input (length (queue k s)) in
    if is_deleted k s then err not_found else ok (broadcast_queue s (append_item s item k), item)
