-- ===== src/Kernel/Turns/Edit.antt =====
-- internal/kernel/queue.go: the queue listed, edited and shortened.
use foya.Prelude.{
  ℕ, zero, suc, Bool, true, false, Option, none, some, List, [], ◌∷◌, length, is_empty, leb, ◌==◌,
  if◌then◌else◌, Text, text_eq, trim_space, get_elem?, ℤ, pos, negsuc,
}
use mathlib.Core.Option
use foya.Prelude.Map.{insert}
use foya.Prelude.Result.{Result, ok, err, ◌>>=◌}
use foya.Conversation.Message.{QueuedMessage}
use foya.Kernel.Turns.{
  Error, Turns, queue, is_deleted, broadcast_queue, set_queue, normalize_positions, not_found,
  queued_message_not_found, empty_message, invalid_queue_position,
}

-- `ListQueuedMessages`.
unfoldable pub list_queued : Text → Turns → Result Error (List QueuedMessage)
list_queued s k = if is_deleted k s then err not_found else ok (queue k s)

-- `queueIndex`, with `none` for -1.
unfoldable pub queue_index : List QueuedMessage → Text → Option ℕ
queue_index [] id = none
queue_index (m ∷ ms) id = if text_eq m.id id then some 0 else Option.map suc (queue_index ms id)

abbrev pub remove_at : ℕ → List QueuedMessage → List QueuedMessage
remove_at i [] = []
remove_at zero (m ∷ ms) = ms
remove_at (suc i) (m ∷ ms) = m ∷ remove_at i ms

abbrev pub insert_at : ℕ → QueuedMessage → List QueuedMessage → List QueuedMessage
insert_at zero m ms = m ∷ ms
insert_at (suc i) m [] = m ∷ []
insert_at (suc i) m (x ∷ ms) = x ∷ insert_at i m ms

abbrev pub modify_at : ℕ → (QueuedMessage → QueuedMessage) → List QueuedMessage → List QueuedMessage
modify_at i f [] = []
modify_at zero f (m ∷ ms) = f m ∷ ms
modify_at (suc i) f (m ∷ ms) = m ∷ modify_at i f ms

abbrev pub set_content : Text → ℕ → QueuedMessage → QueuedMessage
set_content content now m = record m { content = content; updated_at = now }

abbrev pub touch : ℕ → QueuedMessage → QueuedMessage
touch now m = record m { updated_at = now }

-- `*position < 0 || *position >= len(items)`.
abbrev pub out_of_range : Option ℤ → ℕ → Bool
out_of_range none n = false
out_of_range (some (pos p)) n = leb n p
out_of_range (some (negsuc p)) n = true

abbrev pub edit_text : Option Text → ℕ → ℕ → List QueuedMessage → Result Error (List QueuedMessage)
edit_text none index now items = ok items
edit_text (some t) index now items =
    if is_empty (trim_space t)
    then err empty_message
    else ok (modify_at index (set_content (trim_space t) now) items)

-- The items with the one at `index` moved to the position, and where it then is.
abbrev pub move_item : Option ℤ → ℕ → ℕ → List QueuedMessage → List QueuedMessage × ℕ
move_item none index now items = (items, index)
move_item (some (negsuc p)) index now items = (items, index)
move_item (some (pos p)) index now items =
    if p == index then (items, index) else elim (get_elem? items index) [
      | none ↦ (items, index)
      | some m ↦ (insert_at p (touch now m) (remove_at index items), p)
    ]

-- The end of `UpdateQueuedMessage`; the item at `index` is there.
abbrev pub commit_items :
    Text → List QueuedMessage × ℕ → Turns → Result Error (Turns × QueuedMessage)
commit_items s (items, index) k = elim (get_elem? (normalize_positions items) index) [
  | none ↦ err queued_message_not_found
  | some m ↦
      ok
        (broadcast_queue s (record k { queues = insert s (normalize_positions items) k.queues }), m)
]

-- `UpdateQueuedMessage` from its lock on.
unfoldable pub update_queued :
    Text → Text → Option Text → Option ℤ → ℕ → Turns → Result Error (Turns × QueuedMessage)
update_queued s id content position now k =
    if is_deleted k s then err not_found else elim (queue_index (queue k s) id) [
      | none ↦ err queued_message_not_found
      | some index ↦
          if out_of_range position (length (queue k s))
          then err invalid_queue_position
          else edit_text content index now (queue k s) >>= λ items.
              commit_items s (move_item position index now items) k
    ]

-- `DeleteQueuedMessage` from its lock on.
unfoldable pub delete_queued : Text → Text → Turns → Result Error Turns
delete_queued s id k = if is_deleted k s then err not_found else elim (queue_index (queue k s) id) [
  | none ↦ err queued_message_not_found
  | some index ↦
      ok (broadcast_queue s (set_queue s (normalize_positions (remove_at index (queue k s))) k))
]
