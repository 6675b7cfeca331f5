-- ===== src/Kernel/Turns.antt =====
-- internal/kernel/queue.go: the turn scheduler. The state is what `turnScheduler` holds, with the
-- goroutines that run a turn loop and a record of the calls that the handlers make of the engine and
-- of the event log. Each definition is what happens between one `mu.Lock` and its `Unlock`, and what
-- the same goroutine does right after.
pub mod Submit
pub mod Edit
pub mod Control
pub mod Valid
pub mod Steps
pub mod Ends
pub mod Stops
pub mod Runs
pub mod Order
pub mod Fifo
pub mod Dispatch
mod Examples
use foya.Prelude.{
  ℕ, zero, suc, ◌+◌, ◌≡◌, refl, Bool, true, false, ◌&&◌, ◌||◌, not, Option, none, some, List, [],
  ◌∷◌, ◌++◌, length, is_empty, leb, ltb, ◌==◌, if◌then◌else◌, Text, text_eq, trim_space, get_elem?,
  ℤ, pos, negsuc,
}
use mathlib.Core.Option
use foya.Prelude.Map.{Map, lookup, insert, delete}
use foya.Prelude.Result.{Result, ok, err, ◌>>=◌, ◌>>◌, reject_if}
use foya.Conversation.Message.{UserInput, QueuedMessage, new_queued_message, queue_input}

pub data Error : Type 0 where
  not_found : Error
  queued_message_not_found : Error
  empty_message : Error
  invalid_queue_position : Error
  session_busy : Error
  session_queue_not_empty : Error

-- Why a turn is cancelled.
pub data Reason : Type 0 where
  queue_dispatch user_stop session_deleted : Reason

-- A `sessionRunner`; the number tells one from another, as the pointer does.
pub record Runner : Type 0 where
  pub id : ℕ
  pub stop_after_current : Bool

-- A goroutine in `runTurnLoop`, while `RunInput` handles the input.
pub record Loop : Type 0 where
  pub session : Text
  pub runner : ℕ
  pub input : UserInput

pub data Effect : Type 0 where
  broadcast : Text → List QueuedMessage → Effect
  run_input : Text → UserInput → Effect
  cancel_engine : Text → Reason → Effect
  cancel_runner : Text → Reason → Effect
  cancel_and_wait : Text → Effect

pub record Turns : Type 0 where
  pub queues : Map (List QueuedMessage)
  pub runners : Map Runner
  pub compacting : Map Bool
  pub deleted : Map (Unit {0})
  pub loops : List Loop
  pub next_runner : ℕ
  pub effects : List Effect

unfoldable pub new_turn_scheduler : Turns
new_turn_scheduler = record {
  queues = [];
  runners = [];
  compacting = [];
  deleted = [];
  loops = [];
  next_runner = 0;
  effects = [];
}

abbrev pub or_nil {ℓ} : {A : Type ℓ} → Option (List A) → List A
or_nil none = []
or_nil (some xs) = xs

abbrev pub or_false : Option Bool → Bool
or_false none = false
or_false (some b) = b

abbrev pub is_some {ℓ} : {A : Type ℓ} → Option A → Bool
is_some none = false
is_some (some a) = true

-- `queues[id]`, `compacting[id]`, and whether `id` is in `deleted` and `runners`.
abbrev pub queue : Turns → Text → List QueuedMessage
queue k s = or_nil (lookup s k.queues)

abbrev pub is_compacting : Turns → Text → Bool
is_compacting k s = or_false (lookup s k.compacting)

abbrev pub is_deleted : Turns → Text → Bool
is_deleted k s = is_some (lookup s k.deleted)

abbrev pub is_running : Turns → Text → Bool
is_running k s = is_some (lookup s k.runners)

-- Effects are listed latest first.
abbrev pub emit : Effect → Turns → Turns
emit e k = record k { effects = e ∷ k.effects }

abbrev pub broadcast_queue : Text → Turns → Turns
broadcast_queue s k = emit (broadcast s (queue k s)) k

abbrev pub set_queue : Text → List QueuedMessage → Turns → Turns
set_queue s items k = record k {
  queues = if is_empty items then delete s k.queues else insert s items k.queues;
}

-- `normalizePositions`.
unfoldable pub positions_from : ℕ → List QueuedMessage → List QueuedMessage
positions_from i [] = []
positions_from i (m ∷ ms) = record m { position = i } ∷ positions_from (suc i) ms

abbrev pub normalize_positions : List QueuedMessage → List QueuedMessage
normalize_positions = positions_from 0

abbrev pub append_item : Text → QueuedMessage → Turns → Turns
append_item s item k = record k { queues = insert s (queue k s ++ item ∷ []) k.queues }

-- `createRunnerLocked`, and the goroutine that is started with the runner.
abbrev pub start_loop : Text → UserInput → Turns → Turns
start_loop s input k = record k {
  runners = insert s (record { id = k.next_runner; stop_after_current = false }) k.runners;
  loops = record { session = s; runner = k.next_runner; input = input } ∷ k.loops;
  next_runner = suc k.next_runner;
  effects = run_input s input ∷ k.effects;
}

-- `popQueueLocked`, the broadcast, `createRunnerLocked`, and the loop on the item that was popped.
-- The callers see to it that the queue is not empty.
abbrev pub start_next : Text → Turns → Turns
start_next s k = elim (queue k s) [
  | [] ↦ k
  | m ∷ ms ↦
      start_loop s (queue_input m) (broadcast_queue s (set_queue s (normalize_positions ms) k))
]
