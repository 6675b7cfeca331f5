-- ===== src/Kernel/Turns/Dispatch.antt =====
-- internal/kernel/queue.go: the message that is sent before its turn.
use foya.Prelude.{
  ℕ, zero, suc, ◌≡◌, refl, ◌∙◌, ap, false, ◌||◌, some, List, [], ◌∷◌, map, if◌then◌else◌, Text,
  get_elem?, Bool-cases, Option-cases, inl, inr, subst, arith, true, ◌++◌, length, exists, text_eq,
}
use foya.Prelude.Map.{lookup, lookup-insert_self, lookup-delete_self}
use foya.Conversation.Message.{UserInput, QueuedMessage, queue_input}
use foya.Kernel.Turns.{
  Turns, or_nil, queue, is_compacting, is_deleted, is_running, normalize_positions, set_queue,
}
use foya.Kernel.Turns.Edit.{queue_index, remove_at}
use foya.Kernel.Turns.Control.{to_front, dispatch_item, dispatch_queued}
use foya.Kernel.Turns.Steps.{settle}
use foya.Kernel.Turns.Order.{map-positions_from}

-- The inputs that wait for a session.
abbrev pub inputs : List QueuedMessage → List UserInput
inputs = map queue_input

inputs-zero :
    (m : QueuedMessage) (ms : List QueuedMessage)
    → get_elem? ms 0 ≡ some m
    → inputs ms ≡ queue_input m ∷ inputs (remove_at 0 ms)
inputs-zero m [] e = cc
inputs-zero m (x ∷ xs) e = cc

inputs-to_front :
    (s : Text) (i : ℕ) (m : QueuedMessage) (k : Turns)
    → get_elem? (queue k s) i ≡ some m
    → inputs (queue (to_front s i m k) s) ≡ queue_input m ∷ inputs (remove_at i (queue k s))
inputs-to_front s zero m k e = inputs-zero m (queue k s) e
inputs-to_front s (suc i) m k e =
    let ms = m ∷ remove_at (suc i) (queue k s) in
    rw (lookup-insert_self s (normalize_positions ms) k.queues) (map-positions_from 0 ms)

inputs-set_queue :
    (s : Text) (ms : List QueuedMessage) (k : Turns) → queue (set_queue s ms k) s ≡ ms
inputs-set_queue s [] k = ap or_nil (lookup-delete_self s k.queues)
inputs-set_queue s (m ∷ ms) k = ap or_nil (lookup-insert_self s (m ∷ ms) k.queues)

inputs-dispatch_item :
    (s : Text) (i : ℕ) (m : QueuedMessage) (k : Turns)
    → get_elem? (queue k s) i ≡ some m
    → let rest = inputs (remove_at i (queue k s)) in
      inputs (queue (dispatch_item s i m k).0 s)
      ≡ (if is_running k s || is_compacting k s then queue_input m ∷ rest else rest)
unfolding dispatch_item
inputs-dispatch_item s i m k e = elim (Option-cases (lookup s k.runners)) [
  | inr (r, f) ↦ rw (f, dispatch_item) (inputs-to_front s i m k e)
  | inl f ↦ elim (Bool-cases (is_compacting k s)) [
    | inl busy ↦ rw (f, dispatch_item, busy) (inputs-to_front s i m k e)
    | inr free ↦
        rw (f, dispatch_item, free)
          (ap inputs (inputs-set_queue s (normalize_positions (remove_at i (queue k s))) k)
            ∙ map-positions_from 0 (remove_at i (queue k s)))
  ]
]

-- The message of the queue with an identifier, and what is before it and after it.
pub record IsAt (ms : List QueuedMessage) (id : Text) (before after : List QueuedMessage)
    (m : QueuedMessage) : Type 0 where
  pub parts : ms ≡ before ++ m ∷ after
  pub named : text_eq m.id id ≡ true
  pub first : exists (λ q. text_eq q.id id) before ≡ false

queue_index-append :
    (id : Text) (before after : List QueuedMessage) (m : QueuedMessage)
    → text_eq m.id id ≡ true
    → exists (λ q. text_eq q.id id) before ≡ false
    → queue_index (before ++ m ∷ after) id ≡ some (length before)
unfolding queue_index exists
queue_index-append id [] after m h f = rw (h) refl
queue_index-append id (q ∷ qs) after m h f =
    let other : text_eq q.id id ≡ false = ground arith in
    rw (other, queue_index-append id qs after m h (ground arith)) refl

get_elem?-append :
    (before after : List QueuedMessage) (m : QueuedMessage)
    → get_elem? (before ++ m ∷ after) (length before) ≡ some m
get_elem?-append [] after m = refl
get_elem?-append (q ∷ qs) after m = get_elem?-append qs after m

inputs-remove_at :
    (before after : List QueuedMessage) (m : QueuedMessage)
    → inputs (remove_at (length before) (before ++ m ∷ after)) ≡ inputs before ++ inputs after
inputs-remove_at [] after m = refl
inputs-remove_at (q ∷ qs) after m = ap (λ x. queue_input q ∷ x) (inputs-remove_at qs after m)

-- Dispatching a message of the queue of a session that is not deleted takes it out from between the
-- messages before it and those after it, which stay in their order; if a turn runs or the session is
-- being compacted, the message is then at the front of them.
pub dispatch_queued-front :
    (s id : Text) (before after : List QueuedMessage) (m : QueuedMessage) (k : Turns)
    → is_deleted k s ≡ false
    → IsAt (queue k s) id before after m
    → inputs (queue (settle k (dispatch_queued s id k)) s) ≡ (
        if is_running k s || is_compacting k s
        then queue_input m ∷ (inputs before ++ inputs after)
        else inputs before ++ inputs after)
unfolding dispatch_queued
dispatch_queued-front s id before after m k alive h =
    let i = length before in
    let e : queue_index (queue k s) id ≡ some i =
      ap (λ ms. queue_index ms id) h.parts ∙ queue_index-append id before after m h.named h.first in
    let f : get_elem? (queue k s) i ≡ some m =
      ap (λ ms. get_elem? ms i) h.parts ∙ get_elem?-append before after m in
    let rest : inputs (remove_at i (queue k s)) ≡ inputs before ++ inputs after =
      ap (λ ms. inputs (remove_at i ms)) h.parts ∙ inputs-remove_at before after m in
    subst
      (λ x.
        inputs (queue (settle k (dispatch_queued s id k)) s)
        ≡ (if is_running k s || is_compacting k s then queue_input m ∷ x else x))
      rest (rw (alive, e, f) (inputs-dispatch_item s i m k f))
