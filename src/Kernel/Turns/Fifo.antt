-- ===== src/Kernel/Turns/Fifo.antt =====
-- internal/kernel/queue.go: the order in which messages run, where the queue is not edited.
use foya.Prelude.{
  ℕ, ◌≡◌, refl, sym, ◌∙◌, ap, inl, inr, Bool, true, false, ◌||◌, not, List, [], ◌∷◌, ◌++◌, length,
  arith, is_empty, ◌==◌, Text, text_eq, Bool-cases, Option-cases, map,
}
use mathlib.Core.List.{append-nil, append_assoc}
use foya.Prelude.Map.{lookup, lookup-insert_self}
use foya.Conversation.Message.{UserInput, QueuedMessage, queue_input, new_queued_message}
use foya.Kernel.Turns.{
  Turns, new_turn_scheduler, is_some, queue, is_compacting, is_deleted, is_running, start_next,
}
use foya.Kernel.Turns.Submit.{submit, enqueue}
use foya.Kernel.Turns.Control.{
  cancel_current_turn, begin_compaction, end_compaction, continue_loop, finish_turn,
}
use foya.Kernel.Turns.Steps.{settle, settle_only}
use foya.Kernel.Turns.Runs.{
  Op, submits, enqueues, updates, deletes, dispatches, cancels, begins_compaction, ends_compaction,
  stops, finishes, apply, run,
}
use foya.Kernel.Turns.Valid.{start_next_cons}
use foya.Kernel.Turns.Order.{
  has_run, order, sent_if, order-append_item, order-start_loop, order-next,
}

order-start_next : (s t : Text) (k : Turns) → order (start_next s k) t ≡ order k t
unfolding has_run
order-start_next s t k = go (queue k s) refl
  where
    go : (q : List QueuedMessage) → queue k s ≡ q → order (start_next s k) t ≡ order k t
    go [] e = rw (e, start_next)
    go (m ∷ ms) e = rw (start_next_cons s k m ms e) (order-next s t m ms k e)

-- Nothing of a session that is not deleted is refused.
order-submit :
    (s t : Text) (input : UserInput) (id : Text) (now : ℕ) (k : Turns)
    → is_deleted k s ≡ false
    → order (settle k (submit s input id now k)) t ≡ order k t ++ sent_if (text_eq s t) input
unfolding submit has_run new_queued_message queue_input
order-submit s t input id now k alive =
    let full = order-append_item s t (new_queued_message id now s input (length (queue k s))) k in
    elim (Bool-cases (is_running k s || is_compacting k s)) [
      | inl busy ↦ rw (alive, busy) full
      | inr free ↦ elim (Bool-cases (is_empty (queue k s))) [
        | inl none_waits ↦
            rw (alive, free, none_waits) (order-start_loop s t input k (nil (queue k s) none_waits))
        | inr waits ↦ rw (alive, free, waits) (order-start_next s t _ ∙ full)
      ]
    ]
  where
    nil : (q : List QueuedMessage) → is_empty q ≡ true → q ≡ []
    nil [] h = refl
    nil (m ∷ ms) h = cc

order-enqueue :
    (s t : Text) (input : UserInput) (id : Text) (now : ℕ) (k : Turns)
    → is_deleted k s ≡ false
    → order (settle k (enqueue s input id now k)) t ≡ order k t ++ sent_if (text_eq s t) input
unfolding enqueue has_run new_queued_message queue_input
order-enqueue s t input id now k alive =
    rw (alive) (order-append_item s t (new_queued_message id now s input (length (queue k s))) k)

order-continue_loop :
    (s t : Text) (rid : ℕ) (k : Turns) → order (continue_loop s rid k) t ≡ order k t
unfolding has_run
order-continue_loop s t rid k = go (queue k s) refl
  where
    go : (q : List QueuedMessage) → queue k s ≡ q → order (continue_loop s rid k) t ≡ order k t
    go [] e = rw (e, continue_loop)
    go (m ∷ ms) e = rw (e, continue_loop) (order-next s t m ms k e)

order-finish_turn :
    (s t : Text) (rid : ℕ) (exists : Bool) (k : Turns)
    → order (finish_turn s rid exists k) t ≡ order k t
unfolding finish_turn
order-finish_turn s t rid exists k = elim (Option-cases (lookup s k.runners)) [
  | inl e ↦ rw (e, finish_turn)
  | inr (r, e) ↦ elim (Bool-cases (r.id == rid)) [
    | inr other ↦ rw (e, finish_turn, other)
    | inl same ↦ elim (Bool-cases (r.stop_after_current || not exists)) [
      | inl stop ↦ rw (e, finish_turn, same, stop)
      | inr more ↦ rw (e, finish_turn, same, more) (order-continue_loop s t rid _)
    ]
  ]
]

order-end_compaction : (s t : Text) (k : Turns) → order (end_compaction s k) t ≡ order k t
unfolding end_compaction
order-end_compaction s t k = elim (Bool-cases (is_deleted k s || is_empty (queue k s))) [
  | inl done ↦ rw (done)
  | inr more ↦ rw (more) (order-start_next s t _)
]

order-cancel : (s t : Text) (k : Turns) → order (cancel_current_turn s k) t ≡ order k t
unfolding cancel_current_turn has_run
order-cancel s t k = elim (Option-cases (lookup s k.runners)) [
  | inl e ↦ elim (Bool-cases (is_compacting k s)) [
    | inl busy ↦ rw (e, cancel_current_turn, busy)
    | inr free ↦ rw (e, cancel_current_turn, free)
  ]
  | inr (r, e) ↦ rw (e, cancel_current_turn)
]

order-begin_compaction :
    (s t : Text) (k : Turns) → order (settle_only k (begin_compaction s k)) t ≡ order k t
unfolding begin_compaction
order-begin_compaction s t k = ground arith

-- What an operation sends to a session.
abbrev pub sent_by : Text → Op → List UserInput
sent_by t (submits s input id now) = sent_if (text_eq s t) input
sent_by t (enqueues s input id now) = sent_if (text_eq s t) input
sent_by t _ = []

abbrev pub sent : Text → List Op → List UserInput
sent t [] = []
sent t (o ∷ os) = sent_by t o ++ sent t os

-- Not an edit of a queue, nor a deletion.
abbrev pub IsPlain : Op → Type 0
IsPlain (updates s id content position now) = ⊥
IsPlain (deletes s id) = ⊥
IsPlain (dispatches s id) = ⊥
IsPlain (stops s) = ⊥
IsPlain _ = Unit {0}

abbrev pub ArePlain : List Op → Type 0
ArePlain [] = Unit {0}
ArePlain (o ∷ os) = IsPlain o × ArePlain os

deleted-start_next : (s : Text) (k : Turns) → (start_next s k).deleted ≡ k.deleted
deleted-start_next s k = ground arith

deleted-submit :
    (s : Text) (input : UserInput) (id : Text) (now : ℕ) (k : Turns)
    → (settle k (submit s input id now k)).deleted ≡ k.deleted
unfolding submit
deleted-submit s input id now k = ground arith

deleted-finish_turn :
    (s : Text) (rid : ℕ) (exists : Bool) (k : Turns)
    → (finish_turn s rid exists k).deleted ≡ k.deleted
unfolding finish_turn
deleted-finish_turn s rid exists k = ground arith

deleted-apply : (o : Op) (k : Turns) → IsPlain o → (apply o k).deleted ≡ k.deleted
unfolding apply
deleted-apply (submits s input id now) k p = deleted-submit s input id now k
deleted-apply (enqueues s input id now) k p = unfold enqueue in ground arith
deleted-apply (updates s id content position now) k p = absurd p
deleted-apply (deletes s id) k p = absurd p
deleted-apply (dispatches s id) k p = absurd p
deleted-apply (cancels s) k p = unfold cancel_current_turn in ground arith
deleted-apply (begins_compaction s) k p = unfold begin_compaction in ground arith
deleted-apply (ends_compaction s) k p = unfold end_compaction in ground arith
deleted-apply (stops s) k p = absurd p
deleted-apply (finishes s rid exists) k p = deleted-finish_turn s rid exists k

order-apply :
    (o : Op) (t : Text) (k : Turns)
    → IsPlain o
    → k.deleted ≡ []
    → order (apply o k) t ≡ order k t ++ sent_by t o
unfolding apply lookup
order-apply (submits s input id now) t k p e =
    order-submit s t input id now k (ap (λ m. is_some (lookup s m)) e)
order-apply (enqueues s input id now) t k p e =
    order-enqueue s t input id now k (ap (λ m. is_some (lookup s m)) e)
order-apply (updates s id content position now) t k p e = absurd p
order-apply (deletes s id) t k p e = absurd p
order-apply (dispatches s id) t k p e = absurd p
order-apply (cancels s) t k p e = order-cancel s t k ∙ sym (append-nil (order k t))
order-apply (begins_compaction s) t k p e =
    order-begin_compaction s t k ∙ sym (append-nil (order k t))
order-apply (ends_compaction s) t k p e = elim (Bool-cases (is_compacting k s)) [
  | inl busy ↦ rw (busy) (order-end_compaction s t k ∙ sym (append-nil (order k t)))
  | inr free ↦ rw (free) (sym (append-nil (order k t)))
]
order-apply (stops s) t k p e = absurd p
order-apply (finishes s rid exists) t k p e =
    order-finish_turn s t rid exists k ∙ sym (append-nil (order k t))

order-run :
    (os : List Op) (t : Text) (k : Turns)
    → ArePlain os
    → k.deleted ≡ []
    → order (run os k) t ≡ order k t ++ sent t os
unfolding run
order-run [] t k p e = sym (append-nil (order k t))
order-run (o ∷ os) t k p e =
    order-run os t (apply o k) p.1 (deleted-apply o k p.0 ∙ e)
    ∙ ap (λ xs. xs ++ sent t os) (order-apply o t k p.0 e)
    ∙ append_assoc (order k t) (sent_by t o) (sent t os)

-- From a new scheduler, through any requests that send messages, end turns, compact or stop the
-- current turn, and for every session: the inputs that it has run, followed by those that wait for
-- it, are exactly those that it was sent, in the order in which they were sent.
pub run-fifo :
    (os : List Op) (t : Text)
    → ArePlain os
    → let k = run os new_turn_scheduler in
      has_run t k.effects ++ map queue_input (queue k t) ≡ sent t os
unfolding new_turn_scheduler lookup has_run
run-fifo os t p = order-run os t new_turn_scheduler p refl

-- A message for a session that is not deleted leaves the session busy: a turn runs, or the session
-- is being compacted.
pub submit-busy :
    (s : Text) (input : UserInput) (id : Text) (now : ℕ) (k : Turns)
    → is_deleted k s ≡ false
    → let k' = settle k (submit s input id now k) in (is_running k' s || is_compacting k' s) ≡ true
unfolding submit
submit-busy s input id now k alive = ground (
  arith,
  lookup-insert_self s (record { id = k.next_runner; stop_after_current = false }) k.runners,
  lookup-insert_self s (queue k s ++ new_queued_message id now s input (length (queue k s)) ∷ [])
      k.queues,
)
