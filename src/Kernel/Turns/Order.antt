-- ===== src/Kernel/Turns/Order.antt =====
-- internal/kernel/queue.go: what a session has run and what waits for it, in this order.
use foya.Prelude.{
  ℕ, suc, ◌≡◌, refl, sym, inl, inr, Bool, true, false, List, [], ◌∷◌, ◌++◌, if◌then◌else◌, Text,
  text_eq, text_eq_refl, text_eq_sound, Bool-cases, subst, map,
}
use mathlib.Core.List.{append-nil, append_assoc, map-append}
use foya.Prelude.Map.{lookup-insert_self, lookup-insert_ne, lookup-delete_self, lookup-delete_ne}
use foya.Conversation.Message.{UserInput, QueuedMessage, queue_input}
use foya.Kernel.Turns.{
  Effect, run_input, Turns, queue, set_queue, positions_from, normalize_positions, append_item,
  start_loop,
}

-- The inputs that a session has run, in order; effects are listed latest first.
unfoldable pub has_run : Text → List Effect → List UserInput
has_run s [] = []
has_run s (run_input t input ∷ es) =
    if text_eq t s then has_run s es ++ input ∷ [] else has_run s es
has_run s (e ∷ es) = has_run s es

-- What a session has run and then what waits.
abbrev pub order : Turns → Text → List UserInput
order k s = has_run s k.effects ++ map queue_input (queue k s)

has_run-run_input_self :
    (s : Text) (input : UserInput) (es : List Effect)
    → has_run s (run_input s input ∷ es) ≡ has_run s es ++ input ∷ []
unfolding has_run
has_run-run_input_self s input es = rw (text_eq_refl s)

has_run-run_input_ne :
    (s t : Text) (input : UserInput) (es : List Effect)
    → text_eq s t ≡ false
    → has_run t (run_input s input ∷ es) ≡ has_run t es
unfolding has_run
has_run-run_input_ne s t input es h = rw h

pub map-positions_from :
    (i : ℕ) (ms : List QueuedMessage) → map queue_input (positions_from i ms) ≡ map queue_input ms
unfolding positions_from queue_input
map-positions_from i [] = refl
map-positions_from i (m ∷ ms) = rw (map-positions_from (suc i) ms)

queue-set_queue : (s : Text) (ms : List QueuedMessage) (k : Turns) → queue (set_queue s ms k) s ≡ ms
queue-set_queue s [] k = rw (lookup-delete_self s k.queues)
queue-set_queue s (m ∷ ms) k = rw (lookup-insert_self s (m ∷ ms) k.queues)

queue-set_queue_ne :
    (s t : Text) (ms : List QueuedMessage) (k : Turns)
    → text_eq s t ≡ false
    → queue (set_queue s ms k) t ≡ queue k t
queue-set_queue_ne s t [] k h = rw (lookup-delete_ne s t k.queues h)
queue-set_queue_ne s t (m ∷ ms) k h = rw (lookup-insert_ne s t (m ∷ ms) k.queues h)

-- What a call sends to a session.
abbrev pub sent_if : Bool → UserInput → List UserInput
sent_if true input = input ∷ []
sent_if false input = []

pub order-append_item :
    (s t : Text) (m : QueuedMessage) (k : Turns)
    → order (append_item s m k) t ≡ order k t ++ sent_if (text_eq s t) (queue_input m)
order-append_item s t m k = elim (Bool-cases (text_eq s t)) [
  | inl hit ↦ rw hit (
      subst (λ u. order (append_item s m k) u ≡ order k u ++ queue_input m ∷ [])
        (text_eq_sound s t hit) here)
  | inr miss ↦
      rw (miss, lookup-insert_ne s t (queue k s ++ m ∷ []) k.queues miss)
        (sym (append-nil (order k t)))
]
  where
    here : order (append_item s m k) s ≡ order k s ++ queue_input m ∷ []
    here =
        rw
          (
            lookup-insert_self s (queue k s ++ m ∷ []) k.queues,
            map-append queue_input (queue k s) (m ∷ []),
          )
          (sym
            (append_assoc (has_run s k.effects) (map queue_input (queue k s)) (queue_input m ∷ [])))

pub order-start_loop :
    (s t : Text) (input : UserInput) (k : Turns)
    → queue k s ≡ []
    → order (start_loop s input k) t ≡ order k t ++ sent_if (text_eq s t) input
order-start_loop s t input k e = elim (Bool-cases (text_eq s t)) [
  | inl hit ↦ rw hit (
      subst (λ u. order (start_loop s input k) u ≡ order k u ++ input ∷ []) (text_eq_sound s t hit)
        here)
  | inr miss ↦
      rw (miss, has_run-run_input_ne s t input k.effects miss) (sym (append-nil (order k t)))
]
  where
    here : order (start_loop s input k) s ≡ order k s ++ input ∷ []
    here = rw (has_run-run_input_self s input k.effects) (simp (e, append-nil))

-- The head of the queue is run: the order stays.
pub order-next :
    (s t : Text) (m : QueuedMessage) (ms : List QueuedMessage) (k : Turns)
    → queue k s ≡ m ∷ ms
    → has_run t (run_input s (queue_input m) ∷ k.effects)
        ++ map queue_input (queue (set_queue s (normalize_positions ms) k) t)
      ≡ order k t
order-next s t m ms k e = elim (Bool-cases (text_eq s t)) [
  | inl hit ↦
      subst
        (λ u.
          has_run u (run_input s (queue_input m) ∷ k.effects)
            ++ map queue_input (queue (set_queue s (normalize_positions ms) k) u)
          ≡ order k u)
        (text_eq_sound s t hit) here
  | inr miss ↦ rw (
    has_run-run_input_ne s t (queue_input m) k.effects miss,
    queue-set_queue_ne s t (normalize_positions ms) k miss,
  )
]
  where
    here :
        has_run s (run_input s (queue_input m) ∷ k.effects)
          ++ map queue_input (queue (set_queue s (normalize_positions ms) k) s)
        ≡ order k s
    here =
        rw
          (
            has_run-run_input_self s (queue_input m) k.effects,
            queue-set_queue s (normalize_positions ms) k,
            map-positions_from 0 ms,
            e,
          )
          (append_assoc (has_run s k.effects) (queue_input m ∷ []) (map queue_input ms))
