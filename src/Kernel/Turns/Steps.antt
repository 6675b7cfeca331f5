-- ===== src/Kernel/Turns/Steps.antt =====
-- internal/kernel/queue.go: the invariant under the handlers of requests.
use foya.Prelude.{
  ℕ, zero, suc, ◌≡◌, refl, ◌∙◌, ap, inl, inr, Bool, true, false, Option, none, some, List, [], ◌∷◌,
  length, arith, is_empty, Text, Bool-cases, Option-cases, subst, get_elem?, ℤ,
}
use foya.Prelude.Map.{lookup, insert, lookup-insert_self, lookup-insert_ne}
use foya.Conversation.Message.{UserInput, QueuedMessage, queue_input, new_queued_message}
use foya.Kernel.Turns.{
  Error, cancel_engine, user_stop, Runner, Turns, is_some, queue, is_compacting, is_deleted,
  is_running, positions_from, normalize_positions, append_item,
}
use foya.Prelude.Result.{Result, ok, err, ◌>>=◌}
use foya.Kernel.Turns.Submit.{submit, enqueue}
use foya.Kernel.Turns.Edit.{
  queue_index, remove_at, edit_text, move_item, out_of_range, commit_items, update_queued,
  delete_queued,
}
use foya.Kernel.Turns.Control.{
  to_front, set_stop, dispatch_item, dispatch_queued, cancel_current_turn,
}
use foya.Kernel.Turns.Valid.{
  loops_of, Owns, IsValid, IsValid-at, append_item-IsValid, set_queue-IsValid, start_loop-IsValid,
  start_next-IsValid, emit-IsValid,
}

pub set_stop-some-IsValid :
    (s : Text) (b : Bool) (r : Runner) (k : Turns)
    → lookup s k.runners ≡ some r
    → (is_deleted k s ≡ true → b ≡ true)
    → IsValid k
    → IsValid (set_stop s b (some r) k)
set_stop-some-IsValid s b r k e stops v =
    let r' : Runner = record r { stop_after_current = b } in
    IsValid-at s k _ v (λ t miss o. rw (lookup-insert_ne s t r' k.runners miss) o)
      (let o = v.ok_at s in
        rw (lookup-insert_self s r' k.runners) (record {
          owned = subst (λ x. Owns s x (loops_of s k.loops)) e o.owned;
          exclusive = λ _. o.exclusive (ap is_some e);
          numbered = o.numbered;
          stored = o.stored;
          deleted_empty = o.deleted_empty;
          deleted_stops = stops;
        }))

-- The runner's flag is set; it may be cleared only in a session that is not deleted.
set_stop-IsValid :
    (s : Text) (b : Bool) (k : Turns)
    → (is_deleted k s ≡ true → b ≡ true)
    → IsValid k
    → IsValid (set_stop s b (lookup s k.runners) k)
set_stop-IsValid s b k stops v = go (lookup s k.runners) refl
  where
    go : (r : Option Runner) → lookup s k.runners ≡ r → IsValid (set_stop s b r k)
    go none e = v
    go (some r) e = set_stop-some-IsValid s b r k e stops v

-- The state after a handler: one that fails leaves it as it was.
abbrev pub settle {ℓ} : {A : Type ℓ} → Turns → Result Error (Turns × A) → Turns
settle k (ok (k', a)) = k'
settle k (err e) = k

abbrev pub settle_only : Turns → Result Error Turns → Turns
settle_only k (ok k') = k'
settle_only k (err e) = k

abbrev new_item : Text → UserInput → Text → ℕ → Turns → QueuedMessage
new_item s input id now k = new_queued_message id now s input (length (queue k s))

-- The item is put in the queue with the right number.
appended-IsValid :
    (s : Text) (input : UserInput) (id : Text) (now : ℕ) (k : Turns)
    → is_deleted k s ≡ false
    → IsValid k
    → IsValid (append_item s (new_item s input id now k) k)
unfolding new_queued_message
appended-IsValid s input id now k alive v = append_item-IsValid s _ k alive refl v

pub submit-IsValid :
    (s : Text) (input : UserInput) (id : Text) (now : ℕ) (k : Turns)
    → IsValid k
    → IsValid (settle k (submit s input id now k))
unfolding submit
submit-IsValid s input id now k v = elim (Bool-cases (is_deleted k s)) [
  | inl gone ↦ rw (gone) v
  | inr alive ↦
      let full = appended-IsValid s input id now k alive v in
      elim (Bool-cases (is_running k s)) [
        | inl busy ↦ rw (alive, busy) (emit-IsValid _ _ full)
        | inr idle ↦ elim (Bool-cases (is_compacting k s)) [
          | inl busy ↦ rw (alive, idle, busy) (emit-IsValid _ _ full)
          | inr free ↦ elim (Bool-cases (is_empty (queue k s))) [
            | inl none_waits ↦
                rw (alive, idle, free, none_waits) (start_loop-IsValid s input k alive idle free v)
            | inr waits ↦
                rw (alive, idle, free, waits) (start_next-IsValid s _ alive idle free full)
          ]
        ]
      ]
]

pub enqueue-IsValid :
    (s : Text) (input : UserInput) (id : Text) (now : ℕ) (k : Turns)
    → IsValid k
    → IsValid (settle k (enqueue s input id now k))
unfolding enqueue
enqueue-IsValid s input id now k v = elim (Bool-cases (is_deleted k s)) [
  | inl gone ↦ rw (gone) v
  | inr alive ↦ rw (alive) (emit-IsValid _ _ (appended-IsValid s input id now k alive v))
]

-- A numbered queue with an item, in a session that is not deleted.
put_items-IsValid :
    (s : Text) (ms : List QueuedMessage) (i : ℕ) (m : QueuedMessage) (k : Turns)
    → is_deleted k s ≡ false
    → get_elem? (normalize_positions ms) i ≡ some m
    → IsValid k
    → IsValid (record k { queues = insert s (normalize_positions ms) k.queues })
unfolding positions_from
put_items-IsValid s [] i m k alive e v = cc
put_items-IsValid s (x ∷ ms) i m k alive e v = set_queue-IsValid s (x ∷ ms) k alive v

commit_items-IsValid :
    (s : Text) (p : List QueuedMessage × ℕ) (k : Turns)
    → is_deleted k s ≡ false
    → IsValid k
    → IsValid (settle k (commit_items s p k))
commit_items-IsValid s (ms, i) k alive v = go (get_elem? (normalize_positions ms) i) refl
  where
    go :
        (o : Option QueuedMessage)
        → get_elem? (normalize_positions ms) i ≡ o
        → IsValid (settle k (commit_items s (ms, i) k))
    go none e = rw (e, commit_items) v
    go (some m) e = rw (e, commit_items) (emit-IsValid _ _ (put_items-IsValid s ms i m k alive e v))

pub update_queued-IsValid :
    (s id : Text) (content : Option Text) (position : Option ℤ) (now : ℕ) (k : Turns)
    → IsValid k
    → IsValid (settle k (update_queued s id content position now k))
unfolding update_queued
update_queued-IsValid s id content position now k v = elim (Bool-cases (is_deleted k s)) [
  | inl gone ↦ rw (gone) v
  | inr alive ↦ elim (Option-cases (queue_index (queue k s) id)) [
    | inl e ↦ rw (alive, e) v
    | inr (i, e) ↦ elim (Bool-cases (out_of_range position (length (queue k s)))) [
      | inl out ↦ rw (alive, e, out) v
      | inr within ↦ rw (alive, e, within) (finish alive i (edit_text content i now (queue k s)))
    ]
  ]
]
  where
    finish :
        is_deleted k s ≡ false
        → (i : ℕ) (r : Result Error (List QueuedMessage))
        → IsValid (settle k (r >>= λ items. commit_items s (move_item position i now items) k))
    finish alive i (ok items) = commit_items-IsValid s _ k alive v
    finish alive i (err e) = v

pub delete_queued-IsValid :
    (s id : Text) (k : Turns) → IsValid k → IsValid (settle_only k (delete_queued s id k))
unfolding delete_queued
delete_queued-IsValid s id k v = elim (Bool-cases (is_deleted k s)) [
  | inl gone ↦ rw (gone) v
  | inr alive ↦ elim (Option-cases (queue_index (queue k s) id)) [
    | inl e ↦ rw (alive, e) v
    | inr (i, e) ↦
        rw (alive, e) (emit-IsValid _ _ (set_queue-IsValid s (remove_at i (queue k s)) k alive v))
  ]
]

to_front-IsValid :
    (s : Text) (i : ℕ) (m : QueuedMessage) (k : Turns)
    → is_deleted k s ≡ false
    → IsValid k
    → IsValid (to_front s i m k)
unfolding positions_from
to_front-IsValid s zero m k alive v = v
to_front-IsValid s (suc i) m k alive v =
    set_queue-IsValid s (m ∷ remove_at (suc i) (queue k s)) k alive v

to_front-same :
    (s : Text) (i : ℕ) (m : QueuedMessage) (k : Turns)
    → (is_deleted (to_front s i m k) s ≡ is_deleted k s)
      × (lookup s (to_front s i m k).runners ≡ lookup s k.runners)
to_front-same s zero m k = (refl, refl)
to_front-same s (suc i) m k = (refl, refl)

dispatch_item-IsValid :
    (s : Text) (i : ℕ) (m : QueuedMessage) (k : Turns)
    → is_deleted k s ≡ false
    → IsValid k
    → IsValid (dispatch_item s i m k).0
unfolding dispatch_item
dispatch_item-IsValid s i m k alive v = elim (Option-cases (lookup s k.runners)) [
  | inr (r, e) ↦
      rw (e, dispatch_item)
        (emit-IsValid _ _ (
          emit-IsValid _ _ (
            emit-IsValid _ _ (
              subst (λ o. IsValid (set_stop s false o (to_front s i m k))) (same.1 ∙ e)
                (set_stop-IsValid s false (to_front s i m k) (λ gone. cc (same.0)) front)))))
  | inl e ↦ elim (Bool-cases (is_compacting k s)) [
    | inl busy ↦ rw (e, dispatch_item, busy) (emit-IsValid _ _ (emit-IsValid _ _ front))
    | inr free ↦
        rw (e, dispatch_item, free)
          (start_loop-IsValid s (queue_input m) _ alive (ap is_some e) free
            (emit-IsValid _ _ (set_queue-IsValid s (remove_at i (queue k s)) k alive v)))
  ]
]
  where
    same :
        (is_deleted (to_front s i m k) s ≡ is_deleted k s)
        × (lookup s (to_front s i m k).runners ≡ lookup s k.runners)
    same = to_front-same s i m k

    front : IsValid (to_front s i m k)
    front = to_front-IsValid s i m k alive v

pub dispatch_queued-IsValid :
    (s id : Text) (k : Turns) → IsValid k → IsValid (settle k (dispatch_queued s id k))
unfolding dispatch_queued
dispatch_queued-IsValid s id k v = elim (Bool-cases (is_deleted k s)) [
  | inl gone ↦ rw (gone) v
  | inr alive ↦ elim (Option-cases (queue_index (queue k s) id)) [
    | inl e ↦ rw (alive, e) v
    | inr (i, e) ↦ elim (Option-cases (get_elem? (queue k s) i)) [
      | inl e' ↦ rw (alive, e, e') v
      | inr (m, e') ↦ rw (alive, e, e') (dispatch_item-IsValid s i m k alive v)
    ]
  ]
]

pub cancel_current_turn-IsValid :
    (s : Text) (k : Turns) → IsValid k → IsValid (cancel_current_turn s k)
unfolding cancel_current_turn
cancel_current_turn-IsValid s k v = elim (Option-cases (lookup s k.runners)) [
  | inr (r, e) ↦
      rw (e, cancel_current_turn)
        (emit-IsValid _ _ (emit-IsValid _ _ (set_stop-some-IsValid s true r k e (λ _. refl) v)))
  | inl e ↦
      rw (e, cancel_current_turn) (ground (arith, emit-IsValid (cancel_engine s user_stop) k v))
]
