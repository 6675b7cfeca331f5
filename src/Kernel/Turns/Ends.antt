-- ===== src/Kernel/Turns/Ends.antt =====
-- internal/kernel/queue.go: the invariant under the end of a turn.
use foya.Prelude.{
  ℕ, ◌≡◌, refl, sym, ◌∙◌, ap, ◌⊎◌, inl, inr, Bool, true, false, ◌||◌, not, Option, none, some, List,
  [], ◌∷◌, arith, ◌==◌, Text, text_eq, text_eq_iff, text_eq_refl, Bool-cases, Option-cases, subst,
  ==_iff,
}
use foya.Prelude.Map.{lookup, lookup-delete_self, lookup-delete_ne}
use foya.Conversation.Message.{UserInput, QueuedMessage, queue_input}
use foya.Kernel.Turns.{Runner, Loop, Turns, queue, is_deleted, set_queue, normalize_positions}
use foya.Kernel.Turns.Control.{end_loop, drop_runner, continue_loop, finish_turn}
use foya.Kernel.Turns.Valid.{
  loops_of, loops_of-cons_ne, loops_of-cons_self, loop_of, Owns, Stops, IsValid, IsValid-at,
  set_queue-IsValid, emit-IsValid,
}

loops_of-end_loop_ne :
    (s t : Text) (rid : ℕ) (ls : List Loop)
    → text_eq s t ≡ false
    → loops_of t (end_loop s rid ls) ≡ loops_of t ls
unfolding loops_of end_loop
loops_of-end_loop_ne s t rid [] h = refl
loops_of-end_loop_ne s t rid (l ∷ ls) h = ground (
  arith,
  loops_of-end_loop_ne s t rid ls h,
  text_eq_iff l.session s,
  text_eq_iff l.session t,
  text_eq_iff s t,
)

loops_of-end_loop_self :
    (s : Text) (rid : ℕ) (ls : List Loop)
    → loops_of s (end_loop s rid ls) ≡ end_loop s rid (loops_of s ls)
unfolding loops_of end_loop
loops_of-end_loop_self s rid [] = refl
loops_of-end_loop_self s rid (l ∷ ls) = ground (arith, loops_of-end_loop_self s rid ls)

-- A loop that is not its session's runner's is not there to end.
Owns-other :
    (s : Text) (rid : ℕ) (r : Option Runner) (ls : List Loop)
    → ((x : Runner) → r ≡ some x → (x.id == rid) ≡ false)
    → Owns s r ls
    → Owns s r (end_loop s rid ls)
unfolding end_loop
Owns-other s rid none ls h o = rw (o, end_loop)
Owns-other s rid (some r) ls h (input, o) =
    (input, rw (o, end_loop) (ground (arith, h r refl, text_eq_refl s)))

Owns-ended :
    (s : Text) (rid : ℕ) (r : Runner) (ls : List Loop)
    → (r.id == rid) ≡ true
    → Owns s (some r) ls
    → end_loop s rid ls ≡ []
unfolding end_loop
Owns-ended s rid r ls h (input, o) = rw (o, end_loop) (ground (arith, text_eq_refl s))

-- The goroutine of another runner ends.
end_other-IsValid :
    (s : Text) (rid : ℕ) (k : Turns)
    → ((x : Runner) → lookup s k.runners ≡ some x → (x.id == rid) ≡ false)
    → IsValid k
    → IsValid (record k { loops = end_loop s rid k.loops })
end_other-IsValid s rid k h v =
    IsValid-at s k _ v (λ t miss o. rw (loops_of-end_loop_ne s t rid k.loops miss) o)
      (let o = v.ok_at s in
        rw (loops_of-end_loop_self s rid k.loops) (record {
          owned = Owns-other s rid (lookup s k.runners) (loops_of s k.loops) h o.owned;
          exclusive = o.exclusive;
          numbered = o.numbered;
          stored = o.stored;
          deleted_empty = o.deleted_empty;
          deleted_stops = o.deleted_stops;
        }))

module _ (s : Text) (rid : ℕ) (r : Runner) (k : Turns) (found : lookup s k.runners ≡ some r)
    (same : (r.id == rid) ≡ true) (v : IsValid k) where
  ended : loops_of s (end_loop s rid k.loops) ≡ []
  ended =
      loops_of-end_loop_self s rid k.loops
      ∙ Owns-ended s rid r (loops_of s k.loops) same
          (subst (λ x. Owns s x (loops_of s k.loops)) found (v.ok_at s).owned)

  -- The loop ends with its runner.
  drop_runner-IsValid : IsValid (drop_runner s (record k { loops = end_loop s rid k.loops }))
  drop_runner-IsValid =
      IsValid-at s k _ v
        (λ t miss o.
          rw (lookup-delete_ne s t k.runners miss, loops_of-end_loop_ne s t rid k.loops miss) o)
        (let o = v.ok_at s in
          rw (lookup-delete_self s k.runners, ended)
            (record {
              owned = refl;
              exclusive = λ h. cc;
              numbered = o.numbered;
              stored = o.stored;
              deleted_empty = o.deleted_empty;
              deleted_stops = λ _. tt;
            }))

  -- The loop goes on with another input.
  swap_loop-IsValid :
      (input : UserInput)
      → IsValid (record k { loops = loop_of s rid input ∷ end_loop s rid k.loops })
  swap_loop-IsValid input =
      IsValid-at s k _ v
        (λ t miss o.
          rw
            (
              loops_of-cons_ne s t rid input (end_loop s rid k.loops) miss,
              loops_of-end_loop_ne s t rid k.loops miss,
            )
            o)
        (let o = v.ok_at s in
          rw (loops_of-cons_self s rid input (end_loop s rid k.loops), ended)
            (record {
              owned =
                  subst (λ x. Owns s x (loop_of s rid input ∷ [])) (sym found)
                    (input, ap (λ n. loop_of s n input ∷ []) (sym ((==_iff r.id rid).0 same)));
              exclusive = o.exclusive;
              numbered = o.numbered;
              stored = o.stored;
              deleted_empty = o.deleted_empty;
              deleted_stops = o.deleted_stops;
            }))

  -- The runner's loop returns from `RunInput`.
  finish_own-IsValid : (exists : Bool) → IsValid (finish_turn s rid exists k)
  unfolding finish_turn
  finish_own-IsValid exists = elim (Bool-cases (r.stop_after_current || not exists)) [
    | inl stop ↦ rw (found, finish_turn, same, stop) drop_runner-IsValid
    | inr more ↦
        let alive : is_deleted k s ≡ false = not_deleted (Bool-cases (is_deleted k s)) more in
        elim (queue-cases (queue k s)) [
          | inl e ↦ rw (found, finish_turn, same, more, e, continue_loop) drop_runner-IsValid
          | inr (m, ms, e) ↦
              rw (found, finish_turn, same, more, e, continue_loop)
                (emit-IsValid _ _ (
                  emit-IsValid _ (set_queue s (normalize_positions ms) (swapped m))
                    (set_queue-IsValid s ms (swapped m) alive (swap_loop-IsValid (queue_input m)))))
        ]
  ]
    where
      swapped : QueuedMessage → Turns
      swapped m = record k { loops = loop_of s rid (queue_input m) ∷ end_loop s rid k.loops }

      not_deleted :
          (is_deleted k s ≡ true) ⊎ (is_deleted k s ≡ false)
          → (r.stop_after_current || not exists) ≡ false
          → is_deleted k s ≡ false
      not_deleted (inr alive) more = alive
      not_deleted (inl gone) more =
          ground (arith, subst Stops found ((v.ok_at s).deleted_stops gone))

      queue-cases :
          (q : List QueuedMessage)
          → (q ≡ []) ⊎ ((m : QueuedMessage) × (ms : List QueuedMessage) × (q ≡ m ∷ ms))
      queue-cases [] = inl refl
      queue-cases (m ∷ ms) = inr (m, ms, refl)

pub finish_turn-IsValid :
    (s : Text) (rid : ℕ) (exists : Bool) (k : Turns)
    → IsValid k
    → IsValid (finish_turn s rid exists k)
unfolding finish_turn
finish_turn-IsValid s rid exists k v = elim (Option-cases (lookup s k.runners)) [
  | inl e ↦ rw (e, finish_turn) (end_other-IsValid s rid k (λ x f. cc) v)
  | inr (r, e) ↦ elim (Bool-cases (r.id == rid)) [
    | inl same ↦ finish_own-IsValid s rid r k e same v exists
    | inr other ↦ rw (e, finish_turn, other) (end_other-IsValid s rid k (λ x f. cc) v)
  ]
]
