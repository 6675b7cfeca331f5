-- ===== src/Kernel/Turns/Valid.antt =====
-- internal/kernel/queue.go: what holds of the scheduler between two critical sections.
use foya.Prelude.{
  ℕ, suc, ◌+◌, ◌≡◌, ◌≢◌, refl, ap, ◌⊎◌, inl, inr, Bool, true, false, Option, none, some, List, [],
  ◌∷◌, ◌++◌, length, arith, if◌then◌else◌, Text, text_eq, text_eq_refl, text_eq_sound, Bool-cases,
  subst,
}
use foya.Prelude.Map.{
  lookup, lookup-insert_self, lookup-insert_ne, lookup-delete_self, lookup-delete_ne,
}
use foya.Conversation.Message.{UserInput, QueuedMessage, queue_input}
use foya.Kernel.Turns.{
  Effect, Runner, Loop, Turns, or_nil, is_some, queue, is_compacting, is_deleted, is_running, emit,
  broadcast_queue, set_queue, positions_from, normalize_positions, append_item, start_loop,
  start_next,
}

-- The turn loops of a session.
unfoldable pub loops_of : Text → List Loop → List Loop
loops_of s [] = []
loops_of s (l ∷ ls) = if text_eq l.session s then l ∷ loops_of s ls else loops_of s ls

abbrev pub loop_of : Text → ℕ → UserInput → Loop
loop_of s rid input = record { session = s; runner = rid; input = input }

-- A session with a runner has one loop, which is that runner's; one with no runner has none.
abbrev pub Owns : Text → Option Runner → List Loop → Type 0
Owns s none ls = ls ≡ []
Owns s (some r) ls = (input : UserInput) × (ls ≡ loop_of s r.id input ∷ [])

abbrev pub Stops : Option Runner → Type 0
Stops none = Unit {0}
Stops (some r) = r.stop_after_current ≡ true

abbrev pub IsNumbered : List QueuedMessage → Type 0
IsNumbered ms = normalize_positions ms ≡ ms

-- What the scheduler's maps say of one session.
pub record IsOk (s : Text) (q : Option (List QueuedMessage)) (r : Option Runner) (c : Bool)
    (d : Bool) (ls : List Loop) : Type 0 where
  pub owned : Owns s r ls
  pub exclusive : is_some r ≡ true → c ≡ false
  pub numbered : IsNumbered (or_nil q)
  pub stored : q ≢ some []
  pub deleted_empty : d ≡ true → or_nil q ≡ []
  pub deleted_stops : d ≡ true → Stops r

abbrev pub Ok : Turns → Text → Type 0
Ok k s =
    IsOk s (lookup s k.queues) (lookup s k.runners) (is_compacting k s) (is_deleted k s)
      (loops_of s k.loops)

pub record IsValid (k : Turns) : Type 0 where
  pub ok_at : (s : Text) → Ok k s

positions_from_idem :
    (i : ℕ) (ms : List QueuedMessage) → positions_from i (positions_from i ms) ≡ positions_from i ms
unfolding positions_from
positions_from_idem i [] = refl
positions_from_idem i (m ∷ ms) = rw (positions_from_idem (suc i) ms)

positions_from-append :
    (i : ℕ) (ms : List QueuedMessage) (m : QueuedMessage)
    → positions_from i ms ≡ ms
    → m.position ≡ i + length ms
    → positions_from i (ms ++ m ∷ []) ≡ ms ++ m ∷ []
unfolding positions_from
positions_from-append i [] m h e = ground arith
positions_from-append i (x ∷ ms) m h e = ground (arith, positions_from-append (suc i) ms m)

append-not_nil {ℓ} : {A : Type ℓ} (xs : List A) (x : A) → xs ++ x ∷ [] ≢ []
append-not_nil [] x e = cc
append-not_nil (y ∷ xs) x e = cc

-- A change of one session's entries leaves the other sessions alone.
pub IsValid-at :
    (s : Text) (k k' : Turns)
    → IsValid k
    → ((t : Text) → text_eq s t ≡ false → Ok k t → Ok k' t)
    → Ok k' s
    → IsValid k'
IsValid-at s k k' v elsewhere here = record { ok_at = λ t. at t (Bool-cases (text_eq s t)) }
  where
    at : (t : Text) → (text_eq s t ≡ true) ⊎ (text_eq s t ≡ false) → Ok k' t
    at t (inl hit) = subst (λ u. Ok k' u) (text_eq_sound s t hit) here
    at t (inr miss) = elsewhere t miss (v.ok_at t)

-- A message at the end of the queue of a session that is not deleted.
pub append_item-IsValid :
    (s : Text) (m : QueuedMessage) (k : Turns)
    → is_deleted k s ≡ false
    → m.position ≡ length (queue k s)
    → IsValid k
    → IsValid (append_item s m k)
append_item-IsValid s m k alive e v =
    let items = queue k s ++ m ∷ [] in
    IsValid-at s k _ v (λ t miss o. rw (lookup-insert_ne s t items k.queues miss) o)
      (let o = v.ok_at s in
        rw (lookup-insert_self s items k.queues) (record {
          owned = o.owned;
          exclusive = o.exclusive;
          numbered = positions_from-append 0 (queue k s) m o.numbered (omega arith);
          stored = λ same. append-not_nil (queue k s) m (ap or_nil same);
          deleted_empty = λ gone. cc;
          deleted_stops = o.deleted_stops;
        }))

-- A queue that is put in place of another, numbered, in a session that is not deleted.
pub set_queue-IsValid :
    (s : Text) (ms : List QueuedMessage) (k : Turns)
    → is_deleted k s ≡ false
    → IsValid k
    → IsValid (set_queue s (normalize_positions ms) k)
unfolding positions_from
set_queue-IsValid s [] k alive v =
    IsValid-at s k _ v (λ t miss o. rw (lookup-delete_ne s t k.queues miss) o)
      (let o = v.ok_at s in
        rw (lookup-delete_self s k.queues) (record {
          owned = o.owned;
          exclusive = o.exclusive;
          numbered = refl;
          stored = λ same. cc;
          deleted_empty = λ gone. refl;
          deleted_stops = o.deleted_stops;
        }))
set_queue-IsValid s (m ∷ ms) k alive v =
    let items = normalize_positions (m ∷ ms) in
    IsValid-at s k _ v (λ t miss o. rw (lookup-insert_ne s t items k.queues miss) o)
      (let o = v.ok_at s in
        rw (lookup-insert_self s items k.queues) (record {
          owned = o.owned;
          exclusive = o.exclusive;
          numbered = positions_from_idem 0 (m ∷ ms);
          stored = λ same. cc;
          deleted_empty = λ gone. cc;
          deleted_stops = o.deleted_stops;
        }))

pub loops_of-cons_ne :
    (s t : Text) (rid : ℕ) (input : UserInput) (ls : List Loop)
    → text_eq s t ≡ false
    → loops_of t (loop_of s rid input ∷ ls) ≡ loops_of t ls
unfolding loops_of
loops_of-cons_ne s t rid input ls h = rw h

pub loops_of-cons_self :
    (s : Text) (rid : ℕ) (input : UserInput) (ls : List Loop)
    → loops_of s (loop_of s rid input ∷ ls) ≡ loop_of s rid input ∷ loops_of s ls
unfolding loops_of
loops_of-cons_self s rid input ls = rw (text_eq_refl s)

Owns-idle :
    (s : Text) (r : Option Runner) (ls : List Loop) → is_some r ≡ false → Owns s r ls → ls ≡ []
Owns-idle s none ls h o = o
Owns-idle s (some r) ls h o = cc

-- A runner for a session that has none, does not compact and is not deleted.
pub start_loop-IsValid :
    (s : Text) (input : UserInput) (k : Turns)
    → is_deleted k s ≡ false
    → is_running k s ≡ false
    → is_compacting k s ≡ false
    → IsValid k
    → IsValid (start_loop s input k)
start_loop-IsValid s input k alive idle free v =
    let r : Runner = record { id = k.next_runner; stop_after_current = false } in
    IsValid-at s k _ v
      (λ t miss o.
        rw
          (
            lookup-insert_ne s t r k.runners miss,
            loops_of-cons_ne s t k.next_runner input k.loops miss,
          )
          o)
      (let o = v.ok_at s in
        rw (lookup-insert_self s r k.runners, loops_of-cons_self s k.next_runner input k.loops)
          (record {
            owned = (
              input,
              ap (◌∷◌ (loop_of s k.next_runner input))
                  (Owns-idle s (lookup s k.runners) (loops_of s k.loops) idle o.owned),
            );
            exclusive = λ _. free;
            numbered = o.numbered;
            stored = o.stored;
            deleted_empty = o.deleted_empty;
            deleted_stops = λ gone. cc;
          }))

pub start_next_cons :
    (s : Text) (k : Turns) (m : QueuedMessage) (ms : List QueuedMessage)
    → queue k s ≡ m ∷ ms
    → start_next s k
      ≡ start_loop s (queue_input m) (broadcast_queue s (set_queue s (normalize_positions ms) k))
start_next_cons s k m ms e = rw (e, start_next)

pub emit-IsValid : (e : Effect) (k : Turns) → IsValid k → IsValid (emit e k)
emit-IsValid e k v = record { ok_at = v.ok_at }

-- The next turn of a session that has no runner, does not compact and is not deleted.
pub start_next-IsValid :
    (s : Text) (k : Turns)
    → is_deleted k s ≡ false
    → is_running k s ≡ false
    → is_compacting k s ≡ false
    → IsValid k
    → IsValid (start_next s k)
start_next-IsValid s k alive idle free v = go (queue k s) refl
  where
    go : (q : List QueuedMessage) → queue k s ≡ q → IsValid (start_next s k)
    go [] e = rw (e, start_next) v
    go (m ∷ ms) e = rw (start_next_cons s k m ms e) (
        start_loop-IsValid s (queue_input m) _ alive idle free
          (emit-IsValid _ _ (set_queue-IsValid s ms k alive v)))
