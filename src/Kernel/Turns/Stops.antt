-- ===== src/Kernel/Turns/Stops.antt =====
-- internal/kernel/queue.go: the invariant under compactions and the deletion of a session.
use foya.Prelude.{
  ◌≡◌, refl, sym, inl, inr, true, false, ◌||◌, some, arith, is_empty, Text, Bool-cases,
  Option-cases, subst,
}
use foya.Prelude.Map.{
  lookup, insert, delete, lookup-insert_self, lookup-insert_ne, lookup-delete_self,
  lookup-delete_ne,
}
use foya.Kernel.Turns.{
  Runner, Turns, or_false, queue, is_compacting, is_deleted, is_running, positions_from,
}
use foya.Kernel.Turns.Control.{set_stop, begin_compaction, end_compaction, stop_session}
use foya.Kernel.Turns.Valid.{Stops, IsValid, IsValid-at, start_next-IsValid, emit-IsValid}
use foya.Kernel.Turns.Steps.{settle_only, set_stop-some-IsValid}

pub begin_compaction-IsValid :
    (s : Text) (k : Turns) → IsValid k → IsValid (settle_only k (begin_compaction s k))
unfolding begin_compaction
begin_compaction-IsValid s k v = elim (Bool-cases (is_deleted k s)) [
  | inl gone ↦ rw (gone) v
  | inr alive ↦ elim (Bool-cases (is_running k s || is_compacting k s)) [
    | inl busy ↦ rw (alive, busy) v
    | inr free ↦ rw (alive, free) (begun free)
  ]
]
  where
    begun :
        (is_running k s || is_compacting k s) ≡ false
        → IsValid (record k { compacting = insert s true k.compacting })
    begun free =
        IsValid-at s k _ v (λ t miss o. rw (lookup-insert_ne s t true k.compacting miss) o)
          (let o = v.ok_at s in
            rw (lookup-insert_self s true k.compacting) (record {
              owned = o.owned;
              exclusive = λ h. ground arith;
              numbered = o.numbered;
              stored = o.stored;
              deleted_empty = o.deleted_empty;
              deleted_stops = o.deleted_stops;
            }))

-- The compaction of a session has ended, and the session has no runner.
pub end_compaction-IsValid :
    (s : Text) (k : Turns) → is_compacting k s ≡ true → IsValid k → IsValid (end_compaction s k)
unfolding end_compaction
end_compaction-IsValid s k busy v = elim (Bool-cases (is_deleted k s || is_empty (queue k s))) [
  | inl done ↦ rw (done) idle
  | inr more ↦ rw (more) (start_next-IsValid s _ (ground arith) no_runner free idle)
]
  where
    free : or_false (lookup s (delete s k.compacting)) ≡ false
    free = rw (lookup-delete_self s k.compacting)

    no_runner : is_running k s ≡ false
    no_runner = elim (Bool-cases (is_running k s)) [
      | inl r ↦ cc ((v.ok_at s).exclusive r)
      | inr n ↦ n
    ]

    idle : IsValid (record k { compacting = delete s k.compacting })
    idle =
        IsValid-at s k _ v (λ t miss o. rw (lookup-delete_ne s t k.compacting miss) o)
          (let o = v.ok_at s in
            record {
              owned = o.owned;
              exclusive = λ h. free;
              numbered = o.numbered;
              stored = o.stored;
              deleted_empty = o.deleted_empty;
              deleted_stops = o.deleted_stops;
            })

mark_deleted-IsValid :
    (s : Text) (k : Turns)
    → Stops (lookup s k.runners)
    → IsValid k
    → IsValid (record k { deleted = insert s tt k.deleted; queues = delete s k.queues })
mark_deleted-IsValid s k stops v =
    IsValid-at s k _ v
      (λ t miss o.
        rw (lookup-insert_ne s t tt k.deleted miss, lookup-delete_ne s t k.queues miss) o)
      (let o = v.ok_at s in
        rw (lookup-insert_self s tt k.deleted, lookup-delete_self s k.queues)
          (record {
            owned = o.owned;
            exclusive = o.exclusive;
            numbered = unfold positions_from in refl;
            stored = λ same. cc;
            deleted_empty = λ _. refl;
            deleted_stops = λ _. stops;
          }))

pub stop_session-IsValid : (s : Text) (k : Turns) → IsValid k → IsValid (stop_session s k)
unfolding stop_session
stop_session-IsValid s k v = elim (Option-cases (lookup s k.runners)) [
  | inl e ↦
      rw (e, stop_session) (emit-IsValid _ _ (mark_deleted-IsValid s k (subst Stops (sym e) tt) v))
  | inr (r, e) ↦
      rw (e, stop_session)
        (emit-IsValid _ _ (
          emit-IsValid _ _ (
            mark_deleted-IsValid s (set_stop s true (some r) k) (stopped r)
              (set_stop-some-IsValid s true r k e (λ _. refl) v))))
]
  where
    stopped : (r : Runner) → Stops (lookup s (set_stop s true (some r) k).runners)
    stopped r = rw (lookup-insert_self s (record r { stop_after_current = true }) k.runners) refl
