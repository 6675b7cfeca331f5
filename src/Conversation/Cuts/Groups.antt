-- ===== src/Conversation/Cuts/Groups.antt =====
-- internal/conversation/compaction.go, `atomicGroups`: the groups and the messages.
use foya.Prelude.{
  ℕ, zero, suc, ◌+◌, ◌≤◌, ◌<◌, ◌≡◌, refl, ap, true, List, [], ◌∷◌, ◌++◌, length, arith, ==_iff,
  subst, Bool-cases, inl, inr,
}
use foya.Prelude.Names.{distinct, only, subset, subset-of_count}
use foya.Conversation.Cuts.{
  MessageEvent, AtomicGroup, is_tool, has_calls, call_ids, results, after_results, result_ids,
  is_answered, groups_from, atomic_groups,
}

pub results-append : (es : List MessageEvent) → results es ++ after_results es ≡ es
unfolding results after_results
results-append [] = refl
results-append (e ∷ es) = elim (Bool-cases (is_tool e)) [
  | inl yes_tool ↦ rw (yes_tool) (ap (◌∷◌ e) (results-append es))
  | inr no_tool ↦ rw (no_tool)
]

pub length-results :
    (es : List MessageEvent) → length (results es) + length (after_results es) ≡ length es
unfolding results after_results
length-results [] = omega arith
length-results (e ∷ es) = ground (arith, length-results es)

abbrev pub AllTools : List MessageEvent → Type 0
AllTools [] = Unit {0}
AllTools (e ∷ es) = (is_tool e ≡ true) × AllTools es

pub results-AllTools : (es : List MessageEvent) → AllTools (results es)
unfolding results
results-AllTools [] = tt
results-AllTools (e ∷ es) = elim (Bool-cases (is_tool e)) [
  | inl yes_tool ↦ rw (yes_tool) (yes_tool, results-AllTools es)
  | inr no_tool ↦ rw (no_tool) tt
]

-- The counting of ids says that every call has its result.
pub is_answered-subset :
    (e : MessageEvent) (rs : List MessageEvent)
    → is_answered e rs ≡ true
    → subset (call_ids e) (result_ids rs) ≡ true
unfolding is_answered
is_answered-subset e rs h = subset-of_count (call_ids e) (result_ids rs) (
    ground (
      arith,
      ==_iff (length (distinct (only (distinct (call_ids e)) (result_ids rs))))
          (length (distinct (call_ids e))),
    ))

-- Groups that follow one another without a gap, from one index to another, none of them empty.
abbrev pub Chain : ℕ → List AtomicGroup → ℕ → Type 0
Chain i [] j = i ≡ j
Chain i (g ∷ gs) j = (g.start ≡ i) × (i < g.end) × Chain g.end gs j

groups_from-Chain :
    (n i : ℕ) (es : List MessageEvent)
    → length es ≤ n
    → Chain i (groups_from n i es) (i + length es)
unfolding groups_from
groups_from-Chain zero i [] h = omega arith
groups_from-Chain zero i (e ∷ es) h = absurd (omega arith)
groups_from-Chain (suc n) i [] h = omega arith
groups_from-Chain (suc n) i (e ∷ es) h = elim (Bool-cases (has_calls e)) [
  | inl calls ↦ rw (calls) (
    refl,
    omega arith,
    subst (Chain _ (groups_from n (suc i + length (results es)) (after_results es)))
        (omega (arith, length-results es))
        (groups_from-Chain n (suc i + length (results es)) (after_results es)
          (omega (arith, length-results es))),
  )
  | inr plain ↦ rw (plain) (
    refl,
    omega arith,
    subst (Chain (suc i) (groups_from n (suc i) es)) (omega arith)
        (groups_from-Chain n (suc i) es (omega arith)),
  )
]

-- The groups of a history follow one another without a gap from its first message to its last, and
-- none is empty: the loop ends, and has then seen every message.
pub atomic_groups-Chain :
    (content : List MessageEvent) → Chain 0 (atomic_groups content) (length content)
unfolding atomic_groups
atomic_groups-Chain content =
    subst (Chain 0 (atomic_groups content)) (omega arith)
      (groups_from-Chain (length content) 0 content (omega arith))
