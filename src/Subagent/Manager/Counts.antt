-- ===== src/Subagent/Manager/Counts.antt =====
-- internal/subagent: the runs that have a slot, and how a change of one run changes their number.
use foya.Prelude.{
  if_some-cases, ℕ, ◌+◌, ◌≤◌, ◌<◌, ◌≡◌, refl, ap, Bool, true, false, ◌&&◌, some, List, [], ◌∷◌,
  arith, length, text_eq, ◌==◌, count_if, if◌then◌else◌, Text, map, ◌⊎◌, inl, inr, subst,
}
use foya.Subagent.Manager.{Run, Phase, working, finished, Manager, find_run, modify_run, is_of_root}

abbrev pub bit : Bool → ℕ
bit b = if b then 1 else 0

abbrev pub has_slot_in : Phase → Bool
has_slot_in working = true
has_slot_in finished = true
has_slot_in _ = false

-- Runs and calls of `Spawn` that have a slot, in all and of one root.
abbrev pub holds : Run → Bool
holds r = has_slot_in r.phase

abbrev pub holds_of : Text → Run → Bool
holds_of root r = holds r && is_of_root root r

abbrev pub holders : Manager → ℕ
holders m = count_if holds m.runs + length m.spawned

abbrev pub holders_of : Manager → Text → ℕ
holders_of m root = count_if (holds_of root) m.runs + count_if (λ t. text_eq t root) m.spawned

abbrev pub children_of : Manager → Text → ℕ
children_of m root = count_if (is_of_root root) m.runs

-- The first run or a later one is found.
find_run-cons :
    (id : ℕ) (q : Run) (rs : List Run) (r : Run)
    → find_run id (q ∷ rs) ≡ some r
    → (((q.id == id) ≡ true) × (q ≡ r)) ⊎ (((q.id == id) ≡ false) × (find_run id rs ≡ some r))
unfolding find_run
find_run-cons id q rs r e = if_some-cases (q.id == id) q r (find_run id rs) e

-- A run that is found is changed, and is counted as what it becomes.
pub count_if-modify_run :
    (p : Run → Bool) (f : Run → Run) (id : ℕ) (rs : List Run) (r : Run)
    → find_run id rs ≡ some r
    → count_if p (modify_run id f rs) + bit (p r) ≡ count_if p rs + bit (p (f r))
unfolding count_if find_run modify_run
count_if-modify_run p f id [] r e = cc
count_if-modify_run p f id (q ∷ rs) r e = elim (find_run-cons id q rs r e) [
  | inl (same, k) ↦
      subst
        (λ x.
          count_if p (modify_run id f (q ∷ rs)) + bit (p x) ≡ count_if p (q ∷ rs) + bit (p (f x)))
        k (ground arith)
  | inr (other, k) ↦ ground (arith, count_if-modify_run p f id rs r k)
]

pub count_if-modify_same :
    (p : Run → Bool) (f : Run → Run) (id : ℕ) (rs : List Run)
    → ((r : Run) → p (f r) ≡ p r)
    → count_if p (modify_run id f rs) ≡ count_if p rs
unfolding count_if modify_run
count_if-modify_same p f id [] h = refl
count_if-modify_same p f id (r ∷ rs) h = ground (arith, count_if-modify_same p f id rs h, h r)

pub count_if-map_same :
    (p : Run → Bool) (f : Run → Run) (rs : List Run)
    → ((r : Run) → p (f r) ≡ p r)
    → count_if p (map f rs) ≡ count_if p rs
unfolding count_if
count_if-map_same p f [] h = refl
count_if-map_same p f (r ∷ rs) h = ground (arith, count_if-map_same p f rs h, h r)

-- Who has a slot of a root has a slot.
holders_of-le : (root : Text) (rs : List Run) → count_if (holds_of root) rs ≤ count_if holds rs
unfolding count_if
holders_of-le root [] = omega arith
holders_of-le root (r ∷ rs) = ground (arith, holders_of-le root rs)

-- The run that is found has the identifier.
pub find_run-id : (id : ℕ) (rs : List Run) (r : Run) → find_run id rs ≡ some r → r.id ≡ id
unfolding find_run
find_run-id id [] r e = cc
find_run-id id (q ∷ rs) r e = ground (arith, find_run-id id rs r)

pub count_if-find_run :
    (p : Run → Bool) (id : ℕ) (rs : List Run) (r : Run)
    → find_run id rs ≡ some r
    → p r ≡ true
    → 0 < count_if p rs
unfolding count_if find_run
count_if-find_run p id [] r e h = cc
count_if-find_run p id (q ∷ rs) r e h = elim (find_run-cons id q rs r e) [
  | inl (same, k) ↦ ground (arith, ap p k)
  | inr (other, k) ↦ ground (arith, count_if-find_run p id rs r k h)
]
