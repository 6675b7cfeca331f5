-- ===== src/Subagent/Manager/Spawns.antt =====
-- internal/subagent/execution.go, `Spawn`: its slots and the counters.
use foya.Prelude.{
  suc, ◌+◌, ◌≡◌, refl, ap, true, List, [], ◌∷◌, arith, length, count_if, exists, Text, text_eq,
  text_eq_sound, Bool-cases, inl, inr,
}
use foya.Prelude.Map.{lookup-insert}
use foya.Subagent.Manager.{Manager, active_of, has_slot, spawn_acquire, spawn_release, remove_one}
use foya.Subagent.Manager.Counts.{bit}
use foya.Subagent.Manager.Slots.{IsValid, same_active, lookup-drop_active}

length-remove_one :
    (root : Text) (ts : List Text)
    → exists (λ t. text_eq t root) ts ≡ true
    → suc (length (remove_one root ts)) ≡ length ts
unfolding exists remove_one
length-remove_one root [] h = cc
length-remove_one root (t ∷ ts) h = elim (Bool-cases (text_eq t root)) [
  | inl same ↦ rw (same) refl
  | inr foreign ↦ rw (foreign) (ap suc (length-remove_one root ts (ground arith)))
]

same_text : (a b k : Text) → text_eq a b ≡ true → text_eq a k ≡ text_eq b k
same_text a b k h = ap (λ t. text_eq t k) (text_eq_sound a b h)

count_if-remove_one :
    (root k : Text) (ts : List Text)
    → exists (λ t. text_eq t root) ts ≡ true
    → count_if (λ t. text_eq t k) (remove_one root ts) + bit (text_eq root k)
      ≡ count_if (λ t. text_eq t k) ts
unfolding exists remove_one count_if
count_if-remove_one root k [] h = cc
count_if-remove_one root k (t ∷ ts) h = elim (Bool-cases (text_eq t root)) [
  | inl same ↦ ground (arith, same, same_text t root k same)
  | inr foreign ↦ ground (arith, foreign, count_if-remove_one root k ts)
]

pub spawn_acquire-IsValid : (root : Text) (m : Manager) → IsValid m → IsValid (spawn_acquire root m)
unfolding spawn_acquire count_if
spawn_acquire-IsValid root m v = elim (Bool-cases (has_slot m root)) [
  | inr full ↦ rw (full) v
  | inl free ↦ rw (free) (record {
    total = omega (arith, v.total);
    each = λ k. ground (
      arith,
      lookup-insert root k (active_of m root + 1) m.root_active,
      v.each k,
      same_active m root k,
    );
  })
]

pub spawn_release-IsValid : (root : Text) (m : Manager) → IsValid m → IsValid (spawn_release root m)
unfolding spawn_release
spawn_release-IsValid root m v = elim (Bool-cases (exists (λ t. text_eq t root) m.spawned)) [
  | inr nobody ↦ rw (nobody) v
  | inl there ↦ rw (there) (record {
    total = omega (arith, v.total, length-remove_one root m.spawned there);
    each = λ k. ground (
      arith,
      lookup-drop_active root k (active_of m root) m.root_active,
      v.each k,
      count_if-remove_one root k m.spawned there,
      same_active m root k,
    );
  })
]
