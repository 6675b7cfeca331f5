-- ===== src/Tool/Diff/Empty.antt =====
-- internal/tool/diff.go, `UnifiedDiff`: when there is nothing to show.
use foya.Prelude.{
  ℕ, suc, ◌≡◌, refl, sym, ◌∙◌, ap, inl, inr, ◌↔◌, Bool, true, none, some, List, [], ◌∷◌, arith,
  is_empty, text_eq, text_eq_sound, Text, Bool-cases, text_eq_refl,
}
use foya.Tool.Diff.{
  Hunk, DiffOp, equal, op, split_lines, walk, lcs_table, diff_lines, mark_changes, no_flags,
  keep_flags, group, group_hunks, unified_diff,
}
use foya.Tool.Diff.Patch.{patch, patch-nil}
use foya.Tool.Diff.Hunks.{patch-diff_lines}

abbrev all_equal : List Text → List DiffOp
all_equal [] = []
all_equal (x ∷ xs) = op equal x ∷ all_equal xs

walk-same : (t : List (List ℕ)) (i j : ℕ) (a : List Text) → walk t i j a a ≡ all_equal a
unfolding walk
walk-same t i j [] = refl
walk-same t i j (x ∷ xs) = ground (arith, text_eq_refl x, walk-same t (suc i) (suc j) xs)

mark_changes-all_equal :
    (ctx n i : ℕ) (a : List Text) (fs : List Bool) → mark_changes ctx n i (all_equal a) fs ≡ fs
unfolding mark_changes
mark_changes-all_equal ctx n i [] fs = refl
mark_changes-all_equal ctx n i (x ∷ xs) fs = mark_changes-all_equal ctx n (suc i) xs fs

group-no_flags : (ops : List DiffOp) (old new : ℕ) → group ops (no_flags ops) none old new ≡ []
unfolding group no_flags
group-no_flags [] old new = refl
group-no_flags (o ∷ ops) old new = group-no_flags ops _ _

group_hunks-same : (a : List Text) (ctx : ℕ) → group_hunks (diff_lines a a) ctx ≡ []
unfolding group_hunks keep_flags diff_lines
group_hunks-same a ctx =
    rw (walk-same (lcs_table a a) 0 0 a, mark_changes-all_equal ctx _ 0 a (no_flags (all_equal a)))
      (group-no_flags (all_equal a) 1 1)

group_hunks-nil : (a b : List Text) (ctx : ℕ) → group_hunks (diff_lines a b) ctx ≡ [] → a ≡ b
group_hunks-nil a b ctx e =
    let same : some a ≡ some b =
      sym (patch-nil 1 1 a) ∙ ap (λ hs. patch 1 1 hs a) (sym e) ∙ patch-diff_lines a b ctx in
    cc

is_empty-nil {ℓ} : {A : Type ℓ} (xs : List A) → is_empty xs ≡ true → xs ≡ []
is_empty-nil [] h = refl
is_empty-nil (x ∷ xs) h = cc

-- The diff is empty exactly when the two texts split into the same lines.
pub unified_diff-empty :
    (path old_text new_text : Text)
    → (unified_diff path old_text new_text ≡ []) ↔ (split_lines old_text ≡ split_lines new_text)
unfolding unified_diff
unified_diff-empty path old_text new_text = (same, empty)
  where
    hunks : List Hunk
    hunks = group_hunks (diff_lines (split_lines old_text) (split_lines new_text)) 3

    same : unified_diff path old_text new_text ≡ [] → split_lines old_text ≡ split_lines new_text
    same h = elim (Bool-cases (text_eq old_text new_text)) [
      | inl e ↦ ap split_lines (text_eq_sound old_text new_text e)
      | inr e ↦ elim (Bool-cases (is_empty hunks)) [
        | inl f ↦ group_hunks-nil _ _ 3 (is_empty-nil hunks f)
        | inr f ↦ ground arith
      ]
    ]

    empty : split_lines old_text ≡ split_lines new_text → unified_diff path old_text new_text ≡ []
    empty e =
        let none_left : hunks ≡ [] =
          ap (λ b. group_hunks (diff_lines (split_lines old_text) b) 3) (sym e)
          ∙ group_hunks-same (split_lines old_text) 3 in
        ground (arith, ap is_empty none_left)
