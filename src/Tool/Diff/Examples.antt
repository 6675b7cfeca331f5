-- ===== src/Tool/Diff/Examples.antt =====
-- Runs of the line diff, and its theorems at two small texts.
use foya.Prelude.{◌≡◌, refl, ◌≤◌, List, [], ◌∷◌, length, Text, text, text_eq, decimal}
use foya.Tool.Diff.{
  DiffOp, op, deleted, added, equal, diff_lines, group_hunks, split_lines, unified_diff,
}
use foya.Tool.Diff.Minimal.{diff_lines-minimal}
use foya.Tool.Diff.Patch.{patch}
use foya.Tool.Diff.Hunks.{patch-diff_lines}
use foya.Tool.Diff.Empty.{unified_diff-empty}
use mathlib.Core.Option.{some}
use mathlib.Core.Logic.{◌↔◌}

unified_diff_runs :
    unified_diff (text "f") (text "a\nb\n") (text "a\nc\n")
    ≡ text "--- f\n+++ f\n@@ -1,2 +1,2 @@\n a\n-b\n+c\n"
unfolding unified_diff text_eq decimal
unified_diff_runs = refl

abbrev before : List Text
before = text "a" ∷ text "b" ∷ text "c" ∷ []

abbrev after : List Text
after = text "a" ∷ text "x" ∷ text "c" ∷ text "d" ∷ []

-- An edit sequence that keeps one line less.
abbrev longer : List DiffOp
longer =
    op equal (text "a")
    ∷ op deleted (text "b")
    ∷ op deleted (text "c")
    ∷ op added (text "x")
    ∷ op added (text "c")
    ∷ op added (text "d")
    ∷ []

diff_lines-minimal_example : length (diff_lines before after) ≤ 6
diff_lines-minimal_example = diff_lines-minimal before after longer refl refl

patch-diff_lines_example : patch 1 1 (group_hunks (diff_lines before after) 3) before ≡ some after
patch-diff_lines_example = patch-diff_lines before after 3

unified_diff-empty_example :
    (unified_diff (text "f") (text "a") (text "a\n") ≡ [])
    ↔ (split_lines (text "a") ≡ split_lines (text "a\n"))
unified_diff-empty_example = unified_diff-empty (text "f") (text "a") (text "a\n")
