-- ===== src/Tool/Diff/Script.antt =====
-- internal/tool/diff.go: an edit sequence as a description of two texts.
use foya.Prelude.{ℕ, suc, ◌≡◌, refl, List, [], ◌∷◌, ap, arith, text_eq_sound, Text}
use foya.Tool.Diff.{Kind, deleted, added, DiffOp, walk, diff_lines}

-- The old lines that an edit sequence reads, and the new ones that it writes.
abbrev pub old_lines : Kind → Text → List Text → List Text
old_lines added l rest = rest
old_lines _ l rest = l ∷ rest

abbrev pub new_lines : Kind → Text → List Text → List Text
new_lines deleted l rest = rest
new_lines _ l rest = l ∷ rest

abbrev pub old_of : List DiffOp → List Text
old_of [] = []
old_of (o ∷ ops) = old_lines o.kind o.line (old_of ops)

abbrev pub new_of : List DiffOp → List Text
new_of [] = []
new_of (o ∷ ops) = new_lines o.kind o.line (new_of ops)

walk-old : (t : List (List ℕ)) (i j : ℕ) (a b : List Text) → old_of (walk t i j a b) ≡ a
unfolding walk
walk-old t i j [] [] = refl
walk-old t i j [] (y ∷ ys) = walk-old t i (suc j) [] ys
walk-old t i j (x ∷ xs) [] = ap (◌∷◌ x) (walk-old t (suc i) j xs [])
walk-old t i j (x ∷ xs) (y ∷ ys) = ground (
  arith,
  walk-old t (suc i) (suc j) xs ys,
  walk-old t (suc i) j xs (y ∷ ys),
  walk-old t i (suc j) (x ∷ xs) ys,
)

walk-new : (t : List (List ℕ)) (i j : ℕ) (a b : List Text) → new_of (walk t i j a b) ≡ b
unfolding walk
walk-new t i j [] [] = refl
walk-new t i j [] (y ∷ ys) = ap (◌∷◌ y) (walk-new t i (suc j) [] ys)
walk-new t i j (x ∷ xs) [] = walk-new t (suc i) j xs []
walk-new t i j (x ∷ xs) (y ∷ ys) = ground (
  arith,
  text_eq_sound x y,
  walk-new t (suc i) (suc j) xs ys,
  walk-new t (suc i) j xs (y ∷ ys),
  walk-new t i (suc j) (x ∷ xs) ys,
)

-- The edits between two texts read exactly the old lines and write exactly the new ones.
pub diff_lines_sound :
    (a b : List Text) → (old_of (diff_lines a b) ≡ a) × (new_of (diff_lines a b) ≡ b)
unfolding diff_lines
diff_lines_sound a b = (walk-old _ 0 0 a b, walk-new _ 0 0 a b)
