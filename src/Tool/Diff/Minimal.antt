-- ===== src/Tool/Diff/Minimal.antt =====
-- internal/tool/diff.go: the table of `diffLines`, and the length of the edit sequence.
use foya.Prelude.{
  ℕ, zero, suc, ◌+◌, ◌≤◌, ◌≡◌, refl, ◌∙◌, ap, true, false, List, [], ◌∷◌, length, arith, text_eq,
  text_eq_refl, Text, max, drop,
}
use mathlib.Core.Path.{ap₂}
use foya.Tool.Diff.{
  Kind, equal, deleted, added, DiffOp, op, cell, cell_of, first, rest_of, first_row, walk, lcs_row,
  zero_row, lcs_table, diff_lines,
}
use foya.Tool.Diff.Script.{old_of, new_of, diff_lines_sound}

-- The length of a longest common subsequence.
lcs : List Text → List Text → ℕ
lcs [] ys = 0
lcs (x ∷ xs) [] = 0
lcs (x ∷ xs) (y ∷ ys) = elim (text_eq x y) [
  | true ↦ suc (lcs xs ys)
  | false ↦ max (lcs xs (y ∷ ys)) (lcs (x ∷ xs) ys)
]

lcs-nil : (xs : List Text) → lcs xs [] ≡ 0
unfolding lcs
lcs-nil [] = refl
lcs-nil (x ∷ xs) = refl

-- One more line on a side takes nothing away, and adds at most one.
record Grows (xs ys : List Text) : Type 0 where
  left : (x : Text) → (lcs xs ys ≤ lcs (x ∷ xs) ys) × (lcs (x ∷ xs) ys ≤ suc (lcs xs ys))
  right : (y : Text) → (lcs xs ys ≤ lcs xs (y ∷ ys)) × (lcs xs (y ∷ ys) ≤ suc (lcs xs ys))

lcs-Grows : (xs ys : List Text) → Grows xs ys
unfolding lcs
lcs-Grows [] [] = record { left = λ x. omega arith; right = λ y. omega arith }
lcs-Grows [] (z ∷ ys) =
    let g = lcs-Grows [] ys in
    record { left = λ x. ground (arith, g.left x, g.right z); right = λ y. omega arith }
lcs-Grows (z ∷ xs) [] =
    let g = lcs-Grows xs [] in
    record { left = λ x. omega arith; right = λ y. ground (arith, g.left z, g.right y, lcs-nil xs) }
lcs-Grows (v ∷ xs) (w ∷ ys) =
    let g = lcs-Grows (v ∷ xs) ys in
    let k = lcs-Grows xs (w ∷ ys) in
    record {
      left = λ x. ground (arith, g.left x, g.right w);
      right = λ y. ground (arith, k.left v, k.right y);
    }

-- How many lines an edit sequence keeps.
abbrev pub kept : Kind → ℕ → ℕ
kept equal n = suc n
kept _ n = n

abbrev pub kept_count : List DiffOp → ℕ
kept_count [] = 0
kept_count (o ∷ ops) = kept o.kind (kept_count ops)

kept_count-op :
    (k : Kind) (l : Text) (ops : List DiffOp)
    → kept_count ops ≤ lcs (old_of ops) (new_of ops)
    → kept_count (op k l ∷ ops) ≤ lcs (old_of (op k l ∷ ops)) (new_of (op k l ∷ ops))
unfolding lcs
kept_count-op equal l ops h = rw (text_eq_refl l, lcs) (omega arith)
kept_count-op deleted l ops h = omega (arith, (lcs-Grows (old_of ops) (new_of ops)).left l)
kept_count-op added l ops h = omega (arith, (lcs-Grows (old_of ops) (new_of ops)).right l)

kept_count-le-lcs : (ops : List DiffOp) → kept_count ops ≤ lcs (old_of ops) (new_of ops)
kept_count-le-lcs [] = omega arith
kept_count-le-lcs (o ∷ ops) = kept_count-op o.kind o.line ops (kept_count-le-lcs ops)

length-op :
    (k : Kind) (l : Text) (ops : List DiffOp)
    → length ops + kept_count ops ≡ length (old_of ops) + length (new_of ops)
    → length (op k l ∷ ops) + kept_count (op k l ∷ ops)
      ≡ length (old_of (op k l ∷ ops)) + length (new_of (op k l ∷ ops))
length-op equal l ops h = omega arith
length-op deleted l ops h = omega arith
length-op added l ops h = omega arith

length-kept_count :
    (ops : List DiffOp) → length ops + kept_count ops ≡ length (old_of ops) + length (new_of ops)
length-kept_count [] = omega arith
length-kept_count (o ∷ ops) = length-op o.kind o.line ops (length-kept_count ops)

first-cell_of : (r : List ℕ) → first r ≡ cell_of r 0
first-cell_of [] = refl
first-cell_of (n ∷ ns) = refl

rest_of-cell_of : (r : List ℕ) (j : ℕ) → cell_of (rest_of r) j ≡ cell_of r (suc j)
rest_of-cell_of [] j = refl
rest_of-cell_of (n ∷ ns) j = refl

-- A row that holds the values for `xs` and every suffix of `ys`.
abbrev RowFor : List ℕ → List Text → List Text → Type 0
RowFor r xs ys = (j : ℕ) → cell_of r j ≡ lcs xs (drop j ys)

zero_row-RowFor : (ys : List Text) → RowFor (zero_row ys) [] ys
unfolding zero_row lcs
zero_row-RowFor [] zero = refl
zero_row-RowFor [] (suc j) = refl
zero_row-RowFor (y ∷ ys) zero = refl
zero_row-RowFor (y ∷ ys) (suc j) = zero_row-RowFor ys j

lcs_row-RowFor :
    (x : Text) (xs ys : List Text) (below : List ℕ)
    → RowFor below xs ys
    → RowFor (lcs_row x ys below) (x ∷ xs) ys
unfolding lcs_row lcs
lcs_row-RowFor x xs [] below h zero = refl
lcs_row-RowFor x xs [] below h (suc j) = refl
lcs_row-RowFor x xs (y ∷ ys) below h zero =
    let right = lcs_row-RowFor x xs ys (rest_of below) (λ j. rest_of-cell_of below j ∙ h (suc j)) in
    ground (
      arith,
      right 0,
      h 0,
      h 1,
      first-cell_of below,
      first-cell_of (rest_of below),
      rest_of-cell_of below 0,
      first-cell_of (lcs_row x ys (rest_of below)),
    )
lcs_row-RowFor x xs (y ∷ ys) below h (suc j) =
    lcs_row-RowFor x xs ys (rest_of below) (λ k. rest_of-cell_of below k ∙ h (suc k)) j

abbrev TableFor : List (List ℕ) → List Text → List Text → Type 0
TableFor t xs ys = (i j : ℕ) → cell t i j ≡ lcs (drop i xs) (drop j ys)

first_row-cell : (t : List (List ℕ)) (j : ℕ) → cell_of (first_row t) j ≡ cell t 0 j
first_row-cell [] j = refl
first_row-cell (r ∷ rs) j = refl

lcs_table-TableFor : (xs ys : List Text) → TableFor (lcs_table xs ys) xs ys
unfolding lcs_table
lcs_table-TableFor [] ys zero j = zero_row-RowFor ys j
lcs_table-TableFor [] ys (suc i) j = unfold lcs in refl
lcs_table-TableFor (x ∷ xs) ys zero j =
    lcs_row-RowFor x xs ys _
      (λ k. first_row-cell (lcs_table xs ys) k ∙ lcs_table-TableFor xs ys 0 k) j
lcs_table-TableFor (x ∷ xs) ys (suc i) j = lcs_table-TableFor xs ys i j

drop-tail :
    (i : ℕ) (a : List Text) (x : Text) (xs : List Text) → drop i a ≡ x ∷ xs → drop (suc i) a ≡ xs
drop-tail zero [] x xs e = cc
drop-tail zero (y ∷ a) x xs e = cc
drop-tail (suc i) [] x xs e = cc
drop-tail (suc i) (y ∷ a) x xs e = drop-tail i a x xs e

module _ (t : List (List ℕ)) (a b : List Text) (filled : TableFor t a b) where
  walk-kept_count :
      (i j : ℕ) (xs ys : List Text)
      → drop i a ≡ xs
      → drop j b ≡ ys
      → kept_count (walk t i j xs ys) ≡ lcs xs ys
  unfolding walk lcs
  walk-kept_count i j [] [] p q = refl
  walk-kept_count i j [] (y ∷ ys) p q = walk-kept_count i (suc j) [] ys p (drop-tail j b y ys q)
  walk-kept_count i j (x ∷ xs) [] p q =
      walk-kept_count (suc i) j xs [] (drop-tail i a x xs p) q ∙ lcs-nil xs
  walk-kept_count i j (x ∷ xs) (y ∷ ys) p q =
      let p' = drop-tail i a x xs p in
      let q' = drop-tail j b y ys q in
      let down : cell t (suc i) j ≡ lcs xs (y ∷ ys) = filled (suc i) j ∙ ap₂ lcs p' q in
      let right : cell t i (suc j) ≡ lcs (x ∷ xs) ys = filled i (suc j) ∙ ap₂ lcs p q' in
      ground (
        arith,
        down,
        right,
        walk-kept_count (suc i) (suc j) xs ys p' q',
        walk-kept_count (suc i) j xs (y ∷ ys) p' q,
        walk-kept_count i (suc j) (x ∷ xs) ys p q',
      )

diff_lines-kept_count : (a b : List Text) → kept_count (diff_lines a b) ≡ lcs a b
unfolding diff_lines
diff_lines-kept_count a b =
    walk-kept_count (lcs_table a b) a b (lcs_table-TableFor a b) 0 0 a b refl refl

-- Every edit sequence that reads the old lines and writes the new ones is at least as long as the
-- one that `diff_lines` returns.
pub diff_lines-minimal :
    (a b : List Text) (ops : List DiffOp)
    → old_of ops ≡ a
    → new_of ops ≡ b
    → length (diff_lines a b) ≤ length ops
diff_lines-minimal a b ops p q =
    let (p', q') = diff_lines_sound a b in
    let most : kept_count ops ≤ kept_count (diff_lines a b) =
      rw (diff_lines-kept_count a b, ← p, ← q) (kept_count-le-lcs ops) in
    omega (
      arith,
      most,
      length-kept_count ops,
      length-kept_count (diff_lines a b),
      ap length p,
      ap length q,
      ap length p',
      ap length q',
    )
