-- ===== src/Tool/Diff.antt =====
-- internal/tool/diff.go: the line diff shown for a file change. A line is a text; the kind byte of
-- an edit is a data type, `byte` gives it back.
pub mod Script
pub mod Minimal
pub mod Patch
pub mod Flags
pub mod Hunks
pub mod Empty
mod Examples
use foya.Prelude.{
  ℕ, zero, suc, ◌+◌, ◌-◌, ◌≡◌, refl, Bool, true, false, ◌&&◌, Option, none, some, List, [], ◌∷◌,
  ◌++◌, map, length, is_empty, leb, min, ◌==◌, if◌then◌else◌, Text, text, text_eq, decimal,
}

pub data Kind : Type 0 where
  equal deleted added : Kind

abbrev pub byte : Kind → ℕ
byte equal = b' '
byte deleted = b'-'
byte added = b'+'

pub record DiffOp : Type 0 where
  pub kind : Kind
  pub line : Text

-- `strings.Split(s, "\n")`, whose result is never empty: the first line and those after it.
unfoldable pub cons_line : ℕ → List Text → List Text
cons_line c [] = (c ∷ []) ∷ []
cons_line c (l ∷ ls) = (c ∷ l) ∷ ls

unfoldable pub split_newline : Text → List Text
unfolding cons_line
split_newline [] = [] ∷ []
split_newline (c ∷ s) =
    let rest = split_newline s in if c == 10 then [] ∷ rest else cons_line c rest

-- Without the last line if that is empty.
drop_empty_last : List Text → List Text
drop_empty_last [] = []
drop_empty_last (l ∷ []) = if is_empty l then [] else l ∷ []
drop_empty_last (l ∷ m ∷ ls) = l ∷ drop_empty_last (m ∷ ls)

unfoldable pub split_lines : Text → List Text
unfolding split_newline drop_empty_last
split_lines s = if is_empty s then [] else drop_empty_last (split_newline s)

-- The table `lcs`, filled from its last row and column. A row has a cell for each suffix of `b`.
abbrev pub first : List ℕ → ℕ
first [] = 0
first (n ∷ ns) = n

abbrev pub rest_of : List ℕ → List ℕ
rest_of [] = []
rest_of (n ∷ ns) = ns

unfoldable pub lcs_row : Text → List Text → List ℕ → List ℕ
lcs_row x [] below = 0 ∷ []
lcs_row x (y ∷ ys) below =
    let right = lcs_row x ys (rest_of below) in
    (if text_eq x y
      then first (rest_of below) + 1
      else if leb (first right) (first below)
      then first below
      else first right)
    ∷ right

unfoldable pub zero_row : List Text → List ℕ
zero_row [] = 0 ∷ []
zero_row (y ∷ ys) = 0 ∷ zero_row ys

abbrev pub first_row : List (List ℕ) → List ℕ
first_row [] = []
first_row (r ∷ rs) = r

unfoldable pub lcs_table : List Text → List Text → List (List ℕ)
unfolding lcs_row zero_row
lcs_table [] ys = zero_row ys ∷ []
lcs_table (x ∷ xs) ys = let below = lcs_table xs ys in lcs_row x ys (first_row below) ∷ below

abbrev pub cell_of : List ℕ → ℕ → ℕ
cell_of [] j = 0
cell_of (n ∷ ns) zero = n
cell_of (n ∷ ns) (suc j) = cell_of ns j

-- `lcs[i][j]`; the loops stay within the table.
abbrev pub cell : List (List ℕ) → ℕ → ℕ → ℕ
cell [] i j = 0
cell (r ∷ rs) zero j = cell_of r j
cell (r ∷ rs) (suc i) j = cell rs i j

abbrev pub op : Kind → Text → DiffOp
op k l = record { kind = k; line = l }

-- The loops that walk the table. `a[i:]` and `b[j:]` are the lists.
unfoldable pub walk : List (List ℕ) → ℕ → ℕ → List Text → List Text → List DiffOp
walk t i j [] [] = []
walk t i j [] (y ∷ ys) = op added y ∷ walk t i (suc j) [] ys
walk t i j (x ∷ xs) [] = op deleted x ∷ walk t (suc i) j xs []
walk t i j (x ∷ xs) (y ∷ ys) = elim (text_eq x y) [
  | true ↦ op equal x ∷ walk t (suc i) (suc j) xs ys
  | false ↦ elim (leb (cell t i (suc j)) (cell t (suc i) j)) [
    | true ↦ op deleted x ∷ walk t (suc i) j xs (y ∷ ys)
    | false ↦ op added y ∷ walk t i (suc j) (x ∷ xs) ys
  ]
]

unfoldable pub diff_lines : List Text → List Text → List DiffOp
unfolding lcs_table walk
diff_lines a b = walk (lcs_table a b) 0 0 a b

pub record Hunk : Type 0 where
  pub old_start : ℕ
  pub old_count : ℕ
  pub new_start : ℕ
  pub new_count : ℕ
  pub lines : List Text

abbrev pub is_change : Kind → Bool
is_change equal = false
is_change _ = true

-- `for k := lo; k <= hi; k++ { keep[k] = true }`, over the flags from index `k` on.
unfoldable pub mark : ℕ → ℕ → ℕ → List Bool → List Bool
mark lo hi k [] = []
mark lo hi k (f ∷ fs) = (if leb lo k && leb k hi then true else f) ∷ mark lo hi (suc k) fs

unfoldable pub mark_changes : ℕ → ℕ → ℕ → List DiffOp → List Bool → List Bool
unfolding mark
mark_changes ctx n i [] keep = keep
mark_changes ctx n i (o ∷ ops) keep =
    mark_changes ctx n (suc i) ops
      (if is_change o.kind then mark (i - ctx) (min (i + ctx) (n - 1)) 0 keep else keep)

unfoldable pub no_flags : List DiffOp → List Bool
no_flags [] = []
no_flags (o ∷ ops) = false ∷ no_flags ops

unfoldable pub keep_flags : ℕ → List DiffOp → List Bool
unfolding mark_changes no_flags
keep_flags ctx ops = mark_changes ctx (length ops) 0 ops (no_flags ops)

-- How many lines of the old and of the new text an edit takes up.
abbrev pub old_width : Kind → ℕ
old_width added = 0
old_width _ = 1

abbrev pub new_width : Kind → ℕ
new_width deleted = 0
new_width _ = 1

-- The body of the inner loop.
unfoldable pub extend : Hunk → DiffOp → Hunk
extend h o = record h {
  old_count = h.old_count + old_width o.kind;
  new_count = h.new_count + new_width o.kind;
  lines = h.lines ++ (byte o.kind ∷ o.line) ∷ [];
}

abbrev pub empty_hunk : ℕ → ℕ → Hunk
empty_hunk old new = record {
  old_start = old;
  old_count = 0;
  new_start = new;
  new_count = 0;
  lines = [];
}

-- The two nested loops as one: the third argument is the hunk that the inner loop is filling.
unfoldable pub group : List DiffOp → List Bool → Option Hunk → ℕ → ℕ → List Hunk
unfolding extend
group [] keep none old new = []
group [] keep (some h) old new = h ∷ []
group (o ∷ ops) [] current old new = group ops [] current old new
group (o ∷ ops) (true ∷ keep) none old new =
    group ops keep (some (extend (empty_hunk old new) o)) (old + old_width o.kind)
      (new + new_width o.kind)
group (o ∷ ops) (true ∷ keep) (some h) old new =
    group ops keep (some (extend h o)) (old + old_width o.kind) (new + new_width o.kind)
group (o ∷ ops) (false ∷ keep) none old new =
    group ops keep none (old + old_width o.kind) (new + new_width o.kind)
group (o ∷ ops) (false ∷ keep) (some h) old new =
    h ∷ group ops keep none (old + old_width o.kind) (new + new_width o.kind)

unfoldable pub group_hunks : List DiffOp → ℕ → List Hunk
unfolding keep_flags group
group_hunks ops ctx = group ops (keep_flags ctx ops) none 1 1

abbrev pub newline : Text
newline = 10 ∷ []

concat : List Text → Text
concat [] = []
concat (t ∷ ts) = t ++ concat ts

render_hunk : Hunk → Text
unfolding concat
render_hunk h = concat (
    text "@@ -"
    ∷ decimal h.old_start
    ∷ text ","
    ∷ decimal h.old_count
    ∷ text " +"
    ∷ decimal h.new_start
    ∷ text ","
    ∷ decimal h.new_count
    ∷ text " @@"
    ∷ newline
    ∷ map (λ l. l ++ newline) h.lines)

render : Text → List Hunk → Text
unfolding render_hunk
render path hunks =
    text "--- "
    ++ (path ++ (newline ++ (text "+++ " ++ (path ++ (newline ++ concat (map render_hunk hunks))))))

unfoldable pub unified_diff : Text → Text → Text → Text
unfolding split_lines diff_lines group_hunks render
unified_diff path old_text new_text =
    let hunks = group_hunks (diff_lines (split_lines old_text) (split_lines new_text)) 3 in
    if text_eq old_text new_text then [] else if is_empty hunks then [] else render path hunks
