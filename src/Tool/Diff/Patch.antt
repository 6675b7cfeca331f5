-- ===== src/Tool/Diff/Patch.antt =====
-- internal/tool/diff.go: the hunks as a patch. `patch` is what a program does that applies them to
-- the old text: it finds each hunk by its header, checks the header's counts, copies the lines
-- between hunks, and compares every context and deleted line with the text.
use foya.Prelude.{
  ℕ, ◌+◌, ◌-◌, ◌≡◌, refl, ◌∙◌, ap, Bool, true, false, ◌&&◌, Option, none, some, List, [], ◌∷◌, ◌++◌,
  length, take, drop, arith, text_eq, text_eq_refl, leb, ◌==◌, Text, if◌then◌else◌, length-append,
  drop-append, take-append,
}
use foya.Tool.Diff.{Kind, equal, deleted, added, DiffOp, op, byte, Hunk}
use foya.Tool.Diff.Script.{old_of, new_of, old_lines, new_lines}

-- What one line of a hunk writes, and the text behind it.
take_line : Text → List Text → List Text → Option (List Text × List Text)
take_line l written [] = none
take_line l written (x ∷ xs) = if text_eq l x then some (written, xs) else none

read_line : Text → List Text → Option (List Text × List Text)
unfolding take_line
read_line [] src = none
read_line (k ∷ l) src =
    if k == byte added
    then some (l ∷ [], src)
    else if k == byte equal
    then take_line l (l ∷ []) src
    else if k == byte deleted
    then take_line l [] src
    else none

apply_lines : List Text → List Text → Option (List Text × List Text)
unfolding read_line
apply_lines [] src = some ([], src)
apply_lines (l ∷ ls) src = elim (read_line l src) [
  | none ↦ none
  | some (w, rest) ↦ elim (apply_lines ls rest) [
    | none ↦ none
    | some (ws, rest') ↦ some (w ++ ws, rest')
  ]
]

-- The header's counts are what the lines read and write.
fits : Hunk → List Text → List Text → List Text → Bool
fits h src written rest =
    (length src == h.old_count + length rest) && (length written == h.new_count)

apply_hunk : Hunk → List Text → Option (List Text × List Text)
unfolding apply_lines fits
apply_hunk h src = elim (apply_lines h.lines src) [
  | none ↦ none
  | some (written, rest) ↦ if fits h src written rest then some (written, rest) else none
]

-- `o` and `n` are the numbers of the next old and new line, from 1.
pub patch : ℕ → ℕ → List Hunk → List Text → Option (List Text)
unfolding apply_hunk
patch o n [] src = some src
patch o n (h ∷ hs) src =
    let gap = h.old_start - o in
    elim (leb o h.old_start && leb gap (length src) && (h.new_start == n + gap)) [
      | false ↦ none
      | true ↦ elim (apply_hunk h (drop gap src)) [
        | none ↦ none
        | some (written, rest) ↦
            elim (patch (h.old_start + h.old_count) (h.new_start + h.new_count) hs rest) [
              | none ↦ none
              | some out ↦ some (take gap src ++ (written ++ out))
            ]
      ]
    ]

abbrev pub script_lines : List DiffOp → List Text
script_lines [] = []
script_lines (o ∷ ops) = (byte o.kind ∷ o.line) ∷ script_lines ops

-- The hunk that holds the edits `d`.
abbrev pub hunk_of : ℕ → ℕ → List DiffOp → Hunk
hunk_of old new d = record {
  old_start = old;
  old_count = length (old_of d);
  new_start = new;
  new_count = length (new_of d);
  lines = script_lines d;
}

read_line-op :
    (k : Kind) (l : Text) (d : List DiffOp) (rest : List Text)
    → read_line (byte k ∷ l) (old_of (op k l ∷ d) ++ rest)
      ≡ some (new_lines k l [], old_of d ++ rest)
unfolding read_line
read_line-op equal l d rest = rw (text_eq_refl l)
read_line-op deleted l d rest = rw (text_eq_refl l)
read_line-op added l d rest = refl

pub new_lines-append :
    (k : Kind) (l : Text) (ws : List Text) → new_lines k l [] ++ ws ≡ new_lines k l ws
new_lines-append equal l ws = refl
new_lines-append deleted l ws = refl
new_lines-append added l ws = refl

pub old_lines-append :
    (k : Kind) (l : Text) (ws : List Text) → old_lines k l [] ++ ws ≡ old_lines k l ws
old_lines-append equal l ws = refl
old_lines-append deleted l ws = refl
old_lines-append added l ws = refl

apply_lines-script :
    (d : List DiffOp) (rest : List Text)
    → apply_lines (script_lines d) (old_of d ++ rest) ≡ some (new_of d, rest)
unfolding apply_lines
apply_lines-script [] rest = refl
apply_lines-script (o ∷ d) rest = ground (
  arith,
  read_line-op o.kind o.line d rest,
  apply_lines-script d rest,
  new_lines-append o.kind o.line (new_of d),
)

apply_hunk-script :
    (old new : ℕ) (d : List DiffOp) (rest : List Text)
    → apply_hunk (hunk_of old new d) (old_of d ++ rest) ≡ some (new_of d, rest)
unfolding apply_hunk
apply_hunk-script old new d rest =
    ground (arith, apply_lines-script d rest, length-append (old_of d) rest)

-- One hunk, behind the lines `s` that no hunk holds.
pub patch-hunk :
    (o n old new : ℕ) (s : List Text) (d : List DiffOp) (hs : List Hunk) (rest out : List Text)
    → old ≡ o + length s
    → new ≡ n + length s
    → patch (old + length (old_of d)) (new + length (new_of d)) hs rest ≡ some out
    → patch o n (hunk_of old new d ∷ hs) (s ++ (old_of d ++ rest)) ≡ some (s ++ (new_of d ++ out))
unfolding patch
patch-hunk o n old new s d hs rest out p q h =
    let src = s ++ (old_of d ++ rest) in
    ground (
      arith,
      length-append s (old_of d ++ rest),
      ap (λ k. drop k src) gap ∙ drop-append s (old_of d ++ rest),
      ap (λ k. take k src) gap ∙ take-append s (old_of d ++ rest),
      apply_hunk-script old new d rest,
    )
  where
    gap : old - o ≡ length s
    gap = omega arith

pub patch-nil : (o n : ℕ) (src : List Text) → patch o n [] src ≡ some src
unfolding patch
patch-nil o n src = refl
