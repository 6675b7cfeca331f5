-- ===== src/Tool/Diff/Flags.antt =====
-- internal/tool/diff.go, `groupHunks`: the flags that say which edits stand in a hunk.
use foya.Prelude.{
  ℕ, zero, suc, ◌+◌, ◌-◌, ◌≤◌, ◌≡◌, refl, sym, ◌∙◌, ap, Bool, true, false, List, [], ◌∷◌, length,
  arith, if◌then◌else◌, subst, min, ◌<◌,
}
use foya.Tool.Diff.{DiffOp, is_change, keep_flags, mark, mark_changes, no_flags}

-- Every changed line is flagged.
abbrev pub Covers : List DiffOp → List Bool → Type 0
Covers [] keep = Unit {0}
Covers (o ∷ ops) [] = ⊥
Covers (o ∷ ops) (f ∷ fs) = (is_change o.kind ≡ true → f ≡ true) × Covers ops fs

abbrev flag_at : List Bool → ℕ → Bool
flag_at [] i = false
flag_at (f ∷ fs) zero = f
flag_at (f ∷ fs) (suc i) = flag_at fs i

abbrev change_at : List DiffOp → ℕ → Bool
change_at [] i = false
change_at (o ∷ ops) zero = is_change o.kind
change_at (o ∷ ops) (suc i) = change_at ops i

length-mark : (lo hi k : ℕ) (fs : List Bool) → length (mark lo hi k fs) ≡ length fs
unfolding mark
length-mark lo hi k [] = refl
length-mark lo hi k (f ∷ fs) = ap suc (length-mark lo hi (suc k) fs)

flag_at-mark :
    (lo hi k i : ℕ) (fs : List Bool)
    → lo ≤ k + i
    → k + i ≤ hi
    → i < length fs
    → flag_at (mark lo hi k fs) i ≡ true
unfolding mark
flag_at-mark lo hi k i [] p q r = absurd (omega arith)
flag_at-mark lo hi k zero (f ∷ fs) p q r = ground arith
flag_at-mark lo hi k (suc i) (f ∷ fs) p q r =
    flag_at-mark lo hi (suc k) i fs (omega arith) (omega arith) (omega arith)

flag_at-mark_keeps :
    (lo hi k i : ℕ) (fs : List Bool) → flag_at fs i ≡ true → flag_at (mark lo hi k fs) i ≡ true
unfolding mark
flag_at-mark_keeps lo hi k i [] h = h
flag_at-mark_keeps lo hi k zero (f ∷ fs) h = ground arith
flag_at-mark_keeps lo hi k (suc i) (f ∷ fs) h = flag_at-mark_keeps lo hi (suc k) i fs h

module _ (ctx n : ℕ) where
  mark_changes-keeps :
      (i j : ℕ) (ops : List DiffOp) (fs : List Bool)
      → flag_at fs j ≡ true
      → flag_at (mark_changes ctx n i ops fs) j ≡ true
  unfolding mark_changes
  mark_changes-keeps i j [] fs h = h
  mark_changes-keeps i j (o ∷ ops) fs h =
      mark_changes-keeps (suc i) j ops _
        (ground (arith, flag_at-mark_keeps (i - ctx) (min (i + ctx) (n - 1)) 0 j fs))

  length-mark_changes :
      (i : ℕ) (ops : List DiffOp) (fs : List Bool)
      → length (mark_changes ctx n i ops fs) ≡ length fs
  unfolding mark_changes
  length-mark_changes i [] fs = refl
  length-mark_changes i (o ∷ ops) fs =
      length-mark_changes (suc i) ops _
      ∙ ground (arith, length-mark (i - ctx) (min (i + ctx) (n - 1)) 0 fs)

  flag_at-mark_changes :
      (i p : ℕ) (ops : List DiffOp) (fs : List Bool)
      → n ≡ length fs
      → i + p < n
      → change_at ops p ≡ true
      → flag_at (mark_changes ctx n i ops fs) (i + p) ≡ true
  unfolding mark_changes
  flag_at-mark_changes i p [] fs e r h = cc
  flag_at-mark_changes i zero (o ∷ ops) fs e r h =
      mark_changes-keeps (suc i) (i + 0) ops _
        (ground (arith, flag_at-mark (i - ctx) (min (i + ctx) (n - 1)) 0 (i + 0) fs))
  flag_at-mark_changes i (suc p) (o ∷ ops) fs e r h =
      let shift : i + suc p ≡ suc i + p = omega arith in
      let same : length
            (if is_change o.kind then mark (i - ctx) (min (i + ctx) (n - 1)) 0 fs else fs)
          ≡ length fs =
        ground (arith, length-mark (i - ctx) (min (i + ctx) (n - 1)) 0 fs) in
      rw shift (flag_at-mark_changes (suc i) p ops _ (e ∙ sym same) (omega arith) h)

length-no_flags : (ops : List DiffOp) → length (no_flags ops) ≡ length ops
unfolding no_flags
length-no_flags [] = refl
length-no_flags (o ∷ ops) = ap suc (length-no_flags ops)

Covers-flags :
    (ops : List DiffOp) (fs : List Bool)
    → length fs ≡ length ops
    → ((p : ℕ) → p < length ops → change_at ops p ≡ true → flag_at fs p ≡ true)
    → Covers ops fs
Covers-flags [] fs e h = tt
Covers-flags (o ∷ ops) [] e h = absurd (omega arith)
Covers-flags (o ∷ ops) (f ∷ fs) e h =
    (h 0 (omega arith), Covers-flags ops fs (omega arith) (λ p r. h (suc p) (omega arith)))

pub keep_flags-Covers : (ctx : ℕ) (ops : List DiffOp) → Covers ops (keep_flags ctx ops)
unfolding keep_flags
keep_flags-Covers ctx ops =
    let len = length-no_flags ops in
    Covers-flags ops _ (length-mark_changes ctx (length ops) 0 ops (no_flags ops) ∙ len) λ p r h.
      subst (λ k. flag_at (mark_changes ctx (length ops) 0 ops (no_flags ops)) k ≡ true)
        (let from_zero : 0 + p ≡ p = omega arith in from_zero)
        (flag_at-mark_changes ctx (length ops) 0 p ops (no_flags ops) (sym len) (omega arith) h)
