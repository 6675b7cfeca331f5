-- ===== src/Tool/Diff/Hunks.antt =====
-- internal/tool/diff.go, `groupHunks`: the hunks applied to the old lines.
use foya.Prelude.{
  ℕ, ◌+◌, ◌≡◌, refl, ◌∙◌, ap, Bool, true, false, none, some, List, [], ◌∷◌, ◌++◌, length, arith,
  Text, length-append, subst,
}
use mathlib.Core.List.{append_assoc}
use foya.Tool.Diff.{
  Kind, equal, deleted, added, DiffOp, empty_hunk, extend, is_change, old_width, new_width, group,
  group_hunks, keep_flags, diff_lines,
}
use foya.Tool.Diff.Script.{old_of, new_of, old_lines, new_lines, diff_lines_sound}
use foya.Tool.Diff.Patch.{
  patch, hunk_of, script_lines, patch-hunk, old_lines-append, new_lines-append, patch-nil,
}
use foya.Tool.Diff.Flags.{Covers, keep_flags-Covers}

old_of-append : (d e : List DiffOp) → old_of (d ++ e) ≡ old_of d ++ old_of e
old_of-append [] e = refl
old_of-append (o ∷ d) e = ground (arith, old_of-append d e)

new_of-append : (d e : List DiffOp) → new_of (d ++ e) ≡ new_of d ++ new_of e
new_of-append [] e = refl
new_of-append (o ∷ d) e = ground (arith, new_of-append d e)

script_lines-append : (d e : List DiffOp) → script_lines (d ++ e) ≡ script_lines d ++ script_lines e
script_lines-append [] e = refl
script_lines-append (o ∷ d) e = rw (script_lines-append d e)

length-old_lines : (k : Kind) (l : Text) → length (old_lines k l []) ≡ old_width k
length-old_lines equal l = refl
length-old_lines deleted l = refl
length-old_lines added l = refl

length-new_lines : (k : Kind) (l : Text) → length (new_lines k l []) ≡ new_width k
length-new_lines equal l = refl
length-new_lines deleted l = refl
length-new_lines added l = refl

extend-hunk_of :
    (old new : ℕ) (d : List DiffOp) (o : DiffOp)
    → extend (hunk_of old new d) o ≡ hunk_of old new (d ++ o ∷ [])
unfolding extend
extend-hunk_of old new d o = ground (
  arith,
  old_of-append d (o ∷ []),
  new_of-append d (o ∷ []),
  script_lines-append d (o ∷ []),
  length-append (old_of d) (old_of (o ∷ [])),
  length-append (new_of d) (new_of (o ∷ [])),
  length-old_lines o.kind o.line,
  length-new_lines o.kind o.line,
)

first-hunk_of :
    (old new : ℕ) (o : DiffOp) → extend (empty_hunk old new) o ≡ hunk_of old new (o ∷ [])
first-hunk_of old new o = extend-hunk_of old new [] o

old_of-last :
    (d : List DiffOp) (o : DiffOp)
    → length (old_of (d ++ o ∷ [])) ≡ length (old_of d) + old_width o.kind
old_of-last d o = ground (
  arith,
  old_of-append d (o ∷ []),
  length-append (old_of d) (old_of (o ∷ [])),
  length-old_lines o.kind o.line,
)

new_of-last :
    (d : List DiffOp) (o : DiffOp)
    → length (new_of (d ++ o ∷ [])) ≡ length (new_of d) + new_width o.kind
new_of-last d o = ground (
  arith,
  new_of-append d (o ∷ []),
  length-append (new_of d) (new_of (o ∷ [])),
  length-new_lines o.kind o.line,
)

-- The text behind an open hunk, with one more edit in the hunk.
shift-old :
    (s : List Text) (d : List DiffOp) (o : DiffOp) (ops : List DiffOp)
    → s ++ (old_of (d ++ o ∷ []) ++ old_of ops) ≡ s ++ (old_of d ++ old_of (o ∷ ops))
shift-old s d o ops =
    rw (old_of-append d (o ∷ []), append_assoc (old_of d) (old_of (o ∷ [])) (old_of ops))
      (ap (λ t. s ++ (old_of d ++ t)) (old_lines-append o.kind o.line (old_of ops)))

shift-new :
    (s : List Text) (d : List DiffOp) (o : DiffOp) (ops : List DiffOp)
    → s ++ (new_of (d ++ o ∷ []) ++ new_of ops) ≡ s ++ (new_of d ++ new_of (o ∷ ops))
shift-new s d o ops =
    rw (new_of-append d (o ∷ []), append_assoc (new_of d) (new_of (o ∷ [])) (new_of ops))
      (ap (λ t. s ++ (new_of d ++ t)) (new_lines-append o.kind o.line (new_of ops)))

-- An edit that no hunk holds keeps its line.
record Keeps (o : DiffOp) : Type 0 where
  old_line : (ls : List Text) → old_lines o.kind o.line ls ≡ o.line ∷ ls
  new_line : (ls : List Text) → new_lines o.kind o.line ls ≡ o.line ∷ ls
  old_one : old_width o.kind ≡ 1
  new_one : new_width o.kind ≡ 1

unchanged-equal : (k : Kind) → (is_change k ≡ true → false ≡ true) → k ≡ equal
unchanged-equal equal h = refl
unchanged-equal deleted h = cc (h refl)
unchanged-equal added h = cc (h refl)

unchanged-Keeps : (o : DiffOp) → (is_change o.kind ≡ true → false ≡ true) → Keeps o
unchanged-Keeps o h =
    let e = unchanged-equal o.kind h in
    record {
      old_line = λ ls. ap (λ k. old_lines k o.line ls) e;
      new_line = λ ls. ap (λ k. new_lines k o.line ls) e;
      old_one = ap old_width e;
      new_one = ap new_width e;
    }

mutual
  unfolding group

  patch-open :
      (ops : List DiffOp) (keep : List Bool) (o n old new old' new' : ℕ) (s : List Text)
      (d : List DiffOp)
      → Covers ops keep
      → old ≡ o + length s
      → new ≡ n + length s
      → old' ≡ old + length (old_of d)
      → new' ≡ new + length (new_of d)
      → patch o n
          (group ops keep (some (hunk_of old new d)) old' new')
          (s ++ (old_of d ++ old_of ops))
        ≡ some (s ++ (new_of d ++ new_of ops))
  patch-open [] keep o n old new old' new' s d c p q p' q' =
      patch-hunk o n old new s d [] [] [] p q (patch-nil _ _ [])
  patch-open (x ∷ ops) [] o n old new old' new' s d c p q p' q' = absurd c
  patch-open (x ∷ ops) (true ∷ keep) o n old new old' new' s d c p q p' q' =
      rw (extend-hunk_of old new d x, ← shift-old s d x ops, ← shift-new s d x ops)
        (patch-open ops keep o n old new _ _ s (d ++ x ∷ []) c.1 p q
          (omega (arith, old_of-last d x)) (omega (arith, new_of-last d x)))
  patch-open (x ∷ ops) (false ∷ keep) o n old new old' new' s d c p q p' q' =
      let k = unchanged-Keeps x c.0 in
      patch-hunk o n old new s d _ (old_of (x ∷ ops)) (new_of (x ∷ ops)) p q (
        rw (k.old_line (old_of ops), k.new_line (new_of ops))
          (patch-closed ops keep _ _ _ _ (x.line ∷ []) c.1 (omega (arith, k.old_one))
            (omega (arith, k.new_one))))

  patch-closed :
      (ops : List DiffOp) (keep : List Bool) (o n old new : ℕ) (s : List Text)
      → Covers ops keep
      → old ≡ o + length s
      → new ≡ n + length s
      → patch o n (group ops keep none old new) (s ++ old_of ops) ≡ some (s ++ new_of ops)
  patch-closed [] keep o n old new s c p q = patch-nil o n (s ++ [])
  patch-closed (x ∷ ops) [] o n old new s c p q = absurd c
  patch-closed (x ∷ ops) (true ∷ keep) o n old new s c p q =
      rw
        (
          first-hunk_of old new x,
          ← old_lines-append x.kind x.line (old_of ops),
          ← new_lines-append x.kind x.line (new_of ops),
        )
        (patch-open ops keep o n old new _ _ s (x ∷ []) c.1 p q
          (omega (arith, length-old_lines x.kind x.line))
          (omega (arith, length-new_lines x.kind x.line)))
  patch-closed (x ∷ ops) (false ∷ keep) o n old new s c p q =
      let k = unchanged-Keeps x c.0 in
      rw
        (
          k.old_line (old_of ops),
          k.new_line (new_of ops),
          ← append_assoc s (x.line ∷ []) (old_of ops),
          ← append_assoc s (x.line ∷ []) (new_of ops),
        )
        (patch-closed ops keep o n _ _ (s ++ x.line ∷ []) c.1
          (omega (arith, k.old_one, length-append s (x.line ∷ [])))
          (omega (arith, k.new_one, length-append s (x.line ∷ []))))

-- The hunks of any edit sequence, with any amount of context, patch its old lines into its new ones.
patch-group_hunks :
    (ops : List DiffOp) (ctx : ℕ) → patch 1 1 (group_hunks ops ctx) (old_of ops) ≡ some (new_of ops)
unfolding group_hunks
patch-group_hunks ops ctx =
    patch-closed ops (keep_flags ctx ops) 1 1 1 1 [] (keep_flags-Covers ctx ops) (omega arith)
      (omega arith)

-- The hunks between two texts are a patch from the old lines to the new ones.
pub patch-diff_lines :
    (a b : List Text) (ctx : ℕ) → patch 1 1 (group_hunks (diff_lines a b) ctx) a ≡ some b
patch-diff_lines a b ctx =
    let (p, q) = diff_lines_sound a b in
    subst (λ t. patch 1 1 (group_hunks (diff_lines a b) ctx) t ≡ some b) p
      (patch-group_hunks (diff_lines a b) ctx ∙ ap some q)
