-- ===== src/Workflow/Specs/Marks.antt =====
-- The check boxes of internal/workflow/workflow.go after `syncTaskCheckboxes`.
use foya.Prelude.{
  ℕ, ◌≡◌, refl, sym, ap, ◌∙◌, subst, arith, ◌⊎◌, inl, inr, Bool, true, false, some, List, [], ◌∷◌,
  is_empty, Text, ◌==◌, ==_iff, Bool-cases, Option-cases,
}
use foya.Prelude.Words.{
  split_at, join_with, lacks, all_lack, all_lack-split_at, is_empty-split_at, join_with-split_at,
  split_at-join_with, has_prefix,
}
use foya.Prelude.Map.{Map, lookup}
use foya.Workflow.Specs.{
  Task, TaskStatus, pending, in_progress, completed, box_status, task_key, statuses_of, marker,
  is_indent, mark, mark_line, mark_lines, sync_task_checkboxes,
}

abbrev boxed : TaskStatus → TaskStatus
boxed completed = completed
boxed _ = pending

-- A line keeps its box when the mark in it is another.
box_status-marker :
    (to_lower : Text → Text) (a b c d e f : ℕ) (rest : Text) (old s : TaskStatus)
    → box_status (a ∷ b ∷ c ∷ d ∷ e ∷ f ∷ rest) ≡ some old
    → box_status (a ∷ b ∷ c ∷ marker to_lower s ∷ e ∷ f ∷ rest) ≡ some (boxed s)
unfolding box_status has_prefix
box_status-marker to_lower a b c d e f rest old completed h = ground (arith, h)
box_status-marker to_lower a b c d e f rest old pending h = ground (arith, h)
box_status-marker to_lower a b c d e f rest old in_progress h = ground (arith, h)

module _ (to_lower : Text → Text) where
  abbrev line_of : ℕ → ℕ → ℕ → ℕ → ℕ → ℕ → ℕ → Text → Text
  line_of a b c d e f g rest = a ∷ b ∷ c ∷ d ∷ e ∷ f ∷ g ∷ rest

  -- What a mark becomes: itself, where the line has no box or its task no status, or that status's.
  data Marked (ss : Map TaskStatus) : Text → Text × Bool → Type 0 where
    same : (line : Text) → mark to_lower ss line ≡ (line, false) → Marked ss line (line, false)
    other :
        (c : ℕ) (t u : Text)
        → mark to_lower ss (c ∷ u) ≡ (c ∷ u, false)
        → (lacks 10 t ≡ true → lacks 10 u ≡ true)
        → Marked ss (c ∷ t) (c ∷ u, true)

  marker-plain : (s : TaskStatus) → (marker to_lower s == 10) ≡ false
  marker-plain completed = refl
  marker-plain pending = refl
  marker-plain in_progress = refl

  lacks-marker :
      (b c d : ℕ) (s : TaskStatus) (rest : Text)
      → lacks 10 (b ∷ c ∷ d ∷ rest) ≡ true
      → lacks 10 (b ∷ c ∷ marker to_lower s ∷ rest) ≡ true
  unfolding lacks
  lacks-marker b c d s rest h = ground (arith, h, marker-plain s)

  mark-Marked : (ss : Map TaskStatus) (line : Text) → Marked ss line (mark to_lower ss line)
  unfolding mark
  mark-Marked ss [] = same [] refl
  mark-Marked ss (a ∷ []) = same (a ∷ []) refl
  mark-Marked ss (a ∷ b ∷ []) = same (a ∷ b ∷ []) refl
  mark-Marked ss (a ∷ b ∷ c ∷ []) = same (a ∷ b ∷ c ∷ []) refl
  mark-Marked ss (a ∷ b ∷ c ∷ d ∷ []) = same (a ∷ b ∷ c ∷ d ∷ []) refl
  mark-Marked ss (a ∷ b ∷ c ∷ d ∷ e ∷ []) = same (a ∷ b ∷ c ∷ d ∷ e ∷ []) refl
  mark-Marked ss (a ∷ b ∷ c ∷ d ∷ e ∷ f ∷ []) = same (a ∷ b ∷ c ∷ d ∷ e ∷ f ∷ []) refl
  mark-Marked ss (a ∷ b ∷ c ∷ d ∷ e ∷ f ∷ g ∷ rest) =
      let line = line_of a b c d e f g rest in
      elim (Option-cases (box_status line)) [
        | inl h ↦
            let u : mark to_lower ss line ≡ (line, false) = rw (h, mark) refl in
            subst (Marked ss line) (sym u) (same line u)
        | inr (old, h) ↦ elim (Option-cases (lookup (task_key to_lower (g ∷ rest)) ss)) [
          | inl k ↦
              let u : mark to_lower ss line ≡ (line, false) = rw (h, mark, k) refl in
              subst (Marked ss line) (sym u) (same line u)
          | inr (s, k) ↦ elim (Bool-cases (d == marker to_lower s)) [
            | inl t ↦
                let u : mark to_lower ss line ≡ (line, false) = rw (h, mark, k, t) refl in
                subst (Marked ss line) (sym u) (same line u)
            | inr t ↦
                let new = line_of a b c (marker to_lower s) e f g rest in
                let u : mark to_lower ss line ≡ (new, true) = rw (h, mark, k, t) refl in
                let w : mark to_lower ss new ≡ (new, false) =
                  rw
                    (
                      box_status-marker to_lower a b c d e f (g ∷ rest) old s h,
                      mark,
                      k,
                      (==_iff (marker to_lower s) (marker to_lower s)).1 refl,
                    )
                    refl in
                subst (Marked ss line) (sym u) (
                  other a (b ∷ c ∷ d ∷ e ∷ f ∷ g ∷ rest)
                    (b ∷ c ∷ marker to_lower s ∷ e ∷ f ∷ g ∷ rest) w
                    (lacks-marker b c d s (e ∷ f ∷ g ∷ rest)))
          ]
        ]
      ]

  -- One pass over a line: a second changes nothing, and one that changes nothing says so.
  record Settled (ss : Map TaskStatus) (line : Text) (r : Text × Bool) : Type 0 where
    again : mark_line to_lower ss r.0 ≡ (r.0, false)
    kept : (r.1 ≡ true) ⊎ (r.0 ≡ line)
    plain : lacks 10 line ≡ true → lacks 10 r.0 ≡ true

  Marked-Settled :
      (ss : Map TaskStatus) (c : ℕ) (s : Text) (r : Text × Bool)
      → is_indent c ≡ false
      → Marked ss (c ∷ s) r
      → Settled ss (c ∷ s) r
  unfolding mark_line lacks
  Marked-Settled ss c s r h (same _ e) = record {
    again = rw (h) e;
    kept = inr refl;
    plain = λ p. p;
  }
  Marked-Settled ss c s r h (other _ t u e l) = record {
    again = rw (h) e;
    kept = inl refl;
    plain = λ p. ground (arith, p, l);
  }

  mark_line-Settled :
      (ss : Map TaskStatus) (line : Text) → Settled ss line (mark_line to_lower ss line)
  unfolding mark_line lacks
  mark_line-Settled ss [] = record { again = refl; kept = inr refl; plain = λ p. p }
  mark_line-Settled ss (c ∷ s) = elim (Bool-cases (is_indent c)) [
    | inr h ↦
        rw (h, mark_line)
          (Marked-Settled ss c s (mark to_lower ss (c ∷ s)) h (mark-Marked ss (c ∷ s)))
    | inl h ↦
        let r = mark_line-Settled ss s in
        let x = (mark_line to_lower ss s).0 in
        rw (h, mark_line)
          (record {
            again = rw (h, mark_line, r.again) refl;
            kept = elim r.kept [ inl t ↦ inl t | inr e ↦ inr (ap (◌∷◌ c) e) ];
            plain = λ p. ground (arith, p, r.plain);
          })
  ]

  record AllSettled (ss : Map TaskStatus) (lines : List Text) (r : List Text × Bool) : Type 0 where
    again : mark_lines to_lower ss r.0 ≡ (r.0, false)
    kept : (r.1 ≡ true) ⊎ (r.0 ≡ lines)
    plain : all_lack 10 lines ≡ true → all_lack 10 r.0 ≡ true
    size : is_empty r.0 ≡ is_empty lines

  mark_lines-AllSettled :
      (ss : Map TaskStatus) (lines : List Text) → AllSettled ss lines (mark_lines to_lower ss lines)
  unfolding mark_lines all_lack
  mark_lines-AllSettled ss [] = record {
    again = refl;
    kept = inr refl;
    plain = λ p. p;
    size = refl;
  }
  mark_lines-AllSettled ss (line ∷ lines) =
      let a = mark_line-Settled ss line in
      let b = mark_lines-AllSettled ss lines in
      record {
        again = rw (a.again, b.again) refl;
        kept = elim a.kept [
          | inl t ↦ inl (rw (t) refl)
          | inr e ↦ elim b.kept [ inl t ↦ inl (ground (arith, t)) | inr d ↦ inr (rw (e, d) refl) ]
        ];
        plain = λ p. ground (arith, p, a.plain, b.plain);
        size = refl;
      }

  -- A second synchronisation with the same tasks finds nothing to change, and one that reports no
  -- change has changed nothing.
  pub sync_task_checkboxes-again :
      (content : Text) (tasks : List Task)
      → let (next, changed) = sync_task_checkboxes to_lower content tasks in
        (sync_task_checkboxes to_lower next tasks ≡ (next, false))
        × ((changed ≡ true) ⊎ (next ≡ content))
  unfolding sync_task_checkboxes
  sync_task_checkboxes-again content tasks =
      let ss = statuses_of to_lower tasks [] in
      let lines = split_at 10 content in
      let s = mark_lines-AllSettled ss lines in
      let e =
        split_at-join_with 10 (mark_lines to_lower ss lines).0
          (s.size ∙ is_empty-split_at 10 content) (s.plain (all_lack-split_at 10 content)) in
      (
        rw (e, s.again) refl,
        elim s.kept [
          | inl t ↦ inl t
          | inr d ↦ inr (ap (join_with 10) d ∙ join_with-split_at 10 content)
        ],
      )
