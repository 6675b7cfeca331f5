-- ===== src/Workflow/Specs/Items.antt =====
-- internal/workflow/workflow.go: the tasks of an accepted document, and the folder of a new spec.
use foya.Prelude.{
  ℕ, zero, suc, ◌+◌, ◌≡◌, refl, sym, ap, subst, arith, inl, inr, ◌≤◌, ◌<◌, Bool, true, false, ◌&&◌,
  not, Option, none, some, List, [], ◌∷◌, ltb, leb, is_empty, length, Text, trim_space, drop,
  Bool-cases,
}
use foya.Prelude.Words.{split_at}
use foya.Prelude.Result.{Result, ok}
use foya.Workflow.{Error}
use foya.Workflow.Specs.{
  Task, TaskStatus, task_if, add_task, count_tasks, line_task, box_status, tasks_of,
  parse_spec_task_items, max_spec_tasks, max_spec_task_runes,
}
use foya.Workflow.Specs.Folders.{
  Paths, absent, present, unique_from, unique_directory, numbered_candidate,
}

-- A task with a text of at most 200 characters.
abbrev fits : Task → Bool
fits t = not (is_empty t.content) && leb (length t.content) max_spec_task_runes

unfoldable pub all_fit : List Task → Bool
all_fit [] = true
all_fit (t ∷ ts) = fits t && all_fit ts

task_if-full :
    (o : Option TaskStatus) (content : Text) (t : Task)
    → task_if o content ≡ some t
    → is_empty t.content ≡ false
task_if-full none content t h = cc
task_if-full (some s) content t h = elim (Bool-cases (is_empty content)) [
  | inl e ↦ ground (arith, h)
  | inr e ↦
      let d : some t ≡ some (record { content = content; status = s }) = ground (arith, h) in
      let k : t ≡ record { content = content; status = s } = cc in
      subst (λ x. is_empty x.content ≡ false) (sym k) e
]

add_task-fit :
    (o : Option Task) (rest : Option (List Task)) (ts : List Task)
    → ((t : Task) → o ≡ some t → is_empty t.content ≡ false)
    → ((us : List Task) → rest ≡ some us → all_fit us ≡ true)
    → add_task o rest ≡ some ts
    → all_fit ts ≡ true
unfolding all_fit
add_task-fit none rest ts f g h = g ts h
add_task-fit (some t) none ts f g h = cc
add_task-fit (some t) (some us) ts f g h =
    elim (Bool-cases (ltb max_spec_task_runes (length t.content))) [
      | inl e ↦ ground (arith, h)
      | inr e ↦
          let d : some ts ≡ some (t ∷ us) = ground (arith, h) in
          let k : ts ≡ t ∷ us = cc in
          subst (λ x. all_fit x ≡ true) (sym k) (ground (arith, f t refl, g us refl))
    ]

tasks_of-fit : (lines : List Text) (ts : List Task) → tasks_of lines ≡ some ts → all_fit ts ≡ true
unfolding tasks_of all_fit line_task
tasks_of-fit [] ts h = let k : ts ≡ [] = cc in rw (k) refl
tasks_of-fit (line ∷ lines) ts h =
    add_task-fit (line_task line) (tasks_of lines) ts
      (λ t e.
        task_if-full (box_status (trim_space line)) (trim_space (drop 6 (trim_space line))) t e)
      (λ us e. tasks_of-fit lines us e) h

count_tasks-bounds :
    (o : Option (List Task)) (ts : List Task)
    → count_tasks o ≡ ok ts
    → (o ≡ some ts) × (0 < length ts) × (length ts ≤ 100)
count_tasks-bounds none ts h = cc
count_tasks-bounds (some []) ts h = cc
count_tasks-bounds (some (u ∷ us)) ts h = elim (Bool-cases (ltb max_spec_tasks (length (u ∷ us)))) [
  | inl e ↦ ground (arith, h)
  | inr e ↦
      let d : ◌≡◌ {A = Result Error (List Task)} (ok (u ∷ us)) (ok ts) = ground (arith, h) in
      let k : u ∷ us ≡ ts = cc in
      let size : (0 < length (u ∷ us)) × (length (u ∷ us) ≤ 100) =
        (omega arith, ground (arith, e)) in
      let (low, high) : (0 < length ts) × (length ts ≤ 100) =
        subst (λ x. (0 < length x) × (length x ≤ 100)) k size in
      (ap some k, low, high)
]

-- The tasks of a document that is accepted: one to a hundred, each with a text of at most 200
-- characters.
parse_spec_task_items-bounds :
    (content : Text) (ts : List Task)
    → parse_spec_task_items content ≡ ok ts
    → (0 < length ts) × (length ts ≤ 100) × (all_fit ts ≡ true)
unfolding parse_spec_task_items
parse_spec_task_items-bounds content ts h =
    let (e, low, high) = count_tasks-bounds (tasks_of (split_at 10 content)) ts h in
    (low, high, tasks_of-fit (split_at 10 content) ts e)

-- The candidates of `uniqueDirectory` in turn.
abbrev pub candidate : Paths → Text → Text → ℕ → Text
candidate p root slug zero = p.join (root ∷ slug ∷ [])
candidate p root slug (suc i) = numbered_candidate p root slug (suc (suc i))

unique_from-first :
    (k bound : ℕ) (p : Paths) (root slug : Text) (i : ℕ)
    → ((j : ℕ) → i ≤ j → j < i + k → p.stat (candidate p root slug j) ≡ present)
    → p.stat (candidate p root slug (i + k)) ≡ absent
    → k < bound
    → unique_from bound p root slug (candidate p root slug i) (suc (suc i))
      ≡ some (ok (candidate p root slug (i + k)))
unfolding unique_from
unique_from-first k zero p root slug i taken free l = absurd (omega arith)
unique_from-first zero (suc bound) p root slug i taken free l =
    let e : i + 0 ≡ i = omega arith in
    let free' = subst (λ x. p.stat (candidate p root slug x) ≡ absent) e free in
    rw (e, free', unique_from) refl
unique_from-first (suc k) (suc bound) p root slug i taken free l =
    let e : i + suc k ≡ suc i + k = omega arith in
    let now = taken i (omega arith) (omega arith) in
    let rest =
      unique_from-first k bound p root slug (suc i) (λ j a b. taken j (omega arith) (omega arith))
        (subst (λ x. p.stat (candidate p root slug x) ≡ absent) e free) (omega arith) in
    rw (now, unique_from, e) rest

-- Where the first `k` candidates are taken and the next is free, more than `k` turns find that one.
pub unique_directory-first :
    (k bound : ℕ) (p : Paths) (root slug : Text)
    → ((j : ℕ) → j < k → p.stat (candidate p root slug j) ≡ present)
    → p.stat (candidate p root slug k) ≡ absent
    → k < bound
    → unique_directory bound p root slug ≡ some (ok (candidate p root slug k))
unfolding unique_directory
unique_directory-first k bound p root slug taken free l =
    let e : 0 + k ≡ k = omega arith in
    subst (λ x. unique_directory bound p root slug ≡ some (ok (candidate p root slug x))) e
      (unique_from-first k bound p root slug 0 (λ j a b. taken j (omega arith))
        (subst (λ x. p.stat (candidate p root slug x) ≡ absent) (sym e) free) l)
