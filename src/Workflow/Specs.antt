-- ===== src/Workflow/Specs.antt =====
-- internal/workflow/workflow.go: the documents of a spec, the tasks that they list, and the check boxes
-- that follow the progress of the tasks.
pub mod Marks
pub mod Folders
pub mod Submit
pub mod Kept
pub mod Items
use foya.Prelude.{
  ℕ, ◌+◌, Bool, true, false, ◌&&◌, ◌||◌, not, Option, none, some, List, [], ◌∷◌, ◌++◌, length,
  is_empty, exists, keep_if, drop, ltb, leb, ◌==◌, if◌then◌else◌, Text, text, text_eq, trim_space,
}
use foya.Prelude.Words.{split_at, join_with, has_prefix, fields, trim_left_of, trim_of}
use foya.Prelude.Map.{Map, lookup, insert}
use foya.Prelude.Result.{Result, ok, err, ◌>>=◌, ◌>>◌, reject_if}
use foya.Workflow.{SpecDocuments, Error, invalid_documents}

pub data TaskStatus : Type 0 where
  pending in_progress completed : TaskStatus

pub record Task : Type 0 where
  pub content : Text
  pub status : TaskStatus

abbrev pub max_spec_document_runes : ℕ
max_spec_document_runes = 120000

abbrev pub max_spec_tasks : ℕ
max_spec_tasks = 100

abbrev pub max_spec_task_runes : ℕ
max_spec_task_runes = 200

-- The status that a box in front of a task gives it.
unfoldable pub box_status : Text → Option TaskStatus
unfolding has_prefix
box_status line =
    if has_prefix line (text "- [ ] ")
    then some pending
    else if has_prefix line (text "- [x] ") || has_prefix line (text "- [X] ")
    then some completed
    else none

abbrev pub task_if : Option TaskStatus → Text → Option Task
task_if none content = none
task_if (some s) content =
    if is_empty content then none else some (record { content = content; status = s })

-- The task of a line, if it has one.
unfoldable pub line_task : Text → Option Task
unfolding box_status
line_task line = task_if (box_status (trim_space line)) (trim_space (drop 6 (trim_space line)))

-- `none` is the error that a task is too long.
abbrev pub add_task : Option Task → Option (List Task) → Option (List Task)
add_task none rest = rest
add_task (some t) none = none
add_task (some t) (some ts) =
    if ltb max_spec_task_runes (length t.content) then none else some (t ∷ ts)

unfoldable pub tasks_of : List Text → Option (List Task)
unfolding line_task
tasks_of [] = some []
tasks_of (line ∷ lines) = add_task (line_task line) (tasks_of lines)

abbrev pub count_tasks : Option (List Task) → Result Error (List Task)
count_tasks none = err invalid_documents
count_tasks (some ts) =
    if is_empty ts || ltb max_spec_tasks (length ts) then err invalid_documents else ok ts

unfoldable pub parse_spec_task_items : Text → Result Error (List Task)
unfolding tasks_of split_at
parse_spec_task_items content = count_tasks (tasks_of (split_at 10 content))

unfoldable pub has_checklist_items : Text → Bool
unfolding box_status split_at exists
has_checklist_items content =
    exists (λ line. elim (box_status (trim_space line)) [ none ↦ false | some s ↦ true ])
      (split_at 10 content)

unfoldable pub validate_spec_documents : SpecDocuments → Result Error (List Task)
unfolding parse_spec_task_items has_checklist_items
validate_spec_documents d =
    reject_if (is_empty d.title || (is_empty d.spec || (is_empty d.tasks || is_empty d.checklist)))
      invalid_documents
    >> (reject_if (ltb 80 (length d.title)) invalid_documents
        >> (reject_if
              (ltb max_spec_document_runes (length d.spec)
                || (ltb max_spec_document_runes (length d.tasks)
                    || ltb max_spec_document_runes (length d.checklist)))
              invalid_documents
            >> (parse_spec_task_items d.tasks >>= λ ts.
                if has_checklist_items d.checklist then ok ts else err invalid_documents)))

abbrev pub is_indent : ℕ → Bool
is_indent c = c == 32 || c == 9

abbrev is_decoration : ℕ → Bool
is_decoration c =
    c == 42
    || (c == 95
        || (c == 96
            || (c == 91
                || (c == 93 || (c == 40 || (c == 41 || (c == 58 || (c == 46 || c == 45))))))))

abbrev is_digit : ℕ → Bool
is_digit c = leb 48 c && leb c 57

unfoldable pub all_digits : Text → Bool
all_digits [] = true
all_digits (c ∷ s) = is_digit c && all_digits s

-- A number of a task, such as t12.
abbrev is_task_number : Text → Bool
is_task_number [] = false
is_task_number (c ∷ s) = not (is_empty s) && (c == 116 && all_digits s)

-- `strings.ToLower`.
module _ (to_lower : Text → Text) where
  unfoldable pub task_key : Text → Text
  unfolding all_digits trim_of fields join_with
  task_key content =
      let normalized = to_lower (join_with 32 (fields (trim_space content))) in
      elim (fields normalized) [
        | [] ↦ []
        | w ∷ ws ↦ let id = trim_of is_decoration w in if is_task_number id then id else normalized
      ]

  -- The map of the statuses, in which a later task of the same key wins.
  unfoldable pub statuses_of : List Task → Map TaskStatus → Map TaskStatus
  unfolding task_key
  statuses_of [] m = m
  statuses_of (t ∷ ts) m = statuses_of ts (insert (task_key t.content) t.status m)

  abbrev pub marker : TaskStatus → ℕ
  marker completed = 120
  marker _ = 32

  -- The line from its first character that is neither a space nor a tab on.
  unfoldable pub mark : Map TaskStatus → Text → Text × Bool
  unfolding box_status task_key
  mark statuses (a ∷ b ∷ c ∷ d ∷ e ∷ f ∷ g ∷ rest) =
      elim (box_status (a ∷ b ∷ c ∷ d ∷ e ∷ f ∷ g ∷ rest)) [
        | none ↦ (a ∷ b ∷ c ∷ d ∷ e ∷ f ∷ g ∷ rest, false)
        | some old ↦ elim (lookup (task_key (g ∷ rest)) statuses) [
          | none ↦ (a ∷ b ∷ c ∷ d ∷ e ∷ f ∷ g ∷ rest, false)
          | some s ↦
              if d == marker s
              then (a ∷ b ∷ c ∷ d ∷ e ∷ f ∷ g ∷ rest, false)
              else (a ∷ b ∷ c ∷ marker s ∷ e ∷ f ∷ g ∷ rest, true)
        ]
      ]
  mark statuses line = (line, false)

  unfoldable pub mark_line : Map TaskStatus → Text → Text × Bool
  unfolding mark
  mark_line statuses [] = ([], false)
  mark_line statuses (c ∷ s) =
      let (s', changed) = mark_line statuses s in
      if is_indent c then (c ∷ s', changed) else mark statuses (c ∷ s)

  unfoldable pub mark_lines : Map TaskStatus → List Text → List Text × Bool
  unfolding mark_line
  mark_lines statuses [] = ([], false)
  mark_lines statuses (line ∷ lines) =
      let (line', changed) = mark_line statuses line in
      let (lines', more) = mark_lines statuses lines in (line' ∷ lines', changed || more)

  unfoldable pub sync_task_checkboxes : Text → List Task → Text × Bool
  unfolding mark_lines statuses_of split_at join_with
  sync_task_checkboxes content tasks =
      let (lines, changed) = mark_lines (statuses_of tasks []) (split_at 10 content) in
      (join_with 10 lines, changed)
