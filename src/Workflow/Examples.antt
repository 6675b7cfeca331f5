-- ===== src/Workflow/Examples.antt =====
-- Runs of the workflows, and their theorems at one plan and one spec.
use foya.Prelude.{
  ℕ, zero, suc, ◌≡◌, refl, arith, ◌<◌, ◌⊎◌, Bool, true, false, none, some, List, [], ◌∷◌, Text,
  text, text_eq, trim_space,
}
use foya.Prelude.Words.{join_with}
use foya.Prelude.Map.{lookup, insert}
use foya.Prelude.Result.{ok}
use foya.Workflow.{Record, Manager, plan, goal, ready, closed, SpecDocuments, active_record}
use foya.Workflow.Changes.{
  start, close, update, new_record, write_artifact, begin_completion, with_status, stores,
}
use foya.Workflow.Runs.{
  Disk, Op, starts, ends_completion, apply, run, new, run-single, run-IsValid, new-IsValid,
}
use foya.Workflow.Failures.{Keeps, KeepsIf, failures-keep}
use foya.Workflow.Begins.{start-active, complete-reopens}
use foya.Workflow.Specs.{Task, completed, sync_task_checkboxes}
use foya.Workflow.Specs.Submit.{submit_spec, sync_spec_task_progress}
use foya.Workflow.Specs.Folders.{Paths, Letters, Stat, absent, present, unique_directory}
use foya.Workflow.Specs.Marks.{sync_task_checkboxes-again}
use foya.Workflow.Specs.Items.{unique_directory-first, candidate}

abbrev fine : Disk
fine = record { written = true; saves = true }

abbrev full_disk : Disk
full_disk = record { written = true; saves = false }

-- Paths with a slash between their parts; the folder of the name "plan" is taken.
abbrev stat_of : Bool → Stat
stat_of true = present
stat_of false = absent

abbrev paths : Paths
paths = record {
  join = join_with 47;
  dir = λ t. t;
  base = λ t. t;
  ext = λ t. [];
  stat = λ t. stat_of (text_eq t (text "d/plan"));
  trim_suffix = λ t s. t;
}

abbrev letters : Letters
letters = record { width = λ c. 1; is_word = λ c. true; to_lower = λ t. t }

abbrev file : Text
file = text "d/workflows.json"

abbrev started : Manager
started =
    run paths letters file (starts (text "w1") (text "s1") plan (text "tidy up") [] 1 fine ∷ []) new

abbrev first : Record
first = new_record paths.join paths.dir file (text "w1") (text "s1") plan (text "tidy up") [] 1

abbrev second : Record
second = new_record paths.join paths.dir file (text "w2") (text "s1") goal (text "ship it") [] 2

-- A second start closes the first workflow, and the second workflow is completed.
abbrev twice : List Op
twice =
    starts (text "w1") (text "s1") plan (text "tidy up") [] 1 fine
    ∷ starts (text "w2") (text "s1") goal (text "ship it") [] 2 fine
    ∷ ends_completion (stores second) (text "shipped") 3 fine
    ∷ []

abbrev readied : Record
readied = with_status ready 3 (record second { content = text "shipped" })

run-single_example : text "w2" ≡ text "w2"
unfolding lookup run start update apply trim_space write_artifact insert text_eq
run-single_example =
    run-single paths letters file twice (text "w2") (text "w2") readied readied
      (tt, (tt, (refl, tt))) refl refl refl refl refl

abbrev documents : SpecDocuments
documents = record {
  title = text "t";
  spec = text "s";
  tasks = text "- [ ] a";
  checklist = text "- [ ] b";
}

failures-keep_example :
    Keeps started (close paths.join paths.dir file (text "s1") (text "w1") 3 true false started)
    × KeepsIf started (submit_spec 5 paths letters [] (text "s1") documents 3 true false started)
    × Keeps started (sync_spec_task_progress letters (text "s1") [] none 3 true false started)
failures-keep_example =
    failures-keep paths letters file (text "s1") (text "w1") [] documents [] none 5 3 true false
      started
      (run-IsValid paths letters file
        (starts (text "w1") (text "s1") plan (text "tidy up") [] 1 fine ∷ []) new (tt, tt)
        (new-IsValid paths letters file))

start-active_example :
    let (m', result) =
      start paths.join paths.dir file
        (text "w2")
        (text "s1")
        goal
        (text "ship it")
        []
        2
        true
        true
        started in
    (result ≡ ok second) × (active_record (text "s1") m'.records ≡ some second)
unfolding trim_space write_artifact
start-active_example =
    start-active paths.join paths.dir file (text "w2") (text "s1") goal (text "ship it") [] 2
      started refl refl refl refl

complete-reopens_example :
    let between = (close paths.join paths.dir file (text "s1") (text "w1") 2 true true started).0 in
    let ended =
      (update paths.join paths.dir file (text "w1") ready (text "done") 3 true true between).0 in
    ((close paths.join paths.dir file (text "s1") (text "w1") 2 true true started).1
      ≡ ok (with_status closed 2 first))
    × ((q : Record) × (lookup (text "w1") ended.records ≡ some q) × (q.status ≡ ready))
unfolding begin_completion run start trim_space write_artifact insert text_eq
complete-reopens_example =
    complete-reopens paths.join paths.dir file (text "s1") (text "done") 2 3 started first
      (run-IsValid paths letters file
        (starts (text "w1") (text "s1") plan (text "tidy up") [] 1 fine ∷ []) new (tt, tt)
        (new-IsValid paths letters file))
      refl refl

abbrev task : Task
task = record { content = text "a"; status = completed }

sync_task_checkboxes-again_example :
    let (next, changed) = sync_task_checkboxes letters.to_lower (text "- [ ] a\nb") (task ∷ []) in
    (sync_task_checkboxes letters.to_lower next (task ∷ []) ≡ (next, false))
    × ((changed ≡ true) ⊎ (next ≡ text "- [ ] a\nb"))
sync_task_checkboxes-again_example =
    sync_task_checkboxes-again letters.to_lower (text "- [ ] a\nb") (task ∷ [])

plan-taken : (j : ℕ) → j < 1 → paths.stat (candidate paths (text "d") (text "plan") j) ≡ present
unfolding text_eq join_with
plan-taken zero l = refl
plan-taken (suc j) l = absurd (omega arith)

unique_directory-first_example :
    unique_directory 9 paths (text "d") (text "plan")
    ≡ some (ok (candidate paths (text "d") (text "plan") 1))
unfolding text_eq join_with
unique_directory-first_example =
    unique_directory-first 1 9 paths (text "d") (text "plan") plan-taken refl (omega arith)

marks_runs :
    sync_task_checkboxes letters.to_lower (text "- [ ] a\nb") (task ∷ [])
    ≡ (text "- [x] a\nb", true)
unfolding sync_task_checkboxes lookup insert text_eq trim_space
marks_runs = refl
