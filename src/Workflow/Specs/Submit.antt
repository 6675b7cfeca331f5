-- ===== src/Workflow/Specs/Submit.antt =====
-- internal/workflow/workflow.go: `SubmitSpec`, which writes the documents of the active spec, and
-- `SyncSpecTaskProgress`, which follows the tasks of an approved one. Reading and writing files has its
-- outcome as an argument.
use foya.Prelude.{
  ℕ, Bool, true, false, ◌&&◌, not, Option, none, some, List, [], ◌∷◌, is_empty, if◌then◌else◌, Text,
  text_eq, trim_space,
}
use foya.Prelude.Map.{Map, lookup, insert}
use foya.Prelude.Result.{Result, ok, err}
use foya.Workflow.{
  Status, ready, approved, completed, Error, no_active_record, unreadable_file, write_failed,
  persist_failed, SpecArtifacts, SpecDocuments, Record, Manager, persist, active_record, latest,
}
use foya.Workflow.Changes.{is_spec, with_status}
use foya.Workflow.Specs.Folders.{Paths, Letters, slugify, unique_directory, documents_in}
use foya.Workflow.Specs.{Task, TaskStatus, validate_spec_documents, sync_task_checkboxes}

abbrev pub trim_documents : SpecDocuments → SpecDocuments
trim_documents d = record {
  title = trim_space d.title;
  spec = trim_space d.spec;
  tasks = trim_space d.tasks;
  checklist = trim_space d.checklist;
}

-- The records with the one of `id` as it was in `old`, where it is.
abbrev pub restore : Text → Map Record → Map Record → Map Record
restore id old m = elim (lookup id old) [ none ↦ m | some previous ↦ insert id previous m ]

-- The end of `SubmitSpec`, with the paths of the documents.
abbrev pub store_spec :
    SpecDocuments
    → SpecArtifacts
    → Record
    → ℕ
    → Bool
    → Bool
    → Manager
    → Manager × Result Error Record
store_spec d a r now written saves m =
    if not written
    then (m, err write_failed)
    else (let r' =
          with_status ready now
            (record r { artifacts = some a; path = a.spec; content = d.spec }) in
        let stored = record m { records = insert r.id r' m.records } in
        if saves then (persist stored, ok r') else (
          record stored { records = restore r.id m.records stored.records },
          err persist_failed,
        ))

-- The documents in a folder that `uniqueDirectory` finds or does not.
abbrev pub store_in :
    Option (Result Error Text)
    → Paths
    → SpecDocuments
    → Record
    → ℕ
    → Bool
    → Bool
    → Manager
    → Option (Manager × Result Error Record)
store_in none p d r now written saves m = none
store_in (some (err e)) p d r now written saves m = some (m, err e)
store_in (some (ok folder)) p d r now written saves m =
    some (store_spec d (documents_in p folder) (record r { title = d.title }) now written saves m)

-- The documents where the record has them already, or in a new folder.
abbrev pub store_documents :
    Option SpecArtifacts
    → ℕ
    → Paths
    → Letters
    → Text
    → SpecDocuments
    → Record
    → ℕ
    → Bool
    → Bool
    → Manager
    → Option (Manager × Result Error Record)
store_documents (some a) bound p l stamp d r now written saves m =
    some (store_spec d a r now written saves m)
store_documents none bound p l stamp d r now written saves m =
    store_in (unique_directory bound p r.artifact_root (slugify l stamp d.title)) p d r now written
      saves m

-- `none` where `bound` turns find no free folder.
unfoldable pub submit_spec :
    ℕ
    → Paths
    → Letters
    → Text
    → Text
    → SpecDocuments
    → ℕ
    → Bool
    → Bool
    → Manager
    → Option (Manager × Result Error Record)
unfolding validate_spec_documents active_record unique_directory slugify
submit_spec bound p l stamp session_id documents now written saves m =
    let d = trim_documents documents in
    elim (validate_spec_documents d) [
      | err e ↦ some (m, err e)
      | ok ts ↦ elim (active_record session_id m.records) [
        | none ↦ some (m, err no_active_record)
        | some r ↦
            if not (is_spec r.kind)
            then some (m, err no_active_record)
            else store_documents r.artifacts bound p l stamp d r now written saves m
      ]
    ]

abbrev pub is_approved : Status → Bool
is_approved approved = true
is_approved _ = false

abbrev pub is_approved_spec : Text → Record → Bool
is_approved_spec session_id r =
    text_eq r.session_id session_id && (is_spec r.kind && is_approved r.status)

abbrev is_completed : TaskStatus → Bool
is_completed TaskStatus.completed = true
is_completed _ = false

unfoldable pub all_completed : List Task → Bool
all_completed [] = true
all_completed (t ∷ ts) = is_completed t.status && all_completed ts

-- The end of `SyncSpecTaskProgress`.
abbrev pub store_progress :
    Record → Bool → ℕ → Bool → Manager → Manager × Result Error (Option Record × Bool)
store_progress r ends now saves m =
    let r' = with_status (if ends then completed else r.status) now r in
    let stored = record m { records = insert r.id r' m.records } in
    if saves
    then (persist stored, ok (some r', true))
    else (record stored { records = restore r.id m.records stored.records }, err persist_failed)

abbrev pub progress_of :
    Letters
    → List Task
    → Record
    → Option Text
    → ℕ
    → Bool
    → Bool
    → Manager
    → Manager × Result Error (Option Record × Bool)
progress_of l tasks r none now written saves m = (m, err unreadable_file)
progress_of l tasks r (some content) now written saves m =
    let (next, changed) = sync_task_checkboxes l.to_lower content tasks in
    let ends = not (is_empty tasks) && all_completed tasks in
    if not changed && not ends
    then (m, ok (some r, false))
    else if changed && not written
    then (m, err write_failed)
    else store_progress r ends now saves m

-- `SyncSpecTaskProgress`: `read` is what the file of the tasks says. It returns the record and whether
-- it changed, `none` for the record where there is none.
unfoldable pub sync_spec_task_progress :
    Letters
    → Text
    → List Task
    → Option Text
    → ℕ
    → Bool
    → Bool
    → Manager
    → Manager × Result Error (Option Record × Bool)
unfolding latest sync_task_checkboxes all_completed
sync_spec_task_progress l session_id tasks read now written saves m =
    elim (latest (is_approved_spec session_id) m.records) [
      | none ↦ (m, ok (none, false))
      | some r ↦ progress_of l tasks r read now written saves m
    ]
