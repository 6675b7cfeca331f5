-- ===== src/Workflow/Specs/Kept.antt =====
-- The operations of internal/workflow/workflow.go on specs, and the invariant of the records.
use foya.Prelude.{
  ℕ, ◌≡◌, refl, sym, subst, arith, inl, inr, Bool, true, false, ◌&&◌, not, Option, none, some, List,
  if◌then◌else◌, is_empty, Text, Bool-cases, Option-cases,
}
use foya.Prelude.Map.{Map, lookup, insert, insert-restores}
use foya.Prelude.Result.{Result, ok, err, Result-cases}
use foya.Workflow.{
  Record, Manager, Error, write_failed, ready, completed, SpecArtifacts, SpecDocuments, is_active,
  is_open, active_record, latest,
}
use foya.Workflow.Changes.{with_status, is_spec}
use foya.Workflow.Specs.{Task, validate_spec_documents, sync_task_checkboxes}
use foya.Workflow.Specs.Submit.{
  submit_spec, store_spec, restore, store_in, store_documents, store_progress, progress_of,
  is_approved_spec, trim_documents, sync_spec_task_progress, all_completed,
}
use foya.Workflow.Specs.Folders.{Paths, Letters, documents_in, unique_directory, slugify}
use foya.Workflow.Valid.{IsValid, replace-IsValid, latest-kept, active_record-kept}

pub restore-insert :
    (k : Text) (r r' : Record) (m : Map Record)
    → lookup k m ≡ some r
    → restore k m (insert k r' m) ≡ m
restore-insert k r r' m e = rw (e, restore) (insert-restores k r r' m e)

store_spec-IsValid :
    (d : SpecDocuments) (a : SpecArtifacts) (q r : Record) (now : ℕ) (written saves : Bool)
    (m : Manager)
    → lookup r.id m.records ≡ some q
    → r.session_id ≡ q.session_id
    → r.id ≡ q.id
    → is_active q.status ≡ true
    → IsValid m.records
    → IsValid (store_spec d a r now written saves m).0.records
store_spec-IsValid d a q r now false saves m e s i t v = v
store_spec-IsValid d a q r now true true m e s i t v =
    let r' =
      with_status ready now (record r { artifacts = some a; path = a.spec; content = d.spec }) in
    replace-IsValid r.id q r' m.records e i s (λ o. ground (arith, t)) v
store_spec-IsValid d a q r now true false m e s i t v =
    let r' =
      with_status ready now (record r { artifacts = some a; path = a.spec; content = d.spec }) in
    subst IsValid (sym (restore-insert r.id q r' m.records e)) v

-- The state after a call that returns.
abbrev pub after {ℓ} : {A : Type ℓ} → Option (Manager × A) → Manager → Manager
after none m = m
after (some (m', a)) m = m'

store_in-IsValid :
    (o : Option (Result Error Text)) (p : Paths) (d : SpecDocuments) (r : Record) (now : ℕ)
    (written saves : Bool) (m : Manager)
    → lookup r.id m.records ≡ some r
    → is_active r.status ≡ true
    → IsValid m.records
    → IsValid (after (store_in o p d r now written saves m) m).records
store_in-IsValid none p d r now written saves m e t v = v
store_in-IsValid (some (err x)) p d r now written saves m e t v = v
store_in-IsValid (some (ok folder)) p d r now written saves m e t v =
    store_spec-IsValid d (documents_in p folder) r (record r { title = d.title }) now written saves
      m e refl refl t v

store_documents-IsValid :
    (o : Option SpecArtifacts) (bound : ℕ) (p : Paths) (l : Letters) (stamp : Text)
    (d : SpecDocuments) (r : Record) (now : ℕ) (written saves : Bool) (m : Manager)
    → lookup r.id m.records ≡ some r
    → is_active r.status ≡ true
    → IsValid m.records
    → IsValid (after (store_documents o bound p l stamp d r now written saves m) m).records
store_documents-IsValid (some a) bound p l stamp d r now written saves m e t v =
    store_spec-IsValid d a r r now written saves m e refl refl t v
store_documents-IsValid none bound p l stamp d r now written saves m e t v =
    store_in-IsValid (unique_directory bound p r.artifact_root (slugify l stamp d.title)) p d r now
      written saves m e t v

pub submit_spec-IsValid :
    (bound : ℕ) (p : Paths) (l : Letters) (stamp s : Text) (documents : SpecDocuments) (now : ℕ)
    (written saves : Bool) (m : Manager)
    → IsValid m.records
    → IsValid (after (submit_spec bound p l stamp s documents now written saves m) m).records
unfolding submit_spec
submit_spec-IsValid bound p l stamp s documents now written saves m v =
    let d = trim_documents documents in
    elim (Result-cases (validate_spec_documents d)) [
      | inl (x, bad) ↦ rw (bad, submit_spec) v
      | inr (ts, good) ↦ elim (Option-cases (active_record s m.records)) [
        | inl e ↦ rw (good, e, submit_spec) v
        | inr (r, e) ↦ elim (Bool-cases (is_spec r.kind)) [
          | inr other ↦ rw (good, e, submit_spec, other) v
          | inl sp ↦
              let (found, own, act) = active_record-kept s m.records r v e in
              rw (good, e, submit_spec, sp)
                (store_documents-IsValid r.artifacts bound p l stamp d r now written saves m found
                  act v)
        ]
      ]
    ]

if-IsValid {ℓ} :
    {A : Type ℓ} (b : Bool) (x y : Manager × A)
    → IsValid x.0.records
    → IsValid y.0.records
    → IsValid (if b then x else y).0.records
if-IsValid true x y v w = v
if-IsValid false x y v w = w

store_progress-IsValid :
    (r : Record) (ends : Bool) (now : ℕ) (saves : Bool) (m : Manager)
    → lookup r.id m.records ≡ some r
    → is_open r.status ≡ true
    → IsValid m.records
    → IsValid (store_progress r ends now saves m).0.records
store_progress-IsValid r ends now true m e o v =
    replace-IsValid r.id r (with_status (if ends then completed else r.status) now r) m.records e
      refl refl (λ h. o) v
store_progress-IsValid r ends now false m e o v =
    subst IsValid
      (sym (
        restore-insert r.id r (with_status (if ends then completed else r.status) now r) m.records
          e))
      v

progress_of-IsValid :
    (l : Letters) (tasks : List Task) (r : Record) (read : Option Text) (now : ℕ)
    (written saves : Bool) (m : Manager)
    → lookup r.id m.records ≡ some r
    → is_open r.status ≡ true
    → IsValid m.records
    → IsValid (progress_of l tasks r read now written saves m).0.records
progress_of-IsValid l tasks r none now written saves m e o v = v
progress_of-IsValid l tasks r (some content) now written saves m e o v =
    let changed = (sync_task_checkboxes l.to_lower content tasks).1 in
    let ends = not (is_empty tasks) && all_completed tasks in
    let stored = store_progress r ends now saves m in
    if-IsValid (not changed && not ends) (m, ok (some r, false))
      (if changed && not written then (m, err write_failed) else stored) v
      (if-IsValid (changed && not written) (m, err write_failed) stored v
        (store_progress-IsValid r ends now saves m e o v))

pub sync_spec_task_progress-IsValid :
    (l : Letters) (s : Text) (tasks : List Task) (read : Option Text) (now : ℕ)
    (written saves : Bool) (m : Manager)
    → IsValid m.records
    → IsValid (sync_spec_task_progress l s tasks read now written saves m).0.records
unfolding sync_spec_task_progress
sync_spec_task_progress-IsValid l s tasks read now written saves m v =
    elim (Option-cases (latest (is_approved_spec s) m.records)) [
      | inl e ↦ rw (e, sync_spec_task_progress) v
      | inr (r, e) ↦
          let (found, t) = latest-kept (is_approved_spec s) m.records r v e in
          rw (e, sync_spec_task_progress)
            (progress_of-IsValid l tasks r read now written saves m found (ground (arith, t)) v)
    ]
