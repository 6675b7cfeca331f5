-- ===== src/Workflow/Failures.antt =====
-- What internal/workflow/workflow.go leaves behind when an operation fails.
use foya.Prelude.{
  ℕ, ◌≡◌, refl, ap, ◌⊎◌, inl, inr, Bool, true, false, ◌&&◌, not, Option, none, some, List,
  if◌then◌else◌, is_empty, Text, text_eq, Bool-cases, Option-cases,
}
use foya.Prelude.Map.{lookup, insert, insert-restores}
use foya.Prelude.Result.{Result, ok, err, Result-cases}
use foya.Workflow.{
  Record, Manager, Error, closed, ready, completed, SpecArtifacts, SpecDocuments, is_active,
  active_record, latest,
}
use foya.Workflow.Changes.{close, finish, write_artifact, with_status, is_spec}
use foya.Workflow.Specs.{Task, validate_spec_documents, sync_task_checkboxes}
use foya.Workflow.Specs.Submit.{
  submit_spec, store_spec, store_in, store_documents, store_progress, progress_of, is_approved_spec,
  trim_documents, sync_spec_task_progress, all_completed,
}
use foya.Workflow.Specs.Folders.{Paths, Letters, documents_in, unique_directory, slugify}
use foya.Workflow.Valid.{IsValid, latest-kept, active_record-kept}
use foya.Workflow.Specs.Kept.{restore-insert}

-- Either the call has succeeded or the manager is as it was.
abbrev pub Keeps {ℓ} : {A : Type ℓ} → Manager → Manager × Result Error A → Type ℓ
Keeps {A = A} m x = ((a : A) × (x.1 ≡ ok a)) ⊎ (x.0 ≡ m)

if-Keeps {ℓ} :
    {A : Type ℓ} (m : Manager) (b : Bool) (x y : Manager × Result Error A)
    → Keeps m x
    → Keeps m y
    → Keeps m (if b then x else y)
if-Keeps m true x y h k = h
if-Keeps m false x y h k = k

finish-Keeps :
    (join : List Text → Text) (dir : Text → Text) (file : Text) (failed : Manager)
    (written saves : Bool) (r : Record) (m m' : Manager)
    → failed ≡ m
    → Keeps m (finish join dir file failed written saves r m')
finish-Keeps join dir file failed written true r m m' h =
    elim (Option-cases (write_artifact join dir file written r)) [
      | inr (e, w) ↦ rw (w, finish) (inr h)
      | inl w ↦ rw (w, finish) (inl (r, refl))
    ]
finish-Keeps join dir file failed written false r m m' h =
    elim (Option-cases (write_artifact join dir file written r)) [
      | inr (e, w) ↦ rw (w, finish) (inr h)
      | inl w ↦ rw (w, finish) (inr h)
    ]

close-Keeps :
    (join : List Text → Text) (dir : Text → Text) (file s id : Text) (now : ℕ)
    (written saves : Bool) (m : Manager)
    → Keeps m (close join dir file s id now written saves m)
unfolding close
close-Keeps join dir file s id now written saves m = elim (Option-cases (lookup id m.records)) [
  | inl e ↦ rw (e, close) (inr refl)
  | inr (r, e) ↦ elim (Bool-cases (text_eq r.session_id s)) [
    | inr foreign ↦ rw (e, close, foreign) (inr refl)
    | inl own ↦ elim (Bool-cases (is_active r.status)) [
      | inr settled ↦ rw (e, close, own, settled) (inr refl)
      | inl is ↦
          let r' = with_status closed now r in
          let m' = record m { records = insert id r' m.records } in
          rw (e, close, own, is)
            (finish-Keeps join dir file (record m' { records = insert id r m'.records }) written
              saves r' m m'
              (ap (λ x. record m { records = x }) (insert-restores id r r' m.records e)))
    ]
  ]
]

store_spec-Keeps :
    (d : SpecDocuments) (a : SpecArtifacts) (q r : Record) (now : ℕ) (written saves : Bool)
    (m : Manager)
    → lookup r.id m.records ≡ some q
    → Keeps m (store_spec d a r now written saves m)
store_spec-Keeps d a q r now false saves m e = inr refl
store_spec-Keeps d a q r now true true m e = inl (_, refl)
store_spec-Keeps d a q r now true false m e =
    let r' =
      with_status ready now (record r { artifacts = some a; path = a.spec; content = d.spec }) in
    inr (ap (λ y. record m { records = y }) (restore-insert r.id q r' m.records e))

store_progress-Keeps :
    (r : Record) (ends : Bool) (now : ℕ) (saves : Bool) (m : Manager)
    → lookup r.id m.records ≡ some r
    → Keeps m (store_progress r ends now saves m)
store_progress-Keeps r ends now true m e = inl (_, refl)
store_progress-Keeps r ends now false m e =
    let r' = with_status (if ends then completed else r.status) now r in
    inr (ap (λ y. record m { records = y }) (restore-insert r.id r r' m.records e))

progress_of-Keeps :
    (l : Letters) (tasks : List Task) (r : Record) (read : Option Text) (now : ℕ)
    (written saves : Bool) (m : Manager)
    → lookup r.id m.records ≡ some r
    → Keeps m (progress_of l tasks r read now written saves m)
progress_of-Keeps l tasks r none now written saves m e = inr refl
progress_of-Keeps l tasks r (some content) now written saves m e =
    let changed = (sync_task_checkboxes l.to_lower content tasks).1 in
    let ends = not (is_empty tasks) && all_completed tasks in
    if-Keeps m (not changed && not ends) _ _ (inr refl) (
      if-Keeps m (changed && not written) _ _ (inr refl)
        (store_progress-Keeps r ends now saves m e))

sync-Keeps :
    (l : Letters) (s : Text) (tasks : List Task) (read : Option Text) (now : ℕ)
    (written saves : Bool) (m : Manager)
    → IsValid m.records
    → Keeps m (sync_spec_task_progress l s tasks read now written saves m)
unfolding sync_spec_task_progress
sync-Keeps l s tasks read now written saves m v =
    elim (Option-cases (latest (is_approved_spec s) m.records)) [
      | inl e ↦ rw (e, sync_spec_task_progress) (inr refl)
      | inr (r, e) ↦
          rw (e, sync_spec_task_progress)
            (progress_of-Keeps l tasks r read now written saves m
              (latest-kept (is_approved_spec s) m.records r v e).0)
    ]

-- The same for a call that may not return.
abbrev pub KeepsIf {ℓ} : {A : Type ℓ} → Manager → Option (Manager × Result Error A) → Type ℓ
KeepsIf m none = Unit
KeepsIf m (some x) = Keeps m x

store_in-Keeps :
    (o : Option (Result Error Text)) (p : Paths) (d : SpecDocuments) (r : Record) (now : ℕ)
    (written saves : Bool) (m : Manager)
    → lookup r.id m.records ≡ some r
    → KeepsIf m (store_in o p d r now written saves m)
store_in-Keeps none p d r now written saves m e = tt
store_in-Keeps (some (err x)) p d r now written saves m e = inr refl
store_in-Keeps (some (ok folder)) p d r now written saves m e =
    store_spec-Keeps d (documents_in p folder) r (record r { title = d.title }) now written saves m
      e

store_documents-Keeps :
    (o : Option SpecArtifacts) (bound : ℕ) (p : Paths) (l : Letters) (stamp : Text)
    (d : SpecDocuments) (r : Record) (now : ℕ) (written saves : Bool) (m : Manager)
    → lookup r.id m.records ≡ some r
    → KeepsIf m (store_documents o bound p l stamp d r now written saves m)
store_documents-Keeps (some a) bound p l stamp d r now written saves m e =
    store_spec-Keeps d a r r now written saves m e
store_documents-Keeps none bound p l stamp d r now written saves m e =
    store_in-Keeps (unique_directory bound p r.artifact_root (slugify l stamp d.title)) p d r now
      written saves m e

submit-Keeps :
    (bound : ℕ) (p : Paths) (l : Letters) (stamp s : Text) (documents : SpecDocuments) (now : ℕ)
    (written saves : Bool) (m : Manager)
    → IsValid m.records
    → KeepsIf m (submit_spec bound p l stamp s documents now written saves m)
unfolding submit_spec
submit-Keeps bound p l stamp s documents now written saves m v =
    let d = trim_documents documents in
    elim (Result-cases (validate_spec_documents d)) [
      | inl (x, bad) ↦ rw (bad, submit_spec) (inr refl)
      | inr (ts, good) ↦ elim (Option-cases (active_record s m.records)) [
        | inl e ↦ rw (good, e, submit_spec) (inr refl)
        | inr (r, e) ↦ elim (Bool-cases (is_spec r.kind)) [
          | inr other ↦ rw (good, e, submit_spec, other) (inr refl)
          | inl sp ↦
              rw (good, e, submit_spec, sp)
                (store_documents-Keeps r.artifacts bound p l stamp d r now written saves m
                  (active_record-kept s m.records r v e).0)
        ]
      ]
    ]

-- In a valid state a call of `Close`, `SubmitSpec` or `SyncSpecTaskProgress` that fails, for whatever
-- reason, leaves the manager exactly as it was.
pub failures-keep :
    (p : Paths) (l : Letters) (file s id stamp : Text) (documents : SpecDocuments)
    (tasks : List Task) (read : Option Text) (bound now : ℕ) (written saves : Bool) (m : Manager)
    → IsValid m.records
    → Keeps m (close p.join p.dir file s id now written saves m)
      × KeepsIf m (submit_spec bound p l stamp s documents now written saves m)
      × Keeps m (sync_spec_task_progress l s tasks read now written saves m)
failures-keep p l file s id stamp documents tasks read bound now written saves m v = (
  close-Keeps p.join p.dir file s id now written saves m,
  submit-Keeps bound p l stamp s documents now written saves m v,
  sync-Keeps l s tasks read now written saves m v,
)
