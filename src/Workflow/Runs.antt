-- ===== src/Workflow/Runs.antt =====
-- Sequences of the operations of internal/workflow/workflow.go, writes that fail included.
use foya.Prelude.{ℕ, subst, ◌≡◌, refl, Bool, true, Option, some, List, [], ◌∷◌, Text}
use foya.Prelude.Names.{no_dup}
use foya.Prelude.Map.{lookup}
use foya.Workflow.{Record, Status, Manager, Kind, SpecDocuments, is_open}
use foya.Workflow.Changes.{
  nothing, incomplete, done, start, approve, close, update, Completion, stores, end_completion,
}
use foya.Workflow.Specs.{Task}
use foya.Workflow.Specs.Submit.{submit_spec, sync_spec_task_progress}
use foya.Workflow.Specs.Folders.{Paths, Letters}
use foya.Workflow.Valid.{IsValid}
use foya.Prelude.Keys.{keys}
use foya.Workflow.Kept.{
  start-IsValid, approve-IsValid, close-IsValid, is_open_if, update-IsValid, end_completion-IsValid,
}
use foya.Workflow.Specs.Kept.{after, submit_spec-IsValid, sync_spec_task_progress-IsValid}

-- Whether the artifact and the file of the records are written.
pub record Disk : Type 0 where
  pub written : Bool
  pub saves : Bool

-- The calls. `ends_completion` is the second lock of `CompleteActive`, with what its first lock found
-- at whatever earlier time: the first changes nothing.
pub data Op : Type 0 where
  starts : Text → Text → Kind → Text → Text → ℕ → Disk → Op
  approves : Text → ℕ → Disk → Op
  closes : Text → Text → ℕ → Disk → Op
  ends_completion : Completion → Text → ℕ → Disk → Op
  updates : Text → Status → Text → ℕ → Disk → Op
  submits : ℕ → Text → Text → SpecDocuments → ℕ → Disk → Op
  syncs : Text → List Task → Option Text → ℕ → Disk → Op

-- The manager where there is no file yet.
abbrev pub new : Manager
new = record { records = []; saved = [] }

module _ (p : Paths) (l : Letters) (file : Text) where
  unfoldable pub apply : Op → Manager → Manager
  apply (starts id s k g project now d) m =
      (start p.join p.dir file id s k g project now d.written d.saves m).0
  apply (approves id now d) m = (approve p.join p.dir file id now d.written d.saves m).0
  apply (closes s id now d) m = (close p.join p.dir file s id now d.written d.saves m).0
  apply (ends_completion c content now d) m =
      (end_completion p.join p.dir file c content now d.written d.saves m).0
  apply (updates id st content now d) m =
      (update p.join p.dir file id st content now d.written d.saves m).0
  apply (submits bound stamp s documents now d) m =
      after (submit_spec bound p l stamp s documents now d.written d.saves m) m
  apply (syncs s tasks read now d) m =
      (sync_spec_task_progress l s tasks read now d.written d.saves m).0

  unfoldable pub run : List Op → Manager → Manager
  unfolding apply
  run [] m = m
  run (o ∷ os) m = run os (apply o m)

  -- An `Update` finds its workflow open, if it finds it.
  abbrev pub IsTimely : Op → Manager → Type 0
  IsTimely (updates id st content now d) m = is_open_if (lookup id m.records) ≡ true
  IsTimely (ends_completion (stores r) content now d) m = is_open_if (lookup r.id m.records) ≡ true
  IsTimely _ m = Unit {0}

  abbrev pub AreTimely : List Op → Manager → Type 0
  AreTimely [] m = Unit {0}
  AreTimely (o ∷ os) m = IsTimely o m × AreTimely os (apply o m)

  apply-IsValid :
      (o : Op) (m : Manager) → IsTimely o m → IsValid m.records → IsValid (apply o m).records
  unfolding apply
  apply-IsValid (starts id s k g project now d) m t v =
      start-IsValid p.join p.dir file id s k g project now d.written d.saves m v
  apply-IsValid (approves id now d) m t v =
      approve-IsValid p.join p.dir file id now d.written d.saves m v
  apply-IsValid (closes s id now d) m t v =
      close-IsValid p.join p.dir file s id now d.written d.saves m v
  apply-IsValid (ends_completion c content now d) m t v =
      end_completion-IsValid p.join p.dir file c content now d.written d.saves m (found c t) v
    where
      found :
          (c : Completion)
          → IsTimely (ends_completion c content now d) m
          → (r : Record) → c ≡ stores r
          → is_open_if (lookup r.id m.records) ≡ true
      found nothing t r h = cc
      found incomplete t r h = cc
      found (done q) t r h = cc
      found (stores q) t r h =
          let same : q ≡ r = cc in
          subst (λ (x : Record). is_open_if (lookup x.id m.records) ≡ true) same t
  apply-IsValid (updates id st content now d) m t v =
      update-IsValid p.join p.dir file id st content now d.written d.saves m t v
  apply-IsValid (submits bound stamp s documents now d) m t v =
      submit_spec-IsValid bound p l stamp s documents now d.written d.saves m v
  apply-IsValid (syncs s tasks read now d) m t v =
      sync_spec_task_progress-IsValid l s tasks read now d.written d.saves m v

  pub run-IsValid :
      (os : List Op) (m : Manager) → AreTimely os m → IsValid m.records → IsValid (run os m).records
  unfolding run
  run-IsValid [] m t v = v
  run-IsValid (o ∷ os) m t v = run-IsValid os (apply o m) t.1 (apply-IsValid o m t.0 v)

  pub new-IsValid : IsValid []
  unfolding no_dup keys lookup
  new-IsValid = record { once = refl; named = λ i r h. cc; single = λ i j r q h g s o u. cc }

  -- Through any calls, both locks of `CompleteActive` taken at their own times and any of the writes
  -- failing, a session has at most one open workflow, as long as each `Update`, that of `CompleteActive`
  -- included, finds its workflow open when it comes: two records of the session that are active, ready
  -- or approved have the same name.
  pub run-single :
      (os : List Op) (i j : Text) (r q : Record)
      → AreTimely os new
      → lookup i (run os new).records ≡ some r
      → lookup j (run os new).records ≡ some q
      → r.session_id ≡ q.session_id
      → is_open r.status ≡ true
      → is_open q.status ≡ true
      → i ≡ j
  run-single os i j r q t = (run-IsValid os new t new-IsValid).single i j r q
