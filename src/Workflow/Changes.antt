-- ===== src/Workflow/Changes.antt =====
-- The operations of internal/workflow/workflow.go that change a record, each with the record or the
-- error that it returns. `written` and `saves` say whether the artifact and the file are written.
use foya.Prelude.{
  ℕ, ◌+◌, Bool, true, false, ◌&&◌, ◌||◌, not, Option, none, some, List, [], ◌∷◌, ◌++◌, is_empty,
  if◌then◌else◌, Text, text, text_eq, trim_space,
}
use foya.Prelude.Map.{Map, lookup, insert, delete}
use foya.Prelude.Result.{Result, ok, err}
use foya.Workflow.{
  Kind, plan, spec, goal, other_kind, Status, active, ready, approved, closed, Error, invalid_kind,
  invalid_goal, not_found, invalid_status, spec_incomplete, content_required, root_required,
  write_failed, persist_failed, Record, Manager, valid_kind, valid_status, persist, is_active,
  is_open, active_record,
}

-- The closing of the workflows of a session in `Start`.
abbrev pub close_if : Text → ℕ → Record → Record
close_if session_id now r =
    if text_eq r.session_id session_id && is_open r.status
    then record r { status = closed; updated_at = now; revision = r.revision + 1 }
    else r

unfoldable pub close_open : Text → ℕ → Map Record → Map Record
close_open session_id now [] = []
close_open session_id now ((k, r) ∷ m) =
    (k, close_if session_id now r) ∷ close_open session_id now m

abbrev pub is_spec : Kind → Bool
is_spec spec = true
is_spec _ = false

abbrev kind_text : Kind → Text
kind_text plan = text "plan"
kind_text spec = text "spec"
kind_text goal = text "goal"
kind_text (other_kind k) = k

abbrev pub is_ready : Status → Bool
is_ready ready = true
is_ready _ = false

abbrev pub is_started : Status → Bool
is_started active = true
is_started _ = false

abbrev pub is_closed : Status → Bool
is_closed closed = true
is_closed _ = false

abbrev pub with_status : Status → ℕ → Record → Record
with_status s now r = record r { status = s; revision = r.revision + 1; updated_at = now }

-- What `CompleteActive` makes of the active workflow, before it calls `Update`.
pub data Completion : Type 0 where
  nothing incomplete : Completion
  done stores : Record → Completion

abbrev pub completion_of : Record → Completion
completion_of r =
    if is_spec r.kind
    then (if is_ready r.status then done r else incomplete)
    else (if is_started r.status then stores r else nothing)

abbrev pub completion_if : Option Record → Completion
completion_if none = nothing
completion_if (some r) = completion_of r

unfoldable pub begin_completion : Text → Manager → Completion
unfolding active_record
begin_completion session_id m = completion_if (active_record session_id m.records)

-- `filepath.Join` and `filepath.Dir`, and the path of the file.
module _ (join : List Text → Text) (dir : Text → Text) (file : Text) where
  -- What `writeArtifact` returns, where the file system lets it write or does not.
  unfoldable pub write_artifact : Bool → Record → Option Error
  write_artifact written r =
      if is_spec r.kind
      then (let root : Text = elim r.artifacts [ none ↦ r.artifact_root | some a ↦ dir a.spec ] in
          if is_empty root then some root_required else if written then none else some write_failed)
      else if written
      then none
      else some write_failed

  abbrev pub new_record : Text → Text → Kind → Text → Text → ℕ → Record
  new_record id session_id kind g project now =
      let folder = kind_text kind ++ text "s" in
      let root =
        if is_empty project
        then join (dir file ∷ folder ∷ [])
        else join (project ∷ text ".foya" ∷ folder ∷ []) in
      record {
        id = id;
        session_id = session_id;
        kind = kind;
        status = active;
        goal = g;
        title = [];
        content = [];
        path = if is_spec kind then [] else join (root ∷ (id ++ text ".md") ∷ []);
        artifact_root = if is_spec kind then root else [];
        artifacts = none;
        revision = 1;
        created_at = now;
        updated_at = now;
      }

  -- The end of an operation that has stored `r` in `m`, where a failure leaves `failed`.
  abbrev pub finish : Manager → Bool → Bool → Record → Manager → Manager × Result Error Record
  finish failed written saves r m = elim (write_artifact written r) [
    | some e ↦ (failed, err e)
    | none ↦ if saves then (persist m, ok r) else (failed, err persist_failed)
  ]

  unfoldable pub start :
      Text → Text → Kind → Text → Text → ℕ → Bool → Bool → Manager → Manager × Result Error Record
  unfolding close_open
  start id session_id kind g project now written saves m =
      if not (valid_kind kind)
      then (m, err invalid_kind)
      else if is_empty (trim_space g)
      then (m, err invalid_goal)
      else (let rest = record m { records = close_open session_id now m.records } in
          let r = new_record id session_id kind (trim_space g) project now in
          elim (write_artifact written r) [
            | some e ↦ (rest, err e)
            | none ↦
                let stored = record rest { records = insert id r rest.records } in
                if saves
                then (persist stored, ok r)
                else (record stored { records = delete id stored.records }, err persist_failed)
          ])

  unfoldable pub update :
      Text → Status → Text → ℕ → Bool → Bool → Manager → Manager × Result Error Record
  update id s content now written saves m =
      if not (valid_status s) || is_closed s
      then (m, err invalid_status)
      else if is_empty (trim_space content)
      then (m, err content_required)
      else elim (lookup id m.records) [
        | none ↦ (m, err not_found)
        | some r ↦
            let r' = with_status s now (record r { content = trim_space content }) in
            let m' = record m { records = insert id r' m.records } in finish m' written saves r' m'
      ]

  unfoldable pub approve : Text → ℕ → Bool → Bool → Manager → Manager × Result Error Record
  approve id now written saves m = elim (lookup id m.records) [
    | none ↦ (m, err not_found)
    | some r ↦
        if not (is_ready r.status)
        then (m, err invalid_status)
        else (let r' = with_status approved now r in
            let m' = record m { records = insert id r' m.records } in finish m' written saves r' m')
  ]

  -- `Close`, which stores the record as it was where a write fails.
  unfoldable pub close : Text → Text → ℕ → Bool → Bool → Manager → Manager × Result Error Record
  close session_id id now written saves m = elim (lookup id m.records) [
    | none ↦ (m, err not_found)
    | some r ↦
        if not (text_eq r.session_id session_id)
        then (m, err not_found)
        else if not (is_active r.status)
        then (m, err invalid_status)
        else (let r' = with_status closed now r in
            let stored = record m { records = insert id r' m.records } in
            finish (record stored { records = insert id r stored.records }) written saves r' stored)
  ]

  -- What `CompleteActive` does with what it has found: `Update`, under a lock of its own.
  abbrev pub end_completion :
      Completion → Text → ℕ → Bool → Bool → Manager → Manager × Option (Result Error Record)
  end_completion nothing content now written saves m = (m, none)
  end_completion incomplete content now written saves m = (m, some (err spec_incomplete))
  end_completion (done r) content now written saves m = (m, some (ok r))
  end_completion (stores r) content now written saves m =
      let (m', result) = update r.id ready content now written saves m in (m', some result)
