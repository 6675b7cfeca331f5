-- ===== src/Workflow.antt =====
-- internal/workflow/workflow.go: plans, specs and goals of a session. The records are a map from
-- their names, the file beside it is the list of records that it holds. Whether a write succeeds is an
-- argument of the operation that makes it, as are the clock and new names. Path functions and
-- `strings.ToLower` are arguments. What an artifact's file says, and the instructions of a policy, are
-- left out.
pub mod Changes
pub mod Valid
pub mod Kept
pub mod Runs
pub mod Failures
pub mod Begins
mod Examples
pub mod Specs
use foya.Prelude.{
  ℕ, ◌+◌, Bool, true, false, ◌&&◌, not, Option, none, some, List, [], ◌∷◌, map, is_empty,
  if◌then◌else◌, Text, text_eq, ltb,
}
use foya.Prelude.Map.{Map, insert}
use foya.Prelude.Result.{Result, ok, err}

pub data Kind : Type 0 where
  plan spec goal : Kind
  other_kind : Text → Kind

pub data Status : Type 0 where
  active ready approved completed closed : Status
  other_status : Text → Status

pub data Error : Type 0 where
  invalid_kind invalid_goal not_found invalid_status no_active_record spec_incomplete : Error
  content_required root_required unreadable_file write_failed persist_failed : Error
  invalid_documents : Error

pub record SpecArtifacts : Type 0 where
  pub spec : Text
  pub tasks : Text
  pub checklist : Text

pub record SpecDocuments : Type 0 where
  pub title : Text
  pub spec : Text
  pub tasks : Text
  pub checklist : Text

pub record Record : Type 0 where
  pub id : Text
  pub session_id : Text
  pub kind : Kind
  pub status : Status
  pub goal : Text
  pub title : Text
  pub content : Text
  pub path : Text
  pub artifact_root : Text
  pub artifacts : Option SpecArtifacts
  pub revision : ℕ
  pub created_at : ℕ
  pub updated_at : ℕ

pub record Manager : Type 0 where
  pub records : Map Record
  pub saved : List Record

abbrev pub valid_kind : Kind → Bool
valid_kind (other_kind k) = false
valid_kind _ = true

abbrev pub valid_status : Status → Bool
valid_status (other_status s) = false
valid_status _ = true

-- What `NewManager` finds at the path of the file.
pub data File : Type 0 where
  missing unreadable : File
  holds : List Record → File

abbrev pub is_loadable : Record → Bool
is_loadable r =
    valid_kind r.kind
    && (valid_status r.status && (not (is_empty r.id) && not (is_empty r.session_id)))

unfoldable pub load : List Record → Map Record → Map Record
load [] m = m
load (r ∷ rs) m = if is_loadable r then load rs (insert r.id r m) else load rs m

unfoldable pub new_manager : File → Result Error Manager
unfolding load
new_manager missing = ok (record { records = []; saved = [] })
new_manager unreadable = err unreadable_file
new_manager (holds rs) = ok (record { records = load rs []; saved = rs })

-- `persistLocked` where it succeeds.
abbrev pub persist : Manager → Manager
persist m = record m { saved = map (λ e. e.1) m.records }

-- A record of the session whose workflow is active or ready.
abbrev pub is_active : Status → Bool
is_active active = true
is_active ready = true
is_active _ = false

-- The status of a workflow that a new one of the session closes.
abbrev pub is_open : Status → Bool
is_open approved = true
is_open s = is_active s

-- The step of the loops over the records that keep the latest one.
abbrev pub later : Option Record → Record → Option Record
later none r = some r
later (some l) r =
    if is_empty l.id then some r else if ltb l.updated_at r.updated_at then some r else some l

-- The latest record that passes a test, in some order of the map.
unfoldable pub latest_from : (Record → Bool) → Option Record → Map Record → Option Record
latest_from p acc [] = acc
latest_from p acc ((k, r) ∷ m) = latest_from p (if p r then later acc r else acc) m

abbrev pub if_named : Option Record → Option Record
if_named none = none
if_named (some r) = if is_empty r.id then none else some r

unfoldable pub latest : (Record → Bool) → Map Record → Option Record
unfolding latest_from
latest p m = if_named (latest_from p none m)

-- `Active`, and `activeLocked`, which is the same under a lock that is held.
unfoldable pub active_record : Text → Map Record → Option Record
unfolding latest
active_record session_id m = latest (λ r. text_eq r.session_id session_id && is_active r.status) m
