-- ===== src/Subagent/Manager.antt =====
-- internal/subagent/manager.go and subagent.go: the runs of child agents and the slots that they need.
-- A run is a goroutine in `runAsync`; each operation is what one of its steps does under the locks, and
-- a caller's request is a step too. A call of `Spawn` is no run: it takes a slot and gives it back. A
-- token count is an int64, kept as a number below 2 ^ 64. Sessions, the
-- child itself, the file that keeps the runs and the times are left out: what `sessions.Get` says, the
-- outcome of the child and the root run that is drawn are arguments.
pub mod Usage
pub mod Counts
pub mod Slots
pub mod Spawns
pub mod Runs
pub mod Bounds
pub mod Children
pub mod Statuses
pub mod Changes
pub mod Finals
mod Examples
use foya.Prelude.{
  ℕ, zero, suc, ◌+◌, ◌-◌, Bool, true, false, ◌&&◌, ◌||◌, not, Option, none, some, List, [], ◌∷◌,
  is_empty, leb, ltb, ◌==◌, count_if, exists, if◌then◌else◌, Text, text_eq, map,
}
use foya.Prelude.Map.{Map, lookup, insert, delete}
use foya.Prelude.Result.{Result, ok, err}

pub data Status : Type 0 where
  queued running completed failed cancelled interrupted : Status

-- Where `runAsync` stands: it looks for a slot, it waits in the `select` for a change or the end of its
-- context, it has a slot and the child runs, the run is finished and
-- the slot still taken, or it has returned.
pub data Phase : Type 0 where
  waiting blocked working finished returned : Phase

pub data Error : Type 0 where
  parent_session_not_found too_many_children not_exist : Error

pub record Limits : Type 0 where
  pub max_global_concurrency : ℕ
  pub max_per_root : ℕ
  pub max_children_per_root : ℕ
  pub max_tree_tokens : ℕ

-- A `runState` and its `Snapshot`; the number is its identifier. `is_cancelled` says whether the
-- context is done.
pub record Run : Type 0 where
  pub id : ℕ
  pub status : Status
  pub root_session : Text
  pub root_run : Text
  pub parent_session : Text
  pub tokens_used : ℕ
  pub phase : Phase
  pub is_cancelled : Bool

-- `spawned` names the root runs of the calls of `Spawn` that have a slot.
pub record Manager : Type 0 where
  pub runs : List Run
  pub next_id : ℕ
  pub tree_tokens : Map ℕ
  pub limits : Limits
  pub global_active : ℕ
  pub root_active : Map ℕ
  pub spawned : List Text

abbrev pub default_max_concurrency : ℕ
default_max_concurrency = 4

abbrev pub default_max_per_root : ℕ
default_max_per_root = 4

abbrev pub default_max_children : ℕ
default_max_children = 64

abbrev pub or_default : ℕ → ℕ → ℕ
or_default d n = if n == 0 then d else n

unfoldable pub new_manager : Limits → Manager
new_manager l = record {
  runs = [];
  next_id = 0;
  tree_tokens = [];
  limits = record l {
    max_global_concurrency = or_default default_max_concurrency l.max_global_concurrency;
    max_per_root = or_default default_max_per_root l.max_per_root;
    max_children_per_root = or_default default_max_children l.max_children_per_root;
  };
  global_active = 0;
  root_active = [];
  spawned = [];
}

abbrev pub or_zero : Option ℕ → ℕ
or_zero none = 0
or_zero (some n) = n

-- `rootActive[id]` and `treeTokens[id]`.
abbrev pub active_of : Manager → Text → ℕ
active_of m root = or_zero (lookup root m.root_active)

abbrev pub tokens_of : Manager → Text → ℕ
tokens_of m root = or_zero (lookup root m.tree_tokens)

unfoldable pub find_run : ℕ → List Run → Option Run
find_run id [] = none
find_run id (r ∷ rs) = if r.id == id then some r else find_run id rs

unfoldable pub modify_run : ℕ → (Run → Run) → List Run → List Run
modify_run id f [] = []
modify_run id f (r ∷ rs) =
    let rest = modify_run id f rs in if r.id == id then f r ∷ rs else r ∷ rest

abbrev pub is_of_root : Text → Run → Bool
is_of_root root r = text_eq r.root_run root

-- `Start`; `found` is what `sessions.Get` says of the parent.
unfoldable pub start : Bool → Text → Text → Text → Manager → Result Error Manager
unfolding count_if
start found root_session root_run parent m =
    if not found
    then err parent_session_not_found
    else if leb m.limits.max_children_per_root (count_if (is_of_root root_run) m.runs)
    then err too_many_children
    else ok (record m {
      next_id = suc m.next_id;
      runs =
          record {
            id = m.next_id;
            status = queued;
            root_session = root_session;
            root_run = root_run;
            parent_session = parent;
            tokens_used = 0;
            phase = waiting;
            is_cancelled = false;
          }
          ∷ m.runs;
    })

-- One round of `acquireSlot`: whether there is a slot.
abbrev pub has_slot : Manager → Text → Bool
has_slot m root =
    ltb m.global_active m.limits.max_global_concurrency
    && ltb (active_of m root) m.limits.max_per_root

abbrev pub take_slot : Run → Manager → Manager
take_slot r m = record m {
  runs = modify_run r.id (λ q. record q { status = running; phase = working }) m.runs;
  global_active = m.global_active + 1;
  root_active = insert r.root_run (active_of m r.root_run + 1) m.root_active;
}

-- `finishState`, and what the run does next.
abbrev pub finish_state : ℕ → Status → Phase → Manager → Manager
finish_state id status phase m = record m {
  runs = modify_run id (λ q. record q { status = status; phase = phase }) m.runs;
}

abbrev pub block : ℕ → Manager → Manager
block id m = record m { runs = modify_run id (λ q. record q { phase = blocked }) m.runs }

-- One round of `acquireSlot`, up to the call of the child or to the `select`.
abbrev pub begin_waiting : Run → Manager → Manager
begin_waiting r m = if has_slot m r.root_run then take_slot r m else block r.id m

unfoldable pub acquire_slot : ℕ → Manager → Manager
acquire_slot id m = elim (find_run id m.runs) [
  | none ↦ m
  | some r ↦ elim r.phase [ waiting ↦ begin_waiting r m | blocked ↦ begin_waiting r m | _ ↦ m ]
]

-- The other way out of the `select`, whether or not a slot is free by then.
unfoldable pub give_up : ℕ → Manager → Manager
give_up id m = elim (find_run id m.runs) [
  | none ↦ m
  | some r ↦ elim r.phase [
    | blocked ↦ if r.is_cancelled then finish_state r.id cancelled returned m else m
    | _ ↦ m
  ]
]

-- What the child's end means.
pub data ChildEnd : Type 0 where
  succeeds fails_cancelled fails : ChildEnd

abbrev pub end_status : ChildEnd → Status
end_status succeeds = completed
end_status fails_cancelled = cancelled
end_status fails = failed

unfoldable pub end_child : ℕ → ChildEnd → Manager → Manager
end_child id e m = elim (find_run id m.runs) [
  | none ↦ m
  | some r ↦ elim r.phase [ working ↦ finish_state id (end_status e) finished m | _ ↦ m ]
]

-- `rootActive[id]--`, and its deletion at 0.
abbrev pub drop_active : Text → ℕ → Map ℕ → Map ℕ
drop_active root n active = if n == 1 then delete root active else insert root (n - 1) active

abbrev pub give_slot : Run → Manager → Manager
give_slot r m = record m {
  runs = modify_run r.id (λ q. record q { phase = returned }) m.runs;
  global_active = m.global_active - 1;
  root_active = drop_active r.root_run (active_of m r.root_run) m.root_active;
}

-- The deferred `releaseSlot` of a run.
unfoldable pub release_slot : ℕ → Manager → Manager
release_slot id m = elim (find_run id m.runs) [
  | none ↦ m
  | some r ↦ elim r.phase [ finished ↦ give_slot r m | _ ↦ m ]
]

-- `Spawn` from the outside: a round of its `acquireSlot`, and its deferred `releaseSlot`. Where it gives
-- up or waits, nothing changes.
unfoldable pub spawn_acquire : Text → Manager → Manager
spawn_acquire root m =
    if has_slot m root
    then record m {
      global_active = m.global_active + 1;
      root_active = insert root (active_of m root + 1) m.root_active;
      spawned = root ∷ m.spawned;
    }
    else m

unfoldable pub remove_one : Text → List Text → List Text
remove_one root [] = []
remove_one root (t ∷ ts) = let rest = remove_one root ts in if text_eq t root then ts else t ∷ rest

unfoldable pub spawn_release : Text → Manager → Manager
unfolding exists remove_one
spawn_release root m =
    if exists (λ t. text_eq t root) m.spawned
    then record m {
      global_active = m.global_active - 1;
      root_active = drop_active root (active_of m root) m.root_active;
      spawned = remove_one root m.spawned;
    }
    else m
