-- ===== src/Conversation/Cuts.antt =====
-- internal/conversation/compaction.go: where a history may be cut. A message has the fields that the
-- cut and the plan read; an index of the source that is -1 is `none` here.
pub mod Groups
pub mod Prefix
pub mod Plans
mod Examples
use foya.Prelude.{
  ℕ, zero, suc, ◌+◌, ◌-◌, Bool, true, false, ◌&&◌, ◌||◌, not, Option, none, some, List, [], ◌∷◌,
  length, map, ltb, leb, ◌==◌, is_empty, if◌then◌else◌, Text, get_elem?,
}
use foya.Prelude.Names.{distinct, only}

pub data Role : Type 0 where
  user assistant system tool : Role

pub record ToolCall : Type 0 where
  pub id : Text
  pub name : Text
  pub input : Text

pub record Message : Type 0 where
  pub role : Role
  pub content : Text
  pub tool_calls : List ToolCall
  pub tool_call_id : Text
  pub event_seq : ℕ

pub record MessageEvent : Type 0 where
  pub seq : ℕ
  pub session : Text
  pub message : Message

pub record AtomicGroup : Type 0 where
  pub start : ℕ
  pub end : ℕ
  pub complete : Bool

abbrev pub is_tool : MessageEvent → Bool
is_tool e = elim e.message.role [ tool ↦ true | _ ↦ false ]

abbrev pub is_user : MessageEvent → Bool
is_user e = elim e.message.role [ user ↦ true | _ ↦ false ]

abbrev pub has_calls : MessageEvent → Bool
has_calls e = elim e.message.role [ assistant ↦ not (is_empty e.message.tool_calls) | _ ↦ false ]

abbrev pub call_ids : MessageEvent → List Text
call_ids e = map (λ c. c.id) e.message.tool_calls

-- The tool results at the front, which the inner loop runs over, and what comes after them.
unfoldable pub results : List MessageEvent → List MessageEvent
results [] = []
results (e ∷ es) = let rest = results es in if is_tool e then e ∷ rest else []

unfoldable pub after_results : List MessageEvent → List MessageEvent
after_results [] = []
after_results (e ∷ es) = let rest = after_results es in if is_tool e then rest else e ∷ es

abbrev pub result_ids : List MessageEvent → List Text
result_ids = map (λ e. e.message.tool_call_id)

-- As many ids are seen among the results as are expected; there is one at least.
unfoldable pub is_answered : MessageEvent → List MessageEvent → Bool
unfolding distinct only
is_answered e rs =
    let expected = distinct (call_ids e) in
    let seen = distinct (only expected (result_ids rs)) in
    ltb 0 (length expected) && length seen == length expected

-- The outer loop from the index `i` on. A round takes one message or more, so the first number, which
-- bounds the rounds, is enough where it is the number of messages.
unfoldable pub groups_from : ℕ → ℕ → List MessageEvent → List AtomicGroup
unfolding results after_results is_answered
groups_from zero i es = []
groups_from (suc n) i [] = []
groups_from (suc n) i (e ∷ es) =
    let rs = results es in
    let end = suc i + length rs in
    let exchange = groups_from n end (after_results es) in
    let single = groups_from n (suc i) es in
    if has_calls e
    then record { start = i; end = end; complete = is_answered e rs } ∷ exchange
    else record { start = i; end = suc i; complete = not (is_tool e) } ∷ single

unfoldable pub atomic_groups : List MessageEvent → List AtomicGroup
unfolding groups_from
atomic_groups content = groups_from (length content) 0 content

-- The loop of `safePrefixCut` from `cut` on.
unfoldable pub cut_from : ℕ → ℕ → List AtomicGroup → ℕ
cut_from desired cut [] = cut
cut_from desired cut (g ∷ gs) =
    let more = cut_from desired g.end gs in
    if ltb desired g.end || not g.complete then cut else more

unfoldable pub safe_prefix_cut : List AtomicGroup → ℕ → ℕ
unfolding cut_from
safe_prefix_cut groups desired = cut_from desired 0 groups

unfoldable pub last_user_index : List MessageEvent → Option ℕ
last_user_index [] = none
last_user_index (e ∷ es) = elim (last_user_index es) [
  | some i ↦ some (suc i)
  | none ↦ if is_user e then some 0 else none
]

pub data Phase : Type 0 where
  auto standalone pre_turn mid_turn : Phase
  other : Text → Phase

-- A cut and the sequence number of the head anchor, 0 for none.
pub record Boundary : Type 0 where
  pub cut : ℕ
  pub anchor : ℕ

abbrev holds_index : ℕ → AtomicGroup → Bool
holds_index i g = leb g.start i && ltb i g.end

unfoldable pub head_group : ℕ → List AtomicGroup → Option ℕ
head_group i [] = none
head_group i (g ∷ gs) =
    let rest = head_group i gs in
    if holds_index i g then some 0 else elim rest [ none ↦ none | some k ↦ some (suc k) ]

-- The end of the last group but one, if all groups up to it are complete.
unfoldable pub complete_but_last : List AtomicGroup → Option ℕ
complete_but_last [] = none
complete_but_last (g ∷ []) = none
complete_but_last (g ∷ h ∷ []) = if g.complete then some g.end else none
complete_but_last (g ∷ h ∷ k ∷ gs) =
    let rest = complete_but_last (h ∷ k ∷ gs) in if g.complete then rest else none

abbrev pub seq_at : List MessageEvent → ℕ → ℕ
seq_at content i = elim (get_elem? content i) [ none ↦ 0 | some e ↦ e.seq ]

abbrev some_cut : ℕ → Option Boundary
some_cut cut = if ltb 0 cut then some (record { cut = cut; anchor = 0 }) else none

abbrev mid_turn_cut : List MessageEvent → List AtomicGroup → ℕ → Option Boundary
mid_turn_cut content groups last_user = elim (head_group last_user groups) [
  | none ↦ none
  | some head ↦ if ltb (length groups) (head + 3) then none else elim (complete_but_last groups) [
    | none ↦ none
    | some cut ↦
        if ltb (last_user + 1) cut
        then some (record { cut = cut; anchor = seq_at content last_user })
        else none
  ]
]

unfoldable pub plan_boundary : List MessageEvent → List AtomicGroup → Phase → Option Boundary
unfolding safe_prefix_cut last_user_index head_group complete_but_last
plan_boundary content groups standalone = some_cut (safe_prefix_cut groups (length content))
plan_boundary content groups pre_turn = elim (last_user_index content) [
  | none ↦ none
  | some last_user ↦ some_cut (safe_prefix_cut groups last_user)
]
plan_boundary content groups mid_turn = elim (last_user_index content) [
  | none ↦ none
  | some last_user ↦ mid_turn_cut content groups last_user
]
plan_boundary content groups _ = none
