-- ===== src/Interaction/Approval.antt =====
-- internal/interaction/approval.go: the approval gateway. A request that has to wait is a step of its
-- own, and so are the decision that reaches it and the cancellation of its context. The reviewer and
-- the hook of a context are functions; times, telemetry and the log's sequence numbers are left out.
pub mod Requests
pub mod Grants
mod Examples
use foya.Prelude.{
  ℕ, Bool, true, false, ◌&&◌, ◌||◌, not, Option, none, some, List, [], ◌∷◌, is_empty, exists,
  keep_if, if◌then◌else◌, Text, text, text_eq,
}
use foya.Prelude.Map.{Map, lookup, insert, delete}
use foya.Prelude.Result.{Result, ok, err}

-- A mode or a decision is a string; `other` is any string that is not a constant of the package.
pub data Mode : Type 0 where
  manual auto full_access : Mode
  other : Text → Mode

abbrev pub valid_mode : Mode → Bool
valid_mode (other t) = false
valid_mode _ = true

pub data Decision : Type 0 where
  auto_approve approved approved_for_session denied : Decision
  unknown : Text → Decision

pub data Error : Type 0 where
  invalid_mode invalid_decision guardian_unavailable guardian_review cancelled : Error

pub record Request : Type 0 where
  pub id : Text
  pub session : Text
  pub execution_session : Text
  pub tool_name : Text
  pub action : Text
  pub detail : Text
  pub resource : Text
  pub scope : Text

pub record Review : Type 0 where
  pub is_approved : Bool
  pub reason : Text

-- What the context of a call holds.
pub record Context : Type 0 where
  pub mode : Option Mode
  pub session : Option Text
  pub execution_session : Option Text
  pub reviewer : Option (Request → Option Review)
  pub request_hook : Option (Request → Option Decision)

abbrev pub mode_from_context : Context → Mode
mode_from_context c = elim c.mode [ none ↦ manual | some m ↦ m ]

pub record GrantKey : Type 0 where
  pub session : Text
  pub tool : Text
  pub action : Text
  pub resource : Text

pub data Effect : Type 0 where
  asked : Request → Effect
  resolved : Text → Decision → Effect

-- `results` holds the decision in the channel of a request that waits; effects are latest first.
pub record Gateway : Type 0 where
  pub pending : Map Request
  pub grants : List GrantKey
  pub results : Map Decision
  pub effects : List Effect

unfoldable pub new_gateway : Gateway
new_gateway = record { pending = []; grants = []; results = []; effects = [] }

abbrev or_text : Text → Text → Text
or_text s t = if is_empty s then t else s

unfoldable pub request_grant_key : Request → GrantKey
request_grant_key r = record {
  session = r.session;
  tool = r.tool_name;
  action = r.action;
  resource = or_text (or_text r.scope r.resource) r.detail;
}

unfoldable pub key_eq : GrantKey → GrantKey → Bool
key_eq a b =
    text_eq a.session b.session
    && text_eq a.tool b.tool
    && text_eq a.action b.action
    && text_eq a.resource b.resource

unfoldable pub has_grant : Gateway → Request → Bool
unfolding key_eq request_grant_key exists
has_grant g r = if is_empty r.session then false else exists (key_eq (request_grant_key r)) g.grants

-- A call of `Request` returns, or waits for its decision.
pub data Outcome : Type 0 where
  decided : Decision → Option Error → Outcome
  waits : Request → Outcome

-- The request with its identifier and the sessions of the context.
unfoldable pub fill : Context → Text → Request → Request
fill c new_id r = record r {
  id = or_text r.id new_id;
  session = elim c.session [ none ↦ r.session | some s ↦ s ];
  execution_session = elim c.execution_session [ none ↦ r.execution_session | some s ↦ s ];
}

-- What a hook says, if there is one and it handles the request.
abbrev pub hook_decision : Context → Request → Option Decision
hook_decision c r = elim c.request_hook [ none ↦ none | some h ↦ h r ]

-- A hook may only approve or deny.
abbrev pub hook_outcome : Decision → Outcome
hook_outcome auto_approve = decided auto_approve none
hook_outcome denied = decided denied none
hook_outcome _ = decided denied (some invalid_decision)

-- `none` of the reviewer is its error.
abbrev pub review_outcome : Option Review → Outcome
review_outcome none = decided denied (some guardian_review)
review_outcome (some v) = if v.is_approved then decided auto_approve none else decided denied none

abbrev pub guardian_outcome : Context → Request → Outcome
guardian_outcome c r = elim c.reviewer [
  | none ↦ decided denied (some guardian_unavailable)
  | some review ↦ review_outcome (review r)
]

-- A request that a user has to decide.
abbrev pub ask : Request → Gateway → Gateway
ask r g = record g { pending = insert r.id r g.pending; effects = asked r ∷ g.effects }

abbrev pub prompt : Context → Request → Mode → Gateway → Gateway × Outcome
prompt c r auto g = (g, guardian_outcome c r)
prompt c r _ g = (ask r g, waits r)

abbrev pub is_full_access : Mode → Bool
is_full_access full_access = true
is_full_access _ = false

abbrev pub read_action : Text
read_action = text "read"

-- `Request` up to the select; `new_id` is the identifier drawn if the request has none.
unfoldable pub request : Context → Text → Request → Gateway → Gateway × Outcome
unfolding fill
request c new_id r0 g =
    let r = fill c new_id r0 in
    if not (valid_mode (mode_from_context c))
    then (g, decided denied (some invalid_mode))
    else if is_full_access (mode_from_context c) || text_eq r.action read_action
    then (g, decided auto_approve none)
    else if has_grant g r
    then (g, decided approved_for_session none)
    else elim (hook_decision c r) [
      | some d ↦ (g, hook_outcome d)
      | none ↦ prompt c r (mode_from_context c) g
    ]

-- The two ends of the select: the decision, or the end of the context.
unfoldable pub receive : Request → Gateway → Option (Gateway × Outcome)
receive r g = elim (lookup r.id g.results) [
  | none ↦ none
  | some d ↦ some (
    record g { results = delete r.id g.results; effects = resolved r.id d ∷ g.effects },
    decided d none,
  )
]

unfoldable pub cancel : Request → Gateway → Gateway × Outcome
cancel r g = (record g { pending = delete r.id g.pending }, decided denied (some cancelled))

abbrev pub is_client_decision : Decision → Bool
is_client_decision auto_approve = false
is_client_decision (unknown t) = false
is_client_decision _ = true

abbrev pub add_grant : Decision → Request → List GrantKey → List GrantKey
add_grant approved_for_session r grants =
    if is_empty r.session then grants else request_grant_key r ∷ grants
add_grant _ r grants = grants

unfoldable pub resolve : Text → Decision → Gateway → Result Error Gateway
resolve id d g =
    if not (is_client_decision d) then err invalid_decision else elim (lookup id g.pending) [
      | none ↦ ok g
      | some r ↦ ok (record g {
        pending = delete id g.pending;
        grants = add_grant d r g.grants;
        results = insert id d g.results;
      })
    ]

unfoldable pub clear_session : Text → Gateway → Gateway
unfolding keep_if
clear_session s g = record g { grants = keep_if (λ k. not (text_eq k.session s)) g.grants }
