-- ===== src/Interaction/Approval/Examples.antt =====
-- Runs of the approval gateway, and its theorems at one shell command.
use foya.Prelude.{◌≡◌, refl, ◌⊎◌, ◌↔◌, true, not, ◌&&◌, Option, none, some, [], text, text_eq}
use foya.Prelude.Map.{lookup, insert}
use foya.Interaction.Approval.{
  approved_for_session, approved, denied, auto_approve, manual, Context, Error, Request, Gateway,
  request, fill, request_grant_key, has_grant, clear_session, new_gateway, resolve, read_action,
}
use foya.Interaction.Approval.Requests.{Allowed, request-Allowed}
use foya.Interaction.Approval.Grants.{
  after_decision, resolve-first, has_grant-clear_session, has_grant-resolve,
}

abbrev command : Request
command = record {
  id = text "approval_1";
  session = text "s1";
  execution_session = [];
  tool_name = text "shell";
  action = text "execute";
  detail = text "go test";
  resource = text "go test";
  scope = [];
}

abbrev reading : Request
reading = record command { action = read_action }

abbrev by_hand : Context
by_hand = record {
  mode = some manual;
  session = none;
  execution_session = none;
  reviewer = none;
  request_hook = none;
}

abbrev asking : Gateway
asking = (request by_hand [] command new_gateway).0

grant_runs :
    has_grant (after_decision (text "approval_1") approved_for_session asking) command ≡ true
unfolding request new_gateway text_eq has_grant resolve lookup insert
grant_runs = refl

abbrev no_error : Option Error
no_error = none

request-Allowed_example :
    Allowed by_hand new_gateway (fill by_hand (text "id") reading) × (no_error ≡ none)
unfolding request text_eq
request-Allowed_example =
    request-Allowed by_hand (text "id") reading new_gateway auto_approve none refl (λ h. cc)

resolve-first_example :
    after_decision (text "approval_1") denied (after_decision (text "approval_1") approved asking)
    ≡ after_decision (text "approval_1") approved asking
resolve-first_example = resolve-first (text "approval_1") approved denied asking refl

has_grant-clear_session_example :
    has_grant (clear_session (text "s1") asking) command
    ≡ (has_grant asking command && not (text_eq command.session (text "s1")))
has_grant-clear_session_example = has_grant-clear_session (text "s1") asking command

has_grant-resolve_example :
    (has_grant (after_decision (text "approval_1") approved_for_session asking) reading ≡ true) ↔ (
      (has_grant asking reading ≡ true)
      ⊎ ((approved_for_session ≡ approved_for_session)
          × (request_grant_key reading ≡ request_grant_key command)))
unfolding request new_gateway text_eq lookup insert has_grant
has_grant-resolve_example =
    has_grant-resolve (text "approval_1") approved_for_session asking command reading refl refl refl
