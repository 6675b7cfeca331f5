-- ===== src/Conversation/Planner/Examples.antt =====
-- A plan for a short history, the projection of a checkpoint, and the theorems on the two.
use foya.Prelude.{
  ℕ, refl, Bool, true, Option, none, some, List, [], ◌∷◌, count_if, Text, text, text_eq, trim_space,
}
use foya.Conversation.Cuts.{
  Role, user, assistant, Message, MessageEvent, standalone, auto, atomic_groups, groups_from,
  results, after_results, is_answered, safe_prefix_cut, cut_from, plan_boundary,
}
use foya.Conversation.Checkpoint.{
  Checkpoint, portable_text, segmented, valid_checkpoint, valid_segments, are_valid_segments,
  last_through, render_segments, message_at_seq,
}
use foya.Conversation.Planner.{Plan, plan_at, build_phase, build_plan, bounded_cut, start_after}
use foya.Conversation.Planner.Progress.{IsProgress, build_plan-IsProgress}

abbrev says : ℕ → Role → MessageEvent
says seq role = record {
  seq = seq;
  session = text "s1";
  message = record {
    role = role;
    content = text "x";
    tool_calls = [];
    tool_call_id = [];
    event_seq = seq;
  };
}

abbrev history : List MessageEvent
history = says 1 user ∷ says 2 assistant ∷ says 3 user ∷ []

abbrev digest : List MessageEvent → Text
digest es = text "d"

abbrev compute_id : Checkpoint → Text
compute_id c = text "c1"

abbrev is_json : Text → Bool
is_json t = true

abbrev estimate : List Message → ℕ
estimate ms = 1

abbrev bound : List Message → List Message
bound ms = ms

abbrev checkpoint : Checkpoint
checkpoint = record {
  schema_version = 3;
  source_policy_version = text "message-prefix-v1";
  summary_format_version = text "continuation-v2";
  prompt_version = text "continuation-prompt-v2";
  checkpoint_id = text "c1";
  previous_checkpoint_id = [];
  session_id = text "s1";
  phase = standalone;
  head_anchor_seq = 0;
  through_seq = 2;
  source_digest = text "d";
  projection_kind = portable_text;
  level = segmented;
  segments =
      record { from_seq = 1; through_seq = 2; source_digest = text "d"; summary = text "so far" }
      ∷ [];
  summary = text "so far";
  provider_route = [];
  provider_state_kind = [];
  provider_state = [];
  model = text "m";
  is_dated = true;
}

abbrev or_empty : Option Plan → Plan
or_empty (some p) = p
or_empty none = record {
  session_id = [];
  phase = auto;
  head_anchor_seq = 0;
  head_anchor = none;
  through_seq = 0;
  source_digest = [];
  source_messages = [];
  previous_summary = [];
  previous_checkpoint_id = [];
  covered_messages = 0;
  covered_from_seq = 0;
  new_from_seq = 0;
  new_source_digest = [];
  estimated_raw_tokens = 0;
  estimated_tokens = 0;
}

abbrev plan : Plan
plan =
    or_empty
      (build_plan digest compute_id is_json estimate bound history (some checkpoint) standalone 0)

build_plan-IsProgress_example :
    IsProgress digest compute_id is_json estimate bound history (some checkpoint) 0 plan
unfolding build_plan build_phase plan_at bounded_cut start_after plan_boundary safe_prefix_cut
    cut_from atomic_groups groups_from results after_results is_answered valid_checkpoint
    valid_segments are_valid_segments last_through render_segments message_at_seq count_if text_eq
    trim_space
build_plan-IsProgress_example =
    build_plan-IsProgress digest compute_id is_json estimate bound history (some checkpoint)
      standalone 0 plan refl
