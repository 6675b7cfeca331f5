-- ===== src/Conversation/Cuts/Examples.antt =====
-- Runs of the cuts, and their theorems at a short history.
use foya.Prelude.{ℕ, ◌≡◌, refl, ◌≤◌, List, [], ◌∷◌, length, take, Text, text, text_eq}
use foya.Prelude.Names.{member, distinct, only}
use foya.Conversation.Cuts.{
  Role, user, assistant, tool, MessageEvent, Boundary, mid_turn, atomic_groups, groups_from,
  results, after_results, is_answered, safe_prefix_cut, cut_from, last_user_index, head_group,
  complete_but_last, plan_boundary,
}
use foya.Conversation.Cuts.Groups.{Chain, atomic_groups-Chain}
use foya.Conversation.Cuts.Prefix.{Dialogue, safe_prefix_cut-Dialogue}
use foya.Conversation.Cuts.Plans.{IsPlanned, plan_boundary-IsPlanned}

abbrev says : ℕ → Role → MessageEvent
says seq role = record {
  seq = seq;
  session = text "s1";
  message = record {
    role = role;
    content = text "x";
    tool_calls = [];
    tool_call_id = [];
    event_seq = seq;
  };
}

abbrev calls : ℕ → Text → MessageEvent
calls seq id = record {
  seq = seq;
  session = text "s1";
  message = record {
    role = assistant;
    content = [];
    tool_calls = record { id = id; name = text "read"; input = text "{}" } ∷ [];
    tool_call_id = [];
    event_seq = seq;
  };
}

abbrev returns : ℕ → Text → MessageEvent
returns seq id = record {
  seq = seq;
  session = text "s1";
  message = record {
    role = tool;
    content = text "y";
    tool_calls = [];
    tool_call_id = id;
    event_seq = seq;
  };
}

-- A question, two calls with their results, and a third call that has none yet.
abbrev pub history : List MessageEvent
history =
    says 1 user
    ∷ calls 2 (text "a")
    ∷ returns 3 (text "a")
    ∷ calls 4 (text "b")
    ∷ returns 5 (text "b")
    ∷ calls 6 (text "c")
    ∷ []

cut_runs : safe_prefix_cut (atomic_groups history) 4 ≡ 3
unfolding safe_prefix_cut cut_from atomic_groups groups_from results after_results is_answered
    distinct only member text_eq
cut_runs = refl

atomic_groups-Chain_example : Chain 0 (atomic_groups history) 6
atomic_groups-Chain_example = atomic_groups-Chain history

safe_prefix_cut-Dialogue_example :
    let cut = safe_prefix_cut (atomic_groups history) 4 in
    (cut ≤ 4) × (cut ≤ length history) × Dialogue (take cut history)
safe_prefix_cut-Dialogue_example = safe_prefix_cut-Dialogue history 4

abbrev boundary : Boundary
boundary = record { cut = 5; anchor = 1 }

plan_boundary-IsPlanned_example : IsPlanned history mid_turn boundary
unfolding plan_boundary last_user_index head_group complete_but_last atomic_groups groups_from
    results after_results is_answered distinct only member text_eq
plan_boundary-IsPlanned_example = plan_boundary-IsPlanned history mid_turn boundary refl
