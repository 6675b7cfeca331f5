-- ===== src/Conversation/Planner.antt =====
-- internal/conversation/compaction.go and hierarchy.go: what the next compaction summarises. The
-- digest, the identity of a checkpoint, the test for JSON, the estimate of the tokens of messages and
-- the bounding of tool results by their own estimate are arguments.
pub mod Progress
mod Examples
use foya.Prelude.{
  ℕ, zero, suc, ◌+◌, ◌-◌, Bool, true, false, ◌&&◌, ◌||◌, not, Option, none, some, List, [], ◌∷◌,
  ◌++◌, length, take, drop, ltb, leb, ◌==◌, is_empty, if◌then◌else◌, Text, trim_space,
}
use foya.Conversation.Cuts.{
  Message, MessageEvent, AtomicGroup, Phase, auto, pre_turn, mid_turn, Boundary, atomic_groups,
  safe_prefix_cut, last_user_index, plan_boundary, seq_at,
}
use foya.Conversation.Checkpoint.{
  Checkpoint, Segment, messages_of, message_at_seq, valid_checkpoint, projected_covered_prefix,
}

pub record Plan : Type 0 where
  pub session_id : Text
  pub phase : Phase
  pub head_anchor_seq : ℕ
  pub head_anchor : Option Message
  pub through_seq : ℕ
  pub source_digest : Text
  pub source_messages : List Message
  pub previous_summary : Text
  pub previous_checkpoint_id : Text
  pub covered_messages : ℕ
  pub covered_from_seq : ℕ
  pub new_from_seq : ℕ
  pub new_source_digest : Text
  pub estimated_raw_tokens : ℕ
  pub estimated_tokens : ℕ

-- How many messages from the front on have a number up to `max_through`.
unfoldable pub count_through : ℕ → List MessageEvent → ℕ
count_through max_through [] = 0
count_through max_through (e ∷ es) =
    let rest = count_through max_through es in if leb e.seq max_through then suc rest else 0

-- The index after the last message that the previous checkpoint covers.
unfoldable pub start_after : ℕ → List MessageEvent → ℕ
start_after through [] = 0
start_after through (e ∷ es) =
    let later = start_after through es in
    if ltb 0 later then suc later else if leb e.seq through then 1 else 0

abbrev is_mid_turn : Phase → Bool
is_mid_turn mid_turn = true
is_mid_turn _ = false

-- Within a turn a smaller cut still has to pass the last user's message.
abbrev passes_user : Phase → List MessageEvent → ℕ → Bool
passes_user phase content cut =
    if is_mid_turn phase
    then elim (last_user_index content) [ none ↦ false | some u ↦ ltb (u + 1) cut ]
    else true

-- The cut, drawn back where it would pass `max_through`, which is 0 for no bound.
unfoldable pub bounded_cut : List MessageEvent → Phase → ℕ → ℕ → Option ℕ
unfolding safe_prefix_cut count_through last_user_index
bounded_cut content phase max_through cut =
    if max_through == 0 || leb (seq_at content (cut - 1)) max_through
    then (if cut == 0 then none else some cut)
    else (let smaller =
          safe_prefix_cut (atomic_groups content) (count_through max_through (take cut content)) in
        if smaller == 0 || not (passes_user phase content smaller) then none else some smaller)

abbrev pub anchor_of : List MessageEvent → ℕ → Option Message
anchor_of content seq =
    if seq == 0
    then none
    else elim (message_at_seq content seq) [ none ↦ none | some e ↦ some e.message ]

abbrev or_none : Option Message → List Message
or_none none = []
or_none (some m) = m ∷ []

-- The anchor of the previous checkpoint is summarised once it is no anchor any more.
abbrev old_anchor : List MessageEvent → Option Checkpoint → ℕ → List Message
old_anchor content previous anchor = elim previous [
  | none ↦ []
  | some c ↦
      if c.head_anchor_seq == anchor then [] else or_none (anchor_of content c.head_anchor_seq)
]

-- The plan that covers more; the first where both end at the same message.
abbrev pub better : Option Plan → Option Plan → Option Plan
better none none = none
better (some p) none = some p
better none (some q) = some q
better (some p) (some q) = if ltb p.through_seq q.through_seq then some q else some p

module _ (digest : List MessageEvent → Text) (compute_id : Checkpoint → Text)
    (is_json : Text → Bool) (estimate : List Message → ℕ)
    (bound_tool_results : List Message → List Message) where
  -- The previous checkpoint, if it is valid.
  abbrev pub valid_previous : List MessageEvent → Option Checkpoint → Option Checkpoint
  valid_previous content none = none
  valid_previous content (some c) =
      if valid_checkpoint digest compute_id is_json c content then some c else none

  abbrev plan_of : List MessageEvent → Phase → Option Checkpoint → ℕ → ℕ → ℕ → Plan
  plan_of content phase previous anchor cut start =
      let covered = take cut content in
      let through = seq_at content (cut - 1) in
      record {
        session_id = elim content [ [] ↦ [] | e ∷ es ↦ e.session ];
        phase = phase;
        head_anchor_seq = anchor;
        head_anchor = anchor_of content anchor;
        through_seq = through;
        source_digest = digest covered;
        source_messages =
            bound_tool_results
              (old_anchor content previous anchor ++ messages_of (drop start covered));
        previous_summary = elim previous [ none ↦ [] | some c ↦ c.summary ];
        previous_checkpoint_id = elim previous [ none ↦ [] | some c ↦ c.checkpoint_id ];
        covered_messages = cut;
        covered_from_seq = seq_at covered 0;
        new_from_seq = seq_at covered start;
        new_source_digest = digest (drop start covered);
        estimated_raw_tokens = estimate (messages_of covered);
        estimated_tokens = estimate (elim previous [
          | none ↦ messages_of covered
          | some c ↦ projected_covered_prefix content c through
        ]);
      }

  -- The plan at a cut, if it covers more than the previous checkpoint.
  unfoldable pub plan_at : List MessageEvent → Phase → Option Checkpoint → ℕ → ℕ → Option Plan
  unfolding start_after projected_covered_prefix message_at_seq
  plan_at content phase previous anchor cut =
      let start : ℕ = elim previous [
        | none ↦ 0
        | some c ↦ start_after c.through_seq (take cut content)
      ] in
      if elim previous [ none ↦ false | some c ↦ leb (seq_at content (cut - 1)) c.through_seq ]
      then none
      else if leb (length (take cut content)) start
      then none
      else some (plan_of content phase previous anchor cut start)

  -- `BuildPlanWithOptions` for a phase that is not the automatic one.
  unfoldable pub build_phase : List MessageEvent → Option Checkpoint → Phase → ℕ → Option Plan
  unfolding plan_at bounded_cut plan_boundary atomic_groups valid_checkpoint
  build_phase content previous phase max_through =
      elim (plan_boundary content (atomic_groups content) phase) [
        | none ↦ none
        | some b ↦ elim (bounded_cut content phase max_through b.cut) [
          | none ↦ none
          | some cut ↦ plan_at content phase (valid_previous content previous) b.anchor cut
        ]
      ]

  unfoldable pub build_plan : List MessageEvent → Option Checkpoint → Phase → ℕ → Option Plan
  unfolding build_phase
  build_plan content previous auto max_through =
      better (build_phase content previous pre_turn max_through)
        (build_phase content previous mid_turn max_through)
  build_plan content previous phase max_through = build_phase content previous phase max_through

abbrev pub max_checkpoint_segments : ℕ
max_checkpoint_segments = 4

unfoldable pub can_append_segment : Option Checkpoint → Plan → Bool
can_append_segment none plan = false
can_append_segment (some c) plan =
    ltb c.through_seq plan.through_seq
    && (c.head_anchor_seq == plan.head_anchor_seq
        && ltb (length c.segments) max_checkpoint_segments)

abbrev existing_segments : Option Checkpoint → List Segment
existing_segments none = []
existing_segments (some c) = c.segments

unfoldable pub append_segment : Option Checkpoint → Plan → Text → List Segment
unfolding trim_space
append_segment previous plan summary =
    existing_segments previous
    ++ record {
      from_seq = plan.new_from_seq;
      through_seq = plan.through_seq;
      source_digest = plan.new_source_digest;
      summary = trim_space summary;
    }
      ∷ []

unfoldable pub consolidated_segment : Plan → Text → List Segment
unfolding trim_space
consolidated_segment plan summary =
    record {
      from_seq = plan.covered_from_seq;
      through_seq = plan.through_seq;
      source_digest = plan.source_digest;
      summary = trim_space summary;
    }
    ∷ []
