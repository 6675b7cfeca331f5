-- ===== src/Conversation/Checkpoint.antt =====
-- internal/conversation/compaction.go and hierarchy.go: checkpoints, their segments, and what a model
-- sees of a history that has one. The digest of messages and the identity of a checkpoint, which are
-- SHA-256 over JSON, and the test for JSON are arguments. The token estimates of a checkpoint are left
-- out, and of its time only whether it is set.
pub mod Tails
use foya.Prelude.{
  ℕ, zero, suc, ◌+◌, ◌-◌, Bool, true, false, ◌&&◌, ◌||◌, not, Option, none, some, List, [], ◌∷◌,
  ◌++◌, length, take, map, keep_if, count_if, ltb, leb, ◌==◌, is_empty, if◌then◌else◌, Text, text,
  text_eq, trim_space, decimal, get_elem?,
}
use foya.Conversation.Cuts.{
  Role, user, system, Message, MessageEvent, Phase, auto, standalone, pre_turn, mid_turn, other,
  is_user, seq_at,
}

pub data ProjectionKind : Type 0 where
  portable_text provider_native : ProjectionKind
  other_kind : Text → ProjectionKind

pub data Level : Type 0 where
  segmented session : Level
  other_level : Text → Level

pub record Segment : Type 0 where
  pub from_seq : ℕ
  pub through_seq : ℕ
  pub source_digest : Text
  pub summary : Text

pub record Checkpoint : Type 0 where
  pub schema_version : ℕ
  pub source_policy_version : Text
  pub summary_format_version : Text
  pub prompt_version : Text
  pub checkpoint_id : Text
  pub previous_checkpoint_id : Text
  pub session_id : Text
  pub phase : Phase
  pub head_anchor_seq : ℕ
  pub through_seq : ℕ
  pub source_digest : Text
  pub projection_kind : ProjectionKind
  pub level : Level
  pub segments : List Segment
  pub summary : Text
  pub provider_route : Text
  pub provider_state_kind : Text
  pub provider_state : Text
  pub model : Text
  pub is_dated : Bool

abbrev pub messages_of : List MessageEvent → List Message
messages_of = map (λ e. e.message)

unfoldable pub message_at_seq : List MessageEvent → ℕ → Option MessageEvent
message_at_seq [] seq = none
message_at_seq (e ∷ es) seq = if e.seq == seq then some e else message_at_seq es seq

-- The segments between the tags of `RenderSegments`, numbered from `i` on.
unfoldable pub render_from : ℕ → List Segment → Text
render_from i [] = []
render_from i (s ∷ ss) =
    text "<segment index=\""
    ++ (decimal i
        ++ (text "\" from_seq=\""
            ++ (decimal s.from_seq
                ++ (text "\" through_seq=\""
                    ++ (decimal s.through_seq
                        ++ (text "\">\n"
                            ++ (trim_space s.summary
                                ++ (text "\n</segment>\n" ++ render_from (suc i) ss))))))))

unfoldable pub render_segments : List Segment → Text
unfolding render_from
render_segments [] = []
render_segments (s ∷ []) = trim_space s.summary
render_segments ss =
    text "<checkpoint_segments>\n" ++ (render_from 1 ss ++ text "</checkpoint_segments>")

-- A segment that follows one that ends at `previous`, which is `none` for the first.
abbrev is_valid_segment : Option ℕ → Segment → Bool
is_valid_segment previous s =
    not (is_empty (trim_space s.summary))
    && (not (s.through_seq == 0)
        && (elim previous [ none ↦ true | some p ↦ ltb p s.from_seq ]
            && leb s.from_seq s.through_seq))

unfoldable pub are_valid_segments : Option ℕ → List Segment → Bool
are_valid_segments previous [] = true
are_valid_segments previous (s ∷ ss) =
    is_valid_segment previous s && are_valid_segments (some s.through_seq) ss

unfoldable pub last_through : List Segment → ℕ
last_through [] = 0
last_through (s ∷ []) = s.through_seq
last_through (s ∷ t ∷ ss) = last_through (t ∷ ss)

unfoldable pub valid_segments : Checkpoint → Bool
unfolding are_valid_segments last_through render_segments
valid_segments c =
    is_empty c.segments
    || (are_valid_segments none c.segments
        && (last_through c.segments == c.through_seq
            && text_eq (render_segments c.segments) c.summary))

abbrev is_phase : Phase → Bool
is_phase auto = false
is_phase (other t) = false
is_phase _ = true

abbrev is_level : Level → Bool
is_level (other_level t) = false
is_level _ = true

abbrev session_of : List MessageEvent → Option Text
session_of [] = none
session_of (e ∷ es) = some e.session

-- The first three tests of `validCheckpoint`.
abbrev pub has_head : Checkpoint → List MessageEvent → Bool
has_head c content =
    not (c.through_seq == 0)
    && (not (is_empty c.session_id)
        && (not (is_empty c.model)
            && (c.is_dated
                && (elim (session_of content) [ none ↦ true | some s ↦ text_eq c.session_id s ]
                    && (c.schema_version == 3
                        && (text_eq c.source_policy_version (text "message-prefix-v1")
                            && (text_eq c.summary_format_version (text "continuation-v2")
                                && (text_eq c.prompt_version (text "continuation-prompt-v2")
                                    && (not (is_empty c.source_digest) && is_phase c.phase)))))))))

-- The messages up to the checkpoint's end.
abbrev pub covered_count : Checkpoint → List MessageEvent → ℕ
covered_count c content = count_if (λ e. leb e.seq c.through_seq) content

abbrev has_anchor : Checkpoint → List MessageEvent → Bool
has_anchor c covered =
    c.head_anchor_seq == 0
    || elim (message_at_seq covered c.head_anchor_seq) [ none ↦ false | some e ↦ is_user e ]

module _ (digest : List MessageEvent → Text) (compute_id : Checkpoint → Text)
    (is_json : Text → Bool) where
  abbrev pub has_state : Checkpoint → Bool
  has_state c = elim c.projection_kind [
    | portable_text ↦
        not (is_empty (trim_space c.summary)) && (not (is_empty c.segments) && is_level c.level)
    | provider_native ↦
        not (is_empty c.provider_route)
        && (not (is_empty c.provider_state_kind)
            && (not (is_empty c.provider_state) && is_json c.provider_state))
    | other_kind t ↦ false
  ]

  unfoldable pub valid_checkpoint : Checkpoint → List MessageEvent → Bool
  unfolding valid_segments message_at_seq count_if
  valid_checkpoint c content =
      let cut = covered_count c content in
      has_head c content
      && (has_state c
          && (valid_segments c
              && (not (is_empty c.checkpoint_id)
                  && (text_eq c.checkpoint_id (compute_id c)
                      && (not (cut == 0)
                          && (seq_at content (cut - 1) == c.through_seq
                              && (text_eq (digest (take cut content)) c.source_digest
                                  && has_anchor c (take cut content))))))))

abbrev pub anchor_message : Checkpoint → List MessageEvent → List Message
anchor_message c content =
    if c.head_anchor_seq == 0
    then []
    else elim (message_at_seq content c.head_anchor_seq) [ none ↦ [] | some e ↦ e.message ∷ [] ]

unfoldable pub projected_tail : List MessageEvent → Checkpoint → List Message
unfolding keep_if message_at_seq
projected_tail content c =
    anchor_message c content ++ messages_of (keep_if (λ e. ltb c.through_seq e.seq) content)

abbrev pub checkpoint_message : Text → Message
checkpoint_message summary = record {
  role = system;
  content = text "<context_checkpoint>\n" ++ (summary ++ text "\n</context_checkpoint>");
  tool_calls = [];
  tool_call_id = [];
  event_seq = 0;
}

unfoldable pub projected_covered_prefix : List MessageEvent → Checkpoint → ℕ → List Message
unfolding keep_if message_at_seq
projected_covered_prefix content c through =
    checkpoint_message c.summary
    ∷ (anchor_message c content
        ++ messages_of (keep_if (λ e. ltb c.through_seq e.seq && leb e.seq through) content))

-- What a model sees: the messages, and the provider's own state with its kind.
pub record ModelProjection : Type 0 where
  pub messages : List Message
  pub context_state : Option (Text × Text)
  pub through_seq : ℕ

module _ (digest : List MessageEvent → Text) (compute_id : Checkpoint → Text)
    (is_json : Text → Bool) where
  unfoldable pub project_for_route : List MessageEvent → Option Checkpoint → Text → ModelProjection
  unfolding valid_checkpoint projected_tail
  project_for_route content checkpoint route =
      let through = seq_at content (length content - 1) in
      let whole : ModelProjection = record {
        messages = messages_of content;
        context_state = none;
        through_seq = through;
      } in
      elim checkpoint [
        | none ↦ whole
        | some c ↦
            if not (valid_checkpoint digest compute_id is_json c content)
            then whole
            else elim c.projection_kind [
              | provider_native ↦
                  if is_empty route || not (text_eq route c.provider_route) then whole else record {
                    messages = projected_tail content c;
                    context_state = some (c.provider_state_kind, c.provider_state);
                    through_seq = through;
                  }
              | _ ↦ record {
                messages =
                    record (checkpoint_message c.summary) { event_seq = c.through_seq }
                    ∷ projected_tail content c;
                context_state = none;
                through_seq = through;
              }
            ]
      ]
