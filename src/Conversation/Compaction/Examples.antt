-- ===== src/Conversation/Compaction/Examples.antt =====
-- Runs of the budgets and of the excerpt, and their theorems at a known window and a long line.
use foya.Prelude.{◌≡◌, refl, arith, Text, text, trim_space}
use foya.Conversation.Compaction.{
  bounded_head_tail, weighted_units, prefix_runes_within, suffix_runes_within,
}
use foya.Conversation.Compaction.Excerpts.{IsExcerpt, bounded_head_tail-IsExcerpt}

abbrev output : Text
output = text "a b c d e f g h"

excerpt_runs :
    bounded_head_tail output 2 ≡ text "a b\n\n[... middle of tool output omitted ...]\n\ng h"
unfolding bounded_head_tail weighted_units prefix_runes_within suffix_runes_within trim_space
excerpt_runs = refl

bounded_head_tail-IsExcerpt_example : IsExcerpt output 2 (bounded_head_tail output 2)
bounded_head_tail-IsExcerpt_example = bounded_head_tail-IsExcerpt output 2 (omega arith)
