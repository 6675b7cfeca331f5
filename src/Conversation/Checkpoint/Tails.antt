-- ===== src/Conversation/Checkpoint/Tails.antt =====
-- internal/conversation/compaction.go: what is left of a history after a checkpoint.
use foya.Prelude.{ℕ, ◌<◌, List, [], ◌∷◌}
use foya.Conversation.Cuts.{MessageEvent}
use foya.Conversation.Checkpoint.{Checkpoint}

-- Sequence numbers grow, from above `lo` on.
abbrev pub Ascends : ℕ → List MessageEvent → Type 0
Ascends lo [] = Unit {0}
Ascends lo (e ∷ es) = (lo < e.seq) × Ascends e.seq es
