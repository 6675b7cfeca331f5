-- ===== src/Tool/Truncate/Examples.antt =====
-- Runs of the output limits, and their theorems at small inputs.
use foya.Prelude.{◌≡◌, refl, List, [], ◌∷◌, Text, text, arith, decimal}
use foya.Tool.Truncate.{
  Options, keep_output_tail, utf8_prefix, truncate_tool_output, split_output_lines, preview_of,
  collect_tail, join, truncation_marker,
}
use foya.Tool.Diff.{split_newline}
use foya.Tool.Truncate.Runes.{PrefixCut, utf8_prefix-PrefixCut}

abbrev lines : List Text
lines = text "one" ∷ text "two" ∷ text "three" ∷ []

abbrev two_lines : Options
two_lines = record { max_lines = 2; max_bytes = 0; direction = keep_output_tail }

truncate_runs :
    (truncate_tool_output (text "a\nb\nc\n") two_lines).content
    ≡ text
        "... (output truncated: omitted 1 lines / 3 bytes from the beginning; limits: 2 lines / 6 bytes)\n\nb\nc"
unfolding truncate_tool_output decimal split_output_lines split_newline preview_of collect_tail join
    truncation_marker
truncate_runs = refl

-- The bytes of "é" and of "a".
abbrev accent : Text
accent = 0xC3 ∷ 0xA9 ∷ 97 ∷ []

utf8_prefix-PrefixCut_example : PrefixCut accent 1 (utf8_prefix accent 1)
utf8_prefix-PrefixCut_example = utf8_prefix-PrefixCut accent 1 (omega arith)
