-- ===== src/Tool/Truncate/Limits.antt =====
-- internal/tool/truncate.go, `truncateToolOutput`: the result as a whole.
use foya.Prelude.{ℕ, ◌-◌, ◌≤◌, ◌<◌, ◌≡◌, ◌⊎◌, ◌↔◌, true, false, List, [], ◌∷◌, length, Text, ◌++◌}
use foya.Tool.Truncate.{
  Direction, keep_output_head, keep_output_tail, Options, Result, Preview, split_output_lines, join,
  effective_lines, effective_bytes, truncation_marker,
}
use foya.Tool.Truncate.Parts.{IsPart}
use foya.Tool.Truncate.Lines.{weight}

-- What is kept of the lines, of either end.
record Small (lines : List Text) (max_lines max_bytes : ℕ) (kept : List Text) : Type 0 where
  few : length kept ≤ max_lines
  short : length (join kept) ≤ max_bytes
  part : length kept ≤ length lines
  light : length (join kept) ≤ weight lines - 1

record SmallPreview (lines : List Text) (max_lines max_bytes : ℕ) (p : Preview) : Type 0 where
  few : length p.kept ≤ max_lines
  short : length p.preview ≤ max_bytes
  part : length p.kept ≤ length lines
  light : length p.preview ≤ weight lines - 1

record IsCounted (content : Text) (o : Options) (r : Result) : Type 0 where
  lines_counted : r.total_lines ≡ length (split_output_lines content)
  bytes_counted : r.total_bytes ≡ length content
  truncated_over :
      (r.truncated ≡ true)
      ↔ ((effective_lines o < r.total_lines) ⊎ (effective_bytes o content < r.total_bytes))
  untouched : r.truncated ≡ false → r.content ≡ content
  few_lines : r.kept_lines ≤ effective_lines o
  few_bytes : r.kept_bytes ≤ effective_bytes o content
  some_lines : r.kept_lines ≤ r.total_lines
  some_bytes : r.kept_bytes ≤ r.total_bytes

-- What is shown of a part of the content, with the marker.
abbrev pub Shows : Direction → Text → Text → Text → Type 0
Shows d [] marker shown = shown ≡ marker
Shows keep_output_head (b ∷ p) marker shown = shown ≡ b ∷ p ++ (10 ∷ 10 ∷ marker)
Shows keep_output_tail (b ∷ p) marker shown = shown ≡ marker ++ (10 ∷ 10 ∷ b ∷ p)

-- What a truncated result consists of.
pub record IsCut (content : Text) (o : Options) (r : Result) : Type 0 where
  pub shown : Text
  pub counted : length shown ≡ r.kept_bytes
  pub part : IsPart o.direction shown content
  pub shows :
      Shows o.direction shown
        (truncation_marker r (effective_lines o) (effective_bytes o content) o.direction)
        r.content

-- What a result promises.
pub record IsWithin (content : Text) (o : Options) (r : Result) : Type 0 where
  pub lines_counted : r.total_lines ≡ length (split_output_lines content)
  pub bytes_counted : r.total_bytes ≡ length content
  pub truncated_over :
      (r.truncated ≡ true)
      ↔ ((effective_lines o < r.total_lines) ⊎ (effective_bytes o content < r.total_bytes))
  pub untouched : r.truncated ≡ false → r.content ≡ content
  pub cut_down : r.truncated ≡ true → IsCut content o r
  pub few_lines : r.kept_lines ≤ effective_lines o
  pub few_bytes : r.kept_bytes ≤ effective_bytes o content
  pub some_lines : r.kept_lines ≤ r.total_lines
  pub some_bytes : r.kept_bytes ≤ r.total_bytes
