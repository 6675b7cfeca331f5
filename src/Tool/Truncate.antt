-- ===== src/Tool/Truncate.antt =====
-- internal/tool/truncate.go: the limits on a tool's output. A string is the list of its bytes, so
-- `length` is Go's `len`.
pub mod Lines
pub mod Runes
pub mod Parts
pub mod Limits
mod Examples
use foya.Prelude.{
  ℕ, zero, suc, ◌+◌, ◌-◌, ◌/◌, ◌≡◌, refl, Bool, true, false, ◌&&◌, List, [], ◌∷◌, ◌++◌, reverse,
  length, is_empty, take, drop, leb, ltb, ◌==◌, not, if◌then◌else◌, Text, text, decimal,
}
use foya.Tool.Diff.{split_newline}

abbrev pub default_max_output_lines : ℕ
default_max_output_lines = 2000

pub data Direction : Type 0 where
  keep_output_head keep_output_tail : Direction

-- `MaxLines` and `MaxBytes` are ints; every value below 1 means the default, as 0 does here.
pub record Options : Type 0 where
  pub max_lines : ℕ
  pub max_bytes : ℕ
  pub direction : Direction

pub record Result : Type 0 where
  pub content : Text
  pub truncated : Bool
  pub total_lines : ℕ
  pub total_bytes : ℕ
  pub kept_lines : ℕ
  pub kept_bytes : ℕ

-- `strings.TrimSuffix(s, "\n")`.
trim_newline : Text → Text
trim_newline [] = []
trim_newline (c ∷ []) = if c == 10 then [] else c ∷ []
trim_newline (c ∷ d ∷ s) = c ∷ trim_newline (d ∷ s)

unfoldable pub split_output_lines : Text → List Text
unfolding trim_newline
split_output_lines s = if is_empty s then [] else split_newline (trim_newline s)

-- `size`: a line's bytes, and the newline before it but for the first line kept.
abbrev pub line_size : ℕ → Text → ℕ
line_size kept l = if ltb 0 kept then length l + 1 else length l

-- The loop of `collectHead` from its `kept` lines and `bytes` on.
unfoldable pub collect : ℕ → ℕ → ℕ → ℕ → List Text → List Text
collect max_lines max_bytes kept bytes [] = []
collect max_lines max_bytes kept bytes (l ∷ ls) =
    let more = l ∷ collect max_lines max_bytes (suc kept) (bytes + line_size kept l) ls in
    if ltb kept max_lines && leb (bytes + line_size kept l) max_bytes then more else []

unfoldable pub collect_head : List Text → ℕ → ℕ → List Text
unfolding collect
collect_head lines max_lines max_bytes = collect max_lines max_bytes 0 0 lines

-- The loop runs over the lines from the last one on, and what it kept is then turned round.
unfoldable pub collect_tail : List Text → ℕ → ℕ → List Text
unfolding collect
collect_tail lines max_lines max_bytes = reverse (collect max_lines max_bytes 0 0 (reverse lines))

-- `utf8.RuneStart`: not a byte of the form 10xxxxxx.
abbrev pub rune_start : ℕ → Bool
rune_start b = not (b / 64 == 2)

abbrev pub starts_rune : Text → Bool
starts_rune [] = true
starts_rune (b ∷ s) = rune_start b

-- `for end > 0 && !utf8.RuneStart(value[end]) { end-- }`
unfoldable pub back_to_start : Text → ℕ → ℕ
back_to_start s zero = zero
back_to_start s (suc n) =
    let back = back_to_start s n in if starts_rune (drop (suc n) s) then suc n else back

unfoldable pub utf8_prefix : Text → ℕ → Text
unfolding back_to_start
utf8_prefix s max_bytes = if leb (length s) max_bytes then s else take (back_to_start s max_bytes) s

-- `for start < len(value) && !utf8.RuneStart(value[start]) { start++ }`, on `value[start:]`.
unfoldable pub skip_to_start : Text → Text
skip_to_start [] = []
skip_to_start (b ∷ s) = if rune_start b then b ∷ s else skip_to_start s

unfoldable pub utf8_suffix : Text → ℕ → Text
unfolding skip_to_start
utf8_suffix s max_bytes =
    if leb (length s) max_bytes then s else skip_to_start (drop (length s - max_bytes) s)

-- `strings.Join(kept, "\n")`.
unfoldable pub join : List Text → Text
join [] = []
join (l ∷ []) = l
join (l ∷ m ∷ ls) = l ++ 10 ∷ join (m ∷ ls)

abbrev pub collected : Direction → List Text → ℕ → ℕ → List Text
collected keep_output_head lines max_lines max_bytes = collect_head lines max_lines max_bytes
collected keep_output_tail lines max_lines max_bytes = collect_tail lines max_lines max_bytes

abbrev pub head_line : List Text → Text
head_line [] = []
head_line (l ∷ ls) = l

abbrev pub last_line : List Text → Text
last_line [] = []
last_line (l ∷ []) = l
last_line (l ∷ m ∷ ls) = last_line (m ∷ ls)

-- A piece of the first or last line, where no whole line fits.
abbrev pub piece : Direction → List Text → ℕ → Text
piece keep_output_head lines max_bytes = utf8_prefix (head_line lines) max_bytes
piece keep_output_tail lines max_bytes = utf8_suffix (last_line lines) max_bytes

pub record Preview : Type 0 where
  pub kept : List Text
  pub preview : Text

unfoldable pub preview_of : Direction → List Text → ℕ → ℕ → Preview
preview_of direction lines max_lines max_bytes =
    let kept = collected direction lines max_lines max_bytes in
    let part = piece direction lines max_bytes in
    if is_empty kept && not (is_empty lines) && ltb 0 max_bytes
    then (if is_empty part
        then record { kept = kept; preview = part }
        else record { kept = part ∷ []; preview = part })
    else record { kept = kept; preview = join kept }

abbrev pub side : Direction → Text
side keep_output_head = text "end"
side keep_output_tail = text "beginning"

unfoldable pub truncation_marker : Result → ℕ → ℕ → Direction → Text
truncation_marker r max_lines max_bytes direction =
    text "... (output truncated: omitted "
    ++ (decimal (r.total_lines - r.kept_lines)
        ++ (text " lines / "
            ++ (decimal (r.total_bytes - r.kept_bytes)
                ++ (text " bytes from the "
                    ++ (side direction
                        ++ (text "; limits: "
                            ++ (decimal max_lines
                                ++ (text " lines / "
                                    ++ (decimal max_bytes ++ text " bytes)")))))))))

abbrev pub blank_line : Text
blank_line = 10 ∷ 10 ∷ []

abbrev pub assemble : Direction → Text → Text → Text
assemble keep_output_tail preview marker =
    if is_empty preview then marker else marker ++ (blank_line ++ preview)
assemble keep_output_head preview marker =
    if is_empty preview then marker else preview ++ (blank_line ++ marker)

abbrev pub effective_lines : Options → ℕ
effective_lines o = if leb o.max_lines 0 then default_max_output_lines else o.max_lines

abbrev pub effective_bytes : Options → Text → ℕ
effective_bytes o content = if leb o.max_bytes 0 then length content else o.max_bytes

abbrev pub shortened : Text → Direction → List Text → ℕ → ℕ → Result
shortened content direction lines max_lines max_bytes =
    let p = preview_of direction lines max_lines max_bytes in
    let r : Result = record {
      content = content;
      truncated = true;
      total_lines = length lines;
      total_bytes = length content;
      kept_lines = length p.kept;
      kept_bytes = length p.preview;
    } in
    record r {
      content = assemble direction p.preview (truncation_marker r max_lines max_bytes direction);
    }

unfoldable pub truncate_tool_output : Text → Options → Result
truncate_tool_output content o =
    let lines = split_output_lines content in
    if leb (length lines) (effective_lines o) && leb (length content) (effective_bytes o content)
    then record {
      content = content;
      truncated = false;
      total_lines = length lines;
      total_bytes = length content;
      kept_lines = length lines;
      kept_bytes = length content;
    }
    else shortened content o.direction lines (effective_lines o) (effective_bytes o content)
