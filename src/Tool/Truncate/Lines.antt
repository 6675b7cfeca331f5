-- ===== src/Tool/Truncate/Lines.antt =====
-- internal/tool/truncate.go, `collectHead` and `collectTail`: which whole lines are kept.
use foya.Prelude.{
  ℕ, suc, ◌+◌, ◌-◌, ◌≤◌, ◌<◌, ◌≡◌, refl, sym, ◌∙◌, ap, ◌⊎◌, inl, inr, List, [], ◌∷◌, ◌++◌, reverse,
  length, take, drop, arith, Text, length-append, length-reverse, length-take, reverse-take,
}
use mathlib.Core.List.{reverse-cons}
use native.Mathlib.Decide.{dec_le}
use foya.Tool.Truncate.{line_size, collect, collect_head, collect_tail, join}

-- The bytes of the lines, each with a newline.
abbrev pub weight : List Text → ℕ
weight [] = 0
weight (l ∷ ls) = length l + 1 + weight ls

pub weight-append : (xs ys : List Text) → weight (xs ++ ys) ≡ weight xs + weight ys
weight-append [] ys = omega arith
weight-append (x ∷ xs) ys = omega (arith, weight-append xs ys)

weight-reverse : (xs : List Text) → weight (reverse xs) ≡ weight xs
weight-reverse [] = refl
weight-reverse (x ∷ xs) =
    omega
      (arith, ap weight (reverse-cons x xs), weight-append (reverse xs) (x ∷ []), weight-reverse xs)

length-join : (l : Text) (ls : List Text) → suc (length (join (l ∷ ls))) ≡ weight (l ∷ ls)
unfolding join
length-join l [] = omega arith
length-join l (m ∷ ls) = omega (arith, length-append l (10 ∷ join (m ∷ ls)), length-join m ls)

-- `join` takes as many bytes as the weight, less the last newline.
pub length-join_lem : (ls : List Text) → length (join ls) ≡ weight ls - 1
length-join_lem [] = unfold join in refl
length-join_lem (l ∷ ls) = omega (arith, length-join l ls)

-- How far the loop goes.
module _ (max_lines max_bytes : ℕ) where
  collect-prefix :
      (kept bytes : ℕ) (ls : List Text)
      → let out = collect max_lines max_bytes kept bytes ls in out ≡ take (length out) ls
  unfolding collect
  collect-prefix kept bytes [] = refl
  collect-prefix kept bytes (l ∷ ls) =
      ground (arith, collect-prefix (suc kept) (bytes + line_size kept l) ls)

  collect-lines :
      (kept bytes : ℕ) (ls : List Text)
      → kept ≤ max_lines
      → kept + length (collect max_lines max_bytes kept bytes ls) ≤ max_lines
  unfolding collect
  collect-lines kept bytes [] h = omega arith
  collect-lines kept bytes (l ∷ ls) h =
      ground (arith, collect-lines (suc kept) (bytes + line_size kept l) ls)

  -- After the first line each one costs a newline too.
  collect-weight :
      (kept bytes : ℕ) (ls : List Text)
      → 0 < kept
      → bytes ≤ max_bytes
      → bytes + weight (collect max_lines max_bytes kept bytes ls) ≤ max_bytes
  unfolding collect
  collect-weight kept bytes [] p h = omega arith
  collect-weight kept bytes (l ∷ ls) p h =
      ground (arith, collect-weight (suc kept) (bytes + line_size kept l) ls)

  collect-bytes : (ls : List Text) → weight (collect max_lines max_bytes 0 0 ls) ≤ suc max_bytes
  unfolding collect
  collect-bytes [] = omega arith
  collect-bytes (l ∷ ls) = ground (arith, collect-weight 1 (length l) ls)

  -- The loop stops at the end, at the line limit, or before a line that does not fit.
  collect-stops_later :
      (kept bytes : ℕ) (ls : List Text)
      → 0 < kept
      → (length ls ≤ length (collect max_lines max_bytes kept bytes ls))
        ⊎ ((max_lines ≤ kept + length (collect max_lines max_bytes kept bytes ls))
            ⊎ (max_bytes
                < bytes
                  + weight (take (suc (length (collect max_lines max_bytes kept bytes ls))) ls)))
  unfolding collect
  collect-stops_later kept bytes [] p = inl (omega arith)
  collect-stops_later kept bytes (l ∷ ls) p =
      ground (arith, collect-stops_later (suc kept) (bytes + line_size kept l) ls)

  collect-stops :
      (ls : List Text)
      → (length ls ≤ length (collect max_lines max_bytes 0 0 ls))
        ⊎ ((max_lines ≤ length (collect max_lines max_bytes 0 0 ls))
            ⊎ (suc max_bytes
                < weight (take (suc (length (collect max_lines max_bytes 0 0 ls))) ls)))
  unfolding collect
  collect-stops [] = inl (omega arith)
  collect-stops (l ∷ ls) = ground (arith, collect-stops_later 1 (length l) ls)

-- The kept lines `out` are `part (length out)`, within both limits, and one line more would pass
-- a limit.
pub record Fits (lines : List Text) (max_lines max_bytes : ℕ) (part : ℕ → List Text)
    (out : List Text) : Type 0 where
  pub is_part : out ≡ part (length out)
  pub few : length out ≤ max_lines
  pub short : length (join out) ≤ max_bytes
  pub most :
      (length lines ≤ length out)
      ⊎ ((max_lines ≤ length out) ⊎ (max_bytes < length (join (part (suc (length out))))))

-- `collectHead` keeps the first lines that fit within both limits, and as many as fit.
pub collect_head-Fits :
    (lines : List Text) (max_lines max_bytes : ℕ)
    → Fits lines max_lines max_bytes (λ k. take k lines) (collect_head lines max_lines max_bytes)
unfolding collect_head
collect_head-Fits lines max_lines max_bytes = record {
  is_part = collect-prefix max_lines max_bytes 0 0 lines;
  few = omega (arith, collect-lines max_lines max_bytes 0 0 lines);
  short = omega (
    arith,
    length-join_lem (collect max_lines max_bytes 0 0 lines),
    collect-bytes max_lines max_bytes lines,
  );
  most = ground (
    arith,
    collect-stops max_lines max_bytes lines,
    length-join_lem (take (suc (length (collect max_lines max_bytes 0 0 lines))) lines),
  );
}

tail-overflow :
    (lines : List Text) (k max_bytes : ℕ)
    → k ≤ length lines
    → suc max_bytes < weight (take k (reverse lines))
    → max_bytes < length (join (drop (length lines - k) lines))
tail-overflow lines k max_bytes h over = rw (← reverse-take k lines h) (
    omega (
      arith,
      length-join_lem (reverse (take k (reverse lines))),
      weight-reverse (take k (reverse lines)),
    ))

-- `collectTail` keeps the last lines that fit within both limits, and as many as fit.
pub collect_tail-Fits :
    (lines : List Text) (max_lines max_bytes : ℕ)
    → Fits lines max_lines max_bytes
        (λ k. drop (length lines - k) lines)
        (collect_tail lines max_lines max_bytes)
unfolding collect_tail
collect_tail-Fits lines max_lines max_bytes = record {
  is_part =
      ap reverse prefix
      ∙ reverse-take (length out) lines within
      ∙ ap (λ k. drop (length lines - k) lines) (sym len);
  few = omega (arith, len, collect-lines max_lines max_bytes 0 0 (reverse lines));
  short = omega (
    arith,
    length-join_lem (reverse out),
    weight-reverse out,
    collect-bytes max_lines max_bytes (reverse lines),
  );
  most = elim (collect-stops max_lines max_bytes (reverse lines)) [
    | inl e ↦ inl (omega (arith, len, length-reverse lines))
    | inr (inl e) ↦ inr (inl (omega (arith, len)))
    | inr (inr e) ↦ elim (dec_le (length lines) (length out)) [
      | yes h ↦ inl (omega (arith, len))
      | no h ↦ inr (
          inr (
            rw (ap (λ n. drop (length lines - suc n) lines) len)
              (tail-overflow lines (suc (length out)) max_bytes (omega arith) e)))
    ]
  ];
}
  where
    out : List Text
    out = collect max_lines max_bytes 0 0 (reverse lines)

    prefix : out ≡ take (length out) (reverse lines)
    prefix = collect-prefix max_lines max_bytes 0 0 (reverse lines)

    len : length (reverse out) ≡ length out
    len = length-reverse out

    within : length out ≤ length lines
    within =
        omega
          (arith, ap length prefix, length-take (length out) (reverse lines), length-reverse lines)
