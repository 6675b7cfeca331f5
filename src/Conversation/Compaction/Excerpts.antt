-- ===== src/Conversation/Compaction/Excerpts.antt =====
-- internal/conversation/compaction.go, `boundedHeadTail`: the size of an excerpt.
use foya.Prelude.{
  ℕ, zero, suc, ◌+◌, ◌-◌, ◌*◌, ◌≤◌, ◌<◌, ◌≡◌, refl, sym, ap, ◌∙◌, true, false, arith, [], ◌∷◌, ◌++◌,
  length, reverse, take, drop, leb, ltb, ◌==◌, ==_iff, Text, trim_space, trim_left, Bool-cases, inl,
  inr, reverse-take, take-append-drop, length-reverse,
}
use mathlib.Core.List.{reverse-cons}
use foya.Conversation.Compaction.{
  rune_units, weighted_units, fit, prefix_runes_within, suffix_runes_within, head_units, head_end,
  tail_start, bounded_head_tail, tool_output_omission,
}

weighted_units-append : (s t : Text) → weighted_units (s ++ t) ≡ weighted_units s + weighted_units t
unfolding weighted_units
weighted_units-append [] t = omega arith
weighted_units-append (r ∷ s) t = omega (arith, weighted_units-append s t)

weighted_units-reverse : (s : Text) → weighted_units (reverse s) ≡ weighted_units s
unfolding weighted_units
weighted_units-reverse [] = refl
weighted_units-reverse (r ∷ s) = omega (
  arith,
  ap weighted_units (reverse-cons r s) ∙ weighted_units-append (reverse s) (r ∷ []),
  weighted_units-reverse s,
)

weighted_units-trim_left : (s : Text) → weighted_units (trim_left s) ≤ weighted_units s
unfolding weighted_units trim_left
weighted_units-trim_left [] = omega arith
weighted_units-trim_left (r ∷ s) = ground (arith, weighted_units-trim_left s)

weighted_units-trim_space : (s : Text) → weighted_units (trim_space s) ≤ weighted_units s
unfolding trim_space
weighted_units-trim_space s = omega (
  arith,
  weighted_units-reverse (trim_left (reverse (trim_left s))),
  weighted_units-trim_left (reverse (trim_left s)),
  weighted_units-reverse (trim_left s),
  weighted_units-trim_left s,
)

fit-units :
    (max_units used : ℕ) (s : Text)
    → used ≤ max_units
    → weighted_units (take (fit max_units used s) s) + used ≤ max_units
unfolding weighted_units fit
fit-units max_units used [] h = omega arith
fit-units max_units used (r ∷ s) h = elim (Bool-cases (ltb max_units (used + rune_units r))) [
  | inl over ↦ rw (over) (omega arith)
  | inr within ↦
      rw (within) (omega (arith, fit-units max_units (used + rune_units r) s (ground arith)))
]

fit-le : (max_units used : ℕ) (s : Text) → fit max_units used s ≤ length s
unfolding fit
fit-le max_units used [] = omega arith
fit-le max_units used (r ∷ s) = ground (arith, fit-le max_units (used + rune_units r) s)

weighted_units-drop :
    (a b : ℕ) (s : Text) → b ≤ a → weighted_units (drop a s) ≤ weighted_units (drop b s)
unfolding weighted_units
weighted_units-drop zero zero s h = omega arith
weighted_units-drop zero (suc b) s h = absurd (omega arith)
weighted_units-drop (suc a) b [] h = omega arith
weighted_units-drop (suc a) zero (r ∷ s) h =
    omega (arith, weighted_units-drop a zero s (omega arith))
weighted_units-drop (suc a) (suc b) (r ∷ s) h = weighted_units-drop a b s (omega arith)

head-units : (t : Text) (n : ℕ) → weighted_units (take (head_end t n) t) ≤ head_units n
unfolding prefix_runes_within
head-units t n = omega (arith, fit-units (head_units n) 0 t (omega arith))

suffix-units : (t : Text) (m : ℕ) → weighted_units (drop (suffix_runes_within t m) t) ≤ m
unfolding suffix_runes_within
suffix-units t m =
    let k = fit m 0 (reverse t) in
    let within : k ≤ length t = omega (arith, fit-le m 0 (reverse t), length-reverse t) in
    rw (← reverse-take k t within) (
      omega (
        arith,
        weighted_units-reverse (take k (reverse t)),
        fit-units m 0 (reverse t) (omega arith),
      ))

tail-units : (t : Text) (n : ℕ) → weighted_units (drop (tail_start t n) t) ≤ n * 4 - head_units n
tail-units t n =
    let start = suffix_runes_within t (n * 4 - head_units n) in
    elim (Bool-cases (ltb start (head_end t n))) [
      | inl before ↦ rw (before) (
          omega (
            arith,
            weighted_units-drop (head_end t n) start t (ground arith),
            suffix-units t (n * 4 - head_units n),
          ))
      | inr behind ↦ rw (behind) (suffix-units t (n * 4 - head_units n))
    ]

-- What is left of a text: all but the spaces at its ends where it fits, and otherwise a head and a
-- tail that do not overlap and fit together, with the notice between them.
pub data IsExcerpt (t : Text) (max_tokens : ℕ) (out : Text) : Type 0 where
  whole : weighted_units t ≤ max_tokens * 4 → out ≡ trim_space t → IsExcerpt t max_tokens out
  ends :
      max_tokens * 4 < weighted_units t
      → (head middle tail : Text) → t ≡ head ++ (middle ++ tail)
      → weighted_units head + weighted_units tail ≤ max_tokens * 4
      → out ≡ trim_space head ++ (tool_output_omission ++ trim_space tail)
      → IsExcerpt t max_tokens out

head_end-tail_start : (t : Text) (n : ℕ) → head_end t n ≤ tail_start t n
head_end-tail_start t n = ground arith

take-nil : (k : ℕ) → [] ≡ take {A = ℕ} k [] ++ []
take-nil zero = refl
take-nil (suc k) = refl

split_at : (a b : ℕ) (s : Text) → a ≤ b → s ≡ take a s ++ (take (b - a) (drop a s) ++ drop b s)
split_at zero b s h = let e : b - 0 ≡ b = omega arith in rw (e) (sym (take-append-drop b s))
split_at (suc a) zero s h = absurd (omega arith)
split_at (suc a) (suc b) [] h =
    let e : suc b - suc a ≡ b - a = omega arith in rw (e) (take-nil (b - a))
split_at (suc a) (suc b) (r ∷ s) h =
    let e : suc b - suc a ≡ b - a = omega arith in
    rw (e) (ap (◌∷◌ r) (split_at a b s (omega arith)))

-- The excerpt for a positive number of tokens is the whole text without the spaces at its ends where
-- that fits, and otherwise a head and a tail of it that do not overlap and together fit, with the
-- notice of what is left out between them.
pub bounded_head_tail-IsExcerpt :
    (t : Text) (max_tokens : ℕ)
    → 0 < max_tokens
    → IsExcerpt t max_tokens (bounded_head_tail t max_tokens)
unfolding bounded_head_tail
bounded_head_tail-IsExcerpt t n h =
    let some_tokens : (n == 0) ≡ false = ground (arith, ==_iff n 0) in
    elim (Bool-cases (leb (weighted_units t) (n * 4))) [
      | inl fits ↦ whole (ground arith) (rw (some_tokens, fits))
      | inr long ↦
          ends (ground arith) (take (head_end t n) t)
            (take (tail_start t n - head_end t n) (drop (head_end t n) t)) (drop (tail_start t n) t)
            (split_at (head_end t n) (tail_start t n) t (head_end-tail_start t n))
            (omega (arith, head-units t n, tail-units t n)) (rw (some_tokens, long))
    ]

-- An excerpt has at most four units for each of its tokens, and those of the notice.
bounded_head_tail-units :
    (t : Text) (max_tokens : ℕ)
    → weighted_units (bounded_head_tail t max_tokens)
      ≤ max_tokens * 4 + weighted_units tool_output_omission
unfolding bounded_head_tail
bounded_head_tail-units t n = elim (Bool-cases (n == 0)) [
  | inl no_tokens ↦ rw (no_tokens) (unfold weighted_units in omega arith)
  | inr some_tokens ↦ elim (Bool-cases (leb (weighted_units t) (n * 4))) [
    | inl fits ↦ rw (some_tokens, fits) (omega (arith, weighted_units-trim_space t, fits_le fits))
    | inr long ↦
        let head = take (head_end t n) t in
        let tail = drop (tail_start t n) t in
        rw (some_tokens, long)
          (omega (
            arith,
            weighted_units-append (trim_space head) (tool_output_omission ++ trim_space tail),
            weighted_units-append tool_output_omission (trim_space tail),
            weighted_units-trim_space head,
            weighted_units-trim_space tail,
            head-units t n,
            tail-units t n,
          ))
  ]
]
  where
    fits_le : leb (weighted_units t) (n * 4) ≡ true → weighted_units t ≤ n * 4
    fits_le h = ground arith
