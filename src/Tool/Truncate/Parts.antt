-- ===== src/Tool/Truncate/Parts.antt =====
-- internal/tool/truncate.go: where the content that is kept comes from.
use foya.Prelude.{
  ℕ, zero, suc, ◌-◌, ◌≡◌, refl, sym, ap, ◌∙◌, subst, ◌⊎◌, inl, inr, false, not, ◌&&◌, List, [], ◌∷◌,
  ◌++◌, length, is_empty, take, drop, leb, ltb, ◌==◌, ==_iff, Text, Bool-cases, take-append-drop,
}
use foya.Tool.Diff.{cons_line, split_newline}
use foya.Tool.Truncate.{
  Direction, keep_output_head, keep_output_tail, trim_newline, split_output_lines, collect_head,
  collect_tail, collected, head_line, last_line, piece, preview_of, join, rune_start, utf8_prefix,
  utf8_suffix, skip_to_start, back_to_start,
}
use foya.Tool.Truncate.Lines.{collect_head-Fits, collect_tail-Fits}

-- `p` is where `s` begins, or where it ends.
abbrev pub IsHead : Text → Text → Type 0
IsHead p s = (rest : Text) × (s ≡ p ++ rest)

abbrev pub IsTail : Text → Text → Type 0
IsTail p s = (rest : Text) × (s ≡ rest ++ p)

-- A part at the end may leave out a newline after it.
abbrev pub IsPart : Direction → Text → Text → Type 0
IsPart keep_output_head p s = IsHead p s
IsPart keep_output_tail p s = IsTail p s ⊎ IsTail (p ++ 10 ∷ []) s

append_nil : (s : Text) → s ++ [] ≡ s
append_nil [] = refl
append_nil (c ∷ s) = ap (λ x. c ∷ x) (append_nil s)

assoc : (x y z : Text) → (x ++ y) ++ z ≡ x ++ (y ++ z)
assoc [] y z = refl
assoc (c ∷ x) y z = ap (λ w. c ∷ w) (assoc x y z)

IsHead-self : (s : Text) → IsHead s s
IsHead-self s = ([], sym (append_nil s))

IsHead-trans : (p q s : Text) → IsHead p q → IsHead q s → IsHead p s
IsHead-trans p q s (x, e) (y, f) = (x ++ y, f ∙ ap (λ w. w ++ y) e ∙ assoc p x y)

IsTail-trans : (p q s : Text) → IsTail p q → IsTail q s → IsTail p s
IsTail-trans p q s (x, e) (y, f) = (y ++ x, f ∙ ap (λ w. y ++ w) e ∙ sym (assoc y x p))

IsHead-append : (l p s : Text) → IsHead p s → IsHead (l ++ p) (l ++ s)
IsHead-append l p s (x, e) = (x, ap (λ w. l ++ w) e ∙ sym (assoc l p x))

IsHead-take : (k : ℕ) (s : Text) → IsHead (take k s) s
IsHead-take k s = (drop k s, sym (take-append-drop k s))

IsTail-drop : (k : ℕ) (s : Text) → IsTail (drop k s) s
IsTail-drop k s = (take k s, sym (take-append-drop k s))

-- The lines joined again.
join-cons_line : (c : ℕ) (ls : List Text) → join (cons_line c ls) ≡ c ∷ join ls
unfolding join cons_line
join-cons_line c [] = refl
join-cons_line c (l ∷ []) = refl
join-cons_line c (l ∷ m ∷ ls) = refl

join-blank : (ls : List Text) → is_empty ls ≡ false → join ([] ∷ ls) ≡ 10 ∷ join ls
unfolding join
join-blank [] h = cc
join-blank (l ∷ ls) h = refl

is_empty-cons_line : (c : ℕ) (ls : List Text) → is_empty (cons_line c ls) ≡ false
unfolding cons_line
is_empty-cons_line c [] = refl
is_empty-cons_line c (l ∷ ls) = refl

is_empty-split_newline : (s : Text) → is_empty (split_newline s) ≡ false
unfolding split_newline
is_empty-split_newline [] = refl
is_empty-split_newline (c ∷ s) = elim (Bool-cases (c == 10)) [
  | inl is ↦ rw (is) refl
  | inr plain ↦ rw (plain) (is_empty-cons_line c (split_newline s))
]

join-split_newline : (s : Text) → join (split_newline s) ≡ s
unfolding split_newline
join-split_newline [] = unfold join in refl
join-split_newline (c ∷ s) = elim (Bool-cases (c == 10)) [
  | inl is ↦ rw (is) (
      join-blank (split_newline s) (is_empty-split_newline s)
      ∙ ap (λ x. 10 ∷ x) (join-split_newline s)
      ∙ ap (λ x. x ∷ s) (sym ((==_iff c 10).0 is)))
  | inr plain ↦
      rw (plain) (join-cons_line c (split_newline s) ∙ ap (λ x. c ∷ x) (join-split_newline s))
]

join-take : (k : ℕ) (ls : List Text) → IsHead (join (take k ls)) (join ls)
unfolding join
join-take zero ls = (join ls, refl)
join-take (suc k) [] = ([], refl)
join-take (suc zero) (l ∷ []) = ([], sym (append_nil l))
join-take (suc (suc k)) (l ∷ []) = ([], sym (append_nil l))
join-take (suc zero) (l ∷ m ∷ ls) = (10 ∷ join (m ∷ ls), refl)
join-take (suc (suc k)) (l ∷ m ∷ ls) =
    let (x, e) = join-take (suc k) (m ∷ ls) in
    IsHead-append l (10 ∷ join (take (suc k) (m ∷ ls))) (10 ∷ join (m ∷ ls)) (x, ap (λ w. 10 ∷ w) e)

join-drop : (k : ℕ) (ls : List Text) → IsTail (join (drop k ls)) (join ls)
unfolding join
join-drop zero ls = ([], refl)
join-drop (suc k) [] = ([], refl)
join-drop (suc zero) (l ∷ []) = (l, sym (append_nil l))
join-drop (suc (suc k)) (l ∷ []) = (l, sym (append_nil l))
join-drop (suc k) (l ∷ m ∷ ls) =
    IsTail-trans (join (drop k (m ∷ ls))) (join (m ∷ ls)) (l ++ 10 ∷ join (m ∷ ls))
      (join-drop k (m ∷ ls)) (l ++ 10 ∷ [], sym (assoc l (10 ∷ []) (join (m ∷ ls))))

head_line-IsHead : (ls : List Text) → IsHead (head_line ls) (join ls)
unfolding join
head_line-IsHead [] = ([], refl)
head_line-IsHead (l ∷ []) = ([], sym (append_nil l))
head_line-IsHead (l ∷ m ∷ ls) = (10 ∷ join (m ∷ ls), refl)

last_line-IsTail : (ls : List Text) → IsTail (last_line ls) (join ls)
unfolding join
last_line-IsTail [] = ([], refl)
last_line-IsTail (l ∷ []) = ([], refl)
last_line-IsTail (l ∷ m ∷ ls) =
    IsTail-trans (last_line (m ∷ ls)) (join (m ∷ ls)) (l ++ 10 ∷ join (m ∷ ls))
      (last_line-IsTail (m ∷ ls)) (l ++ 10 ∷ [], sym (assoc l (10 ∷ []) (join (m ∷ ls))))

utf8_prefix-IsHead : (s : Text) (n : ℕ) → IsHead (utf8_prefix s n) s
unfolding utf8_prefix
utf8_prefix-IsHead s n = elim (Bool-cases (leb (length s) n)) [
  | inl fits ↦ rw (fits) (IsHead-self s)
  | inr long ↦ rw (long) (IsHead-take (back_to_start s n) s)
]

skip_to_start-IsTail : (s : Text) → IsTail (skip_to_start s) s
unfolding skip_to_start
skip_to_start-IsTail [] = ([], refl)
skip_to_start-IsTail (b ∷ s) = elim (Bool-cases (rune_start b)) [
  | inl starts ↦ rw (starts) ([], refl)
  | inr within ↦ let (x, e) = skip_to_start-IsTail s in rw (within) (b ∷ x, ap (λ w. b ∷ w) e)
]

utf8_suffix-IsTail : (s : Text) (n : ℕ) → IsTail (utf8_suffix s n) s
unfolding utf8_suffix
utf8_suffix-IsTail s n = elim (Bool-cases (leb (length s) n)) [
  | inl fits ↦ rw (fits) ([], refl)
  | inr long ↦ rw (long) (
      IsTail-trans _ (drop (length s - n) s) s (skip_to_start-IsTail (drop (length s - n) s))
        (IsTail-drop (length s - n) s))
]

trim_newline-cases : (s : Text) → (s ≡ trim_newline s) ⊎ (s ≡ trim_newline s ++ 10 ∷ [])
unfolding trim_newline
trim_newline-cases [] = inl refl
trim_newline-cases (c ∷ []) = elim (Bool-cases (c == 10)) [
  | inl is ↦ inr (rw (is) (ap (λ x. x ∷ []) ((==_iff c 10).0 is)))
  | inr plain ↦ inl (rw (plain) refl)
]
trim_newline-cases (c ∷ d ∷ s) = elim (trim_newline-cases (d ∷ s)) [
  | inl e ↦ inl (ap (λ x. c ∷ x) e)
  | inr e ↦ inr (ap (λ x. c ∷ x) e)
]

join-split_output_lines : (s : Text) → join (split_output_lines s) ≡ trim_newline s
unfolding split_output_lines trim_newline
join-split_output_lines [] = unfold join in refl
join-split_output_lines (c ∷ s) = join-split_newline (trim_newline (c ∷ s))

abbrev IsEnd : Direction → Text → Text → Type 0
IsEnd keep_output_head p s = IsHead p s
IsEnd keep_output_tail p s = IsTail p s

-- A part of the joined lines is a part of the content.
trimmed-IsPart :
    (d : Direction) (p t s : Text) → (s ≡ t) ⊎ (s ≡ t ++ 10 ∷ []) → IsEnd d p t → IsPart d p s
trimmed-IsPart keep_output_head p t s (inl e) h = IsHead-trans p t s h ([], e ∙ sym (append_nil t))
trimmed-IsPart keep_output_head p t s (inr e) h = IsHead-trans p t s h (10 ∷ [], e)
trimmed-IsPart keep_output_tail p t s (inl e) h = inl (IsTail-trans p t s h ([], e))
trimmed-IsPart keep_output_tail p t s (inr e) (x, k) =
    inr (x, e ∙ ap (λ w. w ++ 10 ∷ []) k ∙ assoc x p (10 ∷ []))

whole-IsPart : (d : Direction) (p s : Text) → IsEnd d p (join (split_output_lines s)) → IsPart d p s
whole-IsPart d p s h =
    trimmed-IsPart d p (trim_newline s) s (trim_newline-cases s)
      (subst (λ t. IsEnd d p t) (join-split_output_lines s) h)

collected-IsEnd :
    (d : Direction) (ls : List Text) (max_lines max_bytes : ℕ)
    → IsEnd d (join (collected d ls max_lines max_bytes)) (join ls)
collected-IsEnd keep_output_head ls max_lines max_bytes =
    let out = collect_head ls max_lines max_bytes in
    subst (λ x. IsHead (join x) (join ls)) (sym (collect_head-Fits ls max_lines max_bytes).is_part)
      (join-take (length out) ls)
collected-IsEnd keep_output_tail ls max_lines max_bytes =
    let out = collect_tail ls max_lines max_bytes in
    subst (λ x. IsTail (join x) (join ls)) (sym (collect_tail-Fits ls max_lines max_bytes).is_part)
      (join-drop (length ls - length out) ls)

piece-IsEnd :
    (d : Direction) (ls : List Text) (max_bytes : ℕ) → IsEnd d (piece d ls max_bytes) (join ls)
piece-IsEnd keep_output_head ls max_bytes =
    IsHead-trans _ (head_line ls) _ (utf8_prefix-IsHead (head_line ls) max_bytes)
      (head_line-IsHead ls)
piece-IsEnd keep_output_tail ls max_bytes =
    IsTail-trans _ (last_line ls) _ (utf8_suffix-IsTail (last_line ls) max_bytes)
      (last_line-IsTail ls)

pub preview_of-IsPart :
    (d : Direction) (s : Text) (max_lines max_bytes : ℕ)
    → IsPart d (preview_of d (split_output_lines s) max_lines max_bytes).preview s
unfolding preview_of
preview_of-IsPart d s max_lines max_bytes =
    let ls = split_output_lines s in
    whole-IsPart d _ s
      (elim (Bool-cases
        (is_empty (collected d ls max_lines max_bytes) && not (is_empty ls) && ltb 0 max_bytes)) [
          | inr whole ↦ rw (whole) (collected-IsEnd d ls max_lines max_bytes)
          | inl broken ↦ elim (Bool-cases (is_empty (piece d ls max_bytes))) [
            | inl e ↦ rw (broken, e) (piece-IsEnd d ls max_bytes)
            | inr e ↦ rw (broken, e) (piece-IsEnd d ls max_bytes)
          ]
        ])
