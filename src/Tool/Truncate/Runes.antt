-- ===== src/Tool/Truncate/Runes.antt =====
-- internal/tool/truncate.go: `utf8Prefix` and `utf8Suffix`.
use foya.Prelude.{
  ℕ, zero, suc, ◌+◌, ◌-◌, ◌≤◌, ◌<◌, ◌≡◌, refl, sym, ◌∙◌, ap, ◌⊎◌, inl, inr, true, [], ◌∷◌, ◌++◌,
  length, take, drop, arith, Text, length-take, length-drop, take-append-drop, Bool-cases, subst,
}
use mathlib.Core.List.{append_assoc}
use native.Mathlib.Decide.{ℕ_discrete}
use foya.Tool.Truncate.{
  starts_rune, rune_start, back_to_start, skip_to_start, utf8_prefix, utf8_suffix,
}

back_to_start-le : (s : Text) (n : ℕ) → back_to_start s n ≤ n
unfolding back_to_start
back_to_start-le s zero = omega arith
back_to_start-le s (suc n) = ground (arith, back_to_start-le s n)

back_to_start-boundary :
    (s : Text) (n : ℕ) → (back_to_start s n ≡ 0) ⊎ (starts_rune (drop (back_to_start s n) s) ≡ true)
unfolding back_to_start
back_to_start-boundary s zero = inl refl
back_to_start-boundary s (suc n) = ground (arith, back_to_start-boundary s n)

-- No boundary is passed over.
back_to_start-last :
    (s : Text) (n k : ℕ) → k ≤ n → 0 < k → starts_rune (drop k s) ≡ true → k ≤ back_to_start s n
unfolding back_to_start
back_to_start-last s zero k h p e = omega arith
back_to_start-last s (suc n) k h p e = elim (ℕ_discrete k (suc n)) [
  | yes q ↦
      let here : starts_rune (drop (suc n) s) ≡ true =
        subst (λ j. starts_rune (drop j s) ≡ true) q e in
      ground arith
  | no q ↦ ground (arith, back_to_start-last s n k, back_to_start-le s n)
]

-- A cut of `s` that leaves at most `n` bytes in front, at the last boundary that does.
pub record PrefixCut (s : Text) (n : ℕ) (out : Text) : Type 0 where
  pub cut : ℕ
  pub is_prefix : out ≡ take cut s
  pub within : cut ≤ n
  pub boundary : (cut ≡ 0) ⊎ (starts_rune (drop cut s) ≡ true)
  pub last : (k : ℕ) → k ≤ n → 0 < k → starts_rune (drop k s) ≡ true → k ≤ cut

-- A text that is too long loses its end, from the last character boundary within the limit on.
pub utf8_prefix-PrefixCut : (s : Text) (n : ℕ) → n < length s → PrefixCut s n (utf8_prefix s n)
unfolding utf8_prefix
utf8_prefix-PrefixCut s n h = record {
  cut = back_to_start s n;
  is_prefix = ground arith;
  within = back_to_start-le s n;
  boundary = back_to_start-boundary s n;
  last = back_to_start-last s n;
}

skip_to_start-starts : (s : Text) → starts_rune (skip_to_start s) ≡ true
unfolding skip_to_start
skip_to_start-starts [] = refl
skip_to_start-starts (b ∷ s) = ground (arith, skip_to_start-starts s)

length-skip_to_start : (s : Text) → length (skip_to_start s) ≤ length s
unfolding skip_to_start
length-skip_to_start [] = omega arith
length-skip_to_start (b ∷ s) = ground (arith, length-skip_to_start s)

skipped : (s : Text) → (d : Text) × (s ≡ d ++ skip_to_start s)
unfolding skip_to_start
skipped [] = ([], refl)
skipped (b ∷ s) = elim (Bool-cases (rune_start b)) [
  | inl e ↦ ([], ground arith)
  | inr e ↦ let (d, rest) = skipped s in (b ∷ d, ground arith)
]

skip_to_start-first :
    (s : Text) (k : ℕ)
    → starts_rune (drop k s) ≡ true
    → length (drop k s) ≤ length (skip_to_start s)
unfolding skip_to_start
skip_to_start-first [] zero e = omega arith
skip_to_start-first [] (suc k) e = omega arith
skip_to_start-first (b ∷ s) zero e = ground arith
skip_to_start-first (b ∷ s) (suc k) e = ground (arith, skip_to_start-first s k, length-drop k s)

drop-nil : (k : ℕ) → drop {A = ℕ} k [] ≡ []
drop-nil zero = refl
drop-nil (suc k) = refl

drop-drop : (i j : ℕ) (s : Text) → drop i (drop j s) ≡ drop (j + i) s
drop-drop i zero s = ap (λ k. drop k s) (let e : i ≡ 0 + i = omega arith in e)
drop-drop i (suc j) [] = drop-nil i ∙ sym (drop-nil (suc j + i))
drop-drop i (suc j) (c ∷ s) =
    drop-drop i j s ∙ ap (λ k. drop k (c ∷ s)) (let e : suc (j + i) ≡ suc j + i = omega arith in e)

-- A cut of `s` that leaves at most `n` bytes behind, at the first boundary that does.
pub record SuffixCut (s : Text) (n : ℕ) (out : Text) : Type 0 where
  pub dropped : Text
  pub is_suffix : s ≡ dropped ++ out
  pub within : length out ≤ n
  pub boundary : starts_rune out ≡ true
  pub first :
      (k : ℕ)
      → length (drop k s) ≤ n
      → starts_rune (drop k s) ≡ true
      → length (drop k s) ≤ length out

-- A text that is too long loses its front, up to the first character boundary within the limit.
utf8_suffix-SuffixCut : (s : Text) (n : ℕ) → n < length s → SuffixCut s n (utf8_suffix s n)
unfolding utf8_suffix
utf8_suffix-SuffixCut s n h = rw (out_eq) (record {
  dropped = take (length s - n) s ++ (skipped tail).0;
  is_suffix =
      sym (take-append-drop (length s - n) s)
      ∙ ap (λ t. take (length s - n) s ++ t) (skipped tail).1
      ∙ sym (append_assoc (take (length s - n) s) (skipped tail).0 (skip_to_start tail));
  within = omega (arith, length-skip_to_start tail, length-drop (length s - n) s);
  boundary = skip_to_start-starts tail;
  first = λ k small starts.
      let e : drop k s ≡ drop (k - (length s - n)) tail =
        sym
          (drop-drop (k - (length s - n)) (length s - n) s ∙ ap (λ i. drop i s) (index k small)) in
      subst (λ t. length t ≤ length (skip_to_start tail)) (sym e)
        (skip_to_start-first tail (k - (length s - n))
          (subst (λ t. starts_rune t ≡ true) e starts));
})
  where
    tail : Text
    tail = drop (length s - n) s

    out_eq : utf8_suffix s n ≡ skip_to_start tail
    out_eq = ground arith

    index : (k : ℕ) → length (drop k s) ≤ n → (length s - n) + (k - (length s - n)) ≡ k
    index k small = omega (arith, length-drop k s)

pub utf8_prefix-le :
    (s : Text) (n : ℕ) → (length (utf8_prefix s n) ≤ n) × (length (utf8_prefix s n) ≤ length s)
unfolding utf8_prefix
utf8_prefix-le s n = ground (arith, back_to_start-le s n, length-take (back_to_start s n) s)

pub utf8_suffix-le :
    (s : Text) (n : ℕ) → (length (utf8_suffix s n) ≤ n) × (length (utf8_suffix s n) ≤ length s)
unfolding utf8_suffix
utf8_suffix-le s n =
    ground (arith, length-skip_to_start (drop (length s - n) s), length-drop (length s - n) s)
