-- ===== src/Agent/LoopGuard/Window.antt =====
-- internal/agent/loopguard.go: the window of steps.
use foya.Prelude.{
  ℕ, zero, suc, ◌≤◌, ◌≡◌, refl, sym, ◌∙◌, ap, inl, inr, Bool, ◌&&◌, not, List, [], ◌∷◌, ◌++◌,
  length, arith, ltb, Text, text_eq, Bool-cases, is_empty, take, reverse, count_if, count_if-append,
  keep_if, length-reverse, reverse-take, tests,
}
use mathlib.Core.List.{reverse-cons, reverse-reverse}
use foya.Agent.LoopGuard.{LoopGuard, new_guard, record_step, shorten}

-- The steps' signatures, latest first; a step with no tool call has none.
abbrev pub after_steps : List Text → LoopGuard
after_steps [] = new_guard
after_steps (sig ∷ sigs) = (record_step (after_steps sigs) sig).0

abbrev pub has_sig : Text → Bool
has_sig s = not (is_empty s)

take-take :
    (k : ℕ) (x : Text) (xs : List Text) → take (suc k) (x ∷ take (suc k) xs) ≡ take (suc k) (x ∷ xs)
take-take zero x xs = refl
take-take (suc k) x [] = refl
take-take (suc k) x (y ∷ ys) = ap (◌∷◌ x) (take-take k y ys)

take-all : (k : ℕ) (xs : List Text) → length xs ≤ k → take k xs ≡ xs
take-all zero [] h = refl
take-all zero (x ∷ xs) h = absurd (omega arith)
take-all (suc k) [] h = refl
take-all (suc k) (x ∷ xs) h = ap (◌∷◌ x) (take-all k xs (omega arith))

shorten-reverse : (xs : List Text) → shorten (reverse xs) ≡ reverse (take 20 xs)
shorten-reverse xs = elim (Bool-cases (ltb 20 (length (reverse xs)))) [
  | inl long ↦ rw (long) (
      sym (reverse-take 20 (reverse xs) (omega tests))
      ∙ ap (λ ys. reverse (take 20 ys)) (reverse-reverse xs))
  | inr short ↦ rw (short) (ap reverse (sym (take-all 20 xs (ground (arith, length-reverse xs)))))
]

-- The window when a step with a signature is recorded.
shorten-append :
    (sig : Text) (xs : List Text)
    → shorten (reverse (take 20 xs) ++ sig ∷ []) ≡ reverse (take 20 (sig ∷ xs))
shorten-append sig xs =
    ap shorten (sym (reverse-cons sig (take 20 xs)))
    ∙ shorten-reverse (sig ∷ take 20 xs)
    ∙ ap reverse (take-take 19 sig xs)

window-last :
    (sigs : List Text) → (after_steps sigs).window ≡ reverse (take 20 (keep_if has_sig sigs))
unfolding record_step keep_if
window-last [] = refl
window-last (sig ∷ sigs) =
    let past = keep_if has_sig sigs in
    ground (
      arith,
      ap (λ w. shorten (w ++ sig ∷ [])) (window-last sigs) ∙ shorten-append sig past,
      window-last sigs,
    )

count_if-reverse : (p : Text → Bool) (xs : List Text) → count_if p (reverse xs) ≡ count_if p xs
unfolding count_if
count_if-reverse p [] = refl
count_if-reverse p (x ∷ xs) = ground (
  arith,
  ap (count_if p) (reverse-cons x xs) ∙ count_if-append p (reverse xs) (x ∷ []),
  count_if-reverse p xs,
)

-- After any steps, a step is reported exactly when it has tool calls and the last twenty such steps,
-- itself included, hold more than eight that are the same as it.
pub record_step-count :
    (sigs : List Text) (sig : Text)
    → (record_step (after_steps sigs) sig).1 ≡ (
        has_sig sig
        && ltb 8 (count_if (λ s. text_eq s sig) (take 20 (keep_if has_sig (sig ∷ sigs)))))
unfolding record_step keep_if
record_step-count sigs sig = elim (Bool-cases (is_empty sig)) [
  | inl none_called ↦ rw (none_called)
  | inr called ↦
      let past = keep_if has_sig sigs in
      let window : shorten ((after_steps sigs).window ++ sig ∷ [])
          ≡ reverse (take 20 (sig ∷ past)) =
        ap (λ w. shorten (w ++ sig ∷ [])) (window-last sigs) ∙ shorten-append sig past in
      rw (called) (
        ap (λ n. ltb 8 n)
          (ap (count_if (λ s. text_eq s sig)) window
            ∙ count_if-reverse (λ s. text_eq s sig) (take 20 (sig ∷ past))))
]
