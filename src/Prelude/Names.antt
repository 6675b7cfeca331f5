-- ===== src/Prelude/Names.antt =====
-- Sets of texts, as lists: Go maps whose values do not matter.
use Prim.Native.Nat.{suc, ◌≤◌}
use mathlib.Core.Path.{◌≡◌, refl}
use mathlib.Core.Bool.{Bool, true, false, not, ◌&&◌}
use mathlib.Core.List.{List, [], ◌∷◌}
use native.Mathlib.Omega.{arith}
use foya.Prelude.Tests.{if◌then◌else◌}
use foya.Prelude.Lists.{length}
use foya.Prelude.Texts.{Text, text_eq, text_eq_iff, text_eq_refl}

unfoldable pub member : Text → List Text → Bool
member a [] = false
member a (x ∷ xs) = if text_eq x a then true else member a xs

unfoldable pub no_dup : List Text → Bool
unfolding member
no_dup [] = true
no_dup (x ∷ xs) = not (member x xs) && no_dup xs

unfoldable pub subset : List Text → List Text → Bool
unfolding member
subset [] ys = true
subset (x ∷ xs) ys = member x ys && subset xs ys

erase : Text → List Text → List Text
erase a [] = []
erase a (x ∷ xs) = let rest = erase a xs in if text_eq x a then xs else x ∷ rest

length-erase :
    (a : Text) (xs : List Text) → member a xs ≡ true → suc (length (erase a xs)) ≡ length xs
unfolding member erase
length-erase a [] h = cc
length-erase a (x ∷ xs) h = ground (arith, length-erase a xs)

member-erase :
    (a b : Text) (xs : List Text) → text_eq a b ≡ false → member b (erase a xs) ≡ member b xs
unfolding member erase
member-erase a b [] h = refl
member-erase a b (x ∷ xs) h =
    ground (arith, member-erase a b xs h, text_eq_iff x a, text_eq_iff x b, text_eq_iff a b)

subset-erase :
    (a : Text) (ys xs : List Text)
    → member a ys ≡ false
    → subset ys xs ≡ true
    → subset ys (erase a xs) ≡ true
unfolding member subset
subset-erase a [] xs n h = refl
subset-erase a (y ∷ ys) xs n h =
    ground (arith, subset-erase a ys xs, member-erase a y xs, text_eq_iff y a, text_eq_iff a y)

member-subset :
    (a : Text) (xs ys : List Text) → subset xs ys ≡ true → member a xs ≡ true → member a ys ≡ true
unfolding member subset
member-subset a [] ys s h = cc
member-subset a (x ∷ xs) ys s h = ground (arith, member-subset a xs ys, text_eq_iff x a)

subset-intro :
    (xs ys : List Text)
    → ((a : Text) → member a xs ≡ true → member a ys ≡ true)
    → subset xs ys ≡ true
unfolding member subset
subset-intro [] ys h = refl
subset-intro (x ∷ xs) ys h =
    ground (arith, h x, text_eq_refl x, subset-intro xs ys (λ a m. h a (ground arith)))

member-cons_erase :
    (a y : Text) (xs ys : List Text)
    → subset (erase y xs) ys ≡ true
    → member a xs ≡ true
    → member a (y ∷ ys) ≡ true
unfolding member
member-cons_erase a y xs ys s m =
    ground (arith, member-erase y a xs, member-subset a (erase y xs) ys s)

-- A list without duplicates that is within another and no shorter holds all of the other.
pub subset-reverse :
    (ys xs : List Text)
    → no_dup ys ≡ true
    → subset ys xs ≡ true
    → length xs ≤ length ys
    → subset xs ys ≡ true
unfolding no_dup subset
subset-reverse [] [] n s h = refl
subset-reverse [] (x ∷ xs) n s h = absurd (omega arith)
subset-reverse (y ∷ ys) xs n s h =
    let fewer : subset (erase y xs) ys ≡ true =
      subset-reverse ys (erase y xs) (ground arith)
        (subset-erase y ys xs (ground arith) (ground arith)) (ground (arith, length-erase y xs)) in
    subset-intro xs (y ∷ ys) (λ a m. member-cons_erase a y xs ys fewer m)

-- The texts of a list, each once.
unfoldable pub distinct : List Text → List Text
unfolding member
distinct [] = []
distinct (x ∷ xs) = let rest = distinct xs in if member x rest then rest else x ∷ rest

no_dup-distinct : (xs : List Text) → no_dup (distinct xs) ≡ true
unfolding no_dup distinct
no_dup-distinct [] = refl
no_dup-distinct (x ∷ xs) = ground (arith, no_dup-distinct xs)

member-distinct : (a : Text) (xs : List Text) → member a (distinct xs) ≡ member a xs
unfolding member distinct
member-distinct a [] = refl
member-distinct a (x ∷ xs) =
    ground (arith, member-distinct a xs, member-distinct x xs, text_eq_iff x a)

-- The texts of a list that are in another.
unfoldable pub only : List Text → List Text → List Text
unfolding member
only ys [] = []
only ys (x ∷ xs) = let rest = only ys xs in if member x ys then x ∷ rest else rest

member-only : (a : Text) (ys xs : List Text) → member a (only ys xs) ≡ (member a xs && member a ys)
unfolding member only
member-only a ys [] = refl
member-only a ys (x ∷ xs) = ground (arith, member-only a ys xs, text_eq_iff x a)

-- As many different texts of `ys` as there are in `xs`: then all of `xs` are among `ys`.
pub subset-of_count :
    (xs ys : List Text)
    → length (distinct (only (distinct xs) ys)) ≡ length (distinct xs)
    → subset xs ys ≡ true
subset-of_count xs ys e =
    let seen = distinct (only (distinct xs) ys) in
    let back : subset (distinct xs) seen ≡ true =
      subset-reverse seen (distinct xs) (no_dup-distinct (only (distinct xs) ys))
        (subset-intro seen (distinct xs) (λ a m.
          ground
            (arith, member-distinct a (only (distinct xs) ys), member-only a (distinct xs) ys)))
        (omega (arith, e)) in
    subset-intro xs ys (λ a m. ground (
      arith,
      member-subset a (distinct xs) seen back,
      member-distinct a xs,
      member-distinct a (only (distinct xs) ys),
      member-only a (distinct xs) ys,
    ))
