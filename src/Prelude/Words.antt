-- ===== src/Prelude/Words.antt =====
-- Lines, words and prefixes: the parts of Go's strings package that read a text as a sequence of them.
use Prim.Native.Nat.{ℕ}
use mathlib.Core.Path.{◌≡◌, refl, sym, ap, ◌∙◌}
use mathlib.Core.Logic.{inl, inr}
use mathlib.Core.Bool.{Bool, true, false, ◌&&◌}
use mathlib.Core.List.{List, [], ◌∷◌, ◌++◌, reverse}
use native.Mathlib.Omega.{arith}
use foya.Prelude.Tests.{◌==◌, ==_iff, Bool-cases, if◌then◌else◌}
use foya.Prelude.Lists.{is_empty}
use foya.Prelude.Texts.{Text, text, is_space}

-- `c` in front of the first of the parts.
abbrev pub onto_first : ℕ → List Text → List Text
onto_first c [] = (c ∷ []) ∷ []
onto_first c (p ∷ ps) = (c ∷ p) ∷ ps

-- `strings.Split(s, sep)` for a separator of one character.
unfoldable pub split_at : ℕ → Text → List Text
split_at sep [] = [] ∷ []
split_at sep (c ∷ s) =
    let rest = split_at sep s in if c == sep then [] ∷ rest else onto_first c rest

-- `strings.Join(parts, sep)`.
unfoldable pub join_with : ℕ → List Text → Text
join_with sep [] = []
join_with sep (p ∷ []) = p
join_with sep (p ∷ q ∷ ps) = p ++ (sep ∷ join_with sep (q ∷ ps))

-- `strings.HasPrefix(s, p)`.
unfoldable pub has_prefix : Text → Text → Bool
has_prefix s [] = true
has_prefix [] (c ∷ p) = false
has_prefix (d ∷ s) (c ∷ p) = d == c && has_prefix s p

abbrev pub drop_empty : List Text → List Text
drop_empty [] = []
drop_empty (p ∷ ps) = if is_empty p then drop_empty ps else p ∷ drop_empty ps

-- The runs of characters that are not spaces, with empty ones between two spaces.
unfoldable pub runs : Text → List Text
runs [] = [] ∷ []
runs (c ∷ s) = let rest = runs s in if is_space c then [] ∷ rest else onto_first c rest

-- `strings.Fields`.
unfoldable pub fields : Text → List Text
unfolding runs is_space
fields s = drop_empty (runs s)

unfoldable pub trim_left_of : (ℕ → Bool) → Text → Text
trim_left_of p [] = []
trim_left_of p (c ∷ s) = if p c then trim_left_of p s else c ∷ s

-- `strings.Trim(s, cutset)`, for the test that a character is in the set.
unfoldable pub trim_of : (ℕ → Bool) → Text → Text
unfolding trim_left_of
trim_of p s = reverse (trim_left_of p (reverse (trim_left_of p s)))

-- The texts of which no character is `c`.
unfoldable pub lacks : ℕ → Text → Bool
lacks c [] = true
lacks c (d ∷ s) = if d == c then false else lacks c s

fields_runs : fields (text " a  bc ") ≡ text "a" ∷ text "bc" ∷ []
unfolding fields
fields_runs = refl

split_at_runs : split_at 10 (text "a\n\nb") ≡ text "a" ∷ [] ∷ text "b" ∷ []
unfolding split_at
split_at_runs = refl

unfoldable pub all_lack : ℕ → List Text → Bool
unfolding lacks
all_lack c [] = true
all_lack c (p ∷ ps) = lacks c p && all_lack c ps

pub is_empty-split_at : (sep : ℕ) (s : Text) → is_empty (split_at sep s) ≡ false
unfolding split_at
is_empty-split_at sep [] = refl
is_empty-split_at sep (c ∷ s) = elim (split_at sep s) [ [] ↦ ground arith | p ∷ ps ↦ ground arith ]

all_lack-onto :
    (sep c : ℕ) (ps : List Text)
    → (c == sep) ≡ false
    → all_lack sep ps ≡ true
    → all_lack sep (onto_first c ps) ≡ true
unfolding all_lack lacks
all_lack-onto sep c [] h k = ground (arith, h)
all_lack-onto sep c (p ∷ ps) h k = ground (arith, h, k)

pub all_lack-split_at : (sep : ℕ) (s : Text) → all_lack sep (split_at sep s) ≡ true
unfolding split_at all_lack lacks
all_lack-split_at sep [] = refl
all_lack-split_at sep (c ∷ s) = elim (Bool-cases (c == sep)) [
  | inl h ↦ rw (h, split_at, all_lack, lacks) (all_lack-split_at sep s)
  | inr h ↦ rw (h, split_at) (all_lack-onto sep c (split_at sep s) h (all_lack-split_at sep s))
]

join_with-onto :
    (sep c : ℕ) (ps : List Text)
    → is_empty ps ≡ false
    → join_with sep (onto_first c ps) ≡ c ∷ join_with sep ps
unfolding join_with
join_with-onto sep c [] h = cc
join_with-onto sep c (p ∷ []) h = refl
join_with-onto sep c (p ∷ q ∷ ps) h = refl

join_with-blank :
    (sep : ℕ) (ps : List Text)
    → is_empty ps ≡ false
    → join_with sep ([] ∷ ps) ≡ sep ∷ join_with sep ps
unfolding join_with
join_with-blank sep [] h = cc
join_with-blank sep (p ∷ ps) h = refl

pub join_with-split_at : (sep : ℕ) (s : Text) → join_with sep (split_at sep s) ≡ s
unfolding split_at join_with
join_with-split_at sep [] = refl
join_with-split_at sep (c ∷ s) = elim (Bool-cases (c == sep)) [
  | inl h ↦
      rw (h, split_at)
        (join_with-blank sep (split_at sep s) (is_empty-split_at sep s)
          ∙ ap (◌∷◌ sep) (join_with-split_at sep s)
          ∙ ap (λ x. x ∷ s) (sym ((==_iff c sep).0 h)))
  | inr h ↦
      rw (h, split_at)
        (join_with-onto sep c (split_at sep s) (is_empty-split_at sep s)
          ∙ ap (◌∷◌ c) (join_with-split_at sep s))
]

split_at-lacks : (sep : ℕ) (s : Text) → lacks sep s ≡ true → split_at sep s ≡ s ∷ []
unfolding split_at lacks
split_at-lacks sep [] h = refl
split_at-lacks sep (c ∷ s) h =
    let other : (c == sep) ≡ false = ground (arith, h) in
    let e = split_at-lacks sep s (ground (arith, h)) in rw (other, e) refl

split_at-append :
    (sep : ℕ) (p s : Text) → lacks sep p ≡ true → split_at sep (p ++ (sep ∷ s)) ≡ p ∷ split_at sep s
unfolding split_at lacks
split_at-append sep [] s h = rw ((==_iff sep sep).1 refl) refl
split_at-append sep (c ∷ p) s h =
    let other : (c == sep) ≡ false = ground (arith, h) in
    let e = split_at-append sep p s (ground (arith, h)) in rw (other, e) refl

pub split_at-join_with :
    (sep : ℕ) (ps : List Text)
    → is_empty ps ≡ false
    → all_lack sep ps ≡ true
    → split_at sep (join_with sep ps) ≡ ps
unfolding join_with all_lack
split_at-join_with sep [] n h = cc
split_at-join_with sep (p ∷ []) n h = split_at-lacks sep p (ground (arith, h))
split_at-join_with sep (p ∷ q ∷ ps) n h =
    split_at-append sep p (join_with sep (q ∷ ps)) (ground (arith, h))
    ∙ ap (◌∷◌ p) (split_at-join_with sep (q ∷ ps) refl (ground (arith, h)))
