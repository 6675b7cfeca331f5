-- ===== src/Prelude/Keys.antt =====
-- The keys of a map that holds each of them once.
use mathlib.Core.Path.{◌≡◌, refl}
use mathlib.Core.Logic.{◌⊎◌, inl, inr}
use mathlib.Core.Bool.{true}
use mathlib.Core.List.{List, [], ◌∷◌}
use mathlib.Core.Option.{some}
use native.Mathlib.Omega.{arith}
use foya.Prelude.Tests.{if◌then◌else◌, Bool-cases}
use foya.Prelude.Texts.{Text, text_eq, text_eq_iff, text_eq_sound}
use foya.Prelude.Names.{member, no_dup}
use foya.Prelude.Map.{Map, lookup, insert, delete, lookup-insert, lookup-delete}

unfoldable pub keys {ℓ} : {V : Type ℓ} → Map V → List Text
keys [] = []
keys ((k, v) ∷ m) = k ∷ keys m

module _ {ℓ} {V : Type ℓ} where
  member-keys-insert :
      (j k : Text) (v : V) (m : Map V)
      → member j (keys (insert k v m)) ≡ (if text_eq k j then true else member j (keys m))
  unfolding keys insert member
  member-keys-insert j k v [] = refl
  member-keys-insert j k v ((i, w) ∷ m) =
      ground (arith, text_eq_iff k j, text_eq_iff i k, text_eq_iff i j, member-keys-insert j k v m)

  pub no_dup-insert :
      (k : Text) (v : V) (m : Map V) → no_dup (keys m) ≡ true → no_dup (keys (insert k v m)) ≡ true
  unfolding keys insert member no_dup
  no_dup-insert k v [] h = refl
  no_dup-insert k v ((i, w) ∷ m) h =
      ground
        (arith, text_eq_iff k i, text_eq_iff i k, no_dup-insert k v m, member-keys-insert i k v m)

  member-keys-delete :
      (j k : Text) (m : Map V) → member j (keys (delete k m)) ≡ true → member j (keys m) ≡ true
  unfolding keys delete member
  member-keys-delete j k [] h = h
  member-keys-delete j k ((i, w) ∷ m) h = ground (arith, member-keys-delete j k m)

  pub no_dup-delete :
      (k : Text) (m : Map V) → no_dup (keys m) ≡ true → no_dup (keys (delete k m)) ≡ true
  unfolding keys delete no_dup
  no_dup-delete k [] h = h
  no_dup-delete k ((i, w) ∷ m) h = ground (arith, no_dup-delete k m, member-keys-delete i k m)

  member-lookup : (k : Text) (v : V) (m : Map V) → lookup k m ≡ some v → member k (keys m) ≡ true
  unfolding lookup keys member
  member-lookup k v [] h = cc
  member-lookup k v ((i, w) ∷ m) h = ground (arith, member-lookup k v m)

  pub lookup-cons :
      (k j : Text) (v w : V) (m : Map V)
      → no_dup (k ∷ keys m) ≡ true
      → lookup j m ≡ some w
      → lookup j ((k, v) ∷ m) ≡ some w
  unfolding lookup no_dup
  lookup-cons k j v w m d h = ground (arith, member-lookup j w m h, text_eq_iff k j)

  -- What is found after a write: what was written, or what was there.
  pub lookup-insert_cases :
      (k i : Text) (v w : V) (m : Map V)
      → lookup i (insert k v m) ≡ some w
      → ((k ≡ i) × (v ≡ w)) ⊎ (lookup i m ≡ some w)
  lookup-insert_cases k i v w m h = elim (Bool-cases (text_eq k i)) [
    | inl e ↦ inl (text_eq_sound k i e, ground (arith, lookup-insert k i v m))
    | inr e ↦ inr (ground (arith, lookup-insert k i v m))
  ]

  pub lookup-delete-some :
      (k i : Text) (w : V) (m : Map V) → lookup i (delete k m) ≡ some w → lookup i m ≡ some w
  lookup-delete-some k i w m h = ground (arith, lookup-delete k i m)
