-- ===== src/Channel/Pairings/Calls.antt =====
-- internal/channel/pairings.go: sequences of calls after a pairing is completed.
use foya.Prelude.{
  ℕ, ◌≡◌, ◌∙◌, subst, arith, inl, inr, true, false, ◌||◌, not, Option, none, some, List, [], ◌∷◌,
  is_empty, Text, text_eq, trim_space, Option-cases,
}
use foya.Prelude.Names.{member}
use foya.Prelude.Map.{Map, lookup, insert, lookup-insert_ne}
use foya.Prelude.Result.{err}
use foya.Channel.Pairings.{
  Binding, Pairing, Store, with_pairing, names, unique_code, cancel_previous, expire, create, get,
  cancel, ids_required, session_not_found, no_random,
}
use foya.Channel.Pairings.Consume.{consume}
use foya.Channel.Pairings.Aging.{is_completed}
use foya.Channel.Pairings.Later.{
  Stays, if-Stays, expire-Stays, cancel_previous-Stays, cancel-Stays, get-Stays, consume-Stays,
}

pub data Op : Type 0 where
  creates : Option Text → List Text → ℕ → List Text → Text → Text → Op
  gets cancels : ℕ → Text → Op
  consumes : ℕ → List Text → Text → Text → Text → Option Binding → Op

unfoldable pub apply : (Text → Text) → Op → Store → Store
apply to_upper (creates new_id codes now sessions channel session) s =
    (create new_id codes now sessions channel session s).0
apply to_upper (gets now id) s = (get now id s).0
apply to_upper (cancels now id) s = (cancel now id s).0
apply to_upper (consumes now sessions channel typed key binding) s =
    (consume to_upper now sessions channel typed key binding s).0

unfoldable pub run : (Text → Text) → List Op → Store → Store
unfolding apply
run to_upper [] s = s
run to_upper (o ∷ os) s = run to_upper os (apply to_upper o s)

-- A `Create` draws neither the name nor the code.
abbrev pub IsApart : Text → Text → Op → Type 0
IsApart id code (creates new_id codes now sessions channel session) =
    (names id new_id ≡ false) × (member code codes ≡ false)
IsApart id code _ = Unit {0}

abbrev pub AreApart : Text → Text → List Op → Type 0
AreApart id code [] = Unit {0}
AreApart id code (o ∷ os) = IsApart id code o × AreApart id code os

unique_code-apart :
    (code : Text) (cs : List Text) (codes : Map Text) (c : Text)
    → unique_code cs codes ≡ some c
    → member code cs ≡ false
    → text_eq c code ≡ false
unfolding unique_code member
unique_code-apart code [] codes c h f = cc
unique_code-apart code (d ∷ cs) codes c h f = elim (Option-cases (lookup d codes)) [
  | inl e ↦
      let same : d ≡ c = ground (arith, h, e) in
      let apart : text_eq d code ≡ false = ground (arith, f) in
      subst (λ (x : Text). text_eq x code ≡ false) same apart
  | inr (j, e) ↦ unique_code-apart code cs codes c (ground (arith, h, e)) (ground (arith, f))
]

module _ (id code : Text) (p : Pairing) (done : is_completed p.status ≡ true) where
  stored-Stays :
      (j c : Text) (q : Pairing) (ids : List Text) (by_session : Map Text) (s : Store)
      → text_eq j id ≡ false
      → text_eq c code ≡ false
      → Stays id code p s
      → Stays id code p (record (with_pairing j q s) {
        by_id = ids;
        by_code = insert c j s.by_code;
        by_session = by_session;
      })
  stored-Stays j c q ids by_session s f g k = record {
    kept = lookup-insert_ne j id q s.pairings f ∙ k.kept;
    leads = elim k.leads [
      | inl n ↦ inl (lookup-insert_ne c code j s.by_code g ∙ n)
      | inr n ↦ inr (lookup-insert_ne c code j s.by_code g ∙ n)
    ];
  }

  create-Stays :
      (new_id : Option Text) (codes : List Text) (now : ℕ) (sessions : List Text)
      (channel session : Text) (s : Store)
      → names id new_id ≡ false
      → member code codes ≡ false
      → Stays id code p s
      → Stays id code p (create new_id codes now sessions channel session s).0
  unfolding create
  create-Stays none codes now sessions channel session s f g k =
      if-Stays id code p done (is_empty (trim_space channel) || is_empty (trim_space session))
        (s, err ids_required) _ k
        (if-Stays id code p done (not (member (trim_space session) sessions))
          (s, err session_not_found) (s, err no_random) k k)
  create-Stays (some j) codes now sessions channel session s f g k =
      if-Stays id code p done (is_empty (trim_space channel) || is_empty (trim_space session))
        (s, err ids_required) _ k
        (if-Stays id code p done (not (member (trim_space session) sessions))
          (s, err session_not_found) _ k
          (elim (Option-cases (unique_code codes (expire now s).by_code)) [
            | inl e ↦ rw (e) (expire-Stays id code p done now s k)
            | inr (c, e) ↦ rw (e) (
                stored-Stays j c _ _ _ (cancel_previous (trim_space session) (expire now s)) f
                  (unique_code-apart code codes (expire now s).by_code c e g)
                  (cancel_previous-Stays id code p done (trim_space session) (expire now s)
                    (expire-Stays id code p done now s k)))
          ]))

  apply-Stays :
      (to_upper : Text → Text) (o : Op) (s : Store)
      → IsApart id code o
      → Stays id code p s
      → Stays id code p (apply to_upper o s)
  unfolding apply
  apply-Stays to_upper (creates new_id codes now sessions channel session) s a k =
      create-Stays new_id codes now sessions channel session s a.0 a.1 k
  apply-Stays to_upper (gets now j) s a k = get-Stays id code p done now j s k
  apply-Stays to_upper (cancels now j) s a k = cancel-Stays id code p done now j s k
  apply-Stays to_upper (consumes now sessions channel typed key binding) s a k =
      consume-Stays id code p done now sessions key binding to_upper channel typed s k

  pub run-Stays :
      (to_upper : Text → Text) (os : List Op) (s : Store)
      → AreApart id code os
      → Stays id code p s
      → Stays id code p (run to_upper os s)
  unfolding run
  run-Stays to_upper [] s a k = k
  run-Stays to_upper (o ∷ os) s a k =
      run-Stays to_upper os (apply to_upper o s) a.1 (apply-Stays to_upper o s a.0 k)
