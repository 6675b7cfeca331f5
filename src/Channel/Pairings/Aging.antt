-- ===== src/Channel/Pairings/Aging.antt =====
-- internal/channel/pairings.go: what the expiry of pairings leaves.
use foya.Prelude.{
  ℕ, ◌+◌, ◌≡◌, refl, sym, ap, ◌∙◌, subst, arith, ◌⊎◌, inl, inr, Bool, true, false, ◌&&◌, Option,
  none, some, List, [], ◌∷◌, ltb, leb, Text, text_eq, text_eq_sound, Bool-cases,
}
use foya.Prelude.Map.{Map, lookup, lookup-insert_ne, lookup-delete}
use foya.Channel.Pairings.{
  Status, completed, expired, Pairing, Store, is_pending, set_status, expire_one, expire_codes,
  forget, drop_one, drop_old,
}

abbrev pub is_completed : Status → Bool
is_completed completed = true
is_completed _ = false

expire_one-completed :
    (now : ℕ) (o : Option Pairing) (j id : Text) (p : Pairing) (m : Map Pairing)
    → lookup j m ≡ o
    → lookup id m ≡ some p
    → is_completed p.status ≡ true
    → lookup id (expire_one now o j m) ≡ some p
expire_one-completed now none j id p m e l c = l
expire_one-completed now (some q) j id p m e l c =
    elim (Bool-cases (is_pending q.status && leb q.expires_at now)) [
      | inr f ↦ rw (f) l
      | inl t ↦ elim (Bool-cases (text_eq j id)) [
        | inr d ↦ rw (t) (lookup-insert_ne j id (set_status expired q) m d ∙ l)
        | inl d ↦
            let same : some q ≡ some p = sym e ∙ ap (λ x. lookup x m) (text_eq_sound j id d) ∙ l in
            let k : q ≡ p = cc in
            let pend : is_pending q.status ≡ true = ground arith in
            absurd (ground (arith, c, subst (λ x. is_pending x.status ≡ true) k pend))
      ]
    ]

pub expire_codes-completed :
    (now : ℕ) (codes : Map Text) (id : Text) (p : Pairing) (m : Map Pairing)
    → lookup id m ≡ some p
    → is_completed p.status ≡ true
    → lookup id (expire_codes now codes m) ≡ some p
unfolding expire_codes
expire_codes-completed now [] id p m l c = l
expire_codes-completed now ((code, j) ∷ codes) id p m l c =
    expire_codes-completed now codes id p (expire_one now (lookup j m) j m)
      (expire_one-completed now (lookup j m) j id p m refl l c) c

-- Dropping old pairings keeps the pairings themselves, and a code leads where it did or nowhere.
pub record IsDropped (s s' : Store) : Type 0 where
  pub same : s'.pairings ≡ s.pairings
  pub fewer :
      (code : Text)
      → (lookup code s'.by_code ≡ none) ⊎ (lookup code s'.by_code ≡ lookup code s.by_code)

forget-IsDropped : (p : Pairing) (id : Text) (s : Store) → IsDropped s (forget p id s)
forget-IsDropped p id s = record {
  same = refl;
  fewer = λ code. elim (Bool-cases (text_eq p.code code)) [
    | inl e ↦ inl (ground (arith, e, lookup-delete p.code code s.by_code))
    | inr e ↦ inr (ground (arith, e, lookup-delete p.code code s.by_code))
  ];
}

drop_one-IsDropped :
    (now : ℕ) (o : Option Pairing) (id : Text) (s : Store) → IsDropped s (drop_one now o id s).0
drop_one-IsDropped now none id s = record { same = refl; fewer = λ code. inr refl }
drop_one-IsDropped now (some p) id s = elim (Bool-cases (ltb (p.expires_at + 3600) now)) [
  | inl e ↦ rw (e) (forget-IsDropped p id s)
  | inr e ↦ rw (e) (record { same = refl; fewer = λ code. inr refl })
]

IsDropped-trans : (s t u : Store) → IsDropped s t → IsDropped t u → IsDropped s u
IsDropped-trans s t u a b = record {
  same = b.same ∙ a.same;
  fewer = λ code. elim (b.fewer code) [
    | inl e ↦ inl e
    | inr e ↦ elim (a.fewer code) [ inl d ↦ inl (e ∙ d) | inr d ↦ inr (e ∙ d) ]
  ];
}

pub drop_old-IsDropped : (now : ℕ) (ids : List Text) (s : Store) → IsDropped s (drop_old now ids s)
unfolding drop_old
drop_old-IsDropped now [] s = record { same = refl; fewer = λ code. inr refl }
drop_old-IsDropped now (id ∷ ids) s =
    let x = drop_one now (lookup id s.pairings) id s in
    let d =
      IsDropped-trans s x.0 (drop_old now ids x.0)
        (drop_one-IsDropped now (lookup id s.pairings) id s) (drop_old-IsDropped now ids x.0) in
    elim (Bool-cases x.1) [
      | inl e ↦ rw (e) (record { same = d.same; fewer = d.fewer })
      | inr e ↦ rw (e) d
    ]
