-- ===== src/Workflow/Valid.antt =====
-- The invariant of the records of internal/workflow/workflow.go, and what it needs of their map.
use foya.Prelude.{
  ℕ, ◌≡◌, refl, sym, ap, ◌∙◌, subst, arith, ◌⊎◌, inl, inr, Bool, true, false, ◌&&◌, Option, none,
  some, [], ◌∷◌, if◌then◌else◌, is_empty, Text, text_eq, text_eq_refl, text_eq_complete, Bool-cases,
  ltb,
}
use foya.Prelude.Names.{no_dup}
use foya.Prelude.Map.{Map, lookup, insert, delete}
use foya.Prelude.Keys.{
  keys, no_dup-insert, no_dup-delete, lookup-cons, lookup-insert_cases, lookup-delete-some,
}
use foya.Workflow.{Record, is_open, latest, latest_from, later, if_named, active_record, is_active}
use foya.Workflow.Changes.{close_if, close_open}

-- Every record is kept once, under its own name, and a session has one open workflow at most.
pub record IsValid (m : Map Record) : Type 0 where
  pub once : no_dup (keys m) ≡ true
  pub named : (i : Text) (r : Record) → lookup i m ≡ some r → r.id ≡ i
  pub single :
      (i j : Text) (r q : Record)
      → lookup i m ≡ some r
      → lookup j m ≡ some q
      → r.session_id ≡ q.session_id
      → is_open r.status ≡ true
      → is_open q.status ≡ true
      → i ≡ j

-- `r` may take the place of another record: of its own session no other workflow is open.
pub record Fits (k : Text) (r : Record) (m : Map Record) : Type 0 where
  name : r.id ≡ k
  alone :
      (j : Text) (q : Record)
      → lookup j m ≡ some q
      → r.session_id ≡ q.session_id
      → is_open r.status ≡ true
      → is_open q.status ≡ true
      → k ≡ j

pub insert-IsValid :
    (k : Text) (r : Record) (m : Map Record) → Fits k r m → IsValid m → IsValid (insert k r m)
insert-IsValid k r m f v = record {
  once = no_dup-insert k r m v.once;
  named = λ i q h. elim (lookup-insert_cases k i r q m h) [
    | inl (e, d) ↦ cc (f.name, ap (λ x. x.id) d)
    | inr l ↦ v.named i q l
  ];
  single = λ i j a b h g s o p. elim (lookup-insert_cases k i r a m h) [
    | inl (e, d) ↦ elim (lookup-insert_cases k j r b m g) [
      | inl (e', d') ↦ cc
      | inr l ↦
          sym e ∙ f.alone j b l (ap (λ x. x.session_id) d ∙ s) (ap (λ x. is_open x.status) d ∙ o) p
    ]
    | inr l ↦ elim (lookup-insert_cases k j r b m g) [
      | inl (e', d') ↦ sym (
          sym e'
          ∙ f.alone i a l (ap (λ x. x.session_id) d' ∙ sym s) (ap (λ x. is_open x.status) d' ∙ p) o)
      | inr l' ↦ v.single i j a b l l' s o p
    ]
  ];
}

lookup-close_open :
    (s : Text) (now : ℕ) (i : Text) (m : Map Record) (r : Record)
    → lookup i (close_open s now m) ≡ some r
    → (q : Record) × (lookup i m ≡ some q) × (r ≡ close_if s now q)
unfolding lookup close_open
lookup-close_open s now i [] r h = cc
lookup-close_open s now i ((k, q) ∷ m) r h = elim (Bool-cases (text_eq k i)) [
  | inl e ↦ (q, ground arith, ground arith)
  | inr e ↦ let (p, l, d) = lookup-close_open s now i m r (ground arith) in (p, ground arith, d)
]

keys-close_open : (s : Text) (now : ℕ) (m : Map Record) → keys (close_open s now m) ≡ keys m
unfolding keys close_open
keys-close_open s now [] = refl
keys-close_open s now ((k, r) ∷ m) = ap (◌∷◌ k) (keys-close_open s now m)

-- A record that is closed or kept, and is open only if it was and is of another session.
close_if-id : (s : Text) (now : ℕ) (q : Record) → (close_if s now q).id ≡ q.id
close_if-id s now q = ground arith

close_if-session : (s : Text) (now : ℕ) (q : Record) → (close_if s now q).session_id ≡ q.session_id
close_if-session s now q = ground arith

close_if-open :
    (s : Text) (now : ℕ) (q : Record)
    → is_open (close_if s now q).status ≡ true
    → (is_open q.status ≡ true) × (text_eq q.session_id s ≡ false)
close_if-open s now q h = (ground arith, ground arith)

pub close_open-IsValid :
    (s : Text) (now : ℕ) (m : Map Record) → IsValid m → IsValid (close_open s now m)
close_open-IsValid s now m v = record {
  once = rw (keys-close_open s now m) v.once;
  named = λ i r h.
      let (q, l, e) = lookup-close_open s now i m r h in
      ap (λ x. x.id) e ∙ close_if-id s now q ∙ v.named i q l;
  single = λ i j a b h g e o p.
      let (x, l, d) = lookup-close_open s now i m a h in
      let (y, l', d') = lookup-close_open s now j m b g in
      v.single i j x y l l'
        (sym (close_if-session s now x)
          ∙ sym (ap (λ z. z.session_id) d)
          ∙ e
          ∙ ap (λ z. z.session_id) d'
          ∙ close_if-session s now y)
        (close_if-open s now x (sym (ap (λ z. is_open z.status) d) ∙ o)).0
        (close_if-open s now y (sym (ap (λ z. is_open z.status) d') ∙ p)).0;
}

-- Once the workflows of its session are closed, a new one fits.
pub close_open-Fits :
    (s : Text) (now : ℕ) (m : Map Record) (r : Record)
    → r.session_id ≡ s
    → Fits r.id r (close_open s now m)
close_open-Fits s now m r e = record {
  name = refl;
  alone = λ j q h d o p.
      let (x, l, c) = lookup-close_open s now j m q h in
      let other = (close_if-open s now x (sym (ap (λ z. is_open z.status) c) ∙ p)).1 in
      let own : x.session_id ≡ s =
        sym (close_if-session s now x) ∙ sym (ap (λ z. z.session_id) c) ∙ sym d ∙ e in
      absurd (ground (arith, other, text_eq_complete x.session_id s own));
}

pub delete-IsValid : (k : Text) (m : Map Record) → IsValid m → IsValid (delete k m)
delete-IsValid k m v = record {
  once = no_dup-delete k m v.once;
  named = λ i r h. v.named i r (lookup-delete-some k i r m h);
  single =
      λ i j a b h g. v.single i j a b (lookup-delete-some k i a m h) (lookup-delete-some k j b m g);
}

-- A new state of a record that is kept, which is open only if the record was.
pub replace-IsValid :
    (k : Text) (r r' : Record) (m : Map Record)
    → lookup k m ≡ some r
    → r'.id ≡ r.id
    → r'.session_id ≡ r.session_id
    → (is_open r'.status ≡ true → is_open r.status ≡ true)
    → IsValid m
    → IsValid (insert k r' m)
replace-IsValid k r r' m l i s o v =
    insert-IsValid k r' m
      (record {
        name = i ∙ v.named k r l;
        alone = λ j q h e p u. v.single k j r q l h (sym s ∙ e) (o p) u;
      })
      v

later-cases : (acc : Option Record) (q r : Record) → later acc q ≡ some r → (acc ≡ some r) ⊎ (q ≡ r)
later-cases none q r h = inr (ground (arith, h))
later-cases (some l) q r h = elim (Bool-cases (is_empty l.id)) [
  | inl e ↦ inr (ground (arith, h))
  | inr e ↦ elim (Bool-cases (ltb l.updated_at q.updated_at)) [
    | inl lt ↦ inr (ground (arith, h))
    | inr ge ↦ inl (ground (arith, h))
  ]
]

latest_from-kept :
    (p : Record → Bool) (acc : Option Record) (m : Map Record) (r : Record)
    → no_dup (keys m) ≡ true
    → latest_from p acc m ≡ some r
    → (acc ≡ some r) ⊎ ((k : Text) × (lookup k m ≡ some r) × (p r ≡ true))
unfolding latest_from no_dup keys lookup
latest_from-kept p acc [] r d h = inl h
latest_from-kept p acc ((k, q) ∷ m) r d h =
    elim (latest_from-kept p (if p q then later acc q else acc) m r (ground arith) h) [
      | inr (j, l, t) ↦ inr (j, lookup-cons k j q r m d l, t)
      | inl e ↦ elim (Bool-cases (p q)) [
        | inr f ↦ inl (ground (arith, e))
        | inl t ↦ elim (later-cases acc q r (ground (arith, e))) [
          | inl same ↦ inl same
          | inr new ↦ inr (k, ground (arith, text_eq_refl k, new), sym (ap p new) ∙ t)
        ]
      ]
    ]

if_named-some : (o : Option Record) (r : Record) → if_named o ≡ some r → o ≡ some r
if_named-some none r h = h
if_named-some (some q) r h = ground (arith, h)

-- The latest record that passes a test is kept under its own name, and passes.
pub latest-kept :
    (p : Record → Bool) (m : Map Record) (r : Record)
    → IsValid m
    → latest p m ≡ some r
    → (lookup r.id m ≡ some r) × (p r ≡ true)
unfolding latest
latest-kept p m r v h =
    elim (latest_from-kept p none m r v.once (if_named-some (latest_from p none m) r h)) [
      | inl e ↦ cc
      | inr (k, l, t) ↦ (subst (λ i. lookup i m ≡ some r) (sym (v.named k r l)) l, t)
    ]

pub active_record-kept :
    (s : Text) (m : Map Record) (r : Record)
    → IsValid m
    → active_record s m ≡ some r
    → (lookup r.id m ≡ some r) × (text_eq r.session_id s ≡ true) × (is_active r.status ≡ true)
unfolding active_record
active_record-kept s m r v h =
    let (l, t) = latest-kept (λ q. text_eq q.session_id s && is_active q.status) m r v h in
    (l, ground arith, ground arith)
