-- ===== src/Channel/Pairings/Later.antt =====
-- internal/channel/pairings.go: what later calls leave of a pairing that is completed.
use foya.Prelude.{
  ℕ, ◌≡◌, refl, sym, ap, ◌∙◌, subst, arith, ◌⊎◌, inl, inr, Bool, true, false, ◌||◌, not, Option,
  none, some, List, if◌then◌else◌, is_empty, Text, text_eq, text_eq_sound, trim_space, Bool-cases,
  Option-cases,
}
use foya.Prelude.Names.{member}
use foya.Prelude.Map.{Map, lookup, delete, lookup-insert_ne, lookup-delete}
use foya.Prelude.Result.{ok, err}
use foya.Channel.Pairings.{
  not_found, already_used, Status, pending, completed, expired, cancelled, Binding, Pairing, Store,
  is_pending, set_status, with_pairing, cancel_pairing, cancel_previous, expire_codes, expire, find,
  get, cancel, channel_mismatch,
}
use foya.Channel.Pairings.Consume.{is_bound_to, complete_with, use_as, use_found, use_code, consume}
use foya.Channel.Pairings.Aging.{is_completed, expire_codes-completed, drop_old-IsDropped}

-- The pairing stays as it is, and the code leads to it or nowhere.
pub record Stays (id code : Text) (p : Pairing) (s : Store) : Type 0 where
  pub kept : lookup id s.pairings ≡ some p
  pub leads : (lookup code s.by_code ≡ none) ⊎ (lookup code s.by_code ≡ some id)

module _ (id code : Text) (p : Pairing) (done : is_completed p.status ≡ true) where
  pub if-Stays :
      {A : Type 0} (b : Bool) (x y : Store × A)
      → Stays id code p x.0
      → Stays id code p y.0
      → Stays id code p (if b then x else y).0
  if-Stays true x y h k = h
  if-Stays false x y h k = k

  pub expire-Stays : (now : ℕ) (s : Store) → Stays id code p s → Stays id code p (expire now s)
  unfolding expire
  expire-Stays now s k =
      let aged = expire_codes now s.by_code s.pairings in
      let d = drop_old-IsDropped now s.by_id (record s { pairings = aged }) in
      record {
        kept =
            ap (lookup id) d.same
            ∙ expire_codes-completed now s.by_code id p s.pairings k.kept done;
        leads = elim (d.fewer code) [
          | inl n ↦ inl n
          | inr n ↦ elim k.leads [ inl e ↦ inl (n ∙ e) | inr e ↦ inr (n ∙ e) ]
        ];
      }

  leads-delete :
      (c : Text) (m : Map Text)
      → (lookup code m ≡ none) ⊎ (lookup code m ≡ some id)
      → (lookup code (delete c m) ≡ none) ⊎ (lookup code (delete c m) ≡ some id)
  leads-delete c m h = elim (Bool-cases (text_eq c code)) [
    | inl e ↦ inl (ground (arith, e, lookup-delete c code m))
    | inr e ↦
        let same : lookup code (delete c m) ≡ lookup code m =
          ground (arith, e, lookup-delete c code m) in
        elim h [ inl n ↦ inl (same ∙ n) | inr n ↦ inr (same ∙ n) ]
  ]

  -- A pairing that is pending is another one.
  pending-other :
      (j : Text) (q : Pairing) (m : Map Pairing)
      → lookup j m ≡ some q
      → lookup id m ≡ some p
      → is_pending q.status ≡ true
      → text_eq j id ≡ false
  pending-other j q m e l pend = elim (Bool-cases (text_eq j id)) [
    | inr d ↦ d
    | inl d ↦
        let same : some q ≡ some p = sym e ∙ ap (λ x. lookup x m) (text_eq_sound j id d) ∙ l in
        let k : q ≡ p = cc in
        absurd (ground (arith, done, subst (λ (x : Pairing). is_pending x.status ≡ true) k pend))
  ]

  change-Stays :
      (j : Text) (q q' : Pairing) (s : Store)
      → lookup j s.pairings ≡ some q
      → is_pending q.status ≡ true
      → Stays id code p s
      → Stays id code p (with_pairing j q' s)
  change-Stays j q q' s e pend k = record {
    kept =
        lookup-insert_ne j id q' s.pairings (pending-other j q s.pairings e k.kept pend) ∙ k.kept;
    leads = k.leads;
  }

  uncode-Stays :
      (c : Text) (s : Store)
      → Stays id code p s
      → Stays id code p (record s { by_code = delete c s.by_code })
  uncode-Stays c s k = record { kept = k.kept; leads = leads-delete c s.by_code k.leads }

  cancel_pairing-Stays :
      (o : Option Pairing) (j : Text) (s : Store)
      → ((q : Pairing) → o ≡ some q → lookup j s.pairings ≡ some q)
      → Stays id code p s
      → Stays id code p (cancel_pairing o j s)
  cancel_pairing-Stays none j s h k = k
  cancel_pairing-Stays (some q) j s h k = elim (Bool-cases (is_pending q.status)) [
    | inr settled ↦ rw (settled) k
    | inl pend ↦ rw (pend) (
        uncode-Stays q.code (with_pairing j (set_status cancelled q) s)
          (change-Stays j q (set_status cancelled q) s (h q refl) pend k))
  ]

  pub cancel_previous-Stays :
      (session : Text) (s : Store) → Stays id code p s → Stays id code p (cancel_previous session s)
  cancel_previous-Stays session s k = elim (Option-cases (lookup session s.by_session)) [
    | inl e ↦ rw (e, cancel_previous) k
    | inr (j, e) ↦
        rw (e, cancel_previous) (cancel_pairing-Stays (lookup j s.pairings) j s (λ q h. h) k)
  ]

  find-some :
      (j : Text) (s : Store) (q : Pairing) → find j s ≡ some q → lookup j s.pairings ≡ some q
  find-some j s q h = elim (Bool-cases (member j s.by_id)) [
    | inl is ↦ ground (arith, h, is)
    | inr gone ↦ absurd (ground (arith, h, gone))
  ]

  pub cancel-Stays :
      (now : ℕ) (j : Text) (s : Store) → Stays id code p s → Stays id code p (cancel now j s).0
  unfolding cancel
  cancel-Stays now j s k =
      let s1 = expire now s in
      let l = expire-Stays now s k in
      elim (Option-cases (find (trim_space j) s1)) [
        | inl e ↦ rw (e, cancel) l
        | inr (q, e) ↦
            rw (e, cancel)
              (cancel_pairing-Stays (some q) (trim_space j) s1
                (λ x h. find-some (trim_space j) s1 x (e ∙ h)) l)
      ]

  pub get-Stays :
      (now : ℕ) (j : Text) (s : Store) → Stays id code p s → Stays id code p (get now j s).0
  unfolding get
  get-Stays now j s k = expire-Stays now s k

  module _ (now : ℕ) (sessions : List Text) (key : Text) (binding : Option Binding) where
    use_as-Stays :
        (st : Status) (q : Pairing) (j : Text) (s : Store)
        → q.status ≡ st
        → lookup j s.pairings ≡ some q
        → Stays id code p s
        → Stays id code p (use_as st now sessions key binding q j s).0
    use_as-Stays expired q j s e l k = k
    use_as-Stays cancelled q j s e l k = k
    use_as-Stays completed q j s e l k =
        if-Stays (is_bound_to key q.conversation) (s, ok q) (s, err already_used) k k
    use_as-Stays pending q j s e l k =
        if-Stays (not (member q.session_id sessions)) _ (complete_with now binding q j s)
          (uncode-Stays q.code (with_pairing j (set_status cancelled q) s)
            (change-Stays j q (set_status cancelled q) s l (ap is_pending e) k))
          (completes binding)
      where
        completes : (b : Option Binding) → Stays id code p (complete_with now b q j s).0
        completes none = k
        completes (some b) =
            change-Stays j q
              (record q { status = completed; conversation = some b; completed_at = some now }) s l
              (ap is_pending e) k

    use_found-Stays :
        (channel : Text) (o : Option Pairing) (j : Text) (s : Store)
        → lookup j s.pairings ≡ o
        → Stays id code p s
        → Stays id code p (use_found now sessions channel key binding o j s).0
    use_found-Stays channel none j s e k = k
    use_found-Stays channel (some q) j s e k =
        if-Stays (not (text_eq q.channel_id channel)) (s, err channel_mismatch)
          (use_as q.status now sessions key binding q j s) k (use_as-Stays q.status q j s refl e k)

    use_code-Stays :
        (channel : Text) (o : Option Text) (s : Store)
        → Stays id code p s
        → Stays id code p (use_code now sessions channel key binding o s).0
    use_code-Stays channel none s k = k
    use_code-Stays channel (some j) s k = use_found-Stays channel (lookup j s.pairings) j s refl k

    pub consume-Stays :
        (to_upper : Text → Text) (channel typed : Text) (s : Store)
        → Stays id code p s
        → Stays id code p (consume to_upper now sessions channel typed key binding s).0
    unfolding consume
    consume-Stays to_upper channel typed s k =
        if-Stays (is_empty (trim_space channel) || is_empty (to_upper (trim_space typed)))
          (s, err not_found)
          (use_code now sessions (trim_space channel) key binding
            (lookup (to_upper (trim_space typed)) (expire now s).by_code) (expire now s))
          k (use_code-Stays (trim_space channel) _ (expire now s) (expire-Stays now s k))
