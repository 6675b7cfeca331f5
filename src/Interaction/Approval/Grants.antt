-- ===== src/Interaction/Approval/Grants.antt =====
-- internal/interaction/approval.go: what a decision and the end of a session do to the grants.
use foya.Prelude.{
  ◌≡◌, ◌≢◌, refl, sym, ◌∙◌, ap, ◌⊎◌, inl, inr, ◌↔◌, Bool, true, false, ◌&&◌, not, none, some, List,
  [], ◌∷◌, arith, is_empty, if◌then◌else◌, Text, text_eq, subst, text_eq_refl, text_eq_sound,
  Bool-cases, Option-cases, exists, keep_if,
}
use foya.Prelude.Map.{lookup, lookup-delete_self}
use foya.Prelude.Result.{ok, err}
use foya.Interaction.Approval.{
  Decision, approved_for_session, denied, auto_approve, approved, unknown, Request, Gateway,
  GrantKey, request_grant_key, key_eq, has_grant, resolve, clear_session, is_client_decision,
  add_grant,
}

-- Two steps of clients in a row; a refused one changes nothing.
abbrev pub after_decision : Text → Decision → Gateway → Gateway
after_decision id d g = elim (resolve id d g) [ ok h ↦ h | err e ↦ g ]

lookup-resolved :
    (id : Text) (d : Decision) (g : Gateway)
    → is_client_decision d ≡ true
    → lookup id (after_decision id d g).pending ≡ none
unfolding resolve
lookup-resolved id d g h = elim (Option-cases (lookup id g.pending)) [
  | inl e ↦ rw (h, after_decision, resolve, e) e
  | inr (r, e) ↦ rw (h, after_decision, resolve, e) (lookup-delete_self id g.pending)
]

-- Only the first decision on a request counts: a second, valid or not, leaves the gateway as it is.
pub resolve-first :
    (id : Text) (d d' : Decision) (g : Gateway)
    → is_client_decision d ≡ true
    → after_decision id d' (after_decision id d g) ≡ after_decision id d g
unfolding resolve
resolve-first id d d' g h = elim (Bool-cases (is_client_decision d')) [
  | inr bad ↦ rw (bad, after_decision, resolve)
  | inl good ↦ rw (good, after_decision, resolve, lookup-resolved id d g h)
]

key_eq_sound : (a b : GrantKey) → key_eq a b ≡ true → a ≡ b
unfolding key_eq
key_eq_sound a b h =
    let s = text_eq_sound a.session b.session (ground arith) in
    let t = text_eq_sound a.tool b.tool (ground arith) in
    let u = text_eq_sound a.action b.action (ground arith) in
    let v = text_eq_sound a.resource b.resource (ground arith) in
    λ i. record { session = s i; tool = t i; action = u i; resource = v i }

key_eq_refl : (a : GrantKey) → key_eq a a ≡ true
unfolding key_eq
key_eq_refl a =
    rw (text_eq_refl a.session, text_eq_refl a.tool, text_eq_refl a.action, text_eq_refl a.resource)

key_eq-session :
    (a b : GrantKey) (s : Text) → key_eq a b ≡ true → text_eq b.session s ≡ text_eq a.session s
key_eq-session a b s h = ap (λ k. text_eq k.session s) (sym (key_eq_sound a b h))

exists-keep_if :
    (key : GrantKey) (s : Text) (gs : List GrantKey)
    → exists (key_eq key) (keep_if (λ k. not (text_eq k.session s)) gs)
      ≡ (exists (key_eq key) gs && not (text_eq key.session s))
unfolding exists keep_if
exists-keep_if key s [] = refl
exists-keep_if key s (k ∷ gs) = elim (Bool-cases (key_eq key k)) [
  | inl same ↦ ground (arith, exists-keep_if key s gs, key_eq-session key k s same)
  | inr ne ↦ ground (arith, exists-keep_if key s gs)
]

-- After `clear_session` no request of that session is granted, and any other request is granted just
-- when it was.
pub has_grant-clear_session :
    (s : Text) (g : Gateway) (q : Request)
    → has_grant (clear_session s g) q ≡ (has_grant g q && not (text_eq q.session s))
unfolding has_grant clear_session request_grant_key
has_grant-clear_session s g q = elim (Bool-cases (is_empty q.session)) [
  | inl e ↦ rw (e)
  | inr ne ↦ rw (ne) (exists-keep_if (request_grant_key q) s g.grants)
]

-- What `has_grant` looks at.
abbrev granted : Request → List GrantKey → Bool
granted q gs = if is_empty q.session then false else exists (key_eq (request_grant_key q)) gs

grants_after :
    (id : Text) (d : Decision) (g : Gateway) (r : Request)
    → lookup id g.pending ≡ some r
    → is_client_decision d ≡ true
    → (after_decision id d g).grants ≡ add_grant d r g.grants
unfolding resolve
grants_after id d g r e h = rw (h, after_decision, resolve, e)

abbrev GrantedBy : Decision → Request → Request → Type 0
GrantedBy d r q = (d ≡ approved_for_session) × (request_grant_key q ≡ request_grant_key r)

granted-unchanged :
    (d : Decision) (r q : Request) (gs : List GrantKey)
    → d ≢ approved_for_session
    → (granted q gs ≡ true) ↔ ((granted q gs ≡ true) ⊎ GrantedBy d r q)
granted-unchanged d r q gs ne = (inl, λ x. elim x [ inl a ↦ a | inr b ↦ absurd (ne b.0) ])

same_session :
    (r q : Request)
    → request_grant_key q ≡ request_grant_key r
    → is_empty q.session ≡ is_empty r.session
unfolding request_grant_key
same_session r q e = ap (λ k. is_empty k.session) e

granted-cons :
    (r q : Request) (gs : List GrantKey)
    → is_empty r.session ≡ false
    → (granted q (request_grant_key r ∷ gs) ≡ true)
      ↔ ((granted q gs ≡ true) ⊎ GrantedBy approved_for_session r q)
unfolding exists
granted-cons r q gs ne = (there, back)
  where
    there :
        granted q (request_grant_key r ∷ gs) ≡ true
        → (granted q gs ≡ true) ⊎ GrantedBy approved_for_session r q
    there h = elim (Bool-cases (key_eq (request_grant_key q) (request_grant_key r))) [
      | inl same ↦ inr (refl, key_eq_sound (request_grant_key q) (request_grant_key r) same)
      | inr other ↦ inl (
          subst
            (λ b.
              (if is_empty q.session
                then false
                else if b
                then true
                else exists (key_eq (request_grant_key q)) gs)
              ≡ true)
            other h)
    ]

    back :
        (granted q gs ≡ true) ⊎ GrantedBy approved_for_session r q
        → granted q (request_grant_key r ∷ gs) ≡ true
    back (inl h) = ground arith
    back (inr (e, k)) = rw (same_session r q k ∙ ne, k, key_eq_refl (request_grant_key r))

granted-add_grant :
    (d : Decision) (r q : Request) (gs : List GrantKey)
    → is_empty r.session ≡ false
    → (granted q (add_grant d r gs) ≡ true) ↔ ((granted q gs ≡ true) ⊎ GrantedBy d r q)
granted-add_grant approved_for_session r q gs ne = rw (ne) (granted-cons r q gs ne)
granted-add_grant auto_approve r q gs ne = granted-unchanged auto_approve r q gs (λ h. cc)
granted-add_grant approved r q gs ne = granted-unchanged approved r q gs (λ h. cc)
granted-add_grant denied r q gs ne = granted-unchanged denied r q gs (λ h. cc)
granted-add_grant (unknown t) r q gs ne = granted-unchanged (unknown t) r q gs (λ h. cc)

-- A client's decision on a pending request of a session leaves a request `q` granted just when it was
-- granted before, or when the decision is for the session and the two requests have the same key.
pub has_grant-resolve :
    (id : Text) (d : Decision) (g : Gateway) (r q : Request)
    → lookup id g.pending ≡ some r
    → is_empty r.session ≡ false
    → is_client_decision d ≡ true
    → (has_grant (after_decision id d g) q ≡ true) ↔ (
        (has_grant g q ≡ true)
        ⊎ ((d ≡ approved_for_session) × (request_grant_key q ≡ request_grant_key r)))
unfolding has_grant
has_grant-resolve id d g r q e ne h =
    rw (grants_after id d g r e h) (granted-add_grant d r q g.grants ne)
