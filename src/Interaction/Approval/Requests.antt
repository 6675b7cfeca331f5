-- ===== src/Interaction/Approval/Requests.antt =====
-- internal/interaction/approval.go: how a request may come to be approved.
use foya.Prelude.{
  ◌≡◌, ◌≢◌, refl, inl, inr, true, ◌||◌, Option, none, some, arith, Text, text_eq, text_eq_sound,
  subst, Bool-cases, Option-cases,
}
use foya.Interaction.Approval.{
  Mode, manual, auto, full_access, other, Decision, auto_approve, approved, approved_for_session,
  denied, unknown, Error, Request, Review, Context, mode_from_context, Gateway, has_grant, Outcome,
  decided, waits, fill, hook_decision, hook_outcome, review_outcome, guardian_outcome, prompt,
  read_action, request, valid_mode, is_full_access,
}

-- A reviewer's approval.
abbrev pub Reviewed : Context → Request → Type 0
Reviewed c r =
    (review : Request → Option Review) × (v : Review) × (c.reviewer ≡ some review)
    × (review r ≡ some v)
    × (v.is_approved ≡ true)

-- Why a request passes with no user.
pub data Allowed (c : Context) (g : Gateway) (r : Request) : Type 0 where
  by_mode : mode_from_context c ≡ full_access → Allowed c g r
  by_read : r.action ≡ read_action → Allowed c g r
  by_grant : has_grant g r ≡ true → Allowed c g r
  by_hook : hook_decision c r ≡ some auto_approve → Allowed c g r
  by_reviewer : mode_from_context c ≡ auto → Reviewed c r → Allowed c g r

-- An outcome that lets the call pass has the reason `P`, and no error.
abbrev Passes : Type 0 → Outcome → Type 0
Passes P (waits r) = Unit {0}
Passes P (decided denied e) = Unit {0}
Passes P (decided d e) = P × (e ≡ none)

review_outcome-Passes :
    (P : Type 0) (v : Option Review)
    → ((w : Review) → v ≡ some w → w.is_approved ≡ true → P)
    → Passes P (review_outcome v)
review_outcome-Passes P none h = tt
review_outcome-Passes P (some w) h = elim (Bool-cases w.is_approved) [
  | inl yes_it_is ↦ rw (yes_it_is) (h w refl yes_it_is, refl)
  | inr no_it_is ↦ rw (no_it_is) tt
]

guardian_outcome-Passes :
    (P : Type 0) (c : Context) (r : Request) → (Reviewed c r → P) → Passes P (guardian_outcome c r)
guardian_outcome-Passes P c r h = elim (Option-cases c.reviewer) [
  | inl e ↦ rw (e) tt
  | inr (review, e) ↦ rw (e) (review_outcome-Passes P (review r) (λ w f a. h (review, w, e, f, a)))
]

prompt-Passes :
    (c : Context) (g : Gateway) (r : Request) (m : Mode)
    → mode_from_context c ≡ m
    → Passes (Allowed c g r) (prompt c r m g).1
prompt-Passes c g r auto h = guardian_outcome-Passes (Allowed c g r) c r (by_reviewer h)
prompt-Passes c g r manual h = tt
prompt-Passes c g r full_access h = tt
prompt-Passes c g r (other t) h = tt

hook_outcome-Passes :
    (c : Context) (g : Gateway) (r : Request) (d : Decision)
    → hook_decision c r ≡ some d
    → Passes (Allowed c g r) (hook_outcome d)
hook_outcome-Passes c g r auto_approve h = (by_hook h, refl)
hook_outcome-Passes c g r approved h = tt
hook_outcome-Passes c g r approved_for_session h = tt
hook_outcome-Passes c g r denied h = tt
hook_outcome-Passes c g r (unknown t) h = tt

is_full_access-full : (m : Mode) → is_full_access m ≡ true → m ≡ full_access
is_full_access-full full_access h = refl
is_full_access-full manual h = cc
is_full_access-full auto h = cc
is_full_access-full (other t) h = cc

passes_at_once :
    (c : Context) (g : Gateway) (r : Request)
    → (is_full_access (mode_from_context c) || text_eq r.action read_action) ≡ true
    → Allowed c g r
passes_at_once c g r h = elim (Bool-cases (is_full_access (mode_from_context c))) [
  | inl full ↦ by_mode (is_full_access-full (mode_from_context c) full)
  | inr part ↦ by_read (text_eq_sound r.action read_action (ground arith))
]

request-Passes :
    (c : Context) (new_id : Text) (r : Request) (g : Gateway)
    → Passes (Allowed c g (fill c new_id r)) (request c new_id r g).1
unfolding request
request-Passes c new_id r0 g =
    let r = fill c new_id r0 in
    elim (Bool-cases (valid_mode (mode_from_context c))) [
      | inr bad ↦ rw (bad) tt
      | inl good ↦
          elim (Bool-cases (is_full_access (mode_from_context c) || text_eq r.action read_action)) [
            | inl pass ↦ rw (good, pass) (passes_at_once c g r pass, refl)
            | inr stay ↦ elim (Bool-cases (has_grant g r)) [
              | inl granted ↦ rw (good, stay, granted) (by_grant granted, refl)
              | inr fresh ↦ elim (Option-cases (hook_decision c r)) [
                | inl e ↦ rw (good, stay, fresh, e) (prompt-Passes c g r (mode_from_context c) refl)
                | inr (d, e) ↦ rw (good, stay, fresh, e) (hook_outcome-Passes c g r d e)
              ]
            ]
          ]
    ]

passing :
    (P : Type 0) (d : Decision) (e : Option Error)
    → Passes P (decided d e)
    → d ≢ denied
    → P × (e ≡ none)
passing P denied e p ne = absurd (ne refl)
passing P auto_approve e p ne = p
passing P approved e p ne = p
passing P approved_for_session e p ne = p
passing P (unknown t) e p ne = p

-- A request that is decided at once and not denied has one of the five reasons, and carries no
-- error.
pub request-Allowed :
    (c : Context) (new_id : Text) (r : Request) (g : Gateway) (d : Decision) (e : Option Error)
    → (request c new_id r g).1 ≡ decided d e
    → d ≢ denied
    → Allowed c g (fill c new_id r) × (e ≡ none)
request-Allowed c new_id r g d e h ne =
    passing (Allowed c g (fill c new_id r)) d e
      (subst (Passes (Allowed c g (fill c new_id r))) h (request-Passes c new_id r g)) ne
