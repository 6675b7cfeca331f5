-- ===== src/Conversation/Cuts/Plans.antt =====
-- internal/conversation/compaction.go, `planBoundary`: the cut of each phase.
use foya.Prelude.{
  ℕ, ◌+◌, ◌≤◌, ◌<◌, ◌≡◌, refl, Option, none, some, List, [], ◌∷◌, length, arith, take, ltb, subst,
  Bool-cases, Option-cases, inl, inr, zero, suc, ap, ◌∙◌, sym, true, false, get_elem?,
}
use foya.Conversation.Cuts.{
  MessageEvent, Role, user, assistant, system, tool, is_user, AtomicGroup, Phase, standalone,
  pre_turn, mid_turn, auto, other, Boundary, some_cut, mid_turn_cut, atomic_groups, cut_from,
  safe_prefix_cut, last_user_index, head_group, complete_but_last, seq_at, plan_boundary,
}
use foya.Conversation.Cuts.Groups.{Chain, atomic_groups-Chain}
use foya.Conversation.Cuts.Prefix.{Dialogue, safe_prefix_cut-Dialogue}

complete_but_last-cut :
    (i j c : ℕ) (gs : List AtomicGroup)
    → Chain i gs j
    → complete_but_last gs ≡ some c
    → (cut_from c i gs ≡ c) × (i < c) × (c < j)
unfolding complete_but_last cut_from
complete_but_last-cut i j c [] h e = cc
complete_but_last-cut i j c (g ∷ []) h e = cc
complete_but_last-cut i j c (g ∷ g' ∷ []) h e = ground arith
complete_but_last-cut i j c (g ∷ g' ∷ g'' ∷ gs) h e =
    ground (arith, complete_but_last-cut g.end j c (g' ∷ g'' ∷ gs))

-- The message at `u` is the user's, and none after it is.
pub record IsLastUser (content : List MessageEvent) (u : ℕ) (e : MessageEvent) : Type 0 where
  pub there : get_elem? content u ≡ some e
  pub of_user : e.message.role ≡ user
  pub last :
      (j : ℕ) (f : MessageEvent) → u < j → get_elem? content j ≡ some f → ¬ (f.message.role ≡ user)

role-user : (r : Role) → elim r [ user ↦ true | _ ↦ false ] ≡ true → r ≡ user
role-user user h = refl
role-user assistant h = cc
role-user system h = cc
role-user tool h = cc

is_user-not : (e : MessageEvent) → is_user e ≡ false → ¬ (e.message.role ≡ user)
is_user-not e h r = cc (sym h ∙ ap (λ x. elim x [ user ↦ true | _ ↦ false ]) r)

last_user_index-none :
    (es : List MessageEvent)
    → last_user_index es ≡ none
    → (j : ℕ) (f : MessageEvent) → get_elem? es j ≡ some f
    → ¬ (f.message.role ≡ user)
unfolding last_user_index
last_user_index-none [] h = λ j f g. cc
last_user_index-none (e ∷ es) h = elim (Option-cases (last_user_index es)) [
  | inr (i, k) ↦ absurd (ground (arith, h, k))
  | inl k ↦ elim (Bool-cases (is_user e)) [
    | inl is ↦ absurd (ground (arith, h, k, is))
    | inr foreign ↦ λ j f g. at (last_user_index-none es k) foreign j f g
  ]
]
  where
    at :
        ((j : ℕ) (f : MessageEvent) → get_elem? es j ≡ some f → ¬ (f.message.role ≡ user))
        → is_user e ≡ false
        → (j : ℕ) (f : MessageEvent) → get_elem? (e ∷ es) j ≡ some f
        → ¬ (f.message.role ≡ user)
    at h foreign zero f g =
        let same : e ≡ f = cc in
        subst (λ (x : MessageEvent). ¬ (x.message.role ≡ user)) same (is_user-not e foreign)
    at h foreign (suc j) f g = h j f g

last_user_index-IsLastUser :
    (es : List MessageEvent) (u : ℕ)
    → last_user_index es ≡ some u
    → (e : MessageEvent) × IsLastUser es u e
unfolding last_user_index
last_user_index-IsLastUser [] u h = cc
last_user_index-IsLastUser (e ∷ es) u h = elim (Option-cases (last_user_index es)) [
  | inr (i, k) ↦
      let (x, l) = last_user_index-IsLastUser es i k in
      subst (λ n. (y : MessageEvent) × IsLastUser (e ∷ es) n y) (ground (arith, h, k))
        (x, record { there = l.there; of_user = l.of_user; last = later i x l })
  | inl k ↦ elim (Bool-cases (is_user e)) [
    | inr foreign ↦ absurd (ground (arith, h, k, foreign))
    | inl is ↦
        subst (λ n. (y : MessageEvent) × IsLastUser (e ∷ es) n y) (ground (arith, h, k, is))
          (e, record { there = refl; of_user = role-user e.message.role is; last = none_later k })
  ]
]
  where
    later :
        (i : ℕ) (x : MessageEvent)
        → IsLastUser es i x
        → (j : ℕ) (f : MessageEvent) → suc i < j
        → get_elem? (e ∷ es) j ≡ some f
        → ¬ (f.message.role ≡ user)
    later i x l zero f less g = absurd (omega arith)
    later i x l (suc j) f less g = l.last j f (omega arith) g

    none_later :
        last_user_index es ≡ none
        → (j : ℕ) (f : MessageEvent) → 0 < j
        → get_elem? (e ∷ es) j ≡ some f
        → ¬ (f.message.role ≡ user)
    none_later k zero f less g = absurd (omega arith)
    none_later k (suc j) f less g = last_user_index-none es k j f g

seq_at-there :
    (content : List MessageEvent) (u : ℕ) (e : MessageEvent)
    → get_elem? content u ≡ some e
    → seq_at content u ≡ e.seq
seq_at-there content u e h = rw (h, seq_at) refl

-- What a boundary promises in each phase. The last user's message stays before a turn, and is the
-- anchor of what is folded within a turn, where the last message stays too.
abbrev pub Placed : List MessageEvent → Phase → Boundary → Type 0
Placed content standalone b = b.anchor ≡ 0
Placed content pre_turn b =
    (b.anchor ≡ 0) × ((u : ℕ) × (e : MessageEvent) × IsLastUser content u e × (b.cut ≤ u))
Placed content mid_turn b =
    (u : ℕ) × (e : MessageEvent) × IsLastUser content u e
    × (b.anchor ≡ e.seq)
    × (u + 1 < b.cut)
    × (b.cut < length content)
Placed content _ b = ⊥

pub record IsPlanned (content : List MessageEvent) (phase : Phase) (b : Boundary) : Type 0 where
  pub some_messages : 0 < b.cut
  pub within : b.cut ≤ length content
  pub before : Dialogue (take b.cut content)
  pub placed : Placed content phase b

abbrev Planned : List MessageEvent → Phase → Option Boundary → Type 0
Planned content phase none = Unit {0}
Planned content phase (some b) = IsPlanned content phase b

some_cut-Planned :
    (content : List MessageEvent) (phase : Phase) (desired : ℕ)
    → let cut = safe_prefix_cut (atomic_groups content) desired in
      (0 < cut → Placed content phase (record { cut = cut; anchor = 0 }))
      → Planned content phase (some_cut cut)
some_cut-Planned content phase desired h =
    let cut = safe_prefix_cut (atomic_groups content) desired in
    let (below, within, before) = safe_prefix_cut-Dialogue content desired in
    elim (Bool-cases (ltb 0 cut)) [
      | inr nothing ↦ rw (nothing) tt
      | inl more ↦ rw (more) (record {
        some_messages = ground arith;
        within = within;
        before = before;
        placed = h (ground arith);
      })
    ]

mid_turn_cut-Planned :
    (content : List MessageEvent) (u : ℕ)
    → last_user_index content ≡ some u
    → Planned content mid_turn (mid_turn_cut content (atomic_groups content) u)
unfolding safe_prefix_cut
mid_turn_cut-Planned content u e = elim (Option-cases (head_group u (atomic_groups content))) [
  | inl f ↦ rw (f, mid_turn_cut) tt
  | inr (head, f) ↦ elim (Bool-cases (ltb (length (atomic_groups content)) (head + 3))) [
    | inl few ↦ rw (f, mid_turn_cut, few) tt
    | inr enough ↦ elim (Option-cases (complete_but_last (atomic_groups content))) [
      | inl g ↦ rw (f, mid_turn_cut, enough, g) tt
      | inr (c, g) ↦ elim (Bool-cases (ltb (u + 1) c)) [
        | inr short ↦ rw (f, mid_turn_cut, enough, g, short) tt
        | inl long ↦ rw (f, mid_turn_cut, enough, g, long) (planned c g (ground arith))
      ]
    ]
  ]
]
  where
    planned :
        (c : ℕ)
        → complete_but_last (atomic_groups content) ≡ some c
        → u + 1 < c
        → IsPlanned content mid_turn (record { cut = c; anchor = seq_at content u })
    planned c g long =
        let (same, past, left) =
          complete_but_last-cut 0 (length content) c (atomic_groups content)
            (atomic_groups-Chain content) g in
        let (below, within, before) = safe_prefix_cut-Dialogue content c in
        let (x, l) = last_user_index-IsLastUser content u e in
        record {
          some_messages = omega arith;
          within = omega arith;
          before = subst (λ k. Dialogue (take k content)) same before;
          placed = (u, x, l, seq_at-there content u x l.there, long, left);
        }

plan_boundary-Planned :
    (content : List MessageEvent) (phase : Phase)
    → Planned content phase (plan_boundary content (atomic_groups content) phase)
unfolding plan_boundary
plan_boundary-Planned content standalone =
    some_cut-Planned content standalone (length content) (λ p. refl)
plan_boundary-Planned content pre_turn = elim (Option-cases (last_user_index content)) [
  | inl e ↦ rw (e, plan_boundary) tt
  | inr (u, e) ↦
      let (x, l) = last_user_index-IsLastUser content u e in
      rw (e, plan_boundary)
        (some_cut-Planned content pre_turn u
          (λ p. (refl, (u, x, l, (safe_prefix_cut-Dialogue content u).0))))
]
plan_boundary-Planned content mid_turn = elim (Option-cases (last_user_index content)) [
  | inl e ↦ rw (e, plan_boundary) tt
  | inr (u, e) ↦ rw (e, plan_boundary) (mid_turn_cut-Planned content u e)
]
plan_boundary-Planned content auto = tt
plan_boundary-Planned content (other t) = tt

-- A boundary that is found, in any phase, covers one message or more and ends a history that a
-- provider accepts. Before a turn the last user's message, after which no other message is a user's, is
-- not covered; within a turn it is, its sequence number is the anchor, and the last message of all is
-- not covered.
pub plan_boundary-IsPlanned :
    (content : List MessageEvent) (phase : Phase) (b : Boundary)
    → plan_boundary content (atomic_groups content) phase ≡ some b
    → IsPlanned content phase b
plan_boundary-IsPlanned content phase b e =
    subst (Planned content phase) e (plan_boundary-Planned content phase)
