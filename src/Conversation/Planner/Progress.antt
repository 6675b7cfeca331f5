-- ===== src/Conversation/Planner/Progress.antt =====
-- internal/conversation/compaction.go, `BuildPlanWithOptions`: what a plan covers.
use foya.Prelude.{
  ℕ, zero, suc, ◌-◌, ◌≤◌, ◌<◌, ◌≡◌, refl, ap, Bool, true, ◌||◌, not, Option, none, some, List, [],
  ◌∷◌, length, arith, take, ltb, leb, ◌==◌, ==_iff, Text, subst, Bool-cases, Option-cases, inl, inr,
  ◌⊎◌,
}
use foya.Conversation.Cuts.{
  Message, MessageEvent, Phase, auto, standalone, pre_turn, mid_turn, other, Boundary,
  atomic_groups, safe_prefix_cut, plan_boundary, seq_at,
}
use foya.Conversation.Cuts.Prefix.{Dialogue, safe_prefix_cut-Dialogue}
use foya.Conversation.Cuts.Plans.{IsPlanned, plan_boundary-IsPlanned}
use foya.Conversation.Checkpoint.{Checkpoint, valid_checkpoint}
use foya.Conversation.Planner.{
  Plan, count_through, passes_user, bounded_cut, start_after, valid_previous, plan_at, build_phase,
  better, build_plan,
}

count_through-seq_at :
    (mx cut k : ℕ) (es : List MessageEvent) → k < count_through mx (take cut es) → seq_at es k ≤ mx
unfolding count_through
count_through-seq_at mx zero k es h = absurd (omega arith)
count_through-seq_at mx (suc cut) k [] h = absurd (omega arith)
count_through-seq_at mx (suc cut) zero (e ∷ es) h = ground arith
count_through-seq_at mx (suc cut) (suc k) (e ∷ es) h =
    count_through-seq_at mx cut k es (ground arith)

-- A cut that covers something, ends a history that a provider accepts and is within the bound.
pub record IsBounded (content : List MessageEvent) (max_through cut : ℕ) : Type 0 where
  pub some_messages : 0 < cut
  pub within : cut ≤ length content
  pub before : Dialogue (take cut content)
  pub bounded : (max_through ≡ 0) ⊎ (seq_at content (cut - 1) ≤ max_through)

abbrev Bounded : List MessageEvent → ℕ → Option ℕ → Type 0
Bounded content mx none = Unit {0}
Bounded content mx (some cut) = IsBounded content mx cut

bound_holds : (mx seq : ℕ) → (mx == 0 || leb seq mx) ≡ true → (mx ≡ 0) ⊎ (seq ≤ mx)
bound_holds mx seq h = elim (Bool-cases (mx == 0)) [
  | inl no_bound ↦ inl (ground (arith, ==_iff mx 0))
  | inr some_bound ↦ inr (ground arith)
]

bounded_cut-Bounded :
    (content : List MessageEvent) (phase : Phase) (mx : ℕ) (b : Boundary)
    → IsPlanned content phase b
    → Bounded content mx (bounded_cut content phase mx b.cut)
unfolding bounded_cut
bounded_cut-Bounded content phase mx b p =
    elim (Bool-cases (mx == 0 || leb (seq_at content (b.cut - 1)) mx)) [
      | inl fits ↦ elim (Bool-cases (b.cut == 0)) [
        | inl nothing ↦ rw (fits, nothing) tt
        | inr more ↦
            rw (fits, more)
              (record {
                some_messages = p.some_messages;
                within = p.within;
                before = p.before;
                bounded = bound_holds mx (seq_at content (b.cut - 1)) fits;
              })
      ]
      | inr over ↦
          let desired = count_through mx (take b.cut content) in
          let cut = safe_prefix_cut (atomic_groups content) desired in
          let (below, within, before) = safe_prefix_cut-Dialogue content desired in
          elim (Bool-cases (cut == 0 || not (passes_user phase content cut))) [
            | inl nothing ↦ rw (over, nothing) tt
            | inr more ↦
                let positive : 0 < cut = ground (arith, ==_iff cut 0) in
                rw (over, more)
                  (record {
                    some_messages = positive;
                    within = within;
                    before = before;
                    bounded = inr (count_through-seq_at mx b.cut (cut - 1) content (omega arith));
                  })
          ]
    ]

module _ (digest : List MessageEvent → Text) (compute_id : Checkpoint → Text)
    (is_json : Text → Bool) (estimate : List Message → ℕ)
    (bound_tool_results : List Message → List Message) where
  -- What a plan covers: within the bound, and more than the previous checkpoint if that is valid.
  pub record IsProgress (content : List MessageEvent) (previous : Option Checkpoint)
      (max_through : ℕ) (p : Plan) : Type 0 where
    pub bounded : IsBounded content max_through p.covered_messages
    pub through : p.through_seq ≡ seq_at content (p.covered_messages - 1)
    pub more :
        (c : Checkpoint)
        → previous ≡ some c
        → valid_checkpoint digest compute_id is_json c content ≡ true
        → c.through_seq < p.through_seq

  abbrev Progress : List MessageEvent → Option Checkpoint → ℕ → Option Plan → Type 0
  Progress content previous mx none = Unit {0}
  Progress content previous mx (some p) = IsProgress content previous mx p

  plan_at-Progress :
      (content : List MessageEvent) (phase : Phase) (previous : Option Checkpoint)
      (anchor mx cut : ℕ)
      → IsBounded content mx cut
      → Progress content previous mx (
          plan_at digest compute_id is_json estimate bound_tool_results content phase
            (valid_previous digest compute_id is_json estimate bound_tool_results content previous)
            anchor
            cut)
  unfolding plan_at
  plan_at-Progress content phase none anchor mx cut b =
      elim (Bool-cases (leb (length (take cut content)) 0)) [
        | inl nothing ↦ rw (nothing) tt
        | inr new ↦ rw (new) (record { bounded = b; through = refl; more = λ c e v. cc })
      ]
  plan_at-Progress content phase (some c) anchor mx cut b =
      elim (Bool-cases (valid_checkpoint digest compute_id is_json c content)) [
        | inr invalid ↦ elim (Bool-cases (leb (length (take cut content)) 0)) [
          | inl nothing ↦ rw (invalid, nothing) tt
          | inr new ↦
              rw (invalid, new)
                (record {
                  bounded = b;
                  through = refl;
                  more = λ c' e v. cc (ap (λ x. valid_of x) e, invalid, v);
                })
        ]
        | inl valid ↦ elim (Bool-cases (leb (seq_at content (cut - 1)) c.through_seq)) [
          | inl old ↦ rw (valid, old) tt
          | inr past ↦
              elim (Bool-cases
                (leb (length (take cut content)) (start_after c.through_seq (take cut content)))) [
                  | inl nothing ↦ rw (valid, past, nothing) tt
                  | inr new ↦
                      rw (valid, past, new)
                        (record {
                          bounded = b;
                          through = refl;
                          more = λ c' e v. ground (arith, ap through_of e);
                        })
                ]
        ]
      ]
    where
      valid_of : Option Checkpoint → Bool
      valid_of none = true
      valid_of (some x) = valid_checkpoint digest compute_id is_json x content

      through_of : Option Checkpoint → ℕ
      through_of none = 0
      through_of (some x) = x.through_seq

  build_phase-Progress :
      (content : List MessageEvent) (previous : Option Checkpoint) (phase : Phase) (mx : ℕ)
      → Progress content previous mx (
          build_phase digest compute_id is_json estimate bound_tool_results content previous phase
            mx)
  unfolding build_phase
  build_phase-Progress content previous phase mx =
      elim (Option-cases (plan_boundary content (atomic_groups content) phase)) [
        | inl e ↦ rw (e, build_phase) tt
        | inr (b, e) ↦ with_cut b e (bounded_cut content phase mx b.cut) refl
      ]
    where
      with_cut :
          (b : Boundary)
          → plan_boundary content (atomic_groups content) phase ≡ some b
          → (o : Option ℕ) → bounded_cut content phase mx b.cut ≡ o
          → Progress content previous mx (
              build_phase digest compute_id is_json estimate bound_tool_results content previous
                phase mx)
      with_cut b e none f = rw (e, build_phase, f) tt
      with_cut b e (some cut) f =
          rw (e, build_phase, f)
            (plan_at-Progress content phase previous b.anchor mx cut (
              subst (Bounded content mx) f (
                bounded_cut-Bounded content phase mx b
                  (plan_boundary-IsPlanned content phase b e))))

  better-Progress :
      (content : List MessageEvent) (previous : Option Checkpoint) (mx : ℕ) (p q : Option Plan)
      → Progress content previous mx p
      → Progress content previous mx q
      → Progress content previous mx (better p q)
  better-Progress content previous mx none none hp hq = tt
  better-Progress content previous mx (some p) none hp hq = hp
  better-Progress content previous mx none (some q) hp hq = hq
  better-Progress content previous mx (some p) (some q) hp hq =
      elim (Bool-cases (ltb p.through_seq q.through_seq)) [
        | inl further ↦ rw (further) hq
        | inr enough ↦ rw (enough) hp
      ]

  build_plan-Progress :
      (content : List MessageEvent) (previous : Option Checkpoint) (phase : Phase) (mx : ℕ)
      → Progress content previous mx (
          build_plan digest compute_id is_json estimate bound_tool_results content previous phase
            mx)
  unfolding build_plan
  build_plan-Progress content previous auto mx =
      better-Progress content previous mx _ _ (build_phase-Progress content previous pre_turn mx)
        (build_phase-Progress content previous mid_turn mx)
  build_plan-Progress content previous standalone mx =
      build_phase-Progress content previous standalone mx
  build_plan-Progress content previous pre_turn mx =
      build_phase-Progress content previous pre_turn mx
  build_plan-Progress content previous mid_turn mx =
      build_phase-Progress content previous mid_turn mx
  build_plan-Progress content previous (other t) mx =
      build_phase-Progress content previous (other t) mx

  -- A plan, of any phase, covers one message or more, ends at the number of the last of them, and what
  -- it covers is a history that a provider accepts. It does not pass the bound where there is one, and
  -- it passes the previous checkpoint where that is valid.
  pub build_plan-IsProgress :
      (content : List MessageEvent) (previous : Option Checkpoint) (phase : Phase) (mx : ℕ)
      (p : Plan)
      → build_plan digest compute_id is_json estimate bound_tool_results content previous phase mx
        ≡ some p
      → IsProgress content previous mx p
  build_plan-IsProgress content previous phase mx p e =
      subst (Progress content previous mx) e (build_plan-Progress content previous phase mx)
