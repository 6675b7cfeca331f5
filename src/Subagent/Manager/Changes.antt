-- ===== src/Subagent/Manager/Changes.antt =====
-- internal/subagent: a step's change of one run, and the runs that stay.
use foya.Prelude.{
  ℕ, suc, ◌≤◌, ◌<◌, ◌≡◌, refl, sym, ap, ◌∙◌, subst, Bool, true, false, some, List, [], ◌∷◌, arith,
  leb, ◌==◌, ==_iff, count_if, if◌then◌else◌, Text, map, Bool-cases, inl, inr,
}
use foya.Subagent.Manager.{Run, Manager, find_run, modify_run, is_of_root, start}
use foya.Subagent.Manager.Counts.{
  count_if-modify_same, count_if-map_same, count_if-find_run, find_run-id,
}
use foya.Subagent.Manager.Runs.{settle}
use foya.Subagent.Manager.Statuses.{is_final}

-- A later state of a run.
pub record Follows (r r' : Run) : Type 0 where
  pub root : r'.root_run ≡ r.root_run
  pub final : is_final r.status ≡ true → r'.status ≡ r.status
  pub cancelled_still : r.is_cancelled ≡ true → r'.is_cancelled ≡ true

Follows-self : (r : Run) → Follows r r
Follows-self r = record { root = refl; final = λ h. refl; cancelled_still = λ h. h }

pub Follows-trans : (a b c : Run) → Follows a b → Follows b c → Follows a c
Follows-trans a b c f g = record {
  root = g.root ∙ f.root;
  final = λ h. g.final (subst (λ s. is_final s ≡ true) (sym (f.final h)) h) ∙ f.final h;
  cancelled_still = λ h. g.cancelled_still (f.cancelled_still h);
}

-- The run is still there.
abbrev pub Remains : ℕ → Run → List Run → Type 0
Remains id r rs = (r' : Run) × (find_run id rs ≡ some r') × Follows r r'

find_run-modify_run :
    (id j : ℕ) (f : Run → Run) (rs : List Run) (r : Run)
    → ((q : Run) → (f q).id ≡ q.id)
    → find_run id rs ≡ some r
    → find_run id (modify_run j f rs) ≡ some (if j == id then f r else r)
unfolding find_run modify_run
find_run-modify_run id j f [] r h e = cc
find_run-modify_run id j f (q ∷ rs) r h e =
    ground
      (arith, find_run-modify_run id j f rs r h, h q, ==_iff j id, ==_iff q.id id, ==_iff q.id j, e)

find_run-map :
    (id : ℕ) (f : Run → Run) (rs : List Run) (r : Run)
    → ((q : Run) → (f q).id ≡ q.id)
    → find_run id rs ≡ some r
    → find_run id (map f rs) ≡ some (f r)
unfolding find_run
find_run-map id f [] r h e = cc
find_run-map id f (q ∷ rs) r h e = ground (arith, find_run-map id f rs r h, h q, e)

-- No run has a number that is still to be given.
abbrev is_early : ℕ → Run → Bool
is_early n r = leb n r.id

abbrev pub AreGiven : Manager → Type 0
AreGiven m = count_if (is_early m.next_id) m.runs ≡ 0

is_early-suc : (n : ℕ) (rs : List Run) → count_if (is_early (suc n)) rs ≤ count_if (is_early n) rs
unfolding count_if
is_early-suc n [] = omega arith
is_early-suc n (r ∷ rs) = ground (arith, is_early-suc n rs)

found-given :
    (id : ℕ) (r : Run) (m : Manager) → find_run id m.runs ≡ some r → AreGiven m → id < m.next_id
found-given id r m e g = elim (Bool-cases (is_early m.next_id r)) [
  | inl early ↦
      absurd (omega (arith, count_if-find_run (is_early m.next_id) id m.runs r e early, g))
  | inr late ↦ ground (arith, late, find_run-id id m.runs r e)
]

-- What a step does to the runs, one of them at most.
pub record Change (m m' : Manager) : Type 0 where
  pub given : AreGiven m → AreGiven m'
  pub remains : (id : ℕ) (r : Run) → find_run id m.runs ≡ some r → AreGiven m → Remains id r m'.runs

pub same-Change : (m m' : Manager) → m'.runs ≡ m.runs → m'.next_id ≡ m.next_id → Change m m'
same-Change m m' e n = record {
  given = λ g.
      subst (λ x. count_if (is_early x) m'.runs ≡ 0) (sym n)
        (ap (count_if (is_early m.next_id)) e ∙ g);
  remains = λ id r f g. (r, ap (find_run id) e ∙ f, Follows-self r);
}

pub modify-Change :
    (j : ℕ) (f : Run → Run) (q : Run) (m m' : Manager)
    → find_run j m.runs ≡ some q
    → ((x : Run) → (f x).id ≡ x.id)
    → Follows q (f q)
    → m'.runs ≡ modify_run j f m.runs
    → m'.next_id ≡ m.next_id
    → Change m m'
modify-Change j f q m m' e h w k n = record {
  given = λ g.
      subst (λ x. count_if (is_early x) m'.runs ≡ 0) (sym n)
        (ap (count_if (is_early m.next_id)) k
          ∙ count_if-modify_same (is_early m.next_id) f j m.runs (λ x. ap (leb m.next_id) (h x))
          ∙ g);
  remains = λ id r d g.
      let found = ap (find_run id) k ∙ find_run-modify_run id j f m.runs r h d in
      elim (Bool-cases (j == id)) [
        | inr apart ↦ (r, found ∙ ap (λ b. some (if b then f r else r)) apart, Follows-self r)
        | inl same ↦
            let one : some q ≡ some r =
              sym e ∙ ap (λ i. find_run i m.runs) ((==_iff j id).0 same) ∙ d in
            let it : q ≡ r = cc in
            (
              f r,
              found ∙ ap (λ b. some (if b then f r else r)) same,
              subst (λ (x : Run). Follows x (f x)) it w,
            )
      ];
}

pub map-Change :
    (f : Run → Run) (m m' : Manager)
    → ((x : Run) → (f x).id ≡ x.id)
    → ((x : Run) → Follows x (f x))
    → m'.runs ≡ map f m.runs
    → m'.next_id ≡ m.next_id
    → Change m m'
map-Change f m m' h w k n = record {
  given = λ g.
      subst (λ x. count_if (is_early x) m'.runs ≡ 0) (sym n)
        (ap (count_if (is_early m.next_id)) k
          ∙ count_if-map_same (is_early m.next_id) f m.runs (λ x. ap (leb m.next_id) (h x))
          ∙ g);
  remains = λ id r d g. (f r, ap (find_run id) k ∙ find_run-map id f m.runs r h d, w r);
}

pub start-Change :
    (found : Bool) (rs rr p : Text) (m : Manager) → Change m (settle m (start found rs rr p m))
unfolding start count_if find_run
start-Change false rs rr p m = same-Change m m refl refl
start-Change true rs rr p m =
    elim (Bool-cases (leb m.limits.max_children_per_root (count_if (is_of_root rr) m.runs))) [
      | inl full ↦ rw (full) (same-Change m m refl refl)
      | inr free ↦ rw (free) (record {
        given = λ g. ground (arith, is_early-suc m.next_id m.runs, g);
        remains = λ id r d g.
            (r, ground (arith, found-given id r m d g, ==_iff m.next_id id, d), Follows-self r);
      })
    ]
