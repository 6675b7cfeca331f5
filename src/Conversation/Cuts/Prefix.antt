-- ===== src/Conversation/Cuts/Prefix.antt =====
-- internal/conversation/compaction.go, `safePrefixCut`: what stands before a cut.
use foya.Prelude.{
  ℕ, zero, suc, ◌+◌, ◌-◌, ◌≤◌, ◌≡◌, sym, ap, ◌∙◌, true, false, ◌||◌, not, List, [], ◌∷◌, ◌++◌,
  length, arith, take, ltb, subst, Bool-cases, inl, inr,
}
use foya.Prelude.Names.{subset}
use foya.Conversation.Cuts.{
  MessageEvent, is_tool, has_calls, call_ids, results, after_results, result_ids, is_answered,
  groups_from, atomic_groups, cut_from, safe_prefix_cut,
}
use foya.Conversation.Cuts.Groups.{
  results-append, length-results, results-AllTools, AllTools, is_answered-subset,
}

-- A history that a provider accepts: messages that call no tool and are no tool's result, and calls
-- that are followed by a result for each of them.
pub data Dialogue : List MessageEvent → Type 0 where
  done : Dialogue []
  single :
      {rest : List MessageEvent} (e : MessageEvent)
      → is_tool e ≡ false
      → has_calls e ≡ false
      → Dialogue rest
      → Dialogue (e ∷ rest)
  exchange :
      {es rest : List MessageEvent} (e : MessageEvent) (rs : List MessageEvent)
      → has_calls e ≡ true
      → AllTools rs
      → subset (call_ids e) (result_ids rs) ≡ true
      → es ≡ rs ++ rest
      → Dialogue rest
      → Dialogue (e ∷ es)

take-append-more {ℓ} :
    {A : Type ℓ} (m : ℕ) (xs ys : List A) → take (length xs + m) (xs ++ ys) ≡ xs ++ take m ys
take-append-more m [] ys = let e : 0 + m ≡ m = omega arith in rw (e)
take-append-more m (x ∷ xs) ys =
    let e : suc (length xs) + m ≡ suc (length xs + m) = omega arith in
    rw (e) (ap (◌∷◌ x) (take-append-more m xs ys))

-- A cut of the groups from the index `i` on.
record IsCut (d i c : ℕ) (es : List MessageEvent) : Type 0 where
  from : i ≤ c
  within : c ≤ i + length es
  most : i ≤ d → c ≤ d
  before : Dialogue (take (c - i) es)

no-IsCut : (d i : ℕ) (es : List MessageEvent) → IsCut d i i es
no-IsCut d i es = record {
  from = omega arith;
  within = omega arith;
  most = λ h. h;
  before = let e : i - i ≡ 0 = omega arith in rw (e) done;
}

IsCut-single :
    (d i c : ℕ) (e : MessageEvent) (es : List MessageEvent)
    → suc i ≤ d
    → has_calls e ≡ false
    → is_tool e ≡ false
    → IsCut d (suc i) c es
    → IsCut d i c (e ∷ es)
IsCut-single d i c e es h plain no_tool r = record {
  from = omega (arith, r.from);
  within = omega (arith, r.within);
  most = λ l. r.most h;
  before =
      let k : c - i ≡ suc (c - suc i) = omega (arith, r.from) in
      rw (k) (single e no_tool plain r.before);
}

IsCut-exchange :
    (d i c : ℕ) (e : MessageEvent) (es : List MessageEvent)
    → suc i + length (results es) ≤ d
    → has_calls e ≡ true
    → is_answered e (results es) ≡ true
    → IsCut d (suc i + length (results es)) c (after_results es)
    → IsCut d i c (e ∷ es)
IsCut-exchange d i c e es h calls answered r =
    let rs = results es in
    let m = c - (suc i + length rs) in
    record {
      from = omega (arith, r.from);
      within = omega (arith, r.within, length-results es);
      most = λ l. r.most h;
      before =
          let k : c - i ≡ suc (length rs + m) = omega (arith, r.from) in
          rw (k) (
            exchange e rs calls (results-AllTools es) (is_answered-subset e rs answered)
              (ap (take (length rs + m)) (sym (results-append es))
                ∙ take-append-more m rs (after_results es))
              r.before);
    }

cut_from-IsCut :
    (n d i : ℕ) (es : List MessageEvent) → IsCut d i (cut_from d i (groups_from n i es)) es
unfolding groups_from cut_from
cut_from-IsCut zero d i es = no-IsCut d i es
cut_from-IsCut (suc n) d i [] = no-IsCut d i []
cut_from-IsCut (suc n) d i (e ∷ es) = elim (Bool-cases (has_calls e)) [
  | inl calls ↦
      elim (Bool-cases (ltb d (suc i + length (results es)) || not (is_answered e (results es)))) [
        | inl stop ↦ rw (calls, stop) (no-IsCut d i (e ∷ es))
        | inr more ↦
            rw (calls, more)
              (IsCut-exchange d i _ e es (ground arith) calls (ground arith)
                (cut_from-IsCut n d (suc i + length (results es)) (after_results es)))
      ]
  | inr plain ↦ elim (Bool-cases (ltb d (suc i) || not (not (is_tool e)))) [
    | inl stop ↦ rw (plain, stop) (no-IsCut d i (e ∷ es))
    | inr more ↦
        rw (plain, more)
          (IsCut-single d i _ e es (ground arith) plain (ground arith)
            (cut_from-IsCut n d (suc i) es))
  ]
]

-- A safe cut is no later than desired and within the history, and the messages before it are a
-- history that a provider accepts: each message there that calls tools is followed there by a result
-- for every call, and tool results stand only after such a message.
pub safe_prefix_cut-Dialogue :
    (content : List MessageEvent) (desired : ℕ)
    → let cut = safe_prefix_cut (atomic_groups content) desired in
      (cut ≤ desired) × (cut ≤ length content) × Dialogue (take cut content)
unfolding safe_prefix_cut atomic_groups
safe_prefix_cut-Dialogue content desired =
    let r = cut_from-IsCut (length content) desired 0 content in
    let c = cut_from desired 0 (groups_from (length content) 0 content) in
    let e : c - 0 ≡ c = omega arith in
    (
      r.most (omega arith),
      omega (arith, r.within),
      subst (λ k. Dialogue (take k content)) e r.before,
    )
