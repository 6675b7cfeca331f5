-- ===== src/Workflow/Begins.antt =====
-- internal/workflow/workflow.go: what `Active` sees after `Start`, and the two locks of `CompleteActive`.
use foya.Prelude.{
  ℕ, ◌≡◌, refl, sym, ap, ◌∙◌, subst, arith, inl, inr, Bool, true, false, ◌&&◌, Option, none, some,
  List, [], ◌∷◌, is_empty, exists, Text, text_eq, text_eq_refl, trim_space, Bool-cases,
}
use foya.Prelude.Map.{Map, lookup, insert, lookup-insert_self}
use foya.Prelude.Result.{ok}
use foya.Workflow.{
  Record, Manager, Kind, ready, closed, is_active, active_record, latest, latest_from, if_named,
  valid_kind, persist,
}
use foya.Workflow.Changes.{
  is_spec, start, close, close_if, close_open, new_record, write_artifact, begin_completion, stores,
  update, with_status, finish,
}
use foya.Workflow.Valid.{IsValid, active_record-kept}
use foya.Workflow.Kept.{completion_if-stores}

latest_from-none :
    (p : Record → Bool) (acc : Option Record) (m : Map Record)
    → exists (λ e. p e.1) m ≡ false
    → latest_from p acc m ≡ acc
unfolding latest_from exists
latest_from-none p acc [] h = refl
latest_from-none p acc ((k, r) ∷ m) h =
    let no_match : p r ≡ false = ground arith in
    rw (no_match) (latest_from-none p acc m (ground arith))

latest_from-insert :
    (p : Record → Bool) (k : Text) (r : Record) (m : Map Record)
    → exists (λ e. p e.1) m ≡ false
    → p r ≡ true
    → latest_from p none (insert k r m) ≡ some r
unfolding latest_from exists insert
latest_from-insert p k r [] h t = rw (t) refl
latest_from-insert p k r ((j, q) ∷ m) h t =
    let no_match : p q ≡ false = ground arith in
    let rest : exists (λ e. p e.1) m ≡ false = ground arith in
    elim (Bool-cases (text_eq j k)) [
      | inl e ↦ rw (e, insert, t, latest_from) (latest_from-none p (some r) m rest)
      | inr e ↦ rw (e, insert, no_match, latest_from) (latest_from-insert p k r m rest t)
    ]

-- The records that `Active` looks at.
abbrev counts : Text → Record → Bool
counts s r = text_eq r.session_id s && is_active r.status

close_if-counts : (s : Text) (now : ℕ) (r : Record) → counts s (close_if s now r) ≡ false
close_if-counts s now r = ground arith

close_open-counts :
    (s : Text) (now : ℕ) (m : Map Record) → exists (λ e. counts s e.1) (close_open s now m) ≡ false
unfolding exists close_open
close_open-counts s now [] = refl
close_open-counts s now ((k, r) ∷ m) = rw (close_if-counts s now r) (close_open-counts s now m)

module _ (join : List Text → Text) (dir : Text → Text) (file : Text) where
  -- Whatever the state, a start with a kind and a goal whose writes succeed makes the new workflow the
  -- session's active one.
  pub start-active :
      (id s : Text) (k : Kind) (g project : Text) (now : ℕ) (m : Manager)
      → valid_kind k ≡ true
      → is_empty (trim_space g) ≡ false
      → is_empty id ≡ false
      → write_artifact join dir file true
          (new_record join dir file id s k (trim_space g) project now)
        ≡ none
      → let r = new_record join dir file id s k (trim_space g) project now in
        let (m', result) = start join dir file id s k g project now true true m in
        (result ≡ ok r) × (active_record s m'.records ≡ some r)
  unfolding start active_record latest
  start-active id s k g project now m kind goal named w =
      let r = new_record join dir file id s k (trim_space g) project now in
      let found : latest_from (counts s) none (insert id r (close_open s now m.records)) ≡ some r =
        latest_from-insert (counts s) id r (close_open s now m.records)
          (close_open-counts s now m.records) (ground (arith, text_eq_refl s)) in
      let seen : if_named (some r) ≡ some r = rw (named) refl in
      rw (kind, goal, w, start) (refl, ap if_named found ∙ seen)

  write_artifact-plain :
      (r : Record) → is_spec r.kind ≡ false → write_artifact join dir file true r ≡ none
  unfolding write_artifact
  write_artifact-plain r h = rw (h) refl

  close-closes :
      (s id : Text) (now : ℕ) (m : Manager) (r : Record)
      → lookup id m.records ≡ some r
      → text_eq r.session_id s ≡ true
      → is_active r.status ≡ true
      → is_spec r.kind ≡ false
      → close join dir file s id now true true m ≡ (
        persist (record m { records = insert id (with_status closed now r) m.records }),
        ok (with_status closed now r),
      )
  unfolding close
  close-closes s id now m r e own act plain =
      rw (e, close, own, act, write_artifact-plain (with_status closed now r) plain, finish) refl

  update-readies :
      (id content : Text) (now : ℕ) (m : Manager) (q : Record)
      → lookup id m.records ≡ some q
      → is_empty (trim_space content) ≡ false
      → is_spec q.kind ≡ false
      → (x : Record) × (lookup id (update join dir file id ready content now true true m).0.records
          ≡ some x)
        × (x.status ≡ ready)
  unfolding update
  update-readies id content now m q e full plain =
      let x = with_status ready now (record q { content = trim_space content }) in
      (
        x,
        rw (full, e, update, write_artifact-plain x plain, finish)
            (lookup-insert_self id x m.records),
        refl,
      )

  -- `CompleteActive` looks for the active workflow under one lock and stores its content under another.
  -- If the user closes the workflow in between, the closed workflow becomes ready again.
  pub complete-reopens :
      (s content : Text) (now at_end : ℕ) (m : Manager) (r : Record)
      → IsValid m.records
      → begin_completion s m ≡ stores r
      → is_empty (trim_space content) ≡ false
      → let between = (close join dir file s r.id now true true m).0 in
        let ended = (update join dir file r.id ready content at_end true true between).0 in
        ((close join dir file s r.id now true true m).1 ≡ ok (with_status closed now r))
        × ((q : Record) × (lookup r.id ended.records ≡ some q) × (q.status ≡ ready))
  unfolding begin_completion close update
  complete-reopens s content now at_end m r v h full =
      let (a, t, plain) = completion_if-stores (active_record s m.records) r h in
      let (found, own, act) = active_record-kept s m.records r v a in
      let q = with_status closed now r in
      let e = close-closes s r.id now m r found own act plain in
      let m' = persist (record m { records = insert r.id q m.records }) in
      let (x, l, st) =
        update-readies r.id content at_end m' q (lookup-insert_self r.id q m.records) full plain in
      (
        ap (λ y. y.1) e,
        (
          x,
          subst
              (λ y.
                lookup r.id (update join dir file r.id ready content at_end true true y).0.records
                ≡ some x)
              (sym (ap (λ y. y.0) e)) l,
          st,
        ),
      )
