-- ===== src/Workflow/Kept.antt =====
-- Each operation of internal/workflow/workflow.go and the invariant of the records.
use foya.Prelude.{
  ℕ, ◌≡◌, refl, ap, sym, ◌∙◌, not, ◌||◌, subst, arith, inl, inr, Bool, true, false, Option, none,
  some, List, is_empty, Text, text_eq, trim_space, Bool-cases, Option-cases,
}
use foya.Prelude.Map.{lookup, insert, insert-restores}
use foya.Workflow.{
  Status, valid_status, is_open, Record, Manager, Kind, ready, approved, closed, is_active,
  valid_kind,
}
use foya.Workflow.Changes.{
  start, approve, close, is_closed, completion_if, end_completion, Completion, nothing, incomplete,
  done, stores, update, finish, write_artifact, with_status, is_ready, is_started, close_open,
  new_record, is_spec,
}
use foya.Workflow.Valid.{
  IsValid, insert-IsValid, close_open-IsValid, close_open-Fits, delete-IsValid, replace-IsValid,
}

-- The workflow that is found is open, if there is one.
abbrev pub is_open_if : Option Record → Bool
is_open_if none = true
is_open_if (some r) = is_open r.status

pub completion_if-stores :
    (o : Option Record) (r : Record)
    → completion_if o ≡ stores r
    → (o ≡ some r) × (is_started r.status ≡ true) × (is_spec r.kind ≡ false)
completion_if-stores none r h = cc
completion_if-stores (some q) r h = elim (Bool-cases (is_spec q.kind)) [
  | inl sp ↦ ground (arith, h)
  | inr no_spec ↦ elim (Bool-cases (is_started q.status)) [
    | inr other ↦ ground (arith, h)
    | inl is ↦
        let e : q ≡ r = ground (arith, h) in
        (
          ap some e,
          subst (λ x. is_started x.status ≡ true) e is,
          subst (λ x. is_spec x.kind ≡ false) e no_spec,
        )
  ]
]

module _ (join : List Text → Text) (dir : Text → Text) (file : Text) where
  finish-IsValid :
      (failed : Manager) (written saves : Bool) (r : Record) (m : Manager)
      → IsValid failed.records
      → IsValid m.records
      → IsValid (finish join dir file failed written saves r m).0.records
  finish-IsValid failed written saves r m f v =
      elim (Option-cases (write_artifact join dir file written r)) [
        | inr (e, w) ↦ rw (w, finish) f
        | inl w ↦ elim (Bool-cases saves) [
          | inl s ↦ rw (w, finish, s) v
          | inr s ↦ rw (w, finish, s) f
        ]
      ]

  pub start-IsValid :
      (id s : Text) (k : Kind) (g project : Text) (now : ℕ) (written saves : Bool) (m : Manager)
      → IsValid m.records
      → IsValid (start join dir file id s k g project now written saves m).0.records
  unfolding start
  start-IsValid id s k g project now written saves m v =
      let r = new_record join dir file id s k (trim_space g) project now in
      let rest = close_open s now m.records in
      let stored : IsValid (insert id r rest) =
        insert-IsValid id r rest (close_open-Fits s now m.records r refl)
          (close_open-IsValid s now m.records v) in
      elim (Bool-cases (valid_kind k)) [
        | inr bad ↦ rw (bad) v
        | inl good ↦ elim (Bool-cases (is_empty (trim_space g))) [
          | inl blank ↦ rw (good, blank) v
          | inr goal ↦ elim (Option-cases (write_artifact join dir file written r)) [
            | inr (e, w) ↦ rw (good, goal, w) (close_open-IsValid s now m.records v)
            | inl w ↦ elim (Bool-cases saves) [
              | inl p ↦ rw (good, goal, w, p) stored
              | inr p ↦ rw (good, goal, w, p) (delete-IsValid id (insert id r rest) stored)
            ]
          ]
        ]
      ]

  pub approve-IsValid :
      (id : Text) (now : ℕ) (written saves : Bool) (m : Manager)
      → IsValid m.records
      → IsValid (approve join dir file id now written saves m).0.records
  unfolding approve
  approve-IsValid id now written saves m v = elim (Option-cases (lookup id m.records)) [
    | inl e ↦ rw (e, approve) v
    | inr (r, e) ↦ elim (Bool-cases (is_ready r.status)) [
      | inr no_ready ↦ rw (e, approve, no_ready) v
      | inl is ↦
          let r' = with_status approved now r in
          let m' = record m { records = insert id r' m.records } in
          let kept = replace-IsValid id r r' m.records e refl refl (λ o. ground (arith, is)) v in
          rw (e, approve, is) (finish-IsValid m' written saves r' m' kept kept)
    ]
  ]

  pub close-IsValid :
      (s id : Text) (now : ℕ) (written saves : Bool) (m : Manager)
      → IsValid m.records
      → IsValid (close join dir file s id now written saves m).0.records
  unfolding close
  close-IsValid s id now written saves m v = elim (Option-cases (lookup id m.records)) [
    | inl e ↦ rw (e, close) v
    | inr (r, e) ↦ elim (Bool-cases (text_eq r.session_id s)) [
      | inr foreign ↦ rw (e, close, foreign) v
      | inl own ↦ elim (Bool-cases (is_active r.status)) [
        | inr settled ↦ rw (e, close, own, settled) v
        | inl is ↦
            let r' = with_status closed now r in
            let m' = record m { records = insert id r' m.records } in
            let kept = replace-IsValid id r r' m.records e refl refl (λ o. ground (arith, is)) v in
            let back = insert-restores id r r' m.records e in
            rw (e, close, own, is)
              (finish-IsValid (record m' { records = insert id r m'.records }) written saves r' m'
                (rw (back) v) kept)
      ]
    ]
  ]

  pub update-IsValid :
      (id : Text) (st : Status) (content : Text) (now : ℕ) (written saves : Bool) (m : Manager)
      → is_open_if (lookup id m.records) ≡ true
      → IsValid m.records
      → IsValid (update join dir file id st content now written saves m).0.records
  unfolding update
  update-IsValid id st content now written saves m still v =
      elim (Bool-cases (not (valid_status st) || is_closed st)) [
        | inl bad ↦ rw (bad) v
        | inr good ↦ elim (Bool-cases (is_empty (trim_space content))) [
          | inl blank ↦ rw (good, blank) v
          | inr full ↦ elim (Option-cases (lookup id m.records)) [
            | inl e ↦ rw (good, full, e) v
            | inr (r, e) ↦
                let r' = with_status st now (record r { content = trim_space content }) in
                let m' = record m { records = insert id r' m.records } in
                let was : is_open r.status ≡ true = sym (ap is_open_if e) ∙ still in
                let kept = replace-IsValid id r r' m.records e refl refl (λ o. was) v in
                rw (good, full, e) (finish-IsValid m' written saves r' m' kept kept)
          ]
        ]
      ]

  pub end_completion-IsValid :
      (c : Completion) (content : Text) (now : ℕ) (written saves : Bool) (m : Manager)
      → ((r : Record) → c ≡ stores r → is_open_if (lookup r.id m.records) ≡ true)
      → IsValid m.records
      → IsValid (end_completion join dir file c content now written saves m).0.records
  end_completion-IsValid nothing content now written saves m h v = v
  end_completion-IsValid incomplete content now written saves m h v = v
  end_completion-IsValid (done r) content now written saves m h v = v
  end_completion-IsValid (stores r) content now written saves m h v =
      update-IsValid r.id ready content now written saves m (h r refl) v
