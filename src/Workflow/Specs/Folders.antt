-- ===== src/Workflow/Specs/Folders.antt =====
-- internal/workflow/workflow.go: the folders of specs, and the names that they get.
use foya.Prelude.{
  ℕ, zero, suc, ◌==◌, ◌+◌, Bool, true, false, ◌&&◌, not, Option, none, some, List, [], ◌∷◌, ◌++◌,
  is_empty, if◌then◌else◌, ltb, Text, text, text_eq, trim_space, decimal,
}
use foya.Prelude.Words.{trim_of}
use foya.Prelude.Result.{Result, ok, err}
use foya.Workflow.{Error, unreadable_file, SpecArtifacts, Record}

-- What is written besides letters and numbers becomes dashes, up to 48 bytes; `width` is
-- `utf8.RuneLen` and `is_word` is `unicode.IsLetter` or `unicode.IsNumber`.
module _ (width : ℕ → ℕ) (is_word : ℕ → Bool) where
  unfoldable slug_from : ℕ → Bool → Text → Text
  slug_from size separated [] = []
  slug_from size separated (c ∷ s) = elim (is_word c) [
    | true ↦
        c
        ∷ elim (ltb (size + width c) 48) [ true ↦ slug_from (size + width c) false s | false ↦ [] ]
    | false ↦ elim (not separated && ltb 0 size) [
      | true ↦ 45 ∷ elim (ltb (size + 1) 48) [ true ↦ slug_from (size + 1) true s | false ↦ [] ]
      | false ↦ slug_from size separated s
    ]
  ]

abbrev is_dash : ℕ → Bool
is_dash c = c == 45

-- What `os.Stat` says of a path.
pub data Stat : Type 0 where
  absent present failed : Stat

pub record Paths : Type 0 where
  pub join : List Text → Text
  pub dir : Text → Text
  pub base : Text → Text
  pub ext : Text → Text
  pub stat : Text → Stat
  pub trim_suffix : Text → Text → Text

pub record Letters : Type 0 where
  pub width : ℕ → ℕ
  pub is_word : ℕ → Bool
  pub to_lower : Text → Text

-- `stamp` is the time that stands for a name without letters.
unfoldable pub slugify : Letters → Text → Text → Text
unfolding slug_from trim_of
slugify l stamp value =
    let slug =
      trim_of is_dash (slug_from l.width l.is_word 0 false (l.to_lower (trim_space value))) in
    if is_empty slug then text "spec-" ++ stamp else slug

-- The candidates with a suffix, from `suffix` on.
abbrev pub numbered_candidate : Paths → Text → Text → ℕ → Text
numbered_candidate p root slug suffix = p.join (root ∷ (slug ++ (text "-" ++ decimal suffix)) ∷ [])

-- The loop of `uniqueDirectory` for at most `bound` turns; `none` when they are used up.
unfoldable pub unique_from : ℕ → Paths → Text → Text → Text → ℕ → Option (Result Error Text)
unique_from zero p root slug candidate suffix = none
unique_from (suc bound) p root slug candidate suffix = elim (p.stat candidate) [
  | absent ↦ some (ok candidate)
  | failed ↦ some (err unreadable_file)
  | present ↦ unique_from bound p root slug (numbered_candidate p root slug suffix) (suc suffix)
]

unfoldable pub unique_directory : ℕ → Paths → Text → Text → Option (Result Error Text)
unfolding unique_from
unique_directory bound p root slug = unique_from bound p root slug (p.join (root ∷ slug ∷ [])) 2

abbrev pub documents_in : Paths → Text → SpecArtifacts
documents_in p folder = record {
  spec = p.join (folder ∷ text "spec.md" ∷ []);
  tasks = p.join (folder ∷ text "tasks.md" ∷ []);
  checklist = p.join (folder ∷ text "checklist.md" ∷ []);
}

unfoldable pub ensure_spec_artifacts : Paths → Letters → Text → Record → SpecArtifacts
unfolding slugify
ensure_spec_artifacts p l stamp r = elim r.artifacts [
  | some a ↦ a
  | none ↦
      let stem = p.trim_suffix r.path (p.ext r.path) in
      let root =
        if is_empty r.artifact_root
        then (if text_eq (p.base stem) r.id then p.dir r.path else stem)
        else r.artifact_root in
      let name = if is_empty r.title then r.goal else r.title in
      documents_in p (p.join (root ∷ slugify l stamp name ∷ []))
]
