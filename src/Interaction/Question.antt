-- ===== src/Interaction/Question.antt =====
-- internal/interaction/question.go: batches of questions to the user. The channel on which a call of
-- `Ask` waits is a number, and what is sent to it is kept with that number; the wait's two ends are
-- steps of their own. Times are left out, and the texts of the errors are data.
pub mod Answers
pub mod Channels
mod Examples
use foya.Prelude.{
  ℕ, zero, suc, Bool, true, false, ◌&&◌, ◌||◌, not, Option, none, some, List, [], ◌∷◌, ◌++◌, length,
  is_empty, exists, keep_if, map, ltb, ◌==◌, if◌then◌else◌, Text, text, text_eq, trim_space,
  decimal,
}
use foya.Prelude.Names.{member}
use foya.Prelude.Map.{Map, lookup, insert, delete}
use foya.Prelude.Result.{Result, ok, err, ◌>>=◌, ◌>>◌, reject_if}

pub record Choice : Type 0 where
  pub label : Text
  pub description : Text
  pub recommended : Bool

pub record Question : Type 0 where
  pub id : Text
  pub question : Text
  pub description : Text
  pub options : List Choice
  pub allow_custom : Bool

pub record Batch : Type 0 where
  pub id : Text
  pub session_id : Text
  pub run_id : Text
  pub tool_call_id : Text
  pub questions : List Question

pub record Answer : Type 0 where
  pub question_id : Text
  pub value : Text

-- What is wrong with a batch or with answers.
pub data Fault : Type 0 where
  session_required question_count : Fault
  empty_question duplicate_question many_options : Text → Fault
  answer_count : ℕ → Fault
  unknown_question duplicate_answer empty_answer no_option : Text → Fault

pub data Error : Type 0 where
  invalid_batch : Fault → Error
  not_found cancelled context_done : Error

pub data Resolution : Type 0 where
  answered : List Answer → Resolution
  failed : Error → Resolution

pub data Effect : Type 0 where
  requested : Text → Batch → Effect
  resolved : Text → Text → Text → Effect

pub record Pending : Type 0 where
  pub batch : Batch
  pub channel : ℕ

-- `sent` holds what was put into a channel, latest first; effects are latest first too.
pub record Gateway : Type 0 where
  pub pending : Map Pending
  pub next_channel : ℕ
  pub sent : List (ℕ × Resolution)
  pub effects : List Effect

unfoldable pub new_question_gateway : Gateway
new_question_gateway = record { pending = []; next_channel = 0; sent = []; effects = [] }

abbrev pub is_blank : Text → Bool
is_blank t = is_empty (trim_space t)

abbrev pub name_question : ℕ → Question → Question
name_question i q = if is_empty q.id then record q { id = text "q" ++ decimal (suc i) } else q

-- The loop of `validateBatch` from the question `i` and the names so far on; the questions come back
-- with their names.
unfoldable pub validate_questions : ℕ → List Text → List Question → Result Error (List Question)
validate_questions i ids [] = ok []
validate_questions i ids (q0 ∷ qs) =
    let q = name_question i q0 in
    let rest = validate_questions (suc i) (q.id ∷ ids) qs in
    if is_blank q.question
    then err (invalid_batch (empty_question q.id))
    else if member q.id ids
    then err (invalid_batch (duplicate_question q.id))
    else if ltb 8 (length q.options)
    then err (invalid_batch (many_options q.id))
    else rest >>= λ named. ok (q ∷ named)

-- `validateBatch`; `new_id` is what `newQuestionID` draws.
unfoldable pub validate_batch : Text → Batch → Result Error Batch
unfolding validate_questions
validate_batch new_id b0 =
    let b = if is_empty b0.id then record b0 { id = new_id } else b0 in
    if is_blank b.session_id
    then err (invalid_batch session_required)
    else if length b.questions == 0 || ltb 8 (length b.questions)
    then err (invalid_batch question_count)
    else validate_questions 0 [] b.questions >>= λ named. ok (record b { questions = named })

-- `questions[id]`: the last question of that name.
unfoldable pub find_question : Text → List Question → Option Question
find_question id [] = none
find_question id (q ∷ qs) = elim (find_question id qs) [
  | some found ↦ some found
  | none ↦ if text_eq q.id id then some q else none
]

abbrev pub is_option : Text → Question → Bool
is_option value q = exists (λ o. text_eq value o.label) q.options

abbrev pub refuses : Question → Text → Bool
refuses q value = not q.allow_custom && (ltb 0 (length q.options) && not (is_option value q))

abbrev pub answer_fault : List Question → List Text → Answer → Option Fault
answer_fault qs seen a = elim (find_question a.question_id qs) [
  | none ↦ some (unknown_question a.question_id)
  | some q ↦
      if member a.question_id seen
      then some (duplicate_answer a.question_id)
      else if is_blank a.value
      then some (empty_answer a.question_id)
      else if refuses q a.value
      then some (no_option a.question_id)
      else none
]

unfoldable pub validate_each : List Question → List Text → List Answer → Option Fault
unfolding find_question
validate_each qs seen [] = none
validate_each qs seen (a ∷ as_) =
    let rest = validate_each qs (a.question_id ∷ seen) as_ in
    elim (answer_fault qs seen a) [ some f ↦ some f | none ↦ rest ]

unfoldable pub validate_answers : Batch → List Answer → Option Fault
unfolding validate_each
validate_answers b answers =
    if length answers == length b.questions
    then validate_each b.questions [] answers
    else some (answer_count (length b.questions))

-- `Ask` up to its select, with the batch as it is published and the channel.
unfoldable pub ask : Text → Batch → Gateway → Result Error (Gateway × Pending)
unfolding validate_batch
ask new_id b0 g = validate_batch new_id b0 >>= λ b.
    let p : Pending = record { batch = b; channel = g.next_channel } in
    ok (
      record g {
        pending = insert b.id p g.pending;
        next_channel = suc g.next_channel;
        effects = requested b.session_id b ∷ g.effects;
      },
      p,
    )

-- What waits in a channel.
unfoldable pub receive : ℕ → List (ℕ × Resolution) → Option Resolution
receive c [] = none
receive c ((d, r) ∷ sent) = if d == c then some r else receive c sent

abbrev pub status_cancelled : Text
status_cancelled = text "cancelled"

-- The other end of the select: the context is done.
unfoldable pub abandon : Batch → Gateway → Gateway
abandon b g = record g {
  pending = delete b.id g.pending;
  effects = resolved b.session_id b.id status_cancelled ∷ g.effects;
}

abbrev pub send : ℕ → Resolution → Gateway → Gateway
send c r g = record g { sent = (c, r) ∷ g.sent }

abbrev pub publish : Effect → Gateway → Gateway
publish e g = record g { effects = e ∷ g.effects }

unfoldable pub answer : Text → Text → List Answer → Gateway → Result Error Gateway
unfolding validate_answers
answer session_id id answers g = elim (lookup id g.pending) [
  | none ↦ err not_found
  | some p ↦
      if not (text_eq p.batch.session_id session_id)
      then err not_found
      else elim (validate_answers p.batch answers) [
        | some f ↦ err (invalid_batch f)
        | none ↦ ok (
            publish (resolved session_id id (text "answered"))
              (send p.channel (answered answers) (record g { pending = delete id g.pending })))
      ]
]

-- `Cancel`, with what it returns: `take` has removed the batch before its session is looked at.
unfoldable pub cancel : Text → Text → Gateway → Gateway × Option Error
cancel session_id id g = elim (lookup id g.pending) [
  | none ↦ (g, some not_found)
  | some p ↦
      let taken = record g { pending = delete id g.pending } in
      if not (text_eq p.batch.session_id session_id) then (taken, some not_found) else (
        publish (resolved session_id id status_cancelled) (send p.channel (failed cancelled) taken),
        none,
      )
]

abbrev pub is_of_session : Text → Text × Pending → Bool
is_of_session session_id (id, p) = text_eq p.batch.session_id session_id

unfoldable pub release_all : Text → List (Text × Pending) → Gateway → Gateway
release_all session_id [] g = g
release_all session_id ((id, p) ∷ ps) g = release_all session_id ps (
    publish (resolved session_id p.batch.id status_cancelled) (send p.channel (failed cancelled) g))

unfoldable pub clear_session : Text → Gateway → Gateway
unfolding release_all keep_if
clear_session session_id g =
    release_all session_id (keep_if (is_of_session session_id) g.pending)
      (record g { pending = keep_if (λ e. not (is_of_session session_id e)) g.pending })
