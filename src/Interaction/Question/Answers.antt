-- ===== src/Interaction/Question/Answers.antt =====
-- internal/interaction/question.go: which answers a batch accepts.
use foya.Prelude.{
  suc, ◌≡◌, refl, ap, true, false, Option, none, some, List, [], ◌∷◌, length, map, ==_iff, arith,
  Text, text_eq, text_eq_sound, text_eq_refl, text_eq_iff, subst, Bool-cases, Option-cases, inl,
  inr,
}
use foya.Prelude.Names.{member, no_dup, subset, subset-reverse}
use foya.Prelude.Map.{lookup, lookup-delete_self}
use foya.Prelude.Result.{Result, ok, err}
use foya.Interaction.Question.{
  Question, Batch, Answer, Error, answered, Pending, Gateway, is_blank, find_question, refuses,
  answer_fault, validate_each, validate_answers, receive, answer,
}

abbrev pub question_ids : List Question → List Text
question_ids = map (λ q. q.id)

abbrev pub answer_ids : List Answer → List Text
answer_ids = map (λ a. a.question_id)

-- The answer is not blank, and is one of the options of its question where it has to be.
abbrev pub Fits : List Question → Answer → Type 0
Fits qs a =
    (q : Question) × (find_question a.question_id qs ≡ some q)
    × (is_blank a.value ≡ false)
    × (refuses q a.value ≡ false)

abbrev pub AllFit : List Question → List Answer → Type 0
AllFit qs [] = Unit {0}
AllFit qs (a ∷ as_) = Fits qs a × AllFit qs as_

member-find_question :
    (id : Text) (qs : List Question) (q : Question)
    → find_question id qs ≡ some q
    → member id (question_ids qs) ≡ true
unfolding find_question member
member-find_question id [] q e = cc
member-find_question id (x ∷ xs) q e = ground (arith, member-find_question id xs q)

answer_fault-Fits :
    (qs : List Question) (seen : List Text) (a : Answer)
    → answer_fault qs seen a ≡ none
    → Fits qs a × (member a.question_id seen ≡ false)
answer_fault-Fits qs seen a e = go (find_question a.question_id qs) refl
  where
    go :
        (o : Option Question)
        → find_question a.question_id qs ≡ o
        → Fits qs a × (member a.question_id seen ≡ false)
    go none f = absurd (ground arith)
    go (some q) f = ((q, f, ground arith, ground arith), ground arith)

-- What the loop has checked when it ends without a fault.
record Checked (qs : List Question) (seen : List Text) (answers : List Answer) : Type 0 where
  fit : AllFit qs answers
  apart : no_dup (answer_ids answers) ≡ true
  fresh : (id : Text) → member id seen ≡ true → member id (answer_ids answers) ≡ false
  known : subset (answer_ids answers) (question_ids qs) ≡ true

validate_each-Checked :
    (qs : List Question) (seen : List Text) (answers : List Answer)
    → validate_each qs seen answers ≡ none
    → Checked qs seen answers
unfolding validate_each no_dup member subset
validate_each-Checked qs seen [] e = record {
  fit = tt;
  apart = refl;
  fresh = λ id m. refl;
  known = refl;
}
validate_each-Checked qs seen (a ∷ as_) e =
    let here : answer_fault qs seen a ≡ none = ground arith in
    let (fits, new) = answer_fault-Fits qs seen a here in
    let later = validate_each-Checked qs (a.question_id ∷ seen) as_ (ground arith) in
    record {
      fit = (fits, later.fit);
      apart = ground (arith, later.fresh a.question_id, text_eq_refl a.question_id, later.apart);
      fresh = λ id m. ground (arith, later.fresh id, text_eq_iff a.question_id id, m, new);
      known = ground (arith, later.known, member-find_question a.question_id qs fits.0 fits.1);
    }

-- A complete set of answers: each question has exactly one, no other is there, and each fits.
pub record IsComplete (b : Batch) (answers : List Answer) : Type 0 where
  pub count : length answers ≡ length b.questions
  pub one_each : no_dup (answer_ids answers) ≡ true
  pub every_question : subset (question_ids b.questions) (answer_ids answers) ≡ true
  pub no_other : subset (answer_ids answers) (question_ids b.questions) ≡ true
  pub fit : AllFit b.questions answers

length-question_ids : (qs : List Question) → length (question_ids qs) ≡ length qs
length-question_ids [] = refl
length-question_ids (q ∷ qs) = ap suc (length-question_ids qs)

length-answer_ids : (answers : List Answer) → length (answer_ids answers) ≡ length answers
length-answer_ids [] = refl
length-answer_ids (a ∷ as_) = ap suc (length-answer_ids as_)

validate_answers-IsComplete :
    (b : Batch) (answers : List Answer) → validate_answers b answers ≡ none → IsComplete b answers
unfolding validate_answers
validate_answers-IsComplete b answers e =
    let same : length answers ≡ length b.questions =
      ground (arith, ==_iff (length answers) (length b.questions)) in
    let c = validate_each-Checked b.questions [] answers (ground arith) in
    record {
      count = same;
      one_each = c.apart;
      every_question =
          subset-reverse (answer_ids answers) (question_ids b.questions) c.apart c.known
            (omega (arith, same, length-question_ids b.questions, length-answer_ids answers));
      no_other = c.known;
      fit = c.fit;
    }

-- What an accepted call of `Answer` has done.
pub record Accepted (session_id id : Text) (answers : List Answer) (g g' : Gateway) : Type 0 where
  pub pending : Pending
  pub was_there : lookup id g.pending ≡ some pending
  pub owner : pending.batch.session_id ≡ session_id
  pub complete : IsComplete pending.batch answers
  pub delivered : receive pending.channel g'.sent ≡ some (answered answers)
  pub gone : lookup id g'.pending ≡ none

abbrev Answered : Text → Text → List Answer → Gateway → Result Error Gateway → Type 0
Answered s id answers g (ok g') = Accepted s id answers g g'
Answered s id answers g (err e) = Unit {0}

answer-Answered :
    (s id : Text) (answers : List Answer) (g : Gateway)
    → Answered s id answers g (answer s id answers g)
unfolding answer receive
answer-Answered s id answers g = elim (Option-cases (lookup id g.pending)) [
  | inl e ↦ rw (e, answer) tt
  | inr (p, e) ↦ elim (Bool-cases (text_eq p.batch.session_id s)) [
    | inr stranger ↦ rw (e, answer, stranger) tt
    | inl own ↦ elim (Option-cases (validate_answers p.batch answers)) [
      | inr (f, bad) ↦ rw (e, answer, own, bad) tt
      | inl good ↦
          rw (e, answer, own, good)
            (record {
              pending = p;
              was_there = e;
              owner = text_eq_sound p.batch.session_id s own;
              complete = validate_answers-IsComplete p.batch answers good;
              delivered = ground (arith, ==_iff p.channel p.channel);
              gone = lookup-delete_self id g.pending;
            })
    ]
  ]
]

-- Answers are accepted only for a pending batch of the session, and only as a complete set: one answer
-- for each question, none for another, none blank, and an option wherever only options are allowed.
-- They are then what the waiting call receives, and the batch is no longer pending.
pub answer-Accepted :
    (session_id id : Text) (answers : List Answer) (g g' : Gateway)
    → answer session_id id answers g ≡ ok g'
    → Accepted session_id id answers g g'
answer-Accepted s id answers g g' e =
    subst (Answered s id answers g) e (answer-Answered s id answers g)
