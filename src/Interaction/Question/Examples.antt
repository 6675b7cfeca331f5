-- ===== src/Interaction/Question/Examples.antt =====
-- Runs of the question gateway, and its theorems at one batch of two questions.
use foya.Prelude.{
  ◌≡◌, refl, ◌≤◌, true, false, some, List, [], ◌∷◌, Text, text, text_eq, trim_space, exists,
}
use foya.Prelude.Names.{member}
use foya.Prelude.Map.{lookup, insert, delete}
use foya.Prelude.Result.{err}
use foya.Interaction.Question.{
  Choice, Batch, Answer, not_found, Pending, Gateway, new_question_gateway, ask, answer, cancel,
  validate_batch, validate_questions, validate_answers, validate_each, find_question,
}
use foya.Interaction.Question.Answers.{Accepted, answer-Accepted}
use foya.Interaction.Question.Channels.{
  asks, clears, run, apply, sends, settle, cancel-stranger, run-sends,
}

abbrev choice : Text → Choice
choice l = record { label = l; description = []; recommended = false }

abbrev batch : Batch
batch = record {
  id = text "b1";
  session_id = text "s1";
  run_id = [];
  tool_call_id = [];
  questions =
      record {
        id = text "q1";
        question = text "Which?";
        description = [];
        options = choice (text "left") ∷ choice (text "right") ∷ [];
        allow_custom = false;
      }
      ∷ record {
        id = text "q2";
        question = text "Why?";
        description = [];
        options = [];
        allow_custom = true;
      }
      ∷ [];
}

abbrev asking : Gateway
asking = run (asks [] batch ∷ []) new_question_gateway

abbrev answers : List Answer
answers =
    record { question_id = text "q2"; value = text "since" }
    ∷ record { question_id = text "q1"; value = text "left" }
    ∷ []

abbrev pending : Pending
pending = record { batch = batch; channel = 0 }

answer-Accepted_example :
    Accepted
      (text "s1")
      (text "b1")
      answers
      asking
      (settle asking (answer (text "s1") (text "b1") answers asking))
unfolding run apply new_question_gateway ask answer validate_batch validate_questions
    validate_answers validate_each find_question member exists text_eq trim_space lookup insert
    delete
answer-Accepted_example =
    answer-Accepted (text "s1") (text "b1") answers asking
      (settle asking (answer (text "s1") (text "b1") answers asking)) refl

cancel-stranger_example :
    let (g', e) = cancel (text "s2") (text "b1") asking in
    (e ≡ some not_found)
    × (g'.sent ≡ asking.sent)
    × (answer (text "s1") (text "b1") answers g' ≡ err not_found)
unfolding run apply new_question_gateway ask validate_batch validate_questions member text_eq
    trim_space lookup insert
cancel-stranger_example = cancel-stranger (text "s2") (text "b1") asking pending answers refl refl

run-sends_example : sends 0 (run (asks [] batch ∷ clears (text "s1") ∷ []) new_question_gateway) ≤ 1
run-sends_example = run-sends (asks [] batch ∷ clears (text "s1") ∷ []) 0
