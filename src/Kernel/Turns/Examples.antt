-- ===== src/Kernel/Turns/Examples.antt =====
-- Runs of the turn scheduler, and its theorems at a few requests.
use foya.Prelude.{
  exists, ◌≡◌, refl, ◌≤◌, true, ◌||◌, List, [], ◌∷◌, ◌++◌, length, map, Text, text, text_eq,
}
use foya.Conversation.Message.{UserInput, queue_input, new_queued_message}
use foya.Prelude.Map.{lookup, insert, delete}
use foya.Kernel.Turns.{Turns, new_turn_scheduler, is_running, is_compacting, queue, positions_from}
use foya.Kernel.Turns.Submit.{submit, enqueue}
use foya.Kernel.Turns.Control.{dispatch_queued, finish_turn, begin_compaction}
use foya.Kernel.Turns.Valid.{loops_of}
use foya.Kernel.Turns.Steps.{settle}
use foya.Kernel.Turns.Runs.{
  Op, submits, enqueues, begins_compaction, finishes, run, apply, run-exclusive,
}
use foya.Kernel.Turns.Order.{has_run}
use foya.Kernel.Turns.Dispatch.{inputs, dispatch_queued-front}
use foya.Kernel.Turns.Fifo.{sent, run-fifo, submit-busy}

abbrev said : Text → UserInput
said t = record {
  content = t;
  command = [];
  skill_ref = [];
  attachments = [];
  browser_elements = [];
  workspace_files = [];
}

abbrev session : Text
session = text "s1"

-- Three messages, the first of which is done when a compaction is asked for.
abbrev requests : List Op
requests =
    submits session (said (text "one")) (text "q1") 1
    ∷ submits session (said (text "two")) (text "q2") 2
    ∷ enqueues session (said (text "three")) (text "q3") 3
    ∷ finishes session 0 true
    ∷ begins_compaction session
    ∷ []

queue_runs :
    map queue_input (queue (run requests new_turn_scheduler) session) ≡ said (text "three") ∷ []
unfolding run new_turn_scheduler text_eq lookup insert delete submit enqueue apply finish_turn
    positions_from new_queued_message queue_input begin_compaction
queue_runs = refl

run-fifo_example :
    has_run session (run requests new_turn_scheduler).effects
      ++ map queue_input (queue (run requests new_turn_scheduler) session)
    ≡ sent session requests
run-fifo_example = run-fifo requests session (tt, (tt, (tt, (tt, (tt, tt)))))

run-exclusive_example :
    (length (loops_of session (run requests new_turn_scheduler).loops) ≤ 1)
    × (is_compacting (run requests new_turn_scheduler) session ≡ true
        → loops_of session (run requests new_turn_scheduler).loops ≡ [])
run-exclusive_example = run-exclusive requests session

submit-busy_example :
    (is_running
        (settle new_turn_scheduler
          (submit session (said (text "one")) (text "q1") 1 new_turn_scheduler))
        session
      || is_compacting
          (settle new_turn_scheduler
            (submit session (said (text "one")) (text "q1") 1 new_turn_scheduler))
          session)
    ≡ true
unfolding new_turn_scheduler lookup
submit-busy_example = submit-busy session (said (text "one")) (text "q1") 1 new_turn_scheduler refl

-- One message runs and two wait.
abbrev waiting : Turns
waiting =
    run
      (submits session (said (text "one")) (text "q1") 1
        ∷ submits session (said (text "two")) (text "q2") 2
        ∷ enqueues session (said (text "three")) (text "q3") 3
        ∷ [])
      new_turn_scheduler

dispatch_queued-front_example :
    inputs (queue (settle waiting (dispatch_queued session (text "q3") waiting)) session)
    ≡ said (text "three") ∷ said (text "two") ∷ []
unfolding run new_turn_scheduler text_eq lookup insert delete submit enqueue apply positions_from
    new_queued_message queue_input exists
dispatch_queued-front_example =
    dispatch_queued-front session (text "q3")
      (new_queued_message (text "q2") 2 session (said (text "two")) 0 ∷ []) []
      (new_queued_message (text "q3") 3 session (said (text "three")) 1) waiting refl
      (record { parts = refl; named = refl; first = refl })
