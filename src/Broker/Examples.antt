-- ===== src/Broker/Examples.antt =====
-- A broker with one subscriber, and its theorems there.
use foya.Prelude.{
  ℕ, ◌≡◌, refl, ◌≤◌, true, false, List, [], ◌∷◌, ◌++◌, length, exists, keep_if, text, text_eq,
}
use foya.Broker.{
  Subscription, new, sent, begin_delivery, deliver_next, unsubscribe, publish, subscribe,
}
use foya.Broker.Closed.{Op, subscribes, ends, publishes, run, run-calm, deliver_next-panics}

abbrev subscription : Subscription
subscription = record { topic = text "session:s1"; id = 0 }

abbrev busy : List (Op ℕ)
busy = subscribes (text "session:s1") ∷ publishes (text "session:s1") 7 ∷ []

busy_waiting : ((run busy new).channels 0).waiting ≡ 7 ∷ []
unfolding run subscribe publish text_eq
busy_waiting = refl

run-calm_example :
    let ended = run (busy ++ (ends subscription ∷ publishes (text "session:s1") 8 ∷ [])) new in
    (ended.panicked ≡ false) × (length (ended.channels 0).waiting ≤ 256)
run-calm_example = run-calm (busy ++ (ends subscription ∷ publishes (text "session:s1") 8 ∷ [])) 0

deliver_next-panics_example :
    (deliver_next sent
      (begin_delivery (text "session:s1") 9 (run busy new))
      (unsubscribe subscription (run busy new))).0.panicked
    ≡ true
unfolding run subscribe publish begin_delivery exists keep_if text_eq
deliver_next-panics_example =
    deliver_next-panics subscription [] (text "session:s1") 9 sent (run busy new) refl refl
