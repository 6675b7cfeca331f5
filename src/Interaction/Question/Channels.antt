-- ===== src/Interaction/Question/Channels.antt =====
-- internal/interaction/question.go: what is sent to the waiting calls.
use foya.Prelude.{
  if_some-cases, ℕ, suc, ◌+◌, ◌≤◌, ◌≡◌, refl, ap, Bool, false, not, some, List, [], ◌∷◌, ◌==◌,
  arith, if◌then◌else◌, Text, text_eq, Bool-cases, Option-cases, inl, inr, keep_if, count_if,
}
use foya.Prelude.Map.{Map, lookup, insert, delete, lookup-delete_self}
use foya.Prelude.Result.{Result, ok, err, ◌>>=◌}
use foya.Interaction.Question.{
  Batch, Answer, Error, not_found, Resolution, failed, cancelled, Pending, Gateway,
  new_question_gateway, validate_batch, validate_answers, send, publish, resolved, status_cancelled,
  Effect, requested, ask, answer, cancel, abandon, clear_session, is_of_session, release_all,
}

-- A cancellation by another session than the batch's is refused, and yet the batch is gone: nothing is
-- sent to the call that waits, and no answer reaches it any more, from its own session either.
pub cancel-stranger :
    (stranger id : Text) (g : Gateway) (p : Pending) (answers : List Answer)
    → lookup id g.pending ≡ some p
    → text_eq p.batch.session_id stranger ≡ false
    → let (g', e) = cancel stranger id g in
      (e ≡ some not_found)
      × (g'.sent ≡ g.sent)
      × (answer p.batch.session_id id answers g' ≡ err not_found)
unfolding cancel answer
cancel-stranger stranger id g p answers e s =
    rw (e, cancel, s) (refl, refl, rw (lookup-delete_self id g.pending, answer))

-- How often a channel is among those of the pending batches, and among those that were sent to.
abbrev waits_on : ℕ → Text × Pending → Bool
waits_on c (id, p) = p.channel == c

abbrev goes_to : ℕ → ℕ × Resolution → Bool
goes_to c (d, r) = d == c

abbrev pub sends : ℕ → Gateway → ℕ
sends c g = count_if (goes_to c) g.sent

abbrev waiting : ℕ → Map Pending → ℕ
waiting c m = count_if (waits_on c) m

abbrev one_if : Bool → ℕ
one_if b = if b then 1 else 0

waiting-insert :
    (c : ℕ) (id : Text) (p : Pending) (m : Map Pending)
    → waiting c (insert id p m) ≤ waiting c m + one_if (p.channel == c)
unfolding count_if insert
waiting-insert c id p [] = ground arith
waiting-insert c id p ((i, q) ∷ m) = ground (arith, waiting-insert c id p m)

waiting-delete : (c : ℕ) (id : Text) (m : Map Pending) → waiting c (delete id m) ≤ waiting c m
unfolding count_if delete
waiting-delete c id [] = omega arith
waiting-delete c id ((i, q) ∷ m) = ground (arith, waiting-delete c id m)

waiting-found :
    (c : ℕ) (id : Text) (p : Pending) (m : Map Pending)
    → lookup id m ≡ some p
    → waiting c (delete id m) + one_if (p.channel == c) ≤ waiting c m
unfolding count_if delete lookup
waiting-found c id p [] e = cc
waiting-found c id p ((i, q) ∷ m) e = elim (if_some-cases (text_eq i id) q p (lookup id m) e) [
  | inl (same, k) ↦ ground (arith, waiting-delete c id m, ap (λ x. x.channel) k)
  | inr (other, k) ↦ ground (arith, waiting-found c id p m k)
]

waiting-split :
    (c : ℕ) (s : Text) (m : Map Pending)
    → waiting c (keep_if (is_of_session s) m) + waiting c (keep_if (λ e. not (is_of_session s e)) m)
      ≡ waiting c m
unfolding count_if keep_if
waiting-split c s [] = refl
waiting-split c s ((i, q) ∷ m) = ground (arith, waiting-split c s m)

sends-release_all :
    (c : ℕ) (s : Text) (ps : Map Pending) (g : Gateway)
    → sends c (release_all s ps g) ≡ sends c g + waiting c ps
unfolding count_if release_all
sends-release_all c s [] g = omega arith
sends-release_all c s ((i, q) ∷ ps) g = ground (
  arith,
  sends-release_all c s ps
      (publish (resolved s q.batch.id status_cancelled) (send q.channel (failed cancelled) g)),
)

-- No channel is in use twice, and none from the next one on is.
record IsFresh (g : Gateway) : Type 0 where
  once : (c : ℕ) → waiting c g.pending + sends c g ≤ 1
  unused : (c : ℕ) → g.next_channel ≤ c → waiting c g.pending + sends c g ≡ 0

-- Nothing is used that was not, and no new channel is made.
Fewer-IsFresh :
    (g g' : Gateway)
    → g'.next_channel ≡ g.next_channel
    → ((c : ℕ) → waiting c g'.pending + sends c g' ≤ waiting c g.pending + sends c g)
    → IsFresh g
    → IsFresh g'
Fewer-IsFresh g g' e h f = record {
  once = λ c. omega (arith, h c, f.once c);
  unused = λ c l. omega (arith, h c, f.unused c (omega arith));
}

-- A call that is refused leaves the gateway alone.
abbrev pub settle : Gateway → Result Error Gateway → Gateway
settle g (ok g') = g'
settle g (err e) = g

abbrev asked : Gateway → Result Error (Gateway × Pending) → Gateway
asked g (ok (g', p)) = g'
asked g (err e) = g

ask-IsFresh :
    (new_id : Text) (b : Batch) (g : Gateway) → IsFresh g → IsFresh (asked g (ask new_id b g))
unfolding ask
ask-IsFresh new_id b g f = go (validate_batch new_id b)
  where
    go :
        (r : Result Error Batch)
        → IsFresh (
            asked g (
              r >>= λ b'. ok (
                record g {
                  pending =
                      insert b'.id (record { batch = b'; channel = g.next_channel }) g.pending;
                  next_channel = suc g.next_channel;
                  effects = requested b'.session_id b' ∷ g.effects;
                },
                record { batch = b'; channel = g.next_channel },
              )))
    go (err e) = f
    go (ok b') =
        let p : Pending = record { batch = b'; channel = g.next_channel } in
        record {
          once = λ c. ground (arith, waiting-insert c b'.id p g.pending, f.once c, f.unused c);
          unused = λ c l. ground (arith, waiting-insert c b'.id p g.pending, f.unused c);
        }

abandon-IsFresh : (b : Batch) (g : Gateway) → IsFresh g → IsFresh (abandon b g)
unfolding abandon
abandon-IsFresh b g f =
    Fewer-IsFresh g _ refl (λ c. omega (arith, waiting-delete c b.id g.pending)) f

send-IsFresh :
    (id : Text) (p : Pending) (r : Resolution) (e : Effect) (g : Gateway)
    → lookup id g.pending ≡ some p
    → IsFresh g
    → IsFresh (publish e (send p.channel r (record g { pending = delete id g.pending })))
unfolding count_if
send-IsFresh id p r e g h f =
    Fewer-IsFresh g _ refl (λ c. ground (arith, waiting-found c id p g.pending h)) f

answer-IsFresh :
    (s id : Text) (answers : List Answer) (g : Gateway)
    → IsFresh g
    → IsFresh (settle g (answer s id answers g))
unfolding answer
answer-IsFresh s id answers g f = elim (Option-cases (lookup id g.pending)) [
  | inl e ↦ rw (e, answer) f
  | inr (p, e) ↦ elim (Bool-cases (text_eq p.batch.session_id s)) [
    | inr stranger ↦ rw (e, answer, stranger) f
    | inl own ↦ elim (Option-cases (validate_answers p.batch answers)) [
      | inr (x, bad) ↦ rw (e, answer, own, bad) f
      | inl good ↦ rw (e, answer, own, good) (send-IsFresh id p _ _ g e f)
    ]
  ]
]

cancel-IsFresh : (s id : Text) (g : Gateway) → IsFresh g → IsFresh (cancel s id g).0
unfolding cancel
cancel-IsFresh s id g f = elim (Option-cases (lookup id g.pending)) [
  | inl e ↦ rw (e, cancel) f
  | inr (p, e) ↦ elim (Bool-cases (text_eq p.batch.session_id s)) [
    | inr stranger ↦
        rw (e, cancel, stranger)
          (Fewer-IsFresh g _ refl (λ c. omega (arith, waiting-delete c id g.pending)) f)
    | inl own ↦ rw (e, cancel, own) (send-IsFresh id p _ _ g e f)
  ]
]

release_all-rest :
    (s : Text) (ps : Map Pending) (g : Gateway)
    → ((release_all s ps g).pending ≡ g.pending)
      × ((release_all s ps g).next_channel ≡ g.next_channel)
unfolding release_all
release_all-rest s [] g = (refl, refl)
release_all-rest s ((i, q) ∷ ps) g =
    release_all-rest s ps
      (publish (resolved s q.batch.id status_cancelled) (send q.channel (failed cancelled) g))

clear_session-IsFresh : (s : Text) (g : Gateway) → IsFresh g → IsFresh (clear_session s g)
unfolding clear_session
clear_session-IsFresh s g f =
    let gone = keep_if (is_of_session s) g.pending in
    let left : Gateway = record g { pending = keep_if (λ e. not (is_of_session s e)) g.pending } in
    let (pending, next) = release_all-rest s gone left in
    Fewer-IsFresh g (release_all s gone left) next
      (λ c. omega (
        arith,
        sends-release_all c s gone left,
        waiting-split c s g.pending,
        ap (waiting c) pending,
      ))
      f

pub data Op : Type 0 where
  asks : Text → Batch → Op
  answers_with : Text → Text → List Answer → Op
  cancels : Text → Text → Op
  abandons : Batch → Op
  clears : Text → Op

unfoldable pub apply : Op → Gateway → Gateway
apply (asks new_id b) g = asked g (ask new_id b g)
apply (answers_with s id answers) g = settle g (answer s id answers g)
apply (cancels s id) g = (cancel s id g).0
apply (abandons b) g = abandon b g
apply (clears s) g = clear_session s g

unfoldable pub run : List Op → Gateway → Gateway
unfolding apply
run [] g = g
run (o ∷ os) g = run os (apply o g)

apply-IsFresh : (o : Op) (g : Gateway) → IsFresh g → IsFresh (apply o g)
unfolding apply
apply-IsFresh (asks new_id b) g f = ask-IsFresh new_id b g f
apply-IsFresh (answers_with s id answers) g f = answer-IsFresh s id answers g f
apply-IsFresh (cancels s id) g f = cancel-IsFresh s id g f
apply-IsFresh (abandons b) g f = abandon-IsFresh b g f
apply-IsFresh (clears s) g f = clear_session-IsFresh s g f

run-IsFresh : (os : List Op) (g : Gateway) → IsFresh g → IsFresh (run os g)
unfolding run
run-IsFresh [] g f = f
run-IsFresh (o ∷ os) g f = run-IsFresh os (apply o g) (apply-IsFresh o g f)

-- Through any calls, in any order and for any sessions, no waiting call is sent more than one
-- resolution.
pub run-sends : (os : List Op) (c : ℕ) → sends c (run os new_question_gateway) ≤ 1
unfolding new_question_gateway count_if
run-sends os c =
    let fresh : IsFresh new_question_gateway = record {
      once = λ d. omega arith;
      unused = λ d l. omega arith;
    } in
    omega (arith, (run-IsFresh os new_question_gateway fresh).once c)
