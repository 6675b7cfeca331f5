-- ===== src/Broker/Closed.antt =====
-- internal/broker/broker.go: runs of the broker, and sends of `PublishMustDeliver` among them.
use foya.Prelude.{
  ℕ, ◌≡◌, refl, arith, ◌≤◌, true, false, List, [], ◌∷◌, length, count_if, exists, ◌==◌, ==_iff,
  Text,
}
use foya.Broker.{
  Broker, Subscription, Wait, is_same, new, subscribe, unsubscribe, publish, receive,
  begin_delivery, deliver_next, try_send,
}
use foya.Broker.Sends.{IsOpen, subscribe-IsOpen, unsubscribe-IsOpen, publish-IsOpen, receive-IsOpen}

pub data Op {ℓ} (T : Type ℓ) : Type ℓ where
  subscribes : Text → Op T
  ends : Subscription → Op T
  publishes : Text → T → Op T
  receives : ℕ → Op T

module _ {ℓ} {T : Type ℓ} where
  unfoldable pub apply : Op T → Broker T → Broker T
  apply (subscribes topic) b = (subscribe topic b).0
  apply (ends s) b = unsubscribe s b
  apply (publishes topic ev) b = publish topic ev b
  apply (receives c) b = (receive c b).0

  unfoldable pub run : List (Op T) → Broker T → Broker T
  unfolding apply
  run [] b = b
  run (o ∷ os) b = run os (apply o b)

  apply-IsOpen : (o : Op T) (b : Broker T) → IsOpen b → IsOpen (apply o b)
  unfolding apply
  apply-IsOpen (subscribes topic) b v = subscribe-IsOpen topic b v
  apply-IsOpen (ends s) b v = unsubscribe-IsOpen s b v
  apply-IsOpen (publishes topic ev) b v = publish-IsOpen topic ev b v
  apply-IsOpen (receives c) b v = receive-IsOpen c b v

  run-IsOpen : (os : List (Op T)) (b : Broker T) → IsOpen b → IsOpen (run os b)
  unfolding run
  run-IsOpen [] b v = v
  run-IsOpen (o ∷ os) b v = run-IsOpen os (apply o b) (apply-IsOpen o b v)

  new-IsOpen : IsOpen (new {T = T})
  unfolding count_if
  new-IsOpen = record {
    once = λ c. omega arith;
    opened = λ c h. absurd (omega (arith, h));
    room = λ c. omega arith;
    calm = refl;
  }

  -- Through any subscriptions, ends of them, reads and calls of Publish, in any order, no send meets a
  -- closed channel, and no channel holds more than 256 events.
  pub run-calm :
      (os : List (Op T)) (c : ℕ)
      → ((run os new).panicked ≡ false) × (length ((run os new).channels c).waiting ≤ 256)
  run-calm os c = let v = run-IsOpen os new new-IsOpen in (v.calm, v.room c)

  -- A delivery of PublishMustDeliver panics if the subscription of its first channel ends after the
  -- channels are collected and before the send, whatever it would do if there were no room.
  pub deliver_next-panics :
      (s : Subscription) (cs : List ℕ) (topic : Text) (ev : T) (w : Wait) (b : Broker T)
      → exists (is_same s) b.subs ≡ true
      → (begin_delivery topic ev b).targets ≡ s.id ∷ cs
      → (deliver_next w (begin_delivery topic ev b) (unsubscribe s b)).0.panicked ≡ true
  unfolding deliver_next unsubscribe try_send
  deliver_next-panics s cs topic ev w b h k =
      let e : (s.id == s.id) ≡ true = (==_iff s.id s.id).1 refl in
      rw (k, deliver_next, h, unsubscribe, e, try_send) refl
