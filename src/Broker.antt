-- ===== src/Broker.antt =====
-- internal/broker/broker.go: topics and their subscribers. A channel is a number, with what waits in it.
-- A step is what happens under one lock, or one send of `PublishMustDeliver`, which holds none.
pub mod Listed
pub mod Sends
pub mod Closed
mod Examples
use foya.Prelude.{
  ℕ, zero, suc, ◌+◌, Bool, true, false, ◌&&◌, not, Option, none, some, List, [], ◌∷◌, ◌++◌, length,
  keep_if, map, exists, if◌then◌else◌, ltb, ◌==◌, Text, text_eq,
}

abbrev pub subscriber_buffer : ℕ
subscriber_buffer = 256

pub record Channel {ℓ} (T : Type ℓ) : Type ℓ where
  pub waiting : List T
  pub is_closed : Bool

pub record Subscription : Type 0 where
  pub topic : Text
  pub id : ℕ

-- `panicked` is whether a send on a closed channel has stopped the program.
pub record Broker {ℓ} (T : Type ℓ) : Type ℓ where
  pub next_id : ℕ
  pub subs : List Subscription
  pub channels : ℕ → Channel T
  pub panicked : Bool

-- A call of `PublishMustDeliver` with the channels that are left.
pub record Delivery {ℓ} (T : Type ℓ) : Type ℓ where
  pub event : T
  pub targets : List ℕ

-- How a send that has to wait for room ends.
pub data Wait : Type 0 where
  sent timed_out context_done : Wait

abbrev pub is_of : Text → Subscription → Bool
is_of topic s = text_eq s.topic topic

abbrev pub is_same : Subscription → Subscription → Bool
is_same s t = t.id == s.id && text_eq t.topic s.topic

module _ {ℓ} {T : Type ℓ} where
  abbrev pub empty_channel : Channel T
  empty_channel = record { waiting = []; is_closed = false }

  abbrev pub new : Broker T
  new = record { next_id = 0; subs = []; channels = λ c. empty_channel; panicked = false }

  abbrev pub set_channel : ℕ → Channel T → Broker T → Broker T
  set_channel c ch b = record b { channels = λ d. if d == c then ch else b.channels d }

  unfoldable pub subscribe : Text → Broker T → Broker T × Subscription
  subscribe topic b =
      let s : Subscription = record { topic = topic; id = b.next_id } in
      (
        record (set_channel b.next_id empty_channel b) {
          next_id = suc b.next_id;
          subs = s ∷ b.subs;
        },
        s,
      )

  -- The goroutine of `Subscribe` once the context is done, which runs once for each subscription.
  unfoldable pub unsubscribe : Subscription → Broker T → Broker T
  unfolding exists keep_if
  unsubscribe s b =
      if exists (is_same s) b.subs
      then record (set_channel s.id (record (b.channels s.id) { is_closed = true }) b) {
        subs = keep_if (λ t. not (is_same s t)) b.subs;
      }
      else b

  -- `select { case ch <- ev: default: }`; whether it was sent.
  unfoldable pub try_send : ℕ → T → Broker T → Broker T × Bool
  try_send c ev b =
      let ch = b.channels c in
      if ch.is_closed
      then (record b { panicked = true }, true)
      else if ltb (length ch.waiting) subscriber_buffer
      then (set_channel c (record ch { waiting = ch.waiting ++ (ev ∷ []) }) b, true)
      else (b, false)

  unfoldable pub send_all : List ℕ → T → Broker T → Broker T
  unfolding try_send
  send_all [] ev b = b
  send_all (c ∷ cs) ev b = send_all cs ev (try_send c ev b).0

  -- The channels of a topic, in some order of the map.
  abbrev pub channels_of : Text → Broker T → List ℕ
  channels_of topic b = map (λ s. s.id) (keep_if (is_of topic) b.subs)

  unfoldable pub publish : Text → T → Broker T → Broker T
  unfolding send_all keep_if
  publish topic ev b = send_all (channels_of topic b) ev b

  -- `PublishMustDeliver` under its lock.
  unfoldable pub begin_delivery : Text → T → Broker T → Delivery T
  unfolding keep_if
  begin_delivery topic ev b = record { event = ev; targets = channels_of topic b }

  -- Its next send, with the end of the wait if there is no room; `none` once it has returned.
  unfoldable pub deliver_next : Wait → Delivery T → Broker T → Broker T × Option (Delivery T)
  unfolding try_send
  deliver_next w d b = elim d.targets [
    | [] ↦ (b, none)
    | c ∷ cs ↦
        let (b', done) = try_send c d.event b in
        if done then (b', some (record d { targets = cs })) else elim w [
          | sent ↦ (b, some d)
          | timed_out ↦ (b, some (record d { targets = cs }))
          | context_done ↦ (b, none)
        ]
  ]

  abbrev pub receive_from : List T → ℕ → Broker T → Broker T × Option T
  receive_from [] c b = (b, none)
  receive_from (ev ∷ evs) c b = (set_channel c (record (b.channels c) { waiting = evs }) b, some ev)

  -- A subscriber takes what is first in its channel.
  unfoldable pub receive : ℕ → Broker T → Broker T × Option T
  receive c b = receive_from (b.channels c).waiting c b
