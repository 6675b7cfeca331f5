-- ===== src/Broker/Sends.antt =====
-- internal/broker/broker.go: subscriptions, their ends, `Publish` and the reads, in any order.
use foya.Prelude.{
  ℕ, ◌≡◌, refl, sym, ap, ◌∙◌, subst, arith, ◌≤◌, ◌<◌, inl, inr, Bool, true, false, not, List, [],
  ◌∷◌, ◌++◌, length, length-append, keep_if, exists, count_if, ltb, ◌==◌, ==_iff, Text, Bool-cases,
}
use foya.Broker.{
  Broker, Channel, Subscription, is_same, set_channel, subscriber_buffer, subscribe, unsubscribe,
  try_send, send_all, channels_of, publish, receive, receive_from,
}
use foya.Broker.Listed.{listed, listed-keep_if, listed-gone, Targets, target, channels_of-Targets}

module _ {ℓ} {T : Type ℓ} where
  -- Each channel is subscribed once at most and is then open, no channel holds more than fits, and
  -- nothing has panicked.
  pub record IsOpen (b : Broker T) : Type ℓ where
    pub once : (c : ℕ) → listed c b.subs ≤ 1
    pub opened :
        (c : ℕ) → 0 < listed c b.subs → ((b.channels c).is_closed ≡ false) × (c < b.next_id)
    pub room : (c : ℕ) → length (b.channels c).waiting ≤ 256
    pub calm : b.panicked ≡ false

  pub subscribe-IsOpen : (topic : Text) (b : Broker T) → IsOpen b → IsOpen (subscribe topic b).0
  unfolding subscribe count_if
  subscribe-IsOpen topic b v = record {
    once = λ c. ground (arith, v.once c, v.opened c);
    opened = λ c h. elim (Bool-cases (b.next_id == c)) [
      | inl e ↦ (ground (arith, e), ground (arith, e))
      | inr e ↦ (
        ground (arith, e, (v.opened c (ground (arith, h, e))).0),
        ground (arith, h, e, (v.opened c (ground (arith, h, e))).1),
      )
    ];
    room = λ c. elim (Bool-cases (c == b.next_id)) [
      | inl e ↦ rw (e) (omega arith)
      | inr e ↦ rw (e) (v.room c)
    ];
    calm = v.calm;
  }

  ended :
      (s : Subscription) (b : Broker T)
      → IsOpen b
      → exists (is_same s) b.subs ≡ true
      → IsOpen (record (set_channel s.id (record (b.channels s.id) { is_closed = true }) b) {
        subs = keep_if (λ t. not (is_same s t)) b.subs;
      })
  ended s b v e = record {
    once = λ c. omega (arith, v.once c, listed-keep_if (λ t. not (is_same s t)) c b.subs);
    opened = λ c h.
        let less = listed-keep_if (λ t. not (is_same s t)) c b.subs in
        let (is, low) = v.opened c (omega (arith, h, less)) in
        elim (Bool-cases (c == s.id)) [
          | inl d ↦
              let same : c ≡ s.id = (==_iff c s.id).0 d in
              let gone = listed-gone s b.subs e in
              let h' = subst (λ x. 0 < listed x (keep_if (λ t. not (is_same s t)) b.subs)) same h in
              absurd (omega (arith, h', gone, v.once s.id))
          | inr d ↦ (rw (d) is, low)
        ];
    room = λ c. elim (Bool-cases (c == s.id)) [
      | inl d ↦ rw (d) (v.room s.id)
      | inr d ↦ rw (d) (v.room c)
    ];
    calm = v.calm;
  }

  pub unsubscribe-IsOpen : (s : Subscription) (b : Broker T) → IsOpen b → IsOpen (unsubscribe s b)
  unfolding unsubscribe
  unsubscribe-IsOpen s b v = elim (Bool-cases (exists (is_same s) b.subs)) [
    | inr e ↦ rw (e, unsubscribe) v
    | inl e ↦ rw (e, unsubscribe) (ended s b v e)
  ]

  set_channel-closed :
      (c : ℕ) (ch : Channel T) (b : Broker T) (d : ℕ)
      → ch.is_closed ≡ (b.channels c).is_closed
      → ((set_channel c ch b).channels d).is_closed ≡ (b.channels d).is_closed
  set_channel-closed c ch b d h = elim (Bool-cases (d == c)) [
    | inl e ↦ rw (e) (h ∙ ap (λ x. (b.channels x).is_closed) (sym ((==_iff d c).0 e)))
    | inr e ↦ rw (e) refl
  ]

  set_channel-room :
      (c : ℕ) (ch : Channel T) (b : Broker T) (d : ℕ)
      → length ch.waiting ≤ 256
      → length (b.channels d).waiting ≤ 256
      → length ((set_channel c ch b).channels d).waiting ≤ 256
  set_channel-room c ch b d h k = elim (Bool-cases (d == c)) [ inl e ↦ rw (e) h | inr e ↦ rw (e) k ]

  -- A write of a channel that is as open as before, and holds what fits.
  set_channel-IsOpen :
      (c : ℕ) (ch : Channel T) (b : Broker T)
      → ch.is_closed ≡ (b.channels c).is_closed
      → length ch.waiting ≤ 256
      → IsOpen b
      → IsOpen (set_channel c ch b)
  set_channel-IsOpen c ch b h k v = record {
    once = v.once;
    opened = λ d l. (set_channel-closed c ch b d h ∙ (v.opened d l).0, (v.opened d l).1);
    room = λ d. set_channel-room c ch b d k (v.room d);
    calm = v.calm;
  }

  -- What is sent is kept in the channel or dropped, and the rest of the broker stays.
  data Sent (c : ℕ) (ev : T) (b : Broker T) : Broker T × Bool → Type ℓ where
    stored :
        length ((b.channels c).waiting ++ (ev ∷ [])) ≤ 256
        → Sent c ev b (
          set_channel c (record (b.channels c) { waiting = (b.channels c).waiting ++ (ev ∷ []) }) b,
          true,
        )
    dropped : Sent c ev b (b, false)

  try_send-Sent :
      (c : ℕ) (ev : T) (b : Broker T)
      → (b.channels c).is_closed ≡ false
      → Sent c ev b (try_send c ev b)
  unfolding try_send
  try_send-Sent c ev b h =
      elim (Bool-cases (ltb (length (b.channels c).waiting) subscriber_buffer)) [
        | inr full ↦
            let e : try_send c ev b ≡ (b, false) = rw (h, try_send, full) refl in
            subst (Sent c ev b) (sym e) dropped
        | inl fits ↦
            let ch = record (b.channels c) { waiting = (b.channels c).waiting ++ (ev ∷ []) } in
            let e : try_send c ev b ≡ (set_channel c ch b, true) = rw (h, try_send, fits) refl in
            subst (Sent c ev b) (sym e)
              (stored (ground (arith, length-append (b.channels c).waiting (ev ∷ []), fits)))
      ]

  Sent-IsOpen :
      (c : ℕ) (ev : T) (b : Broker T) (x : Broker T × Bool)
      → Sent c ev b x
      → IsOpen b
      → IsOpen x.0 × (x.0.subs ≡ b.subs)
  Sent-IsOpen c ev b x (stored h) v =
      let ch = record (b.channels c) { waiting = (b.channels c).waiting ++ (ev ∷ []) } in
      (set_channel-IsOpen c ch b refl h v, refl)
  Sent-IsOpen c ev b x dropped v = (v, refl)

  send_all-IsOpen :
      (cs : List ℕ) (ev : T) (b : Broker T)
      → Targets b.subs cs
      → IsOpen b
      → IsOpen (send_all cs ev b)
  unfolding send_all
  send_all-IsOpen [] ev b t v = v
  send_all-IsOpen (c ∷ cs) ev b (target _ _ l t) v =
      let (v', e) =
        Sent-IsOpen c ev b (try_send c ev b) (try_send-Sent c ev b (v.opened c l).0) v in
      send_all-IsOpen cs ev (try_send c ev b).0 (subst (λ x. Targets x cs) (sym e) t) v'

  pub publish-IsOpen :
      (topic : Text) (ev : T) (b : Broker T) → IsOpen b → IsOpen (publish topic ev b)
  unfolding publish
  publish-IsOpen topic ev b v =
      send_all-IsOpen (channels_of topic b) ev b (channels_of-Targets topic b.subs) v

  receive_from-IsOpen :
      (evs : List T) (c : ℕ) (b : Broker T)
      → length evs ≤ 256
      → IsOpen b
      → IsOpen (receive_from evs c b).0
  receive_from-IsOpen [] c b h v = v
  receive_from-IsOpen (ev ∷ evs) c b h v =
      set_channel-IsOpen c (record (b.channels c) { waiting = evs }) b refl (omega (arith, h)) v

  pub receive-IsOpen : (c : ℕ) (b : Broker T) → IsOpen b → IsOpen (receive c b).0
  unfolding receive
  receive-IsOpen c b v = receive_from-IsOpen (b.channels c).waiting c b (v.room c) v
