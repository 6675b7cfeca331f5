-- ===== src/Broker/Listed.antt =====
-- internal/broker/broker.go: the subscriptions, and how often they name a channel.
use foya.Prelude.{
  ℕ, ◌≡◌, refl, arith, ◌≤◌, ◌<◌, inl, inr, Bool, true, not, List, [], ◌∷◌, keep_if, map, exists,
  count_if, ◌==◌, ==_iff, Text, Bool-cases,
}
use foya.Broker.{Subscription, is_of, is_same}

-- How often a channel is subscribed.
abbrev pub listed : ℕ → List Subscription → ℕ
listed c subs = count_if (λ s. s.id == c) subs

pub listed-keep_if :
    (p : Subscription → Bool) (c : ℕ) (subs : List Subscription)
    → listed c (keep_if p subs) ≤ listed c subs
unfolding count_if keep_if
listed-keep_if p c [] = omega arith
listed-keep_if p c (s ∷ subs) = ground (arith, listed-keep_if p c subs)

pub listed-gone :
    (s : Subscription) (subs : List Subscription)
    → exists (is_same s) subs ≡ true
    → listed s.id (keep_if (λ t. not (is_same s t)) subs) < listed s.id subs
unfolding count_if keep_if exists
listed-gone s [] h = cc
listed-gone s (t ∷ subs) h =
    ground (arith, listed-gone s subs, listed-keep_if (λ u. not (is_same s u)) s.id subs)

-- Channels that are subscribed.
pub data Targets (subs : List Subscription) : List ℕ → Type 0 where
  no_target : Targets subs []
  target : (c : ℕ) (cs : List ℕ) → 0 < listed c subs → Targets subs cs → Targets subs (c ∷ cs)

weaken :
    (s : Subscription) (subs : List Subscription) (cs : List ℕ)
    → Targets subs cs
    → Targets (s ∷ subs) cs
unfolding count_if
weaken s subs [] no_target = no_target
weaken s subs (c ∷ cs) (target _ _ l t) = target c cs (ground (arith, l)) (weaken s subs cs t)

pub channels_of-Targets :
    (topic : Text) (subs : List Subscription)
    → Targets subs (map (λ s. s.id) (keep_if (is_of topic) subs))
unfolding keep_if count_if
channels_of-Targets topic [] = no_target
channels_of-Targets topic (s ∷ subs) = elim (Bool-cases (is_of topic s)) [
  | inl e ↦
      rw (e, keep_if)
        (target s.id _ (ground (arith, (==_iff s.id s.id).1 refl))
          (weaken s subs _ (channels_of-Targets topic subs)))
  | inr e ↦ rw (e, keep_if) (weaken s subs _ (channels_of-Targets topic subs))
]
