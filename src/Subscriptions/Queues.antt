-- ===== src/Subscriptions/Queues.antt =====
-- What the channel of a subscription holds, call by call.
use xmtp_node_go.Base.{
  All, All-append, Bool, Bool-cases, Bytes, List, Option, Option-cases, [], arith, eq_self, inl,
  inr, length, ltb, member, none, refl, some, subst, sym, ℕ, ◌∙◌, ◌∷◌, ◌≡◌, nat_eq, bytes_eq,
}
use mathlib.Core.Option.{some_inj}
use xmtp_node_go.Subscriptions.{
  Envelope, Subscription, SubscriptionDispatcher, Received, register, subscribe, receive,
  receive_from, handle_envelope, has_wildcard, make_chan, message, ended, waits, wants,
}
use xmtp_node_go.Subscriptions.Consumers.{Live}
use xmtp_node_go.Subscriptions.Delivery.{Inv, Dispatched, handle_envelope-Dispatched, settled}

module _ (P : Envelope → Type 0) where
  -- Every envelope in the channel of a subscription has the property.
  abbrev pub Holds : ℕ → SubscriptionDispatcher → Type 0
  Holds p d = (s : Subscription) → d.heap p ≡ some s → All P s.messages_ch.buffer

  abbrev pub Has : Received → Type 0
  Has (message env) = P env
  Has ended = Unit
  Has waits = Unit

  settled-All :
      (env : Envelope) (x : Bool) (s : Subscription)
      → P env
      → All P s.messages_ch.buffer
      → All P (settled env x s).messages_ch.buffer
  unfolding settled
  settled-All env x s has all = elim (Bool-cases (wants s env x)) [
    | inr other ↦ rw (settled, other) all
    | inl wanted ↦ elim (Bool-cases (ltb (length s.messages_ch.buffer) s.messages_ch.capacity)) [
      | inl room ↦ rw (settled, wanted, room) (All-append P s.messages_ch.buffer _ all (has, tt))
      | inr none_left ↦ rw (settled, wanted, none_left) all
    ]
  ]

  Dispatched-Holds :
      (p : ℕ) (env : Envelope) (x : Bool) (d d' : SubscriptionDispatcher)
      → P env
      → Dispatched env x d.subscriptions d d'
      → Holds p d
      → Holds p d'
  Dispatched-Holds p env x d d' has r holds s at = elim (Option-cases (d.heap p)) [
    | inl missing ↦ absurd (ground (arith, r.heap p, missing, at))
    | inr (s0, there) ↦ elim (Bool-cases (member p d.subscriptions)) [
      | inl active ↦
          let now : some (settled env x s0) ≡ some s =
            ground (arith, r.heap p, there, active, at) in
          subst (λ (z : Subscription). All P z.messages_ch.buffer) (some_inj.0 now)
            (settled-All env x s0 has (holds s0 there))
      | inr gone ↦
          let now : some s0 ≡ some s = ground (arith, r.heap p, there, gone, at) in
          subst (λ (z : Subscription). All P z.messages_ch.buffer) (some_inj.0 now) (holds s0 there)
    ]
  ]

  -- The envelope, if there is one, has the property.
  abbrev pub Carries : Option Envelope → Type 0
  Carries none = Unit
  Carries (some env) = P env

  pub handle_envelope-Holds :
      (p : ℕ) (env : Option Envelope) (d d' : SubscriptionDispatcher)
      → Inv d
      → Carries env
      → handle_envelope env d ≡ some d'
      → Holds p d
      → Holds p d'
  unfolding handle_envelope
  handle_envelope-Holds p none d d' v has step holds = subst (Holds p) (some_inj.0 step) holds
  handle_envelope-Holds p (some env) d d' v has step holds =
      let (d1, e, r) = handle_envelope-Dispatched env d v in
      subst (Holds p) (some_inj.0 (sym e ∙ step)) (Dispatched-Holds p env _ d d1 has r holds)

  receive_from-Holds :
      (p : ℕ) (s : Subscription) (buffer : List Envelope) (d : SubscriptionDispatcher)
      → All P buffer
      → Holds p d
      → Has (receive_from p s buffer d).0 × Holds p (receive_from p s buffer d).1
  unfolding receive_from
  receive_from-Holds p s [] d all holds = elim (Bool-cases s.messages_ch.closed) [
    | inl closed ↦ (rw (receive_from, closed) tt, holds)
    | inr still ↦ (rw (receive_from, still) tt, holds)
  ]
  receive_from-Holds p s (env ∷ rest) d all holds = (
    all.0,
    λ s' at.
        let now : some (record s { messages_ch = record s.messages_ch { buffer = rest } })
            ≡ some s' =
          ground (arith, at, eq_self p) in
        subst (λ (z : Subscription). All P z.messages_ch.buffer) (some_inj.0 now) all.1,
  )

  pub receive-Holds :
      (p : ℕ) (r : Received) (d d' : SubscriptionDispatcher)
      → Live d p
      → receive p d ≡ some (r, d')
      → Holds p d
      → Has r × Holds p d'
  unfolding receive
  receive-Holds p r d d' (s, there) step holds =
      let now : receive p d ≡ some (receive_from p s s.messages_ch.buffer d) =
        rw (receive, there) refl in
      subst (λ (z : Received × SubscriptionDispatcher). Has z.0 × Holds p z.1)
        (some_inj.0 (sym now ∙ step))
        (receive_from-Holds p s s.messages_ch.buffer d (holds s there) holds)

  register-Holds :
      (s : Subscription) (d : SubscriptionDispatcher)
      → All P s.messages_ch.buffer
      → Holds (register s d).0 (register s d).1
  unfolding register
  register-Holds s d all s' at =
      let now : some s ≡ some s' = ground (arith, at, eq_self d.next) in
      subst (λ (z : Subscription). All P z.messages_ch.buffer) (some_inj.0 now) all

  pub subscribe-Holds :
      (topics : List (Bytes × Bool)) (d : SubscriptionDispatcher)
      → Holds (subscribe topics d).0 (subscribe topics d).1
  unfolding subscribe make_chan
  subscribe-Holds topics d = elim (Bool-cases (has_wildcard topics)) [
    | inl all ↦ rw (subscribe, all) (register-Holds _ d tt)
    | inr some_topics ↦ rw (subscribe, some_topics) (register-Holds _ d tt)
  ]
