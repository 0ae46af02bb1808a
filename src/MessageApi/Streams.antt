-- ===== src/MessageApi/Streams.antt =====
-- The subscriptions that a stream leaves behind.
use xmtp_node_go.Base.{
  Bool-cases, Bytes, List, Option, Option-cases, [], ap, false, inl, inr, member, none, refl, some,
  subst, true, ℕ, ◌∷◌, ◌≡◌, ◌⊎◌, nat_eq, bytes_eq,
}
use mathlib.Core.Option
use mathlib.Core.Option.{some_inj}
use xmtp_node_go.Subscriptions.{SubscriptionDispatcher, Received, subscribe}
use xmtp_node_go.Subscriptions.Invariant.{
  subscribe-Inv, unsubscribe-Inv, receive-Inv, handle_envelope-Inv,
}
use xmtp_node_go.Subscriptions.Delivery.{Inv}
use xmtp_node_go.Subscriptions.Consumers.{
  Live, Kept, receive-Kept, handle_envelope-Kept, unsubscribe-Kept, unsubscribe-gone,
  subscribe-Entered,
}
use xmtp_node_go.MessageApi.{
  Stream, StreamEvent, requests, reads, dispatches, closes, drop_subscription, update_subscription,
  read_message, take_received, take_event, take_events, end_stream, subscribe2, topics_of,
  unsubscribe,
}

-- The dispatcher of a stream is sound, its own subscription is on the heap, and no other is in the map
-- that was not there before.
pub record Owns (before : List ℕ) (s : Stream) : Type 0 where
  pub sound : Inv s.dispatcher
  pub live : (p : ℕ) → s.current_subscription ≡ some p → Live s.dispatcher p
  pub own :
      (p : ℕ)
      → member p s.dispatcher.subscriptions ≡ true
      → (member p before ≡ true) ⊎ (s.current_subscription ≡ some p)

drop-Inv : (c : Option ℕ) (d : SubscriptionDispatcher) → Inv d → Inv (drop_subscription c d)
unfolding drop_subscription
drop-Inv none d v = v
drop-Inv (some p) d v = unsubscribe-Inv p d v

-- Without its own subscription, a stream has left the map as it found it.
drop-own :
    (before : List ℕ) (s : Stream)
    → Owns before s
    → (p : ℕ)
    → member p (drop_subscription s.current_subscription s.dispatcher).subscriptions ≡ true
    → member p before ≡ true
unfolding drop_subscription
drop-own before s o p h = by_current s.current_subscription refl h
  where
    by_current :
        (c : Option ℕ)
        → s.current_subscription ≡ c
        → member p (drop_subscription c s.dispatcher).subscriptions ≡ true
        → member p before ≡ true
    by_current none e h = elim (o.own p h) [ inl old ↦ old | inr mine ↦ absurd (cc (e, mine)) ]
    by_current (some q) e h = elim (o.own p ((unsubscribe-Kept q s.dispatcher).active p h)) [
      | inl old ↦ old
      | inr mine ↦
          let same : p ≡ q = cc (e, mine) in
          absurd (
            cc (
              subst (λ r. member r (unsubscribe q s.dispatcher).subscriptions ≡ true) same h,
              unsubscribe-gone q s.dispatcher,
            ))
    ]

-- A step of the dispatcher that enters nothing.
Owns-subscription :
    (before : List ℕ) (s : Stream) (d : SubscriptionDispatcher)
    → Owns before s
    → Inv d
    → Kept s.dispatcher d
    → Owns before (record s { dispatcher = d })
Owns-subscription before s d o v k = record {
  sound = v;
  live = λ p e. k.live p (o.live p e);
  own = λ p h. o.own p (k.active p h);
}

update-Owns :
    (before : List ℕ) (topics : List Bytes) (s : Stream)
    → Owns before s
    → Owns before (update_subscription topics s)
unfolding update_subscription
update-Owns before topics s o =
    let d = drop_subscription s.current_subscription s.dispatcher in
    let e = subscribe-Entered (topics_of topics) d in
    record {
      sound =
          subscribe-Inv (topics_of topics) d (drop-Inv s.current_subscription s.dispatcher o.sound);
      live = λ p same. subst (Live (subscribe (topics_of topics) d).1) (some_inj.0 same) e.live;
      own = λ p h. elim (e.active p h) [
        | inl old ↦ inl (drop-own before s o p old)
        | inr new ↦ inr (ap some new)
      ];
    }

-- The next state, and that it is one.
abbrev Goes : List ℕ → Option Stream → Type 0
Goes before o = (s : Stream) × (o ≡ some s) × Owns before s

received-Owns :
    (before : List ℕ) (r : Received) (d : SubscriptionDispatcher) (s : Stream)
    → Owns before s
    → Inv d
    → Kept s.dispatcher d
    → Owns before (take_received r d s)
unfolding take_received
received-Owns before (Received.message env) d s o v k =
    let kept = Owns-subscription before s d o v k in
    record { sound = kept.sound; live = kept.live; own = kept.own }
received-Owns before Received.ended d s o v k =
    let kept = Owns-subscription before s d o v k in
    record { sound = kept.sound; live = kept.live; own = kept.own }
received-Owns before Received.waits d s o v k = Owns-subscription before s d o v k

read-Goes : (before : List ℕ) (s : Stream) → Owns before s → Goes before (read_message s)
unfolding read_message
read-Goes before s o = elim (Option-cases s.current_subscription) [
  | inl nothing ↦ (s, simp (read_message, nothing) refl, o)
  | inr (p, mine) ↦
      let (r, d, e, k) = receive-Kept p s.dispatcher (o.live p mine) in
      let v = receive-Inv p r s.dispatcher d e o.sound in
      (take_received r d s, simp (read_message, mine, e) refl, received-Owns before r d s o v k)
]

take-Goes :
    (before : List ℕ) (e : StreamEvent) (s : Stream) → Owns before s → Goes before (take_event e s)
unfolding take_event
take-Goes before (requests none) s o = (s, refl, o)
take-Goes before (requests (some topics)) s o =
    (update_subscription topics s, refl, update-Owns before topics s o)
take-Goes before reads s o = read-Goes before s o
take-Goes before (dispatches env) s o =
    let (d, e, k) = handle_envelope-Kept env s.dispatcher o.sound in
    (
      record s { dispatcher = d },
      rw (take_event, e) refl,
      Owns-subscription before s d o (handle_envelope-Inv env s.dispatcher d e o.sound) k,
    )
take-Goes before closes s o =
    (record s { is_open = false }, refl, record { sound = o.sound; live = o.live; own = o.own })

run-Goes :
    (before : List ℕ) (es : List StreamEvent) (s : Stream)
    → Owns before s
    → Goes before (take_events es s)
unfolding take_events
run-Goes before [] s o = (s, refl, o)
run-Goes before (e ∷ es) s o = elim (Bool-cases s.is_open) [
  | inl up ↦
      let (s1, step, o1) = take-Goes before e s o in
      let (s2, rest, o2) = run-Goes before es s1 o1 in
      (s2, simp (take_events, up, step, rest) refl, o2)
  | inr down ↦ (s, simp (take_events, down) refl, o)
]

-- From a dispatcher that meets its invariant, a Subscribe2 stream does not panic, whatever its
-- requests, reads and ends and whatever is dispatched meanwhile. When it has ended, the dispatcher
-- meets its invariant, and no subscription of the stream is left in the map.
pub subscribe2-leaves :
    (events : List StreamEvent) (d : SubscriptionDispatcher)
    → Inv d
    → (s : Stream) × (subscribe2 events d ≡ some s)
      × Inv s.dispatcher
      × ((p : ℕ) → member p s.dispatcher.subscriptions ≡ true → member p d.subscriptions ≡ true)
unfolding subscribe2 end_stream
subscribe2-leaves events d v =
    let begin : Stream = record {
      dispatcher = d;
      current_subscription = none;
      subscribed_topic_count = 0;
      topics_gauge = 0;
      sent = [];
      is_open = true;
    } in
    let (s, e, o) =
      run-Goes d.subscriptions events begin
        (record { sound = v; live = λ p h. absurd (cc h); own = λ p h. inl h }) in
    (
      end_stream s,
      ap (Option.map end_stream) e,
      drop-Inv s.current_subscription s.dispatcher o.sound,
      drop-own d.subscriptions s o,
    )
