-- ===== src/Streams/Handlers/Leaving.antt =====
-- What the handlers send, and what they leave in the dispatcher.
use xmtp_node_go.Subscriptions.Queues.{
  Holds, Has, handle_envelope-Holds, receive-Holds, subscribe-Holds, Carries,
}
use xmtp_node_go.MessageApi.{topics_of}
use xmtp_node_go.Base.{
  All, Bool, Bytes, List, Option, Option-cases, [], empty, false, if◌then◌else◌, inl, inr, member,
  none, refl, some, subst, sym, true, ℕ, ◌∷◌, ◌≡◌, ◌⊎◌, nat_eq, bytes_eq,
}
use xmtp_node_go.Streams.Handlers.{
  StreamEnd, LiveStream, ReplayEvent, send_all, dispatch, replay, replays, dispatched,
  take_received, take_event, live_loop, serve_topics, replay_failed, stream_done, service_done,
  cutover_tick, reads, dispatches, LiveEvent, send_failed,
}
use xmtp_node_go.Subscriptions.{Envelope, SubscriptionDispatcher, Received, subscribe, unsubscribe}
use xmtp_node_go.Subscriptions.Invariant.{
  handle_envelope-Inv, subscribe-Inv, unsubscribe-Inv, receive-Inv,
}
use xmtp_node_go.Subscriptions.Delivery.{Inv}
use xmtp_node_go.Subscriptions.Consumers.{
  Live, Kept, handle_envelope-Kept, receive-Kept, unsubscribe-Kept, unsubscribe-gone,
  subscribe-Entered,
}
use xmtp_node_go.Streams.Handlers.Rising.{RisingIds, Marked, send_all-Marked}

module _ {M : Type 0} (metadata : M → Option (Bytes × ℕ)) (panics : M → Bool)
    (parse : Envelope → Option M) (can_send : List M → M → Bool) (closed : StreamEnd) where
  -- An envelope is not parsed to a message that panics.
  abbrev pub Calm : Envelope → Type 0
  Calm env = (m : M) → parse env ≡ some m → panics m ≡ false

  abbrev pub CalmReplay : ReplayEvent M → Type 0
  CalmReplay (replays page) = All (λ m. panics m ≡ false) page
  CalmReplay (dispatched env) = Carries Calm env

  abbrev pub CalmLive : LiveEvent → Type 0
  CalmLive (dispatches env) = Carries Calm env
  CalmLive replay_failed = Unit
  CalmLive stream_done = Unit
  CalmLive service_done = Unit
  CalmLive (cutover_tick disabled) = Unit
  CalmLive reads = Unit

  -- The dispatcher is sound, the subscription is on its heap, no other is in the map that was not
  -- there before, what was sent is marked, and no envelope in the channel panics.
  record Good (before : List ℕ) (p : ℕ) (s : LiveStream M) : Type 0 where
    sound : Inv s.dispatcher
    live : Live s.dispatcher p
    own : (q : ℕ) → member q s.dispatcher.subscriptions ≡ true → (member q before ≡ true) ⊎ (p ≡ q)
    marked : Marked metadata s
    queued : Holds Calm p s.dispatcher

  abbrev Goes : List ℕ → ℕ → Option (LiveStream M) → Type 0
  Goes before p o = (s : LiveStream M) × (o ≡ some s) × Good before p s

  send_all-Good :
      (before : List ℕ) (p : ℕ) (ms : List M) (s : LiveStream M)
      → All (λ m. panics m ≡ false) ms
      → Good before p s
      → (sent : Bool) × (s' : LiveStream M) × (send_all metadata panics parse can_send closed ms s
          ≡ some (sent, s'))
        × Good before p s'
  send_all-Good before p ms s calm g =
      let (sent, s', e, kept, k) =
        send_all-Marked metadata panics parse can_send closed ms s calm g.marked in
      let same = sym kept in
      (
        sent,
        s',
        e,
        record {
          sound = subst Inv same g.sound;
          live = subst (λ d. Live d p) same g.live;
          own =
              subst
                (λ (d : SubscriptionDispatcher).
                  (q : ℕ) → member q d.subscriptions ≡ true → (member q before ≡ true) ⊎ (p ≡ q))
                same g.own;
          marked = k;
          queued = subst (Holds Calm p) same g.queued;
        },
      )

  Good-dispatcher :
      (before : List ℕ) (p : ℕ) (s : LiveStream M) (d : SubscriptionDispatcher)
      → Good before p s
      → Inv d
      → Kept s.dispatcher d
      → Holds Calm p d
      → Good before p (record s { dispatcher = d })
  Good-dispatcher before p s d g v k queued = record {
    sound = v;
    live = k.live p g.live;
    own = λ q h. g.own q (k.active q h);
    marked = g.marked;
    queued = queued;
  }

  dispatch-Goes :
      (before : List ℕ) (p : ℕ) (env : Option Envelope) (s : LiveStream M)
      → Carries Calm env
      → Good before p s
      → Goes before p (dispatch metadata panics parse can_send closed env s)
  unfolding dispatch
  dispatch-Goes before p env s calm g =
      let (d, e, k) = handle_envelope-Kept env s.dispatcher g.sound in
      (
        record s { dispatcher = d },
        rw (dispatch, e) refl,
        Good-dispatcher before p s d g (handle_envelope-Inv env s.dispatcher d e g.sound) k
            (handle_envelope-Holds Calm p env s.dispatcher d g.sound calm e g.queued),
      )

  replay-Goes :
      (before : List ℕ) (p : ℕ) (es : List (ReplayEvent M)) (s : LiveStream M)
      → All CalmReplay es
      → Good before p s
      → Goes before p (replay metadata panics parse can_send closed es s)
  unfolding replay
  replay-Goes before p [] s calm g = (s, refl, g)
  replay-Goes before p (replays page ∷ es) s calm g =
      let (sent, s1, e, g1) = send_all-Good before p page s calm.0 g in
      let (s2, rest, g2) = replay-Goes before p es s1 calm.1 g1 in
      (s2, simp (replay, e, rest) refl, g2)
  replay-Goes before p (dispatched env ∷ es) s calm g =
      let (s1, e, g1) = dispatch-Goes before p env s calm.0 g in
      let (s2, rest, g2) = replay-Goes before p es s1 calm.1 g1 in
      (s2, simp (replay, e, rest) refl, g2)

  -- A turn of the loop, or all of it: whether it returned, and that the stream is good.
  abbrev Turns : List ℕ → ℕ → Option (Option StreamEnd × LiveStream M) → Type 0
  Turns before p o =
      (end : Option StreamEnd) × (s : LiveStream M) × (o ≡ some (end, s)) × Good before p s

  received-Turns :
      (before : List ℕ) (p : ℕ) (r : Received) (s : LiveStream M)
      → Has Calm r
      → Good before p s
      → Turns before p (take_received metadata panics parse can_send closed r s)
  unfolding take_received
  received-Turns before p (Received.message env) s calm g = elim (Option-cases (parse env)) [
    | inl invalid ↦ (none, s, rw (take_received, invalid) refl, g)
    | inr (m, parsed) ↦
        let (sent, s1, e, g1) = send_all-Good before p (m ∷ []) s (calm m parsed, tt) g in
        (if sent then none else some send_failed, s1, rw (take_received, parsed, e) refl, g1)
  ]
  received-Turns before p Received.ended s calm g = (some closed, s, refl, g)
  received-Turns before p Received.waits s calm g = (none, s, refl, g)

  take-Turns :
      (before : List ℕ) (p : ℕ) (e : LiveEvent) (s : LiveStream M)
      → CalmLive e
      → Good before p s
      → Turns before p (take_event metadata panics parse can_send closed p e s)
  unfolding take_event
  take-Turns before p replay_failed s calm g = (_, s, refl, g)
  take-Turns before p stream_done s calm g = (_, s, refl, g)
  take-Turns before p service_done s calm g = (_, s, refl, g)
  take-Turns before p (cutover_tick disabled) s calm g = (_, s, refl, g)
  take-Turns before p reads s calm g =
      let (r, d, e, k) = receive-Kept p s.dispatcher g.live in
      let (has, queued) = receive-Holds Calm p r s.dispatcher d g.live e g.queued in
      let g1 = Good-dispatcher before p s d g (receive-Inv p r s.dispatcher d e g.sound) k queued in
      let (end, s1, took, g2) = received-Turns before p r (record s { dispatcher = d }) has g1 in
      (end, s1, simp (take_event, e, took) refl, g2)
  take-Turns before p (dispatches env) s calm g =
      let (s1, e, g1) = dispatch-Goes before p env s calm g in
      (none, s1, simp (take_event, e) refl, g1)

  loop-Turns :
      (before : List ℕ) (p : ℕ) (es : List LiveEvent) (s : LiveStream M)
      → All CalmLive es
      → Good before p s
      → Turns before p (live_loop metadata panics parse can_send closed p es s)
  unfolding live_loop
  loop-Turns before p [] s calm g = (none, s, refl, g)
  loop-Turns before p (e ∷ es) s calm g =
      let (end, s1, step, g1) = take-Turns before p e s calm.0 g in
      elim (Option-cases end) [
        | inl goes_on ↦
            let (end2, s2, rest, g2) = loop-Turns before p es s1 calm.1 g1 in
            (end2, s2, simp (live_loop, step, goes_on, rest) refl, g2)
        | inr (x, stops) ↦ (some x, s1, simp (live_loop, step, stops) refl, g1)
      ]

  -- From a dispatcher that meets its invariant, where no message of a replayed page panics, nor one
  -- that a dispatched envelope is parsed to, a handler that has subscribed does not panic, whichever
  -- messages are sent, and however it ends. What it has sent rises by id for each key, with no
  -- message twice. At its end the dispatcher meets its invariant, and the map of subscriptions holds
  -- none that was not there before.
  pub serve_topics-leaves :
      (topics : List Bytes) (history : List (ReplayEvent M)) (events : List LiveEvent)
      (d : SubscriptionDispatcher)
      → Inv d
      → All CalmReplay history
      → All CalmLive events
      → (end : Option StreamEnd) × (s : LiveStream M) × (serve_topics metadata panics parse can_send
            closed topics history events d
          ≡ some (end, s))
        × RisingIds metadata s.sent
        × Inv s.dispatcher
        × ((q : ℕ) → member q s.dispatcher.subscriptions ≡ true → member q d.subscriptions ≡ true)
  unfolding serve_topics
  serve_topics-leaves topics history events d v calm live =
      let enters = subscribe-Entered (topics_of topics) d in
      let p = (subscribe (topics_of topics) d).0 in
      let begin : LiveStream M = record {
        dispatcher = (subscribe (topics_of topics) d).1;
        high_water_marks = empty;
        sent = [];
      } in
      let (s1, first, g1) = replay-Goes d.subscriptions p history begin calm (record {
        sound = subscribe-Inv (topics_of topics) d v;
        live = enters.live;
        own = enters.active;
        marked = (tt, tt);
        queued = subscribe-Holds Calm (topics_of topics) d;
      }) in
      let (end, s2, rest, g2) = loop-Turns d.subscriptions p events s1 live g1 in
      (
        end,
        record s2 { dispatcher = unsubscribe p s2.dispatcher },
        simp (serve_topics, first, rest) refl,
        g2.marked.1,
        unsubscribe-Inv p s2.dispatcher g2.sound,
        λ q h. elim (g2.own q ((unsubscribe-Kept p s2.dispatcher).active q h)) [
          | inl old ↦ old
          | inr mine ↦ absurd (
              cc (
                subst (λ r. member r (unsubscribe p s2.dispatcher).subscriptions ≡ true) (sym mine)
                    h,
                unsubscribe-gone p s2.dispatcher,
              ))
        ],
      )
