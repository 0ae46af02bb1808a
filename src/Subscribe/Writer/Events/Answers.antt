-- ===== src/Subscribe/Writer/Events/Answers.antt =====
-- Every Mutate of a Subscribe stream is answered once.
use xmtp_node_go.Base.{
  Bool, Bool-cases, List, Option, Result, [], arith, err, false, if◌then◌else◌, inl, inr, insert,
  leb, length, ltb, none, ok, refl, some, subst, true, ℕ, ◌%◌, ◌++◌, ◌+◌, ◌-◌, ◌/◌, ◌==◌, ◌^◌, ◌∷◌,
  ◌≡◌, nat_eq, bytes_eq,
}
use xmtp_node_go.Subscribe.Frames.{GroupMessage, WelcomeMessage}
use xmtp_node_go.Subscribe.Writer.{
  End, Response, flushed, Writer, Settings, send, Envelope, unavailable, is_mlsv1_welcome, ping,
  deadline_exceeded, pending_of, is_catching_up, resource_exhausted, new_writer, pong, started,
}
use xmtp_node_go.Subscribe.Writer.Events.{
  mutate, client_ping, client_pong, unknown_version, empty_request, requests_closed, batch, live,
  live_closed, ping_tick, shutdown, send_error, Event, handle_tail, handle_ping_tick, send_ping,
  handle_client_pong, tail_welcome, run, handle_requests_closed, handle_live, tail_group, handle,
  serve,
}
use xmtp_node_go.Subscribe.Writer.Mutate.Answers.{handle_mutate-Counted}
use xmtp_node_go.Subscribe.Writer.Waves.{one_if, completes, waves_of}
use xmtp_node_go.Subscribe.Writer.Answers.{
  Post, Post-ok, Post-err, Post-if, Post-bind, Post-map, Same, Valid, Counted, Same-refl,
  Counted-trans,
}
use xmtp_node_go.Subscribe.Writer.Events.Batches.{
  send_other-Counted, send_groups-Counted, send_welcomes-Counted, handle_batch-Counted, unmoved,
}

-- The Mutates with an id among the turns.
abbrev pub asked : ℕ → Event → ℕ
asked k (mutate m) = one_if (m.mutate_id == k)
asked k _ = 0

abbrev pub asked_all : ℕ → List (Event × ℕ) → ℕ
asked_all k [] = 0
asked_all k ((e, now) ∷ events) = asked k e + asked_all k events

module _ (cfg : Settings) (k : ℕ) where
  tail_welcome-Counted :
      (m : Option WelcomeMessage) (now : ℕ) (w : Writer)
      → Valid w
      → Post (Counted k 0 w) (tail_welcome cfg m now w)
  unfolding tail_welcome
  tail_welcome-Counted none now w v = unmoved cfg k w w v (Same-refl w)
  tail_welcome-Counted (some m) now w v = send_welcomes-Counted cfg k (m ∷ []) 0 now w v

  tail_group-Counted :
      (m : Option GroupMessage) (now : ℕ) (w : Writer)
      → Valid w
      → Post (Counted k 0 w) (tail_group cfg m now w)
  unfolding tail_group
  tail_group-Counted none now w v = unmoved cfg k w w v (Same-refl w)
  tail_group-Counted (some m) now w v = send_groups-Counted cfg k (m ∷ []) 0 now w v

  handle_live-Counted :
      (env : Envelope) (now : ℕ) (w : Writer)
      → Valid w
      → Post (Counted k 0 w) (handle_live cfg env now w)
  unfolding handle_live handle_tail
  handle_live-Counted env now w v =
      let welcome = tail_welcome cfg (cfg.get_welcome_message_from_envelope env) now w in
      let group = tail_group cfg (cfg.get_group_message_from_envelope env) now w in
      let t = env.content_topic in
      let held : Writer = record w {
        pending = insert t (pending_of w t ++ env ∷ []) w.pending;
        pending_bytes = w.pending_bytes + length env.message;
      } in
      let over = ltb cfg.max_pending_bytes held.pending_bytes in
      Post-if (Counted k 0 w) (is_catching_up w t)
        (if over then err resource_exhausted else ok held)
        (if is_mlsv1_welcome t then welcome else group)
        (Post-if (Counted k 0 w) over (err resource_exhausted) (ok held)
          (Post-err (Counted k 0 w) resource_exhausted)
          (unmoved cfg k w held v (record { handed = refl; waves = refl; next_wave = refl })))
        (Post-if (Counted k 0 w) (is_mlsv1_welcome t) welcome group
          (tail_welcome-Counted (cfg.get_welcome_message_from_envelope env) now w v)
          (tail_group-Counted (cfg.get_group_message_from_envelope env) now w v))

  send_ping-Counted : (now : ℕ) (w : Writer) → Valid w → Post (Counted k 0 w) (send_ping cfg now w)
  unfolding send_ping
  send_ping-Counted now w v =
      let marked : Writer → Result End Writer =
        λ u. ok (record u { awaiting_pong = true; ping_sent_at = now }) in
      Post-bind (Counted k 0 w) (Counted k 0 w) (send cfg (ping w.ping_nonce ∷ []) now w) marked
        (send_other-Counted cfg k (ping w.ping_nonce ∷ []) now w w v refl (Same-refl w))
        (λ u c.
          Post-ok (Counted k 0 w) (record u { awaiting_pong = true; ping_sent_at = now })
            (record { count = c.count; valid = c.valid }))

  handle_ping_tick-Counted :
      (now : ℕ) (w : Writer) → Valid w → Post (Counted k 0 w) (handle_ping_tick cfg now w)
  unfolding handle_ping_tick
  handle_ping_tick-Counted now w v =
      let nonced : Writer = record w { ping_nonce = (w.ping_nonce + 1) % 2 ^ 64 } in
      let late = leb cfg.pong_deadline (now - w.ping_sent_at) in
      let idle = leb cfg.ping_interval (now - w.last_activity) in
      let waits : Result End Writer = if late then err deadline_exceeded else ok w in
      let probes : Result End Writer = if idle then send_ping cfg now nonced else ok w in
      let same : Post (Counted k 0 w) (ok w) = unmoved cfg k w w v (Same-refl w) in
      Post-if (Counted k 0 w) w.half_closed (ok w) (if w.awaiting_pong then waits else probes) same
        (Post-if (Counted k 0 w) w.awaiting_pong waits probes
          (Post-if (Counted k 0 w) late (err deadline_exceeded) (ok w)
            (Post-err (Counted k 0 w) deadline_exceeded) same)
          (Post-if (Counted k 0 w) idle (send_ping cfg now nonced) (ok w)
            (Post-map (Counted k 0 nonced) (Counted k 0 w) (send_ping cfg now nonced)
              (λ u c. record { count = c.count; valid = c.valid }) (send_ping-Counted now nonced v))
            same))

  handle_requests_closed-Counted :
      (recv_failed : Bool) (w : Writer)
      → Valid w
      → Post (Counted k 0 w) (handle_requests_closed cfg recv_failed w)
  unfolding handle_requests_closed
  handle_requests_closed-Counted recv_failed w v =
      let half : Writer = record w { half_closed = true; awaiting_pong = false } in
      let drained = length w.waves == 0 in
      Post-if (Counted k 0 w) recv_failed (err unavailable)
        (if drained then err flushed else ok half) (Post-err (Counted k 0 w) unavailable)
        (Post-if (Counted k 0 w) drained (err flushed) (ok half) (Post-err (Counted k 0 w) flushed)
          (unmoved cfg k w half v (record { handed = refl; waves = refl; next_wave = refl })))

  client_pong-Same : (nonce : ℕ) (w : Writer) → Same w (handle_client_pong cfg nonce w)
  unfolding handle_client_pong
  client_pong-Same nonce w = elim (Bool-cases (nonce == w.ping_nonce)) [
    | inl outstanding ↦ rw outstanding (record { handed = refl; waves = refl; next_wave = refl })
    | inr stale ↦ rw stale (Same-refl w)
  ]

  -- One turn of the loop: of the answers with an id, sent or due, a Mutate with that id adds one, and
  -- no other event adds or takes any.
  handle-Counted :
      (e : Event) (now : ℕ) (w : Writer)
      → Valid w
      → Post (Counted k (asked k e) w) (handle cfg e now w)
  unfolding handle
  handle-Counted (mutate m) now w v = handle_mutate-Counted cfg k m now w v
  handle-Counted (client_ping nonce) now w v =
      send_other-Counted cfg k (pong nonce ∷ []) now w w v refl (Same-refl w)
  handle-Counted (client_pong nonce) now w v = unmoved cfg k w _ v (client_pong-Same nonce w)
  handle-Counted unknown_version now w v = Post-err (Counted k 0 w) _
  handle-Counted empty_request now w v = unmoved cfg k w w v (Same-refl w)
  handle-Counted (requests_closed recv_failed) now w v =
      handle_requests_closed-Counted recv_failed w v
  handle-Counted (batch b) now w v = handle_batch-Counted cfg k b now w v
  handle-Counted (live env) now w v = handle_live-Counted env now w v
  handle-Counted live_closed now w v = Post-err (Counted k 0 w) _
  handle-Counted ping_tick now w v = handle_ping_tick-Counted now w v
  handle-Counted shutdown now w v = Post-err (Counted k 0 w) _
  handle-Counted (send_error e) now w v = Post-err (Counted k 0 w) e

  run-Counted :
      (events : List (Event × ℕ)) (w : Writer)
      → Valid w
      → Post (Counted k (asked_all k events) w) (run cfg events w)
  unfolding run
  run-Counted [] w v = unmoved cfg k w w v (Same-refl w)
  run-Counted ((e, now) ∷ events) w v =
      Post-bind (Counted k (asked k e) w) (Counted k (asked k e + asked_all k events) w)
        (handle cfg e now w) (run cfg events) (handle-Counted e now w v)
        (λ u c.
          Post-map (Counted k (asked_all k events) u) (Counted k (asked k e + asked_all k events) w)
            (run cfg events u)
            (λ x d. record { count = omega (arith, c.count, d.count); valid = d.valid })
            (run-Counted events u c.valid))

  new_writer-Valid : (now : ℕ) → Valid (new_writer now)
  unfolding new_writer
  new_writer-Valid now = record { distinct = tt; below = tt }

  -- Whatever events the writer's loop takes from the start of a stream, as long as the stream is
  -- up: the CatchupComplete frames with an id that were handed to send, and the waves in flight
  -- with that id, are together as many as the Mutates with that id that were taken. With no wave
  -- in flight, each of them has been answered by one CatchupComplete.
  pub serve_answers :
      (now : ℕ) (events : List (Event × ℕ)) (w : Writer)
      → serve cfg now events ≡ ok w
      → completes k w.handed + waves_of k w.waves ≡ asked_all k events
  unfolding serve new_writer Post
  serve_answers now events w e =
      let first : List Response = started (cfg.ping_interval / 1000000 % 2 ^ 32) ∷ [] in
      let counted : Post (Counted k (asked_all k events) (new_writer now)) (serve cfg now events) =
        Post-bind (Counted k 0 (new_writer now)) (Counted k (asked_all k events) (new_writer now))
          (send cfg first now (new_writer now)) (run cfg events)
          (send_other-Counted cfg k first now (new_writer now) (new_writer now)
            (new_writer-Valid now) refl (Same-refl (new_writer now)))
          (λ u c.
            Post-map (Counted k (asked_all k events) u)
              (Counted k (asked_all k events) (new_writer now)) (run cfg events u)
              (λ x d. Counted-trans k (asked_all k events) (new_writer now) u x c d)
              (run-Counted events u c.valid)) in
      omega
        (arith, (subst (Post (Counted k (asked_all k events) (new_writer now))) e counted).count)
