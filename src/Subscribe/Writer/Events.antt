-- ===== src/Subscribe/Writer/Events.antt =====
-- The other cases of the writer's select of pkg/mls/api/v1/subscribe.go, and one turn of its loop.
pub mod Batches
pub mod Answers
mod Tests
use xmtp_node_go.Base.{
  Bool, Bytes, List, Option, Result, [], err, false, if◌then◌else◌, insert, keep, leb, length,
  lookup, ltb, none, ok, some, true, ℕ, ◌%◌, ◌&&◌, ◌++◌, ◌+◌, ◌-◌, ◌/◌, ◌==◌, ◌>>=◌, ◌^◌, ◌∷◌,
  nat_eq, bytes_eq,
}
use xmtp_node_go.Topic.{is_mlsv1_welcome, build_mlsv1_group_topic, build_mlsv1_welcome_topic}
use xmtp_node_go.Subscriptions.{Envelope}
use xmtp_node_go.Subscribe.Frames.{GroupMessage, WelcomeMessage, welcome_installation_key}
use xmtp_node_go.Subscribe.Writer.{
  End, unavailable, invalid_argument, resource_exhausted, deadline_exceeded, aborted, flushed,
  WaveState, Writer, Settings, ping, pong, is_catching_up, pending_of, put_wave, send,
  build_group_frames, build_welcome_frames, complete_wave, started, new_writer,
}
use xmtp_node_go.Subscribe.Writer.Mutate.{Mutate, handle_mutate}

-- catchUpBatch: a fetch error, or the rows of one kind and the end of the scan.
pub data WaveBatch : Type 0 where
  fetch_error : WaveBatch
  group_rows : List GroupMessage → ℕ → WaveBatch
  welcome_rows : List WelcomeMessage → ℕ → WaveBatch
  scan_done : ℕ → WaveBatch

pub data Event : Type 0 where
  mutate : Mutate → Event
  client_ping client_pong : ℕ → Event
  unknown_version empty_request : Event
  requests_closed : Bool → Event
  batch : WaveBatch → Event
  live : Envelope → Event
  live_closed : Event
  ping_tick : Event
  shutdown : Event
  send_error : End → Event

-- Whether a wave still owns a topic.
wanted : ℕ → Writer → Bytes → Bool
wanted wave w t = elim (w.topic_wave t) [ none ↦ false | some wv ↦ wv == wave ]

module _ (cfg : Settings) where
  handle_history : WaveBatch → WaveState → ℕ → Writer → Result End Writer
  unfolding wanted
  handle_history fetch_error s now w = ok w
  handle_history (group_rows ms wave) s now w =
      let kept = keep (λ m. wanted wave w (build_mlsv1_group_topic m.group_id)) ms in
      let (frames, w') = build_group_frames cfg kept s.mutate_id w in send cfg frames now w'
  handle_history (welcome_rows ms wave) s now w =
      let kept =
        keep (λ m. wanted wave w (build_mlsv1_welcome_topic (welcome_installation_key m))) ms in
      let (frames, w') = build_welcome_frames cfg kept s.mutate_id w in send cfg frames now w'
  handle_history (scan_done wave) s now w = ok w

  -- The end of one of a wave's scans.
  handle_done : ℕ → WaveState → ℕ → Writer → Result End Writer
  handle_done wave s now w =
      let fewer = record s { scans_left = s.scans_left - 1 } in
      if ltb 0 fewer.scans_left
      then ok (record w { waves = put_wave wave fewer w.waves })
      else complete_wave cfg wave fewer now w >>= λ completed.
          if completed.half_closed && length completed.waves == 0 then err flushed else ok completed

  pub handle_batch : WaveBatch → ℕ → Writer → Result End Writer
  unfolding handle_history handle_done
  handle_batch fetch_error now w = err unavailable
  handle_batch (group_rows ms wave) now w = elim (lookup wave w.waves) [
    | none ↦ ok w
    | some s ↦ handle_history (group_rows ms wave) s now w
  ]
  handle_batch (welcome_rows ms wave) now w = elim (lookup wave w.waves) [
    | none ↦ ok w
    | some s ↦ handle_history (welcome_rows ms wave) s now w
  ]
  handle_batch (scan_done wave) now w = elim (lookup wave w.waves) [
    | none ↦ ok w
    | some s ↦ handle_done wave s now w
  ]

  -- What the live tail sends, tagged 0; an envelope that cannot be read is skipped.
  tail_welcome : Option WelcomeMessage → ℕ → Writer → Result End Writer
  tail_welcome none now w = ok w
  tail_welcome (some m) now w =
      let (frames, w') = build_welcome_frames cfg (m ∷ []) 0 w in send cfg frames now w'

  tail_group : Option GroupMessage → ℕ → Writer → Result End Writer
  tail_group none now w = ok w
  tail_group (some m) now w =
      let (frames, w') = build_group_frames cfg (m ∷ []) 0 w in send cfg frames now w'

  handle_tail : Envelope → ℕ → Writer → Result End Writer
  unfolding tail_welcome tail_group
  handle_tail env now w =
      if is_mlsv1_welcome env.content_topic
      then tail_welcome (cfg.get_welcome_message_from_envelope env) now w
      else tail_group (cfg.get_group_message_from_envelope env) now w

  handle_live : Envelope → ℕ → Writer → Result End Writer
  unfolding handle_tail
  handle_live env now w =
      let t = env.content_topic in
      let held = w.pending_bytes + length env.message in
      if is_catching_up w t
      then (if ltb cfg.max_pending_bytes held
          then err resource_exhausted
          else ok (record w {
            pending = insert t (pending_of w t ++ env ∷ []) w.pending;
            pending_bytes = held;
          }))
      else handle_tail env now w

  handle_requests_closed : Bool → Writer → Result End Writer
  handle_requests_closed recv_failed w =
      if recv_failed
      then err unavailable
      else if length w.waves == 0
      then err flushed
      else ok (record w { half_closed = true; awaiting_pong = false })

  -- The Ping with the nonce just counted up.
  send_ping : ℕ → Writer → Result End Writer
  send_ping now w = do
    sent ← send cfg (ping w.ping_nonce ∷ []) now w
    ok (record sent { awaiting_pong = true; ping_sent_at = now })

  handle_ping_tick : ℕ → Writer → Result End Writer
  unfolding send_ping
  handle_ping_tick now w =
      if w.half_closed
      then ok w
      else if w.awaiting_pong
      then (if leb cfg.pong_deadline (now - w.ping_sent_at) then err deadline_exceeded else ok w)
      else if leb cfg.ping_interval (now - w.last_activity)
      then send_ping now (record w { ping_nonce = (w.ping_nonce + 1) % 2 ^ 64 })
      else ok w

  handle_client_pong : ℕ → Writer → Writer
  handle_client_pong nonce w =
      if nonce == w.ping_nonce then record w { awaiting_pong = false } else w

  -- One turn of the loop.
  pub handle : Event → ℕ → Writer → Result End Writer
  unfolding handle_batch handle_live handle_requests_closed handle_ping_tick handle_client_pong
  handle (mutate m) now w = handle_mutate cfg m now w
  handle (client_ping nonce) now w = send cfg (pong nonce ∷ []) now w
  handle (client_pong nonce) now w = ok (handle_client_pong nonce w)
  handle unknown_version now w = err invalid_argument
  handle empty_request now w = ok w
  handle (requests_closed recv_failed) now w = handle_requests_closed recv_failed w
  handle (batch b) now w = handle_batch b now w
  handle (live env) now w = handle_live env now w
  handle live_closed now w = err aborted
  handle ping_tick now w = handle_ping_tick now w
  handle shutdown now w = err unavailable
  handle (send_error e) now w = err e

  -- The turns of the loop, each with its time, until one of them ends the stream.
  pub run : List (Event × ℕ) → Writer → Result End Writer
  run [] w = ok w
  run ((e, now) ∷ events) w = handle e now w >>= run events

  -- The stream from its start: the Started frame, with the keepalive interval as a uint32, and the
  -- loop.
  pub serve : ℕ → List (Event × ℕ) → Result End Writer
  unfolding run
  serve now events =
      send cfg (started (cfg.ping_interval / 1000000 % 2 ^ 32) ∷ []) now (new_writer now)
      >>= run events
