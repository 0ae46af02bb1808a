-- ===== src/Subscribe/Writer/Events/Batches.antt =====
-- The answers of the cases of a catch-up batch, and of frames without a CatchupComplete.
use xmtp_node_go.Base.{
  List, Option-cases, Result, arith, err, if◌then◌else◌, inl, inr, length, lookup, ltb, ok, refl,
  some, ℕ, ◌&&◌, ◌-◌, ◌==◌, ◌>>=◌, ◌≡◌, nat_eq, bytes_eq,
}
use xmtp_node_go.Subscribe.Frames.{GroupMessage, WelcomeMessage}
use xmtp_node_go.Subscribe.Writer.{
  End, Response, flushed, WaveState, Writer, Settings, send, put_wave, build_group_frames,
  build_welcome_frames, complete_wave, unavailable,
}
use xmtp_node_go.Subscribe.Writer.Events.{
  WaveBatch, fetch_error, group_rows, welcome_rows, scan_done, handle_history, handle_done,
  handle_batch,
}
use xmtp_node_go.Subscribe.Writer.Waves.{completes}
use xmtp_node_go.Subscribe.Writer.Answers.{
  Post, Post-ok, Post-err, Post-if, Post-bind, Post-map, Same, Same-Valid, Same-answers, Valid,
  Counted, Counted-refl, send-Counted, put_wave-Counted, Post-path, Same-refl,
}
use xmtp_node_go.Subscribe.Writer.Answers.Completions.{
  build_group_frames-Same, build_welcome_frames-Same, complete_wave-Counted,
}

module _ (cfg : Settings) (k : ℕ) where
  -- Frames without a CatchupComplete.
  pub send_other-Counted :
      (frames : List Response) (now : ℕ) (w w' : Writer)
      → Valid w
      → completes k frames ≡ 0
      → Same w w'
      → Post (Counted k 0 w) (send cfg frames now w')
  send_other-Counted frames now w w' v none_there same =
      Post-map (Counted k (completes k frames) w') (Counted k 0 w) (send cfg frames now w')
        (λ u c. record {
          count = omega (arith, c.count, none_there, Same-answers k w w' same);
          valid = c.valid;
        })
        (send-Counted cfg k frames now w' (Same-Valid w w' same v))

  pub send_groups-Counted :
      (ms : List GroupMessage) (i now : ℕ) (w : Writer)
      → Valid w
      → Post
          (Counted k 0 w)
          (send cfg (build_group_frames cfg ms i w).0 now (build_group_frames cfg ms i w).1)
  send_groups-Counted ms i now w v =
      let (same, no_answer) = build_group_frames-Same cfg ms i w in
      send_other-Counted _ now w _ v (no_answer k) same

  pub send_welcomes-Counted :
      (ms : List WelcomeMessage) (i now : ℕ) (w : Writer)
      → Valid w
      → Post
          (Counted k 0 w)
          (send cfg (build_welcome_frames cfg ms i w).0 now (build_welcome_frames cfg ms i w).1)
  send_welcomes-Counted ms i now w v =
      let (same, no_answer) = build_welcome_frames-Same cfg ms i w in
      send_other-Counted _ now w _ v (no_answer k) same

  handle_history-Counted :
      (b : WaveBatch) (s : WaveState) (now : ℕ) (w : Writer)
      → Valid w
      → Post (Counted k 0 w) (handle_history cfg b s now w)
  unfolding handle_history
  handle_history-Counted fetch_error s now w v = Post-ok (Counted k 0 w) w (Counted-refl k w v)
  handle_history-Counted (group_rows ms wave) s now w v = send_groups-Counted _ s.mutate_id now w v
  handle_history-Counted (welcome_rows ms wave) s now w v =
      send_welcomes-Counted _ s.mutate_id now w v
  handle_history-Counted (scan_done wave) s now w v = Post-ok (Counted k 0 w) w (Counted-refl k w v)

  handle_done-Counted :
      (wave : ℕ) (s : WaveState) (now : ℕ) (w : Writer)
      → Valid w
      → lookup wave w.waves ≡ some s
      → Post (Counted k 0 w) (handle_done cfg wave s now w)
  unfolding handle_done
  handle_done-Counted wave s now w v there =
      let fewer : WaveState = record s { scans_left = s.scans_left - 1 } in
      let kept : Writer = record w { waves = put_wave wave fewer w.waves } in
      let closing : Writer → Result End Writer =
        λ u. if u.half_closed && length u.waves == 0 then err flushed else ok u in
      let completed : Result End Writer = complete_wave cfg wave fewer now w in
      Post-if (Counted k 0 w) (ltb 0 fewer.scans_left) (ok kept) (completed >>= closing)
        (Post-ok (Counted k 0 w) kept (
          put_wave-Counted cfg k wave s fewer w kept v there refl
            (record { handed = refl; waves = refl; next_wave = refl })))
        (Post-bind (Counted k 0 w) (Counted k 0 w) completed closing
          (complete_wave-Counted cfg k wave s fewer now w v there refl)
          (λ u c.
            Post-if (Counted k 0 w) (u.half_closed && length u.waves == 0) (err flushed) (ok u)
              (Post-err (Counted k 0 w) flushed) (Post-ok (Counted k 0 w) u c)))

  pub unmoved : (w w' : Writer) → Valid w → Same w w' → Post (Counted k 0 w) (ok w')
  unmoved w w' v same =
      Post-ok (Counted k 0 w) w'
        (record { count = omega (arith, Same-answers k w w' same); valid = Same-Valid w w' same v })

  pub handle_batch-Counted :
      (b : WaveBatch) (now : ℕ) (w : Writer)
      → Valid w
      → Post (Counted k 0 w) (handle_batch cfg b now w)
  unfolding handle_batch
  handle_batch-Counted fetch_error now w v = Post-err (Counted k 0 w) unavailable
  handle_batch-Counted (group_rows ms wave) now w v = elim (Option-cases (lookup wave w.waves)) [
    | inl gone ↦
        Post-path (Counted k 0 w) (handle_batch cfg (group_rows ms wave) now w) (ok w)
          (ground (arith, gone)) (unmoved w w v (Same-refl w))
    | inr (s, there) ↦
        Post-path (Counted k 0 w) (handle_batch cfg (group_rows ms wave) now w)
          (handle_history cfg (group_rows ms wave) s now w) (ground (arith, there))
          (handle_history-Counted (group_rows ms wave) s now w v)
  ]
  handle_batch-Counted (welcome_rows ms wave) now w v = elim (Option-cases (lookup wave w.waves)) [
    | inl gone ↦
        Post-path (Counted k 0 w) (handle_batch cfg (welcome_rows ms wave) now w) (ok w)
          (ground (arith, gone)) (unmoved w w v (Same-refl w))
    | inr (s, there) ↦
        Post-path (Counted k 0 w) (handle_batch cfg (welcome_rows ms wave) now w)
          (handle_history cfg (welcome_rows ms wave) s now w) (ground (arith, there))
          (handle_history-Counted (welcome_rows ms wave) s now w v)
  ]
  handle_batch-Counted (scan_done wave) now w v = elim (Option-cases (lookup wave w.waves)) [
    | inl gone ↦
        Post-path (Counted k 0 w) (handle_batch cfg (scan_done wave) now w) (ok w)
          (ground (arith, gone)) (unmoved w w v (Same-refl w))
    | inr (s, there) ↦
        Post-path (Counted k 0 w) (handle_batch cfg (scan_done wave) now w)
          (handle_done cfg wave s now w) (ground (arith, there))
          (handle_done-Counted wave s now w v there)
  ]
