-- ===== src/Subscribe/Writer/Answers/Completions.antt =====
-- The answers of completeWave and of the cases of a catch-up batch.
use xmtp_node_go.Base.{
  Bool-cases, Bytes, List, Option-cases, [], ap, arith, erase, inl, inr, lookup, refl, some, ℕ,
  ◌++◌, ◌==◌, ◌∙◌, ◌∷◌, ◌≡◌, nat_eq, bytes_eq,
}
use xmtp_node_go.Subscribe.Frames.{
  GroupMessage, WelcomeMessage, welcome_id, group_reader, welcome_reader, build_frames,
}
use xmtp_node_go.Subscribe.Writer.{
  Response, catchup_complete, WaveState, Writer, Settings, Completing, settle_topic, settle_topics,
  group_frames, welcome_frames, live_marker, build_group_frames, build_welcome_frames,
  complete_wave, is_catching_up, sort_by_id,
}
use xmtp_node_go.Subscribe.Writer.Waves.{one_if, completes, completes-append}
use xmtp_node_go.Subscribe.Writer.Answers.{
  Post, Same, Same-refl, Same-trans, Valid, Counted, settle_wave-Counted,
}

completes-group_frames :
    (k i : ℕ) (fs : List (List GroupMessage)) → completes k (group_frames fs i) ≡ 0
unfolding group_frames
completes-group_frames k i [] = refl
completes-group_frames k i (f ∷ fs) = omega (arith, completes-group_frames k i fs)

completes-welcome_frames :
    (k i : ℕ) (fs : List (List WelcomeMessage)) → completes k (welcome_frames fs i) ≡ 0
unfolding welcome_frames
completes-welcome_frames k i [] = refl
completes-welcome_frames k i (f ∷ fs) = omega (arith, completes-welcome_frames k i fs)

completes-live_marker : (k : ℕ) (ts : List Bytes) → completes k (live_marker ts) ≡ 0
unfolding live_marker
completes-live_marker k [] = refl
completes-live_marker k (t ∷ ts) = refl

-- The frames of a completed wave hold one CatchupComplete.
completes-answer :
    (k i : ℕ) (a b c : List Response)
    → completes k a ≡ 0
    → completes k b ≡ 0
    → completes k c ≡ 0
    → completes k (a ++ (b ++ (c ++ catchup_complete i ∷ []))) ≡ one_if (i == k)
completes-answer k i a b c p q r = omega (
  arith,
  completes-append k a (b ++ (c ++ catchup_complete i ∷ [])),
  completes-append k b (c ++ catchup_complete i ∷ []),
  completes-append k c (catchup_complete i ∷ []),
  p,
  q,
  r,
)

module _ (cfg : Settings) where
  -- The builders touch the marks only, and build no CatchupComplete.
  pub build_group_frames-Same :
      (ms : List GroupMessage) (i : ℕ) (w : Writer)
      → Same w (build_group_frames cfg ms i w).1
        × ((k : ℕ) → completes k (build_group_frames cfg ms i w).0 ≡ 0)
  unfolding build_group_frames
  build_group_frames-Same ms i w = (
    record { handed = refl; waves = refl; next_wave = refl },
    λ k.
        completes-group_frames k i
          (build_frames group_reader cfg.max_frame_bytes ms w.high_water_marks).0,
  )

  pub build_welcome_frames-Same :
      (ms : List WelcomeMessage) (i : ℕ) (w : Writer)
      → Same w (build_welcome_frames cfg ms i w).1
        × ((k : ℕ) → completes k (build_welcome_frames cfg ms i w).0 ≡ 0)
  unfolding build_welcome_frames
  build_welcome_frames-Same ms i w = (
    record { handed = refl; waves = refl; next_wave = refl },
    λ k.
        completes-welcome_frames k i
          (build_frames welcome_reader cfg.max_frame_bytes ms w.high_water_marks).0,
  )

  settle_topic-Same :
      (wave : ℕ) (t wire : Bytes) (c : Completing)
      → Same c.writer (settle_topic cfg wave t wire c).writer
  unfolding settle_topic
  settle_topic-Same wave t wire c = elim (Option-cases (c.writer.topic_wave t)) [
    | inl settled ↦ rw (settle_topic, settled) (Same-refl c.writer)
    | inr (wv, at) ↦ elim (Bool-cases (wv == wave)) [
      | inr moved ↦ rw (settle_topic, at, moved) (Same-refl c.writer)
      | inl mine ↦ elim (Bool-cases (is_catching_up c.writer t)) [
        | inl gated ↦
            rw (settle_topic, at, mine, gated)
              (record { handed = refl; waves = refl; next_wave = refl })
        | inr one_shot ↦
            rw (settle_topic, at, mine, one_shot)
              (record { handed = refl; waves = refl; next_wave = refl })
      ]
    ]
  ]

  settle_topics-Same :
      (wave : ℕ) (ts wires : List Bytes) (c : Completing)
      → Same c.writer (settle_topics cfg wave ts wires c).writer
  unfolding settle_topics
  settle_topics-Same wave [] wires c = Same-refl c.writer
  settle_topics-Same wave (t ∷ ts) [] c = Same-refl c.writer
  settle_topics-Same wave (t ∷ ts) (wire ∷ wires) c =
      Same-trans c.writer _ _ (settle_topic-Same wave t wire c)
        (settle_topics-Same wave ts wires (settle_topic cfg wave t wire c))

  -- A wave that completes leaves the map and is answered once.
  pub complete_wave-Counted :
      (k wave : ℕ) (s x : WaveState) (now : ℕ) (w : Writer)
      → Valid w
      → lookup wave w.waves ≡ some s
      → x.mutate_id ≡ s.mutate_id
      → Post (Counted k 0 w) (complete_wave cfg wave x now w)
  unfolding complete_wave
  complete_wave-Counted k wave s x now w v there id =
      let c : Completing =
        settle_topics cfg wave x.topics x.wire
          (record { writer = w; groups = []; welcomes = []; marker = [] }) in
      let settled : Same w c.writer = settle_topics-Same wave x.topics x.wire _ in
      let cleared : Writer = record c.writer { waves = erase wave c.writer.waves } in
      let groups : List GroupMessage = sort_by_id (λ (m : GroupMessage). m.id) c.groups in
      let welcomes : List WelcomeMessage = sort_by_id welcome_id c.welcomes in
      let (one, no_groups) = build_group_frames-Same groups x.mutate_id cleared in
      let w1 : Writer = (build_group_frames cfg groups x.mutate_id cleared).1 in
      let (two, no_welcomes) = build_welcome_frames-Same welcomes x.mutate_id w1 in
      settle_wave-Counted cfg k wave s _ now w _ v there
        (completes-answer k x.mutate_id _ _ _ (no_groups k) (no_welcomes k)
            (completes-live_marker k c.marker)
          ∙ ap (λ i. one_if (i == k)) id)
        (Same-trans _ w1 _
          (Same-trans _ cleared w1
            (record {
              handed = settled.handed;
              waves = ap (erase wave) settled.waves;
              next_wave = settled.next_wave;
            })
            one)
          two)
