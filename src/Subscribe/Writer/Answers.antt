-- ===== src/Subscribe/Writer/Answers.antt =====
-- The answers of a Subscribe stream: what send, dropTopic and completeWave do to the CatchupComplete
-- frames handed over and to the waves in flight, taken together.
pub mod Completions
use xmtp_node_go.Base.{
  Bool, Bool-cases, Bytes, List, Option-cases, Result, [], ap, arith, delete, erase, err, false,
  if◌then◌else◌, inl, inr, lookup, ltb, member, ok, refl, some, subst, sym, true, ℕ, ◌+◌, ◌==◌,
  ◌>>=◌, ◌∙◌, ◌∷◌, ◌≡◌, ◌⊎◌, nat_eq, bytes_eq,
}
use xmtp_node_go.Subscriptions.{Envelope}
use xmtp_node_go.Subscribe.Frames.{
  GroupMessage, WelcomeMessage, group_reader, welcome_reader, build_frames, welcome_id,
}
use xmtp_node_go.Subscribe.Writer.{
  End, Response, catchup_complete, topics_live, group_messages, welcome_messages, WaveState, Writer,
  Settings, Completing, send, drop_live, drop_pending, free_slot, drop_topic, settle_topic,
  settle_topics, group_frames, welcome_frames, live_marker, build_group_frames,
  build_welcome_frames, complete_wave, put_wave, is_catching_up, parse_pending, sort_by_id, Link,
  queued, client_gone, failed, freed, taken, fewer_owned,
}
use xmtp_node_go.Subscribe.Writer.Waves.{
  one_if, completes, completes-append, waves_of, WavesValid, waves_of-erase, erase-WavesValid,
  put_wave-WavesValid,
}

-- A property of a result, if there is one.
unfoldable pub Post {ℓ κ} : {A : Type ℓ} → (A → Type κ) → Result End A → Type κ
Post P (ok a) = P a
Post P (err e) = Unit

pub Post-ok {ℓ κ} : {A : Type ℓ} (P : A → Type κ) (a : A) → P a → Post P (ok a)
unfolding Post
Post-ok P a h = h

pub Post-err {ℓ κ} : {A : Type ℓ} (P : A → Type κ) (e : End) → Post P (err e)
unfolding Post
Post-err P e = tt

pub Post-bind {ℓ κ μ ν} :
    {A : Type ℓ} {B : Type μ} (P : A → Type κ) (Q : B → Type ν) (r : Result End A)
    (f : A → Result End B)
    → Post P r
    → ((a : A) → P a → Post Q (f a))
    → Post Q (r >>= f)
unfolding Post
Post-bind P Q (ok a) f h k = k a h
Post-bind P Q (err e) f h k = tt

-- The CatchupComplete frames with an id that were handed over, and the waves in flight with it.
abbrev pub answers : ℕ → Writer → ℕ
answers k w = completes k w.handed + waves_of k w.waves

abbrev pub Valid : Writer → Type 0
Valid w = WavesValid w.next_wave w.waves

-- `n` answers more.
pub record Counted (k n : ℕ) (w w' : Writer) : Type 0 where
  pub count : answers k w' ≡ answers k w + n
  pub valid : Valid w'

-- The frames and the waves are as before.
pub record Same (w w' : Writer) : Type 0 where
  pub handed : w'.handed ≡ w.handed
  pub waves : w'.waves ≡ w.waves
  pub next_wave : w'.next_wave ≡ w.next_wave

pub Same-refl : (w : Writer) → Same w w
Same-refl w = record { handed = refl; waves = refl; next_wave = refl }

pub Same-trans : (u v w : Writer) → Same u v → Same v w → Same u w
Same-trans u v w p q = record {
  handed = q.handed ∙ p.handed;
  waves = q.waves ∙ p.waves;
  next_wave = q.next_wave ∙ p.next_wave;
}

pub Same-Valid : (u v : Writer) → Same u v → Valid u → Valid v
Same-Valid u v s h = rw (s.waves, s.next_wave) h

pub Same-answers : (k : ℕ) (u v : Writer) → Same u v → answers k v ≡ answers k u
Same-answers k u v s = rw (s.waves, s.handed) refl

pub Same-Counted : (k n : ℕ) (u v w : Writer) → Same u v → Counted k n v w → Counted k n u w
Same-Counted k n u v w s c = record {
  count = omega (arith, c.count, Same-answers k u v s);
  valid = c.valid;
}

pub Post-Counted :
    (k n : ℕ) (u v : Writer) (r : Result End Writer)
    → Same u v
    → Post (Counted k n v) r
    → Post (Counted k n u) r
unfolding Post
Post-Counted k n u v (ok w) s c = Same-Counted k n u v w s c
Post-Counted k n u v (err e) s c = tt

-- A step that changes no count, before one that does.
pub Counted-trans : (k n : ℕ) (u v w : Writer) → Counted k 0 u v → Counted k n v w → Counted k n u w
Counted-trans k n u v w p q = record { count = omega (arith, p.count, q.count); valid = q.valid }

pub Counted-refl : (k : ℕ) (w : Writer) → Valid w → Counted k 0 w w
Counted-refl k w v = record { count = omega arith; valid = v }

pub Post-map {ℓ κ μ} :
    {A : Type ℓ} (P : A → Type κ) (Q : A → Type μ) (r : Result End A)
    → ((a : A) → P a → Q a)
    → Post P r
    → Post Q r
unfolding Post
Post-map P Q (ok a) f h = f a h
Post-map P Q (err e) f h = tt

pub Post-path {ℓ κ} :
    {A : Type ℓ} (P : A → Type κ) (r s : Result End A) → r ≡ s → Post P s → Post P r
Post-path P r s e h = subst (Post P) (sym e) h

pub Post-if {ℓ κ} :
    {A : Type ℓ} (P : A → Type κ) (c : Bool) (r s : Result End A)
    → Post P r
    → Post P s
    → Post P (if c then r else s)
Post-if P true r s h k = h
Post-if P false r s h k = k

Link-cases : (l : Link) → (l ≡ queued) ⊎ (l ≡ client_gone) ⊎ ((e : End) × (l ≡ failed e))
Link-cases queued = inl refl
Link-cases client_gone = inr (inl refl)
Link-cases (failed e) = inr (inr (e, refl))

module _ (cfg : Settings) (k : ℕ) where
  pub send-Counted :
      (frames : List Response) (now : ℕ) (w : Writer)
      → Valid w
      → Post (Counted k (completes k frames) w) (send cfg frames now w)
  unfolding send Post
  send-Counted [] now w v = Counted-refl k w v
  send-Counted (f ∷ fs) now w v = elim (Link-cases (cfg.link w.sends)) [
    | inl all_well ↦
        Post-path (Counted k (completes k (f ∷ fs)) w) (send cfg (f ∷ fs) now w)
          (ok (record (taken (f ∷ fs) w) { last_activity = now })) (ground (arith, all_well))
          (record { count = omega (arith, completes-append k w.handed (f ∷ fs)); valid = v })
    | inr (inl gone) ↦
        Post-path (Counted k (completes k (f ∷ fs)) w) (send cfg (f ∷ fs) now w)
          (ok (taken (f ∷ fs) w)) (ground (arith, gone))
          (record { count = omega (arith, completes-append k w.handed (f ∷ fs)); valid = v })
    | inr (inr (e, wrong)) ↦
        Post-path (Counted k (completes k (f ∷ fs)) w) (send cfg (f ∷ fs) now w) (err e)
          (ground (arith, wrong)) tt
  ]

  -- A wave in flight leaves the map, and its CatchupComplete is among the frames.
  pub settle_wave-Counted :
      (wave : ℕ) (s : WaveState) (frames : List Response) (now : ℕ) (w w' : Writer)
      → Valid w
      → lookup wave w.waves ≡ some s
      → completes k frames ≡ one_if (s.mutate_id == k)
      → Same (record w { waves = erase wave w.waves }) w'
      → Post (Counted k 0 w) (send cfg frames now w')
  settle_wave-Counted wave s frames now w w' v there answer same =
      let cleared : Writer = record w { waves = erase wave w.waves } in
      let cleared_Valid : Valid cleared = erase-WavesValid wave w.next_wave w.waves v in
      Post-map (Counted k (completes k frames) w') (Counted k 0 w) (send cfg frames now w')
        (λ u c. record {
          count = omega (
            arith,
            c.count,
            Same-answers k cleared w' same,
            answer,
            waves_of-erase k wave s w.waves v.distinct there,
          );
          valid = c.valid;
        })
        (send-Counted frames now w' (Same-Valid cleared w' same cleared_Valid))

  -- A wave in flight changes, its id kept.
  pub put_wave-Counted :
      (wave : ℕ) (s x : WaveState) (w w' : Writer)
      → Valid w
      → lookup wave w.waves ≡ some s
      → x.mutate_id ≡ s.mutate_id
      → Same (record w { waves = put_wave wave x w.waves }) w'
      → Counted k 0 w w'
  unfolding put_wave
  put_wave-Counted wave s x w w' v there id same = record {
    count = omega (
      arith,
      Same-answers k (record w { waves = put_wave wave x w.waves }) w' same,
      waves_of-erase k wave s w.waves v.distinct there,
      ap (λ i. one_if (i == k)) id,
    );
    valid =
        Same-Valid (record w { waves = put_wave wave x w.waves }) w' same
          (put_wave-WavesValid wave w.next_wave s x w.waves v there);
  }

  -- Giving back the last slot of a wave answers it, and any other slot changes no count.
  free_slot-Counted :
      (t : Bytes) (now : ℕ) (w : Writer) → Valid w → Post (Counted k 0 w) (free_slot cfg t now w)
  unfolding free_slot Post
  free_slot-Counted t now w v = elim (Option-cases (w.topic_wave t)) [
    | inl no_wave ↦
        Post-path (Counted k 0 w) (free_slot cfg t now w) (ok w) (ground (arith, no_wave))
          (Counted-refl k w v)
    | inr (wave, at) ↦ elim (Option-cases (lookup wave w.waves)) [
      | inl gone ↦
          Post-path (Counted k 0 w) (free_slot cfg t now w) (ok (freed t w))
            (ground (arith, at, gone)) (record { count = omega arith; valid = v })
      | inr (s, there) ↦ elim (Bool-cases (ltb 0 (fewer_owned s).owned)) [
        | inl more ↦
            Post-path (Counted k 0 w) (free_slot cfg t now w)
              (ok (record (freed t w) { waves = put_wave wave (fewer_owned s) w.waves }))
              (ground (arith, at, there, more))
              (put_wave-Counted wave s (fewer_owned s) w _ v there refl
                (record { handed = refl; waves = refl; next_wave = refl }))
        | inr last ↦
            Post-path (Counted k 0 w) (free_slot cfg t now w)
              (send cfg (catchup_complete s.mutate_id ∷ []) now
                (record (freed t w) { waves = erase wave w.waves }))
              (ground (arith, at, there, last))
              (settle_wave-Counted wave s (catchup_complete s.mutate_id ∷ []) now w _ v there
                (omega arith) (record { handed = refl; waves = refl; next_wave = refl }))
      ]
    ]
  ]

  drop_live-Same : (t : Bytes) (w : Writer) → Same w (drop_live t w)
  unfolding drop_live
  drop_live-Same t w = elim (Bool-cases (member t w.subscribed)) [
    | inl live ↦ rw live (record { handed = refl; waves = refl; next_wave = refl })
    | inr not_live ↦ rw not_live (Same-refl w)
  ]

  drop_pending-Same : (t : Bytes) (w : Writer) → Same w (drop_pending t w)
  unfolding drop_pending
  drop_pending-Same t w = elim (Bool-cases (is_catching_up w t)) [
    | inl gated ↦ rw gated (record { handed = refl; waves = refl; next_wave = refl })
    | inr not_gated ↦ rw not_gated (Same-refl w)
  ]

  -- Dropping a topic changes no count.
  pub drop_topic-Counted :
      (t : Bytes) (now : ℕ) (w : Writer) → Valid w → Post (Counted k 0 w) (drop_topic cfg t now w)
  unfolding drop_topic
  drop_topic-Counted t now w v =
      let cleared : Writer = record w {
        sub_topics = delete t w.sub_topics;
        high_water_marks = delete t w.high_water_marks;
      } in
      let same : Same w (drop_pending t (drop_live t cleared)) =
        Same-trans w (drop_live t cleared) _
          (Same-trans w cleared _ (record { handed = refl; waves = refl; next_wave = refl })
            (drop_live-Same t cleared))
          (drop_pending-Same t (drop_live t cleared)) in
      Post-Counted k 0 w _ _ same (free_slot-Counted t now _ (Same-Valid w _ same v))
