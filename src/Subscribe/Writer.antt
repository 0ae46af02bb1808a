-- ===== src/Subscribe/Writer.antt =====
-- The writer of a Subscribe stream: its state, send, dropTopic and completeWave of
-- pkg/mls/api/v1/subscribe.go.
--
-- `handed` holds the frames that `send` took without an error, in order. The outcome of each call of
-- `send` (the select over the queue, the sender's error, the two contexts and the timer) is read from
-- `link` at the number of calls so far. Unmarshalling an envelope is a parameter of the model.
-- Counters that are an int in Go are unbounded.
pub mod Mutate
pub mod Events
pub mod Waves
pub mod Answers
use xmtp_node_go.Base.{
  Bool, Bytes, List, Option, Result, [], delete, empty, erase, err, false, get_or, if◌then◌else◌,
  keep, leb, length, lookup, ltb, member, none, not, ok, some, ℕ, ◌++◌, ◌+◌, ◌-◌, ◌==◌, ◌∷◌, nat_eq,
  bytes_eq,
}
use xmtp_node_go.Topic.{is_mlsv1_welcome}
use xmtp_node_go.Subscriptions.{Envelope}
use xmtp_node_go.CatchUp.{Catchup}
use xmtp_node_go.Subscribe.Frames.{
  GroupMessage, WelcomeMessage, welcome_id, group_reader, welcome_reader, build_frames,
}

pub data Response : Type 0 where
  started : ℕ → Response
  group_messages : List GroupMessage → ℕ → Response
  welcome_messages : List WelcomeMessage → ℕ → Response
  topics_live : List Bytes → Response
  catchup_complete : ℕ → Response
  ping pong : ℕ → Response

-- How the stream ends; `flushed` is the end of a half-closed stream, by `flush`.
pub data End : Type 0 where
  unavailable invalid_argument resource_exhausted deadline_exceeded aborted flushed : End

-- A goroutine that a Mutate started.
pub data Scan : Type 0 where
  catch_up_groups : List Catchup → ℕ → Scan
  catch_up_welcomes : List Catchup → ℕ → Scan

pub record WaveState : Type 0 where
  pub mutate_id : ℕ
  pub scans_left : ℕ
  pub owned : ℕ
  pub topics : List Bytes
  pub wire : List Bytes

pub record Writer : Type 0 where
  pub high_water_marks : Bytes → Option ℕ
  pub catching_up : Bytes → Option Bool
  pub pending : Bytes → Option (List Envelope)
  pub subscribed : List Bytes
  pub sub_topics : Bytes → Option Bool
  pub pending_bytes : ℕ
  pub last_activity : ℕ
  pub awaiting_pong : Bool
  pub ping_nonce : ℕ
  pub ping_sent_at : ℕ
  pub subscribed_topics : ℕ
  pub next_wave : ℕ
  pub waves : List (ℕ × WaveState)
  pub topic_wave : Bytes → Option ℕ
  pub half_closed : Bool
  pub handed : List Response
  pub sends : ℕ
  pub scans : List Scan

-- What a call of `send` meets.
pub data Link : Type 0 where
  queued client_gone : Link
  failed : End → Link

pub record Settings : Type 0 where
  pub max_frame_bytes : ℕ
  pub max_pending_bytes : ℕ
  pub max_mutate_adds : ℕ
  pub ping_interval : ℕ
  pub pong_deadline : ℕ
  pub link : ℕ → Link
  pub get_group_message_from_envelope : Envelope → Option GroupMessage
  pub get_welcome_message_from_envelope : Envelope → Option WelcomeMessage

pub new_writer : ℕ → Writer
new_writer now = record {
  high_water_marks = empty;
  catching_up = empty;
  pending = empty;
  subscribed = [];
  sub_topics = empty;
  pending_bytes = 0;
  last_activity = now;
  awaiting_pong = false;
  ping_nonce = 0;
  ping_sent_at = 0;
  subscribed_topics = 0;
  next_wave = 0;
  waves = [];
  topic_wave = empty;
  half_closed = false;
  handed = [];
  sends = 0;
  scans = [];
}

unfoldable pub is_catching_up : Writer → Bytes → Bool
is_catching_up w t = get_or w.catching_up t false

abbrev pub pending_of : Writer → Bytes → List Envelope
pending_of w t = get_or w.pending t []

abbrev pub message_bytes : List Envelope → ℕ
message_bytes [] = 0
message_bytes (env ∷ envs) = length env.message + message_bytes envs

-- `waves[wave] = s`.
unfoldable pub put_wave : ℕ → WaveState → List (ℕ × WaveState) → List (ℕ × WaveState)
put_wave wave s waves = (wave, s) ∷ erase wave waves

-- The frames handed over.
abbrev pub taken : List Response → Writer → Writer
taken frames w = record w { handed = w.handed ++ frames; sends = w.sends + 1 }

-- The topic's slot given back, and the count of its wave.
abbrev pub freed : Bytes → Writer → Writer
freed t w = record w { topic_wave = delete t w.topic_wave }

abbrev pub fewer_owned : WaveState → WaveState
fewer_owned s = record s { owned = s.owned - 1 }

module _ (cfg : Settings) where
  unfoldable pub send : List Response → ℕ → Writer → Result End Writer
  send frames now w = if length frames == 0 then ok w else (elim (cfg.link w.sends) [
    | queued ↦ ok (record (taken frames w) { last_activity = now })
    | client_gone ↦ ok (taken frames w)
    | failed e ↦ err e
  ])

-- The parts of dropTopic before the wave's slot.
unfoldable pub drop_live : Bytes → Writer → Writer
drop_live t w =
    if member t w.subscribed
    then record w {
      subscribed = keep (λ u. not (t == u)) w.subscribed;
      subscribed_topics = w.subscribed_topics - 1;
    }
    else w

unfoldable pub drop_pending : Bytes → Writer → Writer
drop_pending t w =
    if is_catching_up w t
    then record w {
      pending_bytes = w.pending_bytes - message_bytes (pending_of w t);
      pending = delete t w.pending;
      catching_up = delete t w.catching_up;
    }
    else w

module _ (cfg : Settings) where
  -- The wave's slot that the topic held.
  unfoldable pub free_slot : Bytes → ℕ → Writer → Result End Writer
  free_slot t now w = elim (w.topic_wave t) [
    | none ↦ ok w
    | some wave ↦ elim (lookup wave w.waves) [
      | none ↦ ok (freed t w)
      | some s ↦
          if ltb 0 (fewer_owned s).owned
          then ok (record (freed t w) { waves = put_wave wave (fewer_owned s) w.waves })
          else send cfg (catchup_complete s.mutate_id ∷ []) now
              (record (freed t w) { waves = erase wave w.waves })
    ]
  ]

  unfoldable pub drop_topic : Bytes → ℕ → Writer → Result End Writer
  drop_topic t now w = free_slot t now (
      drop_pending t (
        drop_live t (record w {
          sub_topics = delete t w.sub_topics;
          high_water_marks = delete t w.high_water_marks;
        })))

-- The local variables of completeWave.
pub record Completing : Type 0 where
  pub writer : Writer
  pub groups : List GroupMessage
  pub welcomes : List WelcomeMessage
  pub marker : List Bytes

module _ (cfg : Settings) where
  -- The loop over a topic's buffer.
  parse_pending : Bytes → List Envelope → Completing → Completing
  parse_pending t [] c = c
  parse_pending t (env ∷ envs) c = parse_pending t envs (
      if is_mlsv1_welcome t
      then (elim (cfg.get_welcome_message_from_envelope env) [
        | some m ↦ record c { welcomes = c.welcomes ++ m ∷ [] }
        | none ↦ c
      ])
      else (elim (cfg.get_group_message_from_envelope env) [
        | some m ↦ record c { groups = c.groups ++ m ∷ [] }
        | none ↦ c
      ]))

  -- One turn of the loop over the wave's topics. The two lists of a wave have one length.
  settle_topic : ℕ → Bytes → Bytes → Completing → Completing
  unfolding parse_pending
  settle_topic wave t wire c =
      let w = c.writer in
      let kept = record w { topic_wave = delete t w.topic_wave } in
      let ungated = record kept {
        catching_up = delete t w.catching_up;
        pending_bytes = w.pending_bytes - message_bytes (pending_of w t);
        pending = delete t w.pending;
      } in
      let parsed = parse_pending t (pending_of w t) c in
      elim (w.topic_wave t) [
        | none ↦ c
        | some wv ↦
            if wv == wave
            then (if is_catching_up w t
                then record parsed { writer = ungated; marker = c.marker ++ wire ∷ [] }
                else record c {
                  writer = record kept { high_water_marks = delete t w.high_water_marks };
                  marker = c.marker ++ wire ∷ [];
                })
            else c
      ]

  settle_topics : ℕ → List Bytes → List Bytes → Completing → Completing
  settle_topics wave (t ∷ ts) (wire ∷ wires) c =
      settle_topics wave ts wires (settle_topic wave t wire c)
  settle_topics wave _ _ c = c

-- sort.Slice by id.
module _ {M : Type 0} (id : M → ℕ) where
  insert_sorted : M → List M → List M
  insert_sorted m [] = m ∷ []
  insert_sorted m (x ∷ xs) = if leb (id m) (id x) then m ∷ x ∷ xs else x ∷ insert_sorted m xs

  sort_by_id : List M → List M
  unfolding insert_sorted
  sort_by_id [] = []
  sort_by_id (m ∷ ms) = insert_sorted m (sort_by_id ms)

group_frames : List (List GroupMessage) → ℕ → List Response
group_frames [] mutate_id = []
group_frames (frame ∷ frames) mutate_id =
    group_messages frame mutate_id ∷ group_frames frames mutate_id

welcome_frames : List (List WelcomeMessage) → ℕ → List Response
welcome_frames [] mutate_id = []
welcome_frames (frame ∷ frames) mutate_id =
    welcome_messages frame mutate_id ∷ welcome_frames frames mutate_id

live_marker : List Bytes → List Response
live_marker [] = []
live_marker (t ∷ ts) = topics_live (t ∷ ts) ∷ []

module _ (cfg : Settings) where
  -- buildGroupFrames on the stream's marks.
  pub build_group_frames : List GroupMessage → ℕ → Writer → List Response × Writer
  unfolding group_frames
  build_group_frames ms mutate_id w =
      let (frames, marks) = build_frames group_reader cfg.max_frame_bytes ms w.high_water_marks in
      (group_frames frames mutate_id, record w { high_water_marks = marks })

  pub build_welcome_frames : List WelcomeMessage → ℕ → Writer → List Response × Writer
  unfolding welcome_frames
  build_welcome_frames ms mutate_id w =
      let (frames, marks) = build_frames welcome_reader cfg.max_frame_bytes ms w.high_water_marks in
      (welcome_frames frames mutate_id, record w { high_water_marks = marks })

  pub complete_wave : ℕ → WaveState → ℕ → Writer → Result End Writer
  unfolding settle_topics sort_by_id build_group_frames build_welcome_frames live_marker
  complete_wave wave s now w =
      let c =
        settle_topics cfg wave s.topics s.wire
          (record { writer = w; groups = []; welcomes = []; marker = [] }) in
      let cleared = record c.writer { waves = erase wave c.writer.waves } in
      let (groups, w1) = build_group_frames (sort_by_id (λ m. m.id) c.groups) s.mutate_id cleared in
      let (welcomes, w2) = build_welcome_frames (sort_by_id welcome_id c.welcomes) s.mutate_id w1 in
      send cfg (groups ++ (welcomes ++ (live_marker c.marker ++ catchup_complete s.mutate_id ∷ [])))
        now w2
