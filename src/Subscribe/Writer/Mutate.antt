-- ===== src/Subscribe/Writer/Mutate.antt =====
-- The Mutate case of the writer of pkg/mls/api/v1/subscribe.go.
pub mod Adds
pub mod Answers
mod Tests
use xmtp_node_go.Base.{
  Bool, Bytes, List, Option, Result, [], contains, err, fail_if, false, get_or, if◌then◌else◌,
  insert, leb, length, ltb, member, not, ok, true, ℕ, ◌&&◌, ◌++◌, ◌+◌, ◌==◌, ◌>>=◌, ◌||◌, ◌∷◌,
  nat_eq, bytes_eq, ◌>>◌,
}
use xmtp_node_go.Topic.{split_topic, build_mls_topic, topic_kind_group_messages_v1}
use xmtp_node_go.CatchUp.{Catchup}
use xmtp_node_go.Subscribe.Writer.{
  End, invalid_argument, resource_exhausted, WaveState, Writer, Settings, Scan, catch_up_groups,
  catch_up_welcomes, catchup_complete, is_catching_up, put_wave, send, drop_topic,
}

pub record Subscription : Type 0 where
  pub topic : Bytes
  pub id_cursor : ℕ

pub record Mutate : Type 0 where
  pub mutate_id : ℕ
  pub history_only : Bool
  pub adds : List Subscription
  pub removes : List Bytes

pub record AddReq : Type 0 where
  pub wire : Bytes
  pub kind : ℕ
  pub id : Bytes
  pub cursor : ℕ

-- Whether a wave in flight has the id.
unfoldable pub in_flight : ℕ → List (ℕ × WaveState) → Bool
in_flight mutate_id [] = false
in_flight mutate_id ((wave, s) ∷ waves) = s.mutate_id == mutate_id || in_flight mutate_id waves

-- `addByTopic` in the order of `addOrder`: a new topic goes to the end, and of a repeated one the
-- lowest cursor stays.
unfoldable pub merge_add : Bytes → AddReq → List (Bytes × AddReq) → List (Bytes × AddReq)
merge_add t a [] = (t, a) ∷ []
merge_add t a ((u, ex) ∷ m) =
    let rest = merge_add t a m in
    if u == t
    then (u, if ltb a.cursor ex.cursor then record ex { cursor = a.cursor; wire = a.wire } else ex)
      ∷ m
    else (u, ex) ∷ rest

unfoldable pub split : Bytes → Result End (ℕ × Bytes)
split wire = elim (split_topic wire) [ ok parts ↦ ok parts | err e ↦ err invalid_argument ]

unfoldable pub collect_adds :
    List Subscription → List (Bytes × AddReq) → Result End (List (Bytes × AddReq))
unfolding merge_add split
collect_adds [] m = ok m
collect_adds (add ∷ adds) m = do
  (kind, id) ← split add.topic
  collect_adds adds (
      merge_add (build_mls_topic kind id)
        (record { wire = add.topic; kind = kind; id = id; cursor = add.id_cursor }) m)

-- The local variables of the loop over the adds.
pub record Adding : Type 0 where
  pub writer : Writer
  pub group_adds : List Catchup
  pub group_topics : List Bytes
  pub group_wire : List Bytes
  pub welcome_adds : List Catchup
  pub welcome_topics : List Bytes
  pub welcome_wire : List Bytes
  pub newly_live : ℕ

abbrev no_adds : Writer → Adding
no_adds w = record {
  writer = w;
  group_adds = [];
  group_topics = [];
  group_wire = [];
  welcome_adds = [];
  welcome_topics = [];
  welcome_wire = [];
  newly_live = 0;
}

-- The topic is gated, and registered on the dispatcher.
unfoldable pub go_live : Bytes → Adding → Adding
go_live t a = record a {
  writer = record a.writer {
    catching_up = insert t true a.writer.catching_up;
    sub_topics = insert t true a.writer.sub_topics;
    subscribed =
        (if member t a.writer.subscribed then a.writer.subscribed else t ∷ a.writer.subscribed);
  };
  newly_live = a.newly_live + 1;
}

-- The switch over the kind.
unfoldable pub request_scan : Bytes → AddReq → Adding → Adding
request_scan t r a =
    if r.kind == topic_kind_group_messages_v1
    then record a {
      group_adds = a.group_adds ++ record { key = r.id; id_cursor = r.cursor } ∷ [];
      group_topics = a.group_topics ++ t ∷ [];
      group_wire = a.group_wire ++ r.wire ∷ [];
    }
    else record a {
      welcome_adds = a.welcome_adds ++ record { key = r.id; id_cursor = r.cursor } ∷ [];
      welcome_topics = a.welcome_topics ++ t ∷ [];
      welcome_wire = a.welcome_wire ++ r.wire ∷ [];
    }

-- A topic that is not active on the stream, or no longer is.
unfoldable pub start_topic : Bool → Bytes → AddReq → Adding → Adding
unfolding go_live request_scan
start_topic history_only t r a =
    let floored = record a {
      writer = record a.writer { high_water_marks = insert t r.cursor a.writer.high_water_marks };
    } in
    request_scan t r (if history_only then floored else go_live t floored)

unfoldable pub set_topic_wave : ℕ → List Bytes → (Bytes → Option ℕ) → Bytes → Option ℕ
set_topic_wave wave [] m = m
set_topic_wave wave (t ∷ ts) m = set_topic_wave wave ts (insert t wave m)

-- The scans of a wave: one for each kind that has adds.
abbrev group_scan : List Catchup → ℕ → List Scan
group_scan [] wave = []
group_scan (a ∷ adds) wave = catch_up_groups (a ∷ adds) wave ∷ []

abbrev welcome_scan : List Catchup → ℕ → List Scan
welcome_scan [] wave = []
welcome_scan (a ∷ adds) wave = catch_up_welcomes (a ∷ adds) wave ∷ []

unfoldable pub start_wave : ℕ → Adding → Writer
unfolding set_topic_wave
start_wave mutate_id a =
    let w = a.writer in
    let scans = group_scan a.group_adds w.next_wave ++ welcome_scan a.welcome_adds w.next_wave in
    record w {
      next_wave = w.next_wave + 1;
      waves =
          put_wave w.next_wave
            (record {
              mutate_id = mutate_id;
              scans_left = length scans;
              owned = length a.group_adds + length a.welcome_adds;
              topics = a.group_topics ++ a.welcome_topics;
              wire = a.group_wire ++ a.welcome_wire;
            })
            w.waves;
      topic_wave =
          set_topic_wave w.next_wave a.welcome_topics
            (set_topic_wave w.next_wave a.group_topics w.topic_wave);
      scans = w.scans ++ scans;
    }

module _ (cfg : Settings) where
  unfoldable pub drop_all : List Bytes → ℕ → Writer → Result End Writer
  unfolding split
  drop_all [] now w = ok w
  drop_all (wire ∷ removes) now w = do
    (kind, id) ← split wire
    dropped ← drop_topic cfg (build_mls_topic kind id) now w
    drop_all removes now dropped

  -- One turn of the loop over `addOrder`.
  unfoldable pub take_add : Bool → ℕ → Bytes → AddReq → Adding → Result End Adding
  unfolding start_topic
  take_add history_only now t r a =
      let w = a.writer in
      let active = member t w.subscribed || is_catching_up w t in
      if contains w.topic_wave t && not active
      then err invalid_argument
      else if not active
      then ok (start_topic history_only t r a)
      else if history_only
      then err invalid_argument
      else if leb (get_or w.high_water_marks t 0) r.cursor
      then ok a
      else drop_topic cfg t now w >>= λ dropped.
          ok (start_topic history_only t r (record a { writer = dropped }))

  unfoldable pub take_adds : Bool → ℕ → List (Bytes × AddReq) → Adding → Result End Adding
  unfolding take_add
  take_adds history_only now [] a = ok a
  take_adds history_only now ((t, r) ∷ requests) a = do
    taken ← take_add history_only now t r a
    take_adds history_only now requests taken

  -- The gauge, and the wave or the immediate answer.
  unfoldable pub finish_mutate : ℕ → ℕ → Adding → Result End Writer
  unfolding start_wave
  finish_mutate mutate_id now a =
      let counted = record a {
        writer = record a.writer { subscribed_topics = a.writer.subscribed_topics + a.newly_live };
      } in
      if ltb 0 (length a.group_adds + length a.welcome_adds)
      then ok (start_wave mutate_id counted)
      else send cfg (catchup_complete mutate_id ∷ []) now counted.writer

  -- The adds, after the removes.
  unfoldable pub apply_adds : Mutate → ℕ → List (Bytes × AddReq) → Writer → Result End Writer
  unfolding take_adds finish_mutate
  apply_adds m now requests w = do
    added ← take_adds m.history_only now requests (no_adds w)
    finish_mutate m.mutate_id now added

  unfoldable pub apply_requests : Mutate → ℕ → Writer → List (Bytes × AddReq) → Result End Writer
  unfolding drop_all apply_adds
  apply_requests m now w requests = do
    dropped ← drop_all m.removes now w
    apply_adds m now requests dropped

  unfoldable pub handle_mutate : Mutate → ℕ → Writer → Result End Writer
  unfolding in_flight collect_adds apply_requests
  handle_mutate m now w = do
    fail_if (ltb 0 (length m.adds) && m.mutate_id == 0) invalid_argument
    fail_if (ltb cfg.max_mutate_adds (length m.adds)) resource_exhausted
    fail_if (not (m.mutate_id == 0) && in_flight m.mutate_id w.waves) invalid_argument
    requests ← collect_adds m.adds []
    apply_requests m now w requests
