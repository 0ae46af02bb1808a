-- ===== src/Subscribe/Frames.antt =====
-- buildGroupFrames and buildWelcomeFrames of pkg/mls/api/v1/subscribe.go: the high-water dedup and
-- the packing into frames. The two differ in how a message gives its topic key, its id and its data.
pub mod Dedup
pub mod Sizes
mod Tests
use xmtp_node_go.Base.{
  Bytes, List, Option, [], get_or, if◌then◌else◌, insert, leb, length, ltb, ℕ, ◌&&◌, ◌++◌, ◌+◌,
  ◌==◌, ◌∷◌, nat_eq, bytes_eq,
}
use xmtp_node_go.Topic.{build_mlsv1_group_topic, build_mlsv1_welcome_topic}

-- The fields of the protobuf messages that the stream reads.
pub record GroupMessage : Type 0 where
  pub id : ℕ
  pub group_id : Bytes
  pub body : Bytes

pub data WelcomeMessage : Type 0 where
  v1 : ℕ → Bytes → Bytes → WelcomeMessage
  welcome_pointer : ℕ → Bytes → Bytes → WelcomeMessage

unfoldable pub welcome_installation_key : WelcomeMessage → Bytes
welcome_installation_key (v1 id key body) = key
welcome_installation_key (welcome_pointer id key pointer) = key

unfoldable pub welcome_id : WelcomeMessage → ℕ
welcome_id (v1 id key body) = id
welcome_id (welcome_pointer id key pointer) = id

unfoldable pub welcome_data : WelcomeMessage → Bytes
welcome_data (v1 id key body) = body
welcome_data (welcome_pointer id key pointer) = pointer

-- What the builders read of a message: its topic key, its id and the size of its data.
pub record Reader (M : Type 0) : Type 0 where
  pub key : M → Bytes
  pub id : M → ℕ
  pub size : M → ℕ

abbrev pub group_reader : Reader GroupMessage
group_reader = record {
  key = λ m. build_mlsv1_group_topic m.group_id;
  id = λ m. m.id;
  size = λ m. length m.body;
}

abbrev pub welcome_reader : Reader WelcomeMessage
welcome_reader = record {
  key = λ m. build_mlsv1_welcome_topic (welcome_installation_key m);
  id = welcome_id;
  size = λ m. length (welcome_data m);
}

-- The variables of the loop: the stream's high-water marks, the frames so far, and the open frame.
pub record Packing (M : Type 0) : Type 0 where
  pub high_water_marks : Bytes → Option ℕ
  pub frames : List (List M)
  pub frame : List M
  pub frame_bytes : ℕ

module _ {M : Type 0} where
  flush : Packing M → Packing M
  flush p =
      if length p.frame == 0
      then p
      else record p { frames = p.frames ++ p.frame ∷ []; frame = []; frame_bytes = 0 }

module _ {M : Type 0} (r : Reader M) where
  append_message : M → Packing M → Packing M
  append_message m p = record p {
    frame = p.frame ++ m ∷ [];
    frame_bytes = p.frame_bytes + r.size m;
  }

module _ {M : Type 0} (r : Reader M) (max_frame_bytes : ℕ) where
  pack : M → Packing M → Packing M
  unfolding flush append_message
  pack m p =
      if leb (r.id m) (get_or p.high_water_marks (r.key m) 0)
      then p
      else (let marked = record p {
        high_water_marks = insert (r.key m) (r.id m) p.high_water_marks;
      } in
          append_message r m (
            if ltb max_frame_bytes (p.frame_bytes + r.size m) && ltb 0 (length p.frame)
            then flush marked
            else marked))

  pack_all : List M → Packing M → Packing M
  pack_all [] p = p
  pack_all (m ∷ ms) p = pack_all ms (pack m p)

  -- The frames of a batch of messages, and the marks after it.
  pub build_frames : List M → (Bytes → Option ℕ) → List (List M) × (Bytes → Option ℕ)
  unfolding pack_all flush
  build_frames ms marks =
      let p = flush (
        pack_all ms
          (record { high_water_marks = marks; frames = []; frame = []; frame_bytes = 0 })) in
      (p.frames, p.high_water_marks)
