-- ===== src/Subscribe/Frames/Sizes.antt =====
-- The sizes of the frames: none is empty, and none is past the limit unless it holds one message.
use xmtp_node_go.Base.{
  All, All-append, Bool-cases, Bytes, List, Option, [], arith, get_or, inl, inr, insert, leb,
  length, length-append, ltb, refl, ℕ, ◌&&◌, ◌++◌, ◌+◌, ◌<◌, ◌==◌, ◌∷◌, ◌≡◌, ◌≤◌, ◌⊎◌, nat_eq,
  bytes_eq,
}
use xmtp_node_go.Subscribe.Frames.{
  Reader, Packing, flush, append_message, pack, pack_all, build_frames,
}

module _ {M : Type 0} (r : Reader M) where
  abbrev pub total_size : List M → ℕ
  total_size [] = 0
  total_size (m ∷ ms) = r.size m + total_size ms

  total_size-append : (xs ys : List M) → total_size (xs ++ ys) ≡ total_size xs + total_size ys
  total_size-append [] ys = omega arith
  total_size-append (x ∷ xs) ys = omega (arith, total_size-append xs ys)

  -- A frame within the limit, or with one message that is larger by itself.
  abbrev pub Fits : ℕ → List M → Type 0
  Fits max_frame_bytes xs = (0 < length xs) × ((total_size xs ≤ max_frame_bytes) ⊎ (length xs ≡ 1))

  -- Between two messages: the closed frames fit, and so does the open one, unless it is empty.
  record PackingFits (max_frame_bytes : ℕ) (p : Packing M) : Type 0 where
    closed : All (Fits max_frame_bytes) p.frames
    open_size : p.frame_bytes ≡ total_size p.frame
    open_fits : (total_size p.frame ≤ max_frame_bytes) ⊎ (length p.frame ≡ 1)

  flush-PackingFits : (max : ℕ) (p : Packing M) → PackingFits max p → PackingFits max (flush p)
  unfolding flush
  flush-PackingFits max p v = elim (Bool-cases (length p.frame == 0)) [
    | inl nothing ↦ rw nothing v
    | inr some_left ↦ rw some_left (record {
      closed =
          All-append (Fits max) p.frames (p.frame ∷ []) v.closed
            (((ground (arith, some_left)), v.open_fits), tt);
      open_size = refl;
      open_fits = inl (omega arith);
    })
  ]

  append_message-PackingFits :
      (max : ℕ) (m : M) (p : Packing M)
      → PackingFits max p
      → (p.frame_bytes + r.size m ≤ max) ⊎ (length p.frame ≡ 0)
      → PackingFits max (append_message r m p)
  unfolding append_message
  append_message-PackingFits max m p v h = record {
    closed = v.closed;
    open_size = omega (arith, v.open_size, total_size-append p.frame (m ∷ []));
    open_fits =
        ground
          (arith, v.open_size, total_size-append p.frame (m ∷ []), length-append p.frame (m ∷ []));
  }

  pack-PackingFits :
      (max : ℕ) (m : M) (p : Packing M) → PackingFits max p → PackingFits max (pack r max m p)
  unfolding pack
  pack-PackingFits max m p v =
      elim (Bool-cases (leb (r.id m) (get_or p.high_water_marks (r.key m) 0))) [
        | inl old ↦ rw old v
        | inr new ↦
            let marked : Packing M = record p {
              high_water_marks = insert (r.key m) (r.id m) p.high_water_marks;
            } in
            let vm : PackingFits max marked = record {
              closed = v.closed;
              open_size = v.open_size;
              open_fits = v.open_fits;
            } in
            elim (Bool-cases (ltb max (p.frame_bytes + r.size m) && ltb 0 (length p.frame))) [
              | inl full ↦
                  rw (new, full)
                    (append_message-PackingFits max m (flush marked)
                      (flush-PackingFits max marked vm) (inr (unfold flush in ground arith)))
              | inr room ↦
                  rw (new, room) (append_message-PackingFits max m marked vm (ground (arith, room)))
            ]
      ]

  pack_all-PackingFits :
      (max : ℕ) (ms : List M) (p : Packing M)
      → PackingFits max p
      → PackingFits max (pack_all r max ms p)
  unfolding pack_all
  pack_all-PackingFits max [] p v = v
  pack_all-PackingFits max (m ∷ ms) p v =
      pack_all-PackingFits max ms (pack r max m p) (pack-PackingFits max m p v)

  -- No frame is empty, and the data of a frame is within the limit unless it is a single message.
  pub build_frames-Fits :
      (max_frame_bytes : ℕ) (ms : List M) (marks : Bytes → Option ℕ)
      → All (Fits max_frame_bytes) (build_frames r max_frame_bytes ms marks).0
  unfolding build_frames
  build_frames-Fits max_frame_bytes ms marks =
      let start : Packing M = record {
        high_water_marks = marks;
        frames = [];
        frame = [];
        frame_bytes = 0;
      } in
      (flush-PackingFits max_frame_bytes (pack_all r max_frame_bytes ms start) (
        pack_all-PackingFits max_frame_bytes ms start
          (record { closed = tt; open_size = refl; open_fits = inl (omega arith) }))).closed
