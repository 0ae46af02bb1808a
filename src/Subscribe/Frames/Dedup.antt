-- ===== src/Subscribe/Frames/Dedup.antt =====
-- The high-water dedup: what the frames hold, in all and in order.
use xmtp_node_go.Base.{
  Bool-cases, Bytes, List, Option, [], ap, arith, eq_iff, false, get_or, if◌then◌else◌, inl, inr,
  insert, leb, length, ltb, refl, subst, sym, true, ℕ, ◌&&◌, ◌++◌, ◌+◌, ◌<◌, ◌==◌, ◌∙◌, ◌∷◌, ◌≡◌,
  nat_eq, bytes_eq,
}
use mathlib.Core.List.{append_assoc, append-nil}
use mathlib.Core.Path.{ap₂}
use xmtp_node_go.Subscribe.Frames.{
  Reader, Packing, flush, append_message, pack, pack_all, build_frames,
}

module _ {M : Type 0} where
  abbrev pub concat : List (List M) → List M
  concat [] = []
  concat (xs ∷ xss) = xs ++ concat xss

  concat-append : (xss yss : List (List M)) → concat (xss ++ yss) ≡ concat xss ++ concat yss
  concat-append [] yss = refl
  concat-append (xs ∷ xss) yss =
      ap (◌++◌ xs) (concat-append xss yss) ∙ sym (append_assoc xs (concat xss) (concat yss))

  -- All that has been packed, in order.
  abbrev packed : Packing M → List M
  packed p = concat p.frames ++ p.frame

  packed-closed :
      (xss : List (List M)) (xs : List M) → concat (xss ++ xs ∷ []) ++ [] ≡ concat xss ++ xs
  packed-closed xss xs = simp (concat-append, append-nil)

  packed-flush : (p : Packing M) → packed (flush p) ≡ packed p
  unfolding flush
  packed-flush p = ground (arith, packed-closed p.frames p.frame)

  concat-flush_frame :
      (xss : List (List M)) (xs : List M)
      → concat (if length xs == 0 then xss else xss ++ xs ∷ []) ≡ concat xss ++ xs
  concat-flush_frame xss [] = sym (append-nil (concat xss))
  concat-flush_frame xss (x ∷ xs) =
      ground (arith, concat-append xss ((x ∷ xs) ∷ []), append-nil (x ∷ xs))

  concat-flush : (p : Packing M) → concat (flush p).frames ≡ packed p
  unfolding flush
  concat-flush p = ground (arith, concat-flush_frame p.frames p.frame)

  marks-flush : (p : Packing M) → (flush p).high_water_marks ≡ p.high_water_marks
  unfolding flush
  marks-flush p = ground arith

module _ {M : Type 0} (r : Reader M) where
  -- The messages above the mark of their topic, the mark rising with each.
  pub survivors : List M → (Bytes → Option ℕ) → List M
  survivors [] marks = []
  survivors (m ∷ ms) marks =
      let kept = survivors ms (insert (r.key m) (r.id m) marks) in
      let skipped = survivors ms marks in
      if leb (r.id m) (get_or marks (r.key m) 0) then skipped else m ∷ kept

  pub marks_after : List M → (Bytes → Option ℕ) → Bytes → Option ℕ
  marks_after [] marks = marks
  marks_after (m ∷ ms) marks =
      marks_after ms
        (if leb (r.id m) (get_or marks (r.key m) 0) then marks else insert (r.key m) (r.id m) marks)

  packed-append_message :
      (m : M) (p : Packing M)
      → (packed (append_message r m p) ≡ packed p ++ m ∷ [])
        × ((append_message r m p).high_water_marks ≡ p.high_water_marks)
  unfolding append_message
  packed-append_message m p = (sym (append_assoc (concat p.frames) p.frame (m ∷ [])), refl)

module _ {M : Type 0} (r : Reader M) (max_frame_bytes : ℕ) where
  pack-old :
      (m : M) (p : Packing M)
      → leb (r.id m) (get_or p.high_water_marks (r.key m) 0) ≡ true
      → pack r max_frame_bytes m p ≡ p
  unfolding pack
  pack-old m p old = rw old

  abbrev opened : M → Packing M → Packing M
  opened m p =
      let marked = record p { high_water_marks = insert (r.key m) (r.id m) p.high_water_marks } in
      if ltb max_frame_bytes (p.frame_bytes + r.size m) && ltb 0 (length p.frame)
      then flush marked
      else marked

  packed-opened :
      (m : M) (p : Packing M)
      → (packed (opened m p) ≡ packed p)
        × ((opened m p).high_water_marks ≡ insert (r.key m) (r.id m) p.high_water_marks)
  packed-opened m p =
      elim (Bool-cases (ltb max_frame_bytes (p.frame_bytes + r.size m) && ltb 0 (length p.frame))) [
        | inl full ↦ rw full (packed-flush _, marks-flush _)
        | inr room ↦ rw room (refl, refl)
      ]

  pack-new :
      (m : M) (p : Packing M)
      → leb (r.id m) (get_or p.high_water_marks (r.key m) 0) ≡ false
      → pack r max_frame_bytes m p ≡ append_message r m (opened m p)
  unfolding pack
  pack-new m p new = rw new

  pack_all-survivors :
      (ms : List M) (p : Packing M)
      → (packed (pack_all r max_frame_bytes ms p) ≡ packed p ++ survivors r ms p.high_water_marks)
        × ((pack_all r max_frame_bytes ms p).high_water_marks ≡ marks_after r ms p.high_water_marks)
  unfolding pack_all survivors marks_after
  pack_all-survivors [] p = (sym (append-nil _), refl)
  pack_all-survivors (m ∷ ms) p =
      elim (Bool-cases (leb (r.id m) (get_or p.high_water_marks (r.key m) 0))) [
        | inl old ↦ rw (pack-old m p old, old, pack_all) (pack_all-survivors ms p)
        | inr new ↦
            let (item, mark) = packed-append_message r m (opened m p) in
            let (before, marked) = packed-opened m p in
            let (items, marks) = pack_all-survivors ms (append_message r m (opened m p)) in
            let kept = survivors r ms (insert (r.key m) (r.id m) p.high_water_marks) in
            rw (pack-new m p new, new, pack_all)
              (
                items
                    ∙ ap₂ (λ (xs : List M) (h : Bytes → Option ℕ). xs ++ survivors r ms h) item
                        (mark ∙ marked)
                    ∙ append_assoc (packed (opened m p)) (m ∷ []) kept
                    ∙ ap (λ (xs : List M). xs ++ m ∷ kept) before,
                marks ∙ ap (marks_after r ms) (mark ∙ marked),
              )
      ]

  -- The frames of a call hold, in order and once each, exactly the messages above the mark of
  -- their topic, where each of them raises the mark to its own id, and the marks after the call
  -- are the raised ones.
  pub build_frames-survivors :
      (ms : List M) (marks : Bytes → Option ℕ)
      → (concat (build_frames r max_frame_bytes ms marks).0 ≡ survivors r ms marks)
        × ((build_frames r max_frame_bytes ms marks).1 ≡ marks_after r ms marks)
  unfolding build_frames
  build_frames-survivors ms marks =
      let start : Packing M = record {
        high_water_marks = marks;
        frames = [];
        frame = [];
        frame_bytes = 0;
      } in
      let (items, after) = pack_all-survivors ms start in
      (
        concat-flush (pack_all r max_frame_bytes ms start) ∙ items,
        marks-flush (pack_all r max_frame_bytes ms start) ∙ after,
      )

-- Ids that rise strictly, from a bound on.
abbrev pub Rising : ℕ → List ℕ → Type 0
Rising bound [] = Unit
Rising bound (x ∷ xs) = (bound < x) × Rising x xs

module _ {M : Type 0} (r : Reader M) where
  -- The ids of the messages of one topic, in order.
  abbrev pub ids_of : Bytes → List M → List ℕ
  ids_of k [] = []
  ids_of k (m ∷ ms) = let rest = ids_of k ms in if r.key m == k then r.id m ∷ rest else rest

  survivors-Rising :
      (ms : List M) (marks : Bytes → Option ℕ) (k : Bytes)
      → Rising (get_or marks k 0) (ids_of k (survivors r ms marks))
  unfolding survivors
  survivors-Rising [] marks k = tt
  survivors-Rising (m ∷ ms) marks k = elim (Bool-cases (leb (r.id m) (get_or marks (r.key m) 0))) [
    | inl old ↦ rw old (survivors-Rising ms marks k)
    | inr new ↦
        let ih = survivors-Rising ms (insert (r.key m) (r.id m) marks) k in
        elim (Bool-cases (r.key m == k)) [
          | inl mine ↦
              let raised : get_or (insert (r.key m) (r.id m) marks) k 0 ≡ r.id m =
                ground (arith, mine) in
              let here = ap (λ (j : Bytes). get_or marks j 0) ((eq_iff (r.key m) k).0 mine) in
              rw (new, mine)
                (
                  ground (arith, new, here),
                  subst
                      (λ b. Rising b (ids_of k (survivors r ms (insert (r.key m) (r.id m) marks))))
                      raised ih,
                )
          | inr other ↦
              let same : get_or (insert (r.key m) (r.id m) marks) k 0 ≡ get_or marks k 0 =
                ground (arith, other) in
              rw (new, other)
                (subst (λ b. Rising b (ids_of k (survivors r ms (insert (r.key m) (r.id m) marks))))
                  same ih)
        ]
  ]

  -- Within the frames of one call the ids of each topic rise strictly, and begin above the mark
  -- that the topic had.
  pub build_frames-Rising :
      (max_frame_bytes : ℕ) (ms : List M) (marks : Bytes → Option ℕ) (k : Bytes)
      → Rising (get_or marks k 0) (ids_of k (concat (build_frames r max_frame_bytes ms marks).0))
  build_frames-Rising max_frame_bytes ms marks k =
      rw ((build_frames-survivors r max_frame_bytes ms marks).0) (survivors-Rising ms marks k)
