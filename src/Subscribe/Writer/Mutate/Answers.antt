-- ===== src/Subscribe/Writer/Mutate/Answers.antt =====
-- The answer of a Mutate.
use xmtp_node_go.Base.{
  Bool, Bytes, List, Result, [], arith, contains, err, fail_if, false, get_or, if◌then◌else◌, leb,
  length, ltb, member, not, ok, refl, true, ℕ, ◌&&◌, ◌+◌, ◌==◌, ◌>>=◌, ◌>>◌, ◌||◌, ◌∷◌, ◌≡◌, nat_eq,
  bytes_eq,
}
use xmtp_node_go.Topic.{build_mls_topic}
use xmtp_node_go.Subscribe.Writer.{
  resource_exhausted, invalid_argument, End, catchup_complete, Writer, Settings, send, drop_topic,
  is_catching_up,
}
use xmtp_node_go.Subscribe.Writer.Mutate.{
  no_adds, apply_adds, apply_requests, Mutate, AddReq, Adding, split, collect_adds, go_live,
  request_scan, start_topic, start_wave, drop_all, take_add, take_adds, finish_mutate,
  handle_mutate, in_flight,
}
use xmtp_node_go.Subscribe.Writer.Waves.{
  one_if, start_wave-WavesValid, waves_of-start_wave, completes,
}
use xmtp_node_go.Subscribe.Writer.Answers.{
  Post, Post-ok, Post-err, Post-bind, Post-map, Post-if, Same, Same-Valid, Same-answers,
  Same-Counted, Valid, Counted, Counted-refl, Counted-trans, Post-Counted, send-Counted,
  drop_topic-Counted,
}

Post-fail_if {ℓ κ} :
    {A : Type ℓ} (Q : A → Type κ) (c : Bool) (e : End) (r : Result End A)
    → Post Q r
    → Post Q (fail_if c e >> r)
Post-fail_if Q true e r h = Post-err Q e
Post-fail_if Q false e r h = h

-- A step that needs a result, whatever it is.
Post-any {ℓ} : {A : Type ℓ} (r : Result End A) → Post (λ (a : A). Unit {0}) r
Post-any (ok a) = Post-ok _ a tt
Post-any (err e) = Post-err _ e

request_scan-writer : (t : Bytes) (r : AddReq) (a : Adding) → (request_scan t r a).writer ≡ a.writer
unfolding request_scan
request_scan-writer t r a = ground arith

start_topic-Same :
    (history_only : Bool) (t : Bytes) (r : AddReq) (a : Adding)
    → Same a.writer (start_topic history_only t r a).writer
unfolding start_topic go_live
start_topic-Same true t r a =
    rw (request_scan-writer t r _) (record { handed = refl; waves = refl; next_wave = refl })
start_topic-Same false t r a =
    rw (request_scan-writer t r _) (record { handed = refl; waves = refl; next_wave = refl })

module _ (cfg : Settings) (k : ℕ) where
  drop_all-Counted :
      (removes : List Bytes) (now : ℕ) (w : Writer)
      → Valid w
      → Post (Counted k 0 w) (drop_all cfg removes now w)
  unfolding drop_all
  drop_all-Counted [] now w v = Post-ok (Counted k 0 w) w (Counted-refl k w v)
  drop_all-Counted (wire ∷ removes) now w v =
      Post-bind (λ parts. Unit {0}) (Counted k 0 w) (split wire) _ (Post-any (split wire))
        (λ parts nothing.
          Post-bind (Counted k 0 w) (Counted k 0 w)
            (drop_topic cfg (build_mls_topic parts.0 parts.1) now w) (drop_all cfg removes now)
            (drop_topic-Counted cfg k (build_mls_topic parts.0 parts.1) now w v)
            (λ u c.
              Post-map (Counted k 0 u) (Counted k 0 w) (drop_all cfg removes now u)
                (λ x d. Counted-trans k 0 w u x c d) (drop_all-Counted removes now u c.valid)))

  start_topic-Counted :
      (history_only : Bool) (t : Bytes) (r : AddReq) (a b : Adding)
      → Counted k 0 a.writer b.writer
      → Counted k 0 a.writer (start_topic history_only t r b).writer
  start_topic-Counted history_only t r a b c =
      let same = start_topic-Same history_only t r b in
      record {
        count = omega (arith, c.count, Same-answers k b.writer _ same);
        valid = Same-Valid b.writer _ same c.valid;
      }

  take_add-Counted :
      (history_only : Bool) (now : ℕ) (t : Bytes) (r : AddReq) (a : Adding)
      → Valid a.writer
      → Post (λ b. Counted k 0 a.writer b.writer) (take_add cfg history_only now t r a)
  unfolding take_add
  take_add-Counted history_only now t r a v =
      let P : Adding → Type 0 = λ b. Counted k 0 a.writer b.writer in
      let started : (b : Adding)
          → Counted k 0 a.writer b.writer
          → P (start_topic history_only t r b) =
        λ b c. start_topic-Counted history_only t r a b c in
      let active : Bool = member t a.writer.subscribed || is_catching_up a.writer t in
      let restart : Writer → Result End Adding =
        λ u. ok (start_topic history_only t r (record a { writer = u })) in
      let replay : Result End Adding = drop_topic cfg t now a.writer >>= restart in
      let floor : Bool = leb (get_or a.writer.high_water_marks t 0) r.cursor in
      let again : Result End Adding = if floor then ok a else replay in
      let known : Result End Adding = if history_only then err invalid_argument else again in
      let fresh : Adding = start_topic history_only t r a in
      let new_or_known : Result End Adding = if not active then ok fresh else known in
      Post-if P (contains a.writer.topic_wave t && not active) (err invalid_argument) new_or_known
        (Post-err P invalid_argument)
        (Post-if P (not active) (ok fresh) known
          (Post-ok P fresh (started a (Counted-refl k a.writer v)))
          (Post-if P history_only (err invalid_argument) again (Post-err P invalid_argument) (
            Post-if P floor (ok a) replay (Post-ok P a (Counted-refl k a.writer v)) (
              Post-bind (Counted k 0 a.writer) P (drop_topic cfg t now a.writer) restart
                (drop_topic-Counted cfg k t now a.writer v)
                (λ u c.
                  Post-ok P (start_topic history_only t r (record a { writer = u }))
                    (started (record a { writer = u }) c))))))

  take_adds-Counted :
      (history_only : Bool) (now : ℕ) (requests : List (Bytes × AddReq)) (a : Adding)
      → Valid a.writer
      → Post (λ b. Counted k 0 a.writer b.writer) (take_adds cfg history_only now requests a)
  unfolding take_adds
  take_adds-Counted history_only now [] a v =
      Post-ok (λ b. Counted k 0 a.writer b.writer) a (Counted-refl k a.writer v)
  take_adds-Counted history_only now ((t, r) ∷ requests) a v =
      Post-bind (λ b. Counted k 0 a.writer b.writer) (λ b. Counted k 0 a.writer b.writer)
        (take_add cfg history_only now t r a) (take_adds cfg history_only now requests)
        (take_add-Counted history_only now t r a v)
        (λ b c.
          Post-map (λ d. Counted k 0 b.writer d.writer) (λ d. Counted k 0 a.writer d.writer)
            (take_adds cfg history_only now requests b)
            (λ d e. Counted-trans k 0 a.writer b.writer d.writer c e)
            (take_adds-Counted history_only now requests b c.valid))

  start_wave-Counted :
      (id : ℕ) (a : Adding)
      → Valid a.writer
      → Counted k (one_if (id == k)) a.writer (start_wave id a)
  unfolding start_wave
  start_wave-Counted id a v = record {
    count = omega (arith, waves_of-start_wave k a.writer.next_wave _ a.writer.waves v);
    valid = start_wave-WavesValid a.writer.next_wave _ a.writer.waves v;
  }

  answer-Counted :
      (id now : ℕ) (w : Writer)
      → Valid w
      → Post (Counted k (one_if (id == k)) w) (send cfg (catchup_complete id ∷ []) now w)
  answer-Counted id now w v =
      Post-map (Counted k (completes k (catchup_complete id ∷ [])) w)
        (Counted k (one_if (id == k)) w) (send cfg (catchup_complete id ∷ []) now w)
        (λ u c. record { count = omega (arith, c.count); valid = c.valid })
        (send-Counted cfg k (catchup_complete id ∷ []) now w v)

  finish_mutate-Counted :
      (id now : ℕ) (a : Adding)
      → Valid a.writer
      → Post (Counted k (one_if (id == k)) a.writer) (finish_mutate cfg id now a)
  unfolding finish_mutate
  finish_mutate-Counted id now a v =
      let counted : Adding = record a {
        writer = record a.writer { subscribed_topics = a.writer.subscribed_topics + a.newly_live };
      } in
      let same : Same a.writer counted.writer = record {
        handed = refl;
        waves = refl;
        next_wave = refl;
      } in
      Post-if (Counted k (one_if (id == k)) a.writer) _ _ _
        (Post-ok _ _
          (Same-Counted k _ a.writer counted.writer _ same (start_wave-Counted id counted v)))
        (Post-Counted k _ a.writer counted.writer _ same (answer-Counted id now counted.writer v))

  apply_adds-Counted :
      (m : Mutate) (now : ℕ) (requests : List (Bytes × AddReq)) (w : Writer)
      → Valid w
      → Post (Counted k (one_if (m.mutate_id == k)) w) (apply_adds cfg m now requests w)
  unfolding apply_adds
  apply_adds-Counted m now requests w v =
      Post-bind (λ b. Counted k 0 w b.writer) (Counted k (one_if (m.mutate_id == k)) w)
        (take_adds cfg m.history_only now requests (no_adds w)) (finish_mutate cfg m.mutate_id now)
        (take_adds-Counted m.history_only now requests (no_adds w) v)
        (λ b c.
          Post-map (Counted k (one_if (m.mutate_id == k)) b.writer)
            (Counted k (one_if (m.mutate_id == k)) w) (finish_mutate cfg m.mutate_id now b)
            (λ x d. Counted-trans k (one_if (m.mutate_id == k)) w b.writer x c d)
            (finish_mutate-Counted m.mutate_id now b c.valid))

  apply_requests-Counted :
      (m : Mutate) (now : ℕ) (w : Writer) (requests : List (Bytes × AddReq))
      → Valid w
      → Post (Counted k (one_if (m.mutate_id == k)) w) (apply_requests cfg m now w requests)
  unfolding apply_requests
  apply_requests-Counted m now w requests v =
      Post-bind (Counted k 0 w) (Counted k (one_if (m.mutate_id == k)) w)
        (drop_all cfg m.removes now w) (apply_adds cfg m now requests)
        (drop_all-Counted m.removes now w v)
        (λ u c.
          Post-map (Counted k (one_if (m.mutate_id == k)) u)
            (Counted k (one_if (m.mutate_id == k)) w) (apply_adds cfg m now requests u)
            (λ x d. Counted-trans k (one_if (m.mutate_id == k)) w u x c d)
            (apply_adds-Counted m now requests u c.valid))

  -- A Mutate that is not refused counts for one answer of its own id, and for none of another.
  pub handle_mutate-Counted :
      (m : Mutate) (now : ℕ) (w : Writer)
      → Valid w
      → Post (Counted k (one_if (m.mutate_id == k)) w) (handle_mutate cfg m now w)
  unfolding handle_mutate
  handle_mutate-Counted m now w v =
      let Q : Writer → Type 0 = Counted k (one_if (m.mutate_id == k)) w in
      Post-fail_if Q (ltb 0 (length m.adds) && m.mutate_id == 0) invalid_argument _ (
        Post-fail_if Q (ltb cfg.max_mutate_adds (length m.adds)) resource_exhausted _ (
          Post-fail_if Q (not (m.mutate_id == 0) && in_flight m.mutate_id w.waves) invalid_argument
            _
            (Post-bind (λ requests. Unit {0}) Q (collect_adds m.adds [])
              (apply_requests cfg m now w) (Post-any (collect_adds m.adds []))
              (λ requests nothing. apply_requests-Counted m now w requests v))))
