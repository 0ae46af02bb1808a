-- ===== src/Topic/Keys.antt =====
-- The topic keys of pkg/topic/mls.go and pkg/mls/api/v1/subscribe.go: no two collide.
use xmtp_node_go.Base.{
  All, Bytes, [], ap, arith, codes, false, inl, inr, length, length-append, ok, refl, subst, true,
  ℕ, ◌%◌, ◌*◌, ◌++◌, ◌/◌, ◌<◌, ◌↔◌, ◌∷◌, ◌≡◌, ◌≢◌, ◌⊎◌,
}
use xmtp_node_go.Topic.{
  hex_digit, hex, build_mlsv1_group_topic, build_mlsv1_welcome_topic, is_mlsv1, is_mlsv1_group,
  is_mlsv1_welcome, build_mls_topic, split_topic,
}

-- Every element is a byte.
abbrev pub IsBytes : Bytes → Type 0
IsBytes = All (λ b. b < 256)

hex_digit-injective : (m n : ℕ) → m < 16 → n < 16 → hex_digit m ≡ hex_digit n → m ≡ n
unfolding hex_digit
hex_digit-injective m n p q h = ground arith

length-hex : (a : Bytes) → length (hex a) ≡ 2 * length a
unfolding hex
length-hex [] = omega arith
length-hex (x ∷ a) = omega (arith, length-hex a)

hex_byte-injective :
    (x y : ℕ)
    → x < 256
    → y < 256
    → hex_digit (x / 16) ≡ hex_digit (y / 16)
    → hex_digit (x % 16) ≡ hex_digit (y % 16)
    → x ≡ y
hex_byte-injective x y p q h l = omega (
  arith,
  hex_digit-injective (x / 16) (y / 16) (omega arith) (omega arith) h,
  hex_digit-injective (x % 16) (y % 16) (omega arith) (omega arith) l,
)

hex-append-injective : (a b s : Bytes) → IsBytes a → IsBytes b → hex a ++ s ≡ hex b ++ s → a ≡ b
unfolding hex
hex-append-injective [] [] s p q h = refl
hex-append-injective [] (y ∷ b) s p q h =
    absurd (omega (arith, ap length h, length-append (hex b) s))
hex-append-injective (x ∷ a) [] s p q h =
    absurd (omega (arith, ap length h, length-append (hex a) s))
hex-append-injective (x ∷ a) (y ∷ b) s p q h =
    cc (hex_byte-injective x y p.0 q.0 (cc) (cc), hex-append-injective a b s p.1 q.1 (cc))

-- A group topic is a group topic and no welcome topic; a welcome topic the other way round. Both
-- are MLS topics.
pub build_mlsv1_kinds :
    (id : Bytes)
    → (is_mlsv1_group (build_mlsv1_group_topic id) ≡ true)
      × (is_mlsv1_welcome (build_mlsv1_group_topic id) ≡ false)
      × (is_mlsv1_welcome (build_mlsv1_welcome_topic id) ≡ true)
      × (is_mlsv1_group (build_mlsv1_welcome_topic id) ≡ false)
      × (is_mlsv1 (build_mlsv1_group_topic id) ≡ true)
      × (is_mlsv1 (build_mlsv1_welcome_topic id) ≡ true)
unfolding build_mlsv1_group_topic build_mlsv1_welcome_topic is_mlsv1 is_mlsv1_group is_mlsv1_welcome
build_mlsv1_kinds id = (refl, refl, refl, refl, refl, refl)

-- The last bytes of `build_mls_topic`, which its prefix leaves over.
group_injective :
    (a b : Bytes)
    → IsBytes a
    → IsBytes b
    → build_mlsv1_group_topic a ≡ build_mlsv1_group_topic b
    → a ≡ b
unfolding build_mlsv1_group_topic
group_injective a b p q h = hex-append-injective a b (codes "/proto") p q (cc)

welcome_injective :
    (a b : Bytes)
    → IsBytes a
    → IsBytes b
    → build_mlsv1_welcome_topic a ≡ build_mlsv1_welcome_topic b
    → a ≡ b
unfolding build_mlsv1_welcome_topic
welcome_injective a b p q h = hex-append-injective a b (codes "/proto") p q (cc)

-- `split_topic` accepts exactly a known kind byte before a non-empty identifier, and returns both.
pub split_topic_iff :
    (t : Bytes) (kind : ℕ) (id : Bytes)
    → (split_topic t ≡ ok (kind, id)) ↔ ((t ≡ kind ∷ id) × (id ≢ []) × ((kind ≡ 0) ⊎ (kind ≡ 1)))
unfolding split_topic
split_topic_iff [] kind id = ground arith
split_topic_iff (x ∷ []) kind id = ground arith
split_topic_iff (x ∷ b ∷ bs) kind id = ground arith

pub build_mls_topic-injective :
    (kind kind' : ℕ) (a b : Bytes)
    → (kind ≡ 0) ⊎ (kind ≡ 1)
    → (kind' ≡ 0) ⊎ (kind' ≡ 1)
    → IsBytes a
    → IsBytes b
    → build_mls_topic kind a ≡ build_mls_topic kind' b
    → (kind ≡ kind') × (a ≡ b)
unfolding build_mls_topic
build_mls_topic-injective kind kind' a b (inl k) (inl l) p q h =
    (cc, group_injective a b p q (rw (k, l) at h))
build_mls_topic-injective kind kind' a b (inr k) (inr l) p q h =
    (cc, welcome_injective a b p q (rw (k, l) at h))
build_mls_topic-injective kind kind' a b (inl k) (inr l) p q h =
    absurd
      (cc (ap is_mlsv1_group (rw (k, l) at h), (build_mlsv1_kinds a).0, (build_mlsv1_kinds b).3))
build_mls_topic-injective kind kind' a b (inr k) (inl l) p q h =
    absurd
      (cc (ap is_mlsv1_group (rw (k, l) at h), (build_mlsv1_kinds b).0, (build_mlsv1_kinds a).3))

-- Two accepted wire topics, both of bytes, with the same per-topic key are the same wire topic: a
-- group and a welcome with one identifier never collide, nor do two identifiers of one kind.
pub topic_key-injective :
    (t u : Bytes) (kind kind' : ℕ) (a b : Bytes)
    → IsBytes t
    → IsBytes u
    → split_topic t ≡ ok (kind, a)
    → split_topic u ≡ ok (kind', b)
    → build_mls_topic kind a ≡ build_mls_topic kind' b
    → t ≡ u
topic_key-injective t u kind kind' a b p q h k e =
    let (t_parts, _, t_kind) = (split_topic_iff t kind a).0 h in
    let (u_parts, _, u_kind) = (split_topic_iff u kind' b).0 k in
    let (same_kind, same_id) =
      build_mls_topic-injective kind kind' a b t_kind u_kind ((subst IsBytes t_parts p).1)
        ((subst IsBytes u_parts q).1) e in
    cc
