-- ===== src/Topic/Categories.antt =====
-- Which content topics Category of pkg/topic/topic.go calls ephemeral.
use xmtp_node_go.Base.{
  All, Bool, Bool-cases, Bytes, List, [], ap, arith, codes, eq_iff, inl, inr, length, length-append,
  lookup, not, refl, some, subst, true, ◌++◌, ◌==◌, ◌↔◌, ◌∙◌, ◌∷◌, ◌≡◌, ◌≢◌, ◌⊎◌, nat_eq, bytes_eq,
}
use mathlib.Core.Option.{some_inj}
use xmtp_node_go.Topic.{
  has_prefix, strip, cut_dash, topic_category_by_prefix, category, trim_prefix, is_ephemeral,
}

has_prefix-strip : (p s : Bytes) → has_prefix p s ≡ true → s ≡ p ++ strip p s
unfolding strip
has_prefix-strip [] s h = refl
has_prefix-strip (x ∷ p) [] h = cc
has_prefix-strip (x ∷ p) (c ∷ s) h = ground (arith, has_prefix-strip p s)

cut_dash-append :
    (s before : Bytes)
    → cut_dash s ≡ (before, true)
    → (rest : Bytes) × (s ≡ before ++ (b'-' ∷ rest))
unfolding cut_dash
cut_dash-append [] before h = absurd (cc)
cut_dash-append (c ∷ s) before h = elim (Bool-cases (c == b'-')) [
  | inl dash ↦ (s, cc ((eq_iff c b'-').0 dash, ap (λ (r : Bytes × Bool). r.0) (rw dash at h)))
  | inr other ↦
      let (rest, e) = cut_dash-append s (cut_dash s).0 (ground arith) in (rest, ground arith)
]

-- A fact about every row of a table is a fact about what a lookup in it finds.
lookup-All {ℓ} :
    (P : Bytes → Bytes → Type ℓ) (m : List (Bytes × Bytes)) (k v : Bytes)
    → All (λ row. P row.0 row.1) m
    → lookup k m ≡ some v
    → P k v
unfolding lookup
lookup-All P [] k v rows h = absurd (cc)
lookup-All P ((j, w) ∷ m) k v rows h = elim (Bool-cases (j == k)) [
  | inl hit ↦
      subst (λ x. P x v) ((eq_iff j k).0 hit) (subst (P j) (some_inj.0 (rw hit at h)) rows.0)
  | inr miss ↦ lookup-All P m k v rows.1 (rw miss at h)
]

abbrev EphemeralRow : Bytes → Bytes → Type 0
EphemeralRow k v =
    (v ≡ codes "v2-conversation-ephemeral" → k ≡ codes "mE")
    × (v ≡ codes "v1-conversation-ephemeral" → k ≡ codes "dmE")

rows_ephemeral : All (λ row. EphemeralRow row.0 row.1) topic_category_by_prefix
rows_ephemeral = ground arith

abbrev content_prefix : Bytes
content_prefix = codes "/xmtp/0/"

-- TrimPrefix leaves the length alone exactly when the prefix is not there.
length-trim_prefix :
    (s : Bytes)
    → (length (trim_prefix content_prefix s) == length s) ≡ not (has_prefix content_prefix s)
unfolding trim_prefix
length-trim_prefix s = elim (Bool-cases (has_prefix content_prefix s)) [
  | inl there ↦ rw there (
      ground (
        arith,
        ap length (has_prefix-strip content_prefix s there),
        length-append content_prefix (strip content_prefix s),
      ))
  | inr missing ↦ rw missing (ground arith)
]

trim_prefix-append :
    (s : Bytes)
    → has_prefix content_prefix s ≡ true
    → s ≡ content_prefix ++ trim_prefix content_prefix s
unfolding trim_prefix
trim_prefix-append s h = rw h (has_prefix-strip content_prefix s h)

-- Any category but these two comes from the row of the part between prefix and dash.
category_row :
    (t v : Bytes)
    → v ≢ codes "test"
    → v ≢ codes "invalid"
    → category t ≡ v
    → let topic = trim_prefix content_prefix t in
      (has_prefix content_prefix t ≡ true)
      × ((cut_dash topic).1 ≡ true)
      × (lookup (cut_dash topic).0 topic_category_by_prefix ≡ some v)
category_row t v p q h =
    let shorter = length-trim_prefix t in unfold category in ground (arith, shorter)

abbrev pub IsEphemeralTopic : Bytes → Type 0
IsEphemeralTopic t =
    ((rest : Bytes) × (t ≡ codes "/xmtp/0/mE-" ++ rest))
    ⊎ ((rest : Bytes) × (t ≡ codes "/xmtp/0/dmE-" ++ rest))

category-append :
    (t v : Bytes)
    → v ≢ codes "test"
    → v ≢ codes "invalid"
    → category t ≡ v
    → (key : Bytes) × (rest : Bytes) × (t ≡ content_prefix ++ (key ++ (b'-' ∷ rest)))
      × (lookup key topic_category_by_prefix ≡ some v)
category-append t v p q h =
    let (there, dash, row) = category_row t v p q h in
    let topic = trim_prefix content_prefix t in
    let (rest, e) = cut_dash-append topic (cut_dash topic).0 (ground (arith, dash)) in
    ((cut_dash topic).0, rest, trim_prefix-append t there ∙ ap (◌++◌ content_prefix) e, row)

category_ephemeral :
    (t : Bytes)
    → (category t ≡ codes "v2-conversation-ephemeral")
      ⊎ (category t ≡ codes "v1-conversation-ephemeral")
    → IsEphemeralTopic t
category_ephemeral t (inl h) =
    let (key, rest, e, row) = category-append t _ (λ e. cc) (λ e. cc) h in
    inl (
      rest,
      e
          ∙ ap (λ k. content_prefix ++ (k ++ (b'-' ∷ rest)))
              ((lookup-All EphemeralRow topic_category_by_prefix key _ rows_ephemeral row).0 refl),
    )
category_ephemeral t (inr h) =
    let (key, rest, e, row) = category-append t _ (λ e. cc) (λ e. cc) h in
    inr (
      rest,
      e
          ∙ ap (λ k. content_prefix ++ (k ++ (b'-' ∷ rest)))
              ((lookup-All EphemeralRow topic_category_by_prefix key _ rows_ephemeral row).1 refl),
    )

ephemeral_category :
    (t : Bytes)
    → IsEphemeralTopic t
    → (category t ≡ codes "v2-conversation-ephemeral")
      ⊎ (category t ≡ codes "v1-conversation-ephemeral")
unfolding category trim_prefix cut_dash lookup
ephemeral_category t (inl (rest, e)) = inl (rw e (ground arith))
ephemeral_category t (inr (rest, e)) = inr (rw e (ground arith))

-- A content topic is ephemeral exactly when it begins with `/xmtp/0/mE-` or `/xmtp/0/dmE-`.
pub is_ephemeral_iff : (t : Bytes) → (is_ephemeral t ≡ true) ↔ IsEphemeralTopic t
unfolding is_ephemeral
is_ephemeral_iff t = (
  λ h. category_ephemeral t (
      ground (
        arith,
        eq_iff (category t) (codes "v2-conversation-ephemeral"),
        eq_iff (category t) (codes "v1-conversation-ephemeral"),
      )),
  λ h.
      let e = ephemeral_category t h in
      ground (
        arith,
        e,
        eq_iff (category t) (codes "v2-conversation-ephemeral"),
        eq_iff (category t) (codes "v1-conversation-ephemeral"),
      ),
)
