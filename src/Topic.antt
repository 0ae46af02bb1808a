-- ===== src/Topic.antt =====
-- pkg/topic/topic.go and pkg/topic/mls.go, with splitTopic and buildMLSTopic of
-- pkg/mls/api/v1/subscribe.go. A Go string is its bytes; HasPrefix, TrimPrefix, Cut and the %x verb
-- are Go's, written out on bytes.
pub mod Keys
pub mod Categories
use xmtp_node_go.Base.{
  Bool, Bytes, List, Result, [], codes, err, false, if◌then◌else◌, length, lookup, ltb, none, not,
  ok, some, true, ℕ, ◌%◌, ◌&&◌, ◌++◌, ◌+◌, ◌/◌, ◌==◌, ◌||◌, ◌∷◌, nat_eq, bytes_eq,
}

-- strings.HasPrefix(s, prefix), with the prefix first.
abbrev pub has_prefix : Bytes → Bytes → Bool
has_prefix [] s = true
has_prefix (p ∷ ps) [] = false
has_prefix (p ∷ ps) (c ∷ s) = p == c && has_prefix ps s

-- strings.TrimPrefix(s, prefix), with the prefix first.
strip : Bytes → Bytes → Bytes
strip [] s = s
strip (p ∷ ps) [] = []
strip (p ∷ ps) (c ∷ s) = strip ps s

trim_prefix : Bytes → Bytes → Bytes
unfolding strip
trim_prefix p s = if has_prefix p s then strip p s else s

-- strings.Cut(s, "-"): the part before the first dash, and whether there is one.
cut_dash : Bytes → Bytes × Bool
cut_dash [] = ([], false)
cut_dash (c ∷ s) =
    let (before, found) = cut_dash s in if c == b'-' then ([], true) else (c ∷ before, found)

abbrev mlsv1_prefix : Bytes
mlsv1_prefix = codes "/xmtp/mls/1/"

unfoldable pub is_mlsv1 : Bytes → Bool
is_mlsv1 topic = has_prefix mlsv1_prefix topic

unfoldable pub is_mlsv1_group : Bytes → Bool
is_mlsv1_group topic = has_prefix (mlsv1_prefix ++ codes "g-") topic

unfoldable pub is_mlsv1_welcome : Bytes → Bool
is_mlsv1_welcome topic = has_prefix (mlsv1_prefix ++ codes "w-") topic

-- The lower-case digit of a number below 16.
hex_digit : ℕ → ℕ
hex_digit n = if ltb n 10 then 48 + n else 87 + n

-- The %x verb on a byte string: two digits for each byte.
hex : Bytes → Bytes
unfolding hex_digit
hex [] = []
hex (b ∷ bs) = hex_digit (b / 16) ∷ hex_digit (b % 16) ∷ hex bs

unfoldable pub build_mlsv1_group_topic : Bytes → Bytes
unfolding hex
build_mlsv1_group_topic group_id = mlsv1_prefix ++ (codes "g-" ++ (hex group_id ++ codes "/proto"))

unfoldable pub build_mlsv1_welcome_topic : Bytes → Bytes
unfolding hex
build_mlsv1_welcome_topic installation_id =
    mlsv1_prefix ++ (codes "w-" ++ (hex installation_id ++ codes "/proto"))

abbrev pub topic_kind_group_messages_v1 : ℕ
topic_kind_group_messages_v1 = 0x00

abbrev pub topic_kind_welcome_messages_v1 : ℕ
topic_kind_welcome_messages_v1 = 0x01

pub data SplitError : Type 0 where
  too_short : SplitError
  unsupported_kind : ℕ → SplitError

-- The kind byte and the identifier of a wire topic.
unfoldable pub split_topic : Bytes → Result SplitError (ℕ × Bytes)
split_topic [] = err too_short
split_topic (kind ∷ []) = err too_short
split_topic (kind ∷ b ∷ id) =
    if not (kind == topic_kind_group_messages_v1) && not (kind == topic_kind_welcome_messages_v1)
    then err (unsupported_kind kind)
    else ok (kind, b ∷ id)

unfoldable pub build_mls_topic : ℕ → Bytes → Bytes
build_mls_topic kind id =
    if kind == topic_kind_welcome_messages_v1
    then build_mlsv1_welcome_topic id
    else build_mlsv1_group_topic id

abbrev topic_category_by_prefix : List (Bytes × Bytes)
topic_category_by_prefix =
    (codes "test", codes "test")
    ∷ (codes "contact", codes "contact")
    ∷ (codes "intro", codes "v1-intro")
    ∷ (codes "dm", codes "v1-conversation")
    ∷ (codes "dmE", codes "v1-conversation-ephemeral")
    ∷ (codes "invite", codes "v2-invite")
    ∷ (codes "groupInvite", codes "v2-group-invite")
    ∷ (codes "m", codes "v2-conversation")
    ∷ (codes "mE", codes "v2-conversation-ephemeral")
    ∷ (codes "privatestore", codes "private")
    ∷ (codes "userpreferences", codes "userpreferences")
    ∷ []

pub category : Bytes → Bytes
category content_topic =
    if has_prefix (codes "test-") content_topic
    then codes "test"
    else (let topic = trim_prefix (codes "/xmtp/0/") content_topic in
        if length topic == length content_topic
        then codes "invalid"
        else (let (prefix, found) = cut_dash topic in
            if found
            then elim (lookup prefix topic_category_by_prefix) [
              | some c ↦ c
              | none ↦ codes "invalid"
            ]
            else codes "invalid"))

pub is_ephemeral : Bytes → Bool
is_ephemeral content_topic =
    category content_topic == codes "v2-conversation-ephemeral"
    || category content_topic == codes "v1-conversation-ephemeral"

pub is_user_preferences : Bytes → Bool
is_user_preferences content_topic = category content_topic == codes "userpreferences"
