-- ===== src/Subscribe/Writer/Mutate/Tests.antt =====
-- A Mutate whose adds name one group twice.
use xmtp_node_go.Base.{bytes_eq, Bytes, Distinct, List, [], none, ok, refl, ◌∷◌, ◌≡◌}
use xmtp_node_go.Subscribe.Writer.Mutate.{Subscription, AddReq, merge_add, split, collect_adds}
use xmtp_node_go.Subscribe.Writer.Mutate.Adds.{
  add_keys, cursor_at, lowest_cursor, collect_adds-lowest,
}
use xmtp_node_go.Topic.{build_mls_topic, split_topic, build_mlsv1_group_topic}

abbrev two_adds : List Subscription
two_adds =
    record { topic = 0 ∷ 5 ∷ []; id_cursor = 9 } ∷ record { topic = 0 ∷ 5 ∷ []; id_cursor = 3 } ∷ []

abbrev one_topic : List (Bytes × AddReq)
one_topic =
    (build_mls_topic 0 (5 ∷ []), record { wire = 0 ∷ 5 ∷ []; kind = 0; id = 5 ∷ []; cursor = 3 })
    ∷ []

two_adds_collected : collect_adds two_adds [] ≡ ok one_topic
unfolding collect_adds merge_add split split_topic build_mls_topic build_mlsv1_group_topic
two_adds_collected = refl

collect_adds-lowest_example :
    Distinct (add_keys one_topic)
    × ((t : Bytes) → cursor_at t one_topic ≡ lowest_cursor t two_adds none)
collect_adds-lowest_example = collect_adds-lowest two_adds one_topic two_adds_collected
