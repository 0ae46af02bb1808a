-- ===== src/Subscribe/Frames/Tests.antt =====
-- The frames of three messages, one of them a duplicate.
use xmtp_node_go.Base.{All, List, [], empty, ◌∷◌, ◌≡◌}
use xmtp_node_go.Subscribe.Frames.{GroupMessage, group_reader, build_frames}
use xmtp_node_go.Subscribe.Frames.Dedup.{concat, survivors, marks_after, build_frames-survivors}
use xmtp_node_go.Subscribe.Frames.Sizes.{Fits, build_frames-Fits}

abbrev three_messages : List GroupMessage
three_messages =
    record { id = 1; group_id = 5 ∷ []; body = 1 ∷ 2 ∷ [] }
    ∷ record { id = 2; group_id = 5 ∷ []; body = 1 ∷ 2 ∷ 3 ∷ [] }
    ∷ record { id = 1; group_id = 5 ∷ []; body = 1 ∷ 2 ∷ [] }
    ∷ []

build_frames-survivors_example :
    (concat (build_frames group_reader 4 three_messages empty).0
      ≡ survivors group_reader three_messages empty)
    × ((build_frames group_reader 4 three_messages empty).1
        ≡ marks_after group_reader three_messages empty)
build_frames-survivors_example = build_frames-survivors group_reader 4 three_messages empty

build_frames-Fits_example :
    All (Fits group_reader 4) (build_frames group_reader 4 three_messages empty).0
build_frames-Fits_example = build_frames-Fits group_reader 4 three_messages empty
