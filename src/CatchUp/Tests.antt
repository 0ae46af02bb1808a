-- ===== src/CatchUp/Tests.antt =====
-- A turn of two groups over a table of four rows, and a wave of two installations, one of whose three
-- welcomes is of an unknown type.
use xmtp_node_go.Base.{Bytes, List, [], arith, refl, some, ℕ, ◌++◌, ◌∷◌, ◌≡◌}
use xmtp_node_go.Subscribe.Frames.{GroupMessage, v1, welcome_pointer}
use xmtp_node_go.CatchUp.{
  WelcomeRow, welcome_row, parse_welcome_row, catch_up, catch_up_welcomes, page, done,
  pinned_ceiling, below_ceiling, probe_matches, greatest, clamp_cursor, Catchup, group_row, probe,
  query_wave_scan,
}
use xmtp_node_go.CatchUp.Query.{rows_of, query-probe}
use xmtp_node_go.CatchUp.Turn.{due_of}
use xmtp_node_go.CatchUp.Scan.{rows_in, forwarded}
use xmtp_node_go.CatchUp.Wave.{catch_up-due}

abbrev row : ℕ → ℕ → GroupMessage
row id group = record { id = id; group_id = group ∷ []; body = [] }

abbrev four_rows : List GroupMessage
four_rows = row 1 5 ∷ row 2 6 ∷ row 3 5 ∷ row 4 5 ∷ []

abbrev filter_of : ℕ → Catchup
filter_of group = record { key = group ∷ []; id_cursor = 0 }

query-probe_example :
    rows_of group_row
      (5 ∷ [])
      (query_wave_scan group_row four_rows ((filter_of 6 ∷ []) ++ filter_of 5 ∷ []) 0 4 2)
    ≡ probe group_row four_rows 0 4 2 (filter_of 5)
query-probe_example =
    query-probe group_row four_rows 0 4 2 (filter_of 5) (filter_of 6 ∷ []) []
      (omega arith, (omega arith, (omega arith, (omega arith, tt)))) refl refl refl

abbrev welcome : ℕ → ℕ → ℕ → WelcomeRow
welcome id key kind = record {
  id = id;
  installation_key = key ∷ [];
  payload = id ∷ [];
  message_type = kind;
}

abbrev four_welcomes : List WelcomeRow
four_welcomes = welcome 1 5 0 ∷ welcome 2 6 1 ∷ welcome 3 5 9 ∷ welcome 4 5 0 ∷ []

abbrev two_installations : List Catchup
two_installations = filter_of 5 ∷ filter_of 6 ∷ []

catch_up-due_example :
    (turns : List (List WelcomeRow)) × (catch_up welcome_row parse_welcome_row four_welcomes 3
        (some 4)
        1
        2
        6
        two_installations
      ≡ some (forwarded parse_welcome_row turns))
    × ((k : Bytes)
        → rows_of welcome_row k (rows_in turns)
          ≡ due_of welcome_row four_welcomes
              (pinned_ceiling 3 (some 4) (below_ceiling 3 two_installations))
              k
              (below_ceiling 3 two_installations))
unfolding probe_matches greatest clamp_cursor below_ceiling pinned_ceiling
catch_up-due_example =
    catch_up-due welcome_row parse_welcome_row four_welcomes 3 (some 4) 1 2 6 two_installations
      (omega arith, (omega arith, (omega arith, (omega arith, tt)))) (refl, (refl, tt))
      (omega arith)

two_topics_run :
    catch_up_welcomes four_welcomes 3 (some 4) 1 2 6 two_installations
    ≡ some (
        page (v1 1 (5 ∷ []) (1 ∷ []) ∷ [])
        ∷ page (welcome_pointer 2 (6 ∷ []) (2 ∷ []) ∷ [])
        ∷ page (v1 4 (5 ∷ []) (4 ∷ []) ∷ [])
        ∷ done
        ∷ [])
unfolding catch_up_welcomes catch_up xmtp_node_go.CatchUp.at_least_one xmtp_node_go.CatchUp.count_of
    query_wave_scan pinned_ceiling probe clamp_cursor xmtp_node_go.CatchUp.insert_by_id
    xmtp_node_go.CatchUp.last_id_of
two_topics_run = refl
