-- ===== src/Identity/Tests.antt =====
-- A publication to an empty log, and a batch of two requests.
use xmtp_node_go.Base.{Bytes, List, Option, [], false, ok, refl, some, ◌∷◌, ◌≡◌, ◌≢◌, ◌⊎◌}
use xmtp_node_go.Identity.{
  get_inbox_ids, InboxLogFilter, StateDiff, Tables, ethereum_address, publish_identity_update,
  write_update,
}
use xmtp_node_go.Identity.Addresses.{get_inbox_ids-added}
use xmtp_node_go.Identity.Publish.{Accepted, publish_identity_update-Outcome, Refused}

abbrev no_entries : Tables
no_entries = record { inbox_log = []; address_log = []; next_sequence_id = 1 }

abbrev one_address : StateDiff
one_address = record { new_members = ethereum_address (9 ∷ []) ∷ []; removed_members = [] }

abbrev adds_address : List Bytes → Bytes → Option StateDiff
adds_address updates update = some one_address

publish_identity_update-Outcome_example :
    (((publish_identity_update {U = Bytes} some some some adds_address 12 false
          (4 ∷ [])
          (some (7 ∷ []))
          no_entries).0
        ≢ ok tt)
      × ((publish_identity_update {U = Bytes} some some some adds_address 12 false
            (4 ∷ [])
            (some (7 ∷ []))
            no_entries).1
          ≡ no_entries)
      × Refused {U = Bytes} some some some adds_address 12 (4 ∷ []) (7 ∷ []) no_entries false)
    ⊎ ((false ≡ false)
        × ((publish_identity_update {U = Bytes} some some some adds_address 12 false
              (4 ∷ [])
              (some (7 ∷ []))
              no_entries).0
            ≡ ok tt)
        × Accepted {U = Bytes} some some some adds_address 12
            (4 ∷ [])
            (7 ∷ [])
            no_entries
            (publish_identity_update {U = Bytes} some some some adds_address 12 false
              (4 ∷ [])
              (some (7 ∷ []))
              no_entries).1)
publish_identity_update-Outcome_example =
    publish_identity_update-Outcome {U = Bytes} some some some adds_address 12 false (4 ∷ [])
      (7 ∷ []) no_entries

abbrev published : Tables
published = write_update 12 (4 ∷ []) (7 ∷ []) one_address no_entries

abbrev two_requests : List InboxLogFilter
two_requests =
    record { inbox_id = 5 ∷ []; sequence_id = 0 }
    ∷ record { inbox_id = 4 ∷ []; sequence_id = 0 }
    ∷ []

get_inbox_ids-added_example :
    get_inbox_ids ((9 ∷ []) ∷ []) (write_update 12 (4 ∷ []) (7 ∷ []) one_address no_entries)
    ≡ (9 ∷ [], some (4 ∷ [])) ∷ []
get_inbox_ids-added_example =
    get_inbox_ids-added 12 (9 ∷ []) (4 ∷ []) (7 ∷ []) one_address no_entries tt refl refl
