-- ===== src/CatchUp.antt =====
-- The catch-up of a wave: catchUpGroups and catchUpWelcomes of pkg/mls/api/v1/subscribe.go, and the
-- wave-scan queries of pkg/mls/store/readStore.go with their SQL texts. The two differ in their rows
-- and in what is forwarded of them.
--
-- The table is the list of the rows in the order of their ids. It stands for what the queries of the
-- wave see at or below the ceiling, which does not change while ids become visible in their order.
-- A failed query and the end of the stream, which stop the loop, are left out.
pub mod Query
pub mod Skip
pub mod Due
pub mod Turn
pub mod Scan
pub mod Wave
mod Tests
use xmtp_node_go.Base.{
  Bool, Bytes, List, Option, [], drop, if◌then◌else◌, keep, leb, length, ltb, map, none, some, suc,
  take, zero, ℕ, ◌&&◌, ◌++◌, ◌+◌, ◌-◌, ◌==◌, ◌^◌, ◌||◌, ◌∷◌, nat_eq, bytes_eq,
}
use xmtp_node_go.Subscribe.Frames.{GroupMessage, WelcomeMessage, v1, welcome_pointer}
use mathlib.Core.Option

-- GroupCatchup and WelcomeCatchup: the key is the group id or the installation key.
pub record Catchup : Type 0 where
  pub key : Bytes
  pub id_cursor : ℕ

-- What a scan reads of a row.
pub record RowReader (R : Type 0) : Type 0 where
  pub key : R → Bytes
  pub id : R → ℕ

-- A row of the table of welcomes.
pub record WelcomeRow : Type 0 where
  pub id : ℕ
  pub installation_key : Bytes
  pub payload : Bytes
  pub message_type : ℕ

abbrev pub group_row : RowReader GroupMessage
group_row = record { key = λ m. m.group_id; id = λ m. m.id }

abbrev pub welcome_row : RowReader WelcomeRow
welcome_row = record { key = λ r. r.installation_key; id = λ r. r.id }

-- A row of unknown type is skipped.
pub parse_welcome_row : WelcomeRow → Option WelcomeMessage
parse_welcome_row r =
    if r.message_type == 0
    then some (v1 r.id r.installation_key r.payload)
    else if r.message_type == 1
    then some (welcome_pointer r.id r.installation_key r.payload)
    else none

abbrev pub max_int64 : ℕ
max_int64 = 2 ^ 63 - 1

pub clamp_cursor : ℕ → ℕ
clamp_cursor c = if ltb max_int64 c then max_int64 else c

-- GREATEST of SQL.
pub greatest : ℕ → ℕ → ℕ
greatest a b = if ltb a b then b else a

pub below_ceiling : ℕ → List Catchup → List Catchup
below_ceiling ceiling = keep (λ a. ltb a.id_cursor ceiling)

unfoldable pub at_least_one : ℕ → ℕ
at_least_one n = if ltb n 1 then 1 else n

module _ {R : Type 0} (row : RowReader R) where
  -- The WHERE of the lateral probe.
  unfoldable pub probe_matches : Bytes → ℕ → ℕ → R → Bool
  probe_matches key floor ceiling m =
      row.key m == key && ltb floor (row.id m) && leb (row.id m) ceiling

  -- One lateral probe: the rows of one filter, in the order of ids, cut at the limit.
  pub probe : List R → ℕ → ℕ → ℕ → Catchup → List R
  unfolding probe_matches greatest
  probe table scan_cursor ceiling limit f = take limit (
      keep
        (probe_matches f.key (greatest (clamp_cursor f.id_cursor) (clamp_cursor scan_cursor))
          (clamp_cursor ceiling))
        table)

  -- The outer ORDER BY.
  insert_by_id : R → List R → List R
  insert_by_id m [] = m ∷ []
  insert_by_id m (x ∷ xs) = if leb (row.id m) (row.id x) then m ∷ x ∷ xs else x ∷ insert_by_id m xs

  order_by_id : List R → List R
  order_by_id [] = []
  order_by_id (m ∷ ms) = insert_by_id m (order_by_id ms)

  probes : List R → ℕ → ℕ → ℕ → List Catchup → List R
  probes table scan_cursor ceiling limit [] = []
  probes table scan_cursor ceiling limit (f ∷ fs) =
      probe table scan_cursor ceiling limit f ++ probes table scan_cursor ceiling limit fs

  -- The rows of a turn.
  pub query_wave_scan : List R → List Catchup → ℕ → ℕ → ℕ → List R
  unfolding probes order_by_id
  query_wave_scan table filters scan_cursor ceiling limit =
      if length filters == 0 || ceiling == 0
      then []
      else order_by_id (probes table scan_cursor ceiling limit filters)

  -- The count of the rows of a key, and the id of the last one.
  pub count_of : Bytes → List R → ℕ
  count_of k [] = 0
  count_of k (m ∷ ms) = if row.key m == k then count_of k ms + 1 else count_of k ms

  pub last_id_of : Bytes → List R → ℕ → ℕ
  last_id_of k [] last = last
  last_id_of k (m ∷ ms) last = last_id_of k ms (if row.key m == k then row.id m else last)

  -- A topic that has had its limit of rows, with its cursor moved on.
  pub advance : List R → Catchup → Catchup
  advance rows b =
      let last = last_id_of b.key rows 0 in
      if ltb b.id_cursor last then record b { id_cursor = last } else b

  -- The topics of a batch that may have more.
  pub requeue : ℕ → List R → List Catchup → List Catchup
  unfolding advance
  requeue limit rows [] = []
  requeue limit rows (b ∷ batch) =
      let rest = requeue limit rows batch in
      if ltb (count_of b.key rows) limit then rest else advance rows b ∷ rest

-- What a fetcher forwards.
pub data CatchUpBatch (M : Type 0) : Type 0 where
  page : List M → CatchUpBatch M
  done : CatchUpBatch M

-- The rows that can be parsed.
unfoldable pub parse_rows {ℓ} : {R : Type ℓ} {M : Type ℓ} → (R → Option M) → List R → List M
parse_rows parse [] = []
parse_rows parse (r ∷ rs) = elim (parse r) [
  | some m ↦ m ∷ parse_rows parse rs
  | none ↦ parse_rows parse rs
]

-- The batches of some turns: a turn without a message is not forwarded.
pub add_page : {M : Type 0} → List M → List (CatchUpBatch M) → List (CatchUpBatch M)
add_page msgs batches = if ltb 0 (length msgs) then page msgs ∷ batches else batches

module _ {R M : Type 0} (row : RowReader R) (parse : R → Option M) (table : List R)
    (ceiling batch_topics limit : ℕ) where
  -- The loop, on fuel, with the batch and limit tunables guarded; `none` is out of fuel.
  pub scan_loop : ℕ → List Catchup → Option (List (CatchUpBatch M))
  unfolding requeue parse_rows add_page
  scan_loop fuel [] = some (done ∷ [])
  scan_loop zero (f ∷ fs) = none
  scan_loop (suc fuel) (f ∷ fs) =
      let batch = take batch_topics (f ∷ fs) in
      let queue = drop batch_topics (f ∷ fs) in
      let rows = query_wave_scan row table batch 0 ceiling limit in
      let rest = scan_loop fuel (queue ++ requeue row limit rows batch) in
      Option.map (add_page (parse_rows parse rows)) rest

-- `ceiling` is the first snapshot and `refreshed` the one under the slot, if it is read.
unfoldable pub pinned_ceiling : ℕ → Option ℕ → List Catchup → ℕ
pinned_ceiling ceiling refreshed queue =
    if ltb 0 (length queue)
    then (elim refreshed [ none ↦ ceiling | some c ↦ if ltb ceiling c then c else ceiling ])
    else ceiling

module _ {R M : Type 0} (row : RowReader R) (parse : R → Option M) where
  -- What the two fetchers share.
  pub catch_up : List R → ℕ → Option ℕ → ℕ → ℕ → ℕ → List Catchup → Option (List (CatchUpBatch M))
  unfolding scan_loop below_ceiling
  catch_up table ceiling refreshed batch_topics limit fuel adds =
      let queue = below_ceiling ceiling adds in
      scan_loop row parse table (pinned_ceiling ceiling refreshed queue) (at_least_one batch_topics)
        (at_least_one limit) fuel queue

pub catch_up_groups :
    List GroupMessage
    → ℕ
    → Option ℕ
    → ℕ
    → ℕ
    → ℕ
    → List Catchup
    → Option (List (CatchUpBatch GroupMessage))
catch_up_groups = catch_up group_row some

pub catch_up_welcomes :
    List WelcomeRow
    → ℕ
    → Option ℕ
    → ℕ
    → ℕ
    → ℕ
    → List Catchup
    → Option (List (CatchUpBatch WelcomeMessage))
unfolding parse_welcome_row
catch_up_welcomes = catch_up welcome_row parse_welcome_row
