-- ===== src/Backfill/Tests.antt =====
-- A table with one commit and one message that has its verdict already.
use xmtp_node_go.Base.{
  Bool, Bytes, List, Option, [], ap, arith, false, length, map, none, refl, some, ℕ, ◌==◌, ◌∷◌, ◌≡◌,
  nat_eq, bytes_eq,
}
use xmtp_node_go.MlsService.{GroupMessageValidation}
use xmtp_node_go.Backfill.{BackfillRow, BackfillGroupMessage, is_commit_cycles, classify_messages}
use xmtp_node_go.Backfill.Classify.{Answers}
use xmtp_node_go.Backfill.Cycles.{filled, is_commit_cycles-filled}

abbrev size_of : Bytes → ℕ
size_of = length

-- A commit is a message of one byte.
abbrev is_short : Bytes → Bool
is_short b = length b == 1

abbrev validate : List Bytes → Option (List GroupMessageValidation)
validate batch = some (map (λ b. record { group_id = []; is_commit = is_short b }) batch)

validate-Answers : Answers size_of validate is_short
validate-Answers batch small =
    (map (λ b. record { group_id = []; is_commit = is_short b }) batch, refl, same batch)
  where
    same :
        (batch : List Bytes)
        → map
            (λ r. r.is_commit)
            (map {B = GroupMessageValidation}
              (λ b. record { group_id = []; is_commit = is_short b })
              batch)
          ≡ map is_short batch
    same [] = refl
    same (b ∷ bs) = ap (λ xs. is_short b ∷ xs) (same bs)

abbrev three_rows : List BackfillRow
three_rows =
    record { id = 1; payload = 5 ∷ []; is_commit = none }
    ∷ record { id = 2; payload = 5 ∷ []; is_commit = some false }
    ∷ record { id = 3; payload = 5 ∷ 6 ∷ []; is_commit = none }
    ∷ []

is_commit_cycles-filled_example :
    is_commit_cycles size_of validate 1 three_rows ≡ map (filled is_short) three_rows
unfolding xmtp_node_go.Backfill.is_unset
is_commit_cycles-filled_example =
    is_commit_cycles-filled is_short size_of validate validate-Answers 1 three_rows
      ((omega arith, (omega arith, tt)), ((omega arith, tt), (tt, tt)))
      (omega arith, (omega arith, (omega arith, tt))) (omega arith)
