-- ===== src/Tests/GetChainTests.antt =====
-- The messages of a chain at a table of one row.

use mathlib.Core.Bool.{false≢true}
use project_h_server.Prelude.{
  pos, ℕ, ◌≡◌, refl, List, [], ◌∷◌, map, some, true, false, codes, same, IsSorted,
}
use project_h_server.Http.GetChain.{ChainRow, get_chain, get_chain_service}
use project_h_server.Http.GetChain.Window.{IsWindow, shown, asked, not_rising, get_chain-IsWindow}
use project_h_server.Http.GetChain.Service.{Parts, get_chain_service-IsAnswer}
use project_h_server.Tests.OneRow.{one_row, select_row, select_row-Selects}

-- The chain 33 has one message, at 4.
abbrev chain_row : ChainRow
chain_row = record {
  message_id = some 4;
  user_id = 1;
  created = 4;
  expires = 99;
  type_code = 0;
  seen = false;
  display = [];
  duration = pos 3;
}

abbrev same_time : ℕ → ℕ
same_time id = id

get_chain-IsWindow_example :
    (rows : List ChainRow) × (get_chain same_time (select_row 33 chain_row) 33 4 false true (pos 50)
      ≡ some (map (shown same_time) rows))
    × IsWindow (one_row 33 chain_row) (asked false true) 33 4 10 rows
get_chain-IsWindow_example =
    get_chain-IsWindow same_time (one_row 33 chain_row) (select_row 33 chain_row)
      (select_row-Selects 33 chain_row 4 refl) 33 4 false true (pos 50) (λ h. absurd (false≢true h))

get_chain_service-IsAnswer_example :
    (rows : List ChainRow) × (get_chain_service same_time
        (select_row 33 chain_row)
        33
        (some 5)
        (some (pos 50))
        (codes "true")
        (codes "true")
      ≡ some (map (shown same_time) rows))
    × IsSorted not_rising rows
    × Parts
        (one_row 33 chain_row)
        33
        5
        10
        (same (codes "true") (codes "true"))
        (same (codes "true") (codes "true"))
        rows
get_chain_service-IsAnswer_example =
    get_chain_service-IsAnswer same_time (one_row 33 chain_row) (select_row 33 chain_row)
      (select_row-Selects 33 chain_row 4 refl) 33 5 (pos 50) (codes "true") (codes "true")

-- The message is shown.
one_test :
    get_chain_service same_time
      (select_row 33 chain_row)
      33
      (some 5)
      (some (pos 50))
      []
      (codes "true")
    ≡ some (map (shown same_time) (chain_row ∷ []))
unfolding get_chain_service get_chain same
one_test = refl
