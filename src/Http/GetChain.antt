-- ===== src/Http/GetChain.antt =====
-- `helpers.GetChain` and the service `GetChain`: the messages of a chain around a time. The table
-- `chains` is a parameter, `select`, with the three queries of the code.
pub mod Reverse
pub mod Window
pub mod Service
use project_h_server.Prelude.{
  ℤ, pos, negsuc, ℕ, suc, zero, ◌+◌, ◌-◌, ◌/◌, List, [], ◌∷◌, ◌++◌, Option, none, some, Bool, true,
  false, not, ◌&&◌, Bytes, codes, same, ltb, ◌==◌, length, get_elem?, set, if◌then◌else◌,
}

-- A row as the iterator scans it, a null column as zero; no id if the column is not a UUID.
pub record ChainRow : Type 0 where
  pub message_id : Option ℕ
  pub user_id : ℕ
  pub created : ℕ
  pub expires : ℕ
  pub type_code : ℕ
  pub seen : Bool
  pub display : Bytes
  pub duration : ℤ

pub record MessageSchema : Type 0 where
  pub message_id : ℕ
  pub user_id : ℕ
  pub created : ℕ
  pub expires : ℕ
  pub type_code : ℕ
  pub seen : Bool
  pub display : Bytes
  pub duration : ℤ

-- `created > ?` in ascending order, `created < ?` and `created <= ?` in the table's, descending.
pub data Query : Type 0 where
  after before until : Query

unfoldable pub swap {ℓ} : {A : Type ℓ} → List A → ℕ → ℕ → List A
swap xs i j = elim (get_elem? xs i) [
  | none ↦ xs
  | some a ↦ elim (get_elem? xs j) [ none ↦ xs | some b ↦ set (set xs i b) j a ]
]

-- The loop from `i` on, for a number of rounds.
unfoldable pub swap_loop {ℓ} : {A : Type ℓ} → ℕ → ℕ → List A → List A
unfolding swap
swap_loop zero i xs = xs
swap_loop (suc rounds) i xs = swap_loop rounds (suc i) (swap xs i (length xs - i - 1))

unfoldable pub reverse_in_place {ℓ} : {A : Type ℓ} → List A → List A
unfolding swap_loop
reverse_in_place xs = swap_loop (length xs / 2) 0 xs

-- `time_of` is `UUID.Time().UnixMilli()`.
module _ (time_of : ℕ → ℕ) (select : Query → ℕ → ℕ → ℕ → List ChainRow) where
  unfoldable pub cur_message : ℕ → ChainRow → MessageSchema
  cur_message id row = record {
    message_id = id;
    user_id = row.user_id;
    created = time_of id;
    expires = row.expires;
    type_code = row.type_code;
    seen = row.seen;
    display = row.display;
    duration = row.duration;
  }

  -- The loop over the rows; `none` is the "iter error".
  unfoldable pub read_rows : List ChainRow → List MessageSchema → Option (List MessageSchema)
  unfolding cur_message
  read_rows [] chain = some chain
  read_rows (row ∷ rows) chain = elim row.message_id [
    | none ↦ none
    | some id ↦ read_rows rows (chain ++ cur_message id row ∷ [])
  ]

  unfoldable pub query : Bool → Bool → Query
  query asc new = if not new then (if asc then after else before) else until

  unfoldable pub fetch : ℕ → ℕ → Bool → Bool → ℕ → Option (List MessageSchema)
  unfolding query read_rows reverse_in_place
  fetch chain_id req_time asc new limit =
      elim (read_rows (select (query asc new) chain_id req_time limit) []) [
        | none ↦ none
        | some chain ↦ some (if not asc then reverse_in_place chain else chain)
      ]

  unfoldable pub get_chain : ℕ → ℕ → Bool → Bool → ℤ → Option (List MessageSchema)
  unfolding fetch
  get_chain chain_id req_time asc new (pos n) =
      if ltb 10 n
      then fetch chain_id req_time asc new 10
      else if n == 0
      then some []
      else fetch chain_id req_time asc new n
  get_chain chain_id req_time asc new (negsuc n) = some []

  -- The service behind the parsed `requestTime` and `limit`; `none` is an internal error.
  unfoldable pub get_chain_service :
      ℕ → Option ℕ → Option ℤ → (asc desc : Bytes) → Option (List MessageSchema)
  unfolding get_chain
  get_chain_service chain_id none limit asc desc = none
  get_chain_service chain_id (some request) none asc desc = none
  get_chain_service chain_id (some request) (some limit) asc desc =
      if not (same asc (codes "true")) && not (same desc (codes "true"))
      then get_chain chain_id request false true limit
      else elim (if same asc (codes "true")
          then get_chain chain_id request true false limit
          else some []) [
            | none ↦ none
            | some asc_chain ↦
                elim (if same desc (codes "true")
                  then get_chain chain_id request false false limit
                  else some []) [ none ↦ none | some desc_chain ↦ some (desc_chain ++ asc_chain) ]
          ]
