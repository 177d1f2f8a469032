-- ===== src/Http/Chain.antt =====
-- `ChainRequestMiddleware`, with the helpers `ParseParamChainUUID` and `GetChainsUsers`.
pub mod Requests
use project_h_server.Prelude.{
  ℕ, List, [], ◌∷◌, ◌++◌, Option, none, some, Bool, true, false, Bytes, codes, ◌==◌, not, length,
  if◌then◌else◌, get_or,
}
use project_h_server.Http.Reply.{Body, World, Outcome, bad_request}

-- What the rows of `chains_users` come to: the column `user_id` of each, `none` for no UUID.
unfoldable pub collect_users : List (Option ℕ) → List ℕ → Option (List ℕ)
collect_users [] users = some users
collect_users (none ∷ rows) users = none
collect_users (some u ∷ rows) users = collect_users rows (users ++ u ∷ [])

-- The middleware ends with an error of `GetChainsUsers`, with an answer (and the error of writing
-- it), or hands on `chainid` and `requestid` to the next handler.
pub data Passed (S : Type 0) : Type 0 where
  next : (chain_id request_id : ℕ) → World S → Passed S
  stops : World S → Bool → Passed S

abbrev pub stop : {S : Type 0} → Outcome S → Passed S
stop (w, e) = stops w e

module _ {S : Type 0} (json_fails : Body → Bool) where
  -- `gocql.ParseUUID`'s result is an argument; a UUID that does not parse is the zero UUID.
  unfoldable pub parse_param_chain_uuid : Option ℕ → World S → ℕ × Outcome S
  unfolding bad_request
  parse_param_chain_uuid none w = (0, bad_request json_fails (codes "ChainID") (codes "invalid") w)
  parse_param_chain_uuid (some chain) w = (chain, (w, false))

  unfoldable pub choose_request : ℕ → ℕ → List ℕ → World S → Passed S
  unfolding bad_request
  choose_request chain user users w =
      if not (length users == 2)
      then stop (bad_request json_fails (codes "ChainID") (codes "invalid") w)
      else if get_or users 0 0 == user
      then next chain (get_or users 1 0) w
      else if get_or users 1 0 == user
      then next chain (get_or users 0 0) w
      else stop (bad_request json_fails (codes "ChainID") (codes "unauthorized") w)

  -- `rows` are the rows of `chains_users` for each chain.
  unfoldable pub chain_request_middleware :
      (ℕ → List (Option ℕ)) → Option ℕ → ℕ → World S → Passed S
  unfolding parse_param_chain_uuid collect_users choose_request
  chain_request_middleware rows param user w =
      let p = parse_param_chain_uuid param w in
      if p.1.1 then stops p.1.0 true else elim (collect_users (rows p.0) []) [
        | none ↦ stops p.1.0 true
        | some users ↦ choose_request p.0 user users p.1.0
      ]
