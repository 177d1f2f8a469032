-- ===== src/Http/Mapper.antt =====
-- `RelationsMapper`: the rows of a user, sorted into friends, requests sent and requests received.
pub mod Lists
use project_h_server.Prelude.{
  ℕ, List, [], ◌∷◌, ◌++◌, Option, none, some, Bool, Bytes, ltb, leb, length, if◌then◌else◌, sort,
}
use project_h_server.Http.Store.{Row}

pub record FriendsSchema : Type 0 where
  pub relation_id : ℕ
  pub username : Bytes
  pub chain_id : ℕ
  pub created : ℕ
  pub last_seen : ℕ
  pub last_recv : ℕ

pub record RequestsSchema : Type 0 where
  pub relation_id : ℕ
  pub username : Bytes
  pub created : ℕ
  pub requested : Bool

pub record RelationsSchema : Type 0 where
  pub friends : List FriendsSchema
  pub requested : List RequestsSchema
  pub requests : List RequestsSchema

-- A row as the iterator scans it; no id if the column is not a UUID.
pub record Entry : Type 0 where
  pub relation_id : Option ℕ
  pub row : Row

unfoldable pub cur_friend : ℕ → Row → FriendsSchema
cur_friend id row = record {
  relation_id = id;
  username = row.relation_username;
  chain_id = row.chain_id;
  created = row.created;
  last_seen = row.last_seen;
  last_recv = row.last_recv;
}

unfoldable pub cur_request : ℕ → Row → RequestsSchema
cur_request id row = record {
  relation_id = id;
  username = row.relation_username;
  created = row.created;
  requested = row.requested;
}

-- The loop's body for a row with an id.
unfoldable pub classify : ℕ → Row → RelationsSchema → RelationsSchema
classify id row rs =
    if row.active
    then (if row.friend
        then record rs { friends = rs.friends ++ cur_friend id row ∷ [] }
        else (if row.requested
            then record rs { requested = rs.requested ++ cur_request id row ∷ [] }
            else record rs { requests = rs.requests ++ cur_request id row ∷ [] }))
    else rs

-- The loop; `none` is the "iter error".
unfoldable pub scan_rows : List Entry → RelationsSchema → Option RelationsSchema
unfolding classify
scan_rows [] rs = some rs
scan_rows (e ∷ es) rs = elim e.relation_id [
  | none ↦ none
  | some id ↦ scan_rows es (classify id e.row rs)
]

unfoldable pub sort_some : {A : Type 0} → (A → A → Bool) → List A → List A
sort_some less xs = if leb 1 (length xs) then sort less xs else xs

unfoldable pub requested_less : RequestsSchema → RequestsSchema → Bool
requested_less x y = ltb x.created y.created

unfoldable pub requests_less : RequestsSchema → RequestsSchema → Bool
requests_less x y = ltb y.created x.created

unfoldable pub friends_less : FriendsSchema → FriendsSchema → Bool
friends_less x y = ltb y.last_recv x.last_recv

unfoldable pub sort_relations : RelationsSchema → RelationsSchema
unfolding sort_some
sort_relations rs = record {
  friends = sort_some friends_less rs.friends;
  requested = sort_some requested_less rs.requested;
  requests = sort_some requests_less rs.requests;
}

unfoldable pub relations_mapper : List Entry → RelationsSchema → Option RelationsSchema
unfolding scan_rows sort_relations
relations_mapper es rs = elim (scan_rows es rs) [
  | none ↦ none
  | some all ↦ some (sort_relations all)
]
