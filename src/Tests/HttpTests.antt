-- ===== src/Tests/HttpTests.antt =====
-- The relation lists, the chain middleware and the authentication.

use project_h_server.Prelude.{
  ℕ, ◌≡◌, ◌↔◌, Option, same, refl, List, [], ◌∷◌, some, Bool, true, false, Bytes, codes, ◌==◌,
  if◌then◌else◌,
}
use project_h_server.Http.Reply.{Body, empty, World}
use project_h_server.Http.Store.{null_row}
use project_h_server.Http.Mapper.{
  Entry, RelationsSchema, cur_friend, cur_request, friends_less, requested_less, requests_less,
  relations_mapper,
}
use project_h_server.Http.Mapper.Lists.{
  none_yet, is_friend, is_requested, is_request, listed, IsSortOf, relations_mapper-listed,
}
use project_h_server.Http.Chain.{next, chain_request_middleware}
use project_h_server.Http.Chain.Requests.{IsOther, chain_request_middleware-next}
use project_h_server.Http.Authenticate.{
  Claims, Jwt, expired, Stored, fields, nil, Request, authenticate,
}
use project_h_server.Http.Authenticate.Entrance.{IsGranted, authenticate-enters}

abbrev never : Body → Bool
never b = false

abbrev blank : World (Unit {0})
blank = record { store = tt; status = 200; body = empty; pushed = []; headers = []; mails = [] }

abbrev entry : ℕ → ℕ → Bool → Bool → Bool → Entry
entry id at friend requested active = record {
  relation_id = some id;
  row = record null_row {
    created = at;
    last_recv = at;
    friend = friend;
    requested = requested;
    active = active;
  };
}

abbrev entries : List Entry
entries =
    entry 1 5 true false true
    ∷ entry 2 6 true false true
    ∷ entry 3 7 false true true
    ∷ entry 4 8 false false true
    ∷ entry 5 9 true false false
    ∷ []

relations_mapper-listed_example :
    (rs : RelationsSchema) × (relations_mapper entries none_yet ≡ some rs)
    × IsSortOf friends_less (listed is_friend cur_friend entries) rs.friends
    × IsSortOf requested_less (listed is_requested cur_request entries) rs.requested
    × IsSortOf requests_less (listed is_request cur_request entries) rs.requests
relations_mapper-listed_example =
    relations_mapper-listed entries
      ((1, refl), ((2, refl), ((3, refl), ((4, refl), ((5, refl), tt)))))

-- The chain 33 has the users 1 and 2.
abbrev chain_rows : ℕ → List (Option ℕ)
chain_rows c = if c == 33 then some 1 ∷ some 2 ∷ [] else []

chain_request_middleware-next_example :
    (chain_request_middleware never chain_rows (some 33) 2 (blank) ≡ next 33 1 (blank))
    ↔ IsOther (chain_rows 33) 2 1
chain_request_middleware-next_example =
    chain_request_middleware-next never chain_rows 33 2 1 (blank)

abbrev ann_claims : Claims
ann_claims = record { id = codes "u"; username = codes "ann"; session_id = codes "s" }

-- Every access token has expired.
abbrev old_jwt : Bytes → Jwt
old_jwt token = expired ann_claims

abbrev one_session : Bytes → Stored
one_session id = if same id (codes "s") then fields (codes "u") else nil

abbrev not_refreshed : Claims → World (Unit {0}) → World (Unit {0}) × Bool
not_refreshed c w = (w, false)

abbrev a_request : Request
a_request = record {
  session_id = codes "s";
  refresh_token = codes "t";
  refresh = codes "false";
  expire_at = some 9;
  bearer_split = [] ∷ codes "jwt" ∷ [];
}

authenticate-enters_example :
    (token : Bytes) × IsGranted never old_jwt one_session not_refreshed a_request 5 ann_claims token
unfolding authenticate same
authenticate-enters_example =
    authenticate-enters never old_jwt one_session not_refreshed a_request 5 ann_claims (blank)
      (blank) refl
