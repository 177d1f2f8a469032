-- ===== src/Http/Authenticate.antt =====
-- `Authenticate` and `ParseJWT`. What the request's headers hold, what `strings.Split` makes of the
-- authorization, what jwt, redis and `GenerateAndRefreshTokens` answer, are arguments.
pub mod Entrance
use project_h_server.Prelude.{
  ℕ, List, [], ◌∷◌, Option, none, some, Bool, true, false, Bytes, codes, same, ltb, not, ◌||◌,
  if◌then◌else◌,
}
use project_h_server.Http.Reply.{Body, World, Outcome, invalid_request, bad_request, internal_error}

-- The claims that `ParseJWT` reads.
pub record Claims : Type 0 where
  pub id : Bytes
  pub username : Bytes
  pub session_id : Bytes

-- `jwt.Parse`: a valid token, one whose only error is `ValidationErrorExpired`, another error, or
-- claims that are no map.
pub data Jwt : Type 0 where
  valid : Claims → Jwt
  expired : Claims → Jwt
  invalid : Jwt
  bad_claims : Bool → Jwt

-- `HGetAll` of "refreshtokens:" and the session id: the field "userid", empty if there is none.
pub data Stored : Type 0 where
  fields : Bytes → Stored
  nil : Stored
  failed : Stored

-- The headers; the date of expiry is `none` if it does not parse.
pub record Request : Type 0 where
  pub session_id : Bytes
  pub refresh_token : Bytes
  pub refresh : Bytes
  pub expire_at : Option ℕ
  -- the parts of the header `Authorization` around "Bearer "
  pub bearer_split : List Bytes

-- `c.Next` with `userid`, `username` and `sessionid`, or an answer and whether an error is
-- returned.
pub data Entry (S : Type 0) : Type 0 where
  enters : Claims → World S → Entry S
  stops : World S → Bool → Entry S

abbrev pub stop : {S : Type 0} → Outcome S → Entry S
stop (w, e) = stops w e

abbrev pub no_claims : Claims
no_claims = record { id = []; username = []; session_id = [] }

module _ {S : Type 0} (json_fails : Body → Bool) (jwt : Bytes → Jwt) (stored : Bytes → Stored) where
  unfoldable pub parse_jwt : Bytes → World S → Bool × Claims × Outcome S
  unfolding internal_error
  parse_jwt token w = elim (jwt token) [
    | valid claims ↦ (false, claims, (w, false))
    | expired claims ↦ (true, claims, (w, false))
    | invalid ↦ (false, no_claims, internal_error json_fails w)
    | bad_claims was_expired ↦ (was_expired, no_claims, internal_error json_fails w)
  ]

  -- `refresh_tokens` is `GenerateAndRefreshTokens`.
  module _ (refresh_tokens : Claims → World S → Outcome S) where
    unfoldable pub check_user : Request → Claims → Bytes → World S → Entry S
    unfolding bad_request
    check_user q claims user_id w =
        if not (same claims.id user_id)
        then stop (bad_request json_fails (codes "UserID") (codes "Invalid") w)
        else if same q.refresh (codes "true")
        then (let t = refresh_tokens claims w in if t.1 then stops t.0 true else enters claims t.0)
        else enters claims w

    unfoldable pub on_expired : Request → Claims → World S → Entry S
    unfolding check_user invalid_request internal_error
    on_expired q claims w = elim (stored q.session_id) [
      | fields user_id ↦ check_user q claims user_id w
      | nil ↦ stop (invalid_request json_fails (codes "RefreshToken") (codes "invalid") w)
      | failed ↦ stop (internal_error json_fails w)
    ]

    unfoldable pub check_token : Request → Bytes → World S → Entry S
    unfolding parse_jwt on_expired bad_request
    check_token q token w =
        let p = parse_jwt token w in
        if p.2.1
        then stops p.2.0 true
        else if not (same p.1.session_id q.session_id)
        then stop (bad_request json_fails (codes "SessionID") (codes "invalid") p.2.0)
        else if p.0
        then on_expired q p.1 p.2.0
        else enters p.1 p.2.0

    unfoldable pub check_bearer : Request → ℕ → ℕ → World S → Entry S
    unfolding check_token bad_request
    check_bearer q expire_at now w = elim q.bearer_split [
      | before ∷ token ∷ [] ↦
          if ltb expire_at now
          then stop (bad_request json_fails (codes "RefreshToken") (codes "expired") w)
          else check_token q token w
      | _ ↦ stop (bad_request json_fails (codes "AccessToken") (codes "invalid") w)
    ]

    unfoldable pub authenticate : Request → ℕ → World S → Entry S
    unfolding check_bearer bad_request
    authenticate q now w = elim q.expire_at [
      | none ↦ stop (bad_request json_fails (codes "Auth") (codes "empty") w)
      | some expire_at ↦
          if same q.session_id [] || same q.refresh_token []
          then stop (bad_request json_fails (codes "Auth") (codes "empty") w)
          else check_bearer q expire_at now w
    ]
