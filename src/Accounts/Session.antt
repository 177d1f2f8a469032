-- ===== src/Accounts/Session.antt =====
-- From a login to the requests of its session.
pub mod Lost
use project_h_server.Prelude.{
  ℕ, ◌+◌, ◌/◌, ◌^◌, ◌≡◌, ◌≢◌, ◌≤◌, ◌<◌, refl, [], ◌∷◌, ◌++◌, Option, none, some, Bool, true, false,
  Bytes, codes, same, same_iff, same_refl, arith, ltb, ℤ, pos, negsuc, parse_int, parse_int-decimal,
  decimal,
}
use project_h_server.Http.Reply.{
  Body, session_response, World, Outcome, json, internal_error, status_json, error_response,
}
use project_h_server.Http.Authenticate.{
  Claims, Jwt, valid, Stored, Request, enters, parse_jwt, check_token, check_bearer, authenticate,
}
use project_h_server.Accounts.Password.{Cipher, value, decrypt, decrypt_request_password_hash}
use project_h_server.Accounts.Store.{Database, UserRow, RefreshToken, found}
use project_h_server.Accounts.Tokens.{
  TokenCall, generate_jwt, execute, fill, run_queue, finish, token_headers,
  generate_and_refresh_tokens, refresh_token_duration,
}
use project_h_server.Accounts.Register.{fields, to_lower}
use project_h_server.Accounts.Login.{
  LoginSchema, LoginCall, open_session, check_password, find_and_check, login,
}
use project_h_server.Accounts.Tokens.Outcomes.{
  not_empty, issued_token, generate_lem, generate_fails_lem,
}

-- What `ParseStringToInt` makes of the header `x-refresh-token-expire`; a negative time is as far
-- in the past as 0.
abbrev pub as_millis : Option ℤ → Option ℕ
as_millis none = none
as_millis (some (pos n)) = some n
as_millis (some (negsuc n)) = some 0

-- The request that carries what the login handed out, the expiry as it was printed.
abbrev pub session_request : (session token access before refresh : Bytes) → ℕ → Request
session_request session token access before refresh expire_at = record {
  session_id = session;
  refresh_token = token;
  refresh = refresh;
  expire_at = as_millis (parse_int (decimal expire_at));
  bearer_split = before ∷ access ∷ [];
}

module _ {S : Type 0} (db : Database S) (json_fails : Body → Bool)
    (sign : Claims → ℕ → Option Bytes) where
  module _ (cipher : Cipher) (compare : (hash password : Bytes) → Bool) where
    -- A login that nothing goes wrong in: the email's row, a password that fits, a random session
    -- id and refresh token, a signed access token, and a store that takes the refresh token.
    pub record Succeeds (call : LoginCall) (req : LoginSchema) (w : World S) (row : UserRow)
        (session token access : Bytes) : Type 0 where
      pub row_found : db.find_user w.store (to_lower req.email) ≡ found row
      pub password_fits :
          (c : ℕ) × (password : Bytes) × (decrypt cipher req.enc_password_hash call.now
            ≡ value (c ∷ password))
          × (compare row.password_hash (c ∷ password) ≡ true)
      pub session_made : call.random_session ≡ some session
      pub token_made : call.token_call.random_token ≡ some token
      pub access_signed :
          sign
            (record { id = row.user_id; username = row.username; session_id = session })
            (call.token_call.now / 1000 + 3600)
          ≡ some access
      pub not_blank : (session ≢ []) × (token ≢ []) × (access ≢ [])
      pub token_stored :
          (db.set_token w.store session (issued_token call.token_call row.user_id token)).1 ≡ false
      pub answered : json_fails (session_response session) ≡ false

    -- Such a login answers with the session's id and hands out the tokens.
    login-session :
        (call : LoginCall) (req : LoginSchema) (w : World S) (row : UserRow)
        (session token access : Bytes)
        → Succeeds call req w row session token access
        → login db json_fails sign cipher compare call (fields req) w
          ≡ value (
            record w {
              store =
                  (db.set_token w.store session (issued_token call.token_call row.user_id token)).0;
              headers =
                  w.headers
                  ++ token_headers db json_fails sign
                      (issued_token call.token_call row.user_id token)
                      access;
              body = session_response session;
            },
            false,
          )
    unfolding login find_and_check decrypt_request_password_hash check_password open_session json
    login-session call req w row session token access h =
        let (c, password, d, k) = h.password_fits in
        let claims : Claims = record {
          id = row.user_id;
          username = row.username;
          session_id = session;
        } in
        let g =
          generate_lem db json_fails sign call.token_call claims w token access h.token_made
            h.access_signed (h.not_blank.2) h.token_stored in
        rw
          (
            login, find_and_check, h.row_found, decrypt_request_password_hash, d, check_password, k,
            open_session, h.session_made, g, json, h.answered,
          )
          refl

    module _ (jwt : Bytes → Jwt) (stored : Bytes → Stored)
        (refresh_tokens : Claims → World S → Outcome S) where
      enters-session :
          (claims : Claims) (token access before refresh : Bytes) (expire_at now : ℕ) (w : World S)
          → claims.session_id ≢ []
          → token ≢ []
          → jwt access ≡ valid claims
          → expire_at < 2 ^ 63
          → now ≤ expire_at
          → authenticate json_fails jwt stored refresh_tokens
              (session_request claims.session_id token access before refresh expire_at)
              now
              w
            ≡ enters claims w
      unfolding authenticate check_bearer check_token parse_jwt
      enters-session claims token access before refresh expire_at now w nd nt ej fits later =
          let in_time : ltb expire_at now ≡ false = ground (arith, later) in
          rw
            (
              authenticate,
              parse_int-decimal expire_at fits,
              not_empty claims.session_id nd,
              not_empty token nt,
              in_time,
              check_token,
              parse_jwt,
              ej,
              same_refl claims.session_id,
            )
            refl

      -- A login that nothing goes wrong in answers with the session's id and hands out a refresh
      -- token, its expiry and an access token; and if jwt reads the access token back as it was
      -- signed, a request with the three passes Authenticate as the user who logged in, until the
      -- refresh token expires, a date that fits in 63 bits.
      pub login-authenticate :
          (call : LoginCall) (req : LoginSchema) (w : World S) (row : UserRow)
          (session token access before refresh : Bytes) (now : ℕ) (later : World S)
          → Succeeds call req w row session token access
          → jwt access
            ≡ valid (record { id = row.user_id; username = row.username; session_id = session })
          → call.token_call.now + refresh_token_duration < 2 ^ 63
          → now ≤ call.token_call.now + refresh_token_duration
          → (w' : World S) × (login db json_fails sign cipher compare call (fields req) w
              ≡ value (w', false))
            × (w'.body ≡ session_response session)
            × (w'.headers
                ≡ w.headers
                  ++ (codes "x-refreshed", codes "true")
                    ∷ (codes "x-refresh-token", token)
                    ∷ (
                      codes "x-refresh-token-expire",
                      decimal (call.token_call.now + refresh_token_duration),
                    )
                    ∷ (codes "x-access-token", access)
                    ∷ [])
            × (authenticate json_fails jwt stored refresh_tokens
                  (session_request session token access before refresh
                    (call.token_call.now + refresh_token_duration))
                  now
                  later
                ≡ enters
                    (record { id = row.user_id; username = row.username; session_id = session })
                    later)
      unfolding token_headers
      login-authenticate call req w row session token access before refresh now later h ej fits
            in_time =
          (
            _,
            login-session call req w row session token access h,
            refl,
            refl,
            enters-session
                (record { id = row.user_id; username = row.username; session_id = session }) token
                access before refresh (call.token_call.now + refresh_token_duration) now later
                h.not_blank.0 h.not_blank.1 ej fits in_time,
          )
