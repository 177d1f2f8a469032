-- ===== src/Accounts/Session/Lost.antt =====
-- A login whose tokens redis does not take.
use project_h_server.Prelude.{
  ℕ, ◌+◌, ◌/◌, ◌≡◌, ◌≢◌, refl, [], ◌∷◌, Option, some, Bool, true, false, Bytes,
}
use project_h_server.Http.Reply.{
  Body, session_response, World, json, internal_error, status_json, error_response,
}
use project_h_server.Http.Authenticate.{Claims}
use project_h_server.Accounts.Password.{Cipher, value, decrypt, decrypt_request_password_hash}
use project_h_server.Accounts.Store.{Database, UserRow, RefreshToken, found}
use project_h_server.Accounts.Register.{fields, to_lower}
use project_h_server.Accounts.Login.{
  LoginSchema, LoginCall, open_session, check_password, find_and_check, login,
}
use project_h_server.Accounts.Tokens.Outcomes.{issued_token, generate_fails_lem}

module _ {S : Type 0} (db : Database S) (json_fails : Body → Bool)
    (sign : Claims → ℕ → Option Bytes) where
  module _ (cipher : Cipher) (compare : (hash password : Bytes) → Bool) where
    -- A login with the right password whose tokens redis does not take, while the answer 500 is
    -- written without an error, answers with the session's id all the same, with status 500, and
    -- hands out no tokens.
    pub login_without_tokens :
        (call : LoginCall) (req : LoginSchema) (w : World S) (row : UserRow) (c : ℕ)
        (password session token access : Bytes)
        → db.find_user w.store (to_lower req.email) ≡ found row
        → decrypt cipher req.enc_password_hash call.now ≡ value (c ∷ password)
        → compare row.password_hash (c ∷ password) ≡ true
        → call.random_session ≡ some session
        → call.token_call.random_token ≡ some token
        → sign
            (record { id = row.user_id; username = row.username; session_id = session })
            (call.token_call.now / 1000 + 3600)
          ≡ some access
        → access ≢ []
        → ((k : RefreshToken) → (db.set_token w.store session k).1 ≡ true)
        → json_fails (error_response [] []) ≡ false
        → json_fails (session_response session) ≡ false
        → (w' : World S) × (login db json_fails sign cipher compare call (fields req) w
            ≡ value (w', false))
          × (w'.body ≡ session_response session)
          × (w'.headers ≡ w.headers)
          × (w'.status ≡ 500)
    unfolding login find_and_check decrypt_request_password_hash check_password open_session json
        internal_error status_json
    login_without_tokens call req w row c password session token access ef ed ec er et es ne bad j
          k =
        let issued : RefreshToken = issued_token call.token_call row.user_id token in
        let claims : Claims = record {
          id = row.user_id;
          username = row.username;
          session_id = session;
        } in
        let g =
          generate_fails_lem db json_fails sign call.token_call claims w token access et es ne
            (bad issued) in
        (
          record w {
            store = (db.set_token w.store session issued).0;
            status = 500;
            body = session_response session;
          },
          rw
              (
                login, find_and_check, ef, decrypt_request_password_hash, ed, check_password, ec,
                open_session, er, g, internal_error, status_json, json, j, k,
              )
              refl,
          refl,
          refl,
          refl,
        )
