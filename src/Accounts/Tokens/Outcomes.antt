-- ===== src/Accounts/Tokens/Outcomes.antt =====
-- What `GenerateAndRefreshTokens` comes to when redis takes the token, and when it does not.
use project_h_server.Prelude.{
  ℕ, ◌+◌, ◌/◌, ◌≡◌, ◌≢◌, refl, [], ◌++◌, Option, some, Bool, true, false, Bytes, same, same_iff,
  arith,
}
use project_h_server.Http.Reply.{Body, World, internal_error}
use project_h_server.Http.Authenticate.{Claims}
use project_h_server.Accounts.Store.{Database, RefreshToken}
use project_h_server.Accounts.Tokens.{
  TokenCall, generate_jwt, execute, fill, run_queue, finish, token_headers,
  generate_and_refresh_tokens, refresh_token_duration,
}

-- The refresh token of a call.
abbrev pub issued_token : TokenCall → (user_id token : Bytes) → RefreshToken
issued_token call user_id token = record {
  token = token;
  user_id = user_id;
  ip = call.ip;
  expire_at = call.now + refresh_token_duration;
}

pub not_empty : (s : Bytes) → s ≢ [] → same s [] ≡ false
not_empty s h = ground (arith, same_iff s [])

module _ {S : Type 0} (db : Database S) (json_fails : Body → Bool)
    (sign : Claims → ℕ → Option Bytes) where
  pub generate_lem :
      (call : TokenCall) (claims : Claims) (w : World S) (token access : Bytes)
      → call.random_token ≡ some token
      → sign claims (call.now / 1000 + 3600) ≡ some access
      → access ≢ []
      → (let k = issued_token call claims.id token in
          (db.set_token w.store claims.session_id k).1 ≡ false
          → generate_and_refresh_tokens db json_fails sign call claims w ≡ (
            record w {
              store = (db.set_token w.store claims.session_id k).0;
              headers = w.headers ++ token_headers db json_fails sign k access;
            },
            false,
          ))
  unfolding generate_and_refresh_tokens fill generate_jwt execute run_queue finish
  generate_lem call claims w token access et es ne f =
      rw (generate_and_refresh_tokens, fill, et, generate_jwt, es, not_empty access ne, f) refl

  pub generate_fails_lem :
      (call : TokenCall) (claims : Claims) (w : World S) (token access : Bytes)
      → call.random_token ≡ some token
      → sign claims (call.now / 1000 + 3600) ≡ some access
      → access ≢ []
      → (let k = issued_token call claims.id token in
          (db.set_token w.store claims.session_id k).1 ≡ true
          → generate_and_refresh_tokens db json_fails sign call claims w
            ≡ internal_error json_fails
                (record w { store = (db.set_token w.store claims.session_id k).0 }))
  unfolding generate_and_refresh_tokens fill generate_jwt execute run_queue finish
  generate_fails_lem call claims w token access et es ne f =
      rw (generate_and_refresh_tokens, fill, et, generate_jwt, es, not_empty access ne, f) refl
