-- ===== src/Accounts/Login.antt =====
-- `Login`. bcrypt and the random session id are arguments.
use project_h_server.Prelude.{ℕ, Option, none, some, Bool, true, not, Bytes, codes, if◌then◌else◌}
use project_h_server.Http.Reply.{
  Body, session_response, World, Outcome, json, internal_error, bad_request, invalid_request,
}
use project_h_server.Http.Authenticate.{Claims}
use project_h_server.Accounts.Password.{Cipher, value, decrypt_request_password_hash}
use project_h_server.Accounts.Store.{Database, UserRow, found, not_found, failed}
use project_h_server.Accounts.Tokens.{TokenCall, generate_and_refresh_tokens}
use project_h_server.Accounts.Register.{Parsed, Handled, with_body, with_password, to_lower}

-- `DeviceToken` is not used.
pub record LoginSchema : Type 0 where
  pub email : Bytes
  pub enc_password_hash : Bytes

-- What the clock in nanoseconds, `RandomTokenString(20)` and the token generation's calls answer.
pub record LoginCall : Type 0 where
  pub now : ℕ
  pub random_session : Option Bytes
  pub token_call : TokenCall

module _ {S : Type 0} (db : Database S) (json_fails : Body → Bool)
    (sign : Claims → ℕ → Option Bytes) (cipher : Cipher)
    (compare_password : (hash password : Bytes) → Bool) where
  unfoldable pub open_session : LoginCall → UserRow → World S → Outcome S
  unfolding generate_and_refresh_tokens json
  open_session call row w = elim call.random_session [
    | none ↦ (w, true)
    | some session ↦
        let tokens =
          generate_and_refresh_tokens db json_fails sign call.token_call
            (record { id = row.user_id; username = row.username; session_id = session }) w in
        if tokens.1 then (tokens.0, true) else json json_fails (session_response session) tokens.0
  ]

  unfoldable pub check_password : LoginCall → UserRow → Bytes → World S → Outcome S
  unfolding open_session invalid_request
  check_password call row password w =
      if not (compare_password row.password_hash password)
      then invalid_request json_fails (codes "Password") (codes "invalid") w
      else open_session call row w

  unfoldable pub find_and_check : LoginCall → LoginSchema → World S → Handled S
  unfolding check_password invalid_request internal_error decrypt_request_password_hash to_lower
  find_and_check call req w = elim (db.find_user w.store (to_lower req.email)) [
    | not_found ↦ value (invalid_request json_fails (codes "Email") (codes "invalid") w)
    | failed ↦ value (internal_error json_fails w)
    | found row ↦
        with_password db json_fails
          (decrypt_request_password_hash cipher json_fails req.enc_password_hash call.now w)
          (λ password w1. value (check_password call row password w1))
  ]

  unfoldable pub login : LoginCall → Parsed LoginSchema → World S → Handled S
  unfolding find_and_check bad_request
  login call parsed w = with_body db json_fails parsed w (find_and_check call)
