-- ===== src/Accounts/Verify.antt =====
-- `VerifyEmail`: the pending registration becomes a row of each of three tables.
use project_h_server.Prelude.{ℕ, Bool, not, Bytes, codes, same, if◌then◌else◌}
use project_h_server.Http.Reply.{
  Body, World, Outcome, internal_error, bad_request, invalid_request, ok,
}
use project_h_server.Accounts.Password.{value}
use project_h_server.Accounts.Store.{
  Database, Pending, found, not_found, failed, Cas, applied, exists,
}
use project_h_server.Accounts.Register.{Parsed, Handled, with_body, to_lower}

pub record VerifyEmailSchema : Type 0 where
  pub email : Bytes
  pub code : Bytes

-- What `gocql.TimeUUID` and the clock answer.
pub record VerifyCall : Type 0 where
  pub user_id : Bytes
  pub now : ℕ

module _ {S : Type 0} (db : Database S) (json_fails : Body → Bool) where
  unfoldable pub insert_private : VerifyCall → Pending → World S → Outcome S
  unfolding internal_error ok
  insert_private call p w =
      let res = db.insert_private w.store call.user_id p.username in
      if res.1
      then internal_error json_fails (record w { store = res.0 })
      else ok json_fails (record w { store = res.0 })

  unfoldable pub insert_user : VerifyCall → Bytes → Pending → World S → Outcome S
  unfolding internal_error insert_private
  insert_user call email p w =
      let res = db.insert_user w.store email (record {
        user_id = call.user_id;
        password_hash = p.password_hash;
        created = call.now;
        username = p.username;
      }) in
      if res.1
      then internal_error json_fails (record w { store = res.0 })
      else insert_private call p (record w { store = res.0 })

  unfoldable pub after_insert_public : VerifyCall → Bytes → Pending → Cas → World S → Outcome S
  unfolding insert_user internal_error bad_request
  after_insert_public call email p applied w = insert_user call email p w
  after_insert_public call email p exists w =
      bad_request json_fails (codes "Username") (codes "exists") w
  after_insert_public call email p Cas.failed w = internal_error json_fails w

  unfoldable pub insert_all : VerifyCall → Bytes → Pending → World S → Outcome S
  unfolding after_insert_public
  insert_all call email p w =
      let res = db.insert_public w.store p.username call.user_id in
      after_insert_public call email p res.1 (record w { store = res.0 })

  unfoldable pub check_code : VerifyCall → VerifyEmailSchema → World S → Outcome S
  unfolding insert_all invalid_request bad_request internal_error to_lower
  check_code call req w = elim (db.get_pending w.store (to_lower req.email)) [
    | found p ↦
        if not (same p.code req.code)
        then invalid_request json_fails (codes "Code") (codes "invalid") w
        else insert_all call (to_lower req.email) p w
    | not_found ↦ bad_request json_fails (codes "Email") (codes "invalid") w
    | failed ↦ internal_error json_fails w
  ]

  unfoldable pub verify_email : VerifyCall → Parsed VerifyEmailSchema → World S → Handled S
  unfolding check_code bad_request
  verify_email call parsed w =
      with_body db json_fails parsed w (λ req w1. value (check_code call req w1))
