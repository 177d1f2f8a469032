-- ===== src/Accounts/Spec/Replies.antt =====
-- An answer leaves the store as it was.
use project_h_server.Prelude.{◌≡◌, Bool, Bytes, arith}
use project_h_server.Http.Reply.{
  Body, World, json, status_json, internal_error, bad_request, invalid_request, ok,
}

module _ {S : Type 0} (json_fails : Body → Bool) where
  pub json-store : (b : Body) (w : World S) → (json json_fails b w).0.store ≡ w.store
  unfolding json
  json-store b w = ground arith

  pub internal_error-store : (w : World S) → (internal_error json_fails w).0.store ≡ w.store
  unfolding internal_error status_json json
  internal_error-store w = ground arith

  pub bad_request-store :
      (p d : Bytes) (w : World S) → (bad_request json_fails p d w).0.store ≡ w.store
  unfolding bad_request status_json json
  bad_request-store p d w = ground arith

  pub invalid_request-store :
      (p d : Bytes) (w : World S) → (invalid_request json_fails p d w).0.store ≡ w.store
  unfolding invalid_request status_json json
  invalid_request-store p d w = ground arith

  pub ok-store : (w : World S) → (ok json_fails w).0.store ≡ w.store
  unfolding ok status_json json
  ok-store w = ground arith

  pub ok-mails : (w : World S) → (ok json_fails w).0.mails ≡ w.mails
  unfolding ok status_json json
  ok-mails w = ground arith
