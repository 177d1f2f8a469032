-- ===== src/Accounts/Spec/Sessions.antt =====
-- A predicate on the store through the generation of tokens and the login.
use mathlib.Core.Path.{subst}
use project_h_server.Prelude.{
  ℕ, ◌≡◌, refl, sym, inl, inr, Option, some, Bool, true, false, Bytes, arith, Bool-cases,
  Option-cases,
}
use project_h_server.Http.Reply.{
  Body, World, Outcome, json, internal_error, status_json, session_response,
}
use project_h_server.Http.Authenticate.{Claims}
use project_h_server.Accounts.Password.{Cipher}
use project_h_server.Accounts.Store.{Database, UserRow, RefreshToken, found}
use project_h_server.Accounts.Tokens.{
  TokenCall, Filled, generate_jwt, execute, fill, run_queue, finish, generate_and_refresh_tokens,
}
use project_h_server.Accounts.Register.{Parsed, fields, to_lower}
use project_h_server.Accounts.Login.{
  LoginSchema, LoginCall, open_session, check_password, find_and_check, login,
}
use project_h_server.Accounts.Spec.{Holds}
use project_h_server.Accounts.Spec.Replies.{json-store, internal_error-store, invalid_request-store}
use project_h_server.Accounts.Spec.Keeps.{Answer-cases, with_body-keeps, password-keeps}

module _ {S : Type 0} (P : S → Type 0) (db : Database S) (json_fails : Body → Bool)
    (sign : Claims → ℕ → Option Bytes) where
  execute-keeps :
      (o : Outcome S) (exec : S → S × Bool)
      → P o.0.store
      → P (exec o.0.store).0
      → P (execute db json_fails sign o exec).0.store
  unfolding execute
  execute-keeps (w, true) exec p q = p
  execute-keeps (w, false) exec p q = q

  finish-store :
      (f : Filled db json_fails sign) (o : Outcome S)
      → (finish db json_fails sign f o).0.store ≡ o.0.store
  unfolding finish
  finish-store f (w, true) = internal_error-store json_fails w
  finish-store f (w, false) = ground arith

  fill-store :
      (call : TokenCall) (claims : Claims) (w : World S)
      → (fill db json_fails sign call claims w).outcome.0.store ≡ w.store
  unfolding fill generate_jwt internal_error status_json json
  fill-store call claims w = ground arith

  queue-keeps :
      (call : TokenCall) (claims : Claims) (w : World S)
      → P w.store
      → ((k : RefreshToken)
          → k.user_id ≡ claims.id
          → P (db.set_token w.store claims.session_id k).0)
      → P
          (run_queue db json_fails sign claims.session_id
            (fill db json_fails sign call claims w).queued
            w.store).0
  unfolding fill run_queue
  queue-keeps call claims w p h = elim (Option-cases call.random_token) [
    | inl e ↦ rw (fill, e) p
    | inr (t, e) ↦ rw (fill, e) (h _ refl)
  ]

  pub generate-keeps :
      (call : TokenCall) (claims : Claims) (w : World S)
      → P w.store
      → ((k : RefreshToken)
          → k.user_id ≡ claims.id
          → P (db.set_token w.store claims.session_id k).0)
      → P (generate_and_refresh_tokens db json_fails sign call claims w).0.store
  unfolding generate_and_refresh_tokens
  generate-keeps call claims w p h =
      let f = fill db json_fails sign call claims w in
      let run = run_queue db json_fails sign claims.session_id f.queued in
      subst P (sym (finish-store f (execute db json_fails sign f.outcome run))) (
        execute-keeps f.outcome run (subst P (sym (fill-store call claims w)) p) (
          subst (λ s. P (run s).0) (sym (fill-store call claims w))
            (queue-keeps call claims w p h)))

  module _ (cipher : Cipher) (compare : (hash password : Bytes) → Bool) where
    open_session-keeps :
        (call : LoginCall) (row : UserRow) (w : World S)
        → P w.store
        → ((k : RefreshToken) (session : Bytes)
            → k.user_id ≡ row.user_id
            → call.random_session ≡ some session
            → P (db.set_token w.store session k).0)
        → P (open_session db json_fails sign cipher compare call row w).0.store
    unfolding open_session
    open_session-keeps call row w p h = elim (Option-cases call.random_session) [
      | inl e ↦ rw (open_session, e) p
      | inr (session, e) ↦
          let claims : Claims = record {
            id = row.user_id;
            username = row.username;
            session_id = session;
          } in
          let tokens = generate_and_refresh_tokens db json_fails sign call.token_call claims w in
          let q = generate-keeps call.token_call claims w p (λ k u. h k session u e) in
          elim (Bool-cases tokens.1) [
            | inl f ↦ rw (open_session, e, f) q
            | inr f ↦
                rw (open_session, e, f)
                  (subst P (sym (json-store json_fails (session_response session) tokens.0)) q)
          ]
    ]

    -- A login: it may issue a token of the user whose password it compared.
    pub login-keeps :
        (call : LoginCall) (parsed : Parsed LoginSchema) (w : World S)
        → P w.store
        → ((req : LoginSchema) (row : UserRow) (k : RefreshToken) (session password : Bytes)
            → parsed ≡ fields req
            → db.find_user w.store (to_lower req.email) ≡ found row
            → compare row.password_hash password ≡ true
            → k.user_id ≡ row.user_id
            → call.random_session ≡ some session
            → P (db.set_token w.store session k).0)
        → Holds P (login db json_fails sign cipher compare call parsed w)
    unfolding login
    login-keeps call parsed w p h = with_body-keeps P db json_fails parsed w _ p (λ req ep.
        elim (Answer-cases (db.find_user w.store (to_lower req.email))) [
          | inr (inl e) ↦
              rw (find_and_check, e) (subst P (sym (invalid_request-store json_fails _ _ w)) p)
          | inr (inr e) ↦
              rw (find_and_check, e) (subst P (sym (internal_error-store json_fails w)) p)
          | inl (row, e) ↦
              rw (find_and_check, e)
                (password-keeps P db json_fails cipher req.enc_password_hash call.now w _ p
                  (λ password ne. elim (Bool-cases (compare row.password_hash password)) [
                    | inr c ↦
                        rw (check_password, c)
                          (subst P (sym (invalid_request-store json_fails _ _ w)) p)
                    | inl c ↦
                        rw (check_password, c)
                          (open_session-keeps call row w p
                            (λ k session u r. h req row k session password ep e c u r))
                  ]))
        ])
