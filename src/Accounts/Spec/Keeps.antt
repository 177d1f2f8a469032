-- ===== src/Accounts/Spec/Keeps.antt =====
-- A predicate on the store through each service: it holds at the end if it holds at the start and
-- after every write that the service may come to.
use mathlib.Core.Path.{subst}
use project_h_server.Prelude.{
  ℕ, ◌≡◌, ◌≢◌, refl, sym, ◌⊎◌, inl, inr, [], ◌∷◌, some, Bool, true, ◌==◌, Bytes, Bool-cases,
  Option-cases, same, same_iff, ap, ◌∙◌, ==_iff,
}
use project_h_server.Http.Reply.{Body, World}
use project_h_server.Accounts.Password.{
  Cipher, Try, value, refused, panics, decrypt, decrypt_request_password_hash, internal, too_old,
}
use project_h_server.Accounts.Store.{Database, Pending, Answer, found, not_found, failed}
use project_h_server.Accounts.Register.{
  Parsed, bad_json, invalid, fields, RegisterSchema, RegisterCall, Handled, valid_username,
  to_lower, to_upper, with_body, with_password, save_pending, hash_and_save, register_new,
  check_email, check_username, register, resend_verification, send_verif_email,
}
use project_h_server.Accounts.Verify.{
  VerifyEmailSchema, VerifyCall, insert_all, check_code, verify_email,
}
use project_h_server.Accounts.Spec.{Holds}
use project_h_server.Accounts.Spec.Replies.{
  internal_error-store, bad_request-store, invalid_request-store, ok-store,
}

pub Answer-cases :
    {A : Type 0} (a : Answer A) → ((x : A) × (a ≡ found x)) ⊎ ((a ≡ not_found) ⊎ (a ≡ failed))
Answer-cases (found x) = inl (x, refl)
Answer-cases not_found = inr (inl refl)
Answer-cases failed = inr (inr refl)

module _ {S : Type 0} (P : S → Type 0) (db : Database S) (json_fails : Body → Bool) where
  pub with_body-keeps :
      {A : Type 0} (parsed : Parsed A) (w : World S) (k : A → World S → Handled S)
      → P w.store
      → ((a : A) → parsed ≡ fields a → Holds P (k a w))
      → Holds P (with_body db json_fails parsed w k)
  with_body-keeps bad_json w k p h = subst P (sym (bad_request-store json_fails _ _ w)) p
  with_body-keeps (invalid f t) w k p h = subst P (sym (bad_request-store json_fails f t w)) p
  with_body-keeps (fields a) w k p h = h a refl

  -- A refused password leaves the store as it was, and so does one that is read.
  pub password-keeps :
      (cipher : Cipher) (enc : Bytes) (now : ℕ) (w : World S) (k : Bytes → World S → Handled S)
      → P w.store
      → ((password : Bytes) → password ≢ [] → Holds P (k password w))
      → Holds P (
          with_password db json_fails (decrypt_request_password_hash cipher json_fails enc now w) k)
  unfolding decrypt_request_password_hash
  password-keeps cipher enc now w k p h = by_try (decrypt cipher enc now) refl
    where
      by_try :
          (d : Try Bytes)
          → decrypt cipher enc now ≡ d
          → Holds P (
              with_password db json_fails
                (decrypt_request_password_hash cipher json_fails enc now w)
                k)
      by_try (value []) e = rw (decrypt_request_password_hash, e) p
      by_try (value (c ∷ s)) e = rw (decrypt_request_password_hash, e) (h (c ∷ s) (λ x. cc))
      by_try (refused internal) e =
          rw (decrypt_request_password_hash, e)
            (subst P (sym (internal_error-store json_fails w)) p)
      by_try (refused too_old) e =
          rw (decrypt_request_password_hash, e)
            (subst P (sym (bad_request-store json_fails _ _ w)) p)
      by_try panics e = rw (decrypt_request_password_hash, e) tt

  save_pending-keeps :
      (email : Bytes) (pending : Pending) (w : World S)
      → P (db.set_pending w.store email pending).0
      → P (save_pending db json_fails email pending w).0.store
  unfolding save_pending
  save_pending-keeps email pending w p =
      let w1 = record w { store = (db.set_pending w.store email pending).0 } in
      elim (Bool-cases (db.set_pending w.store email pending).1) [
        | inl e ↦ rw (save_pending, e) (subst P (sym (internal_error-store json_fails w1)) p)
        | inr e ↦
            rw (save_pending, e)
              (subst P
                (sym (ok-store json_fails (send_verif_email db json_fails email pending.code w1)))
                p)
      ]

  hash_and_save-keeps :
      (call : RegisterCall) (req : RegisterSchema) (code password : Bytes) (w : World S)
      → P w.store
      → ((pending : Pending)
          → pending.username ≡ req.username
          → P (db.set_pending w.store (to_lower req.email) pending).0)
      → P (hash_and_save db json_fails call req code password w).0.store
  unfolding hash_and_save
  hash_and_save-keeps call req code password w p h =
      elim (Option-cases (call.hash_password password)) [
        | inl e ↦ rw (hash_and_save, e) (subst P (sym (internal_error-store json_fails w)) p)
        | inr (hash, e) ↦
            let pending : Pending = record {
              code = to_upper code;
              username = req.username;
              password_hash = hash;
            } in
            rw (hash_and_save, e)
              (save_pending-keeps (to_lower req.email) pending w (h pending refl))
      ]

  register_new-keeps :
      (cipher : Cipher) (call : RegisterCall) (req : RegisterSchema) (w : World S)
      → P w.store
      → ((pending : Pending)
          → pending.username ≡ req.username
          → P (db.set_pending w.store (to_lower req.email) pending).0)
      → Holds P (register_new db json_fails cipher call req w)
  unfolding register_new
  register_new-keeps cipher call req w p h = elim (Option-cases call.random_code) [
    | inl e ↦ rw (register_new, e) (subst P (sym (internal_error-store json_fails w)) p)
    | inr (code, e) ↦
        rw (register_new, e)
          (password-keeps cipher req.enc_password_hash call.now w _ p
            (λ password ne. hash_and_save-keeps call req code password w p h))
  ]

  check_email-keeps :
      (cipher : Cipher) (call : RegisterCall) (req : RegisterSchema) (w : World S)
      → P w.store
      → ((pending : Pending)
          → pending.username ≡ req.username
          → db.count_users w.store req.email ≡ some 0
          → P (db.set_pending w.store (to_lower req.email) pending).0)
      → Holds P (check_email db json_fails cipher call req w)
  unfolding check_email
  check_email-keeps cipher call req w p h = elim (Option-cases (db.count_users w.store req.email)) [
    | inl e ↦ rw (check_email, e) (subst P (sym (internal_error-store json_fails w)) p)
    | inr (n, e) ↦ elim (Bool-cases (n == 0)) [
      | inr z ↦ rw (check_email, e, z) (subst P (sym (invalid_request-store json_fails _ _ w)) p)
      | inl z ↦
          rw (check_email, e, z)
            (register_new-keeps cipher call req w p
              (λ pending u. h pending u (e ∙ ap some ((==_iff n 0).0 z))))
    ]
  ]

  -- A registration: what it may write, once the name and the email are free.
  pub register-keeps :
      (cipher : Cipher) (call : RegisterCall) (parsed : Parsed RegisterSchema) (w : World S)
      → P w.store
      → ((req : RegisterSchema) (pending : Pending)
          → parsed ≡ fields req
          → pending.username ≡ req.username
          → valid_username req.username ≡ true
          → db.count_public w.store req.username ≡ some 0
          → db.count_users w.store req.email ≡ some 0
          → P (db.set_pending w.store (to_lower req.email) pending).0)
      → Holds P (register db json_fails cipher call parsed w)
  unfolding register
  register-keeps cipher call parsed w p h = with_body-keeps parsed w _ p (λ req ep.
      elim (Bool-cases (valid_username req.username)) [
        | inr ev ↦ rw (check_username, ev) (subst P (sym (bad_request-store json_fails _ _ w)) p)
        | inl ev ↦ elim (Option-cases (db.count_public w.store req.username)) [
          | inl e ↦ rw (check_username, ev, e) (subst P (sym (internal_error-store json_fails w)) p)
          | inr (n, e) ↦ elim (Bool-cases (n == 0)) [
            | inr z ↦
                rw (check_username, ev, e, z)
                  (subst P (sym (invalid_request-store json_fails _ _ w)) p)
            | inl z ↦
                rw (check_username, ev, e, z)
                  (check_email-keeps cipher call req w p
                    (λ pending u c. h req pending ep u ev (e ∙ ap some ((==_iff n 0).0 z)) c))
          ]
        ]
      ])

  pub resend-keeps :
      (parsed : Parsed Bytes) (w : World S)
      → P w.store
      → Holds P (resend_verification db json_fails parsed w)
  unfolding resend_verification
  resend-keeps parsed w p = with_body-keeps parsed w _ p (λ email ep.
      elim (Answer-cases (db.get_code w.store (to_lower email))) [
        | inl (code, e) ↦ rw e (
            subst P
              (sym (ok-store json_fails (send_verif_email db json_fails (to_lower email) code w)))
              p)
        | inr (inl e) ↦ rw e (subst P (sym (bad_request-store json_fails _ _ w)) p)
        | inr (inr e) ↦ rw e (subst P (sym (internal_error-store json_fails w)) p)
      ])

  -- A verification: the account's rows, as far as the writes get.
  pub verify-keeps :
      (call : VerifyCall) (parsed : Parsed VerifyEmailSchema) (w : World S)
      → P w.store
      → ((req : VerifyEmailSchema) (p : Pending)
          → parsed ≡ fields req
          → db.get_pending w.store (to_lower req.email) ≡ found p
          → p.code ≡ req.code
          → P (insert_all db json_fails call (to_lower req.email) p w).0.store)
      → Holds P (verify_email db json_fails call parsed w)
  unfolding verify_email
  verify-keeps call parsed w p h = with_body-keeps parsed w _ p (λ req ep.
      elim (Answer-cases (db.get_pending w.store (to_lower req.email))) [
        | inl (pending, e) ↦ elim (Bool-cases (same pending.code req.code)) [
          | inl c ↦
              rw (check_code, e, c) (h req pending ep e ((same_iff pending.code req.code).0 c))
          | inr c ↦ rw (check_code, e, c) (subst P (sym (invalid_request-store json_fails _ _ w)) p)
        ]
        | inr (inl e) ↦ rw (check_code, e) (subst P (sym (bad_request-store json_fails _ _ w)) p)
        | inr (inr e) ↦ rw (check_code, e) (subst P (sym (internal_error-store json_fails w)) p)
      ])
