-- ===== src/Accounts/Created/Replaced.antt =====
-- An account whose email is registered again in other letters.
use project_h_server.Prelude.{
  ℕ, ◌≡◌, sym, ap, ◌∙◌, refl, inl, inr, ◌∷◌, Option, none, some, Bool, true, false, Bytes, codes,
}
use project_h_server.Http.Reply.{Body, World, invalid_request}
use project_h_server.Http.Authenticate.{Claims}
use project_h_server.Accounts.Password.{Cipher, value, decrypt, decrypt_request_password_hash}
use project_h_server.Accounts.Store.{Database, IsDatabase, Works, Tables, UserRow, found}
use project_h_server.Accounts.Register.{
  fields, RegisterSchema, RegisterCall, valid_username, to_lower, to_upper, register,
}
use project_h_server.Accounts.Verify.{VerifyCall, verify_email}
use project_h_server.Accounts.Login.{
  LoginSchema, LoginCall, open_session, check_password, find_and_check, login,
}
use project_h_server.Accounts.Spec.Keeps.{Answer-cases}
use project_h_server.Accounts.Spec.Refines.{row_of}
use project_h_server.Accounts.Spec.Names.{taken-Owns, put_self}
use project_h_server.Accounts.Created.{entered_as, register-verify}
use mathlib.Core.Option.{some-injective}

module _ {S : Type 0} (db : Database S) (json_fails : Body → Bool) (view : S → Tables)
    (laws : IsDatabase db view) (works : Works db) where
  user_read :
      (s : S) (e : Bytes) (r : UserRow) → (view s).users e ≡ some r → db.find_user s e ≡ found r
  user_read s e r h = elim (Answer-cases (db.find_user s e)) [
    | inl (q, g) ↦ g ∙ ap found (some-injective q r (sym (laws.user_found s e q g) ∙ h))
    | inr (inl g) ↦ let k : some r ≡ none = sym h ∙ laws.user_not_found s e g in cc
    | inr (inr g) ↦ absurd (works.finds_user s e g)
  ]

  module _ (sign : Claims → ℕ → Option Bytes) (cipher : Cipher)
      (compare : (hash password : Bytes) → Bool) (login_call : LoginCall) (login_req : LoginSchema)
      (d : ℕ) (login_password : Bytes)
      (readable : decrypt cipher login_req.enc_password_hash login_call.now
        ≡ value (d ∷ login_password)) where
    -- The password that is sent fits the row of the email, or it does not.
    login_fits :
        (w : World S) (row : UserRow)
        → (view w.store).users (to_lower login_req.email) ≡ some row
        → compare row.password_hash (d ∷ login_password) ≡ true
        → login db json_fails sign cipher compare login_call (fields login_req) w
          ≡ value (open_session db json_fails sign cipher compare login_call row w)
    unfolding login find_and_check decrypt_request_password_hash check_password
    login_fits w row e k =
        rw
          (
            login,
            find_and_check,
            user_read w.store (to_lower login_req.email) row e,
            decrypt_request_password_hash,
            readable,
            check_password,
            k,
          )
          refl

    login_fails :
        (w : World S) (row : UserRow)
        → (view w.store).users (to_lower login_req.email) ≡ some row
        → compare row.password_hash (d ∷ login_password) ≡ false
        → login db json_fails sign cipher compare login_call (fields login_req) w
          ≡ value (invalid_request json_fails (codes "Password") (codes "invalid") w)
    unfolding login find_and_check decrypt_request_password_hash check_password
    login_fails w row e k =
        rw
          (
            login,
            find_and_check,
            user_read w.store (to_lower login_req.email) row e,
            decrypt_request_password_hash,
            readable,
            check_password,
            k,
          )
          refl

    module _ (call : RegisterCall) (req : RegisterSchema) (code hash : Bytes) (c : ℕ)
        (password : Bytes) where
      -- While no query fails and the new password can be read and hashed, an email that has a row
      -- in lower case, and none as it is sent, can be registered again with any valid username that
      -- is free, and verified. A login to the email, its password being readable, with a password
      -- that fits the row passes the check of the password before; afterwards the same login is
      -- refused as "Password invalid" if the password does not fit the new hash, while the username
      -- of the row before is still taken by the id before.
      pub account_replaced :
          (w fresh later : World S) (v : VerifyCall) (old : UserRow)
          → valid_username req.username ≡ true
          → (view w.store).users_public req.username ≡ none
          → (view w.store).users req.email ≡ none
          → call.random_code ≡ some code
          → decrypt cipher req.enc_password_hash call.now ≡ value (c ∷ password)
          → call.hash_password (c ∷ password) ≡ some hash
          → to_lower login_req.email ≡ to_lower req.email
          → (view w.store).users (to_lower req.email) ≡ some old
          → (view w.store).users_public old.username ≡ some old.user_id
          → compare old.password_hash (d ∷ login_password) ≡ true
          → compare hash (d ∷ login_password) ≡ false
          → (w1 w2 : World S) × (e1 e2 : Bool) × (register db json_fails cipher call (fields req) w
              ≡ value (w1, e1))
            × (verify_email db json_fails v
                  (fields (record { email = req.email; code = to_upper code }))
                  (record fresh { store = w1.store })
                ≡ value (w2, e2))
            × (login db json_fails sign cipher compare login_call (fields login_req) w
                ≡ value (open_session db json_fails sign cipher compare login_call old w))
            × (login db json_fails sign cipher compare login_call
                  (fields login_req)
                  (record later { store = w2.store })
                ≡ value (
                    invalid_request json_fails
                      (codes "Password")
                      (codes "invalid")
                      (record later { store = w2.store })))
            × ((view w2.store).users_public old.username ≡ some old.user_id)
      account_replaced w fresh later v old ev ep eu er ed eh em eo el fits other =
          let (w1, w2, e1, e2, r, _, k, t) =
            register-verify db json_fails view laws works cipher call req code hash c password w
              fresh v ev ep eu er ed eh in
          let replaced : (view w2.store).users (to_lower req.email)
              ≡ some (row_of v (entered_as req code hash)) =
            ap (λ u. u.users (to_lower req.email)) t
            ∙ put_self (view w.store).users (to_lower req.email)
                (some (row_of v (entered_as req code hash))) in
          (
            w1,
            w2,
            e1,
            e2,
            r,
            k,
            login_fits w old (ap (view w.store).users em ∙ eo) fits,
            login_fails (record later { store = w2.store }) (row_of v (entered_as req code hash))
                (ap (view w2.store).users em ∙ replaced) other,
            ap (λ u. u.users_public old.username) t
                ∙ taken-Owns req.username v.user_id (view w.store) ep old.username old.user_id el,
          )
