-- ===== src/Accounts/Created.antt =====
-- From a registration to the account.
pub mod Replaced
use mathlib.Core.Option.{some-injective}
use mathlib.Core.Bool.{true≢false}
use project_h_server.Prelude.{
  ℕ, ◌≡◌, refl, sym, ap, ◌∙◌, inl, inr, [], ◌∷◌, ◌++◌, none, some, Bool, true, Bytes, same_refl,
}
use project_h_server.Http.Reply.{Body, World, ok}
use project_h_server.Accounts.Password.{Cipher, value, decrypt, decrypt_request_password_hash}
use project_h_server.Accounts.Store.{
  Database, IsDatabase, Works, Tables, Pending, UserRow, found, applied, put,
}
use project_h_server.Accounts.Register.{
  fields, RegisterSchema, RegisterCall, valid_username, to_lower, to_upper, save_pending,
  hash_and_save, register_new, check_email, check_username, register, send_verif_email,
}
use project_h_server.Accounts.Verify.{
  VerifyEmailSchema, VerifyCall, insert_private, insert_user, after_insert_public, insert_all,
  check_code, verify_email,
}
use project_h_server.Accounts.Spec.{asked, taken, created, completed}
use project_h_server.Accounts.Spec.Replies.{ok-store, ok-mails}
use project_h_server.Accounts.Spec.Refines.{with_user, with_private, row_of, Cas-cases}
use project_h_server.Accounts.Spec.Names.{some-ne-none, taken-Owns, put_self}

-- The registration that is entered.
abbrev pub entered_as : RegisterSchema → (code hash : Bytes) → Pending
entered_as req code hash = record {
  code = to_upper code;
  username = req.username;
  password_hash = hash;
}

module _ {S : Type 0} (db : Database S) (json_fails : Body → Bool) (view : S → Tables)
    (laws : IsDatabase db view) (works : Works db) where
  public_free : (s : S) (n : Bytes) → (view s).users_public n ≡ none → db.count_public s n ≡ some 0
  public_free s n h =
      let (k, e) = works.public_counts s n in e ∙ ap some ((laws.public_counted s n k e).1 h)

  users_free : (s : S) (e : Bytes) → (view s).users e ≡ none → db.count_users s e ≡ some 0
  users_free s x h =
      let (k, e) = works.users_counts s x in e ∙ ap some ((laws.users_counted s x k e).1 h)

  pending_entered :
      (s : S) (e : Bytes) (p : Pending)
      → view (db.set_pending s e p).0
        ≡ record (view s) { pending = put (view s).pending e (some p) }
  pending_entered s e p = elim (laws.pending_written s e p) [
    | inl k ↦ k
    | inr (f, k) ↦ absurd (true≢false (sym f ∙ works.sets_pending s e p))
  ]

  private_entered :
      (s : S) (i n : Bytes)
      → view (db.insert_private s i n).0
        ≡ record (view s) { users_private = put (view s).users_private i (some n) }
  private_entered s i n = elim (laws.private_written s i n) [
    | inl k ↦ k
    | inr (f, k) ↦ absurd (true≢false (sym f ∙ works.inserts_private s i n))
  ]

  user_entered :
      (s : S) (e : Bytes) (r : UserRow)
      → view (db.insert_user s e r).0 ≡ record (view s) { users = put (view s).users e (some r) }
  user_entered s e r = elim (laws.user_written s e r) [
    | inl k ↦ k
    | inr (f, k) ↦ absurd (true≢false (sym f ∙ works.inserts_user s e r))
  ]

  public_entered :
      (s : S) (n i : Bytes)
      → (view s).users_public n ≡ none
      → ((db.insert_public s n i).1 ≡ applied)
        × (view (db.insert_public s n i).0 ≡ taken n i (view s))
  public_entered s n i free =
      let law = laws.public_inserted s n i in
      elim (Cas-cases (db.insert_public s n i).1) [
        | inl a ↦ let l = rw a at law in (a, l.1)
        | inr (inl a) ↦
            let l = rw a at law in let (j, h) = l.0 in absurd (some-ne-none j (sym h ∙ free))
        | inr (inr a) ↦ absurd (works.inserts_public s n i a)
      ]

  pending_read :
      (s : S) (e : Bytes) (p : Pending) → (view s).pending e ≡ some p → db.get_pending s e ≡ found p
  pending_read s e p h =
      let (q, g) = works.gets_pending s e in
      elim (laws.pending_found s e q g) [
        | inl k ↦ g ∙ ap found (some-injective q p (sym k ∙ h))
        | inr (k, _) ↦ let e : some p ≡ none = sym h ∙ k in cc
      ]

  -- With the code of a pending registration whose username is free, and no failing query, all
  -- three rows are entered.
  insert_all_lem :
      (v : VerifyCall) (e : Bytes) (p : Pending) (w : World S)
      → (view w.store).users_public p.username ≡ none
      → view (insert_all db json_fails v e p w).0.store ≡ completed e (row_of v p) (view w.store)
  unfolding insert_all after_insert_public insert_user insert_private
  insert_all_lem v e p w free =
      let (a, t1) = public_entered w.store p.username v.user_id free in
      let s1 = (db.insert_public w.store p.username v.user_id).0 in
      let s2 = (db.insert_user s1 e (row_of v p)).0 in
      let s3 = (db.insert_private s2 v.user_id p.username).0 in
      let t2 : view s2 ≡ created e (row_of v p) (view w.store) =
        user_entered s1 e (row_of v p) ∙ ap (with_user e (row_of v p)) t1 in
      let t3 : view s3 ≡ completed e (row_of v p) (view w.store) =
        private_entered s2 v.user_id p.username ∙ ap (with_private v.user_id p.username) t2 in
      rw
        (
          insert_all,
          a,
          after_insert_public,
          insert_user,
          works.inserts_user s1 e (row_of v p),
          insert_private,
          works.inserts_private s2 v.user_id p.username,
        )
        (ap view (ok-store json_fails (record w { store = s3 })) ∙ t3)

  verify_lem :
      (v : VerifyCall) (req : VerifyEmailSchema) (p : Pending) (w : World S)
      → (view w.store).pending (to_lower req.email) ≡ some p
      → p.code ≡ req.code
      → verify_email db json_fails v (fields req) w
        ≡ value (insert_all db json_fails v (to_lower req.email) p w)
  unfolding verify_email check_code
  verify_lem v req p w h k =
      rw
        (
          verify_email,
          check_code,
          pending_read w.store (to_lower req.email) p h,
          k,
          same_refl req.code,
        )
        refl

  module _ (cipher : Cipher) (call : RegisterCall) (req : RegisterSchema) (code hash : Bytes)
      (c : ℕ) (password : Bytes) where
    register_lem :
        (w : World S)
        → valid_username req.username ≡ true
        → (view w.store).users_public req.username ≡ none
        → (view w.store).users req.email ≡ none
        → call.random_code ≡ some code
        → decrypt cipher req.enc_password_hash call.now ≡ value (c ∷ password)
        → call.hash_password (c ∷ password) ≡ some hash
        → register db json_fails cipher call (fields req) w
          ≡ value (
              ok json_fails (
                send_verif_email db json_fails (to_lower req.email) (to_upper code) (record w {
                  store =
                      (db.set_pending w.store (to_lower req.email) (entered_as req code hash)).0;
                })))
    unfolding register check_username check_email register_new decrypt_request_password_hash
        hash_and_save save_pending
    register_lem w ev ep eu er ed eh =
        rw
          (
            register,
            check_username,
            ev,
            public_free w.store req.username ep,
            check_email,
            users_free w.store req.email eu,
            register_new,
            er,
            decrypt_request_password_hash,
            ed,
            hash_and_save,
            eh,
            save_pending,
            works.sets_pending w.store (to_lower req.email) (entered_as req code hash),
          )
          refl

    -- While no query fails and the password can be read and hashed, a registration whose username
    -- is valid, and whose username and email have no row, sends the code to the email in lower
    -- case; and a verification with that code enters the account in all three tables, under the
    -- email in lower case.
    pub register-verify :
        (w fresh : World S) (v : VerifyCall)
        → valid_username req.username ≡ true
        → (view w.store).users_public req.username ≡ none
        → (view w.store).users req.email ≡ none
        → call.random_code ≡ some code
        → decrypt cipher req.enc_password_hash call.now ≡ value (c ∷ password)
        → call.hash_password (c ∷ password) ≡ some hash
        → (w1 w2 : World S) × (e1 e2 : Bool) × (register db json_fails cipher call (fields req) w
            ≡ value (w1, e1))
          × (w1.mails ≡ w.mails ++ (to_lower req.email, to_upper code) ∷ [])
          × (verify_email db json_fails v
                (fields (record { email = req.email; code = to_upper code }))
                (record fresh { store = w1.store })
              ≡ value (w2, e2))
          × (view w2.store
              ≡ completed
                  (to_lower req.email)
                  (row_of v (entered_as req code hash))
                  (asked (to_lower req.email) (entered_as req code hash) (view w.store)))
    register-verify w fresh v ev ep eu er ed eh =
        let mailed : World S =
          send_verif_email db json_fails (to_lower req.email) (to_upper code) (record w {
            store = (db.set_pending w.store (to_lower req.email) (entered_as req code hash)).0;
          }) in
        let o1 = ok json_fails mailed in
        let again : World S = record fresh { store = o1.0.store } in
        let t1 : view o1.0.store
            ≡ asked (to_lower req.email) (entered_as req code hash) (view w.store) =
          ap view (ok-store json_fails mailed)
          ∙ pending_entered w.store (to_lower req.email) (entered_as req code hash) in
        let o2 = insert_all db json_fails v (to_lower req.email) (entered_as req code hash) again in
        (
          o1.0,
          o2.0,
          o1.1,
          o2.1,
          register_lem w ev ep eu er ed eh,
          ok-mails json_fails mailed,
          verify_lem v (record { email = req.email; code = to_upper code })
              (entered_as req code hash) again
              (ap (λ t. t.pending (to_lower req.email)) t1
                ∙ put_self (view w.store).pending (to_lower req.email)
                    (some (entered_as req code hash)))
              refl,
          insert_all_lem v (to_lower req.email) (entered_as req code hash) again
                (ap (λ t. t.users_public req.username) t1 ∙ ep)
              ∙ ap (completed (to_lower req.email) (row_of v (entered_as req code hash))) t1,
        )
