-- ===== src/Accounts/Spec/Refines.antt =====
-- Every call of an account service makes one of the changes that it is allowed, or none.
use mathlib.Core.Bool.{true≢false}
use mathlib.Core.Path.{subst}
use project_h_server.Prelude.{
  ℕ, ◌≡◌, refl, sym, ap, ◌∙◌, ◌⊎◌, inl, inr, [], Option, none, some, Bool, true, Bytes, Bool-cases,
}
use project_h_server.Http.Reply.{Body, World, internal_error}
use project_h_server.Http.Authenticate.{Claims}
use project_h_server.Accounts.Password.{Cipher}
use project_h_server.Accounts.Store.{
  Database, IsDatabase, Tables, Pending, found, UserRow, Cas, applied, exists, put,
}
use project_h_server.Accounts.Register.{to_lower}
use project_h_server.Accounts.Verify.{
  VerifyEmailSchema, VerifyCall, insert_private, insert_user, after_insert_public, insert_all,
}
use project_h_server.Accounts.Spec.{
  Service, registers, resends, verifies, logs_in, taken, created, IsVerified, IsAllowed, Holds,
  handle,
}
use project_h_server.Accounts.Spec.Replies.{internal_error-store, bad_request-store, ok-store}
use project_h_server.Accounts.Spec.Keeps.{register-keeps, resend-keeps, verify-keeps}
use project_h_server.Accounts.Spec.Sessions.{login-keeps}

abbrev with_code : Pending → Bytes → Pending
with_code p x = record p { code = x }

abbrev pub with_private : Bytes → Bytes → Tables → Tables
with_private i n t = record t { users_private = put t.users_private i (some n) }

abbrev pub with_user : Bytes → UserRow → Tables → Tables
with_user e r t = record t { users = put t.users e (some r) }

-- The row that a verification creates from a pending registration.
abbrev pub row_of : VerifyCall → Pending → UserRow
row_of c p = record {
  user_id = c.user_id;
  password_hash = p.password_hash;
  created = c.now;
  username = p.username;
}

pub Cas-cases : (a : Cas) → (a ≡ applied) ⊎ ((a ≡ exists) ⊎ (a ≡ Cas.failed))
Cas-cases applied = inl refl
Cas-cases exists = inr (inl refl)
Cas-cases Cas.failed = inr (inr refl)

-- The tables are as they were, or changed as the service is allowed to.
abbrev pub Meets :
    {S : Type 0} → (S → Tables) → ((hash password : Bytes) → Bool) → Service → Tables → S → Type 0
Meets view compare c t s = (view s ≡ t) ⊎ IsAllowed compare c t (view s)

module _ {S : Type 0} (db : Database S) (view : S → Tables) (laws : IsDatabase db view)
    (json_fails : Body → Bool) where
  module _ (c : VerifyCall) (e : Bytes) (p : Pending) (t : Tables) where
    abbrev Verified : World S → Type 0
    Verified w = IsVerified e (row_of c p) t (view w.store)

    error-Verified : (w : World S) → Verified w → Verified (internal_error json_fails w).0
    error-Verified w =
        subst (λ s. IsVerified e (row_of c p) t (view s)) (sym (internal_error-store json_fails w))

    private-Verified :
        (w : World S)
        → view w.store ≡ created e (row_of c p) t
        → Verified (insert_private db json_fails c p w).0
    unfolding insert_private
    private-Verified w h =
        let w1 : World S = record w {
          store = (db.insert_private w.store c.user_id p.username).0;
        } in
        let after : Verified w1 = elim (laws.private_written w.store c.user_id p.username) [
          | inl k ↦ inr (inr (k ∙ ap (with_private c.user_id p.username) h))
          | inr (f, k) ↦ inr (inl (k ∙ h))
        ] in
        elim (Bool-cases (db.insert_private w.store c.user_id p.username).1) [
          | inl f ↦ rw (insert_private, f) (error-Verified w1 after)
          | inr f ↦
              rw (insert_private, f)
                (subst (λ s. IsVerified e (row_of c p) t (view s)) (sym (ok-store json_fails w1))
                  after)
        ]

    user-Verified :
        (w : World S)
        → view w.store ≡ taken p.username c.user_id t
        → Verified (insert_user db json_fails c e p w).0
    unfolding insert_user
    user-Verified w h =
        let w1 : World S = record w { store = (db.insert_user w.store e (row_of c p)).0 } in
        let after : (view w1.store ≡ created e (row_of c p) t)
            ⊎ (((db.insert_user w.store e (row_of c p)).1 ≡ true)
                × (view w1.store ≡ taken p.username c.user_id t)) =
          elim (laws.user_written w.store e (row_of c p)) [
            | inl k ↦ inl (k ∙ ap (with_user e (row_of c p)) h)
            | inr (f, k) ↦ inr (f, k ∙ h)
          ] in
        elim (Bool-cases (db.insert_user w.store e (row_of c p)).1) [
          | inl f ↦
              rw (insert_user, f)
                (error-Verified w1 (elim after [ inl k ↦ inr (inl k) | inr (g, k) ↦ inl k ]))
          | inr f ↦
              rw (insert_user, f)
                (private-Verified w1
                  (elim after [ inl k ↦ k | inr (g, k) ↦ absurd (true≢false (sym g ∙ f)) ]))
        ]

  -- A verification whose code fits takes the username for the account, if it is free, and then
  -- creates the account.
  insert_all-Verified :
      (c : VerifyCall) (e : Bytes) (p : Pending) (w : World S)
      → let u = view (insert_all db json_fails c e p w).0.store in
        (u ≡ view w.store)
        ⊎ (((view w.store).users_public p.username ≡ none)
            × IsVerified e (row_of c p) (view w.store) u)
  unfolding insert_all after_insert_public
  insert_all-Verified c e p w =
      let w1 : World S = record w { store = (db.insert_public w.store p.username c.user_id).0 } in
      let law = laws.public_inserted w.store p.username c.user_id in
      elim (Cas-cases (db.insert_public w.store p.username c.user_id).1) [
        | inl a ↦
            let l = rw a at law in
            rw (insert_all, a) (inr (l.0, user-Verified c e p (view w.store) w1 l.1))
        | inr (inl a) ↦
            let l = rw a at law in
            rw (insert_all, a) (inl (ap view (bad_request-store json_fails _ _ w1) ∙ l.1))
        | inr (inr a) ↦
            let store_kept : view (internal_error json_fails w1).0.store ≡ view w1.store =
              ap view (internal_error-store json_fails w1) in
            rw (insert_all, a)
              (elim (rw a at law) [
                | inl k ↦ inl (store_kept ∙ k)
                | inr (n, k) ↦ inr (n, inl (store_kept ∙ k))
              ])
      ]

  module _ (sign : Claims → ℕ → Option Bytes) (cipher : Cipher)
      (compare : (hash password : Bytes) → Bool) where
    -- Every call of an account service that does not panic, whatever fails in it, leaves the tables
    -- as they were, or makes one change that the service is allowed: a registration enters a
    -- pending one, of a username and an email that have no row; a verification whose code fits
    -- takes the username, if it is free, and then creates the account's rows as far as the writes
    -- get; a login issues a token of the user whose row has the email and whose password was
    -- compared.
    pub handle-Meets :
        (c : Service) (w : World S)
        → Holds (Meets view compare c (view w.store)) (handle db json_fails sign cipher compare c w)
    handle-Meets (registers c parsed) w =
        register-keeps (Meets view compare (registers c parsed) (view w.store)) db json_fails cipher
          c parsed w (inl refl)
          (λ req p ep u v cp cu. elim (laws.pending_written w.store (to_lower req.email) p) [
            | inr (f, k) ↦ inl k
            | inl k ↦ inr (
                subst
                  (λ x.
                    IsAllowed compare (registers c x) (view w.store)
                      (view (db.set_pending w.store (to_lower req.email) p).0))
                  (sym ep)
                  (
                    p,
                    u,
                    v,
                    (laws.public_counted w.store req.username 0 cp).0 refl,
                    (laws.users_counted w.store req.email 0 cu).0 refl,
                    k,
                  ))
          ])
    handle-Meets (resends parsed) w =
        resend-keeps (Meets view compare (resends parsed) (view w.store)) db json_fails parsed w
          (inl refl)
    handle-Meets (verifies c parsed) w =
        verify-keeps (Meets view compare (verifies c parsed) (view w.store)) db json_fails c parsed
          w (inl refl)
          (λ req p ep g code. elim (insert_all-Verified c (to_lower req.email) p w) [
            | inl k ↦ inl k
            | inr (free, k) ↦ inr (
                subst
                  (λ x.
                    IsAllowed compare (verifies c x) (view w.store)
                      (view (insert_all db json_fails c (to_lower req.email) p w).0.store))
                  (sym ep) (row_of c p, refl, pending_of req p w g code, free, k))
          ])
      where
        pending_of :
            (req : VerifyEmailSchema) (p : Pending) (w : World S)
            → db.get_pending w.store (to_lower req.email) ≡ found p
            → p.code ≡ req.code
            → ((view w.store).pending (to_lower req.email)
                ≡ some (record {
                  code = req.code;
                  username = p.username;
                  password_hash = p.password_hash;
                }))
              ⊎ (((view w.store).pending (to_lower req.email) ≡ none) × (req.code ≡ []))
        pending_of req p w g code = elim (laws.pending_found w.store (to_lower req.email) p g) [
          | inl k ↦ inl (k ∙ ap (λ x. some (with_code p x)) code)
          | inr (k, e) ↦ inr (k, sym code ∙ ap Pending.code e)
        ]
    handle-Meets (logs_in c parsed) w =
        login-keeps (Meets view compare (logs_in c parsed) (view w.store)) db json_fails sign cipher
          compare c parsed w (inl refl)
          (λ req row k session password ep f cmp u r. elim (laws.token_written w.store session k) [
            | inr (x, y) ↦ inl y
            | inl y ↦ inr (
                subst
                  (λ x.
                    IsAllowed compare (logs_in c x) (view w.store)
                      (view (db.set_token w.store session k).0))
                  (sym ep)
                  (
                    row,
                    k,
                    session,
                    password,
                    laws.user_found w.store (to_lower req.email) row f,
                    cmp,
                    r,
                    u,
                    y,
                  ))
          ])
