-- ===== src/Accounts/Spec.antt =====
-- What the account services promise of the tables, apart from how they get there.
pub mod Replies
pub mod Keeps
pub mod Sessions
pub mod Refines
pub mod Names
use project_h_server.Prelude.{ℕ, ◌≡◌, ◌⊎◌, List, [], Option, none, some, Bool, true, Bytes}
use project_h_server.Http.Reply.{Body, World}
use project_h_server.Http.Authenticate.{Claims}
use project_h_server.Accounts.Password.{Cipher, Try, value, refused, panics}
use project_h_server.Accounts.Store.{Database, Tables, Pending, UserRow, RefreshToken, put}
use project_h_server.Accounts.Register.{
  Parsed, bad_json, invalid, fields, RegisterSchema, RegisterCall, Handled, valid_username,
  to_lower, register, resend_verification,
}
use project_h_server.Accounts.Verify.{VerifyEmailSchema, VerifyCall, verify_email}
use project_h_server.Accounts.Login.{LoginSchema, LoginCall, login}

-- A request to one of the services.
pub data Service : Type 0 where
  registers : RegisterCall → Parsed RegisterSchema → Service
  resends : Parsed Bytes → Service
  verifies : VerifyCall → Parsed VerifyEmailSchema → Service
  logs_in : LoginCall → Parsed LoginSchema → Service

-- A pending registration of an email.
abbrev pub asked : Bytes → Pending → Tables → Tables
asked e p t = record t { pending = put t.pending e (some p) }

-- A username taken by an id, then with the account's row, then with its private row.
abbrev pub taken : Bytes → Bytes → Tables → Tables
taken n i t = record t { users_public = put t.users_public n (some i) }

abbrev pub created : Bytes → UserRow → Tables → Tables
created e r t = record (taken r.username r.user_id t) { users = put t.users e (some r) }

abbrev pub completed : Bytes → UserRow → Tables → Tables
completed e r t = record (created e r t) {
  users_private = put t.users_private r.user_id (some r.username);
}

abbrev pub issued : Bytes → RefreshToken → Tables → Tables
issued d k t = record t { tokens = put t.tokens d (some k) }

-- The account that a verification creates, as far as it gets.
abbrev pub IsVerified : Bytes → UserRow → Tables → Tables → Type 0
IsVerified e r t u =
    (u ≡ taken r.username r.user_id t) ⊎ ((u ≡ created e r t) ⊎ (u ≡ completed e r t))

-- The changes that a service may make.
abbrev pub IsAllowed : ((hash password : Bytes) → Bool) → Service → Tables → Tables → Type 0
IsAllowed compare (registers c (fields req)) t u =
    (p : Pending) × (p.username ≡ req.username)
    × (valid_username req.username ≡ true)
    × (t.users_public req.username ≡ none)
    × (t.users req.email ≡ none)
    × (u ≡ asked (to_lower req.email) p t)
IsAllowed compare (verifies c (fields req)) t u =
    (r : UserRow) × (r.user_id ≡ c.user_id)
    × ((t.pending (to_lower req.email)
          ≡ some
              (record { code = req.code; username = r.username; password_hash = r.password_hash }))
        ⊎ ((t.pending (to_lower req.email) ≡ none) × (req.code ≡ [])))
    × (t.users_public r.username ≡ none)
    × IsVerified (to_lower req.email) r t u
IsAllowed compare (logs_in c (fields req)) t u =
    (r : UserRow) × (k : RefreshToken) × (session : Bytes) × (password : Bytes) × (t.users
        (to_lower req.email)
      ≡ some r)
    × (compare r.password_hash password ≡ true)
    × (c.random_session ≡ some session)
    × (k.user_id ≡ r.user_id)
    × (u ≡ issued session k t)
IsAllowed compare _ t u = ⊥

-- The store after a call; a call that panics is followed by none.
abbrev pub Holds : {S : Type 0} → (S → Type 0) → Handled S → Type 0
Holds P (value (w, e)) = P w.store
Holds P (refused r) = Unit
Holds P panics = Unit

module _ {S : Type 0} (db : Database S) (json_fails : Body → Bool)
    (sign : Claims → ℕ → Option Bytes) (cipher : Cipher)
    (compare : (hash password : Bytes) → Bool) where
  abbrev pub handle : Service → World S → Handled S
  handle (registers c p) w = register db json_fails cipher c p w
  handle (resends p) w = resend_verification db json_fails p w
  handle (verifies c p) w = verify_email db json_fails c p w
  handle (logs_in c p) w = login db json_fails sign cipher compare c p w
