-- ===== src/Accounts/Store.antt =====
-- The tables `users`, `users_public` and `users_private`, and the redis keys "verifying:" and
-- "refreshtokens:". The databases are a parameter; its laws are the documented ones, stated over
-- what the tables hold: a write that fails may have been applied or not.
use project_h_server.Prelude.{
  ℕ, ◌≡◌, ◌≢◌, ◌↔◌, ◌⊎◌, [], Option, none, some, Bool, true, false, Bytes, same, if◌then◌else◌,
}

-- The hash at "verifying:" and an email; a field that is missing reads as empty.
pub record Pending : Type 0 where
  pub code : Bytes
  pub username : Bytes
  pub password_hash : Bytes

abbrev pub no_pending : Pending
no_pending = record { code = []; username = []; password_hash = [] }

-- A row of `users`, besides its email.
pub record UserRow : Type 0 where
  pub user_id : Bytes
  pub password_hash : Bytes
  pub created : ℕ
  pub username : Bytes

-- The hash at "refreshtokens:" and a session, and its expiry in milliseconds.
pub record RefreshToken : Type 0 where
  pub token : Bytes
  pub user_id : Bytes
  pub ip : Bytes
  pub expire_at : ℕ

-- What the tables hold, by key: `users_public` and `users_private` have a user's id and name.
pub record Tables : Type 0 where
  pub pending : Bytes → Option Pending
  pub users : Bytes → Option UserRow
  pub users_public : Bytes → Option Bytes
  pub users_private : Bytes → Option Bytes
  pub tokens : Bytes → Option RefreshToken

abbrev pub put : {A : Type 0} → (Bytes → A) → Bytes → A → Bytes → A
put f k v k' = if same k' k then v else f k'

pub data Answer (A : Type 0) : Type 0 where
  found : A → Answer A
  not_found failed : Answer A

-- The answer of INSERT … IF NOT EXISTS.
pub data Cas : Type 0 where
  applied exists failed : Cas

-- The queries and commands; a write also says whether it failed.
pub record Database (S : Type 0) : Type 0 where
  -- SELECT count(*) FROM users_public WHERE username = ?, and FROM users WHERE email = ?
  pub count_public : S → Bytes → Option ℕ
  pub count_users : S → Bytes → Option ℕ
  -- the pipeline of HSET and EXPIRE at "verifying:"
  pub set_pending : S → Bytes → Pending → S × Bool
  -- HGET of its "code", and HGETALL
  pub get_code : S → Bytes → Answer Bytes
  pub get_pending : S → Bytes → Answer Pending
  pub insert_public : S → (username user_id : Bytes) → S × Cas
  pub insert_user : S → (email : Bytes) → UserRow → S × Bool
  pub insert_private : S → (user_id username : Bytes) → S × Bool
  -- SELECT * FROM users WHERE email = ?
  pub find_user : S → Bytes → Answer UserRow
  -- the pipeline of HSET and EXPIREAT at "refreshtokens:"
  pub set_token : S → Bytes → RefreshToken → S × Bool

-- A write that is meant to lead from `old` to `new`, and led to `t`.
abbrev pub IsWritten : (old new t : Tables) → Bool → Type 0
IsWritten old new t fails = (t ≡ new) ⊎ ((fails ≡ true) × (t ≡ old))

-- An insertion that is applied only where there is no row yet.
abbrev pub IsInserted : (old new t : Tables) → Option Bytes → Cas → Type 0
IsInserted old new t row applied = (row ≡ none) × (t ≡ new)
IsInserted old new t row exists = ((id : Bytes) × (row ≡ some id)) × (t ≡ old)
IsInserted old new t row failed = (t ≡ old) ⊎ ((row ≡ none) × (t ≡ new))

pub record IsDatabase {S : Type 0} (db : Database S) (view : S → Tables) : Type 0 where
  pub pending_written :
      (s : S) (e : Bytes) (p : Pending)
      → IsWritten
          (view s)
          (record (view s) { pending = put (view s).pending e (some p) })
          (view (db.set_pending s e p).0)
          (db.set_pending s e p).1
  pub user_written :
      (s : S) (e : Bytes) (r : UserRow)
      → IsWritten
          (view s)
          (record (view s) { users = put (view s).users e (some r) })
          (view (db.insert_user s e r).0)
          (db.insert_user s e r).1
  pub private_written :
      (s : S) (i n : Bytes)
      → IsWritten
          (view s)
          (record (view s) { users_private = put (view s).users_private i (some n) })
          (view (db.insert_private s i n).0)
          (db.insert_private s i n).1
  pub token_written :
      (s : S) (d : Bytes) (t : RefreshToken)
      → IsWritten
          (view s)
          (record (view s) { tokens = put (view s).tokens d (some t) })
          (view (db.set_token s d t).0)
          (db.set_token s d t).1
  pub public_inserted :
      (s : S) (n i : Bytes)
      → IsInserted
          (view s)
          (record (view s) { users_public = put (view s).users_public n (some i) })
          (view (db.insert_public s n i).0)
          ((view s).users_public n)
          (db.insert_public s n i).1
  pub public_counted :
      (s : S) (n : Bytes) (k : ℕ)
      → db.count_public s n ≡ some k
      → (k ≡ 0) ↔ ((view s).users_public n ≡ none)
  pub users_counted :
      (s : S) (e : Bytes) (k : ℕ)
      → db.count_users s e ≡ some k
      → (k ≡ 0) ↔ ((view s).users e ≡ none)
  pub pending_found :
      (s : S) (e : Bytes) (p : Pending)
      → db.get_pending s e ≡ found p
      → ((view s).pending e ≡ some p) ⊎ (((view s).pending e ≡ none) × (p ≡ no_pending))
  pub user_found :
      (s : S) (e : Bytes) (r : UserRow) → db.find_user s e ≡ found r → (view s).users e ≡ some r
  pub user_not_found : (s : S) (e : Bytes) → db.find_user s e ≡ not_found → (view s).users e ≡ none

-- No query fails.
pub record Works {S : Type 0} (db : Database S) : Type 0 where
  pub public_counts : (s : S) (n : Bytes) → (k : ℕ) × (db.count_public s n ≡ some k)
  pub users_counts : (s : S) (e : Bytes) → (k : ℕ) × (db.count_users s e ≡ some k)
  pub sets_pending : (s : S) (e : Bytes) (p : Pending) → (db.set_pending s e p).1 ≡ false
  pub gets_pending : (s : S) (e : Bytes) → (p : Pending) × (db.get_pending s e ≡ found p)
  pub inserts_public : (s : S) (n i : Bytes) → (db.insert_public s n i).1 ≢ failed
  pub inserts_user : (s : S) (e : Bytes) (r : UserRow) → (db.insert_user s e r).1 ≡ false
  pub inserts_private : (s : S) (i n : Bytes) → (db.insert_private s i n).1 ≡ false
  pub finds_user : (s : S) (e : Bytes) → db.find_user s e ≢ failed
  pub sets_token : (s : S) (d : Bytes) (t : RefreshToken) → (db.set_token s d t).1 ≡ false
