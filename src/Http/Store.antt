-- ===== src/Http/Store.antt =====
-- The tables `user_relations`, `users_private` and `chains_users` as the relation services use
-- them: the database is a parameter, with the documented behaviour of CQL's UPDATE as laws.
use project_h_server.Prelude.{ℕ, ◌≡◌, ◌≢◌, List, Option, none, some, Bool, false, Bytes, []}

-- The columns of a row besides its key; a null column reads as zero.
pub record Row : Type 0 where
  pub created : ℕ
  pub chain_id : ℕ
  pub last_recv : ℕ
  pub last_seen : ℕ
  pub relation_username : Bytes
  pub friend : Bool
  pub requested : Bool
  pub active : Bool

abbrev pub null_row : Row
null_row = record {
  created = 0;
  chain_id = 0;
  last_recv = 0;
  last_seen = 0;
  relation_username = [];
  friend = false;
  requested = false;
  active = false;
}

-- The SET list of an UPDATE; `gocql.UnsetValue` and a column that is not named are `none`.
pub record Columns : Type 0 where
  pub created : Option ℕ
  pub chain_id : Option ℕ
  pub last_recv : Option ℕ
  pub last_seen : Option ℕ
  pub relation_username : Option Bytes
  pub friend : Option Bool
  pub requested : Option Bool
  pub active : Option Bool

abbrev pub column : {A : Type 0} → Option A → A → A
column none a = a
column (some b) a = b

unfoldable pub apply : Columns → Row → Row
apply c r = record {
  created = column c.created r.created;
  chain_id = column c.chain_id r.chain_id;
  last_recv = column c.last_recv r.last_recv;
  last_seen = column c.last_seen r.last_seen;
  relation_username = column c.relation_username r.relation_username;
  friend = column c.friend r.friend;
  requested = column c.requested r.requested;
  active = column c.active r.active;
}

-- The answer of a query for one row.
pub data Answer (A : Type 0) : Type 0 where
  found : A → Answer A
  not_found failed : Answer A

-- The queries; a write also says whether it failed.
pub record Database (S : Type 0) : Type 0 where
  -- SELECT username FROM users_private WHERE user_id = ?
  pub username : S → ℕ → Answer Bytes
  -- SELECT chain_id FROM user_relations WHERE user_id = ? AND relation_id = ?
  pub chain_of : S → ℕ → ℕ → Answer ℕ
  -- UPDATE user_relations SET … WHERE user_id = ? AND relation_id = ?
  pub update : S → ℕ → ℕ → Columns → S × Bool
  -- the batch of INSERT INTO chains_users
  pub insert_users : S → ℕ → List ℕ → S × Bool

-- The documented behaviour of the database, over the rows that it holds.
pub record IsDatabase {S : Type 0} (db : Database S) (row : S → ℕ → ℕ → Row) : Type 0 where
  pub update-at :
      (s : S) (u r : ℕ) (c : Columns)
      → (db.update s u r c).1 ≡ false
      → row (db.update s u r c).0 u r ≡ apply c (row s u r)
  pub update-user :
      (s : S) (u r : ℕ) (c : Columns) (u' r' : ℕ)
      → u' ≢ u
      → row (db.update s u r c).0 u' r' ≡ row s u' r'
  pub update-relation :
      (s : S) (u r : ℕ) (c : Columns) (u' r' : ℕ)
      → r' ≢ r
      → row (db.update s u r c).0 u' r' ≡ row s u' r'
  pub insert-row :
      (s : S) (c : ℕ) (us : List ℕ) (u r : ℕ) → row (db.insert_users s c us).0 u r ≡ row s u r
  pub found_chain : (s : S) (u r c : ℕ) → db.chain_of s u r ≡ found c → (row s u r).chain_id ≡ c
  pub no_chain : (s : S) (u r : ℕ) → db.chain_of s u r ≡ not_found → (row s u r).chain_id ≡ 0

-- No write fails.
pub record Works {S : Type 0} (db : Database S) : Type 0 where
  pub updates : (s : S) (u r : ℕ) (c : Columns) → (db.update s u r c).1 ≡ false
  pub inserts : (s : S) (c : ℕ) (us : List ℕ) → (db.insert_users s c us).1 ≡ false

-- The store after an UPDATE of the row of a relation and one of the row of its other side.
abbrev pub both : {S : Type 0} → Database S → S → ℕ → ℕ → Columns → Columns → S
both db s a b c d = (db.update (db.update s a b c).0 b a d).0
