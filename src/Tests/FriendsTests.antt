-- ===== src/Tests/FriendsTests.antt =====
-- The relation services at a table of rows that is a function.

use project_h_server.Prelude.{
  ℕ, ◌≡◌, ◌≢◌, refl, [], ◌∷◌, some, Bool, true, false, Bytes, codes, ◌==◌, ◌&&◌, not, arith,
  if◌then◌else◌, ==_refl,
}
use project_h_server.Http.Reply.{Body, empty, World}
use project_h_server.Http.Store.{
  Row, null_row, Columns, apply, Answer, found, not_found, failed, Database, IsDatabase, Works,
}
use project_h_server.Http.Friends.{Call, request_relation, accept_relation}
use project_h_server.Http.Friends.Symmetry.{IsSymmetric}
use project_h_server.Http.Friends.History.{
  requests, accepts, removes, serve_all, serve_all-IsSymmetric,
}
use project_h_server.Http.Friends.Consent.{Accepted, Befriended, accept-kept_chain, self_accepted}

abbrev pub Table : Type 0
Table = ℕ → ℕ → Row

abbrev pub write_row : Table → ℕ → ℕ → Columns → Table
write_row t u r c u' r' = if (u' == u) && (r' == r) then apply c (t u' r') else t u' r'

-- The users 1 and 2 exist.
abbrev name_of : ℕ → Answer Bytes
name_of u =
    if u == 1 then found (codes "ann") else if u == 2 then found (codes "bob") else not_found

abbrev pub find_chain : ℕ → Answer ℕ
find_chain c = if c == 0 then not_found else found c

abbrev pub tables : (ℕ → Answer ℕ) → Database Table
tables find = record {
  username = λ t u. name_of u;
  chain_of = λ t u r. find (Row.chain_id (t u r));
  update = λ t u r c. (write_row t u r c, false);
  insert_users = λ t c us. (t, false);
}

abbrev pub rows_of : Table → ℕ → ℕ → Row
rows_of t = t

pub write_row-at : (t : Table) (u r : ℕ) (c : Columns) → write_row t u r c u r ≡ apply c (t u r)
write_row-at t u r c = rw (==_refl u, ==_refl r) refl

pub write_row-user :
    (t : Table) (u r : ℕ) (c : Columns) (u' r' : ℕ) → u' ≢ u → write_row t u r c u' r' ≡ t u' r'
write_row-user t u r c u' r' h = ground arith

pub write_row-relation :
    (t : Table) (u r : ℕ) (c : Columns) (u' r' : ℕ) → r' ≢ r → write_row t u r c u' r' ≡ t u' r'
write_row-relation t u r c u' r' h = ground arith

find_chain-found : (n c : ℕ) → find_chain n ≡ found c → n ≡ c
find_chain-found n c h = ground arith

find_chain-not_found : (n : ℕ) → find_chain n ≡ not_found → n ≡ 0
find_chain-not_found n h = ground arith

pub tables-IsDatabase : IsDatabase (tables find_chain) rows_of
tables-IsDatabase = record {
  update-at = λ s u r c h. write_row-at s u r c;
  update-user = write_row-user;
  update-relation = write_row-relation;
  insert-row = λ s c us u r. refl;
  found_chain = λ s u r c h. find_chain-found (Row.chain_id (s u r)) c h;
  no_chain = λ s u r h. find_chain-not_found (Row.chain_id (s u r)) h;
}

pub failed-ne-found : (c : ℕ) → failed ≢ found c
failed-ne-found c h = cc

abbrev no_answer : Answer ℕ
no_answer = failed

pub failed-ne-not_found : no_answer ≢ not_found
failed-ne-not_found h = cc

broken-IsDatabase : IsDatabase (tables (λ c. failed)) rows_of
broken-IsDatabase = record {
  update-at = λ s u r c h. write_row-at s u r c;
  update-user = write_row-user;
  update-relation = write_row-relation;
  insert-row = λ s c us u r. refl;
  found_chain = λ s u r c h. absurd (failed-ne-found c h);
  no_chain = λ s u r h. absurd (failed-ne-not_found h);
}

pub tables-Works : (find : ℕ → Answer ℕ) → Works (tables find)
tables-Works find = record { updates = λ s u r c. refl; inserts = λ s c us. refl }

pub find_chain-answers : (n : ℕ) → find_chain n ≢ failed
find_chain-answers n h = ground arith

abbrev pub never : Body → Bool
never b = false

-- A UUID with a time is not zero.
abbrev pub timed : ℕ → Bool
timed n = not (n == 0)

abbrev pub world : Table → World Table
world t = record { store = t; status = 200; body = empty; pushed = []; headers = []; mails = [] }

abbrev pub no_rows : Table
no_rows u r = null_row

abbrev from : ℕ → Bytes → ℕ → ℕ → Call
from u name r now = record {
  user_id = u;
  username = name;
  relation_id = r;
  now = now;
  sent_at = now;
  time_uuid = 70;
  signature = some (codes "s1g2");
  marshal_ok = true;
  write_ok = true;
}

abbrev pub ann : ℕ → Call
ann now = from 1 (codes "ann") 2 now

abbrev pub bob : ℕ → Call
bob now = from 2 (codes "bob") 1 now

no_rows-IsSymmetric : IsSymmetric (tables find_chain) rows_of tables-IsDatabase no_rows
no_rows-IsSymmetric u r = record { friend = refl; active = refl; chain_id = refl; created = refl }

serve_all-IsSymmetric_example :
    IsSymmetric
      (tables find_chain)
      rows_of
      tables-IsDatabase
      (serve_all
        (tables find_chain)
        never
        timed
        (requests (ann 5) ∷ accepts (bob 6) ∷ removes (ann 7) ∷ [])
        (world no_rows)).store
serve_all-IsSymmetric_example =
    serve_all-IsSymmetric (tables find_chain) never timed (tables-Works find_chain) rows_of
      tables-IsDatabase (requests (ann 5) ∷ accepts (bob 6) ∷ removes (ann 7) ∷ []) (world no_rows)
      no_rows-IsSymmetric

self_accepted_example :
    Befriended
      (tables find_chain)
      never
      timed
      (tables-Works find_chain)
      rows_of
      tables-IsDatabase
      (accept_relation
        (tables find_chain)
        never
        timed
        (ann 6)
        (request_relation (tables find_chain) never (ann 5) (world no_rows)).0).0.store
      1
      2
self_accepted_example =
    self_accepted (tables find_chain) never timed (tables-Works find_chain) rows_of
      tables-IsDatabase (ann 5) (ann 6) (codes "bob") (world no_rows) (omega arith) refl
      (λ s u r. find_chain-answers (Row.chain_id (s u r)))

-- The users 1 and 2 have the chain 33.
abbrev with_chain : Table
with_chain u r = record null_row { chain_id = 33 }

accept-kept_chain_example :
    Accepted
      (tables find_chain)
      never
      timed
      (tables-Works find_chain)
      rows_of
      tables-IsDatabase
      (world with_chain)
      (ann 5)
      33
      (accept_relation (tables find_chain) never timed (ann 5) (world with_chain)).0.store
accept-kept_chain_example =
    accept-kept_chain (tables find_chain) never timed (tables-Works find_chain) rows_of
      tables-IsDatabase (ann 5) (world with_chain) (omega arith) (find_chain-answers 33) refl refl
