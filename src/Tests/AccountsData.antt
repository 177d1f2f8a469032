-- ===== src/Tests/AccountsData.antt =====
-- Tables that are functions, as a database for the account services, and requests to them.
use project_h_server.Prelude.{
  ℕ, ◌*◌, ◌≡◌, ◌≢◌, ◌↔◌, ◌⊎◌, refl, List, [], ◌∷◌, Option, none, some, Bool, true, false, Bytes,
  codes, same, inl, inr, arith, parse_int, parse_digits, parse_magnitude,
}
use project_h_server.Http.Reply.{Body, empty, World}
use project_h_server.Http.Authenticate.{Claims}
use project_h_server.Accounts.Base64.{
  decode_string, decode_groups, group, last_group, sextet, drop_line_ends,
}
use project_h_server.Accounts.Password.{
  Cipher, value, decrypt, decrypt_chunks, split_dots, split_from,
}
use project_h_server.Accounts.Store.{
  Database, IsDatabase, IsInserted, Works, Tables, Pending, no_pending, UserRow, Answer, found,
  not_found, Cas, applied, exists, put,
}
use project_h_server.Accounts.Tokens.{TokenCall}
use project_h_server.Accounts.Register.{fields, RegisterSchema, RegisterCall, to_lower}
use project_h_server.Accounts.Verify.{VerifyEmailSchema, VerifyCall}
use project_h_server.Accounts.Login.{LoginSchema, LoginCall}
use project_h_server.Accounts.Spec.{
  Service, registers, resends, verifies, logs_in, asked, taken, completed,
}
use project_h_server.Accounts.Spec.Names.{IsConsistent}

abbrev pub count : {A : Type 0} → Option A → ℕ
count none = 0
count (some a) = 1

abbrev pub answer : {A B : Type 0} → (A → B) → Option A → Answer B
answer f none = not_found
answer f (some a) = found (f a)

abbrev pub pending_or_none : Option Pending → Pending
pending_or_none none = no_pending
pending_or_none (some p) = p

abbrev pub insert_at : Tables → Bytes → Bytes → Option Bytes → Tables × Cas
insert_at t n i none = (taken n i t, applied)
insert_at t n i (some j) = (t, exists)

abbrev pub tables : Database Tables
tables = record {
  count_public = λ t n. some (count (Tables.users_public t n));
  count_users = λ t e. some (count (Tables.users t e));
  set_pending = λ t e p. (asked e p t, false);
  get_code = λ t e. answer Pending.code (Tables.pending t e);
  get_pending = λ t e. found (pending_or_none (Tables.pending t e));
  insert_public = λ t n i. insert_at t n i (Tables.users_public t n);
  insert_user = λ t e r. (record t { users = put (Tables.users t) e (some r) }, false);
  insert_private =
      λ t i n. (record t { users_private = put (Tables.users_private t) i (some n) }, false);
  find_user = λ t e. answer (λ r. r) (Tables.users t e);
  set_token = λ t d k. (record t { tokens = put (Tables.tokens t) d (some k) }, false);
}

abbrev pub view : Tables → Tables
view t = t

pub inserted :
    (t : Tables) (n i : Bytes) (o : Option Bytes)
    → IsInserted t (taken n i t) (insert_at t n i o).0 o (insert_at t n i o).1
inserted t n i none = (refl, refl)
inserted t n i (some j) = ((j, refl), refl)

pub inserts : (t : Tables) (n i : Bytes) (o : Option Bytes) → (insert_at t n i o).1 ≢ Cas.failed
inserts t n i none h = cc
inserts t n i (some j) h = cc

pub counted : {A : Type 0} (o : Option A) (k : ℕ) → some (count o) ≡ some k → (k ≡ 0) ↔ (o ≡ none)
counted none k h = (λ e. refl, λ e. ground (arith, h))
counted (some a) k h = (λ e. absurd (ground (arith, h, e)), λ e. cc)

pub row_found : (o : Option UserRow) (r : UserRow) → answer (λ x. x) o ≡ found r → o ≡ some r
row_found none r h = cc
row_found (some x) r h = ground (arith, h)

pub row_missing : (o : Option UserRow) → answer (λ x. x) o ≡ not_found → o ≡ none
row_missing none h = refl
row_missing (some x) h = cc

pub row_answered : (o : Option UserRow) → answer (λ x. x) o ≢ Answer.failed
row_answered none h = cc
row_answered (some x) h = cc

pub pending_got :
    (o : Option Pending) (p : Pending)
    → found (pending_or_none o) ≡ found p
    → (o ≡ some p) ⊎ ((o ≡ none) × (p ≡ no_pending))
pending_got none p h = inr (refl, ground (arith, h))
pending_got (some q) p h = inl (ground (arith, h))

pub tables-IsDatabase : IsDatabase tables view
tables-IsDatabase = record {
  pending_written = λ s e p. inl refl;
  user_written = λ s e r. inl refl;
  private_written = λ s i n. inl refl;
  token_written = λ s d k. inl refl;
  public_inserted = λ s n i. inserted s n i (Tables.users_public s n);
  public_counted = λ s n k h. counted (Tables.users_public s n) k h;
  users_counted = λ s e k h. counted (Tables.users s e) k h;
  pending_found = λ s e p h. pending_got (Tables.pending s e) p h;
  user_found = λ s e r h. row_found (Tables.users s e) r h;
  user_not_found = λ s e h. row_missing (Tables.users s e) h;
}

pub tables-Works : Works tables
tables-Works = record {
  public_counts = λ s n. (_, refl);
  users_counts = λ s e. (_, refl);
  sets_pending = λ s e p. refl;
  gets_pending = λ s e. (_, refl);
  inserts_public = λ s n i. inserts s n i (Tables.users_public s n);
  inserts_user = λ s e r. refl;
  inserts_private = λ s i n. refl;
  finds_user = λ s e. row_answered (Tables.users s e);
  sets_token = λ s d k. refl;
}

-- A cipher that leaves what it is given as it is.
abbrev pub plain : Cipher
plain = record { decrypt_oaep = λ b. some b; new_gcm = λ b. some b; open_gcm = λ k n b. some b }

-- "key", "pw" and "1700000000000" in base64, and the clock at that time.
abbrev pub sent : Bytes
sent = codes "a2V5.cHc=.MTcwMDAwMDAwMDAwMA=="

abbrev pub clock : ℕ
clock = 1700000000000 * 1000000

pub decrypt_sent : decrypt plain sent clock ≡ value (112 ∷ codes "w")
unfolding decrypt decrypt_chunks split_dots split_from decode_string decode_groups group last_group
    sextet drop_line_ends parse_int parse_digits parse_magnitude
decrypt_sent = refl

abbrev pub never : Body → Bool
never b = false

abbrev pub sign : Claims → ℕ → Option Bytes
sign claims t = some (codes "access")

abbrev pub at : Tables → World Tables
at t = record { store = t; status = 200; body = empty; pushed = []; headers = []; mails = [] }

abbrev pub no_tables : Tables
no_tables = record {
  pending = λ e. none;
  users = λ e. none;
  users_public = λ n. none;
  users_private = λ i. none;
  tokens = λ d. none;
}

abbrev pub bytes_none : Bytes → Option Bytes
bytes_none e = none

abbrev pub row_none : Bytes → Option UserRow
row_none e = none

pub row_none-ne-some : (e : Bytes) (r : UserRow) → row_none e ≢ some r
row_none-ne-some e r h = cc

pub bytes_none-ne-some : (e i : Bytes) → bytes_none e ≢ some i
bytes_none-ne-some e i h = cc

pub no_tables-IsConsistent : IsConsistent no_tables
no_tables-IsConsistent = record {
  listed = λ e r h. absurd (row_none-ne-some e r h);
  unique = λ e e' r r' h h' k. absurd (row_none-ne-some e r h);
  private_listed = λ i n h. absurd (bytes_none-ne-some i n h);
}

abbrev pub registering : RegisterCall
registering = record { random_code = some (codes "c0de"); now = clock; hash_password = λ p. some p }

abbrev pub registration : RegisterSchema
registration = record { username = codes "ann"; email = codes "Ann@x"; enc_password_hash = sent }

abbrev pub verifying : VerifyCall
verifying = record { user_id = codes "u1"; now = 1700000000000 }

abbrev pub verification : VerifyEmailSchema
verification = record { email = codes "Ann@x"; code = codes "C0DE" }

abbrev pub tokening : TokenCall
tokening = record { random_token = some (codes "r1"); now = 1700000000000; ip = codes "::1" }

abbrev pub logging_in : LoginCall
logging_in = record { now = clock; random_session = some (codes "s1"); token_call = tokening }

abbrev pub credentials : LoginSchema
credentials = record { email = codes "Ann@x"; enc_password_hash = sent }

abbrev pub day : List Service
day =
    registers registering (fields registration)
    ∷ resends (fields (codes "ann@X"))
    ∷ verifies verifying (fields verification)
    ∷ logs_in logging_in (fields credentials)
    ∷ []

abbrev pub pending_ann : Pending
pending_ann = record { code = codes "C0DE"; username = codes "ann"; password_hash = codes "pw" }

abbrev pub waiting : Tables
waiting = asked (codes "ann@x") pending_ann no_tables

abbrev pub ann : UserRow
ann = record {
  user_id = codes "u1";
  password_hash = codes "pw";
  created = 1600000000000;
  username = codes "ann";
}

abbrev pub with_ann : Tables
with_ann = completed (codes "ann@x") ann no_tables

pub find_ann : tables.find_user with_ann (to_lower (codes "Ann@x")) ≡ found ann
unfolding to_lower same
find_ann = refl

pub same_pw : same (codes "pw") (112 ∷ codes "w") ≡ true
unfolding same
same_pw = refl
