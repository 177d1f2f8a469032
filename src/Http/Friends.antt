-- ===== src/Http/Friends.antt =====
-- `RequestRelation`, `AcceptRelation` and `RemoveRelation`, with the helpers `GetUsernameByID`,
-- `CheckExistingRelationChain`, `InsertChainsUsers` and `send_payload`.
pub mod Symmetry
pub mod Rows
pub mod History
pub mod Consent
use project_h_server.Prelude.{
  ℕ, List, [], ◌∷◌, ◌++◌, Option, none, some, Bool, true, false, Bytes, codes, if◌then◌else◌, not,
}
use project_h_server.Http.Reply.{
  Body, username_response, accept_response, MessageData, friend_request_data, friend_accept_data,
  nil_data, World, Outcome, json, internal_error, bad_request, ok,
}
use project_h_server.Http.Store.{Columns, Database, found, not_found, failed}

-- A request: `c.Locals`, the parameter `relationID`, and what the clock, `gocql.TimeUUID`,
-- `nanoid` (`none`: it fails), `jsoniter.Marshal` and `api_write_message` answer.
pub record Call : Type 0 where
  pub user_id : ℕ
  pub username : Bytes
  pub relation_id : ℕ
  pub now : ℕ
  -- the clock when the message is built
  pub sent_at : ℕ
  pub time_uuid : ℕ
  pub signature : Option Bytes
  pub marshal_ok : Bool
  pub write_ok : Bool

-- A helper's value beside its outcome.
abbrev pub Valued : Type 0 → Type 0 → Type 0
Valued S A = A × Outcome S

-- `if err != nil { return err }` behind a call.
abbrev pub unless_err : {S : Type 0} → Outcome S → (World S → Outcome S) → Outcome S
unless_err (w, true) k = (w, true)
unless_err (w, false) k = k w

unfoldable pub request_columns : ℕ → Bytes → Bool → Columns
request_columns created name requested = record {
  created = some created;
  chain_id = none;
  last_recv = none;
  last_seen = none;
  relation_username = some name;
  friend = none;
  requested = some requested;
  active = some true;
}

unfoldable pub accept_columns : ℕ → ℕ → Columns
accept_columns chain now = record {
  created = none;
  chain_id = some chain;
  last_recv = some now;
  last_seen = some now;
  relation_username = none;
  friend = some true;
  requested = none;
  active = none;
}

abbrev pub remove_columns : Columns
remove_columns = record {
  created = none;
  chain_id = none;
  last_recv = none;
  last_seen = none;
  relation_username = none;
  friend = some false;
  requested = some false;
  active = some false;
}

module _ {S : Type 0} (db : Database S) (json_fails : Body → Bool) where
  -- an UPDATE whose error is answered with `HandleInternalError`
  unfoldable pub written : S × Bool → World S → (World S → Outcome S) → Outcome S
  unfolding internal_error
  written (s, true) w k = internal_error json_fails (record w { store = s })
  written (s, false) w k = k (record w { store = s })

  unfoldable pub get_username : ℕ → World S → Valued S Bytes
  get_username id w = elim (db.username w.store id) [
    | found name ↦ (name, (w, false))
    | not_found ↦ ([], bad_request json_fails (codes "UserID") (codes "invalid") w)
    | failed ↦ ([], internal_error json_fails w)
  ]

  -- `UUID.Time()` is the zero time for a UUID that carries none.
  unfoldable pub check_existing_relation_chain : (ℕ → Bool) → ℕ → ℕ → World S → Valued S (Option ℕ)
  check_existing_relation_chain has_time u r w = elim (db.chain_of w.store u r) [
    | found chain ↦ ((if has_time chain then some chain else none), (w, false))
    | not_found ↦ (none, (w, false))
    | failed ↦ (none, internal_error json_fails w)
  ]

  unfoldable pub insert_chains_users : ℕ → List ℕ → World S → Outcome S
  insert_chains_users chain us w =
      let res = db.insert_users w.store chain us in
      if res.1
      then internal_error json_fails (record w { store = res.0 })
      else (record w { store = res.0 }, false)

  unfoldable pub send_payload : Call → ℕ → ℕ → Bool → MessageData → World S → Outcome S
  send_payload c op target atomic payload w = elim c.signature [
    | none ↦ (w, true)
    | some signature ↦
        if not c.marshal_ok
        then internal_error json_fails w
        else if not c.write_ok
        then internal_error json_fails w
        else (
          record w {
            pushed =
                w.pushed
                ++ record {
                  op = op;
                  origin_id = c.user_id;
                  target_id = target;
                  timestamp = c.sent_at;
                  signature = signature;
                  atomic = atomic;
                  payload = payload;
                }
                  ∷ [];
          },
          false,
        )
  ]

  unfoldable pub friend_request : Call → ℕ → Bytes → World S → Outcome S
  unfolding send_payload
  friend_request c target destination w =
      send_payload c 200 target false (friend_request_data c.username destination) w

  unfoldable pub friend_accepted : Call → ℕ → ℕ → ℕ → World S → Outcome S
  unfolding send_payload
  friend_accepted c target chain created w =
      send_payload c 201 target false (friend_accept_data chain created) w

  unfoldable pub relation_remove : Call → ℕ → World S → Outcome S
  unfolding send_payload
  relation_remove c target w = send_payload c 202 target false nil_data w

  -- Two UPDATEs, of the user's row and of the relation's, and what follows.
  unfoldable pub update_both :
      Call → Columns → Columns → World S → (World S → Outcome S) → Outcome S
  unfolding written
  update_both c mine theirs w k =
      written (db.update w.store c.user_id c.relation_id mine) w
        (λ w1. written (db.update w1.store c.relation_id c.user_id theirs) w1 k)

  unfoldable pub request_relation : Call → World S → Outcome S
  unfolding update_both request_columns
  request_relation c w =
      let u = get_username c.relation_id w in
      unless_err u.1 (λ w1.
        update_both c (request_columns c.now u.0 true) (request_columns c.now c.username false) w1
          (λ w2.
            unless_err (friend_request c c.relation_id u.0 w2)
              (json json_fails (username_response u.0))))

  -- What follows once there is a chain.
  unfoldable pub accept_with : Call → ℕ → World S → Outcome S
  unfolding update_both accept_columns
  accept_with c chain w =
      update_both c (accept_columns chain c.now) (accept_columns chain c.now) w (λ w2.
        unless_err (friend_accepted c c.relation_id chain c.now w2)
          (json json_fails (accept_response chain c.now)))

  unfoldable pub accept_relation : (ℕ → Bool) → Call → World S → Outcome S
  unfolding accept_with
  accept_relation has_time c w =
      let u = check_existing_relation_chain has_time c.user_id c.relation_id w in
      unless_err u.1 (λ w1. elim u.0 [
        | some chain ↦ accept_with c chain w1
        | none ↦
            unless_err (insert_chains_users c.time_uuid (c.user_id ∷ c.relation_id ∷ []) w1)
              (accept_with c c.time_uuid)
      ])

  unfoldable pub remove_relation : Call → World S → Outcome S
  unfolding update_both
  remove_relation c w =
      update_both c remove_columns remove_columns w
        (λ w2. unless_err (relation_remove c c.relation_id w2) (ok json_fails))
