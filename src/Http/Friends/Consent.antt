-- ===== src/Http/Friends/Consent.antt =====
-- What the services leave in the two rows of a relation.
use mathlib.Core.Bool.{false≢true}
use project_h_server.Prelude.{
  inl, inr, ℕ, ◌≡◌, ◌≢◌, refl, sym, ap, ◌∙◌, List, [], Bool, true, false, Bytes, codes,
}
use project_h_server.Http.Reply.{
  Body, error_response, World, internal_error, bad_request, status_json, json,
}
use project_h_server.Http.Store.{
  both, Row, Columns, apply, found, not_found, failed, Database, IsDatabase, Works,
}
use project_h_server.Http.Friends.{
  Call, check_existing_relation_chain, get_username, request_columns, accept_columns,
  request_relation, accept_relation,
}
use project_h_server.Http.Friends.Symmetry.{both-mine, both-theirs}
use project_h_server.Http.Friends.Rows.{
  error-store, accept_new-keeps, request_named-keeps, accept-keeps,
}

module _ {S : Type 0} (db : Database S) (json_fails : Body → Bool) (has_time : ℕ → Bool)
    (works : Works db) (row : S → ℕ → ℕ → Row) (laws : IsDatabase db row) where
  -- Both sides of a relation hold these columns over what they held in `s`.
  pub record Holds (s : S) (u r : ℕ) (c d : Columns) (t : S) : Type 0 where
    pub mine : row t u r ≡ apply c (row s u r)
    pub theirs : row t r u ≡ apply d (row s r u)

  both-Holds : (s : S) (u r : ℕ) (c d : Columns) → u ≢ r → Holds s u r c d (both db s u r c d)
  both-Holds s u r c d h = record {
    mine = both-mine db row laws works s u r c d h;
    theirs = both-theirs db row laws works s u r c d h;
  }

  -- While no write fails, a request to another user whose name is known makes both rows
  -- active, marks the sender's row as requested and the other's as not, gives each the name
  -- and the time, and keeps the rest.
  pub request-Holds :
      (c : Call) (name : Bytes) (w : World S)
      → c.user_id ≢ c.relation_id
      → db.username w.store c.relation_id ≡ found name
      → Holds w.store c.user_id c.relation_id
          (request_columns c.now name true)
          (request_columns c.now c.username false)
          (request_relation db json_fails c w).0.store
  unfolding get_username
  request-Holds c name w h e =
      request_named-keeps db json_fails works
        (Holds w.store c.user_id c.relation_id (request_columns c.now name true)
          (request_columns c.now c.username false))
        c name w w (rw (get_username, e) refl) (both-Holds w.store c.user_id c.relation_id _ _ h)

  -- If the database finds no user with the relation's id, which is not the sender's, the
  -- answer 400 is written without an error, and no write fails, then the request is entered
  -- all the same, in both rows, the sender's with an empty name.
  pub request_unknown :
      (c : Call) (w : World S)
      → c.user_id ≢ c.relation_id
      → db.username w.store c.relation_id ≡ not_found
      → json_fails (error_response (codes "UserID") (codes "invalid")) ≡ false
      → Holds w.store c.user_id c.relation_id
          (request_columns c.now [] true)
          (request_columns c.now c.username false)
          (request_relation db json_fails c w).0.store
  unfolding get_username bad_request status_json json
  request_unknown c w h e j =
      request_named-keeps db json_fails works
        (Holds w.store c.user_id c.relation_id (request_columns c.now [] true)
          (request_columns c.now c.username false))
        c [] w (record w { status = 400; body = error_response (codes "UserID") (codes "invalid") })
        (rw (get_username, e, j) refl) (both-Holds w.store c.user_id c.relation_id _ _ h)

  -- The same chain and time over what the two rows held.
  abbrev pub Accepted : World S → Call → ℕ → S → Type 0
  Accepted w c chain t =
      Holds w.store c.user_id c.relation_id (accept_columns chain c.now)
        (accept_columns chain c.now) t

  inserted-Accepted :
      (c : Call) (w : World S) (chain : ℕ) (us : List ℕ)
      → c.user_id ≢ c.relation_id
      → (let s = (db.insert_users w.store chain us).0 in
          Accepted w c chain (
            both db s c.user_id c.relation_id
              (accept_columns chain c.now)
              (accept_columns chain c.now)))
  inserted-Accepted c w chain us h = record {
    mine =
        both-mine db row laws works _ c.user_id c.relation_id _ _ h
        ∙ ap (apply (accept_columns chain c.now))
            (laws.insert-row w.store chain us c.user_id c.relation_id);
    theirs =
        both-theirs db row laws works _ c.user_id c.relation_id _ _ h
        ∙ ap (apply (accept_columns chain c.now))
            (laws.insert-row w.store chain us c.relation_id c.user_id);
  }

  accept-Holds :
      (c : Call) (w : World S)
      → c.user_id ≢ c.relation_id
      → db.chain_of w.store c.user_id c.relation_id ≢ failed
      → (chain : ℕ) × Accepted w c chain (accept_relation db json_fails has_time c w).0.store
  accept-Holds c w h n =
      accept-keeps db json_fails works (λ t. (chain : ℕ) × Accepted w c chain t) has_time c w
        (λ e. absurd (n e)) (λ chain e t. (chain, both-Holds w.store c.user_id c.relation_id _ _ h))
        (λ k. (c.time_uuid, inserted-Accepted c w c.time_uuid _ h))

  -- While no write fails, an acceptance for another user keeps the chain that the accepting user's
  -- row holds, if it carries a time, as the zero UUID does not, and the query for it does not fail:
  -- both rows are friends with that chain.
  pub accept-kept_chain :
      (c : Call) (w : World S)
      → c.user_id ≢ c.relation_id
      → db.chain_of w.store c.user_id c.relation_id ≢ failed
      → has_time 0 ≡ false
      → has_time (row w.store c.user_id c.relation_id).chain_id ≡ true
      → Accepted w c
          (row w.store c.user_id c.relation_id).chain_id
          (accept_relation db json_fails has_time c w).0.store
  accept-kept_chain c w h n z k =
      accept-keeps db json_fails works (Accepted w c (row w.store c.user_id c.relation_id).chain_id)
        has_time c w (λ e. absurd (n e))
        (λ chain e t.
          rw (laws.found_chain w.store c.user_id c.relation_id chain e)
            (both-Holds w.store c.user_id c.relation_id _ _ h))
        (λ x. elim x [
          | inl e ↦ absurd (
              false≢true
                (sym z ∙ ap has_time (sym (laws.no_chain w.store c.user_id c.relation_id e)) ∙ k))
          | inr (inl e) ↦ absurd (n e)
          | inr (inr (chain, e, t)) ↦ absurd (
              false≢true (
                sym t
                ∙ ap has_time (sym (laws.found_chain w.store c.user_id c.relation_id chain e))
                ∙ k))
        ])

  -- If the query for the chain fails, the answer 500 is written without an error, and no
  -- write fails, then an acceptance for another user replaces the relation's chain, whatever
  -- it was, by a new one.
  pub accept-replaced_chain :
      (c : Call) (w : World S)
      → c.user_id ≢ c.relation_id
      → db.chain_of w.store c.user_id c.relation_id ≡ failed
      → json_fails (error_response [] []) ≡ false
      → Accepted w c c.time_uuid (accept_relation db json_fails has_time c w).0.store
  unfolding accept_relation check_existing_relation_chain internal_error status_json json
  accept-replaced_chain c w h e j =
      rw (check_existing_relation_chain, e, j)
        (accept_new-keeps db json_fails works (Accepted w c c.time_uuid) c w.store
          (internal_error json_fails w).0 (error-store db json_fails w)
          (inserted-Accepted c w c.time_uuid _ h))

  -- Both sides of a relation are friends, active, with the same chain.
  pub record Befriended (s : S) (u r : ℕ) : Type 0 where
    pub friends : ((row s u r).friend ≡ true) × ((row s r u).friend ≡ true)
    pub active : ((row s u r).active ≡ true) × ((row s r u).active ≡ true)
    pub chain : (row s u r).chain_id ≡ (row s r u).chain_id

  Befriended-of :
      (s s1 t : S) (u r chain now now1 : ℕ) (name1 name2 : Bytes)
      → Holds s u r (request_columns now1 name1 true) (request_columns now1 name2 false) s1
      → Holds s1 u r (accept_columns chain now) (accept_columns chain now) t
      → Befriended t u r
  unfolding apply request_columns accept_columns
  Befriended-of s s1 t u r chain now now1 name1 name2 q a = record {
    friends = (ap Row.friend a.mine, ap Row.friend a.theirs);
    active = (
      ap Row.active a.mine ∙ ap Row.active q.mine,
      ap Row.active a.theirs ∙ ap Row.active q.theirs,
    );
    chain = ap Row.chain_id a.mine ∙ sym (ap Row.chain_id a.theirs);
  }

  -- A request of one user, to another whose name is known, and the other's acceptance of it make
  -- the two friends, with one chain, if no query fails.
  pub request-accept :
      (c d : Call) (name : Bytes) (w : World S)
      → c.user_id ≢ c.relation_id
      → db.username w.store c.relation_id ≡ found name
      → ((s : S) (u r : ℕ) → db.chain_of s u r ≢ failed)
      → Befriended
          (accept_relation db json_fails has_time
            (record d { user_id = c.relation_id; relation_id = c.user_id })
            (request_relation db json_fails c w).0).0.store
          c.user_id
          c.relation_id
  request-accept c d name w h e n =
      let q = request-Holds c name w h e in
      let a =
        accept-Holds (record d { user_id = c.relation_id; relation_id = c.user_id })
          (request_relation db json_fails c w).0 (λ k. h (sym k)) (n _ _ _) in
      Befriended-of w.store (request_relation db json_fails c w).0.store _ c.user_id c.relation_id
        a.0 d.now c.now name c.username q (record { mine = a.1.theirs; theirs = a.1.mine })

  -- A user who sends a request, to another user whose name is known, and accepts it in the other's
  -- stead becomes the other's friend, if no query fails: the code asks for no request received.
  pub self_accepted :
      (c d : Call) (name : Bytes) (w : World S)
      → c.user_id ≢ c.relation_id
      → db.username w.store c.relation_id ≡ found name
      → ((s : S) (u r : ℕ) → db.chain_of s u r ≢ failed)
      → Befriended
          (accept_relation db json_fails has_time
            (record d { user_id = c.user_id; relation_id = c.relation_id })
            (request_relation db json_fails c w).0).0.store
          c.user_id
          c.relation_id
  self_accepted c d name w h e n =
      let q = request-Holds c name w h e in
      let a =
        accept-Holds (record d { user_id = c.user_id; relation_id = c.relation_id })
          (request_relation db json_fails c w).0 h (n _ _ _) in
      Befriended-of w.store (request_relation db json_fails c w).0.store _ c.user_id c.relation_id
        a.0 d.now c.now name c.username q a.1
