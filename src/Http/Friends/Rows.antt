-- ===== src/Http/Friends/Rows.antt =====
-- What the three services leave in the two rows of a relation, while no write fails.
use mathlib.Core.Path.{subst}
use project_h_server.Prelude.{
  ◌⊎◌, Bool-cases, ℕ, ◌≡◌, refl, sym, [], ◌∷◌, Bool, true, false, Bytes, arith, inl, inr,
}
use project_h_server.Http.Reply.{
  Body, MessageData, World, Outcome, json, status_json, ok, internal_error, bad_request,
}
use project_h_server.Http.Store.{both, Columns, Answer, found, not_found, failed, Database, Works}
use project_h_server.Http.Friends.{
  Call, unless_err, written, get_username, check_existing_relation_chain, insert_chains_users,
  send_payload, friend_request, friend_accepted, relation_remove, request_columns, accept_columns,
  remove_columns, update_both, request_relation, accept_with, accept_relation, remove_relation,
}

Answer-cases :
    {A : Type 0} (a : Answer A) → ((x : A) × (a ≡ found x)) ⊎ ((a ≡ not_found) ⊎ (a ≡ failed))
Answer-cases (found x) = inl (x, refl)
Answer-cases not_found = inr (inl refl)
Answer-cases failed = inr (inr refl)

-- What the query for a chain may answer for `CheckExistingRelationChain` to find none.
abbrev pub Chainless : (ℕ → Bool) → Answer ℕ → Type 0
Chainless has_time a =
    (a ≡ not_found) ⊎ ((a ≡ failed) ⊎ ((chain : ℕ) × (a ≡ found chain) × (has_time chain ≡ false)))

module _ {S : Type 0} (P : S → Type 0) where
  -- A predicate on the store that both calls keep.
  pub unless_err-keeps :
      (o : Outcome S) (k : World S → Outcome S)
      → P o.0.store
      → ((w : World S) → P w.store → P (k w).0.store)
      → P (unless_err o k).0.store
  unless_err-keeps (w, true) k p h = p
  unless_err-keeps (w, false) k p h = h w p

  -- The same where the first call leaves the store as it was.
  pub unless_err-same :
      (s : S) (o : Outcome S) (k : World S → Outcome S)
      → o.0.store ≡ s
      → P s
      → ((w : World S) → w.store ≡ s → P (k w).0.store)
      → P (unless_err o k).0.store
  unless_err-same s (w, true) k e p h = subst P (sym e) p
  unless_err-same s (w, false) k e p h = h w e

module _ {S : Type 0} (db : Database S) (json_fails : Body → Bool) where
  pub json-store : (b : Body) (w : World S) → (json json_fails b w).0.store ≡ w.store
  unfolding json
  json-store b w = ground arith

  pub get_username-store :
      (id : ℕ) (w : World S) → (get_username db json_fails id w).1.0.store ≡ w.store
  unfolding get_username bad_request internal_error status_json json
  get_username-store id w = ground arith

  pub check-store :
      (has_time : ℕ → Bool) (u r : ℕ) (w : World S)
      → (check_existing_relation_chain db json_fails has_time u r w).1.0.store ≡ w.store
  unfolding check_existing_relation_chain internal_error status_json json
  check-store has_time u r w = ground arith

  pub error-store : (w : World S) → (internal_error json_fails w).0.store ≡ w.store
  unfolding internal_error status_json json
  error-store w = ground arith

  pub send-store :
      (c : Call) (op target : ℕ) (atomic : Bool) (d : MessageData) (w : World S)
      → (send_payload db json_fails c op target atomic d w).0.store ≡ w.store
  unfolding send_payload internal_error status_json json
  send-store c op target atomic d w = ground arith

  module _ (works : Works db) where
    module _ (P : S → Type 0) where
      -- What holds of the store after the two UPDATEs, and is kept by what follows, holds.
      update_both-keeps :
          (call : Call) (c d : Columns) (w : World S) (k : World S → Outcome S)
          → P (both db w.store call.user_id call.relation_id c d)
          → ((w : World S) → P w.store → P (k w).0.store)
          → P (update_both db json_fails call c d w k).0.store
      unfolding update_both written
      update_both-keeps call c d w k p h =
          rw
            (
              works.updates w.store call.user_id call.relation_id c,
              works.updates (db.update w.store call.user_id call.relation_id c).0 call.relation_id
                  call.user_id d,
            )
            (h _ p)

      -- A message and the answer leave the store as it was.
      send-keeps :
          (call : Call) (op target : ℕ) (d : MessageData) (k : World S → Outcome S) (w : World S)
          → P w.store
          → ((w' : World S) → P w'.store → P (k w').0.store)
          → P (unless_err (send_payload db json_fails call op target false d w) k).0.store
      send-keeps call op target d k w p h =
          unless_err-keeps P (send_payload db json_fails call op target false d w) k
            (subst P (sym (send-store call op target false d w)) p) h

      json-keeps : (b : Body) (w : World S) → P w.store → P (json json_fails b w).0.store
      json-keeps b w p = subst P (sym (json-store b w)) p

      pub accept_with-keeps :
          (call : Call) (chain : ℕ) (w : World S)
          → P (
              both db w.store call.user_id call.relation_id
                (accept_columns chain call.now)
                (accept_columns chain call.now))
          → P (accept_with db json_fails call chain w).0.store
      unfolding accept_with friend_accepted
      accept_with-keeps call chain w p =
          update_both-keeps call _ _ w _ p
            (λ w2 p2. send-keeps call 201 call.relation_id _ _ w2 p2 (json-keeps _))

      pub request-keeps :
          (call : Call) (w : World S)
          → P w.store
          → ((name : Bytes)
              → P (
                  both db w.store call.user_id call.relation_id
                    (request_columns call.now name true)
                    (request_columns call.now call.username false)))
          → P (request_relation db json_fails call w).0.store
      unfolding request_relation friend_request
      request-keeps call w p h =
          unless_err-same P w.store (get_username db json_fails call.relation_id w).1 _
            (get_username-store call.relation_id w) p
            (λ w1 e.
              update_both-keeps call _ _ w1 _ (rw e (h _))
                (λ w2 p2. send-keeps call 200 call.relation_id _ _ w2 p2 (json-keeps _)))

      -- A request whose relation's name is asked for without an error.
      pub request_named-keeps :
          (call : Call) (name : Bytes) (w w' : World S)
          → get_username db json_fails call.relation_id w ≡ (name, (w', false))
          → P (
              both db w'.store call.user_id call.relation_id
                (request_columns call.now name true)
                (request_columns call.now call.username false))
          → P (request_relation db json_fails call w).0.store
      unfolding request_relation friend_request
      request_named-keeps call name w w' e p = rw e (
          update_both-keeps call _ _ w' _ p
            (λ w2 p2. send-keeps call 200 call.relation_id _ _ w2 p2 (json-keeps _)))

      pub remove-keeps :
          (call : Call) (w : World S)
          → P (both db w.store call.user_id call.relation_id remove_columns remove_columns)
          → P (remove_relation db json_fails call w).0.store
      unfolding remove_relation relation_remove ok status_json
      remove-keeps call w p =
          update_both-keeps call _ _ w _ p
            (λ w2 p2. send-keeps call 202 call.relation_id _ _ w2 p2 (λ w3 p3. json-keeps _ _ p3))

      -- The acceptance with a chain that is inserted first.
      pub accept_new-keeps :
          (call : Call) (s : S) (w : World S)
          → w.store ≡ s
          → (let t = (db.insert_users s call.time_uuid (call.user_id ∷ call.relation_id ∷ [])).0 in
              P (
                both db t call.user_id call.relation_id
                  (accept_columns call.time_uuid call.now)
                  (accept_columns call.time_uuid call.now)))
          → P
              (unless_err
                (insert_chains_users db json_fails call.time_uuid
                  (call.user_id ∷ call.relation_id ∷ [])
                  w)
                (accept_with db json_fails call call.time_uuid)).0.store
      unfolding insert_chains_users
      accept_new-keeps call s w e p =
          rw (works.inserts w.store call.time_uuid (call.user_id ∷ call.relation_id ∷ []))
            (accept_with-keeps call call.time_uuid _ (rw e p))

      -- An acceptance takes the chain that it found or, if it found none, a new one.
      pub accept-keeps :
          (has_time : ℕ → Bool) (call : Call) (w : World S)
          → (db.chain_of w.store call.user_id call.relation_id ≡ failed → P w.store)
          → ((chain : ℕ)
              → db.chain_of w.store call.user_id call.relation_id ≡ found chain
              → has_time chain ≡ true
              → P (
                  both db w.store call.user_id call.relation_id
                    (accept_columns chain call.now)
                    (accept_columns chain call.now)))
          → (Chainless has_time (db.chain_of w.store call.user_id call.relation_id)
              → let s =
                  (db.insert_users w.store call.time_uuid
                    (call.user_id ∷ call.relation_id ∷ [])).0 in
                P (
                  both db s call.user_id call.relation_id
                    (accept_columns call.time_uuid call.now)
                    (accept_columns call.time_uuid call.now)))
          → P (accept_relation db json_fails has_time call w).0.store
      unfolding accept_relation check_existing_relation_chain
      accept-keeps has_time call w p h k =
          elim (Answer-cases (db.chain_of w.store call.user_id call.relation_id)) [
            | inl (chain, e) ↦ elim (Bool-cases (has_time chain)) [
              | inl t ↦
                  rw (check_existing_relation_chain, e, t)
                    (accept_with-keeps call chain w (h chain e t))
              | inr t ↦
                  rw (check_existing_relation_chain, e, t)
                    (accept_new-keeps call w.store w refl (k (inr (inr (chain, e, t)))))
            ]
            | inr (inl e) ↦
                rw (check_existing_relation_chain, e)
                  (accept_new-keeps call w.store w refl (k (inl e)))
            | inr (inr e) ↦
                rw (check_existing_relation_chain, e)
                  (unless_err-same P w.store (internal_error json_fails w) _ (error-store w) (p e)
                    (λ w1 e1. accept_new-keeps call w.store w1 e1 (k (inr (inl e)))))
          ]
