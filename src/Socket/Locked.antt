-- ===== src/Socket/Locked.antt =====
-- A shard that stays locked.
use project_h_server.Prelude.{
  ℕ, ◌≡◌, ◌≢◌, inl, inr, List, [], ◌∷◌, Option, none, some, true, false, Bytes, Bool-cases,
  Option-cases, get_or, arith,
}
use project_h_server.Wire.{byte_to_params_and_payload}
use project_h_server.Socket.{
  Sockets, Outcome, returns, blocked, panics, make_chan, lock, hand_over, created, removed,
  create_loop, close_chan, send, reply_absent, get_prev_state, get_shard, create_connection,
  delete_connection, add_user_session, recover_user_session, remove_user_session, deliver,
  socket_op,
}
use project_h_server.Socket.Invariant.{state}
use project_h_server.Socket.Run.{Call, adds, recovers, removes, message, step, run}

module _ (k : ℕ) where
  -- A call never unlocks the shard.
  abbrev Stays : Sockets → Sockets → Type 0
  Stays s t = s.locked k ≡ true → t.locked k ≡ true

  create_loop-Stays :
      (ids : List (Option Bytes)) (id : Bytes) (c k' : ℕ) (s : Sockets)
      → k ≢ k'
      → Stays s (state (create_loop id c k' ids s))
  unfolding create_loop
  create_loop-Stays [] id c k' s other l = ground (arith, other, l)
  create_loop-Stays (none ∷ ids) id c k' s other l = ground (arith, other, l)
  create_loop-Stays (some id' ∷ ids) id c k' s other l =
      ground (arith, other, l, create_loop-Stays ids id' c k' s other l)

  created-Stays :
      (s : Sockets) (o : Outcome (Option (Bytes × ℕ))) (op : ℕ) (params : Option Bytes → List Bytes)
      → Stays s (state o)
      → Stays s (state (created o (λ id. hand_over op none (params id))))
  created-Stays s (returns none t) op params h l = h l
  created-Stays s (returns (some (id, c)) t) op params h l = h l
  created-Stays s (blocked t) op params h l = h l
  created-Stays s (panics t) op params h l = h l

  removed-Stays :
      (s : Sockets) (o : Outcome (Unit {0})) (params : List Bytes)
      → Stays s (state o)
      → Stays s (state (removed o (hand_over 22 none params)))
  removed-Stays s (returns x t) params h l = h l
  removed-Stays s (blocked t) params h l = h l
  removed-Stays s (panics t) params h l = h l

  send-Stays : (c : ℕ) (b : Bytes) (s : Sockets) → Stays s (state (send c b s))
  unfolding send
  send-Stays c b s l = ground (arith, l)

  reply-Stays : (op : ℕ) (b : Bytes) (s : Sockets) → Stays s (reply_absent op b s)
  unfolding reply_absent get_prev_state
  reply-Stays op b s l = ground (arith, l)

  module _ (hash : Bytes → ℕ) where
    create-Stays :
        (ids : List (Option Bytes)) (s : Sockets) → Stays s (state (create_connection hash ids s))
    unfolding create_connection
    create-Stays [] s l = l
    create-Stays (none ∷ ids) s l = l
    create-Stays (some id ∷ ids) s l = elim (Bool-cases (s.locked (get_shard hash id))) [
      | inl e ↦ ground (arith, e, l)
      | inr e ↦
          let other : k ≢ get_shard hash id = λ p. ground (arith, p, l, e) in
          rw (create_connection, e)
            (create_loop-Stays ids id s.next_chan (get_shard hash id)
              (lock (get_shard hash id) (make_chan s)) other (ground (arith, l)))
    ]

    delete-Stays : (id : Bytes) (s : Sockets) → Stays s (state (delete_connection hash id s))
    unfolding delete_connection close_chan
    delete-Stays id s l = ground (arith, l)

    deliver-Stays : (id b : Bytes) (s : Sockets) → Stays s (state (deliver hash id b s))
    unfolding deliver
    deliver-Stays id [] s l = l
    deliver-Stays id (op ∷ b) s l = elim (Option-cases (s.table (get_shard hash id) id)) [
      | inl e ↦ ground (arith, l, e, reply-Stays op b s l)
      | inr (c, e) ↦ ground (arith, l, e, send-Stays c (op ∷ b) s l)
    ]

    socket_op-Stays : (op : ℕ) (b : Bytes) (s : Sockets) → Stays s (state (socket_op hash op b s))
    unfolding socket_op
    socket_op-Stays op b s l =
        let parsed = byte_to_params_and_payload b 1 true in
        ground (arith, l, deliver-Stays (get_or parsed.param 0 []) parsed.payload s l)

    step-Stays : (c : Call) (s : Sockets) → Stays s (step hash c s)
    unfolding step add_user_session recover_user_session remove_user_session
    step-Stays (adds u d ids) s =
        created-Stays s (create_connection hash ids s) 20 _ (create-Stays ids s)
    step-Stays (recovers u d p ids) s =
        created-Stays s (create_connection hash ids s) 21 _ (create-Stays ids s)
    step-Stays (removes u d id) s =
        removed-Stays s (delete_connection hash id s) _ (delete-Stays id s)
    step-Stays (message op b) s = socket_op-Stays op b s

    run-Stays : (cs : List Call) (s : Sockets) → Stays s (run hash cs s)
    unfolding run
    run-Stays [] s l = l
    run-Stays (c ∷ cs) s l = run-Stays cs (step hash c s) (step-Stays c s l)

-- Every call for an id of a locked shard waits.
locked_waits :
    (hash : Bytes → ℕ) (id : Bytes) (u : Sockets)
    → u.locked (get_shard hash id) ≡ true
    → (delete_connection hash id u ≡ blocked u)
      × ((op : ℕ) (b : Bytes) → deliver hash id (op ∷ b) u ≡ blocked u)
      × ((more : List (Option Bytes))
          → create_connection hash (some id ∷ more) u ≡ blocked (make_chan u))
unfolding delete_connection deliver create_connection
locked_waits hash id u e = (ground (arith, e), λ op b. ground (arith, e), λ more. ground (arith, e))

-- When the first generated id is in use and the next generation fails, create_connection returns
-- with the shard locked; and after any calls that follow, every delivery of a message that is not
-- empty and every removal for an id of that shard, and every creation whose first generated id is
-- of that shard, wait for ever.
pub create_keeps_lock :
    (hash : Bytes → ℕ) (id id' : Bytes) (c : ℕ) (ids : List (Option Bytes)) (s : Sockets)
    (cs : List Call)
    → s.locked (get_shard hash id) ≡ false
    → s.table (get_shard hash id) id ≡ some c
    → get_shard hash id' ≡ get_shard hash id
    → (t : Sockets) × (create_connection hash (some id ∷ none ∷ ids) s ≡ returns none t)
      × (delete_connection hash id' (run hash cs t) ≡ blocked (run hash cs t))
      × ((op : ℕ) (b : Bytes) → deliver hash id' (op ∷ b) (run hash cs t) ≡ blocked (run hash cs t))
      × ((more : List (Option Bytes))
          → create_connection hash (some id' ∷ more) (run hash cs t)
            ≡ blocked (make_chan (run hash cs t)))
unfolding create_connection
create_keeps_lock hash id id' c ids s cs free used e =
    let t = lock (get_shard hash id) (make_chan s) in
    let k : t.locked (get_shard hash id') ≡ true = ground (arith, e) in
    let w = locked_waits hash id' (run hash cs t) (run-Stays (get_shard hash id') hash cs t k) in
    (t, unfold create_loop in ground (arith, free, used), w.0, w.1, w.2)
