-- ===== src/Socket/Run.antt =====
-- Histories of calls on the table of websocket ids.
use project_h_server.Prelude.{ℕ, refl, List, [], ◌∷◌, Option, none, some, false, Bytes, arith}
use project_h_server.Socket.{
  Sockets, Outcome, returns, blocked, panics, hand_over, created, removed, or_empty,
  create_connection, delete_connection, add_user_session, recover_user_session, remove_user_session,
  socket_op,
}
use project_h_server.Socket.Invariant.{
  IsSound, IsSound-Same, state, create_connection-IsSound, delete_connection-IsSound,
  socket_op-IsSound,
}

-- The calls of the goroutines on the table, in the order in which they happen.
pub data Call : Type 0 where
  adds : (user_id session_id : Bytes) → List (Option Bytes) → Call
  recovers : (user_id session_id prev_id : Bytes) → List (Option Bytes) → Call
  removes : (user_id session_id id : Bytes) → Call
  message : (op : ℕ) → Bytes → Call

-- A goroutine that is blocked leaves the others running.
unfoldable pub step : (Bytes → ℕ) → Call → Sockets → Sockets
step hash (adds u d ids) s = state (add_user_session hash u d ids s)
step hash (recovers u d p ids) s = state (recover_user_session hash u d p ids s)
step hash (removes u d id) s = state (remove_user_session hash u d id s)
step hash (message op b) s = state (socket_op hash op b s)

unfoldable pub run : (Bytes → ℕ) → List Call → Sockets → Sockets
run hash [] s = s
run hash (c ∷ cs) s = run hash cs (step hash c s)

-- The table at the start of the program.
abbrev pub init : Sockets
init = record {
  table = λ k id. none;
  chans = λ c. record { buffer = []; closed = false };
  next_chan = 0;
  locked = λ k. false;
  sent = [];
}

init-IsSound : IsSound init
init-IsSound = record {
  live = λ k id c h. absurd (cc);
  apart = λ k k' id id' c h h'. absurd (cc);
  bounded = λ c. omega arith;
}

created-IsSound :
    (o : Outcome (Option (Bytes × ℕ))) (op : ℕ) (params : Option Bytes → List Bytes)
    → IsSound (state o)
    → IsSound (state (created o (λ id. hand_over op none (params id))))
created-IsSound (returns none s) op params v = IsSound-Same (refl, refl, refl) v
created-IsSound (returns (some (id, c)) s) op params v = IsSound-Same (refl, refl, refl) v
created-IsSound (blocked s) op params v = v
created-IsSound (panics s) op params v = v

removed-IsSound :
    (o : Outcome (Unit {0})) (params : List Bytes)
    → IsSound (state o)
    → IsSound (state (removed o (hand_over 22 none params)))
removed-IsSound (returns x s) params v = IsSound-Same (refl, refl, refl) v
removed-IsSound (blocked s) params v = v
removed-IsSound (panics s) params v = v

removes-IsSound :
    (hash : Bytes → ℕ) (u d id : Bytes) (s : Sockets)
    → IsSound s
    → IsSound (state (remove_user_session hash u d id s))
unfolding remove_user_session
removes-IsSound hash u d id s v =
    removed-IsSound (delete_connection hash id s) (u ∷ d ∷ id ∷ [])
      (delete_connection-IsSound hash s v id)

-- Every call keeps the table sound.
pub step-IsSound : (hash : Bytes → ℕ) (c : Call) (s : Sockets) → IsSound s → IsSound (step hash c s)
unfolding step add_user_session recover_user_session
step-IsSound hash (adds u d ids) s v =
    created-IsSound (create_connection hash ids s) 20 (λ id. u ∷ d ∷ or_empty id ∷ [])
      (create_connection-IsSound hash s v ids)
step-IsSound hash (recovers u d p ids) s v =
    created-IsSound (create_connection hash ids s) 21 (λ id. u ∷ d ∷ or_empty id ∷ p ∷ [])
      (create_connection-IsSound hash s v ids)
step-IsSound hash (removes u d id) s v = removes-IsSound hash u d id s v
step-IsSound hash (message op b) s v = socket_op-IsSound hash s v op b

-- After any history of calls from the empty table, whatever the hash and the generated ids are,
-- two entries of the table never share a channel, no channel in the table is closed, and no
-- channel holds more messages than its capacity.
pub run-IsSound :
    (hash : Bytes → ℕ) (cs : List Call) (s : Sockets) → IsSound s → IsSound (run hash cs s)
unfolding run
run-IsSound hash [] s v = v
run-IsSound hash (c ∷ cs) s v = run-IsSound hash cs (step hash c s) (step-IsSound hash c s v)

-- After any history of calls from the empty table, whatever the hash and the generated ids, two
-- entries of the table share no channel, no channel in it is closed, and no channel holds more
-- messages than its capacity.
pub run-init-IsSound : (hash : Bytes → ℕ) (cs : List Call) → IsSound (run hash cs init)
run-init-IsSound hash cs = run-IsSound hash cs init init-IsSound
