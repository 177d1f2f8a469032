-- ===== src/Tests/WebSocketTests.antt =====
-- One websocket connection (socket/websocket.go). A sample message is its operation, its timestamp
-- and its signature, one byte each.
use mathlib.Core.List.{Perm}
use mathlib.Core.List.Perm
use project_h_server.Prelude.{
  pos, ℕ, ◌≡◌, refl, List, [], ◌∷◌, ◌++◌, map, none, some, Bool, true, false, Bytes, codes, same,
  decimal, get_or, arith, IsSorted, if◌then◌else◌, ◌==◌,
}
use project_h_server.Socket.{
  Sockets, returns, get_shard, create_connection, add_user_session, remove_user_session, send,
}
use project_h_server.Socket.{panics as send_panics}
use project_h_server.Socket.Run.{adds, step, run as run_calls, init, run-init-IsSound}
use project_h_server.WebSocket.{Json}
use project_h_server.WebSocket.Receiver.{Out, message, Receiver, goes_on, earlier, key_of, receive}
use project_h_server.WebSocket.Receiver.Laws.{state, IsConsistent}
use project_h_server.WebSocket.Receiver.Run.{arrives, gate, run, Grows, run-Grows}
use project_h_server.WebSocket.Receiver.Flush.{flush_lem}
use project_h_server.WebSocket.Receiver.Order.{Writes, run-Writes}
use project_h_server.WebSocket.Client.{ClientJson, text, other_err, sends, dispatch, client_loop}
use project_h_server.WebSocket.Client.Session.{
  count_given_up, acknowledge_lost, client_loop-gives_up,
}
use project_h_server.WebSocket.Auth.{Jwt, claims, expired, Round, auth_client}
use project_h_server.WebSocket.Auth.Tries.{IsFinal, auth_client-IsFinal}
use project_h_server.WebSocket.Connect.{
  connect_user, on_added, after_connect, new_state, serves, leaves,
}
use project_h_server.Wire.{byte_to_params_and_payload}
use project_h_server.WebSocket.Connect.Outcomes.{send-removed}

abbrev json : Json
json = record {
  get_op = λ b. get_or b 0 0;
  get_timestamp = λ b. get_or b 1 0;
  get_signature = λ b. get_or b 2 0 ∷ [];
  get_atomic = λ b. false;
  get_chain_id = λ b. [];
  marshal_state = λ last q. none;
}

abbrev always : ℕ → Bool
always n = true

abbrev start : Receiver
start = record {
  last_timestamp = 0;
  message_queue = [];
  gate_state = 0;
  out = [];
  states = [];
  ws_closed = false;
  timers = 0;
}

-- A message of the operation 200 at the time 5 is queued, and the gate is open.
abbrev sample : Bytes
sample = 200 ∷ 5 ∷ 65 ∷ []

abbrev opened : Receiver
opened = record start {
  last_timestamp = 5;
  message_queue = (codes "A5", sample) ∷ [];
  gate_state = 1;
}

opened-IsConsistent : IsConsistent json opened
unfolding key_of decimal
opened-IsConsistent = ((refl, omega arith), tt)

run-Grows_example : Grows json always opened (
    state (
      run json always
        (arrives [] (0 ∷ codes "A5") ∷ gate 0 ∷ arrives [] (100 ∷ 200 ∷ 9 ∷ 66 ∷ []) ∷ [])
        opened))
run-Grows_example =
    run-Grows json always
      (arrives [] (0 ∷ codes "A5") ∷ gate 0 ∷ arrives [] (100 ∷ 200 ∷ 9 ∷ 66 ∷ []) ∷ []) opened
      opened-IsConsistent

flush_lem_example :
    (ms : List Bytes) × (receive json always (sample ∷ []) (0 ∷ codes "FLUSH") opened
      ≡ goes_on (record opened { out = [] ++ map message ms }))
    × Perm ms (sample ∷ [])
    × IsSorted (earlier json) ms
flush_lem_example = flush_lem json always (sample ∷ []) opened (λ n. refl) (Perm.refl (sample ∷ []))

-- One message that is later than the latest timestamp, and one that is not.
run-Writes_example :
    (r' : Receiver) × (os : List Out) × (run json always
        (map (λ p. arrives [] (100 ∷ p)) ((200 ∷ 9 ∷ 66 ∷ []) ∷ (200 ∷ 7 ∷ 67 ∷ []) ∷ []))
        opened
      ≡ goes_on r')
    × Writes json opened ((200 ∷ 9 ∷ 66 ∷ []) ∷ (200 ∷ 7 ∷ 67 ∷ []) ∷ []) r' os
run-Writes_example =
    run-Writes json always (λ n. refl) [] ((200 ∷ 9 ∷ 66 ∷ []) ∷ (200 ∷ 7 ∷ 67 ∷ []) ∷ []) opened
      refl

-- A client's message is its operation and, for an acknowledgement, the signature.
abbrev client_json : ClientJson
client_json = record {
  client_op = λ b. get_or b 0 0;
  ack_signature = λ b. get_or b 1 0 ∷ [];
  ack_timestamp = λ b. pos 5;
}

acknowledge_lost_example :
    (msg : Bytes) × (dispatch client_json (1007 ∷ 65 ∷ []) ≡ sends msg ∷ [])
    × (receive json always [] msg opened ≡ goes_on opened)
acknowledge_lost_example =
    acknowledge_lost client_json json always [] (1007 ∷ 65 ∷ []) opened refl opened-IsConsistent

client_loop-gives_up_example :
    count_given_up (client_loop client_json (text (1006 ∷ []) ∷ other_err ∷ [])).0
    ≡ (if (client_loop client_json (text (1006 ∷ []) ∷ other_err ∷ [])).1 then 1 else 0)
client_loop-gives_up_example = client_loop-gives_up client_json (text (1006 ∷ []) ∷ other_err ∷ [])

-- A token is its first byte.
abbrev parse : Bytes → Jwt
parse t = if get_or t 0 0 == 1 then claims (codes "u") (codes "d") else expired

abbrev round : Bytes → Round
round token = record {
  request_ok = true;
  deadline_ok = true;
  reply = some (record { op = 1001; token = token; prev_id = [] });
}

auth_client-IsFinal_example :
    IsFinal parse
      (round (2 ∷ []))
      (round (1 ∷ []))
      (auth_client parse (round (2 ∷ []) ∷ round (1 ∷ []) ∷ []))
auth_client-IsFinal_example = auth_client-IsFinal parse (round (2 ∷ [])) (round (1 ∷ [])) []

-- A client is served after a refusal, unless the first write to it fails.
refused_test :
    (after_connect true (connect_user (λ b. new_state) [] ((20 ∷ codes "0") ∷ [])) ≡ serves true)
    × (after_connect false (connect_user (λ b. new_state) [] ((20 ∷ codes "0") ∷ [])) ≡ leaves)
unfolding connect_user on_added same byte_to_params_and_payload after_connect
refused_test = (refl, refl)

-- One session, under the id "A".
abbrev first_byte : Bytes → ℕ
first_byte b = get_or b 0 0

abbrev one_session : Sockets
one_session = run_calls first_byte (adds (codes "u") (codes "d") (some (codes "A") ∷ []) ∷ []) init

send-removed_example :
    (t : Sockets) × (remove_user_session first_byte (codes "u") (codes "d") (codes "A") one_session
      ≡ returns tt t)
    × (t.table (get_shard first_byte (codes "A")) (codes "A") ≡ none)
    × (send 0 (0 ∷ codes "FLUSH") t ≡ send_panics t)
unfolding run_calls step add_user_session create_connection same
send-removed_example =
    send-removed first_byte one_session (codes "u") (codes "d") (codes "A") (0 ∷ codes "FLUSH") 0
      (run-init-IsSound first_byte (adds (codes "u") (codes "d") (some (codes "A") ∷ []) ∷ [])) refl
      refl
