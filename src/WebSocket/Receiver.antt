-- ===== src/WebSocket/Receiver.antt =====
-- `msg_chan_recv`: what the goroutine does with each message of its channel. The message queue is
-- a Go map, here an association list; the order in which Go ranges over it is an argument of each
-- step. A control message begins with the byte 0, a message of the router with its operation.
pub mod Laws
pub mod Run
pub mod Flush
pub mod Gate
pub mod Order
use project_h_server.Prelude.{
  ℕ, suc, zero, ◌+◌, List, [], ◌∷◌, ◌++◌, map, Option, none, some, Bool, true, false, not, ◌&&◌,
  ◌==◌, ltb, leb, length, if◌then◌else◌, Bytes, codes, same, get_or, sort, decimal,
}
use project_h_server.Wire.{Parsed, ParseError, byte_to_params_and_payload}
use project_h_server.WebSocket.{Json}

-- What is written to the websocket.
pub data Out : Type 0 where
  -- a queued message as it came
  message : Bytes → Out
  -- `write_message(ws, 3101, nil)`
  refresh_relations : Out
  -- `write_message(ws, 3102, …)` with its `ChainID`
  refresh_chain : Bytes → Out

abbrev pub Queue : Type 0
Queue = List (Bytes × Bytes)

-- The goroutine's variables, the gate that it shares with `ClientSocket`, what it wrote to the
-- websocket, the states that it handed to `get_prev_state`, and whether it closed the websocket.
pub record Receiver : Type 0 where
  pub last_timestamp : ℕ
  pub message_queue : Queue
  pub gate_state : ℕ
  pub out : List Out
  pub states : List (Bytes × Bytes × Option Bytes)
  pub ws_closed : Bool
  pub timers : ℕ

-- How a step ends: the loop goes on, the goroutine returns, or it panics.
pub data Flow : Type 0 where
  goes_on stops panics : Receiver → Flow

-- `message_queue[key] = payload`, and `delete(message_queue, key)`.
unfoldable pub enqueue : Bytes → Bytes → Queue → Queue
enqueue key payload [] = (key, payload) ∷ []
enqueue key payload ((k, v) ∷ q) =
    if same k key then (key, payload) ∷ q else (k, v) ∷ enqueue key payload q

unfoldable pub remove : Bytes → Queue → Queue
remove key [] = []
remove key ((k, v) ∷ q) = let rest = remove key q in if same k key then rest else (k, v) ∷ rest

abbrev pub values : Queue → List Bytes
values = map λ e. e.1

abbrev pub write : Out → Receiver → Receiver
write o r = record r { out = r.out ++ o ∷ [] }

abbrev pub close_ws : Receiver → Receiver
close_ws r = record r { ws_closed = true }

module _ (json : Json) where
  open json use {get_op, get_timestamp, get_signature, get_atomic, get_chain_id, marshal_state}

  -- The comparison of `sort.Slice`.
  abbrev pub earlier : Bytes → Bytes → Bool
  earlier a b = ltb (get_timestamp a) (get_timestamp b)

  -- The loop of "FLUSH" over the sorted messages; `write_ok n` is whether the `n`-th write to the
  -- websocket succeeds.
  unfoldable pub write_all : (ℕ → Bool) → List Bytes → Receiver → Flow
  write_all write_ok [] r = goes_on r
  write_all write_ok (m ∷ ms) r =
      let rest = write_all write_ok ms (write (message m) r) in
      if write_ok (length r.out) then rest else stops (write (message m) r)

  -- The case "FLUSH"; `order` is the order in which Go ranges over the values of the queue.
  unfoldable pub flush : (ℕ → Bool) → List Bytes → Receiver → Flow
  flush write_ok order r =
      if length r.message_queue == 0 then goes_on r else write_all write_ok (sort earlier order) r

  -- A control message. An acknowledgement falls under `default`, where the variable `msg`, which
  -- is never assigned, names the key to delete.
  unfoldable pub control : (ℕ → Bool) → List Bytes → Bytes → Receiver → Flow
  control write_ok order text r =
      if same text (codes "FLUSH")
      then flush write_ok order r
      else if same text (codes "SET_TIMER")
      then goes_on (record r { timers = suc r.timers })
      else goes_on (record r { message_queue = remove [] r.message_queue })

  -- `msg_chan_recv_err`, which only logs and closes the websocket: its callers go on.
  abbrev pub on_error : Option ParseError → Receiver → Receiver
  on_error none r = r
  on_error (some e) r = close_ws r

  abbrev pub on_marshal : Option Bytes → Receiver → Receiver
  on_marshal (some state) r = r
  on_marshal none r = close_ws r

  -- Operation 30: the state goes to another server, and the websocket is closed.
  unfoldable pub hand_over_state : Bytes → Receiver → Receiver
  hand_over_state b r =
      let parsed = byte_to_params_and_payload b 2 false in
      let state = marshal_state r.last_timestamp r.message_queue in
      let r' = on_marshal state (on_error parsed.err r) in
      close_ws (record r' {
        states = r'.states ++ (get_or parsed.param 0 [], get_or parsed.param 1 [], state) ∷ [];
      })

  -- The key of a message in the queue.
  unfoldable pub key_of : Bytes → Bytes
  key_of payload = get_signature payload ++ decimal (get_timestamp payload)

  -- A message that comes too late while the gate is open: the client is told to refresh.
  unfoldable pub refuse : Bytes → Receiver → Receiver
  refuse payload r =
      let op = get_op payload in
      if leb 200 op && ltb op 300
      then write refresh_relations r
      else if leb 300 op && ltb op 400
      then write (refresh_chain (get_chain_id payload)) r
      else r

  -- A message that is queued: `last_timestamp` is the latest timestamp.
  unfoldable pub accept : Bytes → Receiver → Receiver
  accept payload r =
      let time = get_timestamp payload in
      record r {
        last_timestamp = if ltb r.last_timestamp time then time else r.last_timestamp;
        message_queue = enqueue (key_of payload) payload r.message_queue;
      }

  -- Whether the message is refused.
  unfoldable pub too_late : Bytes → Receiver → Bool
  too_late payload r =
      (leb (get_timestamp payload) r.last_timestamp && not (get_atomic payload))
      && r.gate_state == 1

  -- Operation 100: a message for the client.
  unfoldable pub on_message : (ℕ → Bool) → Bytes → Receiver → Flow
  on_message write_ok payload r =
      let r' = accept payload r in
      if too_late payload r
      then goes_on (refuse payload r)
      else if r.gate_state == 1
      then (if write_ok (length r'.out)
          then goes_on (write (message payload) r')
          else stops (close_ws (write (message payload) r')))
      else goes_on r'

  -- One round of the loop with the message `b`: its first byte decides.
  unfoldable pub receive : (ℕ → Bool) → List Bytes → Bytes → Receiver → Flow
  receive write_ok order [] r = panics r
  receive write_ok order (op ∷ b) r =
      if op == 0
      then control write_ok order b r
      else if op == 30
      then goes_on (hand_over_state b r)
      else if op == 32
      then goes_on (close_ws r)
      else if op == 100
      then on_message write_ok (byte_to_params_and_payload b 0 true).payload r
      else goes_on r
