-- ===== src/WebSocket/Client.antt =====
-- The read loop of `ClientSocket`, after the client is connected, and `send_comm_msg`. What
-- `ws.SetReadDeadline` and `ws.ReadMessage` return is an argument, one value for each round.
pub mod Session
use project_h_server.Prelude.{
  ℕ, suc, zero, List, [], ◌∷◌, ◌++◌, Option, none, some, Bool, true, false, ◌==◌, if◌then◌else◌,
  Bytes, codes, decimal, ℤ, pos, negsuc,
}

-- `strconv.FormatInt(n, 10)`.
unfoldable pub format_int : ℤ → Bytes
format_int (pos n) = decimal n
format_int (negsuc n) = 45 ∷ decimal (suc n)

-- What jsoniter reads in a client's message: its `Op`, and the `ack_data` of its `Data`.
pub record ClientJson : Type 0 where
  pub client_op : Bytes → ℕ
  pub ack_signature : Bytes → Bytes
  pub ack_timestamp : Bytes → ℤ

-- A round of the loop.
pub data Read : Type 0 where
  -- `SetReadDeadline` fails
  deadline_err : Read
  -- `ReadMessage` fails: with the close code 1006 or an i/o timeout, or in another way
  abnormal_err other_err : Read
  -- a binary message, a text message
  binary : Read
  text : Bytes → Read

pub data Act : Type 0 where
  -- `err_func`: the error is logged and the session removed
  on_err : Act
  -- `remove_user_session`
  removes : Act
  -- `send_comm_msg`: what goes to the message channel
  sends : Bytes → Act
  -- `atomic.StoreInt32(&gate_state, n)`
  stores_gate : ℕ → Act
  -- `write_message(ws, 1000, nil)`
  beats : Act
  -- `handleWebsocketError` with an unknown operation
  logs : Act

-- `send_comm_msg`: a byte 0 before the text.
abbrev pub comm_msg : Bytes → Act
comm_msg msg = sends (0 ∷ msg)

module _ (json : ClientJson) where
  open json use {client_op, ack_signature, ack_timestamp}

  -- The text of an acknowledgement.
  unfoldable pub ack_text : Bytes → Bytes
  ack_text b = ack_signature b ++ format_int (ack_timestamp b)

  -- The `switch` on the operation of a text message.
  unfoldable pub dispatch : Bytes → List Act
  dispatch b =
      if client_op b == 1000
      then beats ∷ []
      else if client_op b == 1005
      then stores_gate 0 ∷ []
      else if client_op b == 1006
      then comm_msg (codes "FLUSH") ∷ stores_gate 1 ∷ []
      else if client_op b == 1007
      then comm_msg (ack_text b) ∷ []
      else logs ∷ []

  -- The loop: what it does, and whether it has ended.
  unfoldable pub client_loop : List Read → List Act × Bool
  client_loop [] = ([], false)
  client_loop (deadline_err ∷ rs) = (on_err ∷ [], true)
  client_loop (abnormal_err ∷ rs) = (removes ∷ [], true)
  client_loop (other_err ∷ rs) = (comm_msg (codes "SET_TIMER") ∷ [], true)
  client_loop (binary ∷ rs) = (on_err ∷ [], true)
  client_loop (text b ∷ rs) = let rest = client_loop rs in (dispatch b ++ rest.0, rest.1)
