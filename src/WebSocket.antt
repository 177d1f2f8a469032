-- ===== src/WebSocket.antt =====
-- socket/websocket.go: one websocket connection. `Receiver` is the goroutine `msg_chan_recv`,
-- `Client` the read loop of `ClientSocket`, `Auth` is `auth_client`, `Connect` is `connect_user`.
-- What jsoniter reads in a message, and what it writes, are parameters.
pub mod Receiver
pub mod Client
pub mod Auth
pub mod Connect
use project_h_server.Prelude.{ℕ, Bool, List, Option, Bytes}

-- `jsoniter.Get(b, …)` on a message, and `jsoniter.Marshal` of a `ws_state`: `none` is its error.
pub record Json : Type 0 where
  pub get_op : Bytes → ℕ
  pub get_timestamp : Bytes → ℕ
  pub get_signature : Bytes → Bytes
  pub get_atomic : Bytes → Bool
  pub get_chain_id : Bytes → Bytes
  pub marshal_state : ℕ → List (Bytes × Bytes) → Option Bytes
