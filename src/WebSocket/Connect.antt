-- ===== src/WebSocket/Connect.antt =====
-- `connect_user`, and what `ClientSocket` does around it: the router's answers to the new session
-- are read from the session's message channel, here the list of the messages that come.
pub mod Outcomes
use project_h_server.Prelude.{
  ℕ, suc, zero, List, [], ◌∷◌, Option, none, some, Bool, true, false, ◌==◌, not, if◌then◌else◌,
  Bytes, codes, same, get_or,
}
use project_h_server.Wire.{Parsed, ParseError, byte_to_params_and_payload}
use project_h_server.WebSocket.Receiver.{Queue}

-- `ws_state`; the map is nil at first.
pub record WsState : Type 0 where
  pub last_timestamp : ℕ
  pub queue : Option Queue

-- What `connect_user` returns, beside the channel and the id: `removed` is whether `err_func` was
-- called, which removes the session.
pub record Connected : Type 0 where
  pub prev_state : WsState
  pub refresh : Bool
  pub removed : Bool

pub data ConnectEnd : Type 0 where
  connected : Connected → ConnectEnd
  -- the channel has no message yet
  waits : ConnectEnd
  -- a message of no bytes, or nil from a closed channel
  panics : ConnectEnd

abbrev pub new_state : WsState
new_state = record { last_timestamp = 0; queue = none }

-- An early return, after `err_func`.
abbrev pub fails : ConnectEnd
fails = connected (record { prev_state = new_state; refresh = true; removed = true })

-- The last lines: a nil map is made.
abbrev pub or_make : Option Queue → Option Queue
or_make none = some []
or_make (some q) = some q

abbrev pub succeeds : WsState → Bool → ConnectEnd
succeeds s refresh = connected (record {
  prev_state = record s { queue = or_make s.queue };
  refresh = refresh;
  removed = false;
})

-- The answer to a new session, operation 20.
unfoldable pub on_added : Bytes → ConnectEnd
on_added [] = panics
on_added (op ∷ b) =
    let parsed = byte_to_params_and_payload b 1 false in
    if not (op == 20) then fails else elim parsed.err [
      | some e ↦ fails
      | none ↦
          if same (get_or parsed.param 0 []) (codes "1") then succeeds new_state true else fails
    ]

module _ (unmarshal : Bytes → WsState) where
  -- The previous state, operation 31; `unmarshal` is what jsoniter leaves in `prev_state`, whose
  -- error is only logged.
  unfoldable pub on_prev_state : Bytes → ConnectEnd
  on_prev_state [] = panics
  on_prev_state (op ∷ b) =
      let parsed = byte_to_params_and_payload b 1 true in
      if not (op == 31) then fails else elim parsed.err [
        | some e ↦ fails
        | none ↦
            if same (get_or parsed.param 0 []) (codes "1")
            then succeeds (unmarshal parsed.payload) false
            else succeeds new_state true
      ]

  abbrev pub wait_prev_state : List Bytes → ConnectEnd
  wait_prev_state [] = waits
  wait_prev_state (b ∷ bs) = on_prev_state b

  -- The answer to a recovered session, operation 21; the previous state follows a "1".
  unfoldable pub on_recovered : Bytes → List Bytes → ConnectEnd
  on_recovered [] bs = panics
  on_recovered (op ∷ b) bs =
      let parsed = byte_to_params_and_payload b 1 false in
      if not (op == 21) then fails else elim parsed.err [
        | some e ↦ fails
        | none ↦
            if same (get_or parsed.param 0 []) (codes "1")
            then wait_prev_state bs
            else succeeds new_state true
      ]

  unfoldable pub connect_user : Bytes → List Bytes → ConnectEnd
  connect_user prev_id [] = waits
  connect_user prev_id (b ∷ bs) = if same prev_id [] then on_added b else on_recovered b bs

-- What `ClientSocket` does next.
pub data Next : Type 0 where
  -- `write_message(ws, 1002, …)` with `Refresh`, and then the read loop
  serves : (refresh : Bool) → Next
  -- `err_func`, which removes the session, and the handler returns
  leaves : Next
  -- the goroutine waits, or the program panics
  hangs crashes : Next

-- `write_ok`: whether that first write succeeds.
unfoldable pub after_connect : (write_ok : Bool) → ConnectEnd → Next
after_connect write_ok (connected c) = if write_ok then serves c.refresh else leaves
after_connect write_ok waits = hangs
after_connect write_ok panics = crashes
