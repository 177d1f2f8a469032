-- ===== src/Router/Recovery.antt =====
-- The start and the recovery of a router connection: `connect_new_socket`, `recover_socket`,
-- `handle_conn_err` and `socket_write` of socket/socket_client.go; `connect_new_api`,
-- `recover_api` and `api_write_message` of messages/api_client.go differ in names only.
-- The network's answers are arguments: the outcome of each dial, write and read.
pub mod Attempts
use project_h_server.Prelude.{
  ℕ, suc, zero, ◌+◌, List, [], ◌∷◌, Option, none, some, Bool, true, false, ◌==◌, not, if◌then◌else◌,
  Bytes, codes, same,
}
use project_h_server.Wire.{package_op}

-- One pass through the body of the loop in `recover_socket`: what the network answers.
-- `answered op flag` is `res_b[0]` and `res_b[5]`.
pub data Attempt : Type 0 where
  dial_failed write_failed read_failed : Attempt
  answered : (op flag : ℕ) → Attempt

pub data RecoverAct : Type 0 where
  -- `log_err`
  logged : RecoverAct
  -- `connect_new_socket` with the connection id "nil"; the loop goes on when it returns
  connects_anew : RecoverAct

-- How the loop ends.
pub data Recovery : Type 0 where
  -- `read_tcp` runs on the new connection
  reads : Recovery
  -- `log.Panicln`
  gave_up : Recovery
  -- the network has not answered yet
  waiting : Recovery

-- Whether the attempt ends the loop by `break`.
unfoldable pub restored : Attempt → Bool
restored (answered op flag) = if op == 3 then not (flag == b'0') else false
restored a = false

-- What a failed attempt does before `continue`.
unfoldable pub failure : Attempt → RecoverAct
failure (answered op flag) = if op == 3 then connects_anew else logged
failure a = logged

abbrev pub add_act : RecoverAct → List RecoverAct × Recovery → List RecoverAct × Recovery
add_act a (acts, r) = (a ∷ acts, r)

-- The loop of `recover_socket`, with the counter `i`.
unfoldable pub recover_loop : ℕ → List Attempt → List RecoverAct × Recovery
recover_loop i [] = if i == 3 then ([], gave_up) else ([], waiting)
recover_loop i (a ∷ ats) =
    let rest = recover_loop (suc i) ats in
    if i == 3 then ([], gave_up) else if restored a then ([], reads) else add_act (failure a) rest

-- `MAX_RETRIES`.
abbrev pub max_retries : ℕ
max_retries = 3

-- The outcome of one `conn.Write`: its error may be temporary.
pub data Write : Type 0 where
  written temporary permanent : Write

-- The loop of `socket_write` on a connection that is not nil: the number of calls of `conn.Write`,
-- and the error that is left.
-- `left` counts the rounds that are left; `last` is the last error, nil at first.
unfoldable pub write_loop : ℕ → Write → (ℕ → Write) → ℕ → ℕ × Write
write_loop zero last net calls = (calls, last)
write_loop (suc left) last net calls =
    let again = write_loop left temporary net (suc calls) in
    elim (net calls) [
      | written ↦ (suc calls, written)
      | temporary ↦ again
      | permanent ↦ (suc calls, permanent)
    ]

-- How `socket_write` returns: without a connection, or with the error of its loop.
pub data Sent : Type 0 where
  no_connection : Sent
  sent : Write → Sent

-- The number of calls of `conn.Write`, and the result; `connected` is whether the connection is
-- not nil. Only the error of the loop goes to `handle_conn_err`.
unfoldable pub socket_write : (connected : Bool) → (ℕ → Write) → ℕ × Sent
unfolding write_loop
socket_write connected net =
    let (calls, last) = write_loop max_retries written net 0 in
    if connected then (calls, sent last) else (0, no_connection)

-- A `router_conn_obj`: its address, and the flag that `recover_socket` reads.
pub record ConnObj : Type 0 where
  pub addr : ℕ
  pub recovering : Bool

-- The objects by their references, and the table `router_conns.conns` by address.
pub record Conns : Type 0 where
  pub obj : ℕ → ConnObj
  pub conns : ℕ → Option ℕ

abbrev pub mark : (ℕ → ConnObj) → ℕ → ℕ → ConnObj
mark obj r r' = if r' == r then record (obj r) { recovering = true } else obj r'

abbrev pub mark_registered : Conns → Option ℕ → Conns
mark_registered s none = s
mark_registered s (some r) = record s { obj = mark s.obj r }

-- The part of `recover_socket` under the lock: `true` if the loop is entered.
unfoldable pub enter_recovery : ℕ → Conns → Conns × Bool
enter_recovery r s =
    if (s.obj r).recovering then (s, false) else (mark_registered s (s.conns (s.obj r).addr), true)

-- `read_tcp` registers its connection.
unfoldable pub register : ℕ → Conns → Conns
register r s = record s { conns = λ a. if a == (s.obj r).addr then some r else s.conns a }

-- `writer := *(router_conn_obj_ptr)(…)`: `socket_write` copies the registered object into a new one.
unfoldable pub copy_obj : ℕ → ℕ → Conns → Conns
copy_obj r fresh s = record s { obj = λ r'. if r' == fresh then s.obj r else s.obj r' }

-- What `connect_new_socket` does with its first connection: `recover_socket` returns before the
-- connection that was refused is read.
pub data ConnectAct : Type 0 where
  recovers reads_first : ConnectAct

-- `none`: `handle_panic_err`, or its panic on the error that is nil.
unfoldable pub connect_new_socket : Attempt → Option (List ConnectAct)
connect_new_socket (answered op flag) =
    if op == 2
    then some (if flag == b'0' then recovers ∷ reads_first ∷ [] else reads_first ∷ [])
    else none
connect_new_socket a = none
