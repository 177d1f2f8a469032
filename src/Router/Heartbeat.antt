-- ===== src/Router/Heartbeat.antt =====
-- The heartbeats of a router connection: `heartbeat_worker` and `heartbeat_check` of
-- socket/socket_client.go and messages/api_client.go. A time is a number of nanoseconds, an event
-- of the `select` is a value, and a run is the list of the events in their order.
pub mod OnTime
use project_h_server.Prelude.{
  ℕ, suc, zero, ◌+◌, ◌%◌, ◌/◌, ◌^◌, ◌<◌, ◌≡◌, List, [], ◌∷◌, ◌++◌, Option, none, some, Bool, true,
  false, Bytes, length, drop, ltb, ◌==◌, if◌then◌else◌, be32, from_be, arith,
}

-- `HEARTBEAT_INTERVAL`, ten seconds.
abbrev pub interval : ℕ
interval = 10000000000

-- `binary.BigEndian.PutUint64`.
unfoldable pub be64 : ℕ → Bytes
unfolding be32
be64 n = be32 (n / 2 ^ 32) ++ be32 n

-- `write_b` of the socket server: 13 bytes of body.
unfoldable pub socket_beat : ℕ → ℕ → ℕ → Bytes
socket_beat ver expected received = 1 ∷ 0 ∷ 0 ∷ 0 ∷ 13 ∷ ver ∷ be64 expected ++ be32 received

-- `write_b` of the API server: 9 bytes of body.
unfoldable pub api_beat : ℕ → ℕ → Bytes
api_beat ver expected = 1 ∷ 0 ∷ 0 ∷ 0 ∷ 9 ∷ ver ∷ be64 expected

-- One round of the worker, as its environment has it: the clock, the counter `received`, and
-- whether `conn.Write` succeeds.
pub record Round : Type 0 where
  pub now : ℕ
  pub received : ℕ
  pub written : Bool

pub data WorkerAct : Type 0 where
  -- a frame is written
  write : Bytes → WorkerAct
  -- the timer that sends `ver` on `timeout_chan` is started
  timer : (ver : ℕ) → WorkerAct
  -- `handle_conn_err` is called, and the worker returns
  conn_err : WorkerAct

-- What the worker does in each round, from the version `ver` on. The version is a byte.
unfoldable pub socket_worker : ℕ → List Round → List WorkerAct
socket_worker ver [] = []
socket_worker ver (r ∷ rs) =
    let rest = socket_worker ((ver + 1) % 256) rs in
    let frame = socket_beat ver (r.now + interval) r.received in
    if r.written then write frame ∷ timer ver ∷ rest else write frame ∷ conn_err ∷ []

unfoldable pub api_worker : ℕ → List Round → List WorkerAct
api_worker ver [] = []
api_worker ver (r ∷ rs) =
    let rest = api_worker ((ver + 1) % 256) rs in
    let frame = api_beat ver (r.now + interval) in
    if r.written then write frame ∷ timer ver ∷ rest else write frame ∷ conn_err ∷ []

pub data CheckEvent : Type 0 where
  -- a value on `heartbeat_chan`: the body of a frame with operation 1, nil if it is empty
  beat : Option Bytes → CheckEvent
  -- `heartbeat_chan` is closed
  chan_closed : CheckEvent
  -- a version on `timeout_chan`
  timeout : ℕ → CheckEvent

pub data Check : Type 0 where
  -- the loop goes on with this `heartbeat_ver`
  running : ℕ → Check
  -- the loop returned, as the channel is closed
  quit : Check
  -- `handle_conn_err` was called
  mismatch timed_out : Check
  -- an index out of range
  panicked : Check

-- One round of the `select` of the socket server.
unfoldable pub socket_check : ℕ → CheckEvent → Check
socket_check ver (beat none) = panicked
socket_check ver (beat (some [])) = panicked
socket_check ver (beat (some (v ∷ b))) = if v == ver then running ((ver + 1) % 256) else mismatch
socket_check ver chan_closed = quit
socket_check ver (timeout v) = if v == ver then timed_out else running ver

-- The API server reads `b[1:5]` as well.
unfoldable pub api_check : ℕ → CheckEvent → Check
api_check ver (beat none) = panicked
api_check ver (beat (some [])) = panicked
api_check ver (beat (some (v ∷ b))) =
    if v == ver
    then (if ltb (length b) 4 then panicked else running ((ver + 1) % 256))
    else mismatch
api_check ver chan_closed = quit
api_check ver (timeout v) = if v == ver then timed_out else running ver

-- The loop, over one round's step.
unfoldable pub check_loop : (ℕ → CheckEvent → Check) → ℕ → List CheckEvent → Check
check_loop step ver [] = running ver
check_loop step ver (e ∷ es) = elim (step ver e) [
  | running v ↦ check_loop step v es
  | other ↦ other
]
