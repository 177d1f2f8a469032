-- ===== src/Socket.antt =====
-- socket/socket.go and socket/socket_op.go: the sharded table from websocket ids to message
-- channels, and the delivery of the router's messages to them.
-- Channels live on a heap under a reference each; a Go map is a function into `Option`. The hash
-- (fnv1a) is a parameter, and the ids that nanoid generates are an argument.
pub mod Invariant
pub mod Run
pub mod Delivery
pub mod Locked
use project_h_server.Prelude.{
  ℕ, suc, ◌+◌, ◌%◌, ◌^◌, List, [], ◌∷◌, ◌++◌, Option, none, some, Bool, true, false, ◌&&◌, ◌||◌,
  ◌==◌, ltb, length, if◌then◌else◌, Bytes, codes, same, get_or,
}
use project_h_server.Wire.{package_op, Parsed, byte_to_params_and_payload, ParseError}

-- `CONCURRENCY`, the number of shards, and the capacity of a message channel.
abbrev pub concurrency : ℕ
concurrency = 32

abbrev pub capacity : ℕ
capacity = 4

pub record Channel : Type 0 where
  pub buffer : List Bytes
  pub closed : Bool

-- The table, the heap of channels, the mutex of each shard, and what was handed to `socket_write`:
-- the frames, in their order.
pub record Sockets : Type 0 where
  pub table : ℕ → Bytes → Option ℕ
  pub chans : ℕ → Channel
  pub next_chan : ℕ
  pub locked : ℕ → Bool
  pub sent : List Bytes

-- How a call ends: it returns, waits for ever on a mutex or a full channel, or panics.
pub data Outcome (A : Type 0) : Type 0 where
  returns : A → Sockets → Outcome A
  blocked : Sockets → Outcome A
  panics : Sockets → Outcome A

abbrev pub put {ℓ} : {V : Type ℓ} → (ℕ → Bytes → V) → ℕ → Bytes → V → ℕ → Bytes → V
put m k id v k' id' = if (k' == k) && same id' id then v else m k' id'

abbrev pub put_at {ℓ} : {V : Type ℓ} → (ℕ → V) → ℕ → V → ℕ → V
put_at m c v c' = if c' == c then v else m c'

-- A frame handed to `socket_write`; its result is ignored by every caller here.
abbrev pub hand_over : ℕ → Option Bytes → List Bytes → Sockets → Sockets
hand_over op payload params s = record s {
  sent = s.sent ++ package_op op (some params) payload ∷ [];
}

-- `make(chan []byte, 4)`: a new channel, at the reference `next_chan`.
abbrev pub make_chan : Sockets → Sockets
make_chan s = record s {
  chans = put_at s.chans s.next_chan (record { buffer = []; closed = false });
  next_chan = suc s.next_chan;
}

abbrev pub lock : ℕ → Sockets → Sockets
lock k s = record s { locked = put_at s.locked k true }

abbrev pub unlock : ℕ → Sockets → Sockets
unlock k s = record s { locked = put_at s.locked k false }

abbrev pub store : ℕ → Bytes → Option ℕ → Sockets → Sockets
store k id c s = record s { table = put s.table k id c }

-- The loop of `create_connection` for the channel `c`, in the shard `k` that it holds locked,
-- with the ids that nanoid generates from now on. An error of nanoid is `none`: it returns with
-- the shard still locked. With no ids left the generator has not returned yet.
unfoldable pub create_loop :
    Bytes → ℕ → ℕ → List (Option Bytes) → Sockets → Outcome (Option (Bytes × ℕ))
create_loop id c k [] s = elim (s.table k id) [
  | none ↦ returns (some (id, c)) (unlock k (store k id (some c) s))
  | some _ ↦ blocked s
]
create_loop id c k (none ∷ ids) s = elim (s.table k id) [
  | none ↦ returns (some (id, c)) (unlock k (store k id (some c) s))
  | some _ ↦ returns none s
]
create_loop id c k (some id' ∷ ids) s =
    let again = create_loop id' c k ids s in
    elim (s.table k id) [
      | none ↦ returns (some (id, c)) (unlock k (store k id (some c) s))
      | some _ ↦ again
    ]

-- `close(msg_chan)`, which panics on a closed channel.
unfoldable pub close_chan : Option ℕ → Sockets → Outcome (Unit {0})
close_chan none s = returns tt s
close_chan (some c) s =
    if (s.chans c).closed
    then panics s
    else returns tt (record s { chans = put_at s.chans c (record (s.chans c) { closed = true }) })

abbrev pub created :
    Outcome (Option (Bytes × ℕ)) → (Option Bytes → Sockets → Sockets) → Outcome (Option (Bytes × ℕ))
created (returns none s) f = returns none (f none s)
created (returns (some (id, c)) s) f = returns (some (id, c)) (f (some id) s)
created (blocked s) f = blocked s
created (panics s) f = panics s

abbrev pub removed : Outcome (Unit {0}) → (Sockets → Sockets) → Outcome (Unit {0})
removed (returns _ s) f = returns tt (f s)
removed (blocked s) f = blocked s
removed (panics s) f = panics s

-- The id in a message: `""` if there is none.
abbrev pub or_empty : Option Bytes → Bytes
or_empty none = []
or_empty (some id) = id

unfoldable pub get_prev_state : Bytes → Bytes → Bool → Option Bytes → Sockets → Sockets
get_prev_state new_sock_id new_ws_id success state =
    hand_over 30 state (new_sock_id ∷ new_ws_id ∷ (if success then codes "1" else codes "0") ∷ [])

-- `shard.table[id] <- payload`.
unfoldable pub send : ℕ → Bytes → Sockets → Outcome (Unit {0})
send c payload s =
    if (s.chans c).closed
    then panics s
    else if ltb (length (s.chans c).buffer) capacity
    then returns tt (record s {
      chans = put_at s.chans c (record (s.chans c) { buffer = (s.chans c).buffer ++ payload ∷ [] });
    })
    else blocked s

-- No channel for the id: only a request for the previous state (31) is answered, by a failure.
unfoldable pub reply_absent : ℕ → Bytes → Sockets → Sockets
unfolding get_prev_state
reply_absent op b s =
    let parsed = byte_to_params_and_payload b 2 false in
    if op == 31
    then elim parsed.err [
      | none ↦
          get_prev_state (get_or parsed.param 0 []) (get_or parsed.param 1 []) false
            (some (codes "{}")) s
      | some _ ↦ s
    ]
    else s

module _ (hash : Bytes → ℕ) where
  -- `get_shard`.
  abbrev pub get_shard : Bytes → ℕ
  get_shard id = hash id % concurrency

  -- `none` is the result `"", nil`.
  unfoldable pub create_connection : List (Option Bytes) → Sockets → Outcome (Option (Bytes × ℕ))
  unfolding create_loop
  create_connection [] s = blocked (make_chan s)
  create_connection (none ∷ ids) s = returns none (make_chan s)
  create_connection (some id ∷ ids) s =
      let k = get_shard id in
      if s.locked k
      then blocked (make_chan s)
      else create_loop id s.next_chan k ids (lock k (make_chan s))

  unfoldable pub delete_connection : Bytes → Sockets → Outcome (Unit {0})
  unfolding close_chan
  delete_connection id s =
      let k = get_shard id in
      if s.locked k then blocked s else close_chan (s.table k id) (store k id none s)

  unfoldable pub add_user_session :
      Bytes → Bytes → List (Option Bytes) → Sockets → Outcome (Option (Bytes × ℕ))
  unfolding create_connection
  add_user_session user_id session_id ids s =
      created (create_connection ids s)
        λ id. hand_over 20 none (user_id ∷ session_id ∷ or_empty id ∷ [])

  unfoldable pub recover_user_session :
      Bytes → Bytes → Bytes → List (Option Bytes) → Sockets → Outcome (Option (Bytes × ℕ))
  unfolding create_connection
  recover_user_session user_id session_id prev_id ids s =
      created (create_connection ids s)
        λ id. hand_over 21 none (user_id ∷ session_id ∷ or_empty id ∷ prev_id ∷ [])

  unfoldable pub remove_user_session : Bytes → Bytes → Bytes → Sockets → Outcome (Unit {0})
  unfolding delete_connection
  remove_user_session user_id session_id id s =
      removed (delete_connection id s) (hand_over 22 none (user_id ∷ session_id ∷ id ∷ []))

  -- The payload for the id: its first byte is read before anything else.
  unfoldable pub deliver : Bytes → Bytes → Sockets → Outcome (Unit {0})
  unfolding send reply_absent
  deliver id [] s = panics s
  deliver id (op ∷ b) s =
      let k = get_shard id in
      if s.locked k then blocked s else elim (s.table k id) [
        | some c ↦ send c (op ∷ b) s
        | none ↦ returns tt (reply_absent op b s)
      ]

  -- `socket_op`, but for the counter `received`. A body that does not parse is only logged.
  unfoldable pub socket_op : ℕ → Bytes → Sockets → Outcome (Unit {0})
  unfolding deliver
  socket_op op b s =
      let parsed = byte_to_params_and_payload b 1 true in
      if op == 50 || op == 51
      then elim parsed.err [
        | none ↦ deliver (get_or parsed.param 0 []) parsed.payload s
        | some _ ↦ returns tt s
      ]
      else returns tt s

-- `received`, a `uint32`: reset by a heartbeat (1), raised by an operation 51.
unfoldable pub count_received : ℕ → ℕ → ℕ
count_received op received =
    if op == 1 then 0 else if op == 51 then (received + 1) % 2 ^ 32 else received
