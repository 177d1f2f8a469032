-- ===== src/Socket/Delivery.antt =====
-- Where a message goes.
use project_h_server.Prelude.{
  ℕ, ◌≡◌, ◌∙◌, ◌≢◌, List, [], ◌∷◌, Option, none, some, false, Bytes, same_refl, arith,
}
use project_h_server.Socket.{
  Sockets, returns, put_at, make_chan, lock, unlock, store, create_loop, get_shard,
  create_connection, deliver,
}

create_loop_absent :
    (ids : List (Option Bytes)) (id : Bytes) (c k : ℕ) (s : Sockets)
    → s.table k id ≡ none
    → create_loop id c k ids s ≡ returns (some (id, c)) (unlock k (store k id (some c) s))
unfolding create_loop
create_loop_absent [] id c k s e = rw (e, create_loop)
create_loop_absent (none ∷ ids) id c k s e = rw (e, create_loop)
create_loop_absent (some id' ∷ ids) id c k s e = rw (e, create_loop)

create_first :
    (hash : Bytes → ℕ) (id : Bytes) (ids : List (Option Bytes)) (s : Sockets)
    → s.locked (get_shard hash id) ≡ false
    → create_connection hash (some id ∷ ids) s
      ≡ create_loop id s.next_chan (get_shard hash id) ids (lock (get_shard hash id) (make_chan s))
unfolding create_connection
create_first hash id ids s free = rw free

-- In a shard that is not locked, a session whose first generated id is not in use gets a new
-- channel, and a message for the id, not empty, goes to that channel and to no other.
pub deliver-create :
    (hash : Bytes → ℕ) (id : Bytes) (ids : List (Option Bytes)) (s : Sockets) (op : ℕ) (b : Bytes)
    → s.locked (get_shard hash id) ≡ false
    → s.table (get_shard hash id) id ≡ none
    → (t : Sockets) × (u : Sockets) × (create_connection hash (some id ∷ ids) s
        ≡ returns (some (id, s.next_chan)) t)
      × (deliver hash id (op ∷ b) t ≡ returns tt u)
      × ((u.chans s.next_chan).buffer ≡ (op ∷ b) ∷ [])
      × ((c : ℕ) → c ≢ s.next_chan → u.chans c ≡ s.chans c)
unfolding deliver
deliver-create hash id ids s op b free absent = (
  opened,
  record opened {
    chans = put_at opened.chans s.next_chan (record { buffer = (op ∷ b) ∷ []; closed = false });
  },
  create_first hash id ids s free
      ∙ create_loop_absent ids id s.next_chan k (lock k (make_chan s)) absent,
  ground (arith, same_refl id),
  ground arith,
  λ c other. ground arith,
)
  where
    k : ℕ
    k = get_shard hash id

    opened : Sockets
    opened = unlock k (store k id (some s.next_chan) (lock k (make_chan s)))

-- An id that is in use, and then a new one of another shard: the connection is entered in the
-- shard of the first id, so nothing is ever delivered under the id that was returned.
pub create_wrong_shard :
    (hash : Bytes → ℕ) (id id' : Bytes) (c : ℕ) (ids : List (Option Bytes)) (s : Sockets)
    → s.locked (get_shard hash id) ≡ false
    → s.table (get_shard hash id) id ≡ some c
    → s.table (get_shard hash id) id' ≡ none
    → get_shard hash id' ≢ get_shard hash id
    → s.table (get_shard hash id') id' ≡ none
    → (t : Sockets) × (create_connection hash (some id ∷ some id' ∷ ids) s
        ≡ returns (some (id', s.next_chan)) t)
      × (t.table (get_shard hash id') id' ≡ none)
unfolding create_loop
create_wrong_shard hash id id' c ids s free used fits apart absent = (
  unlock k (store k id' (some s.next_chan) (lock k (make_chan s))),
  create_first hash id (some id' ∷ ids) s free ∙ next,
  ground arith,
)
  where
    k : ℕ
    k = get_shard hash id

    next :
        create_loop id s.next_chan k (some id' ∷ ids) (lock k (make_chan s))
        ≡ returns
            (some (id', s.next_chan))
            (unlock k (store k id' (some s.next_chan) (lock k (make_chan s))))
    next =
        rw (used, create_loop)
          (create_loop_absent ids id' s.next_chan k (lock k (make_chan s)) fits)
