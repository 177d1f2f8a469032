-- ===== src/Tests/SocketTests.antt =====
-- The table of websocket ids (socket/socket.go, socket/socket_op.go).
use project_h_server.Prelude.{
  ℕ, ◌≡◌, ◌≢◌, refl, List, [], ◌∷◌, Option, none, some, Bytes, codes, same,
}
use project_h_server.Socket.{
  Sockets, returns, blocked, create_connection, delete_connection, deliver, make_chan, store,
}
use project_h_server.Socket.Invariant.{IsSound}
use project_h_server.Socket.Run.{
  Call, adds, recovers, removes, message, run, init, run-init-IsSound,
}
use project_h_server.Socket.Delivery.{deliver-create}
use project_h_server.Socket.Locked.{create_keeps_lock}

-- A hash that tells short ids apart by their first byte.
abbrev first_byte : Bytes → ℕ
first_byte [] = 0
first_byte (c ∷ s) = c

abbrev calls : List Call
calls =
    adds (codes "u") (codes "d") (some (codes "A") ∷ [])
    ∷ recovers (codes "v") (codes "e") (codes "x") (some (codes "A") ∷ some (codes "B") ∷ [])
    ∷ message 50 (codes "A:hi")
    ∷ removes (codes "u") (codes "d") (codes "A")
    ∷ []

run-init-IsSound_example : IsSound (run first_byte calls init)
run-init-IsSound_example = run-init-IsSound first_byte calls

deliver-create_example :
    (t : Sockets) × (u : Sockets) × (create_connection first_byte (some (codes "A") ∷ []) init
      ≡ returns (some (codes "A", 0)) t)
    × (deliver first_byte (codes "A") (100 ∷ codes "x") t ≡ returns tt u)
    × ((u.chans 0).buffer ≡ (100 ∷ codes "x") ∷ [])
    × ((c : ℕ) → c ≢ 0 → u.chans c ≡ init.chans c)
deliver-create_example = deliver-create first_byte (codes "A") [] init 100 (codes "x") refl refl

-- The id "A" is in use.
abbrev used : Sockets
used = store 1 (codes "A") (some 0) (make_chan init)

create_keeps_lock_example :
    (t : Sockets) × (create_connection first_byte (some (codes "A") ∷ none ∷ []) used
      ≡ returns none t)
    × (delete_connection first_byte (codes "A") (run first_byte calls t)
        ≡ blocked (run first_byte calls t))
    × ((op : ℕ) (b : Bytes)
        → deliver first_byte (codes "A") (op ∷ b) (run first_byte calls t)
          ≡ blocked (run first_byte calls t))
    × ((more : List (Option Bytes))
        → create_connection first_byte (some (codes "A") ∷ more) (run first_byte calls t)
          ≡ blocked (make_chan (run first_byte calls t)))
unfolding same
create_keeps_lock_example =
    create_keeps_lock first_byte (codes "A") (codes "A") 0 [] used calls refl refl refl
