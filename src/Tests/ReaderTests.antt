-- ===== src/Tests/ReaderTests.antt =====
-- The read loop of the router's connection.
use project_h_server.Prelude.{
  ℕ, ◌≡◌, ◌<◌, ◌^◌, refl, List, [], ◌∷◌, ◌++◌, none, some, All, Bytes, codes, arith, length,
}
use project_h_server.Wire.{join, param_bytes}
use project_h_server.Router.Frame.{read_frame, read_full}
use project_h_server.Router.Reader.{
  Reader, Written, body_of, stream, serve, socket_frame, read_tcp, read_tcp-stream, api_frame,
  breaks,
}
use project_h_server.Socket.Run.{init}

abbrev first_byte : Bytes → ℕ
first_byte [] = 0
first_byte (c ∷ s) = c

abbrev start : Reader
start = record { sockets = init; received = 0; beats = [] }

-- A heartbeat, a message for the id "A", and a frame of an operation that is not known.
abbrev written : List Written
written =
    record { op = 1; params = none; payload = some (7 ∷ []) }
    ∷ record { op = 51; params = some (codes "A" ∷ []); payload = some (codes "hi") }
    ∷ record { op = 9; params = none; payload = none }
    ∷ []

-- Three bytes are no header.
abbrev rest : Bytes
rest = 1 ∷ 0 ∷ 0 ∷ []

rest_breaks : read_frame rest ≡ none
unfolding read_frame read_full
rest_breaks = refl

written_small : All (λ m. length (body_of m) < 2 ^ 32) written
unfolding param_bytes join
written_small = (omega arith, (omega arith, (omega arith, tt)))

read_tcp-stream_example :
    read_tcp (socket_frame first_byte) (stream written ++ rest) start
    ≡ serve (socket_frame first_byte) written start
read_tcp-stream_example =
    read_tcp-stream (socket_frame first_byte) rest rest_breaks written start written_small

-- The API server logs what is no heartbeat.
api_test :
    serve api_frame written (record { beats = []; logged = [] })
    ≡ breaks (record {
      beats = some (7 ∷ []) ∷ [];
      logged = record { op = 51; body = some (codes "A:hi") } ∷ record { op = 9; body = none } ∷ [];
    })
unfolding param_bytes join api_frame
api_test = refl
