-- ===== src/Router/Reader.antt =====
-- The loop of `read_tcp`: socket/socket_client.go hands the frames on to the table of ids,
-- messages/api_client.go only logs them. The connection is the bytes that still arrive before it
-- breaks.
use project_h_server.Prelude.{
  ℕ, zero, suc, ◌≡◌, ◌≤◌, ◌<◌, ◌^◌, refl, ap, ◌∙◌, List, [], ◌∷◌, ◌++◌, Option, none, some, ◌==◌,
  Bytes, length, length-append, All, arith, if◌then◌else◌,
}
use mathlib.Core.List.{append_assoc}
use project_h_server.Wire.{or_nil, param_bytes, package_op}
use project_h_server.Router.Frame.{Frame, read_frame, as_body, read_frame-package_op}
use project_h_server.Socket.{Sockets, Outcome, returns, blocked, panics, socket_op, count_received}

-- Where the loop is after a frame: it goes on, waits for ever, or the program is over; or the
-- connection is broken, and `handle_conn_err` follows.
pub data Reading (X : Type 0) : Type 0 where
  goes_on waits crashes breaks : X → Reading X

abbrev pub onward : {X : Type 0} → Reading X → (X → Reading X) → Reading X
onward (goes_on x) k = k x
onward (waits x) k = waits x
onward (crashes x) k = crashes x
onward (breaks x) k = breaks x

unfoldable pub read_loop : {X : Type 0} → (Frame → X → Reading X) → ℕ → Bytes → X → Reading X
read_loop handle zero b x = breaks x
read_loop handle (suc fuel) b x = elim (read_frame b) [
  | none ↦ breaks x
  | some (f, rest) ↦ onward (handle f x) (read_loop handle fuel rest)
]

-- Every frame takes a byte at least.
unfoldable pub read_tcp : {X : Type 0} → (Frame → X → Reading X) → Bytes → X → Reading X
unfolding read_loop
read_tcp handle b x = read_loop handle (length b) b x

-- What the socket server's loop works on: the table, the counter `received`, and what was handed
-- to `heartbeat_check`, which takes it.
pub record Reader : Type 0 where
  pub sockets : Sockets
  pub received : ℕ
  pub beats : List (Option Bytes)

abbrev pub after_op : Outcome (Unit {0}) → (Sockets → Reader) → Reading Reader
after_op (returns x s) k = goes_on (k s)
after_op (blocked s) k = waits (k s)
after_op (panics s) k = crashes (k s)

unfoldable pub socket_frame : (Bytes → ℕ) → Frame → Reader → Reading Reader
unfolding socket_op count_received
socket_frame hash f r =
    if f.op == 1
    then goes_on (record r { received = 0; beats = r.beats ++ f.body ∷ [] })
    else after_op (socket_op hash f.op (or_nil f.body) r.sockets)
        (λ s. record r { sockets = s; received = count_received f.op r.received })

-- The API server's loop: the heartbeats, and the frames that are logged.
pub record ApiReader : Type 0 where
  pub beats : List (Option Bytes)
  pub logged : List Frame

unfoldable pub api_frame : Frame → ApiReader → Reading ApiReader
api_frame f r =
    if f.op == 1
    then goes_on (record r { beats = r.beats ++ f.body ∷ [] })
    else goes_on (record r { logged = r.logged ++ f ∷ [] })

-- What `package_op` is asked to write.
pub record Written : Type 0 where
  pub op : ℕ
  pub params : Option (List Bytes)
  pub payload : Option Bytes

abbrev pub body_of : Written → Bytes
body_of m = param_bytes m.params m.payload ++ or_nil m.payload

abbrev pub frame_of : Written → Frame
frame_of m = record { op = m.op; body = as_body (body_of m) }

abbrev pub stream : List Written → Bytes
stream [] = []
stream (m ∷ ms) = package_op m.op m.params m.payload ++ stream ms

-- The frames one after the other, without their bytes.
abbrev pub serve : {X : Type 0} → (Frame → X → Reading X) → List Written → X → Reading X
serve handle [] x = breaks x
serve handle (m ∷ ms) x = onward (handle (frame_of m) x) (serve handle ms)

onward-ap :
    {X : Type 0} (r : Reading X) (f g : X → Reading X)
    → ((x : X) → f x ≡ g x)
    → onward r f ≡ onward r g
onward-ap (goes_on x) f g h = h x
onward-ap (waits x) f g h = refl
onward-ap (crashes x) f g h = refl
onward-ap (breaks x) f g h = refl

length-package_op : (m : Written) → 0 < length (package_op m.op m.params m.payload)
unfolding package_op
length-package_op m = omega arith

module _ {X : Type 0} (handle : Frame → X → Reading X) (broken : Bytes)
    (over : read_frame broken ≡ none) where
  read_loop-stream :
      (ms : List Written) (fuel : ℕ) (x : X)
      → All (λ m. length (body_of m) < 2 ^ 32) ms
      → length (stream ms) ≤ fuel
      → read_loop handle fuel (stream ms ++ broken) x ≡ serve handle ms x
  unfolding read_loop
  read_loop-stream [] zero x small h = refl
  read_loop-stream [] (suc fuel) x small h = rw (read_loop, over) refl
  read_loop-stream (m ∷ ms) zero x small h = absurd (
      omega (
        arith,
        h,
        length-package_op m,
        length-append (package_op m.op m.params m.payload) (stream ms),
      ))
  read_loop-stream (m ∷ ms) (suc fuel) x small h =
      let p = package_op m.op m.params m.payload in
      let whole =
        ap read_frame (append_assoc p (stream ms) broken)
        ∙ read_frame-package_op m.op m.params m.payload (stream ms ++ broken) small.0 in
      rw (read_loop, whole)
        (onward-ap (handle (frame_of m) x) _ _ (λ y.
          read_loop-stream ms fuel y small.1
            (omega (arith, h, length-package_op m, length-append p (stream ms)))))

  -- From a connection that carries frames of package_op with bodies shorter than 2 ^ 32 bytes, and
  -- then breaks off within or before a header or within a body, read_tcp does what its handler does
  -- for one frame after the other, in their order, whatever the handler.
  pub read_tcp-stream :
      (ms : List Written) (x : X)
      → All (λ m. length (body_of m) < 2 ^ 32) ms
      → read_tcp handle (stream ms ++ broken) x ≡ serve handle ms x
  unfolding read_tcp
  read_tcp-stream ms x small =
      read_loop-stream ms (length (stream ms ++ broken)) x small
        (omega (arith, length-append (stream ms) broken))
