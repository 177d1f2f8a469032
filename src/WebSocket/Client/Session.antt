-- ===== src/WebSocket/Client/Session.antt =====
-- A session is given up once, and acknowledgements reach the message queue as no operation.
use project_h_server.Prelude.{
  ℤ, pos, negsuc, ℕ, suc, ◌+◌, ◌≤◌, ◌≡◌, ◌≢◌, refl, ap, List, [], ◌∷◌, ◌++◌, Bool, false,
  if◌then◌else◌, Bytes, codes, same, same_iff, arith, decimal, last_byte, last_byte-decimal,
  last_byte-append-decimal,
}
use mathlib.Core.List.{append_assoc}
use project_h_server.WebSocket.{Json}
use project_h_server.WebSocket.Receiver.{Receiver, goes_on, receive}
use project_h_server.WebSocket.Receiver.Laws.{IsConsistent}
use project_h_server.WebSocket.Receiver.Run.{acknowledge-eq}
use project_h_server.WebSocket.Client.{
  format_int, ClientJson, Read, deadline_err, abnormal_err, other_err, binary, text, Act, on_err,
  removes, sends, ack_text, dispatch, client_loop,
}

-- An act that gives the session up, now or by the timer of an hour.
unfoldable pub gives_up : Act → ℕ
gives_up on_err = 1
gives_up removes = 1
gives_up (sends b) = if same b (0 ∷ codes "SET_TIMER") then 1 else 0
gives_up a = 0

abbrev pub count_given_up : List Act → ℕ
count_given_up [] = 0
count_given_up (a ∷ acts) = gives_up a + count_given_up acts

last_byte-format_int : (s : Bytes) (n : ℤ) → last_byte (s ++ format_int n) ≤ 57
unfolding format_int
last_byte-format_int s (pos n) = omega (arith, last_byte-append-decimal s n, last_byte-decimal n)
last_byte-format_int s (negsuc n) =
    rw (← append_assoc s (45 ∷ []) (decimal (suc n)))
      (omega (arith, last_byte-append-decimal (s ++ 45 ∷ []) (suc n), last_byte-decimal (suc n)))

not-same : (s t : Bytes) → last_byte s ≢ last_byte t → same s t ≡ false
not-same s t h = ground (arith, same_iff s t, λ (e : s ≡ t). h (ap last_byte e))

module _ (json : ClientJson) (b : Bytes) where
  ack_text-ne-flush : same (ack_text json b) (codes "FLUSH") ≡ false
  unfolding ack_text
  ack_text-ne-flush =
      not-same _ _
        (omega (arith, last_byte-format_int (json.ack_signature b) (json.ack_timestamp b)))

  ack_text-ne-timer : same (ack_text json b) (codes "SET_TIMER") ≡ false
  unfolding ack_text
  ack_text-ne-timer =
      not-same _ _
        (omega (arith, last_byte-format_int (json.ack_signature b) (json.ack_timestamp b)))

-- An acknowledgement, whatever its signature and timestamp, sends one message to the goroutine,
-- which leaves the goroutine's state as it was: nothing is removed from the queue.
pub acknowledge_lost :
    (cj : ClientJson) (json : Json) (write_ok : ℕ → Bool) (order : List Bytes) (b : Bytes)
    (r : Receiver)
    → cj.client_op b ≡ 1007
    → IsConsistent json r
    → (msg : Bytes) × (dispatch cj b ≡ sends msg ∷ [])
      × (receive json write_ok order msg r ≡ goes_on r)
unfolding dispatch
acknowledge_lost cj json write_ok order b r op c = (
  0 ∷ ack_text cj b,
  rw op,
  acknowledge-eq json write_ok order (ack_text cj b) r c (ack_text-ne-flush cj b)
      (ack_text-ne-timer cj b),
)

count-append :
    (xs ys : List Act) → count_given_up (xs ++ ys) ≡ count_given_up xs + count_given_up ys
count-append [] ys = omega arith
count-append (x ∷ xs) ys = omega (arith, count-append xs ys)

count-dispatch : (json : ClientJson) (b : Bytes) → count_given_up (dispatch json b) ≡ 0
unfolding dispatch gives_up same
count-dispatch json b = ground (arith, ack_text-ne-timer json b)

-- However the client behaves, its session is given up (removed, or handed to the timer) exactly
-- once if the read loop ends, and never while it goes on.
pub client_loop-gives_up :
    (json : ClientJson) (rs : List Read)
    → count_given_up (client_loop json rs).0 ≡ (if (client_loop json rs).1 then 1 else 0)
unfolding client_loop gives_up
client_loop-gives_up json [] = refl
client_loop-gives_up json (deadline_err ∷ rs) = refl
client_loop-gives_up json (abnormal_err ∷ rs) = refl
client_loop-gives_up json (other_err ∷ rs) = unfold same in refl
client_loop-gives_up json (binary ∷ rs) = refl
client_loop-gives_up json (text b ∷ rs) = omega (
  arith,
  count-append (dispatch json b) (client_loop json rs).0,
  count-dispatch json b,
  client_loop-gives_up json rs,
)
