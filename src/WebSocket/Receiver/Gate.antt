-- ===== src/WebSocket/Receiver/Gate.antt =====
-- A message of operation 100, branch by branch, and the gate that decides whether it is written.
use project_h_server.Prelude.{
  ℕ, ◌≤◌, ◌≡◌, refl, ap, List, [], ◌∷◌, ◌++◌, map, some, Bool, true, false, ◌&&◌, length, ltb, leb,
  if◌then◌else◌, Bytes, codes, same_refl, arith,
}
use project_h_server.Wire.{byte_to_params_and_payload}
use project_h_server.WebSocket.{Json}
use project_h_server.WebSocket.Receiver.{
  Out, message, refresh_relations, refresh_chain, Receiver, goes_on, key_of, refuse, accept, write,
  too_late, on_message, receive,
}
use project_h_server.WebSocket.Receiver.Laws.{lookup, lookup-enqueue}
use mathlib.Core.List.{Perm, append-nil}
use project_h_server.WebSocket.Receiver.{values}
use project_h_server.WebSocket.Receiver.Flush.{flush_lem}
use project_h_server.WebSocket.Receiver.Run.{arrives, gate, run}

-- What the client is told about a message that comes too late, by the message's operation.
unfoldable pub refusal : ℕ → Bytes → List Out
refusal op chain_id =
    if leb 200 op && ltb op 300
    then refresh_relations ∷ []
    else if leb 300 op && ltb op 400
    then refresh_chain chain_id ∷ []
    else []

module _ (json : Json) (write_ok : ℕ → Bool) (order : List Bytes) (payload : Bytes)
    (r : Receiver) where
  accept_lem :
      (lookup (key_of json payload) (accept json payload r).message_queue ≡ some payload)
      × (json.get_timestamp payload ≤ (accept json payload r).last_timestamp)
      × ((accept json payload r).out ≡ r.out)
      × ((accept json payload r).gate_state ≡ r.gate_state)
  unfolding accept
  accept_lem = (
    rw (
      lookup-enqueue (key_of json payload) (key_of json payload) payload r.message_queue,
      same_refl (key_of json payload),
    ),
    ground arith,
    refl,
    refl,
  )

  refuse_lem :
      refuse json payload r
      ≡ record r { out = r.out ++ refusal (json.get_op payload) (json.get_chain_id payload) }
  unfolding refuse refusal
  refuse_lem = ground (arith, append-nil r.out)

  -- A message that is atomic, or later than the latest timestamp, while the gate is open.
  pub receive_taken :
      too_late json payload r ≡ false
      → r.gate_state ≡ 1
      → ((n : ℕ) → write_ok n ≡ true)
      → receive json write_ok order (100 ∷ payload) r
        ≡ goes_on (write (message payload) (accept json payload r))
  unfolding receive on_message byte_to_params_and_payload
  receive_taken e g ok = rw e (ground (arith, g, ok (length (accept json payload r).out)))

  -- Any other message is neither queued nor written; the client is told to refresh its relations
  -- (operations 200 to 299) or the chain (300 to 399), and nothing else happens.
  pub receive-too_late :
      json.get_timestamp payload ≤ r.last_timestamp
      → json.get_atomic payload ≡ false
      → r.gate_state ≡ 1
      → receive json write_ok order (100 ∷ payload) r
        ≡ goes_on
            (record r { out = r.out ++ refusal (json.get_op payload) (json.get_chain_id payload) })
  unfolding receive on_message byte_to_params_and_payload
  receive-too_late le a g =
      let late : too_late json payload r ≡ true = unfold too_late in ground arith in
      rw late (ap goes_on refuse_lem)

receive_closed :
    (json : Json) (write_ok : ℕ → Bool) (order : List Bytes) (payload : Bytes) (r : Receiver)
    → r.gate_state ≡ 0
    → receive json write_ok order (100 ∷ payload) r ≡ goes_on (accept json payload r)
unfolding receive on_message byte_to_params_and_payload too_late
receive_closed json write_ok order payload r e =
    ground (arith, (accept_lem json write_ok order payload r).3)

-- `ClientSocket` sends "FLUSH" before it opens the gate. A message that the goroutine takes between
-- the two is queued, but it is not written, neither by the flush nor when the gate is open.
pub gate_race :
    (json : Json) (write_ok : ℕ → Bool) (order order' : List Bytes) (payload : Bytes) (r : Receiver)
    → r.gate_state ≡ 0
    → ((n : ℕ) → write_ok n ≡ true)
    → Perm order (values r.message_queue)
    → (ms : List Bytes) × (r' : Receiver) × Perm ms (values r.message_queue)
      × (run json write_ok
            (arrives order (0 ∷ codes "FLUSH") ∷ arrives order' (100 ∷ payload) ∷ gate 1 ∷ [])
            r
          ≡ goes_on r')
      × (r'.out ≡ r.out ++ map message ms)
      × (lookup (key_of json payload) r'.message_queue ≡ some payload)
      × (r'.gate_state ≡ 1)
unfolding run
gate_race json write_ok order order' payload r closed ok p =
    let (ms, flushed, perm, _) = flush_lem json write_ok order r ok p in
    let r1 = record r { out = r.out ++ map message ms } in
    let a = accept_lem json write_ok order payload r1 in
    (
      ms,
      record (accept json payload r1) { gate_state = 1 },
      perm,
      rw (flushed, run) (rw (receive_closed json write_ok order' payload r1 closed, run)),
      a.2,
      a.0,
      refl,
    )
