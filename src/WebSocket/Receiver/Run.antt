-- ===== src/WebSocket/Receiver/Run.antt =====
-- Runs of `msg_chan_recv`, interleaved with the client's stores to the gate.
use project_h_server.Prelude.{
  ℕ, ◌≤◌, ◌≡◌, inl, inr, List, [], ◌∷◌, some, Bool, false, Bytes, codes, same, arith, Bool-cases,
}
use project_h_server.WebSocket.{Json}
use project_h_server.WebSocket.Receiver.{
  Receiver, Flow, goes_on, stops, panics, key_of, control, receive,
}
use project_h_server.WebSocket.Receiver.Laws.{
  state, lookup, lookup-enqueue, IsConsistent, Keeps, Accepts, receive-cases, enqueue-Fits,
  Fits-mono, remove_nil,
}

-- What happens at the goroutine: a message arrives, with the order in which Go would range over
-- the queue, or `ClientSocket` stores to the gate.
pub data Input : Type 0 where
  arrives : List Bytes → Bytes → Input
  gate : ℕ → Input

module _ (json : Json) (write_ok : ℕ → Bool) where
  unfoldable pub run : List Input → Receiver → Flow
  run [] r = goes_on r
  run (gate n ∷ is) r = run is (record r { gate_state = n })
  run (arrives order b ∷ is) r = elim (receive json write_ok order b r) [
    | goes_on r' ↦ run is r'
    | stops r' ↦ stops r'
    | panics r' ↦ panics r'
  ]

  -- What a run preserves and how it moves on.
  pub record Grows (r r' : Receiver) : Type 0 where
    pub consistent : IsConsistent json r'
    pub later : r.last_timestamp ≤ r'.last_timestamp
    pub kept :
        (k v : Bytes)
        → lookup k r.message_queue ≡ some v
        → (v' : Bytes) × (lookup k r'.message_queue ≡ some v')

  Grows-trans : {r s t : Receiver} → Grows r s → Grows s t → Grows r t
  Grows-trans g h = record {
    consistent = h.consistent;
    later = omega (arith, g.later, h.later);
    kept = λ k v e. let (v', e') = g.kept k v e in h.kept k v' e';
  }

  Keeps-Grows : {r r' : Receiver} → IsConsistent json r → Keeps json r r' → Grows r r'
  Keeps-Grows {r} c k = record {
    consistent = rw (k.0, k.1) c;
    later = omega (arith, k.1);
    kept = λ j v e. (v, rw k.0 e);
  }

  Accepts-Grows :
      {payload : Bytes} {r r' : Receiver}
      → IsConsistent json r
      → Accepts json payload r r'
      → Grows r r'
  Accepts-Grows {payload} {r} {r'} c a = record {
    consistent = rw a.queued (
        enqueue-Fits json r'.last_timestamp payload r.message_queue (ground (arith, a.latest)) (
          Fits-mono json r.last_timestamp r'.last_timestamp r.message_queue
            (ground (arith, a.latest)) c));
    later = ground (arith, a.latest);
    kept = λ j v e. elim (Bool-cases (same (key_of json payload) j)) [
      | inl hit ↦ (
        payload,
        rw (a.queued, lookup-enqueue (key_of json payload) j payload r.message_queue, hit),
      )
      | inr miss ↦
          (v, rw (a.queued, lookup-enqueue (key_of json payload) j payload r.message_queue, miss) e)
    ];
  }

  receive-Grows :
      (order : List Bytes) (b : Bytes) (r : Receiver)
      → IsConsistent json r
      → Grows r (state (receive json write_ok order b r))
  receive-Grows order b r c = elim (receive-cases json write_ok order b r c) [
    | inl k ↦ Keeps-Grows c k
    | inr (payload, _, a) ↦ Accepts-Grows c a
  ]

  -- Whatever arrives and however the gate moves, msg_chan_recv never removes a queued message's key
  -- from the message queue, keeps each message under its own key, and never lowers the latest
  -- timestamp, which no queued message passes.
  pub run-Grows :
      (is : List Input) (r : Receiver) → IsConsistent json r → Grows r (state (run is r))
  unfolding run
  run-Grows [] r c = record { consistent = c; later = omega arith; kept = λ k v e. (v, e) }
  run-Grows (gate n ∷ is) r c =
      let g = run-Grows is (record r { gate_state = n }) c in
      record { consistent = g.consistent; later = g.later; kept = g.kept }
  run-Grows (arrives order b ∷ is) r c =
      (elim (receive json write_ok order b r)
          as (λ f.
            Grows r (state f)
            → Grows r (
                state (elim f [
                  | goes_on r' ↦ run is r'
                  | stops r' ↦ stops r'
                  | panics r' ↦ panics r'
                ]))) [
                  | goes_on r' ↦ λ g. Grows-trans g (run-Grows is r' g.consistent)
                  | stops r' ↦ λ g. g
                  | panics r' ↦ λ g. g
                ])
        (receive-Grows order b r c)

  -- An acknowledgement, or any other control text but "FLUSH" and "SET_TIMER", changes nothing.
  pub acknowledge-eq :
      (order : List Bytes) (text : Bytes) (r : Receiver)
      → IsConsistent json r
      → same text (codes "FLUSH") ≡ false
      → same text (codes "SET_TIMER") ≡ false
      → receive json write_ok order (0 ∷ text) r ≡ goes_on r
  unfolding receive control
  acknowledge-eq order text r c a b = rw (a, b, remove_nil json r.last_timestamp r.message_queue c)
