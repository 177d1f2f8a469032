-- ===== src/WebSocket/Receiver/Laws.antt =====
-- The message queue and the latest timestamp over a run of `msg_chan_recv`.
use project_h_server.Prelude.{
  ℕ, ◌≤◌, ◌≡◌, refl, ap, ◌≢◌, ◌⊎◌, inl, inr, List, [], ◌∷◌, ◌++◌, Option, none, some, Bool, true,
  false, ◌==◌, ltb, length, if◌then◌else◌, Bytes, codes, same, same_iff, ==_iff, All, arith,
  Bool-cases, decimal-ne-nil,
}
use project_h_server.Wire.{byte_to_params_and_payload}
use project_h_server.WebSocket.{Json}
use project_h_server.WebSocket.Receiver.{
  message, Queue, Receiver, Flow, goes_on, stops, panics, enqueue, remove, write, write_all, flush,
  control, hand_over_state, key_of, refuse, accept, too_late, on_message, receive,
}

-- The state in which a step leaves the goroutine.
abbrev pub state : Flow → Receiver
state (goes_on r) = r
state (stops r) = r
state (panics r) = r

unfoldable pub lookup : Bytes → Queue → Option Bytes
lookup key [] = none
lookup key ((k, v) ∷ q) = if same k key then some v else lookup key q

pub lookup-enqueue :
    (key j payload : Bytes) (q : Queue)
    → lookup j (enqueue key payload q) ≡ (if same key j then some payload else lookup j q)
unfolding lookup enqueue
lookup-enqueue key j payload [] = refl
lookup-enqueue key j payload ((k, v) ∷ q) =
    ground (arith, lookup-enqueue key j payload q, same_iff k key, same_iff key j, same_iff k j)

module _ (json : Json) where
  -- Every message stands under its own key, and none is later than `last_timestamp`.
  abbrev pub Fits : ℕ → Bytes × Bytes → Type 0
  Fits last e = (e.0 ≡ key_of json e.1) × (json.get_timestamp e.1 ≤ last)

  abbrev pub IsConsistent : Receiver → Type 0
  IsConsistent r = All (Fits r.last_timestamp) r.message_queue

  append-ne-nil : (s t : Bytes) → t ≢ [] → s ++ t ≢ []
  append-ne-nil [] t h = h
  append-ne-nil (c ∷ s) t h = λ e. cc

  key_of-ne-nil : (payload : Bytes) → key_of json payload ≢ []
  unfolding key_of
  key_of-ne-nil payload =
      append-ne-nil (json.get_signature payload) _ (decimal-ne-nil (json.get_timestamp payload))

  pub remove_nil : (last : ℕ) (q : Queue) → All (Fits last) q → remove [] q ≡ q
  unfolding remove
  remove_nil last [] h = refl
  remove_nil last ((k, v) ∷ q) h =
      ground (arith, remove_nil last q h.1, same_iff k [], key_of-ne-nil v)

  pub enqueue-Fits :
      (last : ℕ) (payload : Bytes) (q : Queue)
      → json.get_timestamp payload ≤ last
      → All (Fits last) q
      → All (Fits last) (enqueue (key_of json payload) payload q)
  unfolding enqueue
  enqueue-Fits last payload [] le h = ((refl, le), tt)
  enqueue-Fits last payload ((k, v) ∷ q) le h = elim (Bool-cases (same k (key_of json payload))) [
    | inl e ↦ rw e ((refl, le), h.1)
    | inr e ↦ rw e (h.0, enqueue-Fits last payload q le h.1)
  ]

  pub Fits-mono : (m n : ℕ) (q : Queue) → m ≤ n → All (Fits m) q → All (Fits n) q
  Fits-mono m n [] le h = tt
  Fits-mono m n ((k, v) ∷ q) le h = ((h.0.0, omega (arith, h.0.1)), Fits-mono m n q le h.1)

  -- The step leaves the queue and the latest timestamp alone.
  abbrev pub Keeps : Receiver → Receiver → Type 0
  Keeps r r' = (r'.message_queue ≡ r.message_queue) × (r'.last_timestamp ≡ r.last_timestamp)

  write_all-Keeps :
      (write_ok : ℕ → Bool) (ms : List Bytes) (r : Receiver)
      → Keeps r (state (write_all json write_ok ms r))
  unfolding write_all
  write_all-Keeps write_ok [] r = (refl, refl)
  write_all-Keeps write_ok (m ∷ ms) r = elim (Bool-cases (write_ok (length r.out))) [
    | inl e ↦ rw e (write_all-Keeps write_ok ms (write (message m) r))
    | inr e ↦ rw e (refl, refl)
  ]

  flush-Keeps :
      (write_ok : ℕ → Bool) (order : List Bytes) (r : Receiver)
      → Keeps r (state (flush json write_ok order r))
  unfolding flush
  flush-Keeps write_ok order r = elim (Bool-cases (length r.message_queue == 0)) [
    | inl e ↦ rw e (refl, refl)
    | inr e ↦ rw e (write_all-Keeps write_ok _ r)
  ]

  control-Keeps :
      (write_ok : ℕ → Bool) (order : List Bytes) (text : Bytes) (r : Receiver)
      → IsConsistent r
      → Keeps r (state (control json write_ok order text r))
  unfolding control
  control-Keeps write_ok order text r c = elim (Bool-cases (same text (codes "FLUSH"))) [
    | inl e ↦ rw e (flush-Keeps write_ok order r)
    | inr e ↦ rw e (elim (Bool-cases (same text (codes "SET_TIMER"))) [
      | inl e' ↦ rw e' (refl, refl)
      | inr e' ↦ rw e' (remove_nil r.last_timestamp r.message_queue c, refl)
    ])
  ]

  hand_over_state-Keeps : (b : Bytes) (r : Receiver) → Keeps r (hand_over_state json b r)
  unfolding hand_over_state
  hand_over_state-Keeps b r = ground arith

  refuse-Keeps : (payload : Bytes) (r : Receiver) → Keeps r (refuse json payload r)
  unfolding refuse
  refuse-Keeps payload r = ground arith

  -- What an accepted message leaves.
  pub record Accepts (payload : Bytes) (r r' : Receiver) : Type 0 where
    pub in_time : too_late json payload r ≡ false
    pub queued : r'.message_queue ≡ enqueue (key_of json payload) payload r.message_queue
    pub latest : r'.last_timestamp ≡ (
        if ltb r.last_timestamp (json.get_timestamp payload)
        then json.get_timestamp payload
        else r.last_timestamp)

  accept-Accepts :
      (payload : Bytes) (r r' : Receiver)
      → too_late json payload r ≡ false
      → Keeps (accept json payload r) r'
      → Accepts payload r r'
  unfolding accept
  accept-Accepts payload r r' e k = record { in_time = e; queued = k.0; latest = k.1 }

  on_message-cases :
      (write_ok : ℕ → Bool) (payload : Bytes) (r : Receiver)
      → Keeps r (state (on_message json write_ok payload r))
        ⊎ Accepts payload r (state (on_message json write_ok payload r))
  unfolding on_message
  on_message-cases write_ok payload r = elim (Bool-cases (too_late json payload r)) [
    | inl e ↦ inl (rw e (refuse-Keeps payload r))
    | inr e ↦ inr (accept-Accepts payload r _ e (rw e (ground arith)))
  ]

  payload_of : (b : Bytes) → (byte_to_params_and_payload b 0 true).payload ≡ b
  unfolding byte_to_params_and_payload
  payload_of b = refl

  -- A step keeps the queue, or it takes in one message of operation 100.
  pub receive-cases :
      (write_ok : ℕ → Bool) (order : List Bytes) (b : Bytes) (r : Receiver)
      → IsConsistent r
      → Keeps r (state (receive json write_ok order b r))
        ⊎ ((payload : Bytes) × (b ≡ 100 ∷ payload)
            × Accepts payload r (state (receive json write_ok order b r)))
  unfolding receive
  receive-cases write_ok order [] r c = inl (refl, refl)
  receive-cases write_ok order (op ∷ b) r c = elim (Bool-cases (op == 0)) [
    | inl e ↦ inl (rw e (control-Keeps write_ok order b r c))
    | inr e ↦ rw e (elim (Bool-cases (op == 30)) [
      | inl e ↦ inl (rw e (hand_over_state-Keeps b r))
      | inr e ↦ rw e (elim (Bool-cases (op == 32)) [
        | inl e ↦ inl (rw e (refl, refl))
        | inr e ↦ rw e (elim (Bool-cases (op == 100)) [
          | inr e ↦ inl (rw e (refl, refl))
          | inl e ↦ elim (on_message-cases write_ok b r) [
            | inl k ↦ inl (rw (e, payload_of b) k)
            | inr a ↦ inr (b, ap (λ n. n ∷ b) ((==_iff op 100).0 e), rw (e, payload_of b) a)
          ]
        ])
      ])
    ])
  ]
