-- ===== src/WebSocket/Receiver/Order.antt =====
-- The messages that are written while the gate is open, over a run.
use project_h_server.Prelude.{
  ℕ, ◌≤◌, ◌<◌, ◌≡◌, ◌⊎◌, refl, sym, ap, ◌∙◌, inl, inr, List, [], ◌∷◌, ◌++◌, map, Bool, true, false,
  Bytes, All, All-map, Any, arith, Bool-cases, ltb, leb, ◌&&◌,
}
use mathlib.Core.List.{append-nil, append_assoc}
use project_h_server.WebSocket.{Json}
use project_h_server.WebSocket.Receiver.{
  Out, message, refresh_relations, refresh_chain, Receiver, goes_on, accept, write, too_late,
}
use project_h_server.WebSocket.Receiver.Run.{arrives, run}
use project_h_server.WebSocket.Receiver.Gate.{refusal, receive_taken, receive-too_late}

module _ (json : Json) where
  open json use {get_op, get_timestamp, get_atomic, get_chain_id}

  -- A message that is written is atomic or later than a time.
  abbrev pub Later : ℕ → Out → Type 0
  Later t (message p) = (get_atomic p ≡ true) ⊎ (t < get_timestamp p)
  Later t refresh_relations = Unit
  Later t (refresh_chain c) = Unit

  -- Every message is atomic or later than each message before it.
  abbrev pub InOrder : List Out → Type 0
  InOrder [] = Unit
  InOrder (message p ∷ os) = All (Later (get_timestamp p)) os × InOrder os
  InOrder (refresh_relations ∷ os) = InOrder os
  InOrder (refresh_chain c ∷ os) = InOrder os

  -- A message of a time or a later one.
  abbrev pub Reaches : ℕ → Out → Type 0
  Reaches t (message p) = t ≤ get_timestamp p
  Reaches t refresh_relations = ⊥
  Reaches t (refresh_chain c) = ⊥

  -- A message is written; or it is not atomic, and not later than the time or a message that is
  -- written.
  abbrev pub Answered : ℕ → List Out → Bytes → Type 0
  Answered t os p =
      Any (λ o. o ≡ message p) os
      ⊎ ((get_atomic p ≡ false) × ((get_timestamp p ≤ t) ⊎ Any (Reaches (get_timestamp p)) os))

  Later-mono : (t t' : ℕ) → t ≤ t' → (o : Out) → Later t' o → Later t o
  Later-mono t t' l (message p) (inl a) = inl a
  Later-mono t t' l (message p) (inr b) = inr (omega (arith, l, b))
  Later-mono t t' l refresh_relations h = tt
  Later-mono t t' l (refresh_chain c) h = tt

  module _ (op : ℕ) (chain : Bytes) where
    refusal-cases :
        (refusal op chain ≡ [])
        ⊎ ((refusal op chain ≡ refresh_relations ∷ [])
            ⊎ (refusal op chain ≡ refresh_chain chain ∷ []))
    unfolding refusal
    refusal-cases = elim (Bool-cases (leb 200 op && ltb op 300)) [
      | inl a ↦ inr (inl (rw a refl))
      | inr a ↦ elim (Bool-cases (leb 300 op && ltb op 400)) [
        | inl b ↦ inr (inr (rw (a, b) refl))
        | inr b ↦ inl (rw (a, b) refl)
      ]
    ]

    refusal-Later :
        (t : ℕ) (os : List Out) → All (Later t) os → All (Later t) (refusal op chain ++ os)
    refusal-Later t os h = elim refusal-cases [
      | inl e ↦ rw e h
      | inr (inl e) ↦ rw e (tt, h)
      | inr (inr e) ↦ rw e (tt, h)
    ]

    refusal-InOrder : (os : List Out) → InOrder os → InOrder (refusal op chain ++ os)
    refusal-InOrder os h = elim refusal-cases [
      | inl e ↦ rw e h
      | inr (inl e) ↦ rw e h
      | inr (inr e) ↦ rw e h
    ]

    refusal-Any : (P : Out → Type 0) (os : List Out) → Any P os → Any P (refusal op chain ++ os)
    refusal-Any P os h = elim refusal-cases [
      | inl e ↦ rw e h
      | inr (inl e) ↦ rw e (inr h)
      | inr (inr e) ↦ rw e (inr h)
    ]

    refusal-Answered :
        (t : ℕ) (os : List Out) (q : Bytes)
        → Answered t os q
        → Answered t (refusal op chain ++ os) q
    refusal-Answered t os q (inl h) = inl (refusal-Any (λ o. o ≡ message q) os h)
    refusal-Answered t os q (inr (a, inl h)) = inr (a, inl h)
    refusal-Answered t os q (inr (a, inr h)) =
        inr (a, inr (refusal-Any (Reaches (get_timestamp q)) os h))

  abbrev LatestOf : (p : Bytes) (r : Receiver) (n : ℕ) → Type 0
  LatestOf p r n =
      (r.last_timestamp ≤ n)
      × (get_timestamp p ≤ n)
      × ((n ≡ r.last_timestamp) ⊎ (n ≡ get_timestamp p))

  accept-latest : (p : Bytes) (r : Receiver) → LatestOf p r (accept json p r).last_timestamp
  unfolding accept
  accept-latest p r = (ground arith, ground arith, ground arith)

  accept-gate : (p : Bytes) (r : Receiver) → (accept json p r).gate_state ≡ r.gate_state
  unfolding accept
  accept-gate p r = refl

  accept-out : (p : Bytes) (r : Receiver) → (accept json p r).out ≡ r.out
  unfolding accept
  accept-out p r = refl

  taken-Answered :
      (p : Bytes) (r : Receiver) (n : ℕ) (os : List Out)
      → LatestOf p r n
      → (q : Bytes) → Answered n os q
      → Answered r.last_timestamp (message p ∷ os) q
  taken-Answered p r n os l q (inl h) = inl (inr h)
  taken-Answered p r n os l q (inr (a, inr h)) = inr (a, inr (inr h))
  taken-Answered p r n os (_, _, inl e) q (inr (a, inl h)) = inr (a, inl (omega (arith, e, h)))
  taken-Answered p r n os (_, _, inr e) q (inr (a, inl h)) =
      inr (a, inr (inl (omega (arith, e, h))))

  late_why :
      (p : Bytes) (r : Receiver)
      → too_late json p r ≡ true
      → (get_timestamp p ≤ r.last_timestamp) × (get_atomic p ≡ false)
  unfolding too_late
  late_why p r h = (ground (arith, h), ground (arith, h))

  taken_why :
      (p : Bytes) (r : Receiver)
      → too_late json p r ≡ false
      → r.gate_state ≡ 1
      → Later r.last_timestamp (message p)
  unfolding too_late
  taken_why p r h g = ground (arith, h, g)

  -- What a run writes, and how it answers each message.
  abbrev pub Writes : Receiver → List Bytes → Receiver → List Out → Type 0
  Writes r ps r' os =
      (r'.out ≡ r.out ++ os)
      × All (Later r.last_timestamp) os
      × InOrder os
      × All (Answered r.last_timestamp os) ps

  module _ (write_ok : ℕ → Bool) (ok : (n : ℕ) → write_ok n ≡ true) (order : List Bytes) where
    -- While the gate is open and no write to the websocket fails, msg_chan_recv goes on through any
    -- list of messages of operation 100. What it writes follows what was written before; every
    -- message that is written is atomic, or later than the latest timestamp at the start and than
    -- each message that the run has written before it; and every message that comes is written, or
    -- is not atomic and not later than that timestamp or than some message that the run writes.
    pub run-Writes :
        (ps : List Bytes) (r : Receiver)
        → r.gate_state ≡ 1
        → (r' : Receiver) × (os : List Out) × (run json write_ok
              (map (λ p. arrives order (100 ∷ p)) ps)
              r
            ≡ goes_on r')
          × Writes r ps r' os
    unfolding run
    run-Writes [] r g = (r, [], refl, (sym (append-nil r.out), tt, tt, tt))
    run-Writes (p ∷ ps) r g = elim (Bool-cases (too_late json p r)) [
      | inl late ↦
          let o = refusal (get_op p) (get_chain_id p) in
          let r1 = record r { out = r.out ++ o } in
          let (r', os, e, (w, l, i, a)) = run-Writes ps r1 g in
          let (le, na) = late_why p r late in
          (
            r',
            o ++ os,
            rw (run, receive-too_late json write_ok order p r le na g) e,
            (
              w ∙ append_assoc r.out o os,
              refusal-Later (get_op p) (get_chain_id p) r.last_timestamp os l,
              refusal-InOrder (get_op p) (get_chain_id p) os i,
              (
                inr (na, inl le),
                All-map (Answered r.last_timestamp os) (Answered r.last_timestamp (o ++ os))
                    (refusal-Answered (get_op p) (get_chain_id p) r.last_timestamp os) ps a,
              ),
            ),
          )
      | inr taken ↦
          let r1 = write (message p) (accept json p r) in
          let n = r1.last_timestamp in
          let (r', os, e, (w, l, i, a)) = run-Writes ps r1 (accept-gate p r ∙ g) in
          let (above, at_least, which) = accept-latest p r in
          (
            r',
            message p ∷ os,
            rw (run, receive_taken json write_ok order p r taken g ok) e,
            (
              w
                  ∙ append_assoc (accept json p r).out (message p ∷ []) os
                  ∙ ap (λ l. l ++ message p ∷ os) (accept-out p r),
              (
                taken_why p r taken g,
                All-map (Later n) (Later r.last_timestamp) (Later-mono r.last_timestamp n above) os
                    l,
              ),
              (
                All-map (Later n) (Later (get_timestamp p))
                    (Later-mono (get_timestamp p) n at_least) os l,
                i,
              ),
              (
                inl (inl refl),
                All-map (Answered n os) (Answered r.last_timestamp (message p ∷ os))
                    (taken-Answered p r n os (accept-latest p r)) ps a,
              ),
            ),
          )
    ]
