-- ===== src/WebSocket/Receiver/Flush.antt =====
-- "FLUSH": every queued message is written, in the order of the timestamps.
use mathlib.Core.List.{Perm}
use mathlib.Core.List.Perm
use mathlib.Core.List.{append-nil, append_assoc}
use project_h_server.Prelude.{
  ℕ, ◌≡◌, refl, List, [], ◌∷◌, ◌++◌, map, Bool, true, ◌==◌, length, Bytes, codes, same, arith,
  Bool-cases, inl, inr, sort, sort-perm, sort-IsSorted, IsSorted, StrictWeak,
}
use project_h_server.WebSocket.{Json}
use project_h_server.WebSocket.Receiver.{
  message, Queue, Receiver, goes_on, values, write, earlier, write_all, flush, control, receive,
}

earlier-StrictWeak : (json : Json) → StrictWeak (earlier json)
earlier-StrictWeak json = record { asym = λ x y h. ground arith; trans = λ x y z h k. ground arith }

write_all-writes :
    (json : Json) (write_ok : ℕ → Bool) (ms : List Bytes) (r : Receiver)
    → ((n : ℕ) → write_ok n ≡ true)
    → write_all json write_ok ms r ≡ goes_on (record r { out = r.out ++ map message ms })
unfolding write_all
write_all-writes json write_ok [] r h = rw (append-nil r.out)
write_all-writes json write_ok (m ∷ ms) r h =
    rw (h (length r.out), write_all-writes json write_ok ms (write (message m) r) h)
      (rw append_assoc)

nil_of_length : (q : Queue) → (length q == 0) ≡ true → q ≡ []
nil_of_length [] h = refl
nil_of_length (e ∷ q) h = ground arith

-- While the websocket takes every write, FLUSH writes each queued message exactly once, in
-- ascending order of timestamps, whatever the order in which Go ranges over the queue, and changes
-- nothing else.
pub flush_lem :
    (json : Json) (write_ok : ℕ → Bool) (order : List Bytes) (r : Receiver)
    → ((n : ℕ) → write_ok n ≡ true)
    → Perm order (values r.message_queue)
    → (ms : List Bytes) × (receive json write_ok order (0 ∷ codes "FLUSH") r
        ≡ goes_on (record r { out = r.out ++ map message ms }))
      × Perm ms (values r.message_queue)
      × IsSorted (earlier json) ms
unfolding receive control flush same
flush_lem json write_ok order r h p = elim (Bool-cases (length r.message_queue == 0)) [
  | inl e ↦
      ([], rw e (rw (append-nil r.out)), rw (nil_of_length r.message_queue e) (Perm.refl []), tt)
  | inr e ↦ (
    sort (earlier json) order,
    rw e (write_all-writes json write_ok _ r h),
    Perm.trans (sort-perm (earlier json) order) p,
    sort-IsSorted (earlier json) (earlier-StrictWeak json) order,
  )
]
