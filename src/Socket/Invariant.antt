-- ===== src/Socket/Invariant.antt =====
-- What holds of the table of websocket ids between two calls, and that each call keeps it.
use project_h_server.Prelude.{
  ℕ, ◌≤◌, ◌<◌, ◌≡◌, refl, sym, ap, ◌∙◌, ◌≢◌, List, [], ◌∷◌, Option, none, some, true, false, ◌&&◌,
  ◌||◌, ◌==◌, ltb, length, length-append, Bytes, same, same_iff, arith, Bool-cases, Option-cases,
  inl, inr, ◌⊎◌, get_or,
}
use project_h_server.Wire.{byte_to_params_and_payload}
use project_h_server.Socket.{
  Sockets, Outcome, returns, blocked, panics, put, make_chan, lock, unlock, store, create_loop,
  close_chan, send, reply_absent, get_shard, create_connection, delete_connection, deliver,
  socket_op, capacity,
}

-- The channels in the table are open and apart, and no buffer exceeds its capacity.
pub record IsSound (s : Sockets) : Type 0 where
  pub live :
      (k : ℕ) (id : Bytes) (c : ℕ)
      → s.table k id ≡ some c
      → (c < s.next_chan) × ((s.chans c).closed ≡ false)
  pub apart :
      (k k' : ℕ) (id id' : Bytes) (c : ℕ)
      → s.table k id ≡ some c
      → s.table k' id' ≡ some c
      → (k ≡ k') × (id ≡ id')
  pub bounded : (c : ℕ) → length (s.chans c).buffer ≤ capacity

-- The state that a call leaves, however it ends.
abbrev pub state : {A : Type 0} → Outcome A → Sockets
state (returns a s) = s
state (blocked s) = s
state (panics s) = s

-- The parts that the invariant reads.
abbrev pub Same : Sockets → Sockets → Type 0
Same s t = (t.table ≡ s.table) × (t.chans ≡ s.chans) × (t.next_chan ≡ s.next_chan)

pub IsSound-Same : {s t : Sockets} → Same s t → IsSound s → IsSound t
IsSound-Same {s} {t} e v = record {
  live = λ k id c h. rw (e.1, e.2) (v.live k id c (ap (λ m. m k id) (sym e.0) ∙ h));
  apart = λ k k' id id' c h h'.
      v.apart k k' id id' c (ap (λ m. m k id) (sym e.0) ∙ h) (ap (λ m. m k' id') (sym e.0) ∙ h');
  bounded = λ c. rw e.1 (v.bounded c);
}

make_chan-IsSound : (s : Sockets) → IsSound s → IsSound (make_chan s)
make_chan-IsSound s v = record {
  live = λ k id c h. ground (arith, v.live k id c h);
  apart = v.apart;
  bounded = λ c. ground (arith, v.bounded c);
}

-- The channel that `make_chan` returned stands in the table nowhere.
abbrev IsFresh : ℕ → Sockets → Type 0
IsFresh c s =
    (c < s.next_chan)
    × ((s.chans c).closed ≡ false)
    × ((k : ℕ) (id : Bytes) → s.table k id ≢ some c)

make_chan-IsFresh : (s : Sockets) → IsSound s → IsFresh s.next_chan (make_chan s)
make_chan-IsFresh s v =
    (omega arith, ground arith, λ k id h. absurd (omega (arith, (v.live k id s.next_chan h).0)))

put-cases :
    {V : Type 0} (m : ℕ → Bytes → V) (k : ℕ) (id : Bytes) (v : V) (k' : ℕ) (id' : Bytes)
    → ((k' ≡ k) × (id' ≡ id) × (put m k id v k' id' ≡ v))
      ⊎ ((((k' == k) && same id' id) ≡ false) × (put m k id v k' id' ≡ m k' id'))
put-cases m k id v k' id' = elim (Bool-cases ((k' == k) && same id' id)) [
  | inl e ↦ inl (ground (arith, same_iff id' id), ground (arith, same_iff id' id), rw e)
  | inr e ↦ inr (e, rw e)
]

store-IsSound :
    (s : Sockets) (k : ℕ) (id : Bytes) (c : ℕ)
    → IsFresh c s
    → IsSound s
    → IsSound (store k id (some c) s)
store-IsSound s k id c f v = record {
  live = λ k' id' c' h. elim (put-cases s.table k id (some c) k' id') [
    | inl (_, _, e) ↦ ground (arith, f.0, f.1)
    | inr (_, e) ↦ v.live k' id' c' (sym e ∙ h)
  ];
  apart = λ j k' jd id' c' h h'. elim (put-cases s.table k id (some c) j jd) [
    | inl (a, b, e) ↦ elim (put-cases s.table k id (some c) k' id') [
      | inl (a', b', e') ↦ (a ∙ sym a', b ∙ sym b')
      | inr (_, e') ↦ absurd (f.2 k' id' (cc))
    ]
    | inr (_, e) ↦ elim (put-cases s.table k id (some c) k' id') [
      | inl (a', b', e') ↦ absurd (f.2 j jd (cc))
      | inr (_, e') ↦ v.apart j k' jd id' c' (sym e ∙ h) (sym e' ∙ h')
    ]
  ];
  bounded = v.bounded;
}

remove-IsSound : (s : Sockets) (k : ℕ) (id : Bytes) → IsSound s → IsSound (store k id none s)
remove-IsSound s k id v = record {
  live = λ k' id' c' h. elim (put-cases s.table k id none k' id') [
    | inl (_, _, e) ↦ cc
    | inr (_, e) ↦ v.live k' id' c' (sym e ∙ h)
  ];
  apart = λ j k' jd id' c' h h'. elim (put-cases s.table k id none j jd) [
    | inl (a, b, e) ↦ cc
    | inr (_, e) ↦ elim (put-cases s.table k id none k' id') [
      | inl (a', b', e') ↦ cc
      | inr (_, e') ↦ v.apart j k' jd id' c' (sym e ∙ h) (sym e' ∙ h')
    ]
  ];
  bounded = v.bounded;
}

found-IsSound :
    (s : Sockets) (k : ℕ) (id : Bytes) (c : ℕ)
    → IsFresh c s
    → IsSound s
    → IsSound (unlock k (store k id (some c) s))
found-IsSound s k id c f v = IsSound-Same (refl, refl, refl) (store-IsSound s k id c f v)

create_loop-IsSound :
    (ids : List (Option Bytes)) (id : Bytes) (c k : ℕ) (s : Sockets)
    → IsFresh c s
    → IsSound s
    → IsSound (state (create_loop id c k ids s))
unfolding create_loop
create_loop-IsSound [] id c k s f v = elim (Option-cases (s.table k id)) [
  | inl e ↦ rw (e, create_loop) (found-IsSound s k id c f v)
  | inr (d, e) ↦ rw (e, create_loop) v
]
create_loop-IsSound (none ∷ ids) id c k s f v = elim (Option-cases (s.table k id)) [
  | inl e ↦ rw (e, create_loop) (found-IsSound s k id c f v)
  | inr (d, e) ↦ rw (e, create_loop) v
]
create_loop-IsSound (some id' ∷ ids) id c k s f v = elim (Option-cases (s.table k id)) [
  | inl e ↦ rw (e, create_loop) (found-IsSound s k id c f v)
  | inr (d, e) ↦ rw (e, create_loop) (create_loop-IsSound ids id' c k s f v)
]

close_chan-IsSound :
    (s : Sockets) (c : ℕ)
    → ((k : ℕ) (id : Bytes) → s.table k id ≢ some c)
    → IsSound s
    → IsSound (state (close_chan (some c) s))
unfolding close_chan
close_chan-IsSound s c gone v = elim (Bool-cases (s.chans c).closed) [
  | inl e ↦ rw e v
  | inr e ↦ rw e (record {
    live = λ k id c' h.
        let other : c' ≢ c = λ e'. gone k id (h ∙ ap some e') in ground (arith, v.live k id c' h);
    apart = v.apart;
    bounded = λ c'. ground (arith, v.bounded c');
  })
]

send-IsSound :
    (s : Sockets) (c : ℕ) (payload : Bytes) → IsSound s → IsSound (state (send c payload s))
unfolding send
send-IsSound s c payload v = elim (Bool-cases (s.chans c).closed) [
  | inl e ↦ rw e v
  | inr e ↦ elim (Bool-cases (ltb (length (s.chans c).buffer) capacity)) [
    | inr full ↦ rw (e, full) v
    | inl room ↦
        rw (e, room)
          (record {
            live = λ k id c' h. ground (arith, v.live k id c' h);
            apart = v.apart;
            bounded =
                λ c'. ground (arith, v.bounded c', length-append (s.chans c).buffer (payload ∷ []));
          })
  ]
]

module _ (hash : Bytes → ℕ) (s : Sockets) (v : IsSound s) where
  pub create_connection-IsSound :
      (ids : List (Option Bytes)) → IsSound (state (create_connection hash ids s))
  unfolding create_connection
  create_connection-IsSound [] = make_chan-IsSound s v
  create_connection-IsSound (none ∷ ids) = make_chan-IsSound s v
  create_connection-IsSound (some id ∷ ids) = elim (Bool-cases (s.locked (get_shard hash id))) [
    | inl e ↦ rw e (make_chan-IsSound s v)
    | inr e ↦ rw e (
        create_loop-IsSound ids id s.next_chan (get_shard hash id)
          (lock (get_shard hash id) (make_chan s)) (make_chan-IsFresh s v)
          (IsSound-Same (refl, refl, refl) (make_chan-IsSound s v)))
  ]

  -- After a removal the channel of the id stands in the table nowhere.
  gone :
      (k : ℕ) (id : Bytes) (c : ℕ)
      → s.table k id ≡ some c
      → (k' : ℕ) (id' : Bytes) → (store k id none s).table k' id' ≢ some c
  gone k id c h k' id' h' = elim (put-cases s.table k id none k' id') [
    | inl (_, _, e) ↦ cc
    | inr (t, e) ↦
        let (a, b) = v.apart k k' id id' c h (sym e ∙ h') in ground (arith, same_iff id' id)
  ]

  pub delete_connection-IsSound : (id : Bytes) → IsSound (state (delete_connection hash id s))
  unfolding delete_connection
  delete_connection-IsSound id = elim (Bool-cases (s.locked (get_shard hash id))) [
    | inl e ↦ rw e v
    | inr e ↦ rw e (elim (Option-cases (s.table (get_shard hash id) id)) [
      | inl h ↦ rw (h, close_chan) (remove-IsSound s (get_shard hash id) id v)
      | inr (c, h) ↦ rw h (
          close_chan-IsSound (store (get_shard hash id) id none s) c
            (gone (get_shard hash id) id c h) (remove-IsSound s (get_shard hash id) id v))
    ])
  ]

  reply_absent-IsSound : (op : ℕ) (b : Bytes) → IsSound (reply_absent op b s)
  unfolding reply_absent
  reply_absent-IsSound op b = ground (arith, v)

  deliver-IsSound : (id payload : Bytes) → IsSound (state (deliver hash id payload s))
  unfolding deliver
  deliver-IsSound id [] = v
  deliver-IsSound id (op ∷ b) = elim (Bool-cases (s.locked (get_shard hash id))) [
    | inl e ↦ rw e v
    | inr e ↦ rw e (elim (Option-cases (s.table (get_shard hash id) id)) [
      | inl h ↦ rw (h, deliver) (reply_absent-IsSound op b)
      | inr (c, h) ↦ rw (h, deliver) (send-IsSound s c (op ∷ b) v)
    ])
  ]

  pub socket_op-IsSound : (op : ℕ) (b : Bytes) → IsSound (state (socket_op hash op b s))
  unfolding socket_op
  socket_op-IsSound op b = elim (Bool-cases (op == 50 || op == 51)) [
    | inr e ↦ rw e v
    | inl e ↦ rw e (elim (Option-cases (byte_to_params_and_payload b 1 true).err) [
      | inl h ↦
          rw (h, socket_op)
            (deliver-IsSound (get_or (byte_to_params_and_payload b 1 true).param 0 [])
              (byte_to_params_and_payload b 1 true).payload)
      | inr (x, h) ↦ rw (h, socket_op) v
    ])
  ]
