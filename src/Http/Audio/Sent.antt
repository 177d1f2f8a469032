-- ===== src/Http/Audio/Sent.antt =====
-- The laws of the writes, and what a message to the other user changes.

use project_h_server.Prelude.{
  ℕ, ◌≡◌, ◌⊎◌, refl, inl, inr, [], ◌∷◌, ◌++◌, Option, none, some, Bool, true, false, Bytes, arith,
  Bool-cases, Option-cases,
}
use project_h_server.Http.Reply.{
  Body, message_data, WsMessage, World, Outcome, json, status_json, internal_error, bad_request,
}
use project_h_server.Http.Store.{Row, Columns, apply, Database}
use project_h_server.Http.Friends.{unless_err, written, send_payload}
use project_h_server.Http.GetChain.{ChainRow}
use project_h_server.Http.Audio.{AudioCall, Audio, Media, recv_columns, seen_columns, send_message}

-- What the table `chains` and the bucket hold.
pub record Chats (S : Type 0) : Type 0 where
  pub messages : S → (chain_id created : ℕ) → Option ChainRow
  pub objects : S → (chain_id message_id : ℕ) → Option Bytes

abbrev pub seen_as : Bool → ChainRow → ChainRow
seen_as b r = record r { seen = b }

-- A column that an INSERT does not set keeps its value.
abbrev pub seen_of : Option ChainRow → Bool
seen_of none = false
seen_of (some r) = r.seen

-- The documented behaviour of the writes that do not fail.
pub record IsMedia {S : Type 0} (db : Database S) (media : Media S) (chats : Chats S) : Type 0 where
  pub put-object :
      (s : S) (c m : ℕ) (b : Bytes)
      → (media.put_object s c m b).1 ≡ false
      → chats.objects (media.put_object s c m b).0 c m ≡ some b
  pub insert-message :
      (s : S) (c : ℕ) (r : ChainRow)
      → (media.insert_message s c r).1 ≡ false
      → chats.messages (media.insert_message s c r).0 c r.created
        ≡ some (seen_as (seen_of (chats.messages s c r.created)) r)
  pub insert-object :
      (s : S) (c : ℕ) (r : ChainRow) (c' m : ℕ)
      → chats.objects (media.insert_message s c r).0 c' m ≡ chats.objects s c' m
  pub update-message :
      (s : S) (u r : ℕ) (x : Columns) (c t : ℕ)
      → chats.messages (db.update s u r x).0 c t ≡ chats.messages s c t
  pub update-object :
      (s : S) (u r : ℕ) (x : Columns) (c m : ℕ)
      → chats.objects (db.update s u r x).0 c m ≡ chats.objects s c m

pub recv_lem : (t : ℕ) (r : Row) → (apply (recv_columns t) r).last_recv ≡ t
unfolding apply recv_columns
recv_lem t r = refl

pub seen_lem : (t : ℕ) (r : Row) → (apply (seen_columns t) r).last_seen ≡ t
unfolding apply seen_columns
seen_lem t r = refl

module _ {S : Type 0} (db : Database S) (json_fails : Body → Bool) where
  pub written-cases :
      (r : S × Bool) (w : World S) (k : World S → Outcome S)
      → ((r.1 ≡ true)
          × (written db json_fails r w k ≡ internal_error json_fails (record w { store = r.0 })))
        ⊎ ((r.1 ≡ false) × (written db json_fails r w k ≡ k (record w { store = r.0 })))
  unfolding written
  written-cases (s, true) w k = inl (refl, refl)
  written-cases (s, false) w k = inr (refl, refl)

  pub error-pushed : (w : World S) → (internal_error json_fails w).0.pushed ≡ w.pushed
  unfolding internal_error status_json json
  error-pushed w = ground arith

  pub refusal-pushed :
      (p d : Bytes) (w : World S) → (bad_request json_fails p d w).0.pushed ≡ w.pushed
  unfolding bad_request status_json json
  refusal-pushed p d w = ground arith

  pub answer-store :
      (o : Outcome S) (b : Body) → (unless_err o (json json_fails b)).0.store ≡ o.0.store
  unfolding json
  answer-store (w, true) b = refl
  answer-store (w, false) b = ground arith

  pub answer-pushed :
      (o : Outcome S) (b : Body) → (unless_err o (json json_fails b)).0.pushed ≡ o.0.pushed
  unfolding json
  answer-pushed (w, true) b = refl
  answer-pushed (w, false) b = ground arith

-- The message to the other user.
abbrev pub message_of : (ℕ → ℕ) → AudioCall → Audio → Bytes → WsMessage
message_of time_of a m signature = record {
  op = 300;
  origin_id = a.call.user_id;
  target_id = a.call.relation_id;
  timestamp = a.call.sent_at;
  signature = signature;
  atomic = true;
  payload =
      message_data a.chain_id a.call.time_uuid (time_of a.call.time_uuid) m.expires 0 m.display
        m.duration;
}

module _ {S : Type 0} (db : Database S) (media : Media S) (json_fails : Body → Bool)
    (time_of : ℕ → ℕ) where
  pub send-store :
      (a : AudioCall) (m : Audio) (w : World S)
      → (send_message db media json_fails time_of a m w).0.store ≡ w.store
  unfolding send_message send_payload internal_error status_json json
  send-store a m w = ground arith

  pub send-pushed :
      (a : AudioCall) (m : Audio) (w : World S)
      → let w' = (send_message db media json_fails time_of a m w).0 in
        (w'.pushed ≡ w.pushed)
        ⊎ ((signature : Bytes) × (w'.pushed ≡ w.pushed ++ message_of time_of a m signature ∷ []))
  unfolding send_message send_payload
  send-pushed a m w = elim (Option-cases a.call.signature) [
    | inl e ↦ inl (rw (send_message, send_payload, e) refl)
    | inr (x, e) ↦ elim (Bool-cases a.call.marshal_ok) [
      | inr f ↦ inl (rw (send_message, send_payload, e, f) (error-pushed db json_fails w))
      | inl f ↦ elim (Bool-cases a.call.write_ok) [
        | inr g ↦ inl (rw (send_message, send_payload, e, f, g) (error-pushed db json_fails w))
        | inl g ↦ inr (x, rw (send_message, send_payload, e, f, g) refl)
      ]
    ]
  ]
