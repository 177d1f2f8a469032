-- ===== src/Http/Audio/Announced.antt =====
-- What is stored when the other user is told of a message.
use mathlib.Core.Path.{subst}
use project_h_server.Prelude.{
  ℕ, ◌≡◌, ◌≢◌, ◌⊎◌, refl, sym, ap, ◌∙◌, inl, inr, [], ◌∷◌, ◌++◌, Option, none, some, Bool, false,
  Bytes,
}
use project_h_server.Http.Reply.{Body, audio_response, World, Outcome, json}
use project_h_server.Http.Store.{Row, Database, IsDatabase}
use project_h_server.Http.Friends.{unless_err, written}
use project_h_server.Http.Audio.{
  AudioForm, AudioCall, Audio, Media, new_row, recv_columns, seen_columns, send_message,
  store_message, add_audio_message, read_audio, Reading, reads, refuses, fails, panics,
}
use project_h_server.Http.Audio.Sent.{
  Chats, IsMedia, seen_as, recv_lem, seen_lem, message_of, written-cases, error-pushed,
  refusal-pushed, answer-store, answer-pushed, send-store, send-pushed,
}
use project_h_server.Http.Audio.Limits.{IsAccepted, Lacks, IsRead, read_audio-IsRead}

module _ {S : Type 0} (db : Database S) (media : Media S) (json_fails : Body → Bool)
    (time_of : ℕ → ℕ) (chats : Chats S) (row : S → ℕ → ℕ → Row) where
  -- The message in the chain and the bucket, and its time in the rows of the two users.
  pub record IsStored (a : AudioCall) (m : Audio) (s : S) : Type 0 where
    pub in_chain :
        (b : Bool) × (chats.messages s a.chain_id (time_of a.call.time_uuid)
          ≡ some (seen_as b (new_row db media json_fails time_of a m)))
    pub in_bucket : chats.objects s a.chain_id a.call.time_uuid ≡ some m.content
    pub received : (row s a.call.relation_id a.call.user_id).last_recv ≡ time_of a.call.time_uuid
    pub seen : (row s a.call.user_id a.call.relation_id).last_seen ≡ time_of a.call.time_uuid

  -- Nobody is told of anything, or the other user of a message that is stored.
  abbrev pub IsAnnounced : AudioCall → Audio → World S → Outcome S → Type 0
  IsAnnounced a m w o =
      (o.0.pushed ≡ w.pushed)
      ⊎ (IsStored a m o.0.store
          × ((signature : Bytes) × (o.0.pushed
                ≡ w.pushed ++ message_of time_of a m signature ∷ [])))

  module _ (laws : IsDatabase db row) (media_laws : IsMedia db media chats) (a : AudioCall)
      (m : Audio) (others : a.call.relation_id ≢ a.call.user_id) where
    abbrev t : ℕ
    t = time_of a.call.time_uuid

    abbrev put : S → S × Bool
    put s = media.put_object s a.chain_id a.call.time_uuid m.content

    abbrev insert : S → S × Bool
    insert s = media.insert_message s a.chain_id (new_row db media json_fails time_of a m)

    abbrev receive : S → S × Bool
    receive s = db.update s a.call.relation_id a.call.user_id (recv_columns t)

    abbrev see : S → S × Bool
    see s = db.update s a.call.user_id a.call.relation_id (seen_columns t)

    stored :
        (s : S)
        → (put s).1 ≡ false
        → (insert (put s).0).1 ≡ false
        → (receive (insert (put s).0).0).1 ≡ false
        → (see (receive (insert (put s).0).0).0).1 ≡ false
        → IsStored a m (see (receive (insert (put s).0).0).0).0
    stored s e1 e2 e3 e4 =
        let s1 = (put s).0 in
        let s2 = (insert s1).0 in
        let s3 = (receive s2).0 in
        let u = a.call.user_id in
        let r = a.call.relation_id in
        record {
          in_chain = (
            _,
            media_laws.update-message s3 u r (seen_columns t) a.chain_id t
                ∙ media_laws.update-message s2 r u (recv_columns t) a.chain_id t
                ∙ media_laws.insert-message s1 a.chain_id (new_row db media json_fails time_of a m)
                    e2,
          );
          in_bucket =
              media_laws.update-object s3 u r (seen_columns t) a.chain_id a.call.time_uuid
              ∙ media_laws.update-object s2 r u (recv_columns t) a.chain_id a.call.time_uuid
              ∙ media_laws.insert-object s1 a.chain_id (new_row db media json_fails time_of a m)
                  a.chain_id a.call.time_uuid
              ∙ media_laws.put-object s a.chain_id a.call.time_uuid m.content e1;
          received =
              ap Row.last_recv (
                laws.update-user s3 u r (seen_columns t) r u others
                ∙ laws.update-at s2 r u (recv_columns t) e3)
              ∙ recv_lem t (row s2 r u);
          seen =
              ap Row.last_seen (laws.update-at s3 u r (seen_columns t) e4)
              ∙ seen_lem t (row s3 u r);
        }

    -- The last step, from a store that has the message.
    answered :
        (w w4 : World S)
        → w4.pushed ≡ w.pushed
        → IsStored a m w4.store
        → IsAnnounced a m w (
            unless_err
              (send_message db media json_fails time_of a m w4)
              (json json_fails (audio_response a.call.time_uuid t)))
    answered w w4 p h =
        let o = send_message db media json_fails time_of a m w4 in
        let b = audio_response a.call.time_uuid t in
        elim (send-pushed db media json_fails time_of a m w4) [
          | inl e ↦ inl (answer-pushed db json_fails o b ∙ e ∙ p)
          | inr (x, e) ↦ inr (
            subst (IsStored a m)
                (sym
                  (answer-store db json_fails o b ∙ send-store db media json_fails time_of a m w4))
                h,
            (
              x,
              answer-pushed db json_fails o b ∙ e ∙ ap (λ q. q ++ message_of time_of a m x ∷ []) p,
            ),
          )
        ]

    -- A write whose error is answered, and what follows it.
    step :
        (w w1 : World S) (r : S × Bool) (k : World S → Outcome S)
        → w1.pushed ≡ w.pushed
        → (r.1 ≡ false → IsAnnounced a m w (k (record w1 { store = r.0 })))
        → IsAnnounced a m w (written db json_fails r w1 k)
    step w w1 r k p h = elim (written-cases db json_fails r w1 k) [
      | inl (_, e) ↦
          subst (IsAnnounced a m w) (sym e)
            (inl (error-pushed db json_fails (record w1 { store = r.0 }) ∙ p))
      | inr (f, e) ↦ subst (IsAnnounced a m w) (sym e) (h f)
    ]

    abbrev at : World S → S → World S
    at w s = record w { store = s }

    store_message-IsAnnounced :
        (w : World S) → IsAnnounced a m w (store_message db media json_fails time_of a m w)
    unfolding store_message
    store_message-IsAnnounced w =
        let s1 = (put w.store).0 in
        let s2 = (insert s1).0 in
        let s3 = (receive s2).0 in
        let s4 = (see s3).0 in
        step w w (put w.store) _ refl (λ e1. step w (at w s1) (insert s1) _ refl (λ e2.
          step w (at w s2) (receive s2) _ refl (λ e3.
            step w (at w s3) (see s3) _ refl
              (λ e4. answered w (at w s4) refl (stored w.store e1 e2 e3 e4)))))

  -- The outcome of a request, `none` for a panic.
  abbrev pub Announces : AudioCall → World S → Option (Outcome S) → Type 0
  Announces a w none = (f : AudioForm) × (a.form ≡ some f) × Lacks f
  Announces a w (some o) =
      (o.0.pushed ≡ w.pushed)
      ⊎ ((m : Audio) × (signature : Bytes) × IsAccepted a m
          × IsStored a m o.0.store
          × (o.0.pushed ≡ w.pushed ++ message_of time_of a m signature ∷ []))

  read_audio-Announces :
      (laws : IsDatabase db row) (media_laws : IsMedia db media chats) (a : AudioCall) (w : World S)
      → a.call.relation_id ≢ a.call.user_id
      → (r : Reading Audio) → r ≡ read_audio a
      → IsRead a r
      → Announces a w (add_audio_message db media json_fails time_of a w)
  unfolding add_audio_message
  read_audio-Announces laws media_laws a w others (reads m) e h =
      rw (add_audio_message, ← e)
        (elim (store_message-IsAnnounced laws media_laws a m others w) [
          | inl k ↦ inl k
          | inr (k, (x, p)) ↦ inr (m, x, h, k, p)
        ])
  read_audio-Announces laws media_laws a w others (refuses p d) e h =
      rw (add_audio_message, ← e) (inl (refusal-pushed db json_fails p d w))
  read_audio-Announces laws media_laws a w others fails e h =
      rw (add_audio_message, ← e) (inl (error-pushed db json_fails w))
  read_audio-Announces laws media_laws a w others panics e h = rw (add_audio_message, ← e) h

  pub add_audio_message-Announces :
      (laws : IsDatabase db row) (media_laws : IsMedia db media chats) (a : AudioCall) (w : World S)
      → a.call.relation_id ≢ a.call.user_id
      → Announces a w (add_audio_message db media json_fails time_of a w)
  add_audio_message-Announces laws media_laws a w others =
      read_audio-Announces laws media_laws a w others (read_audio a) refl (read_audio-IsRead a)
