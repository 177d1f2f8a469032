-- ===== src/Http/Audio/Lost.antt =====
-- A message that is not sent on.
use project_h_server.Prelude.{ℕ, ◌≡◌, refl, [], some, Bool, true, false, Bytes}
use project_h_server.Http.Reply.{
  Body, error_response, audio_response, World, Outcome, json, status_json, internal_error,
}
use project_h_server.Http.Store.{Database, Works}
use project_h_server.Http.Friends.{written, send_payload}
use project_h_server.Http.GetChain.{ChainRow}
use project_h_server.Http.Audio.{
  AudioCall, Audio, Media, reads, new_row, recv_columns, seen_columns, send_message, store_message,
  read_audio, add_audio_message,
}

module _ {S : Type 0} (db : Database S) (media : Media S) (json_fails : Body → Bool)
    (time_of : ℕ → ℕ) where
  unsent :
      (a : AudioCall) (m : Audio) (w : World S) (signature : Bytes)
      → a.call.signature ≡ some signature
      → a.call.marshal_ok ≡ true
      → a.call.write_ok ≡ false
      → json_fails (error_response [] []) ≡ false
      → send_message db media json_fails time_of a m w
        ≡ (record w { status = 500; body = error_response [] [] }, false)
  unfolding send_message send_payload internal_error status_json json
  unsent a m w signature es em ew ej =
      rw (send_message, send_payload, es, em, ew, internal_error, status_json, json, ej) refl

  -- If the form is read and no write fails, but the message cannot be handed to the router, and the
  -- answer 500 is written without an error, AddAudioMessage answers with the message's id all the
  -- same, without an error but with status 500, and tells nobody.
  pub unsent_message :
      (a : AudioCall) (m : Audio) (w : World S) (signature : Bytes)
      → Works db
      → read_audio a ≡ reads m
      → ((s : S) → (media.put_object s a.chain_id a.call.time_uuid m.content).1 ≡ false)
      → ((s : S) (r : ChainRow) → (media.insert_message s a.chain_id r).1 ≡ false)
      → a.call.signature ≡ some signature
      → a.call.marshal_ok ≡ true
      → a.call.write_ok ≡ false
      → json_fails (error_response [] []) ≡ false
      → json_fails (audio_response a.call.time_uuid (time_of a.call.time_uuid)) ≡ false
      → (o : Outcome S) × (add_audio_message db media json_fails time_of a w ≡ some o)
        × (o.1 ≡ false)
        × (o.0.pushed ≡ w.pushed)
        × (o.0.status ≡ 500)
        × (o.0.body ≡ audio_response a.call.time_uuid (time_of a.call.time_uuid))
  unfolding add_audio_message store_message written json
  unsent_message a m w signature works e put insert es em ew ej ek =
      let t = time_of a.call.time_uuid in
      let s1 = (media.put_object w.store a.chain_id a.call.time_uuid m.content).0 in
      let s2 = (media.insert_message s1 a.chain_id (new_row db media json_fails time_of a m)).0 in
      let s3 = (db.update s2 a.call.relation_id a.call.user_id (recv_columns t)).0 in
      let s4 = (db.update s3 a.call.user_id a.call.relation_id (seen_columns t)).0 in
      (
        (record w { store = s4; status = 500; body = audio_response a.call.time_uuid t }, false),
        rw
            (
              add_audio_message,
              e,
              store_message,
              put w.store,
              insert s1 (new_row db media json_fails time_of a m),
              works.updates s2 a.call.relation_id a.call.user_id (recv_columns t),
              works.updates s3 a.call.user_id a.call.relation_id (seen_columns t),
              unsent a m (record w { store = s4 }) signature es em ew ej,
              json,
              ek,
            )
            refl,
        refl,
        refl,
        refl,
        refl,
      )
