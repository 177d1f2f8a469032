-- ===== src/Http/Audio/Listed.antt =====
-- A message that was added, in the newest messages of its chain.
use project_h_server.Prelude.{
  ℕ, suc, pos, ◌≡◌, ◌≢◌, ◌≤◌, ap, inl, inr, List, [], ◌∷◌, ◌++◌, some, Bool, false, Bytes, codes,
  same, Any,
}
use project_h_server.Http.Reply.{Body, World, Outcome}
use project_h_server.Http.Store.{Row, Database, IsDatabase}
use project_h_server.Http.GetChain.{ChainRow, MessageSchema, Query, get_chain_service}
use project_h_server.Http.GetChain.Window.{Selects, shown}
use project_h_server.Http.GetChain.Service.{IsNewest, newest-shown}
use project_h_server.Http.Audio.{AudioCall, Audio, Media, new_row, add_audio_message}
use project_h_server.Http.Audio.Sent.{Chats, IsMedia, seen_as, message_of}
use project_h_server.Http.Audio.Announced.{IsStored, add_audio_message-Announces}

-- A message of a list that shows what was added.
abbrev pub Shows : (id user created : ℕ) → Audio → MessageSchema → Type 0
Shows id user created m x =
    (x.message_id ≡ id)
    × (x.user_id ≡ user)
    × (x.created ≡ created)
    × (x.expires ≡ m.expires)
    × (x.display ≡ m.display)
    × (x.duration ≡ m.duration)

Any-weaken :
    {A : Type 0} (P Q : A → Type 0) → ((x : A) → P x → Q x) → (xs : List A) → Any P xs → Any Q xs
Any-weaken P Q f [] h = h
Any-weaken P Q f (x ∷ xs) (inl h) = inl (f x h)
Any-weaken P Q f (x ∷ xs) (inr h) = inr (Any-weaken P Q f xs h)

module _ {S : Type 0} (db : Database S) (media : Media S) (json_fails : Body → Bool)
    (time_of : ℕ → ℕ) (chats : Chats S) (row : S → ℕ → ℕ → Row) (laws : IsDatabase db row)
    (media_laws : IsMedia db media chats) (select : Query → ℕ → ℕ → ℕ → List ChainRow) where
  stored-listed :
      (a : AudioCall) (m : Audio) (s : S) (t k : ℕ) (asc desc : Bytes)
      → Selects (chats.messages s) select
      → IsStored db media json_fails time_of chats row a m s
      → time_of a.call.time_uuid ≤ t
      → IsNewest (chats.messages s) a.chain_id (time_of a.call.time_uuid)
      → same asc (codes "true") ≡ false
      → same desc (codes "true") ≡ false
      → (ms : List MessageSchema) × (get_chain_service time_of select a.chain_id
            (some t)
            (some (pos (suc k)))
            asc
            desc
          ≡ some ms)
        × Any (Shows a.call.time_uuid a.call.user_id (time_of a.call.time_uuid) m) ms
  stored-listed a m s t k asc desc selects h l new ea ed =
      let (b, e) = h.in_chain in
      let r = seen_as b (new_row db media json_fails time_of a m) in
      let (ms, g, any) =
        newest-shown time_of (chats.messages s) select selects a.chain_id t r k asc desc ea ed e l
          new in
      (
        ms,
        g,
        Any-weaken (λ x. x ≡ shown time_of r)
            (Shows a.call.time_uuid a.call.user_id (time_of a.call.time_uuid) m)
            (λ x p. (
              ap MessageSchema.message_id p,
              ap MessageSchema.user_id p,
              ap MessageSchema.created p,
              ap MessageSchema.expires p,
              ap MessageSchema.display p,
              ap MessageSchema.duration p,
            ))
            ms any,
      )

  -- A message that the other user, not the sender, is told of is among those that the service
  -- GetChain answers to a request with a positive limit, no direction and a time not before the
  -- message's, with its id, sender, time, expiry, display and duration, if no message of the chain
  -- is later, and the queries do not fail and do to the table what the database documents, each
  -- row's id being a UUID.
  pub add_audio_message-get_chain_service :
      (a : AudioCall) (w : World S) (o : Outcome S) (t k : ℕ) (asc desc : Bytes)
      → a.call.relation_id ≢ a.call.user_id
      → add_audio_message db media json_fails time_of a w ≡ some o
      → o.0.pushed ≢ w.pushed
      → Selects (chats.messages o.0.store) select
      → time_of a.call.time_uuid ≤ t
      → IsNewest (chats.messages o.0.store) a.chain_id (time_of a.call.time_uuid)
      → same asc (codes "true") ≡ false
      → same desc (codes "true") ≡ false
      → (m : Audio) × (signature : Bytes) × (ms : List MessageSchema) × (o.0.pushed
          ≡ w.pushed ++ message_of time_of a m signature ∷ [])
        × (get_chain_service time_of select a.chain_id (some t) (some (pos (suc k))) asc desc
            ≡ some ms)
        × Any (Shows a.call.time_uuid a.call.user_id (time_of a.call.time_uuid) m) ms
  add_audio_message-get_chain_service a w o t k asc desc others e told selects l new ea ed =
      let h =
        add_audio_message-Announces db media json_fails time_of chats row laws media_laws a w
          others in
      elim (rw e at h) [
        | inl p ↦ absurd (told p)
        | inr (m, x, _, st, p) ↦
            let (ms, g, any) = stored-listed a m o.0.store t k asc desc selects st l new ea ed in
            (m, x, ms, p, g, any)
      ]
