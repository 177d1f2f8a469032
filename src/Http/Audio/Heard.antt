-- ===== src/Http/Audio/Heard.antt =====
-- A message that was listened to.
use mathlib.Core.Path.{subst}
use project_h_server.Prelude.{
  Option, ℕ, suc, pos, ◌≡◌, ◌≢◌, ◌≤◌, refl, sym, ap, ◌∙◌, inl, inr, List, some, Bool, true, false,
  Bytes, codes, same, same_refl, arith, ◌==◌, Bool-cases, Any,
}
use project_h_server.Http.Reply.{Body, stream_response, World}
use project_h_server.Http.Store.{Database}
use project_h_server.Http.GetChain.{ChainRow, MessageSchema, Query, get_chain_service}
use project_h_server.Http.GetChain.Window.{Selects, shown}
use project_h_server.Http.GetChain.Service.{IsNewest, newest-shown}
use project_h_server.Http.Audio.{
  Media, GetCall, mark_seen, parse_param_message_uuid, stream_audio, get_audio_message,
}
use project_h_server.Http.Audio.Sent.{Chats, seen_as}

-- CQL's UPDATE of `seen` of one row, which is written where there is none; the other UPDATE is of
-- another table, whatever becomes of it.
pub record MarksSeen {S : Type 0} (media : Media S) (chats : Chats S) : Type 0 where
  pub set-seen :
      (s : S) (c t : ℕ)
      → (media.set_seen s c t).1 ≡ false
      → (r : ChainRow) × (chats.messages (media.set_seen s c t).0 c t ≡ some r)
        × ((old : ChainRow) → chats.messages s c t ≡ some old → r ≡ seen_as true old)
  pub seen-other :
      (s : S) (c t t' : ℕ)
      → t' ≢ t
      → chats.messages (media.set_seen s c t).0 c t' ≡ chats.messages s c t'
  pub last_seen-message :
      (s : S) (u c t c' t' : ℕ)
      → chats.messages (media.set_last_seen s u c t).0 c' t' ≡ chats.messages s c' t'

module _ {S : Type 0} (db : Database S) (media : Media S) (json_fails : Body → Bool)
    (time_of : ℕ → ℕ) (chats : Chats S) (laws : MarksSeen media chats) where
  marked :
      (u c id : ℕ) (s : S) (old : ChainRow)
      → (media.set_seen s c (time_of id)).1 ≡ false
      → chats.messages s c (time_of id) ≡ some old
      → chats.messages (mark_seen db media json_fails time_of u c id s) c (time_of id)
        ≡ some (seen_as true old)
  unfolding mark_seen
  marked u c id s old f e =
      let (r, g, k) = laws.set-seen s c (time_of id) f in
      rw (mark_seen, f)
        (laws.last_seen-message (media.set_seen s c (time_of id)).0 u c (time_of id) c (time_of id)
          ∙ g
          ∙ ap some (k old e))

  -- No other row of the chain is written.
  unmarked :
      (u c id t : ℕ) (s : S)
      → (media.set_seen s c (time_of id)).1 ≡ false
      → t ≢ time_of id
      → chats.messages (mark_seen db media json_fails time_of u c id s) c t ≡ chats.messages s c t
  unfolding mark_seen
  unmarked u c id t s f other =
      rw (mark_seen, f)
        (laws.last_seen-message (media.set_seen s c (time_of id)).0 u c (time_of id) c t
          ∙ laws.seen-other s c (time_of id) t other)

  still-IsNewest :
      (u c id : ℕ) (s : S)
      → (media.set_seen s c (time_of id)).1 ≡ false
      → IsNewest (chats.messages s) c (time_of id)
      → IsNewest (chats.messages (mark_seen db media json_fails time_of u c id s)) c (time_of id)
  still-IsNewest u c id s f new t x h = elim (Bool-cases (t == time_of id)) [
    | inl e ↦ ground (arith, e)
    | inr e ↦ new t x (sym (unmarked u c id t s f (λ p. ground (arith, e, p))) ∙ h)
  ]

  parsed :
      (param : Option ℕ) (id : ℕ) (w : World S)
      → param ≡ some id
      → parse_param_message_uuid db media json_fails time_of param w ≡ (id, (w, false))
  unfolding parse_param_message_uuid
  parsed param id w e = rw e refl

  -- A request with `seen` "false" for the newest message of a chain, one that MinIO hands out, is
  -- answered with the object and starts mark_seen. If the first UPDATE of that does not fail, the
  -- service GetChain afterwards answers a request with a positive limit, no direction and a time
  -- not before the message's with, among others, the message as it was, but seen; the queries do
  -- not fail and do to the table what the database documents, each row's id being a UUID.
  pub get_audio_message-seen :
      (call : GetCall) (id : ℕ) (object : Bytes) (w : World S) (s : S) (old : ChainRow)
      (select : Query → ℕ → ℕ → ℕ → List ChainRow) (t k : ℕ) (asc desc : Bytes)
      → call.message_id ≡ some id
      → call.seen ≡ codes "false"
      → media.get_object w.store call.chain_id id ≡ some object
      → (media.set_seen s call.chain_id (time_of id)).1 ≡ false
      → chats.messages s call.chain_id (time_of id) ≡ some old
      → old.created ≡ time_of id
      → IsNewest (chats.messages s) call.chain_id (time_of id)
      → Selects
          (chats.messages (mark_seen db media json_fails time_of call.user_id call.chain_id id s))
          select
      → time_of id ≤ t
      → same asc (codes "true") ≡ false
      → same desc (codes "true") ≡ false
      → (get_audio_message db media json_fails time_of call w ≡ (
        (record w { body = stream_response object }, false),
        some (mark_seen db media json_fails time_of call.user_id call.chain_id id),
      ))
        × ((ms : List MessageSchema) × (get_chain_service time_of select call.chain_id
                (some t)
                (some (pos (suc k)))
                asc
                desc
              ≡ some ms)
            × Any (λ m. m ≡ record (shown time_of old) { seen = true }) ms)
  unfolding get_audio_message stream_audio
  get_audio_message-seen call id object w s old select t k asc desc ei es eo f eold ec new selects l
        ea ed =
      let s' = mark_seen db media json_fails time_of call.user_id call.chain_id id s in
      let e = marked call.user_id call.chain_id id s old f eold in
      (
        rw (get_audio_message, parsed call.message_id id w ei)
            (rw (stream_audio, eo, es, same_refl (codes "false")) refl),
        newest-shown time_of (chats.messages s') select selects call.chain_id t (seen_as true old) k
            asc desc ea ed
            (subst (λ x. chats.messages s' call.chain_id x ≡ some (seen_as true old)) (sym ec) e)
            (omega (arith, ec, l))
            (subst (IsNewest (chats.messages s') call.chain_id) (sym ec)
              (still-IsNewest call.user_id call.chain_id id s f new)),
      )
