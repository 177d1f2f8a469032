-- ===== src/WebSocket/Connect/Outcomes.antt =====
-- What a removed session leaves, and how a recovered session starts.
use project_h_server.Prelude.{
  ℕ, ◌≡◌, ◌≢◌, refl, ◌∙◌, List, [], ◌∷◌, none, some, true, false, if◌then◌else◌, Bytes, codes, same,
  same_iff, same_refl, arith,
}
use project_h_server.Wire.{delim, byte_to_params_and_payload}
use project_h_server.Wire.RoundTrip.{parse-param_bytes, body, outcome-some}
use project_h_server.WebSocket.Connect.{
  WsState, new_state, succeeds, on_prev_state, on_recovered, connect_user,
}
use project_h_server.Socket.{
  Sockets, returns, get_shard, remove_user_session, send, hand_over, store, put_at,
}
use project_h_server.Socket.{panics as send_panics}
use project_h_server.Socket.Invariant.{IsSound}

-- From a sound table, removing a session whose id stands in an unlocked shard succeeds, and the
-- next message sent to its channel panics.
pub send-removed :
    (hash : Bytes → ℕ) (s : Sockets) (u d id payload : Bytes) (c : ℕ)
    → IsSound s
    → s.locked (get_shard hash id) ≡ false
    → s.table (get_shard hash id) id ≡ some c
    → (t : Sockets) × (remove_user_session hash u d id s ≡ returns tt t)
      × (t.table (get_shard hash id) id ≡ none)
      × (send c payload t ≡ send_panics t)
unfolding remove_user_session send
send-removed hash s u d id payload c v free here = (
  hand_over 22 none (u ∷ d ∷ id ∷ []) (record (store (get_shard hash id) id none s) {
    chans = put_at s.chans c (record (s.chans c) { closed = true });
  }),
  ground (arith, v.live (get_shard hash id) id c here),
  ground (arith, same_refl id),
  ground arith,
)

-- The router's positive answer holds one parameter.
answer_one :
    ((byte_to_params_and_payload (codes "1") 1 false).err ≡ none)
    × ((byte_to_params_and_payload (codes "1") 1 false).param ≡ codes "1" ∷ [])
unfolding byte_to_params_and_payload
answer_one = (refl, refl)

recovered-positive :
    (unmarshal : Bytes → WsState) (prev_id b : Bytes) (bs : List Bytes)
    → prev_id ≢ []
    → connect_user unmarshal prev_id ((21 ∷ codes "1") ∷ b ∷ bs) ≡ on_prev_state unmarshal b
unfolding connect_user on_recovered
recovered-positive unmarshal prev_id b bs h =
    ground (arith, answer_one.0, answer_one.1, same_iff prev_id [], same_refl (codes "1"))

handed_over :
    (unmarshal : Bytes → WsState) (c : ℕ) (state : Bytes)
    → c ≢ delim
    → on_prev_state unmarshal (31 ∷ body ((c ∷ []) ∷ []) state) ≡ (
        if same (c ∷ []) (codes "1")
        then succeeds (unmarshal state) false
        else succeeds new_state true)
unfolding on_prev_state
handed_over unmarshal c state h =
    let (e, p, l) = outcome-some _ (parse-param_bytes (c ∷ []) [] state (h, tt) tt (omega arith)) in
    rw (e, p, l)

-- A recovered session takes the state that the other server hands over, with no refresh, if that
-- server reports success; and starts from an empty state with a refresh if it does not.
pub connect_user-recovers :
    (unmarshal : Bytes → WsState) (prev_id state : Bytes) (bs : List Bytes)
    → prev_id ≢ []
    → (connect_user unmarshal prev_id ((21 ∷ codes "1") ∷ (31 ∷ body (codes "1" ∷ []) state) ∷ bs)
        ≡ succeeds (unmarshal state) false)
      × (connect_user unmarshal prev_id ((21 ∷ codes "1") ∷ (31 ∷ body (codes "0" ∷ []) state) ∷ bs)
          ≡ succeeds new_state true)
unfolding same
connect_user-recovers unmarshal prev_id state bs h = (
  recovered-positive unmarshal prev_id _ bs h ∙ handed_over unmarshal 49 state (omega arith),
  recovered-positive unmarshal prev_id _ bs h ∙ handed_over unmarshal 48 state (omega arith),
)
