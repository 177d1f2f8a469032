-- ===== src/WebSocket/Auth.antt =====
-- `auth_client`: the token is asked for until it is accepted or refused. What the websocket and
-- the jwt library answer is an argument, one value for each round; the fields of the client's
-- message are what jsoniter reads in it.
pub mod Tries
use project_h_server.Prelude.{
  ℕ, suc, zero, ◌+◌, List, [], ◌∷◌, Option, none, some, Bool, true, false, ◌==◌, not, if◌then◌else◌,
  Bytes, same,
}

-- What `jwt.Parse` makes of a token: valid claims, claims that are no map or not valid, an error
-- that is `ValidationErrorExpired` alone, or another error.
pub data Jwt : Type 0 where
  claims : (user_id session_id : Bytes) → Jwt
  bad_claims expired invalid : Jwt

pub record Reply : Type 0 where
  pub op : ℕ
  pub token : Bytes
  pub prev_id : Bytes

-- A round: whether the request is written, whether the deadline is set, and the client's message.
pub record Round : Type 0 where
  pub request_ok : Bool
  pub deadline_ok : Bool
  pub reply : Option Reply

pub data AuthAct : Type 0 where
  -- `write_message(ws, 1001, nil)`, and the error messages 3000 and 3001
  asks unresponsive auth_error : AuthAct

pub data AuthEnd : Type 0 where
  accepted : (user_id session_id prev_id : Bytes) → AuthEnd
  refused : AuthEnd
  -- the client has not answered yet
  waiting : AuthEnd

-- What a round comes to, once the token is asked for.
pub data Verdict : Type 0 where
  ends : List AuthAct → AuthEnd → Verdict
  -- the token has expired
  too_old : Verdict

module _ (parse : Bytes → Jwt) where
  unfoldable pub on_token : Bytes → Reply → Verdict
  on_token token r = elim (parse token) [
    | claims user_id session_id ↦ ends [] (accepted user_id session_id r.prev_id)
    | bad_claims ↦ ends [] refused
    | expired ↦ too_old
    | invalid ↦ ends [] refused
  ]

  unfoldable pub on_reply : Option Reply → Verdict
  on_reply none = ends [] refused
  on_reply (some r) =
      if not (r.op == 1001)
      then ends [] refused
      else if same r.token []
      then ends [] refused
      else on_token r.token r

  unfoldable pub judge : Round → Verdict
  judge r =
      if not r.request_ok
      then ends [] refused
      else if not r.deadline_ok
      then ends (unresponsive ∷ []) refused
      else on_reply r.reply

  -- The loop with the counter `tries`, raised at the start of each round.
  unfoldable pub auth_loop : ℕ → List Round → List AuthAct × AuthEnd
  auth_loop tries [] = (asks ∷ [], waiting)
  auth_loop tries (r ∷ rs) =
      let again = auth_loop (suc tries) rs in
      elim (judge r) [
        | ends acts e ↦ (asks ∷ acts, e)
        | too_old ↦
            if suc tries == 2
            then (asks ∷ auth_error ∷ [], refused)
            else (asks ∷ auth_error ∷ again.0, again.1)
      ]

  unfoldable pub auth_client : List Round → List AuthAct × AuthEnd
  unfolding auth_loop
  auth_client rs = auth_loop 0 rs
