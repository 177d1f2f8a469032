-- ===== src/Http/Reply.antt =====
-- `fiber.Ctx` as the handlers use it, and the error handlers.
-- An id, a UUID and its text are one number. A handler's result says whether it returned an error:
-- the error handlers return what `c.JSON` returned, which is an argument, `json_fails`.
use project_h_server.Prelude.{ℕ, ℤ, List, [], Bool, Bytes, if◌then◌else◌}
use project_h_server.Http.Mapper.{RelationsSchema}

-- What is answered.
pub data Body : Type 0 where
  empty ok_response : Body
  error_response : (problem description : Bytes) → Body
  username_response : Bytes → Body
  accept_response : (chain_id updated : ℕ) → Body
  session_response : Bytes → Body
  audio_response : (message_id last_seen : ℕ) → Body
  stream_response : Bytes → Body
  relations_response : RelationsSchema → Body
  user_info_response : (user_id : ℕ) (username statement : Bytes) → RelationsSchema → Body

-- `ws_message` with its data, and the session that sends it.
pub data MessageData : Type 0 where
  friend_request_data : (origin_username target_username : Bytes) → MessageData
  friend_accept_data : (chain_id created : ℕ) → MessageData
  nil_data : MessageData
  message_data :
      (chain_id message_id created expires type_code : ℕ) (display : Bytes) (duration : ℤ)
      → MessageData

pub record WsMessage : Type 0 where
  pub op : ℕ
  pub origin_id : ℕ
  pub target_id : ℕ
  pub timestamp : ℕ
  pub signature : Bytes
  pub atomic : Bool
  pub payload : MessageData

-- The store, the answer so far, and the messages that `api_write_message` took with operation 100.
pub record World (S : Type 0) : Type 0 where
  pub store : S
  pub status : ℕ
  pub body : Body
  pub pushed : List WsMessage
  -- the response's headers, and the verification emails sent: the address and the code
  pub headers : List (Bytes × Bytes)
  pub mails : List (Bytes × Bytes)

-- The world after a call, and whether the call returned an error.
abbrev pub Outcome : Type 0 → Type 0
Outcome S = World S × Bool

module _ {S : Type 0} (json_fails : Body → Bool) where
  -- `c.JSON(b)`
  unfoldable pub json : Body → World S → Outcome S
  json b w = ((if json_fails b then w else record w { body = b }), json_fails b)

  -- `c.Status(n).JSON(b)`
  unfoldable pub status_json : ℕ → Body → World S → Outcome S
  unfolding json
  status_json n b w = json b (record w { status = n })

  unfoldable pub internal_error : World S → Outcome S
  unfolding status_json
  internal_error w = status_json 500 (error_response [] []) w

  unfoldable pub bad_request : (problem description : Bytes) → World S → Outcome S
  unfolding status_json
  bad_request problem description w = status_json 400 (error_response problem description) w

  unfoldable pub invalid_request : (problem description : Bytes) → World S → Outcome S
  unfolding status_json
  invalid_request problem description w = status_json 202 (error_response problem description) w

  unfoldable pub ok : World S → Outcome S
  unfolding status_json
  ok w = status_json 200 ok_response w
