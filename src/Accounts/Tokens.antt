-- ===== src/Accounts/Tokens.antt =====
-- `GenerateJWT` and `GenerateAndRefreshTokens`. A command that is queued in a pipeline reports no
-- error; the pipeline is executed unless the function that fills it returns one.
pub mod Outcomes
use project_h_server.Prelude.{
  ℕ, ◌+◌, ◌*◌, ◌/◌, List, [], ◌∷◌, ◌++◌, Option, none, some, Bool, true, false, Bytes, codes, same,
  decimal, if◌then◌else◌,
}
use project_h_server.Http.Reply.{Body, World, Outcome, internal_error}
use project_h_server.Http.Authenticate.{Claims}
use project_h_server.Accounts.Store.{Database, RefreshToken}

-- `RefreshTokenDuration`, in milliseconds.
abbrev pub refresh_token_duration : ℕ
refresh_token_duration = 24 * 60 * (60 * 60000)

-- What `RandomTokenString(40)`, the clock in milliseconds and `c.IP` answer.
pub record TokenCall : Type 0 where
  pub random_token : Option Bytes
  pub now : ℕ
  pub ip : Bytes

module _ {S : Type 0} (db : Database S) (json_fails : Body → Bool)
    (sign : Claims → ℕ → Option Bytes) where
  -- The claims are signed with an expiry an hour ahead, in seconds.
  unfoldable pub generate_jwt : Claims → ℕ → World S → Bytes × Outcome S
  unfolding internal_error
  generate_jwt claims now w = elim (sign claims (now / 1000 + 3600)) [
    | none ↦ ([], internal_error json_fails w)
    | some token ↦ (token, (w, false))
  ]

  -- `Pipelined`: with an error of the function, or of the execution of what is queued.
  unfoldable pub execute : Outcome S → (S → S × Bool) → World S × Bool
  execute (w, true) exec = (w, true)
  execute (w, false) exec = (record w { store = (exec w.store).0 }, (exec w.store).1)

  -- The pipeline's function: the refresh token, the access token, `redisError` and the outcome.
  -- Without a refresh token nothing is queued.
  pub record Filled : Type 0 where
    pub queued : Option RefreshToken
    pub access_token : Bytes
    pub redis_error : Bool
    pub outcome : Outcome S

  unfoldable pub fill : TokenCall → Claims → World S → Filled
  unfolding generate_jwt internal_error
  fill call claims w = elim call.random_token [
    | none ↦ record {
      queued = none;
      access_token = [];
      redis_error = true;
      outcome = internal_error json_fails w;
    }
    | some token ↦
        let jwt = generate_jwt claims call.now w in
        record {
          queued = some (record {
            token = token;
            user_id = claims.id;
            ip = call.ip;
            expire_at = call.now + refresh_token_duration;
          });
          access_token = jwt.0;
          redis_error = same jwt.0 [];
          outcome = if same jwt.0 [] then jwt.1 else (w, false);
        }
  ]

  unfoldable pub run_queue : Bytes → Option RefreshToken → S → S × Bool
  run_queue session none s = (s, false)
  run_queue session (some t) s = db.set_token s session t

  unfoldable pub token_headers : RefreshToken → Bytes → List (Bytes × Bytes)
  token_headers t access_token =
      (codes "x-refreshed", codes "true")
      ∷ (codes "x-refresh-token", t.token)
      ∷ (codes "x-refresh-token-expire", decimal t.expire_at)
      ∷ (codes "x-access-token", access_token)
      ∷ []

  -- What follows the pipeline: without an error nor `redisError` there is a refresh token.
  unfoldable pub finish : Filled → Outcome S → Outcome S
  unfolding internal_error token_headers
  finish f (w, true) = internal_error json_fails w
  finish f (w, false) = if f.redis_error then (w, false) else elim f.queued [
    | none ↦ (w, false)
    | some t ↦ (record w { headers = w.headers ++ token_headers t f.access_token }, false)
  ]

  unfoldable pub generate_and_refresh_tokens : TokenCall → Claims → World S → Outcome S
  unfolding fill execute run_queue finish
  generate_and_refresh_tokens call claims w =
      let f = fill call claims w in
      finish f (execute f.outcome (run_queue claims.session_id f.queued))
