-- ===== src/Http/Authenticate/Entrance.antt =====
-- Who passes `Authenticate`.
use project_h_server.Prelude.{
  ℕ, ◌≡◌, ◌≢◌, ◌⊎◌, ◌≤◌, inl, inr, refl, sym, ap, ◌∙◌, List, [], ◌∷◌, some, Bool, false, Bytes,
  arith, Bool-cases, ltb, same, same_iff, Option-cases,
}
use project_h_server.Http.Reply.{
  Body, World, Outcome, bad_request, internal_error, invalid_request, status_json, json,
}
use project_h_server.Http.Authenticate.{
  Claims, Jwt, valid, expired, Stored, fields, nil, failed, invalid, bad_claims, Request, enters,
  parse_jwt, check_user, on_expired, check_token, check_bearer, authenticate,
}

not_same : (s : Bytes) → s ≢ [] → same s [] ≡ false
not_same s h = ground (arith, same_iff s [])

module _ {S : Type 0} (json_fails : Body → Bool) (jwt : Bytes → Jwt) (stored : Bytes → Stored)
    (refresh_tokens : Claims → World S → Outcome S) where
  -- A token that is valid, or expired while the session has a stored refresh token of its user.
  pub record IsGranted (q : Request) (now : ℕ) (claims : Claims) (token : Bytes) : Type 0 where
    pub bearer : (before : Bytes) × (q.bearer_split ≡ before ∷ token ∷ [])
    pub named : (q.session_id ≢ []) × (q.refresh_token ≢ [])
    pub in_time : (at : ℕ) × (q.expire_at ≡ some at) × (now ≤ at)
    pub session : claims.session_id ≡ q.session_id
    pub granted :
        (jwt token ≡ valid claims)
        ⊎ ((jwt token ≡ expired claims) × (stored q.session_id ≡ fields claims.id))

  check_user-enters :
      (q : Request) (c claims : Claims) (u : Bytes) (w w' : World S)
      → check_user json_fails jwt stored refresh_tokens q c u w ≡ enters claims w'
      → (u ≡ c.id) × (c ≡ claims)
  unfolding check_user bad_request status_json json
  check_user-enters q c claims u w w' h = elim (Bool-cases (same c.id u)) [
    | inl e ↦ (sym ((same_iff c.id u).0 e), ground (arith, e))
    | inr e ↦ absurd (ground (arith, e))
  ]

  Stored-cases : (x : Stored) → ((u : Bytes) × (x ≡ fields u)) ⊎ ((x ≡ nil) ⊎ (x ≡ failed))
  Stored-cases (fields u) = inl (u, refl)
  Stored-cases nil = inr (inl refl)
  Stored-cases failed = inr (inr refl)

  on_expired-enters :
      (q : Request) (c claims : Claims) (w w' : World S)
      → on_expired json_fails jwt stored refresh_tokens q c w ≡ enters claims w'
      → (stored q.session_id ≡ fields c.id) × (c ≡ claims)
  unfolding on_expired bad_request internal_error invalid_request status_json json
  on_expired-enters q c claims w w' h = elim (Stored-cases (stored q.session_id)) [
    | inl (u, e) ↦
        let k = check_user-enters q c claims u w w' (rw (on_expired, e) at h) in
        (e ∙ ap fields k.0, k.1)
    | inr (inl e) ↦ absurd (ground (arith, e))
    | inr (inr e) ↦ absurd (ground (arith, e))
  ]

  Jwt-cases :
      (x : Jwt)
      → ((c : Claims) × (x ≡ valid c))
        ⊎ (((c : Claims) × (x ≡ expired c)) ⊎ ((x ≡ invalid) ⊎ ((b : Bool) × (x ≡ bad_claims b))))
  Jwt-cases (valid c) = inl (c, refl)
  Jwt-cases (expired c) = inr (inl (c, refl))
  Jwt-cases invalid = inr (inr (inl refl))
  Jwt-cases (bad_claims b) = inr (inr (inr (b, refl)))

  check_token-enters :
      (q : Request) (token : Bytes) (claims : Claims) (w w' : World S)
      → q.session_id ≢ []
      → check_token json_fails jwt stored refresh_tokens q token w ≡ enters claims w'
      → (claims.session_id ≡ q.session_id)
        × ((jwt token ≡ valid claims)
            ⊎ ((jwt token ≡ expired claims) × (stored q.session_id ≡ fields claims.id)))
  unfolding check_token parse_jwt bad_request internal_error status_json json
  check_token-enters q token claims w w' n h = elim (Jwt-cases (jwt token)) [
    | inl (c, e) ↦ elim (Bool-cases (same c.session_id q.session_id)) [
      | inl t ↦
          let k : c ≡ claims = ground (arith, e, t) in
          (
            ap Claims.session_id (sym k) ∙ (same_iff c.session_id q.session_id).0 t,
            inl (e ∙ ap valid k),
          )
      | inr t ↦ absurd (ground (arith, e, t))
    ]
    | inr (inl (c, e)) ↦ elim (Bool-cases (same c.session_id q.session_id)) [
      | inl t ↦
          let k = on_expired-enters q c claims w w' (rw (check_token, parse_jwt, e, t) at h) in
          (
            ap Claims.session_id (sym k.1) ∙ (same_iff c.session_id q.session_id).0 t,
            inr (e ∙ ap expired k.1, k.0 ∙ ap (λ x. fields (Claims.id x)) k.1),
          )
      | inr t ↦ absurd (ground (arith, e, t))
    ]
    | inr (inr (inl e)) ↦ absurd (ground (arith, e, same_iff [] q.session_id))
    | inr (inr (inr (b, e))) ↦ absurd (ground (arith, e, same_iff [] q.session_id))
  ]

  pair-cases :
      (xs : List Bytes)
      → ((a : Bytes) × (b : Bytes) × (xs ≡ a ∷ b ∷ []))
        ⊎ ((xs ≡ [])
            ⊎ (((a : Bytes) × (xs ≡ a ∷ []))
                ⊎ ((a : Bytes) × (b : Bytes) × (c : Bytes) × (ys : List Bytes) × (xs
                      ≡ a ∷ b ∷ c ∷ ys))))
  pair-cases [] = inr (inl refl)
  pair-cases (a ∷ []) = inr (inr (inl (a, refl)))
  pair-cases (a ∷ b ∷ []) = inl (a, b, refl)
  pair-cases (a ∷ b ∷ c ∷ ys) = inr (inr (inr (a, b, c, ys, refl)))

  check_bearer-enters :
      (q : Request) (at now : ℕ) (claims : Claims) (w w' : World S)
      → check_bearer json_fails jwt stored refresh_tokens q at now w ≡ enters claims w'
      → (token : Bytes) × ((before : Bytes) × (q.bearer_split ≡ before ∷ token ∷ []))
        × (now ≤ at)
        × (check_token json_fails jwt stored refresh_tokens q token w ≡ enters claims w')
  unfolding check_bearer bad_request status_json json
  check_bearer-enters q at now claims w w' h = elim (pair-cases q.bearer_split) [
    | inl (a, b, e) ↦ elim (Bool-cases (ltb at now)) [
      | inl l ↦ absurd (ground (arith, e, l))
      | inr l ↦ (b, (a, e), ground arith, rw (check_bearer, e, l) at h)
    ]
    | inr (inl e) ↦ absurd (ground (arith, e))
    | inr (inr (inl (a, e))) ↦ absurd (ground (arith, e))
    | inr (inr (inr (a, b, c, ys, e))) ↦ absurd (ground (arith, e))
  ]

  -- A request passes only if its session id and refresh token are not empty, its refresh token's
  -- date is not over, and its access token is of that session and either valid, or expired while
  -- the store names the token's user for the session.
  pub authenticate-enters :
      (q : Request) (now : ℕ) (claims : Claims) (w w' : World S)
      → authenticate json_fails jwt stored refresh_tokens q now w ≡ enters claims w'
      → (token : Bytes) × IsGranted q now claims token
  unfolding authenticate bad_request status_json json
  authenticate-enters q now claims w w' h = elim (Option-cases q.expire_at) [
    | inl e ↦ absurd (ground (arith, e))
    | inr (at, e) ↦ elim (Bool-cases (same q.session_id [])) [
      | inl s ↦ absurd (ground (arith, e, s))
      | inr s ↦ elim (Bool-cases (same q.refresh_token [])) [
        | inl r ↦ absurd (ground (arith, e, s, r))
        | inr r ↦
            let named : q.session_id ≢ [] = λ k. ground (arith, same_iff q.session_id []) in
            let known : q.refresh_token ≢ [] = λ k. ground (arith, same_iff q.refresh_token []) in
            let (token, bearer, in_time, k) =
              check_bearer-enters q at now claims w w' (rw (authenticate, e, s, r) at h) in
            let g = check_token-enters q token claims w w' named k in
            (
              token,
              record {
                bearer = bearer;
                named = (named, known);
                in_time = (at, e, in_time);
                session = g.0;
                granted = g.1;
              },
            )
      ]
    ]
  ]

  -- The refresh token's value does not matter: any two that are not empty are treated alike.
  pub authenticate_any_token :
      (q : Request) (t : Bytes) (now : ℕ) (w : World S)
      → q.refresh_token ≢ []
      → t ≢ []
      → authenticate json_fails jwt stored refresh_tokens (record q { refresh_token = t }) now w
        ≡ authenticate json_fails jwt stored refresh_tokens q now w
  unfolding authenticate check_bearer check_token on_expired check_user
  authenticate_any_token q t now w h k = elim (Option-cases q.expire_at) [
    | inl e ↦ rw (authenticate, e) refl
    | inr (at, e) ↦ rw (authenticate, e, not_same q.refresh_token h, not_same t k) refl
  ]
