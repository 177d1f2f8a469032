-- ===== src/WebSocket/Auth/Tries.antt =====
-- At most two tokens are asked for, and only a valid one is accepted.
use project_h_server.Prelude.{
  ℕ, suc, ◌≤◌, ◌≡◌, ◌≢◌, refl, ap, ◌∙◌, ◌⊎◌, inl, inr, List, [], ◌∷◌, some, true, Bytes, same_iff,
  arith, Option-cases,
}
use project_h_server.WebSocket.Auth.{
  Jwt, claims, expired, Reply, Round, AuthAct, asks, AuthEnd, accepted, waiting, Verdict, ends,
  too_old, on_token, on_reply, judge, auth_loop, auth_client,
}

-- How often the client is asked for a token.
abbrev pub count_asked : List AuthAct → ℕ
count_asked [] = 0
count_asked (asks ∷ acts) = suc (count_asked acts)
count_asked (a ∷ acts) = count_asked acts

-- A round in which the client sent a token, not empty, that parses to this.
pub record Sends (parse : Bytes → Jwt) (r : Round) (jwt : Jwt) (prev_id : Bytes) : Type 0 where
  pub asked : r.request_ok ≡ true
  pub waited : r.deadline_ok ≡ true
  pub sent :
      (reply : Reply) × (r.reply ≡ some reply)
      × (reply.op ≡ 1001)
      × (reply.token ≢ [])
      × (reply.prev_id ≡ prev_id)
      × (parse reply.token ≡ jwt)

module _ (parse : Bytes → Jwt) where
  judge-accepted :
      (r : Round) (acts : List AuthAct) (u d p : Bytes)
      → judge parse r ≡ ends acts (accepted u d p)
      → Sends parse r (claims u d) p
  unfolding judge on_reply on_token
  judge-accepted r acts u d p h = record {
    asked = ground arith;
    waited = ground arith;
    sent = elim (Option-cases r.reply) [
      | inl e ↦ absurd (ground (arith, e))
      | inr (reply, e) ↦ (
        reply,
        e,
        ground arith,
        ground (arith, same_iff reply.token []),
        ground arith,
        ground arith,
      )
    ];
  }

  judge-too_old : (r : Round) → judge parse r ≡ too_old → (p : Bytes) × Sends parse r expired p
  unfolding judge on_reply on_token
  judge-too_old r h = elim (Option-cases r.reply) [
    | inl e ↦ absurd (ground (arith, e))
    | inr (reply, e) ↦ (
      reply.prev_id,
      record {
        asked = ground arith;
        waited = ground arith;
        sent =
            (reply, e, ground arith, ground (arith, same_iff reply.token []), refl, ground arith);
      },
    )
  ]

  judge-waiting : (r : Round) (acts : List AuthAct) → judge parse r ≢ ends acts waiting
  unfolding judge on_reply on_token
  judge-waiting r acts h = absurd (ground arith)

  judge-asked :
      (r : Round) (acts : List AuthAct) (e : AuthEnd)
      → judge parse r ≡ ends acts e
      → count_asked acts ≡ 0
  unfolding judge on_reply on_token
  judge-asked r acts e h = ground arith

  Verdict-cases :
      (v : Verdict) → (v ≡ too_old) ⊎ ((acts : List AuthAct) × (e : AuthEnd) × (v ≡ ends acts e))
  Verdict-cases too_old = inl refl
  Verdict-cases (ends acts e) = inr (acts, e, refl)

  -- What holds of the authentication, over the first two rounds.
  pub record IsFinal (r1 r2 : Round) (res : List AuthAct × AuthEnd) : Type 0 where
    pub at_most_twice : count_asked res.0 ≤ 2
    pub over : res.1 ≢ waiting
    pub sound :
        (u d p : Bytes)
        → res.1 ≡ accepted u d p
        → Sends parse r1 (claims u d) p
          ⊎ (((p' : Bytes) × Sends parse r1 expired p') × Sends parse r2 (claims u d) p)

  -- With at most two answers of the client auth_client is over: it asks for a token twice at most,
  -- and accepts a user and a session only if a token that was sent, not empty, parses to their
  -- claims, in the first round or, after an expired token, in the second.
  pub auth_client-IsFinal :
      (r1 r2 : Round) (rs : List Round) → IsFinal r1 r2 (auth_client parse (r1 ∷ r2 ∷ rs))
  unfolding auth_client
  auth_client-IsFinal r1 r2 rs = elim (Verdict-cases (judge parse r1)) [
    | inr (acts, e, h) ↦
        rw (h, auth_loop)
          (record {
            at_most_twice = omega (arith, judge-asked r1 acts e h);
            over = λ w. judge-waiting r1 acts (h ∙ ap (ends acts) w);
            sound = λ u d p a. inl (judge-accepted r1 acts u d p (h ∙ ap (ends acts) a));
          })
    | inl h ↦
        rw (h, auth_loop)
          (elim (Verdict-cases (judge parse r2)) [
            | inl h2 ↦
                rw (h2, auth_loop)
                  (record { at_most_twice = omega arith; over = λ w. cc; sound = λ u d p a. cc })
            | inr (acts, e, h2) ↦
                rw (h2, auth_loop)
                  (record {
                    at_most_twice = omega (arith, judge-asked r2 acts e h2);
                    over = λ w. judge-waiting r2 acts (h2 ∙ ap (ends acts) w);
                    sound = λ u d p a.
                        inr (
                          judge-too_old r1 h,
                          judge-accepted r2 acts u d p (h2 ∙ ap (ends acts) a),
                        );
                  })
          ])
  ]
