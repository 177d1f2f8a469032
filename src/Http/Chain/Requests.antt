-- ===== src/Http/Chain/Requests.antt =====
-- Which requests for a chain pass.
use mathlib.Core.Option.{some-injective}
use project_h_server.Prelude.{
  ℕ, ◌≡◌, ◌⊎◌, ◌↔◌, inl, inr, refl, sym, ap, List, [], ◌∷◌, ◌++◌, Option, some, none, Bool, arith,
  Bool-cases, ◌==◌, ==_iff, Option-cases, length, length-append, ◌≤◌,
}
use project_h_server.Http.Reply.{Body, World, bad_request, status_json, json}
use project_h_server.Http.Chain.{
  collect_users, next, parse_param_chain_uuid, choose_request, chain_request_middleware,
}

-- The chain's rows are those of the user and of the other.
abbrev pub IsOther : List (Option ℕ) → ℕ → ℕ → Type 0
IsOther rows user other =
    (rows ≡ some user ∷ some other ∷ []) ⊎ (rows ≡ some other ∷ some user ∷ [])

collect_users-length :
    (xs : List (Option ℕ)) (acc users : List ℕ)
    → collect_users xs acc ≡ some users
    → length acc ≤ length users
unfolding collect_users
collect_users-length [] acc users e = omega (arith, ap length (some-injective acc users e))
collect_users-length (none ∷ xs) acc users e = absurd (ground (arith, e))
collect_users-length (some u ∷ xs) acc users e =
    omega (arith, collect_users-length xs (acc ++ u ∷ []) users e, length-append acc (u ∷ []))

module _ {S : Type 0} (json_fails : Body → Bool) (rows : ℕ → List (Option ℕ)) (chain user other : ℕ)
    (w : World S) where
  passes :
      IsOther (rows chain) user other
      → chain_request_middleware json_fails rows (some chain) user w ≡ next chain other w
  unfolding chain_request_middleware parse_param_chain_uuid collect_users choose_request
  passes (inl e) = ground (arith, e)
  passes (inr e) = ground (arith, e)

  pair_of :
      (a b : ℕ)
      → choose_request json_fails chain user (a ∷ b ∷ []) w ≡ next chain other w
      → IsOther (some a ∷ some b ∷ []) user other
  unfolding choose_request bad_request status_json json
  pair_of a b h = elim (Bool-cases (a == user)) [
    | inl e ↦ let k : b ≡ other = ground (arith, e) in inl (rw ((==_iff a user).0 e, k) refl)
    | inr e ↦ elim (Bool-cases (b == user)) [
      | inl f ↦ let k : a ≡ other = ground (arith, e, f) in inr (rw ((==_iff b user).0 f, k) refl)
      | inr f ↦ absurd (ground (arith, e, f))
    ]
  ]

  chosen :
      (xs : List (Option ℕ)) (users : List ℕ)
      → collect_users xs [] ≡ some users
      → choose_request json_fails chain user users w ≡ next chain other w
      → IsOther xs user other
  unfolding collect_users choose_request bad_request status_json json
  chosen [] users e h = absurd (ground (arith, h))
  chosen (none ∷ xs) users e h = absurd (ground (arith, h))
  chosen (some a ∷ []) users e h = absurd (ground (arith, h))
  chosen (some a ∷ none ∷ xs) users e h = absurd (ground (arith, h))
  chosen (some a ∷ some b ∷ []) users e h = pair_of a b (rw (sym (some-injective _ users e)) at h)
  chosen (some a ∷ some b ∷ none ∷ xs) users e h = absurd (ground (arith, h))
  chosen (some a ∷ some b ∷ some c ∷ xs) users e h =
      absurd (ground (arith, h, collect_users-length xs (a ∷ b ∷ c ∷ []) users e))

  -- A request with a chain's id passes with `requestid` exactly if the chain's users are two: the
  -- user who sends it and, first or second, the one of that id.
  pub chain_request_middleware-next :
      (chain_request_middleware json_fails rows (some chain) user w ≡ next chain other w)
      ↔ IsOther (rows chain) user other
  unfolding chain_request_middleware parse_param_chain_uuid
  chain_request_middleware-next = (
    λ h. elim (Option-cases (collect_users (rows chain) [])) [
      | inl e ↦ absurd (ground (arith, e, h))
      | inr (users, e) ↦ chosen (rows chain) users e (rw (chain_request_middleware, e) at h)
    ],
    passes,
  )
