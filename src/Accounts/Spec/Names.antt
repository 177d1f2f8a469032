-- ===== src/Accounts/Spec/Names.antt =====
-- Usernames through any history of the account services.
use mathlib.Core.Option.{some-injective}
use mathlib.Core.Path.{subst}
use project_h_server.Prelude.{
  ℕ, ◌≡◌, ◌≢◌, refl, sym, ap, ◌∙◌, ◌⊎◌, inl, inr, List, [], ◌∷◌, Option, none, some, Bool, Bytes,
  same, same_iff, same_refl, arith, Bool-cases,
}
use project_h_server.Http.Reply.{Body, World}
use project_h_server.Http.Authenticate.{Claims}
use project_h_server.Accounts.Password.{Cipher, value, refused, panics}
use project_h_server.Accounts.Store.{Database, IsDatabase, Tables, UserRow, put}
use project_h_server.Accounts.Register.{Handled, to_lower, fields, bad_json, invalid}
use project_h_server.Accounts.Spec.{
  Service, registers, resends, verifies, logs_in, taken, created, completed, IsVerified, IsAllowed,
  Holds, handle,
}
use project_h_server.Accounts.Spec.Refines.{Meets, handle-Meets}

-- Each row of `users`, and of `users_private`, belongs to the id that has the row's username, and
-- no two emails have rows with the same username.
pub record IsConsistent (t : Tables) : Type 0 where
  pub listed :
      (e : Bytes) (r : UserRow) → t.users e ≡ some r → t.users_public r.username ≡ some r.user_id
  pub unique :
      (e e' : Bytes) (r r' : UserRow)
      → t.users e ≡ some r
      → t.users e' ≡ some r'
      → r.username ≡ r'.username
      → e ≡ e'
  pub private_listed : (i n : Bytes) → t.users_private i ≡ some n → t.users_public n ≡ some i

-- Each username keeps its owner.
abbrev pub Owns : Tables → Tables → Type 0
Owns t u = (n i : Bytes) → t.users_public n ≡ some i → u.users_public n ≡ some i

pub some-ne-none : (j : Bytes) → some j ≢ none
some-ne-none j h = cc

put-cases :
    {A : Type 0} (f : Bytes → Option A) (k : Bytes) (v : Option A) (k' : Bytes)
    → ((k' ≡ k) × (put f k v k' ≡ v)) ⊎ ((k' ≢ k) × (put f k v k' ≡ f k'))
put-cases f k v k' = elim (Bool-cases (same k' k)) [
  | inl e ↦ inl ((same_iff k' k).0 e, rw e refl)
  | inr e ↦ inr (λ h. ground (arith, e, (same_iff k' k).1 h), rw e refl)
]

pub put_self : {A : Type 0} (f : Bytes → Option A) (k : Bytes) (v : Option A) → put f k v k ≡ v
put_self f k v = rw (same_refl k) refl

pub taken-Owns : (n i : Bytes) (t : Tables) → t.users_public n ≡ none → Owns t (taken n i t)
taken-Owns n i t free m j h = elim (put-cases t.users_public n (some i) m) [
  | inl (e, k) ↦ absurd (some-ne-none j (sym h ∙ ap t.users_public e ∙ free))
  | inr (ne, k) ↦ k ∙ h
]

taken-IsConsistent :
    (n i : Bytes) (t : Tables)
    → t.users_public n ≡ none
    → IsConsistent t
    → IsConsistent (taken n i t)
taken-IsConsistent n i t free c = record {
  listed = λ e r h. taken-Owns n i t free _ _ (c.listed e r h);
  unique = c.unique;
  private_listed = λ j m h. taken-Owns n i t free _ _ (c.private_listed j m h);
}

module _ (e : Bytes) (r : UserRow) (t : Tables) (free : t.users_public r.username ≡ none)
    (c : IsConsistent t) where
  created_row :
      (e' : Bytes) (r' : UserRow)
      → (created e r t).users e' ≡ some r'
      → ((e' ≡ e) × (r ≡ r')) ⊎ (t.users e' ≡ some r')
  created_row e' r' h = elim (put-cases t.users e (some r) e') [
    | inl (k, l) ↦ inl (k, some-injective r r' (sym l ∙ h))
    | inr (k, l) ↦ inr (sym l ∙ h)
  ]

  clash : (e' : Bytes) (r' : UserRow) → t.users e' ≡ some r' → r'.username ≢ r.username
  clash e' r' h k = some-ne-none r'.user_id (sym (c.listed e' r' h) ∙ ap t.users_public k ∙ free)

  created-IsConsistent : IsConsistent (created e r t)
  created-IsConsistent = record {
    listed = λ e' r' h. elim (created_row e' r' h) [
      | inl (k, l) ↦
          subst (λ x. (created e r t).users_public x.username ≡ some x.user_id) l
            (put_self t.users_public r.username (some r.user_id))
      | inr k ↦ taken-Owns r.username r.user_id t free _ _ (c.listed e' r' k)
    ];
    unique = λ e1 e2 r1 r2 h1 h2 n. elim (created_row e1 r1 h1) [
      | inl (k1, l1) ↦ elim (created_row e2 r2 h2) [
        | inl (k2, l2) ↦ k1 ∙ sym k2
        | inr k2 ↦ absurd (clash e2 r2 k2 (sym n ∙ ap UserRow.username (sym l1)))
      ]
      | inr k1 ↦ elim (created_row e2 r2 h2) [
        | inl (k2, l2) ↦ absurd (clash e1 r1 k1 (n ∙ ap UserRow.username (sym l2)))
        | inr k2 ↦ c.unique e1 e2 r1 r2 k1 k2 n
      ]
    ];
    private_listed = λ j m h. taken-Owns r.username r.user_id t free _ _ (c.private_listed j m h);
  }

  completed-IsConsistent : IsConsistent (completed e r t)
  completed-IsConsistent = record {
    listed = created-IsConsistent.listed;
    unique = created-IsConsistent.unique;
    private_listed = λ j m h. elim (put-cases t.users_private r.user_id (some r.username) j) [
      | inl (k, l) ↦
          let n : r.username ≡ m = some-injective r.username m (sym l ∙ h) in
          ap (created e r t).users_public (sym n)
          ∙ put_self t.users_public r.username (some r.user_id)
          ∙ ap some (sym k)
      | inr (k, l) ↦ created-IsConsistent.private_listed j m (sym l ∙ h)
    ];
  }

  IsVerified-IsConsistent : (u : Tables) → IsVerified e r t u → IsConsistent u × Owns t u
  IsVerified-IsConsistent u (inl k) =
      subst (λ x. IsConsistent x × Owns t x) (sym k)
        (taken-IsConsistent r.username r.user_id t free c, taken-Owns r.username r.user_id t free)
  IsVerified-IsConsistent u (inr (inl k)) =
      subst (λ x. IsConsistent x × Owns t x) (sym k)
        (created-IsConsistent, taken-Owns r.username r.user_id t free)
  IsVerified-IsConsistent u (inr (inr k)) =
      subst (λ x. IsConsistent x × Owns t x) (sym k)
        (completed-IsConsistent, taken-Owns r.username r.user_id t free)

-- Every change that is allowed keeps the names.
allowed-IsConsistent :
    (compare : (hash password : Bytes) → Bool) (s : Service) (t u : Tables)
    → IsConsistent t
    → IsAllowed compare s t u
    → IsConsistent u × Owns t u
allowed-IsConsistent compare (registers x (fields req)) t u c (p, _, _, _, _, k) =
    subst (λ x. IsConsistent x × Owns t x) (sym k)
      (
        record { listed = c.listed; unique = c.unique; private_listed = c.private_listed },
        λ n i h. h,
      )
allowed-IsConsistent compare (registers x bad_json) t u c h = absurd h
allowed-IsConsistent compare (registers x (invalid f g)) t u c h = absurd h
allowed-IsConsistent compare (resends p) t u c h = absurd h
allowed-IsConsistent compare (verifies x (fields req)) t u c (r, _, _, free, k) =
    IsVerified-IsConsistent (to_lower req.email) r t free c u k
allowed-IsConsistent compare (verifies x bad_json) t u c h = absurd h
allowed-IsConsistent compare (verifies x (invalid f g)) t u c h = absurd h
allowed-IsConsistent compare (logs_in x (fields req)) t u c (r, k, d, w, _, _, _, _, e) =
    subst (λ x. IsConsistent x × Owns t x) (sym e)
      (
        record { listed = c.listed; unique = c.unique; private_listed = c.private_listed },
        λ n i h. h,
      )
allowed-IsConsistent compare (logs_in x bad_json) t u c h = absurd h
allowed-IsConsistent compare (logs_in x (invalid f g)) t u c h = absurd h

module _ {S : Type 0} (db : Database S) (json_fails : Body → Bool)
    (sign : Claims → ℕ → Option Bytes) (cipher : Cipher)
    (compare : (hash password : Bytes) → Bool) where
  -- A history of requests, each to a new response; a panic ends it.
  abbrev pub after : Handled S → (World S → World S) → World S → World S
  after (value (w', e)) k w = k w'
  after (refused r) k w = w
  after panics k w = w

  abbrev pub handle_all : List Service → World S → World S
  handle_all [] w = w
  handle_all (c ∷ cs) w = after (handle db json_fails sign cipher compare c w) (handle_all cs) w

module _ {S : Type 0} (db : Database S) (view : S → Tables) (laws : IsDatabase db view)
    (json_fails : Body → Bool) (sign : Claims → ℕ → Option Bytes) (cipher : Cipher)
    (compare : (hash password : Bytes) → Bool) where
  abbrev history : List Service → World S → World S
  history = handle_all db json_fails sign cipher compare

  after-keeps :
      (P : S → Type 0) (h : Handled S) (k : World S → World S) (w : World S)
      → P w.store
      → Holds P h
      → ((w' : World S) → P w'.store → P (k w').store)
      → P (after db json_fails sign cipher compare h k w).store
  after-keeps P (value (w', e)) k w p h f = f w' h
  after-keeps P (refused r) k w p h f = p
  after-keeps P panics k w p h f = p

  Holds-map : (P Q : S → Type 0) (h : Handled S) → ((s : S) → P s → Q s) → Holds P h → Holds Q h
  Holds-map P Q (value (w, e)) f p = f w.store p
  Holds-map P Q (refused r) f p = tt
  Holds-map P Q panics f p = tt

  handle-IsConsistent :
      (c : Service) (w : World S)
      → IsConsistent (view w.store)
      → Holds
          (λ s. IsConsistent (view s) × Owns (view w.store) (view s))
          (handle db json_fails sign cipher compare c w)
  handle-IsConsistent c w k =
      Holds-map (Meets view compare c (view w.store))
        (λ s. IsConsistent (view s) × Owns (view w.store) (view s))
        (handle db json_fails sign cipher compare c w)
        (λ s m. elim m [
          | inl e ↦ subst (λ x. IsConsistent x × Owns (view w.store) x) (sym e) (k, λ n i h. h)
          | inr a ↦ allowed-IsConsistent compare c (view w.store) (view s) k a
        ])
        (handle-Meets db view laws json_fails sign cipher compare c w)

  -- Through any history of registrations, resent codes, verifications and logins, whatever fails in
  -- them, each row of `users` and of `users_private` belongs to the id that has its username, no
  -- two emails have rows with the same username, and each username keeps the id that took it, if
  -- the first two were so before; a panic ends the history.
  pub handle_all-IsConsistent :
      (cs : List Service) (w : World S)
      → IsConsistent (view w.store)
      → IsConsistent (view (handle_all db json_fails sign cipher compare cs w).store)
        × Owns (view w.store) (view (handle_all db json_fails sign cipher compare cs w).store)
  handle_all-IsConsistent [] w k = (k, λ n i h. h)
  handle_all-IsConsistent (c ∷ cs) w k =
      after-keeps (λ s. IsConsistent (view s) × Owns (view w.store) (view s))
        (handle db json_fails sign cipher compare c w) (history cs) w (k, λ n i h. h)
        (handle-IsConsistent c w k)
        (λ w' h.
          let (k', o) = handle_all-IsConsistent cs w' h.0 in (k', λ n i e. o n i (h.1 n i e)))
