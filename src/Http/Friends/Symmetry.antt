-- ===== src/Http/Friends/Symmetry.antt =====
-- Both users see the same relation, while no write fails.
use project_h_server.Prelude.{
  ℕ, ◌≡◌, ◌≢◌, refl, sym, ap, ◌∙◌, ◌⊎◌, inl, inr, ◌==◌, ==_iff, arith, Bool-cases,
}
use project_h_server.Http.Store.{both, Row, Columns, apply, Database, IsDatabase, Works}

-- The two rows of a relation agree.
pub record Agree (a b : Row) : Type 0 where
  pub friend : a.friend ≡ b.friend
  pub active : a.active ≡ b.active
  pub chain_id : a.chain_id ≡ b.chain_id
  pub created : a.created ≡ b.created

-- The columns that keep two agreeing rows so.
pub record Alike (a b : Columns) : Type 0 where
  pub friend : a.friend ≡ b.friend
  pub active : a.active ≡ b.active
  pub chain_id : a.chain_id ≡ b.chain_id
  pub created : a.created ≡ b.created

-- The same columns are alike.
pub Alike-refl : (c : Columns) → Alike c c
Alike-refl c = record { friend = refl; active = refl; chain_id = refl; created = refl }

apply-Agree : (c d : Columns) (a b : Row) → Alike c d → Agree a b → Agree (apply c a) (apply d b)
unfolding apply
apply-Agree c d a b h k = record { friend = cc; active = cc; chain_id = cc; created = cc }

Agree-refl : (a : Row) → Agree a a
Agree-refl a = record { friend = refl; active = refl; chain_id = refl; created = refl }

Agree-sym : {a b : Row} → Agree a b → Agree b a
Agree-sym h = record {
  friend = sym h.friend;
  active = sym h.active;
  chain_id = sym h.chain_id;
  created = sym h.created;
}

decide : (a b : ℕ) → (a ≡ b) ⊎ (a ≢ b)
decide a b = elim (Bool-cases (a == b)) [
  | inl e ↦ inl ((==_iff a b).0 e)
  | inr e ↦ inr (λ h. ground arith)
]

module _ {S : Type 0} (db : Database S) (row : S → ℕ → ℕ → Row) (laws : IsDatabase db row) where
  -- Any two users see the same relation.
  abbrev pub IsSymmetric : S → Type 0
  IsSymmetric s = (u r : ℕ) → Agree (row s u r) (row s r u)

  module _ (works : Works db) (s : S) (a b : ℕ) (c d : Columns) where
    pub both-mine : a ≢ b → row (both db s a b c d) a b ≡ apply c (row s a b)
    both-mine h =
        laws.update-user (db.update s a b c).0 b a d a b h
        ∙ laws.update-at s a b c (works.updates s a b c)

    pub both-theirs : a ≢ b → row (both db s a b c d) b a ≡ apply d (row s b a)
    both-theirs h =
        laws.update-at (db.update s a b c).0 b a d (works.updates (db.update s a b c).0 b a d)
        ∙ ap (apply d) (laws.update-user s a b c b a (λ e. h (sym e)))

    both-user : (u r : ℕ) → u ≢ a → u ≢ b → row (both db s a b c d) u r ≡ row s u r
    both-user u r h k =
        laws.update-user (db.update s a b c).0 b a d u r k ∙ laws.update-user s a b c u r h

    both-relation : (u r : ℕ) → r ≢ a → r ≢ b → row (both db s a b c d) u r ≡ row s u r
    both-relation u r h k =
        laws.update-relation (db.update s a b c).0 b a d u r h ∙ laws.update-relation s a b c u r k

    both-Agree :
        Alike c d
        → IsSymmetric s
        → a ≢ b
        → Agree (row (both db s a b c d) a b) (row (both db s a b c d) b a)
    both-Agree k sm h =
        rw (both-mine h, both-theirs h) (apply-Agree c d (row s a b) (row s b a) k (sm a b))

    both-other :
        (u r : ℕ)
        → IsSymmetric s
        → r ≢ a
        → r ≢ b
        → Agree (row (both db s a b c d) u r) (row (both db s a b c d) r u)
    both-other u r sm h k = rw (both-relation u r h k, both-user r u h k) (sm u r)

    pub both-IsSymmetric : Alike c d → IsSymmetric s → IsSymmetric (both db s a b c d)
    both-IsSymmetric k sm u r = elim (decide r a) [
      | inl ra ↦ elim (decide u b) [
        | inl ub ↦ elim (decide a b) [
          | inl ab ↦ rw (ra, ub, ab) (Agree-refl _)
          | inr ab ↦ rw (ra, ub) (Agree-sym (both-Agree k sm ab))
        ]
        | inr ub ↦ elim (decide u a) [
          | inl ua ↦ rw (ra, ua) (Agree-refl _)
          | inr ua ↦ Agree-sym (both-other r u sm ua ub)
        ]
      ]
      | inr ra ↦ elim (decide r b) [
        | inl rb ↦ elim (decide u a) [
          | inl ua ↦ rw (rb, ua) (both-Agree k sm (λ e. ra (rb ∙ sym e)))
          | inr ua ↦ elim (decide u b) [
            | inl ub ↦ rw (rb, ub) (Agree-refl _)
            | inr ub ↦ Agree-sym (both-other r u sm ua ub)
          ]
        ]
        | inr rb ↦ both-other u r sm ra rb
      ]
    ]
