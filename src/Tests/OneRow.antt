-- ===== src/Tests/OneRow.antt =====
-- The three queries on a table of one row.

use mathlib.Core.Path.{subst}
use mathlib.Core.Option.{some-injective}
use project_h_server.Prelude.{
  ℕ, ◌≡◌, ◌≢◌, ◌≤◌, ◌<◌, ◌⊎◌, refl, sym, inl, inr, List, [], ◌∷◌, Option, none, some, Bool, true,
  false, ◌==◌, ◌&&◌, leb, ltb, arith, length, All, Any, IsSorted, Bool-cases, if◌then◌else◌,
}
use project_h_server.Http.GetChain.{ChainRow, Query, after, before, until}
use project_h_server.Http.GetChain.Window.{Selects, Within, Nearer, in_order}

-- Whether a query asks for a time.
abbrev wants : Query → ℕ → ℕ → Bool
wants after t created = ltb t created
wants before t created = ltb created t
wants until t created = leb created t

wants-Within : (q : Query) (t created : ℕ) → wants q t created ≡ true → Within q t created
wants-Within after t created h = ground (arith, h)
wants-Within before t created h = ground (arith, h)
wants-Within until t created h = ground (arith, h)

Within-wants : (q : Query) (t created : ℕ) → Within q t created → wants q t created ≡ true
Within-wants after t created h = ground (arith, h)
Within-wants before t created h = ground (arith, h)
Within-wants until t created h = ground (arith, h)

module _ (chain : ℕ) (row : ChainRow) where
  abbrev pub one_row : ℕ → ℕ → Option ChainRow
  one_row c t = if (c == chain) && (t == row.created) then some row else none

  abbrev row_when : Bool → List ChainRow
  row_when true = row ∷ []
  row_when false = []

  abbrev asks : Query → ℕ → ℕ → ℕ → Bool
  asks q c t n = (c == chain) && (wants q t row.created && ltb 0 n)

  abbrev pub select_row : Query → ℕ → ℕ → ℕ → List ChainRow
  select_row q c t n = row_when (asks q c t n)

  row_when-bounded : (b : Bool) (n : ℕ) → (b ≡ true → 0 < n) → length (row_when b) ≤ n
  row_when-bounded true n h = omega (arith, h refl)
  row_when-bounded false n h = omega arith

  row_when-All : (P : ChainRow → Type 0) (b : Bool) → (b ≡ true → P row) → All P (row_when b)
  row_when-All P true h = (h refl, tt)
  row_when-All P false h = tt

  row_when-IsSorted : (less : ChainRow → ChainRow → Bool) (b : Bool) → IsSorted less (row_when b)
  row_when-IsSorted less true = (tt, tt)
  row_when-IsSorted less false = tt

  asks-cases :
      (q : Query) (c t n : ℕ)
      → asks q c t n ≡ true
      → ((c == chain) ≡ true) × (wants q t row.created ≡ true) × (0 < n)
  asks-cases q c t n h = (ground (arith, h), ground (arith, h), ground (arith, h))

  pub key_of :
      (c t : ℕ) (r : ChainRow)
      → one_row c t ≡ some r
      → ((c == chain) ≡ true) × (t ≡ row.created) × (r ≡ row)
  key_of c t r h = elim (Bool-cases ((c == chain) && (t == row.created))) [
    | inl e ↦
        let k : some row ≡ some r = rw e at h in
        (ground (arith, e), ground (arith, e), sym (some-injective row r k))
    | inr e ↦ let k : no_row ≡ some r = rw e at h in absurd (no_row-ne-some r k)
  ]
    where
      no_row : Option ChainRow
      no_row = none

      no_row-ne-some : (r : ChainRow) → no_row ≢ some r
      no_row-ne-some r h = cc

  stored : (c : ℕ) → (c == chain) ≡ true → one_row c row.created ≡ some row
  stored c e = ground (arith, e)

  nearest :
      (q : Query) (c t n : ℕ) (r : ChainRow)
      → one_row c r.created ≡ some r
      → Within q t r.created
      → Any (λ x. x ≡ r) (select_row q c t n)
        ⊎ ((length (select_row q c t n) ≡ n)
            × All (λ x. Nearer q (ChainRow.created x) r.created) (select_row q c t n))
  nearest q c t n r h l =
      let (ec, et, er) = key_of c r.created r h in
      let w : wants q t row.created ≡ true =
        subst (λ x. wants q t x ≡ true) et (Within-wants q t r.created l) in
      elim (Bool-cases (ltb 0 n)) [
        | inl e ↦ inl (rw (ec, w, e) (inl (sym er)))
        | inr e ↦
            let b : asks q c t n ≡ false = ground (arith, e) in inr (rw b (ground (arith, e), tt))
      ]

  pub select_row-Selects : (id : ℕ) → row.message_id ≡ some id → Selects one_row select_row
  select_row-Selects id i = record {
    bounded = λ q c t n. row_when-bounded (asks q c t n) n (λ h. (asks-cases q c t n h).2);
    within = λ q c t n.
        row_when-All (λ x. Within q t (ChainRow.created x)) (asks q c t n)
          (λ h. wants-Within q t row.created (asks-cases q c t n h).1);
    ordered = λ q c t n. row_when-IsSorted (in_order q) (asks q c t n);
    of_table = λ q c t n.
        row_when-All (λ x. one_row c (ChainRow.created x) ≡ some x) (asks q c t n)
          (λ h. stored c (asks-cases q c t n h).0);
    nearest = λ q c t n r h l. nearest q c t n r h l;
    typed = λ q c t n.
        row_when-All (λ x. (id : ℕ) × (ChainRow.message_id x ≡ some id)) (asks q c t n)
          (λ h. (id, i));
  }
