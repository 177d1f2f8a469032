-- ===== src/Http/GetChain/Service.antt =====
-- What the service `GetChain` answers.
use mathlib.Core.Bool.{false≢true}
use mathlib.Core.List.{append-nil, map-append}
use project_h_server.Prelude.{
  ℤ, pos, suc, sym, ℕ, ◌≡◌, ◌≤◌, ◌<◌, ap, refl, inl, inr, List, [], ◌∷◌, ◌++◌, map, Option, some,
  Bool, true, false, Bytes, codes, same, arith, length, IsSorted, IsSorted-append, All, All-map,
  Any, Any-map, Bool-cases,
}
use project_h_server.Http.GetChain.{
  ChainRow, MessageSchema, Query, after, before, until, get_chain_service,
}
use project_h_server.Http.GetChain.Window.{
  Selects, IsWindow, not_rising, shown, at_most, get_chain-IsWindow,
}

module _ (table : ℕ → ℕ → Option ChainRow) (chain t n : ℕ) where
  -- Rows before a time and rows after it.
  around-rising :
      (ds as' : List ChainRow)
      → IsWindow table before chain t n ds
      → IsWindow table after chain t n as'
      → IsSorted not_rising (ds ++ as')
  around-rising ds as' d a = IsSorted-append not_rising ds as' d.rising a.rising (
      All-map (λ x. ChainRow.created x < t) _
        (λ x h.
          All-map (λ y. t < ChainRow.created y) (λ y. not_rising y x ≡ false)
            (λ y k. ground (arith, h, k)) as' a.within)
        ds d.within)

  -- The rows that belong to the two directions of a request.
  abbrev pub Parts : (asc desc : Bool) → List ChainRow → Type 0
  Parts false false rows = IsWindow table until chain t n rows
  Parts true false rows = IsWindow table after chain t n rows
  Parts false true rows = IsWindow table before chain t n rows
  Parts true true rows =
      (earlier : List ChainRow) × (later : List ChainRow) × (rows ≡ earlier ++ later)
      × IsWindow table before chain t n earlier
      × IsWindow table after chain t n later

module _ (time_of : ℕ → ℕ) (table : ℕ → ℕ → Option ChainRow)
    (select : Query → ℕ → ℕ → ℕ → List ChainRow) (laws : Selects table select) (chain t : ℕ) where
  -- If the queries do not fail and do to the table what the database documents, each row's id being
  -- a UUID, the service answers a request whose time and limit parse with messages that show rows,
  -- the rows' times rising: those nearest before the time if `desc` is "true", followed by those
  -- nearest after it if `asc` is "true", and the newest until the time if neither is; in each
  -- direction all rows, or as many as the limit, ten at most.
  pub get_chain_service-IsAnswer :
      (limit : ℤ) (asc desc : Bytes)
      → (rows : List ChainRow) × (get_chain_service time_of select chain
            (some t)
            (some limit)
            asc
            desc
          ≡ some (map (shown time_of) rows))
        × IsSorted not_rising rows
        × Parts table chain t
            (at_most limit)
            (same asc (codes "true"))
            (same desc (codes "true"))
            rows
  unfolding get_chain_service
  get_chain_service-IsAnswer limit asc desc =
      let (ns, e, n) =
        get_chain-IsWindow time_of table select laws chain t false true limit
          (λ h. absurd (false≢true h)) in
      let (as', f, a) =
        get_chain-IsWindow time_of table select laws chain t true false limit (λ h. refl) in
      let (ds, g, d) =
        get_chain-IsWindow time_of table select laws chain t false false limit (λ h. refl) in
      elim (Bool-cases (same asc (codes "true"))) [
        | inl x ↦ elim (Bool-cases (same desc (codes "true"))) [
          | inl y ↦ (
            ds ++ as',
            rw (get_chain_service, x, f, y, g) (ap some (sym (map-append (shown time_of) ds as'))),
            around-rising table chain t (at_most limit) ds as' d a,
            rw (x, y) (ds, as', refl, d, a),
          )
          | inr y ↦ (as', rw (get_chain_service, x, f, y) refl, a.rising, rw (x, y) a)
        ]
        | inr x ↦ elim (Bool-cases (same desc (codes "true"))) [
          | inl y ↦ (
            ds,
            rw (get_chain_service, x, y, g) (ap some (append-nil (map (shown time_of) ds))),
            d.rising,
            rw (x, y) d,
          )
          | inr y ↦ (ns, rw (get_chain_service, x, y, e) refl, n.rising, rw (x, y) n)
        ]
      ]

-- No row of the chain is later.
abbrev pub IsNewest : (ℕ → ℕ → Option ChainRow) → (chain created : ℕ) → Type 0
IsNewest table chain t = (t' : ℕ) (x : ChainRow) → table chain t' ≡ some x → t' ≤ t

module _ (time_of : ℕ → ℕ) (table : ℕ → ℕ → Option ChainRow)
    (select : Query → ℕ → ℕ → ℕ → List ChainRow) (laws : Selects table select) (chain t : ℕ) where
  none_above :
      (rows : List ChainRow) (n created : ℕ)
      → IsNewest table chain created
      → All (λ x. table chain (ChainRow.created x) ≡ some x) rows
      → length rows ≡ n
      → 0 < n
      → All (λ x. created < ChainRow.created x) rows
      → ⊥
  none_above [] n created new h l p k = absurd (omega (arith, l, p))
  none_above (x ∷ rows) n created new h l p k = omega (arith, new x.created x h.0, k.0)

  -- The newest row of a chain is shown by the answer to a positive limit and no direction.
  pub newest-shown :
      (r : ChainRow) (k : ℕ) (asc desc : Bytes)
      → same asc (codes "true") ≡ false
      → same desc (codes "true") ≡ false
      → table chain r.created ≡ some r
      → r.created ≤ t
      → IsNewest table chain r.created
      → (ms : List MessageSchema) × (get_chain_service time_of select chain
            (some t)
            (some (pos (suc k)))
            asc
            desc
          ≡ some ms)
        × Any (λ m. m ≡ shown time_of r) ms
  newest-shown r k asc desc ea ed e l new =
      let (rows, g, _, parts) =
        get_chain_service-IsAnswer time_of table select laws chain t (pos (suc k)) asc desc in
      let w : IsWindow table until chain t (at_most (pos (suc k))) rows = rw (ea, ed) at parts in
      elim (w.nearest r e l) [
        | inl h ↦ (
          map (shown time_of) rows,
          g,
          Any-map (λ x. x ≡ r) (λ m. m ≡ shown time_of r) (shown time_of)
              (λ x p. ap (shown time_of) p) rows h,
        )
        | inr (c, h) ↦
            absurd
              (none_above rows (at_most (pos (suc k))) r.created new w.of_table c (ground arith) h)
      ]
