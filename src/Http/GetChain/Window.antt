-- ===== src/Http/GetChain/Window.antt =====
-- Which messages `GetChain` returns, and in which order.
use mathlib.Core.Bool.{false≢true}
use mathlib.Core.List.{append-nil, append_assoc, reverse}
use project_h_server.Prelude.{
  ℤ, pos, negsuc, ℕ, ◌≡◌, ◌≤◌, ◌<◌, ◌⊎◌, refl, sym, ap, ◌∙◌, inl, inr, List, [], ◌∷◌, ◌++◌, map,
  Option, none, some, Bool, true, false, ltb, leb, if◌then◌else◌, ◌==◌, arith, length, All, Any,
  All-reverse, Any-reverse, length-reverse, map-reverse, IsSorted-reverse, IsSorted, Bool-cases,
}
use project_h_server.Http.GetChain.{
  ChainRow, MessageSchema, Query, after, before, until, cur_message, read_rows, query, fetch,
  get_chain,
}
use project_h_server.Http.GetChain.Reverse.{reverse_in_place_lem}

-- The times that a query asks for.
abbrev pub Within : Query → ℕ → ℕ → Type 0
Within after t created = t < created
Within before t created = created < t
Within until t created = created ≤ t

-- Of two times that a query asks for, the one that it returns first.
abbrev pub Nearer : Query → ℕ → ℕ → Type 0
Nearer after x y = x < y
Nearer before x y = y < x
Nearer until x y = y < x

-- Whether the first row's time is not above the second's: where times rise, this is false of a row
-- and one before it.
abbrev pub not_rising : ChainRow → ChainRow → Bool
not_rising x y = leb x.created y.created

abbrev pub in_order : Query → ChainRow → ChainRow → Bool
in_order after x y = not_rising x y
in_order before x y = not_rising y x
in_order until x y = not_rising y x

-- What the database does for the three queries, which do not fail, on the table, which has one row at most for a chain
-- and a time: no more rows than the limit, of the times that are asked for, in the order of the
-- clustering key, each a row of the table; a row of those times that is left out is behind as many
-- rows as the limit; and the column `message_id`, a UUID, is read as one, a null as the zero UUID.
pub record Selects (table : ℕ → ℕ → Option ChainRow) (select : Query → ℕ → ℕ → ℕ → List ChainRow)
    : Type 0 where
  pub bounded : (q : Query) (chain t n : ℕ) → length (select q chain t n) ≤ n
  pub within :
      (q : Query) (chain t n : ℕ) → All (λ x. Within q t (ChainRow.created x)) (select q chain t n)
  pub ordered : (q : Query) (chain t n : ℕ) → IsSorted (in_order q) (select q chain t n)
  pub of_table :
      (q : Query) (chain t n : ℕ)
      → All (λ x. table chain (ChainRow.created x) ≡ some x) (select q chain t n)
  pub nearest :
      (q : Query) (chain t n : ℕ) (r : ChainRow)
      → table chain r.created ≡ some r
      → Within q t r.created
      → Any (λ x. x ≡ r) (select q chain t n)
        ⊎ ((length (select q chain t n) ≡ n)
            × All (λ x. Nearer q (ChainRow.created x) r.created) (select q chain t n))
  pub typed :
      (q : Query) (chain t n : ℕ)
      → All (λ x. (id : ℕ) × (ChainRow.message_id x ≡ some id)) (select q chain t n)

abbrev pub id_of : Option ℕ → ℕ
id_of none = 0
id_of (some id) = id

-- The message that shows a row: its time is that of its id.
abbrev pub shown : (ℕ → ℕ) → ChainRow → MessageSchema
shown time_of r = record {
  message_id = id_of r.message_id;
  user_id = r.user_id;
  created = time_of (id_of r.message_id);
  expires = r.expires;
  type_code = r.type_code;
  seen = r.seen;
  display = r.display;
  duration = r.duration;
}

-- What a caller asks for: the newest messages, those after the time, or those before it.
abbrev pub asked : (asc new : Bool) → Query
asked asc true = until
asked true false = after
asked false false = before

-- The limit that `helpers.GetChain` goes by.
abbrev pub at_most : ℤ → ℕ
at_most (pos n) = if ltb 10 n then 10 else n
at_most (negsuc n) = 0

-- The rows of a chain that a query asks for, with rising times: those `n` that are nearest to the
-- time, or all if there are fewer.
pub record IsWindow (table : ℕ → ℕ → Option ChainRow) (q : Query) (chain t n : ℕ)
    (rows : List ChainRow) : Type 0 where
  pub few : length rows ≤ n
  pub rising : IsSorted not_rising rows
  pub within : All (λ x. Within q t (ChainRow.created x)) rows
  pub of_table : All (λ x. table chain (ChainRow.created x) ≡ some x) rows
  pub nearest :
      (r : ChainRow)
      → table chain r.created ≡ some r
      → Within q t r.created
      → Any (λ x. x ≡ r) rows
        ⊎ ((length rows ≡ n) × All (λ x. Nearer q (ChainRow.created x) r.created) rows)

nothing-IsWindow :
    (table : ℕ → ℕ → Option ChainRow) (q : Query) (chain t : ℕ) → IsWindow table q chain t 0 []
nothing-IsWindow table q chain t = record {
  few = omega arith;
  rising = tt;
  within = tt;
  of_table = tt;
  nearest = λ r e w. inr (refl, tt);
}

module _ (time_of : ℕ → ℕ) (select : Query → ℕ → ℕ → ℕ → List ChainRow) where
  read_rows_lem :
      (rows : List ChainRow) (acc : List MessageSchema)
      → All (λ x. (id : ℕ) × (ChainRow.message_id x ≡ some id)) rows
      → read_rows time_of select rows acc ≡ some (acc ++ map (shown time_of) rows)
  unfolding read_rows
  read_rows_lem [] acc h = ap some (sym (append-nil acc))
  read_rows_lem (r ∷ rs) acc ((id, e), h) = rw e (
      read_rows_lem rs (acc ++ cur_message time_of select id r ∷ []) h
      ∙ ap some (append_assoc acc (cur_message time_of select id r ∷ []) (map (shown time_of) rs)))

module _ (time_of : ℕ → ℕ) (table : ℕ → ℕ → Option ChainRow)
    (select : Query → ℕ → ℕ → ℕ → List ChainRow) (laws : Selects table select) (chain t n : ℕ) where
  -- The rows of a query in descending order, turned round.
  turned-IsWindow :
      (q : Query)
      → IsSorted (λ x y. not_rising y x) (select q chain t n)
      → IsWindow table q chain t n (reverse (select q chain t n))
  turned-IsWindow q o =
      let rows = select q chain t n in
      record {
        few = omega (arith, length-reverse rows, laws.bounded q chain t n);
        rising = IsSorted-reverse not_rising rows o;
        within = All-reverse (λ x. Within q t (ChainRow.created x)) rows (laws.within q chain t n);
        of_table =
            All-reverse (λ x. table chain (ChainRow.created x) ≡ some x) rows
              (laws.of_table q chain t n);
        nearest = λ r e w. elim (laws.nearest q chain t n r e w) [
          | inl h ↦ inl (Any-reverse (λ x. x ≡ r) rows h)
          | inr (l, h) ↦ inr (
            omega (arith, length-reverse rows, l),
            All-reverse (λ x. Nearer q (ChainRow.created x) r.created) rows h,
          )
        ];
      }

  turned_lem :
      (q : Query)
      → some (reverse (map (shown time_of) (select q chain t n)))
        ≡ some (map (shown time_of) (reverse (select q chain t n)))
  turned_lem q = ap some (sym (map-reverse (shown time_of) (select q chain t n)))

  fetch-IsWindow :
      (asc new : Bool)
      → (asc ≡ true → new ≡ false)
      → (rows : List ChainRow) × (fetch time_of select chain t asc new n
          ≡ some (map (shown time_of) rows))
        × IsWindow table (asked asc new) chain t n rows
  unfolding fetch query
  fetch-IsWindow true true h = absurd (false≢true (sym (h refl)))
  fetch-IsWindow true false h = (
    select after chain t n,
    rw
        (
          fetch,
          read_rows_lem time_of select (select after chain t n) [] (laws.typed after chain t n),
        )
        refl,
    record {
      few = laws.bounded after chain t n;
      rising = laws.ordered after chain t n;
      within = laws.within after chain t n;
      of_table = laws.of_table after chain t n;
      nearest = λ r e w. laws.nearest after chain t n r e w;
    },
  )
  fetch-IsWindow false false h = (
    reverse (select before chain t n),
    rw
        (
          fetch,
          read_rows_lem time_of select (select before chain t n) [] (laws.typed before chain t n),
        )
        (ap some (reverse_in_place_lem (map (shown time_of) (select before chain t n)))
          ∙ turned_lem before),
    turned-IsWindow before (laws.ordered before chain t n),
  )
  fetch-IsWindow false true h = (
    reverse (select until chain t n),
    rw
        (
          fetch,
          read_rows_lem time_of select (select until chain t n) [] (laws.typed until chain t n),
        )
        (ap some (reverse_in_place_lem (map (shown time_of) (select until chain t n)))
          ∙ turned_lem until),
    turned-IsWindow until (laws.ordered until chain t n),
  )

module _ (time_of : ℕ → ℕ) (table : ℕ → ℕ → Option ChainRow)
    (select : Query → ℕ → ℕ → ℕ → List ChainRow) (laws : Selects table select) (chain t : ℕ) where
  -- If the queries do not fail and do to the table what the database documents, each row's id being
  -- a UUID, `helpers.GetChain` succeeds whatever the limit, unless it is asked for the newest
  -- messages in ascending order, as no caller asks. It returns the messages that show rows of the
  -- chain, the rows' times rising: of the rows after, before or until the time, as it is asked for,
  -- all or those that are nearest to the time, at most ten and at most `limit`, and none if the
  -- limit is not positive.
  pub get_chain-IsWindow :
      (asc new : Bool) (limit : ℤ)
      → (asc ≡ true → new ≡ false)
      → (rows : List ChainRow) × (get_chain time_of select chain t asc new limit
          ≡ some (map (shown time_of) rows))
        × IsWindow table (asked asc new) chain t (at_most limit) rows
  unfolding get_chain
  get_chain-IsWindow asc new (negsuc n) h =
      ([], refl, nothing-IsWindow table (asked asc new) chain t)
  get_chain-IsWindow asc new (pos n) h = elim (Bool-cases (ltb 10 n)) [
    | inl l ↦
        rw (get_chain, at_most, l) (fetch-IsWindow time_of table select laws chain t 10 asc new h)
    | inr l ↦ elim (Bool-cases (n == 0)) [
      | inl z ↦
          let e : 0 ≡ n = ground (arith, z) in
          rw (get_chain, at_most, l, z, sym e)
            ([], refl, nothing-IsWindow table (asked asc new) chain t)
      | inr z ↦
          rw (get_chain, at_most, l, z)
            (fetch-IsWindow time_of table select laws chain t n asc new h)
    ]
  ]
