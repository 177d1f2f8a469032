-- ===== src/Http/Mapper/Lists.antt =====
-- The lists of a user's relations.
use mathlib.Core.List.{Perm, append-nil, append_assoc}
use mathlib.Core.List.Perm
use project_h_server.Prelude.{
  ℕ, ◌≡◌, refl, ap, ◌∙◌, List, [], ◌∷◌, ◌++◌, none, some, Bool, true, not, ◌&&◌, arith, Bool-cases,
  inl, inr, if◌then◌else◌, All, leb, suc, length, sort-perm, sort-IsSorted, IsSorted, StrictWeak,
}
use project_h_server.Http.Store.{Row}
use project_h_server.Http.Mapper.{
  RelationsSchema, Entry, cur_friend, cur_request, classify, scan_rows, sort_some, requested_less,
  requests_less, friends_less, sort_relations, relations_mapper,
}

abbrev pub none_yet : RelationsSchema
none_yet = record { friends = []; requested = []; requests = [] }

-- What a row with an id should be listed as.
abbrev pub is_friend : Row → Bool
is_friend row = row.active && row.friend

abbrev pub is_requested : Row → Bool
is_requested row = row.active && (not row.friend && row.requested)

abbrev pub is_request : Row → Bool
is_request row = row.active && (not row.friend && not row.requested)

-- The rows with an id that satisfy the test, in the order of the query.
unfoldable pub listed : {A : Type 0} → (Row → Bool) → (ℕ → Row → A) → List Entry → List A
listed test make [] = []
listed test make (e ∷ es) = elim e.relation_id [
  | none ↦ listed test make es
  | some id ↦ let rest = listed test make es in if test e.row then make id e.row ∷ rest else rest
]

abbrev pub HasId : Entry → Type 0
HasId e = (id : ℕ) × (e.relation_id ≡ some id)

-- What the loop adds to the lists.
abbrev added : RelationsSchema → List Entry → RelationsSchema
added rs es = record {
  friends = rs.friends ++ listed is_friend cur_friend es;
  requested = rs.requested ++ listed is_requested cur_request es;
  requests = rs.requests ++ listed is_request cur_request es;
}

module _ (e : Entry) (es : List Entry) (id : ℕ) (h : e.relation_id ≡ some id) where
  added-classify : (rs : RelationsSchema) → added (classify id e.row rs) es ≡ added rs (e ∷ es)
  unfolding classify listed
  added-classify rs = elim (Bool-cases e.row.active) [
    | inl a ↦ elim (Bool-cases e.row.friend) [
      | inl f ↦ rw (h, a, f) (rw append_assoc)
      | inr f ↦ elim (Bool-cases e.row.requested) [
        | inl q ↦ rw (h, a, f, q) (rw append_assoc)
        | inr q ↦ rw (h, a, f, q) (rw append_assoc)
      ]
    ]
    | inr a ↦ rw (h, a) refl
  ]

scan_rows-added :
    (es : List Entry) (rs : RelationsSchema) → All HasId es → scan_rows es rs ≡ some (added rs es)
unfolding scan_rows listed
scan_rows-added [] rs hs =
    rw (append-nil rs.friends, append-nil rs.requested, append-nil rs.requests) refl
scan_rows-added (e ∷ es) rs ((id, h), hs) =
    rw h (scan_rows-added es (classify id e.row rs) hs) ∙ ap some (added-classify e es id h rs)

one_leb : (n : ℕ) → leb 1 (suc n) ≡ true
one_leb n = ground arith

sort_some-perm : {A : Type 0} (less : A → A → Bool) (xs : List A) → Perm (sort_some less xs) xs
unfolding sort_some
sort_some-perm less [] = Perm.refl []
sort_some-perm less (x ∷ xs) = rw (one_leb (length xs)) (sort-perm less (x ∷ xs))

sort_some-IsSorted :
    {A : Type 0} (less : A → A → Bool) (w : StrictWeak less) (xs : List A)
    → IsSorted less (sort_some less xs)
unfolding sort_some
sort_some-IsSorted less w [] = tt
sort_some-IsSorted less w (x ∷ xs) = rw (one_leb (length xs)) (sort-IsSorted less w (x ∷ xs))

-- The list holds exactly these items, sorted.
abbrev pub IsSortOf : {A : Type 0} → (A → A → Bool) → List A → List A → Type 0
IsSortOf less xs ys = Perm ys xs × IsSorted less ys

sort_some-IsSortOf :
    {A : Type 0} (less : A → A → Bool) (w : StrictWeak less) (xs : List A)
    → IsSortOf less xs (sort_some less xs)
sort_some-IsSortOf less w xs = (sort_some-perm less xs, sort_some-IsSorted less w xs)

-- If every row has an id, the mapper succeeds: the friends are the active rows that are friends,
-- the last received first; the requests sent are those of the other active rows with the mark
-- `requested`, the oldest first; the requests received are the rest, the latest first; and no row
-- that is not active is listed.
pub relations_mapper-listed :
    (es : List Entry)
    → All HasId es
    → (rs : RelationsSchema) × (relations_mapper es none_yet ≡ some rs)
      × IsSortOf friends_less (listed is_friend cur_friend es) rs.friends
      × IsSortOf requested_less (listed is_requested cur_request es) rs.requested
      × IsSortOf requests_less (listed is_request cur_request es) rs.requests
unfolding relations_mapper sort_relations friends_less requested_less requests_less
relations_mapper-listed es hs = (
  sort_relations (added none_yet es),
  rw (relations_mapper, scan_rows-added es none_yet hs) refl,
  sort_some-IsSortOf friends_less
      (record { asym = λ x y h. ground arith; trans = λ x y z h k. ground arith }) _,
  sort_some-IsSortOf requested_less
      (record { asym = λ x y h. ground arith; trans = λ x y z h k. ground arith }) _,
  sort_some-IsSortOf requests_less
      (record { asym = λ x y h. ground arith; trans = λ x y z h k. ground arith }) _,
)
