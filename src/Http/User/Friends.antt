-- ===== src/Http/User/Friends.antt =====
-- Two users who became friends, in each other's lists.
use mathlib.Core.List.{Mem, mem-cons_self, mem-cons_of_mem}
use mathlib.Core.List.Perm
use mathlib.Core.Path.{subst}
use project_h_server.Prelude.{
  ℕ, ◌≡◌, ◌≢◌, refl, sym, inl, inr, List, [], ◌∷◌, some, Bool, true, Bytes, All, Any, Bool-cases,
  Option-cases,
}
use project_h_server.Http.Reply.{Body, relations_response, World, json}
use project_h_server.Http.Store.{Row, found, failed, Database, IsDatabase, Works}
use project_h_server.Http.Mapper.{Entry, RelationsSchema, cur_friend}
use project_h_server.Http.Mapper.Lists.{is_friend, listed, HasId, relations_mapper-listed}
use project_h_server.Http.Friends.{Call, request_relation, accept_relation}
use project_h_server.Http.Friends.Consent.{Befriended, request-accept}
use project_h_server.Http.User.{get_all_relations}

abbrev pub entry_of : ℕ → Row → Entry
entry_of r x = record { relation_id = some r; row = x }

-- SELECT * FROM user_relations WHERE user_id = ?: every row has its key, and an active row of the
-- table is among them.
pub record ListsRows (row : ℕ → ℕ → Row) (entries : ℕ → List Entry) : Type 0 where
  pub identified : (u : ℕ) → All HasId (entries u)
  pub complete :
      (u r : ℕ) → (row u r).active ≡ true → Any (λ e. e ≡ entry_of r (row u r)) (entries u)

listed_first :
    (r : ℕ) (x : Row) (es : List Entry)
    → is_friend x ≡ true
    → Mem (cur_friend r x) (listed is_friend cur_friend (entry_of r x ∷ es))
unfolding listed
listed_first r x es f = rw (listed, f) mem-cons_self

listed-Mem :
    (r : ℕ) (x : Row) (es : List Entry)
    → is_friend x ≡ true
    → Any (λ e. e ≡ entry_of r x) es
    → Mem (cur_friend r x) (listed is_friend cur_friend es)
unfolding listed
listed-Mem r x [] f h = absurd h
listed-Mem r x (e ∷ es) f (inl h) =
    subst (λ y. Mem (cur_friend r x) (listed is_friend cur_friend (y ∷ es))) (sym h)
      (listed_first r x es f)
listed-Mem r x (e ∷ es) f (inr h) = elim (Option-cases e.relation_id) [
  | inl k ↦ rw (listed, k) (listed-Mem r x es f h)
  | inr (id, k) ↦ elim (Bool-cases (is_friend e.row)) [
    | inl g ↦ rw (listed, k, g) (mem-cons_of_mem (cur_friend id e.row) (listed-Mem r x es f h))
    | inr g ↦ rw (listed, k, g) (listed-Mem r x es f h)
  ]
]

module _ {S : Type 0} (row : S → ℕ → ℕ → Row) (entries : S → ℕ → List Entry)
    (json_fails : Body → Bool) where
  -- A user who lists another as a friend, with the chain of the row.
  abbrev pub Lists : World S → (user friend : ℕ) → Type 0
  Lists w u r =
      (relations : RelationsSchema) × (get_all_relations json_fails entries u w
        ≡ json json_fails (relations_response relations) w)
      × Mem (cur_friend r (row w.store u r)) relations.friends

  friend_listed :
      (w : World S) (u r : ℕ)
      → ListsRows (row w.store) (entries w.store)
      → (row w.store u r).active ≡ true
      → (row w.store u r).friend ≡ true
      → Lists w u r
  unfolding get_all_relations
  friend_listed w u r lists a f =
      let (relations, e, (perm, _), _, _) =
        relations_mapper-listed (entries w.store u) (lists.identified u) in
      let is : is_friend (row w.store u r) ≡ true = rw (a, f) refl in
      (
        relations,
        rw (get_all_relations, e) refl,
        (Perm.mem_iff perm).1
            (listed-Mem r (row w.store u r) (entries w.store u) is (lists.complete u r a)),
      )

  module _ (db : Database S) (has_time : ℕ → Bool) (works : Works db)
      (laws : IsDatabase db row) where
    -- After a request of one user, to another whose name is known, and the other's acceptance of
    -- it, if no query fails and the query of a user's rows lists the active ones, GetAllRelations
    -- answers each with the other among the friends, as in the row, and both rows have the same
    -- chain.
    pub request-accept-Lists :
        (c d : Call) (name : Bytes) (w w' : World S)
        → c.user_id ≢ c.relation_id
        → db.username w.store c.relation_id ≡ found name
        → ((s : S) (u r : ℕ) → db.chain_of s u r ≢ failed)
        → w'.store
          ≡ (accept_relation db json_fails has_time
              (record d { user_id = c.relation_id; relation_id = c.user_id })
              (request_relation db json_fails c w).0).0.store
        → ListsRows (row w'.store) (entries w'.store)
        → Lists w' c.user_id c.relation_id
          × Lists w' c.relation_id c.user_id
          × ((row w'.store c.user_id c.relation_id).chain_id
              ≡ (row w'.store c.relation_id c.user_id).chain_id)
    request-accept-Lists c d name w w' h e n same_store lists =
        let b =
          subst (λ s. Befriended db json_fails has_time works row laws s c.user_id c.relation_id)
            (sym same_store)
            (request-accept db json_fails has_time works row laws c d name w h e n) in
        (
          friend_listed w' c.user_id c.relation_id lists b.active.0 b.friends.0,
          friend_listed w' c.relation_id c.user_id lists b.active.1 b.friends.1,
          b.chain,
        )
