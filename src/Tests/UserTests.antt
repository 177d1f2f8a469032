-- ===== src/Tests/UserTests.antt =====
-- Two users who became friends, in each other's lists.
use project_h_server.Prelude.{
  ℕ, ◌≡◌, refl, sym, ◌∙◌, inl, inr, List, [], ◌∷◌, Bool, true, false, codes, ◌==◌, ◌&&◌, All, Any,
  arith, Bool-cases, if◌then◌else◌,
}
use mathlib.Core.Path.{subst}
use mathlib.Core.Bool.{true≢false}
use project_h_server.Http.Reply.{json}
use project_h_server.Http.Store.{Row, apply}
use project_h_server.Http.Mapper.{Entry}
use project_h_server.Http.Mapper.Lists.{HasId}
use project_h_server.Http.Friends.{
  request_relation, accept_relation, update_both, written, get_username, friend_request,
  send_payload, accept_with, friend_accepted, insert_chains_users, check_existing_relation_chain,
}
use project_h_server.Http.User.Friends.{entry_of, ListsRows, Lists, request-accept-Lists}
use project_h_server.Tests.FriendsTests.{
  Table, tables, find_chain, tables-IsDatabase, tables-Works, rows_of, never, timed, ann, bob,
  world, no_rows, find_chain-answers,
}

abbrev entries : Table → ℕ → List Entry
entries t u =
    if u == 1 then entry_of 2 (t 1 2) ∷ [] else if u == 2 then entry_of 1 (t 2 1) ∷ [] else []

-- The table after the request of the user 1 and the acceptance of the user 2.
abbrev after : Table
after =
    ((accept_relation (tables find_chain) never timed (bob 6)
      (request_relation (tables find_chain) never (ann 5) (world no_rows)).0).0
    ).store

other_row :
    (u r : ℕ)
    → ((u == 1) && (r == 2)) ≡ false
    → ((u == 2) && (r == 1)) ≡ false
    → (after u r).active ≡ false
unfolding accept_relation request_relation update_both written get_username friend_request
    send_payload accept_with friend_accepted insert_chains_users check_existing_relation_chain json
    apply
other_row u r f g = rw (f, g) refl

listed_rows :
    (u r : ℕ) (b c : Bool)
    → ((u == 1) && (r == 2)) ≡ b
    → ((u == 2) && (r == 1)) ≡ c
    → (after u r).active ≡ true
    → Any (λ e. e ≡ entry_of r (after u r)) (entries after u)
listed_rows u r true c f g h =
    let eu : u ≡ 1 = ground (arith, f) in
    let er : r ≡ 2 = ground (arith, f) in
    subst (λ x. Any (λ e. e ≡ entry_of r (after x r)) (entries after x)) (sym eu)
      (subst (λ y. Any (λ e. e ≡ entry_of y (after 1 y)) (entries after 1)) (sym er) (inl refl))
listed_rows u r false true f g h =
    let eu : u ≡ 2 = ground (arith, g) in
    let er : r ≡ 1 = ground (arith, g) in
    subst (λ x. Any (λ e. e ≡ entry_of r (after x r)) (entries after x)) (sym eu)
      (subst (λ y. Any (λ e. e ≡ entry_of y (after 2 y)) (entries after 2)) (sym er) (inl refl))
listed_rows u r false false f g h = absurd (true≢false (sym h ∙ other_row u r f g))

with_ids : (u : ℕ) → All HasId (entries after u)
with_ids u = elim (Bool-cases (u == 1)) [
  | inl e ↦ rw e ((2, refl), tt)
  | inr e ↦ elim (Bool-cases (u == 2)) [ inl f ↦ rw (e, f) ((1, refl), tt) | inr f ↦ rw (e, f) tt ]
]

after-ListsRows : ListsRows (rows_of after) (entries after)
after-ListsRows = record {
  identified = with_ids;
  complete = λ u r h. listed_rows u r ((u == 1) && (r == 2)) ((u == 2) && (r == 1)) refl refl h;
}

request-accept-Lists_example :
    Lists rows_of entries never (world after) 1 2
    × Lists rows_of entries never (world after) 2 1
    × ((after 1 2).chain_id ≡ (after 2 1).chain_id)
request-accept-Lists_example =
    request-accept-Lists rows_of entries never (tables find_chain) timed (tables-Works find_chain)
      tables-IsDatabase (ann 5) (bob 6) (codes "bob") (world no_rows) (world after) (omega arith)
      refl (λ s u r. find_chain-answers (Row.chain_id (s u r))) refl after-ListsRows
