-- ===== src/Http/User.antt =====
-- `GetAllRelations` and `Initialize`. The rows of user_relations and of users_private are arguments.
pub mod Friends
use project_h_server.Prelude.{ℕ, List, Option, none, some, Bool, Bytes}
use project_h_server.Http.Reply.{
  Body, relations_response, user_info_response, World, Outcome, json, internal_error,
}
use project_h_server.Http.Store.{Answer, found, not_found, failed}
use project_h_server.Http.Mapper.{Entry, RelationsSchema, relations_mapper}
use project_h_server.Http.Mapper.Lists.{none_yet}

-- A row of users_private; a null column reads as empty.
pub record PrivateRow : Type 0 where
  pub username : Bytes
  pub statement : Bytes

module _ {S : Type 0} (json_fails : Body → Bool) (entries : S → ℕ → List Entry) where
  unfoldable pub get_all_relations : ℕ → World S → Outcome S
  unfolding relations_mapper json internal_error
  get_all_relations user w = elim (relations_mapper (entries w.store user) none_yet) [
    | none ↦ internal_error json_fails w
    | some relations ↦ json json_fails (relations_response relations) w
  ]

  unfoldable pub initialize : (S → ℕ → Answer PrivateRow) → ℕ → World S → Outcome S
  unfolding relations_mapper json internal_error
  initialize private_row user w = elim (private_row w.store user) [
    | not_found ↦ internal_error json_fails w
    | failed ↦ internal_error json_fails w
    | found p ↦ elim (relations_mapper (entries w.store user) none_yet) [
      | none ↦ internal_error json_fails w
      | some relations ↦
          json json_fails (user_info_response user p.username p.statement relations) w
    ]
  ]
