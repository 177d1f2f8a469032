-- ===== src/Http/Friends/History.antt =====
-- Histories of requests, acceptances and removals.
use project_h_server.Prelude.{ℕ, refl, List, [], ◌∷◌, Bool}
use project_h_server.Http.Reply.{Body, World}
use project_h_server.Http.Store.{Row, Database, IsDatabase, Works}
use project_h_server.Http.Friends.{
  Call, request_columns, accept_columns, request_relation, accept_relation, remove_relation,
}
use project_h_server.Http.Friends.Symmetry.{Alike-refl, IsSymmetric, both-IsSymmetric}
use project_h_server.Http.Friends.Rows.{request-keeps, accept-keeps, remove-keeps}

-- A call of one of the three services.
pub data Service : Type 0 where
  requests accepts removes : Call → Service

module _ {S : Type 0} (db : Database S) (json_fails : Body → Bool) (has_time : ℕ → Bool) where
  abbrev pub serve : Service → World S → World S
  serve (requests c) w = (request_relation db json_fails c w).0
  serve (accepts c) w = (accept_relation db json_fails has_time c w).0
  serve (removes c) w = (remove_relation db json_fails c w).0

  abbrev pub serve_all : List Service → World S → World S
  serve_all [] w = w
  serve_all (c ∷ cs) w = serve_all cs (serve c w)

  module _ (works : Works db) (row : S → ℕ → ℕ → Row) (laws : IsDatabase db row) where
    insert-IsSymmetric :
        (s : S) (c : ℕ) (us : List ℕ)
        → IsSymmetric db row laws s
        → IsSymmetric db row laws (db.insert_users s c us).0
    insert-IsSymmetric s c us sm u r =
        rw (laws.insert-row s c us u r, laws.insert-row s c us r u) (sm u r)

    serve-IsSymmetric :
        (c : Service) (w : World S)
        → IsSymmetric db row laws w.store
        → IsSymmetric db row laws (serve c w).store
    unfolding request_columns accept_columns
    serve-IsSymmetric (requests c) w sm =
        request-keeps db json_fails works (IsSymmetric db row laws) c w sm (λ name.
          both-IsSymmetric db row laws works w.store _ _ _ _
            (record { friend = refl; active = refl; chain_id = refl; created = refl }) sm)
    serve-IsSymmetric (accepts c) w sm =
        let t = insert-IsSymmetric w.store c.time_uuid (c.user_id ∷ c.relation_id ∷ []) sm in
        accept-keeps db json_fails works (IsSymmetric db row laws) has_time c w (λ e. sm)
          (λ chain e t. both-IsSymmetric db row laws works w.store _ _ _ _ (Alike-refl _) sm)
          (λ n. both-IsSymmetric db row laws works _ _ _ _ _ (Alike-refl _) t)
    serve-IsSymmetric (removes c) w sm =
        remove-keeps db json_fails works (IsSymmetric db row laws) c w
          (both-IsSymmetric db row laws works w.store _ _ _ _ (Alike-refl _) sm)

    -- While no write fails, any history of requests, acceptances and removals, whatever else goes
    -- wrong in them, leaves the two rows of every relation with the same marks `friend` and
    -- `active`, the same chain and the same time of creation, if they were so before.
    pub serve_all-IsSymmetric :
        (cs : List Service) (w : World S)
        → IsSymmetric db row laws w.store
        → IsSymmetric db row laws (serve_all cs w).store
    serve_all-IsSymmetric [] w sm = sm
    serve_all-IsSymmetric (c ∷ cs) w sm =
        serve_all-IsSymmetric cs (serve c w) (serve-IsSymmetric c w sm)
