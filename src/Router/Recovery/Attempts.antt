-- ===== src/Router/Recovery/Attempts.antt =====
-- The recovery gives up after three attempts; a failing write is tried three times at most.
use project_h_server.Prelude.{
  ℕ, suc, zero, ◌+◌, ◌≤◌, ◌≡◌, ◌≢◌, List, [], ◌∷◌, some, Bool, true, false, ◌||◌, if◌then◌else◌,
  arith, length, take,
}
use project_h_server.Router.Recovery.{
  Attempt, reads, gave_up, restored, recover_loop, Conns, enter_recovery, copy_obj,
}

abbrev pub any_restored : List Attempt → Bool
any_restored [] = false
any_restored (a ∷ ats) = restored a || any_restored ats

loop_ends :
    (n i : ℕ) (ats : List Attempt)
    → i + n ≡ 3
    → n ≤ length ats
    → (recover_loop i ats).1 ≡ (if any_restored (take n ats) then reads else gave_up)
unfolding recover_loop
loop_ends zero i [] e h = ground arith
loop_ends zero i (a ∷ ats) e h = ground arith
loop_ends (suc n) i [] e h = elim h [ ]
loop_ends (suc n) i (a ∷ ats) e h = ground (arith, loop_ends n (suc i) ats)

-- Once the network has answered three attempts the recovery loop is over: it ends with a connection
-- exactly if one of the first three is restored, and gives up otherwise.
pub recover_loop_ends :
    (ats : List Attempt)
    → 3 ≤ length ats
    → (recover_loop 0 ats).1 ≡ (if any_restored (take 3 ats) then reads else gave_up)
recover_loop_ends ats h = loop_ends 3 0 ats (omega arith) h

-- Two calls of `handle_conn_err` for the registered connection enter the recovery once.
pub enter_recovery_twice :
    (r : ℕ) (s : Conns)
    → s.conns (s.obj r).addr ≡ some r
    → (s.obj r).recovering ≡ false
    → ((enter_recovery r s).1 ≡ true) × ((enter_recovery r (enter_recovery r s).0).1 ≡ false)
unfolding enter_recovery
enter_recovery_twice r s here fresh = ground arith

-- A failing write goes to recovery through a copy of the registered object, taken before: the
-- flag is set on the registered object alone, so when the reader's recovery has begun and the
-- copy was made before it, the recovery of the same connection is entered once more.
pub copy_recovers_again :
    (r fresh : ℕ) (s : Conns)
    → s.conns (s.obj r).addr ≡ some r
    → (s.obj r).recovering ≡ false
    → fresh ≢ r
    → ((enter_recovery r (copy_obj r fresh s)).1 ≡ true)
      × ((enter_recovery fresh (enter_recovery r (copy_obj r fresh s)).0).1 ≡ true)
unfolding enter_recovery copy_obj
copy_recovers_again r fresh s here free other = ground arith
