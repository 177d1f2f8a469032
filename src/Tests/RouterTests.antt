-- ===== src/Tests/RouterTests.antt =====
-- The connection with the router (socket/socket_client.go, messages/api_client.go).
use project_h_server.Prelude.{
  false, suc, ℕ, suc, ◌≡◌, refl, List, [], ◌∷◌, ◌++◌, none, some, false, arith, ◌==◌, if◌then◌else◌,
  take,
}
use project_h_server.Router.Heartbeat.{
  CheckEvent, beat, timeout, running, timed_out, mismatch, socket_check, api_check, check_loop,
}
use project_h_server.Router.Heartbeat.OnTime.{
  version, OnTime, done, answer, expire, check_loop-OnTime,
}
use project_h_server.Router.Recovery.{
  Attempt, dial_failed, read_failed, answered, restored, failure, recover_loop, reads, gave_up,
  logged, connects_anew, Write, written, temporary, Conns,
}
use project_h_server.Router.Recovery.Attempts.{any_restored, recover_loop_ends}

-- Two heartbeats are answered, and the timer of the first runs out between.
abbrev history : List CheckEvent
history =
    beat (some (1 ∷ 0 ∷ 0 ∷ 0 ∷ 0 ∷ [])) ∷ timeout 1 ∷ beat (some (2 ∷ 0 ∷ 0 ∷ 0 ∷ 0 ∷ [])) ∷ []

history-OnTime : OnTime 0 0 history
history-OnTime =
    answer (0 ∷ 0 ∷ 0 ∷ 0 ∷ []) (omega arith)
      (expire (omega arith) (omega arith) (answer (0 ∷ 0 ∷ 0 ∷ 0 ∷ []) (omega arith) done))

-- The checks and the worker, on literals.
check_test :
    (check_loop socket_check 1 history ≡ running 3)
    × (check_loop socket_check 1 (beat (some (2 ∷ [])) ∷ []) ≡ mismatch)
    × (check_loop socket_check 255 (beat (some (255 ∷ [])) ∷ []) ≡ running 0)
unfolding check_loop socket_check
check_test = (refl, refl, refl)

check_loop-OnTime_example :
    (check_loop socket_check 1 history ≡ running (version 2))
    × (check_loop api_check 1 history ≡ running (version 2))
    × (check_loop socket_check 1 (history ++ timeout (version 2) ∷ []) ≡ timed_out)
    × (check_loop api_check 1 (history ++ timeout (version 2) ∷ []) ≡ timed_out)
check_loop-OnTime_example = check_loop-OnTime history history-OnTime

-- The third attempt succeeds, behind a refused one.
abbrev attempts : List Attempt
attempts = dial_failed ∷ answered 3 b'0' ∷ answered 3 b'1' ∷ []

recover_test :
    (recover_loop 0 attempts ≡ (logged ∷ connects_anew ∷ [], reads))
    × (recover_loop 0 (dial_failed ∷ read_failed ∷ answered 2 b'1' ∷ [])
        ≡ (logged ∷ logged ∷ logged ∷ [], gave_up))
unfolding recover_loop restored failure
recover_test = (refl, refl)

recover_loop_ends_example :
    (recover_loop 0 attempts).1 ≡ (if any_restored (take 3 attempts) then reads else gave_up)
recover_loop_ends_example = recover_loop_ends attempts (omega arith)

-- The first call fails with a temporary error, the second succeeds.
abbrev flaky : ℕ → Write
flaky n = if n == 0 then temporary else written

-- One connection, at the address 9, under the reference 0.
abbrev one_conn : Conns
one_conn = record {
  obj = λ r. record { addr = 9; recovering = false };
  conns = λ a. if a == 9 then some 0 else none;
}
