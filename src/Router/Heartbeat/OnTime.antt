-- ===== src/Router/Heartbeat/OnTime.antt =====
-- When the heartbeat check keeps a connection, and when it gives it up.
use project_h_server.Prelude.{
  ℕ, suc, ◌+◌, ◌%◌, ◌≤◌, ◌<◌, ◌≡◌, ◌≢◌, List, [], ◌∷◌, ◌++◌, some, Bytes, length, arith, be32, ◌∙◌,
  sym, ap, from_be,
}
use native.Mathlib.Nat.{add-zero}
use mathlib.Core.List.{append-nil}
use project_h_server.Router.Frame.{read_frame}
use project_h_server.Router.Heartbeat.{
  be64, socket_beat, api_beat, CheckEvent, beat, timeout, Check, running, timed_out, socket_check,
  api_check, check_loop,
}

-- The version of the `n`-th heartbeat, counted from 0: a byte that starts at 1.
abbrev pub version : ℕ → ℕ
version n = (n + 1) % 256

-- A history in which every heartbeat is answered before its timer runs out: `r` answers have come
-- and `t` timers have run out, each behind the answer to its own heartbeat and at most 255 behind.
pub data OnTime : ℕ → ℕ → List CheckEvent → Type 0 where
  done : {r t : ℕ} → OnTime r t []
  answer :
      {r t : ℕ} (b : Bytes) {es : List CheckEvent}
      → 4 ≤ length b
      → OnTime (suc r) t es
      → OnTime r t (beat (some (version r ∷ b)) ∷ es)
  expire :
      {r t : ℕ} {es : List CheckEvent}
      → t < r
      → r < t + 256
      → OnTime r (suc t) es
      → OnTime r t (timeout (version t) ∷ es)

-- How many answers a history holds.
abbrev pub answers : List CheckEvent → ℕ
answers [] = 0
answers (beat b ∷ es) = suc (answers es)
answers (e ∷ es) = answers es

version-suc : (n : ℕ) → (version n + 1) % 256 ≡ version (suc n)
version-suc n = omega arith

version-ne : {r t : ℕ} → t < r → r < t + 256 → version t ≢ version r
version-ne h k e = omega arith

loop_next :
    (step : ℕ → CheckEvent → Check) (ver ver' : ℕ) (e : CheckEvent) (es : List CheckEvent)
    → step ver e ≡ running ver'
    → check_loop step ver (e ∷ es) ≡ check_loop step ver' es
unfolding check_loop
loop_next step ver ver' e es h = rw (h, check_loop)

-- What both servers' checks do with an answer of full length, and with a timer.
record Checks (step : ℕ → CheckEvent → Check) : Type 0 where
  at_answer :
      (v : ℕ) (b : Bytes) → 4 ≤ length b → step v (beat (some (v ∷ b))) ≡ running ((v + 1) % 256)
  at_stale : (v w : ℕ) → w ≢ v → step v (timeout w) ≡ running v
  at_late : (v : ℕ) → step v (timeout v) ≡ timed_out

socket_Checks : Checks socket_check
unfolding socket_check
socket_Checks = record {
  at_answer = λ v b h. ground arith;
  at_stale = λ v w h. ground arith;
  at_late = λ v. ground arith;
}

api_Checks : Checks api_check
unfolding api_check
api_Checks = record {
  at_answer = λ v b h. ground arith;
  at_stale = λ v w h. ground arith;
  at_late = λ v. ground arith;
}

loop-OnTime :
    {step : ℕ → CheckEvent → Check} {r t : ℕ} {es : List CheckEvent} (c : Checks step)
    (more : List CheckEvent)
    → OnTime r t es
    → check_loop step (version r) (es ++ more) ≡ check_loop step (version (r + answers es)) more
loop-OnTime {r} c more done = rw (add-zero r)
loop-OnTime {step} {r} c more (answer b {es} len h) =
    loop_next step (version r) (version (suc r)) _ (es ++ more)
      (c.at_answer (version r) b len ∙ ap running (version-suc r))
    ∙ loop-OnTime c more h
    ∙ ap (λ n. check_loop step (version n) more) (omega arith)
loop-OnTime {step} {r} c more (expire {t} {es} late near h) =
    loop_next step (version r) (version r) (timeout (version t)) (es ++ more)
      (c.at_stale (version r) (version t) (version-ne late near))
    ∙ loop-OnTime c more h

keeps :
    {step : ℕ → CheckEvent → Check} (c : Checks step) (es : List CheckEvent)
    → OnTime 0 0 es
    → check_loop step 1 es ≡ running (version (answers es))
unfolding check_loop
keeps {step} c es h =
    ap (check_loop step 1) (sym (append-nil es))
    ∙ loop-OnTime c [] h
    ∙ ap (λ n. running (version n)) (omega arith)

late :
    {step : ℕ → CheckEvent → Check} (c : Checks step) (v : ℕ)
    → check_loop step v (timeout v ∷ []) ≡ timed_out
unfolding check_loop
late c v = rw (c.at_late v, check_loop)

gives_up :
    {step : ℕ → CheckEvent → Check} (c : Checks step) (es : List CheckEvent)
    → OnTime 0 0 es
    → check_loop step 1 (es ++ timeout (version (answers es)) ∷ []) ≡ timed_out
gives_up {step} c es h =
    loop-OnTime c (timeout (version (answers es)) ∷ []) h
    ∙ ap (λ n. check_loop step (version n) (timeout (version (answers es)) ∷ [])) (omega arith)
    ∙ late c (version (answers es))

-- While every heartbeat is answered, by at least five bytes, before its timer runs out (and a timer
-- is at most 255 heartbeats behind), both heartbeat checks keep the connection and wait for the
-- next version; a timer of the heartbeat that is waited for ends the check with a timeout.
pub check_loop-OnTime :
    (es : List CheckEvent)
    → OnTime 0 0 es
    → (check_loop socket_check 1 es ≡ running (version (answers es)))
      × (check_loop api_check 1 es ≡ running (version (answers es)))
      × (check_loop socket_check 1 (es ++ timeout (version (answers es)) ∷ []) ≡ timed_out)
      × (check_loop api_check 1 (es ++ timeout (version (answers es)) ∷ []) ≡ timed_out)
check_loop-OnTime es h = (
  keeps socket_Checks es h,
  keeps api_Checks es h,
  gives_up socket_Checks es h,
  gives_up api_Checks es h,
)

-- The frame that the worker writes is read back as an operation 1 whose body begins with the
-- version, in both servers.
pub read_frame-beat :
    (ver expected received : ℕ) (more : Bytes)
    → (read_frame (socket_beat ver expected received ++ more)
        ≡ some (record { op = 1; body = some (ver ∷ be64 expected ++ be32 received) }, more))
      × (read_frame (api_beat ver expected ++ more)
          ≡ some (record { op = 1; body = some (ver ∷ be64 expected) }, more))
unfolding socket_beat api_beat be64 be32 read_frame from_be
read_frame-beat ver expected received more = (ground arith, ground arith)
