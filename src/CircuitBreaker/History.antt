-- ===== src/CircuitBreaker/History.antt =====
-- What the breaker's three variables say about the calls so far, newest first.
use ebook_automation.Common.{
  ℕ, suc, ◌+◌, ◌≤◌, ◌<◌, ◌≡◌, refl, ◌∙◌, false, List, [], ◌∷◌, arith, ltb, leb, if◌then◌else◌,
}
use ebook_automation.CircuitBreaker.{
  failure_threshold, failure_window, open_duration, Breaker, closed, db_call_failed,
  db_call_succeeded, circuit_is_open, live_streak,
}

pub data Call : Type 0 where
  failed : ℕ → Call
  succeeded : Call

-- The breaker after a history of calls (the newest call first).
unfoldable pub replay : List Call → Breaker
replay [] = closed
replay (failed now ∷ calls) = db_call_failed now (replay calls)
replay (succeeded ∷ calls) = db_call_succeeded (replay calls)

-- The specification, on the history alone: how many failures, counted back from `now`, follow
-- one another without a success and without a gap of more than the window.
abbrev pub streak_before : ℕ → List Call → ℕ
streak_before now [] = 0
streak_before now (succeeded ∷ calls) = 0
streak_before now (failed t ∷ calls) =
    let rest = streak_before t calls in if ltb (t + failure_window) now then 0 else suc rest

-- The streak that the newest call ends, if it is a failure.
abbrev pub streak : List Call → ℕ
streak [] = 0
streak (succeeded ∷ calls) = 0
streak (failed t ∷ calls) = suc (streak_before t calls)

-- The time until which the history keeps the circuit open: 30 seconds after the newest failure
-- that was at least the fifth of its streak.
abbrev pub open_until : List Call → ℕ
open_until [] = 0
open_until (succeeded ∷ calls) = open_until calls
open_until (failed t ∷ calls) =
    let rest = open_until calls in
    if leb failure_threshold (streak (failed t ∷ calls)) then t + open_duration else rest

-- Failures are recorded by a clock that has left 0.
abbrev pub IsTimed : List Call → Type 0
IsTimed [] = Unit {0}
IsTimed (succeeded ∷ calls) = IsTimed calls
IsTimed (failed t ∷ calls) = (0 < t) × IsTimed calls

last_failure : List Call → ℕ
last_failure [] = 0
last_failure (succeeded ∷ _) = 0
last_failure (failed t ∷ _) = t

replay-last : (calls : List Call) → (replay calls).last_failure_time ≡ last_failure calls
unfolding replay last_failure db_call_failed db_call_succeeded
replay-last [] = refl
replay-last (succeeded ∷ calls) = refl
replay-last (failed t ∷ calls) = refl

-- The streak that a failure continues is read off the history.
live_streak_lem :
    (now : ℕ) (calls : List Call)
    → IsTimed calls
    → (replay calls).consecutive_failures ≡ streak calls
    → live_streak now (replay calls) ≡ streak_before now calls
unfolding live_streak last_failure
live_streak_lem now [] h e = ground (arith, replay-last [])
live_streak_lem now (succeeded ∷ calls) h e = ground (arith, replay-last (succeeded ∷ calls))
live_streak_lem now (failed t ∷ calls) h e = ground (arith, replay-last (failed t ∷ calls))

replay-consecutive :
    (calls : List Call) → IsTimed calls → (replay calls).consecutive_failures ≡ streak calls
unfolding replay db_call_failed db_call_succeeded
replay-consecutive [] h = refl
replay-consecutive (succeeded ∷ calls) h = refl
replay-consecutive (failed t ∷ calls) h =
    rw (live_streak_lem t calls h.1 (replay-consecutive calls h.1)) (omega arith)

replay-open_until :
    (calls : List Call) → IsTimed calls → (replay calls).circuit_open_until ≡ open_until calls
unfolding replay db_call_failed db_call_succeeded
replay-open_until [] h = refl
replay-open_until (succeeded ∷ calls) h = replay-open_until calls h
replay-open_until (failed t ∷ calls) h =
    ground (
      arith,
      live_streak_lem t calls h.1 (replay-consecutive calls h.1),
      replay-open_until calls h.1,
    )

-- After any history of timed calls the failure counter is the length of the current streak, and
-- the circuit is open at `now` exactly when `now` is before the end of the 30 seconds that
-- follow the newest failure which was at least the fifth of its streak.
pub replay_lem :
    (now : ℕ) (calls : List Call)
    → IsTimed calls
    → ((replay calls).consecutive_failures ≡ streak calls)
      × (circuit_is_open now (replay calls) ≡ ltb now (open_until calls))
unfolding circuit_is_open
replay_lem now calls h = (replay-consecutive calls h, rw (replay-open_until calls h))

-- How many failures a history holds.
abbrev pub failures : List Call → ℕ
failures [] = 0
failures (succeeded ∷ calls) = failures calls
failures (failed t ∷ calls) = suc (failures calls)

streak_before-le : (now : ℕ) (calls : List Call) → streak_before now calls ≤ failures calls
streak_before-le now [] = omega arith
streak_before-le now (succeeded ∷ calls) = omega arith
streak_before-le now (failed t ∷ calls) = ground (arith, streak_before-le t calls)

open_until-few : (calls : List Call) → failures calls < failure_threshold → open_until calls ≡ 0
open_until-few [] h = refl
open_until-few (succeeded ∷ calls) h = open_until-few calls h
open_until-few (failed t ∷ calls) h = ground (arith, streak_before-le t calls, open_until-few calls)

-- Fewer than five failures in all never open the circuit, whenever they happen.
pub few_failures_keep_closed :
    (now : ℕ) (calls : List Call)
    → IsTimed calls
    → failures calls < failure_threshold
    → circuit_is_open now (replay calls) ≡ false
few_failures_keep_closed now calls h few =
    (replay_lem now calls h).1 ∙ rw (open_until-few calls few) (ground arith)
