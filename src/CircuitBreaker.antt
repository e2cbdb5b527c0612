-- ===== src/CircuitBreaker.antt =====
-- web_service/circuit_breaker.py: the process-local circuit breaker for the database.
--
-- `time.monotonic()` is a float of seconds; here it is a number of nanoseconds, the clock's
-- own resolution, given to each call. A clock starts above 0, as the source's test
-- `_last_failure_time > 0` takes for granted.
pub mod History
use ebook_automation.Common.{ℕ, ◌+◌, ◌*◌, Bool, ◌&&◌, ltb, leb, if◌then◌else◌}

abbrev pub failure_threshold : ℕ
failure_threshold = 5

abbrev pub second : ℕ
second = 1_000_000_000

abbrev pub failure_window : ℕ
failure_window = 60 * second

abbrev pub open_duration : ℕ
open_duration = 30 * second

pub record Breaker : Type 0 where
  pub consecutive_failures : ℕ
  pub circuit_open_until : ℕ
  pub last_failure_time : ℕ

abbrev pub closed : Breaker
closed = record { consecutive_failures = 0; circuit_open_until = 0; last_failure_time = 0 }

-- The streak that a failure at `now` continues: 0 once the last failure is out of the window.
-- The gap `now - last > window` is written without a subtraction.
unfoldable pub live_streak : ℕ → Breaker → ℕ
live_streak now b =
    if ltb 0 b.last_failure_time && ltb (b.last_failure_time + failure_window) now
    then 0
    else b.consecutive_failures

unfoldable pub db_call_failed : ℕ → Breaker → Breaker
unfolding live_streak
db_call_failed now b =
    let n = live_streak now b + 1 in
    record {
      consecutive_failures = n;
      circuit_open_until =
          if leb failure_threshold n then now + open_duration else b.circuit_open_until;
      last_failure_time = now;
    }

unfoldable pub db_call_succeeded : Breaker → Breaker
db_call_succeeded b = record b { consecutive_failures = 0; last_failure_time = 0 }

unfoldable pub circuit_is_open : ℕ → Breaker → Bool
circuit_is_open now b = ltb now b.circuit_open_until
