-- ===== src/Tests/Formats.antt =====
-- The token format and the circuit breaker at concrete inputs.

use ebook_automation.CircuitBreaker.{second, circuit_is_open}
use ebook_automation.CircuitBreaker.History.{Call, failed, replay, replay_lem}
use ebook_automation.Common.{◌*◌, ◌≡◌, true, List, [], ◌∷◌, arith}

-- six failures of which the second comes 70 seconds after the first
abbrev calls : List Call
calls =
    failed (79 * second)
    ∷ failed (78 * second)
    ∷ failed (77 * second)
    ∷ failed (76 * second)
    ∷ failed (75 * second)
    ∷ failed (5 * second)
    ∷ []

replay_lem_example :
    ((replay calls).consecutive_failures ≡ 5)
    × (circuit_is_open (100 * second) (replay calls) ≡ true)
replay_lem_example =
    replay_lem (100 * second) calls
      (omega arith, (omega arith, (omega arith, (omega arith, (omega arith, (omega arith, tt))))))
