-- ===== src/Events/Examples.antt =====
-- Delays at concrete durations.
-- Five seconds, at most five minutes, and no jitter at all.
mod Delivery
use go_book.Base.{arith, refl, ◌≡◌}
use go_book.Base.Int.{pos, quot, wrap64, ◌*ℤ◌, ◌+ℤ◌}
use go_book.Events.Backoff.{backoff_delay, capped_delay}
use go_book.Events.Delay.{IsDelay, IsRandom, backoff_delay-IsDelay}

backoff-third :
    backoff_delay (λ n. pos 0) (pos 5_000_000_000) (pos 300_000_000_000) (pos 3)
    ≡ pos 10_000_000_000
unfolding backoff_delay capped_delay quot wrap64 ◌*ℤ◌ ◌+ℤ◌
backoff-third = refl

-- Past an int64 the product wraps around, and the delay falls below the cap again: here to four seconds
-- of eighteen minutes.
capped_delay-wraps :
    capped_delay (pos 4_294_967_297) (pos 1_099_511_627_776) (pos 33) ≡ pos 4_294_967_296
unfolding capped_delay wrap64 ◌*ℤ◌ ◌+ℤ◌
capped_delay-wraps = refl

no_jitter-IsRandom : IsRandom (λ n. pos 0)
no_jitter-IsRandom n h = (omega arith, h)

backoff_delay-IsDelay_example :
    IsDelay
      (pos 5_000_000_000)
      (pos 300_000_000_000)
      (pos 3)
      (capped_delay (pos 5_000_000_000) (pos 300_000_000_000) (pos 3))
      (backoff_delay (λ n. pos 0) (pos 5_000_000_000) (pos 300_000_000_000) (pos 3))
backoff_delay-IsDelay_example =
    backoff_delay-IsDelay (λ n. pos 0) (pos 5_000_000_000) (pos 300_000_000_000) (pos 3)
      no_jitter-IsRandom (omega arith) (omega arith) (omega arith)
