-- ===== src/Timer/Delay.antt =====
-- The time that the descriptor is set for.
use qslary.Base.{◌+◌, ◌-◌, ◌*◌, ◌<◌, ◌≤◌, ◌≡◌, ltb, if◌then◌else◌, arith}
use qslary.Timer.{Timestamp, how_much_time_from_now}

-- The seconds and nanoseconds are a valid time that is not zero, so that the descriptor is set and not
-- stopped; they are exactly the microseconds up to the time, but never less than 100.
pub how_much_time_from_now-right :
    (when now : Timestamp)
    → let ts = how_much_time_from_now when now in
      (ts.1 < 1000000000)
      × (100000 ≤ ts.0 * 1000000000 + ts.1)
      × (ts.0 * 1000000000 + ts.1 ≡ (if ltb when (now + 100) then 100 else when - now) * 1000)
unfolding how_much_time_from_now
how_much_time_from_now-right when now = ground arith
