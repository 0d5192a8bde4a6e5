-- ===== src/Timer.antt =====
-- net/Timer.h, net/Timer.cc, net/TimerId.h and net/Timestamp.h: timers and the manager that runs
-- them. A time is a number of microseconds since the epoch. Timers are objects with addresses; a use
-- of one that was deleted, like a failed `assert`, is `none`. A `std::set` is a map to nothing.
pub mod Round
pub mod Managed
pub mod Changes
pub mod Delay
use qslary.Base.{
  ℕ, ◌+◌, ◌-◌, ◌*◌, ◌/◌, ◌%◌, ◌^◌, Bool, true, false, not, ◌&&◌, ◌||◌, Option, none, some, List, [],
  ◌∷◌, ◌++◌, ◌==◌, ltb, if◌then◌else◌, length,
}
use qslary.Base.Fault.{◌>>=◌, ◌>>◌, require}
use qslary.Base.OrdMap
use qslary.Base.PairSet.{PairSet, contains, add, remove}

abbrev pub Timestamp : Type 0
Timestamp = ℕ

abbrev pub valid : Timestamp → Bool
valid t = ltb 0 t

abbrev pub Address : Type 0
Address = ℕ

-- A `double` of seconds that is not negative, by what the code does with it: its comparison with 0.0,
-- and its conversion to whole microseconds.
pub record Interval : Type 0 where
  pub positive : Bool
  pub micro_seconds : ℕ

abbrev pub once : Interval
once = record { positive = false; micro_seconds = 0 }

-- A sum that `int64_t` does not hold is a fault.
unfoldable pub add_time : Timestamp → Interval → Option Timestamp
add_time timestamp seconds = do
  let sum = timestamp + seconds.micro_seconds
  require (ltb sum (2 ^ 63))
  some sum

pub record Timer : Type 0 where
  pub expiration : Timestamp
  pub interval : Interval
  pub recurring : Bool
  pub sequence : ℕ

unfoldable pub restart : Timestamp → Timer → Option Timer
unfolding add_time
restart now timer =
    if timer.recurring
    then (do
      expiration ← add_time now timer.interval
      some (record timer { expiration = expiration }))
    else some (record timer { expiration = 0 })

abbrev pub Entry : Type 0
Entry = Timestamp × Address

-- `TimerId` has the same parts.
abbrev pub ActiveTimer : Type 0
ActiveTimer = Address × ℕ

-- `objects` are the timers that were not deleted, `armed` is the time that the descriptor was last set
-- for, `num_created` is the counter that all timers share.
pub record TimerManger : Type 0 where
  pub objects : List (Address × Timer)
  pub timers : PairSet
  pub active_timers : PairSet
  pub canceling_timers : PairSet
  pub calling_expired_timers : Bool
  pub armed : Option Timestamp
  pub num_created : ℕ

pub create : ℕ → TimerManger
create num_created = record {
  objects = [];
  timers = [];
  active_timers = [];
  canceling_timers = [];
  calling_expired_timers = false;
  armed = none;
  num_created = num_created;
}

delete_all : PairSet → List (Address × Timer) → List (Address × Timer)
delete_all [] objects = objects
delete_all (((when, at), u) ∷ timers) objects = delete_all timers (OrdMap.erase ltb at objects)

-- The destructor.
pub destroy : TimerManger → TimerManger
unfolding delete_all
destroy m = record m { objects = delete_all m.timers m.objects; armed = none }

-- `timers_.size() == activeTimers_.size()`
abbrev pub same_size : TimerManger → Bool
same_size m = length m.timers == length m.active_timers

abbrev pub object : Address → TimerManger → Option Timer
object at m = OrdMap.find ltb at m.objects

-- `detail::howMuchTimeFromNow`: seconds and nanoseconds, never less than 100 microseconds.
pub how_much_time_from_now : Timestamp → Timestamp → ℕ × ℕ
how_much_time_from_now when now =
    let micro_seconds = if ltb when (now + 100) then 100 else when - now in
    (micro_seconds / 1000000, micro_seconds % 1000000 * 1000)

pub is_earliest : Timestamp → PairSet → Bool
is_earliest when [] = true
is_earliest when (((first, at), u) ∷ timers) = ltb when first

-- Whether the timer is the earliest, and the manager.
unfoldable pub insert : Address → TimerManger → Option (Bool × TimerManger)
unfolding is_earliest
insert at m = do
  require (same_size m)
  timer ← object at m
  let when = timer.expiration
  require (not (contains (when, at) m.timers))
  require (not (contains (at, timer.sequence) m.active_timers))
  let m' : TimerManger = record m {
    timers = add (when, at) m.timers;
    active_timers = add (at, timer.sequence) m.active_timers;
  }
  require (same_size m')
  some (is_earliest when m.timers, m')

-- `addTimer(std::function, Timestamp, double)`, with the address of the new object.
unfoldable pub add_timer :
    Address → Timestamp → Interval → TimerManger → Option (ActiveTimer × TimerManger)
unfolding insert
add_timer at when interval m = do
  let sequence = m.num_created + 1
  let timer : Timer = record {
    expiration = when;
    interval = interval;
    recurring = interval.positive;
    sequence = sequence;
  }
  (earliest, m') ←
      insert at
        (record m { objects = OrdMap.assign ltb at timer m.objects; num_created = sequence })
  some ((at, sequence), (if earliest then record m' { armed = some when } else m'))

pub run_at : Address → Timestamp → TimerManger → Option (ActiveTimer × TimerManger)
unfolding add_timer
run_at at time m = add_timer at time once m

pub run_after : Address → Timestamp → Interval → TimerManger → Option (ActiveTimer × TimerManger)
unfolding add_timer add_time
run_after at now delay m = do when ← add_time now delay; add_timer at when once m

pub run_every : Address → Timestamp → Interval → TimerManger → Option (ActiveTimer × TimerManger)
unfolding add_timer add_time
run_every at now interval m = do when ← add_time now interval; add_timer at when interval m

-- `timers_.erase`, `delete` and `activeTimers_.erase` of an active timer.
cancel_active : ActiveTimer → TimerManger → Option TimerManger
cancel_active (at, sequence) m = do
  timer ← object at m
  require (contains (timer.expiration, at) m.timers)
  some (record m {
    objects = OrdMap.erase ltb at m.objects;
    timers = remove (timer.expiration, at) m.timers;
    active_timers = remove (at, sequence) m.active_timers;
  })

unfoldable pub cancel : ActiveTimer → TimerManger → Option TimerManger
unfolding cancel_active
cancel timer m = do
  require (same_size m)
  m' ←
      (if contains timer m.active_timers
        then cancel_active timer m
        else some (
            if m.calling_expired_timers
            then record m { canceling_timers = add timer m.canceling_timers }
            else m))
  require (same_size m')
  some m'
