-- ===== src/Timer/Round.antt =====
-- `TimerManger::handleRead` of net/Timer.cc: what happens when the descriptor fires.
pub mod Due
pub mod Forgotten
pub mod Expiry
pub mod Restart
pub mod Rearm
pub mod Called
pub mod Calls
pub mod Handled
use qslary.Base.{
  ℕ, ◌+◌, ◌-◌, ◌*◌, ◌/◌, ◌%◌, ◌^◌, Bool, true, false, not, ◌&&◌, ◌||◌, Option, none, some, List, [],
  ◌∷◌, ◌++◌, ◌==◌, ltb, if◌then◌else◌, length,
}
use qslary.Base.Int.{ℤ, pos, negsuc}
use qslary.Base.Fault.{◌>>=◌, ◌>>◌, require}
use qslary.Base.OrdMap
use qslary.Base.PairSet.{PairSet, pair_less, contains, add, remove}
use qslary.Timer.{
  Timestamp, valid, Address, Interval, Timer, restart, Entry, ActiveTimer, TimerManger, same_size,
  object, insert, add_timer, cancel,
}

abbrev pub uintptr_max : ℕ
uintptr_max = 2 ^ 64 - 1

-- The entries before `lower_bound(sentry)`, and those from there on.
unfoldable pub take_expired : Timestamp → PairSet → List Entry × PairSet
take_expired now [] = ([], [])
take_expired now ((entry, u) ∷ timers) =
    let later = take_expired now timers in
    if pair_less entry (now, uintptr_max)
    then (entry ∷ later.0, later.1)
    else ([], (entry, u) ∷ timers)

-- The loop that takes the expired timers off the active ones.
unfoldable pub forget_active : List Entry → TimerManger → Option TimerManger
forget_active [] m = some m
forget_active ((when, at) ∷ expired) m = do
  timer ← object at m
  require (contains (at, timer.sequence) m.active_timers)
  forget_active expired (record m { active_timers = remove (at, timer.sequence) m.active_timers })

-- `end == timers_.end() || now < end->first`
unfoldable pub is_later : Timestamp → PairSet → Bool
is_later now [] = true
is_later now (((first, at), u) ∷ timers) = ltb now first

unfoldable pub get_expired : Timestamp → TimerManger → Option (List Entry × TimerManger)
unfolding take_expired forget_active is_later
get_expired now m = do
  require (same_size m)
  let taken = take_expired now m.timers
  require (is_later now taken.1)
  m' ← forget_active taken.0 (record m { timers = taken.1 })
  require (same_size m')
  some (taken.0, m')

-- One round of the loop of `reset`.
pub reset_one : Timestamp → Entry → TimerManger → Option TimerManger
unfolding restart insert
reset_one now (when, at) m = do
  timer ← object at m
  if timer.recurring && not (contains (at, timer.sequence) m.canceling_timers)
      then (do
        timer' ← restart now timer
        (earliest, m') ← insert at (record m { objects = OrdMap.assign ltb at timer' m.objects })
        some m')
      else some (record m { objects = OrdMap.erase ltb at m.objects })

pub reset_all : Timestamp → List Entry → TimerManger → Option TimerManger
unfolding reset_one
reset_all now [] m = some m
reset_all now (entry ∷ expired) m = do m' ← reset_one now entry m; reset_all now expired m'

-- The end of `reset`: the descriptor is set for the first timer, if its time is valid.
pub rearm : TimerManger → Option TimerManger
rearm m = elim m.timers [
  | [] ↦ some m
  | ((when, at), u) ∷ timers ↦ do
    timer ← object at m
    some (if valid timer.expiration then record m { armed = some timer.expiration } else m)
]

pub reset : List Entry → Timestamp → TimerManger → Option TimerManger
unfolding reset_all rearm
reset expired now m = do m' ← reset_all now expired m; rearm m'

-- What a callback may do to the manager that runs it: a new timer has the address that the allocator
-- gives it.
pub data Command : Type 0 where
  command_add : Address → Timestamp → Interval → Command
  command_cancel : ActiveTimer → Command

unfoldable pub run_command : Command → TimerManger → Option TimerManger
unfolding add_timer cancel
run_command (command_add at when interval) m = do (id, m') ← add_timer at when interval m; some m'
run_command (command_cancel timer) m = cancel timer m

unfoldable pub run_commands : List Command → TimerManger → Option TimerManger
unfolding run_command
run_commands [] m = some m
run_commands (command ∷ commands) m = do m' ← run_command command m; run_commands commands m'

-- `it.second->run()` for each expired timer.
pub run_expired : (Address → List Command) → List Entry → TimerManger → Option TimerManger
unfolding run_commands
run_expired callback [] m = some m
run_expired callback ((when, at) ∷ expired) m = do
  timer ← object at m
  m' ← run_commands (callback at) m
  run_expired callback expired m'

-- `detail::readTimerfd`, by what `read` returns: the assertion holds if that is `sizeof howmany`.
unfoldable pub read_timerfd : ℤ → Option (Unit {0})
read_timerfd (pos n) = require (n == 8)
read_timerfd (negsuc n) = none

-- `handleRead` at the time `now`, with what `read` of the descriptor returns: a descriptor that was
-- read is set for no time any more.
pub handle_read : ℤ → (Address → List Command) → Timestamp → TimerManger → Option TimerManger
unfolding read_timerfd get_expired run_expired reset
handle_read n callback now m = do
  read_timerfd n
  (expired, m') ← get_expired now (record m { armed = none })
  ran ←
      run_expired callback expired
        (record m' { calling_expired_timers = true; canceling_timers = [] })
  reset expired now (record ran { calling_expired_timers = false })
