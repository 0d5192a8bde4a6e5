-- ===== src/Examples/Timers.antt =====
-- Timers at work.
use qslary.Base.{
  ◌≢◌, ℕ, ◌≡◌, ◌<◌, ◌≤◌, ◌+◌, ◌*◌, ◌-◌, refl, true, false, not, ◌&&◌, ◌||◌, none, some, List, [],
  ◌∷◌, ltb, leb, if◌then◌else◌, arith,
}
use qslary.Base.OrdMap
use qslary.Base.Int.{ℤ, pos}
use qslary.Base.PairSet.{contains, add, remove}
use qslary.Timer.{
  Timestamp, Address, Interval, once, Timer, Entry, TimerManger, object, add_timer, insert, cancel,
  how_much_time_from_now,
}
use qslary.Timer.Delay.{how_much_time_from_now-right}
use qslary.Timer.Managed.{IsManaged}
use qslary.Timer.Changes.{is_armed, add_timer-IsManaged, cancel-IsManaged}
use qslary.Timer.Round.{
  Command, command_add, command_cancel, run_commands, run_command, take_expired, is_later,
  forget_active, get_expired, handle_read,
}
use qslary.Timer.Round.Due.{member, distinct}
use qslary.Timer.Round.Forgotten.{all_rest, all_small}
use qslary.Timer.Round.Expiry.{get_expired-IsManaged}
use qslary.Timer.Round.Restart.{restarted, time_fits}
use qslary.Timer.Round.Rearm.{is_rearmed}
use qslary.Timer.Round.Handled.{
  round_fresh, round_cancels, handle_read-IsManaged, handle_read-restarts, handle_read-stops,
}

abbrev half : Interval
half = record { positive = true; micro_seconds = 500 }

abbrev ticker : Timer
ticker = record { expiration = 1000; interval = half; recurring = true; sequence = 1 }

abbrev alarm : Timer
alarm = record { expiration = 5000; interval = once; recurring = false; sequence = 2 }

-- A recurring timer at address 16, one that runs once at address 32.
abbrev two : TimerManger
two = record {
  objects = (16, ticker) ∷ (32, alarm) ∷ [];
  timers = ((1000, 16), tt) ∷ ((5000, 32), tt) ∷ [];
  active_timers = ((16, 1), tt) ∷ ((32, 2), tt) ∷ [];
  canceling_timers = [];
  calling_expired_timers = false;
  armed = some 1000;
  num_created = 2;
}

two-IsManaged : IsManaged two
unfolding contains OrdMap.find
two-IsManaged = record {
  sizes = refl;
  objects_sorted = ground arith;
  timers_sorted = ground arith;
  active_sorted = ground arith;
  timers_right = λ when at. ground arith;
  active_rights = λ at sequence. ground arith;
}

add_timer-IsManaged_example :
    (m' : TimerManger) × (add_timer 48 300 once two ≡ some ((48, 3), m'))
    × IsManaged m'
    × (contains (48, 3) m'.active_timers ≡ true)
    × (contains (300, 48) m'.timers ≡ true)
    × ((if is_armed two then is_armed m' else true) ≡ true)
unfolding OrdMap.find
add_timer-IsManaged_example = add_timer-IsManaged 48 300 once two two-IsManaged refl (omega arith)

cancel-IsManaged_example :
    (m' : TimerManger) × (cancel (16, 1) two ≡ some m')
    × IsManaged m'
    × (contains (16, 1) m'.active_timers ≡ false)
    × ((contains (16, 1) two.active_timers
          || (if two.calling_expired_timers then contains (16, 1) m'.canceling_timers else true))
        ≡ true)
    × ((if is_armed two then is_armed m' else true) ≡ true)
cancel-IsManaged_example = cancel-IsManaged 16 1 two two-IsManaged

get_expired-IsManaged_example :
    (es : List Entry) × (m' : TimerManger) × (get_expired 1000 two ≡ some (es, m'))
    × IsManaged m'
    × ((all_rest es m' ≡ true) × ((distinct es ≡ true) × (all_small es ≡ true)))
    × ((when : Timestamp) (at : Address)
        → (member (when, at) es ≡ (contains (when, at) two.timers && leb when 1000))
          × (contains (when, at) m'.timers ≡ (contains (when, at) two.timers && ltb 1000 when)))
    × ((m'.objects ≡ two.objects) × ((m'.num_created ≡ 2) × (m'.armed ≡ some 1000)))
get_expired-IsManaged_example = get_expired-IsManaged 1000 two two-IsManaged

-- The ticker sets another timer; in `stops_itself` it also cancels itself.
abbrev ticks : Address → List Command
ticks at = command_add 48 7000 once ∷ []

abbrev stops_itself : Address → List Command
stops_itself at = command_add 48 7000 once ∷ command_cancel (16, 1) ∷ []

ticks_fresh : round_fresh ticks 1200 two ≡ true
unfolding get_expired take_expired is_later forget_active contains remove OrdMap.find OrdMap.erase
    run_commands run_command add_timer insert add OrdMap.assign OrdMap.insert
ticks_fresh = refl

two_fit : (j : Address) → time_fits 1200 j two ≡ true
unfolding OrdMap.find
two_fit j = ground arith

handle_read-IsManaged_example :
    (m' : TimerManger) × (handle_read (pos 8) ticks 1200 two ≡ some m')
    × IsManaged m'
    × (is_rearmed m' ≡ true)
    × ((n : ℤ) → n ≢ pos 8 → handle_read n ticks 1200 two ≡ none)
handle_read-IsManaged_example =
    handle_read-IsManaged ticks 1200 two two-IsManaged ticks_fresh two_fit

ticks_keep : round_cancels (16, 1) ticks 1200 two ≡ false
unfolding get_expired take_expired is_later forget_active contains remove OrdMap.find OrdMap.erase
ticks_keep = refl

handle_read-restarts_example :
    (m' : TimerManger) × (handle_read (pos 8) ticks 1200 two ≡ some m')
    × (object 16 m' ≡ some (restarted 1200 ticker))
    × (contains (1700, 16) m'.timers ≡ true)
    × (contains (16, 1) m'.active_timers ≡ true)
unfolding contains OrdMap.find
handle_read-restarts_example =
    handle_read-restarts ticks 1200 two two-IsManaged ticks_fresh two_fit 1000 16 ticker refl refl
      refl refl ticks_keep

stops_itself_fresh : round_fresh stops_itself 1200 two ≡ true
unfolding get_expired take_expired is_later forget_active contains remove OrdMap.find OrdMap.erase
    run_commands run_command add_timer insert add OrdMap.assign OrdMap.insert cancel
stops_itself_fresh = refl

it_stops : (ticker.recurring && not (round_cancels (16, 1) stops_itself 1200 two)) ≡ false
unfolding get_expired take_expired is_later forget_active contains remove OrdMap.find OrdMap.erase
it_stops = refl

handle_read-stops_example :
    (m' : TimerManger) × (handle_read (pos 8) stops_itself 1200 two ≡ some m')
    × (object 16 m' ≡ none)
    × ((t : Timestamp) → contains (t, 16) m'.timers ≡ false)
    × ((sequence : ℕ) → contains (16, sequence) m'.active_timers ≡ false)
unfolding contains OrdMap.find
handle_read-stops_example =
    handle_read-stops stops_itself 1200 two two-IsManaged stops_itself_fresh two_fit 1000 16 ticker
      refl refl refl it_stops

how_much_time_from_now-right_example :
    let ts = how_much_time_from_now 2500000 1000000 in
    (ts.1 < 1000000000)
    × (100000 ≤ ts.0 * 1000000000 + ts.1)
    × (ts.0 * 1000000000 + ts.1
        ≡ (if ltb 2500000 (1000000 + 100) then 100 else 2500000 - 1000000) * 1000)
how_much_time_from_now-right_example = how_much_time_from_now-right 2500000 1000000
