-- ===== src/Examples/Managers.antt =====
-- The events of an I/O manager.
use qslary.Base.{ℕ, ◌+◌, ◌%◌, ◌≡◌, refl, true, none, some, [], ◌∷◌, arith}
use qslary.Base.Int.{u64_mod}
use qslary.Base.OrdMap
use qslary.Channel.{poll_in, poll_out}
use qslary.IoManager.{
  FdCallback, IoManager, no_callback, group, add_read_event, add_write_event, del_file_desc,
  process_fd_event, process_events, with_errors,
}
use qslary.IoManager.Events.{IsWatched, add_events-IsWatched}
use qslary.IoManager.Dispatch.{
  del_file_desc-faults, add_write_event-silent, process_events-Dispatched,
}
use qslary.Examples.Pollers.{Interests, at_fd, epoll, epoll-IsEpoll}

-- Callbacks are numbers; 3 is the descriptor for wake-ups, 7 has a callback for reading.
abbrev reader : FdCallback ℕ
reader = record no_callback { concern_read = true; read_callback = some 70 }

abbrev manager : IoManager Interests ℕ
manager = record {
  kernel = at_fd 3 (some 1) (at_fd 7 (some 1) (λ j. none));
  pending_event_count = 0;
  fd_groups = (7, reader) ∷ [];
  scheduled = [];
}

manager-IsWatched : IsWatched epoll-IsEpoll 3 manager
unfolding group OrdMap.find
manager-IsWatched = record { sorted = ground arith; watched = λ fd. ground arith }

-- Writing is asked for too: the kernel waits for it alone.
add_events-IsWatched_example :
    (IsWatched epoll-IsEpoll 3 (add_read_event epoll 7 71 manager)
      × ((add_read_event epoll 7 71 manager).kernel 7 ≡ some poll_in)
      × (group 7 (add_read_event epoll 7 71 manager)
          ≡ some (record reader { read_callback = some 71 })))
    × (IsWatched epoll-IsEpoll 3 (add_write_event epoll 7 71 manager)
        × ((add_write_event epoll 7 71 manager).kernel 7 ≡ some poll_out)
        × (group 7 (add_write_event epoll 7 71 manager)
            ≡ some (record reader { concern_write = true; write_callback = some 71 })))
unfolding group OrdMap.find
add_events-IsWatched_example =
    add_events-IsWatched epoll-IsEpoll 3 7 71 manager manager-IsWatched (ground arith) refl refl

add_write_event-silent_example :
    process_fd_event 9 poll_out (add_write_event epoll 9 90 manager)
    ≡ some (add_write_event epoll 9 90 manager)
unfolding group OrdMap.find
add_write_event-silent_example =
    add_write_event-silent epoll 9 90 manager poll_out refl (omega arith)

process_events-Dispatched_example :
    (m' : IoManager Interests ℕ) × (process_events 3 ((3, 1) ∷ (7, 1) ∷ []) manager ≡ some m')
    × (m'.fd_groups ≡ manager.fd_groups)
    × (m'.kernel ≡ manager.kernel)
    × (m'.scheduled ≡ some 70 ∷ [])
    × ((m'.pending_event_count + 1) % u64_mod ≡ 0 % u64_mod)
unfolding with_errors group OrdMap.find
process_events-Dispatched_example = process_events-Dispatched 3 ((3, 1) ∷ (7, 1) ∷ []) manager refl

del_file_desc-faults_example :
    (m' : IoManager Interests ℕ) × (del_file_desc 7 manager ≡ some m')
    × (m'.kernel ≡ manager.kernel)
    × (process_fd_event 7 1 m' ≡ none)
unfolding group OrdMap.find
del_file_desc-faults_example = del_file_desc-faults 7 1 manager reader manager-IsWatched.sorted refl
