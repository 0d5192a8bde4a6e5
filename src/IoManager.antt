-- ===== src/IoManager.antt =====
-- net/IOManager.h and net/IOManager.cc: the callbacks of descriptors, and what the kernel is told of
-- them. A callback is a value of a type C; the scheduler's queue is the list of those that were handed
-- to it. A use of memory that is not there is `none`.
pub mod Events
pub mod Dispatch
use Prim.Native.Nat.{bit_and, bit_or}
use qslary.Base.{
  ℕ, ◌+◌, ◌-◌, ◌%◌, Bool, true, false, not, ◌&&◌, Option, none, some, List, [], ◌∷◌, ◌++◌, ◌==◌,
  ltb, if◌then◌else◌,
}
use qslary.Base.Fault.{◌>>=◌}
use qslary.Base.Int.{u64_mod}
use qslary.Base.OrdMap
use qslary.Channel.{poll_in, poll_out, poll_err, poll_hup}
use qslary.Poller.{Operation, ctl_add, ctl_mod, Epoll}

-- A callback that was never set is `none`.
pub record FdCallback (C : Type 0) : Type 0 where
  pub concern_read : Bool
  pub concern_write : Bool
  pub read_callback : Option C
  pub write_callback : Option C

pub record IoManager (K C : Type 0) : Type 0 where
  pub kernel : K
  pub pending_event_count : ℕ
  pub fd_groups : List (ℕ × FdCallback C)
  pub scheduled : List (Option C)

unfoldable pub group : {K C : Type 0} → ℕ → IoManager K C → Option (FdCallback C)
group fd m = OrdMap.find ltb fd m.fd_groups

abbrev pub no_callback : {C : Type 0} → FdCallback C
no_callback = record {
  concern_read = false;
  concern_write = false;
  read_callback = none;
  write_callback = none;
}

-- `mFdGroups[fd]->... = ...` of a descriptor that has a group.
unfoldable pub change_group :
    {K C : Type 0} → (FdCallback C → FdCallback C) → ℕ → IoManager K C → IoManager K C
unfolding group
change_group f fd m = elim (group fd m) [
  | none ↦ m
  | some g ↦ record m { fd_groups = OrdMap.assign ltb fd (f g) m.fd_groups }
]

module _ {K C : Type 0} (e : Epoll K) where
  -- `UpdateEpoll`, with the events that the caller asks for; the kernel's refusal is not looked at.
  unfoldable pub update_epoll : ℕ → ℕ → IoManager K C → IoManager K C
  unfolding group
  update_epoll fd events m = elim (group fd m) [
    | none ↦ record m {
      fd_groups = OrdMap.assign ltb fd no_callback m.fd_groups;
      kernel = (e.epoll_ctl ctl_add fd events fd m.kernel).1;
    }
    | some g ↦ record m { kernel = (e.epoll_ctl ctl_mod fd events fd m.kernel).1 }
  ]

  unfoldable pub add_read_event : ℕ → C → IoManager K C → IoManager K C
  unfolding update_epoll change_group
  add_read_event fd cb m =
      change_group (λ g. record g { concern_read = true; read_callback = some cb }) fd
        (update_epoll fd poll_in m)

  unfoldable pub add_write_event : ℕ → C → IoManager K C → IoManager K C
  unfolding update_epoll change_group
  add_write_event fd cb m =
      change_group (λ g. record g { concern_write = true; write_callback = some cb }) fd
        (update_epoll fd poll_out m)

-- `FdCallback::TriggerEvent`: the number of events, and the callbacks for the scheduler.
unfoldable pub trigger_event : {C : Type 0} → ℕ → FdCallback C → ℕ × List (Option C)
trigger_event events g =
    let reads = g.concern_read && not (bit_and events poll_in == 0) in
    let writes = g.concern_read && not (bit_and events poll_out == 0) in
    (
      (if reads then 1 else 0) + (if writes then 1 else 0),
      (if reads then g.read_callback ∷ [] else [])
          ++ (if writes then g.write_callback ∷ [] else []),
    )

-- `events |= (EPOLLIN | EPOLLOUT)` on an error or a hangup.
unfoldable pub with_errors : ℕ → ℕ
with_errors events =
    if bit_and events (bit_or poll_err poll_hup) == 0
    then events
    else bit_or events (bit_or poll_in poll_out)

module _ {K C : Type 0} where
  pub cancel_read_event : ℕ → IoManager K C → IoManager K C
  unfolding group change_group
  cancel_read_event fd m = elim (group fd m) [
    | none ↦ m
    | some g ↦
        if not g.concern_read
        then m
        else change_group (λ g'. record g' { concern_read = false }) fd m
  ]

  pub cancel_write_event : ℕ → IoManager K C → IoManager K C
  unfolding group change_group
  cancel_write_event fd m = elim (group fd m) [
    | none ↦ m
    | some g ↦
        if not g.concern_write
        then m
        else change_group (λ g'. record g' { concern_write = false }) fd m
  ]

  -- `CancelAll`; both cancellations return true.
  pub cancel_all : ℕ → IoManager K C → IoManager K C
  unfolding cancel_read_event cancel_write_event
  cancel_all fd m = cancel_write_event fd (cancel_read_event fd m)

  -- The erasure of the end of the map is a fault.
  pub del_file_desc : ℕ → IoManager K C → Option (IoManager K C)
  unfolding group
  del_file_desc fd m = elim (group fd m) [
    | none ↦ none
    | some g ↦ some (record m { fd_groups = OrdMap.erase ltb fd m.fd_groups })
  ]

  -- `IsClean(uint64_t&)`, for what `Scheduler::IsClean` says.
  is_clean_at : ℕ → Bool → IoManager K C → Bool
  is_clean_at timeout scheduler_clean m =
      (timeout == (u64_mod - 1)) && ((m.pending_event_count == 0) && scheduler_clean)

  pub is_clean : Bool → IoManager K C → Bool
  unfolding is_clean_at
  is_clean scheduler_clean m = is_clean_at 0 scheduler_clean m

  -- The group of a descriptor that has none is a null pointer.
  unfoldable pub process_fd_event : ℕ → ℕ → IoManager K C → Option (IoManager K C)
  unfolding group trigger_event with_errors
  process_fd_event fd events m = do
    g ← group fd m
    let (num, callbacks) = trigger_event (with_errors events) g
    some (record m {
      scheduled = m.scheduled ++ callbacks;
      pending_event_count = (m.pending_event_count + u64_mod - num) % u64_mod;
    })

  -- The loop of `Idle` over what `epoll_wait` gave.
  pub process_events : ℕ → List (ℕ × ℕ) → IoManager K C → Option (IoManager K C)
  unfolding process_fd_event
  process_events wakeup_fd [] m = some m
  process_events wakeup_fd ((fd, events) ∷ es) m = do
    m' ← (if fd == wakeup_fd then some m else process_fd_event fd events m)
    process_events wakeup_fd es m'
