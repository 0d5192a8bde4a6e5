-- ===== src/Examples/Pollers.antt =====
-- Channels and a poller at work, over a kernel that is its interest list.
use qslary.Base.{
  ◌&&◌, ℕ, ◌≡◌, refl, Bool, true, false, Option, none, some, [], ◌∷◌, ◌==◌, if◌then◌else◌, arith,
}
use qslary.Base.OrdMap
use qslary.Channel.{k_deleted, create, is_none_event}
use qslary.Poller.{
  Address, Operation, ctl_add, ctl_mod, ctl_del, Epoll, EpollPoller, is_at, remove,
  fill_active_channels,
}
use qslary.Poller.Table.{IsEpoll, IsRegistered}
use qslary.Poller.Removal.{remove-IsRegistered, fill_active_channels-IsRegistered}

abbrev pub Interests : Type 0
Interests = ℕ → Option ℕ

abbrev pub at_fd : ℕ → Option ℕ → Interests → Interests
at_fd fd entry k j = if j == fd then entry else k j

abbrev pub control : Operation → ℕ → ℕ → Address → Interests → Bool × Interests
control ctl_add fd events at k = elim (k fd) [
  | none ↦ (true, at_fd fd (some events) k)
  | some old ↦ (false, k)
]
control ctl_mod fd events at k = elim (k fd) [
  | none ↦ (false, k)
  | some old ↦ (true, at_fd fd (some events) k)
]
control ctl_del fd events at k = (true, at_fd fd none k)

abbrev pub epoll : Epoll Interests
epoll = record { epoll_ctl = control; epoll_wait = λ n k. (some [], k) }

pub added :
    (j fd events : ℕ) (at : Address) (k : Interests)
    → (control ctl_add fd events at k).1 j
      ≡ (if (j == fd) && (control ctl_add fd events at k).0 then some events else k j)
added j fd events at k = ground arith

pub modified :
    (j fd events : ℕ) (at : Address) (k : Interests)
    → (control ctl_mod fd events at k).1 j
      ≡ (if (j == fd) && (control ctl_mod fd events at k).0 then some events else k j)
modified j fd events at k = ground arith

abbrev pub epoll-IsEpoll : IsEpoll epoll
epoll-IsEpoll = record {
  interest = λ j k. k j;
  add_lem = added;
  mod_lem = modified;
  del_lem = λ j fd events at k. refl;
}

-- No channel is registered yet.
abbrev fresh : EpollPoller Interests
fresh = record {
  channels = [];
  objects = λ at. create at;
  kernel = λ j. none;
  event_list_size = 16;
}

-- The channel at address 5 is listed and waits for nothing.
abbrev pub idle : EpollPoller Interests
idle = record {
  channels = (5, 5) ∷ [];
  objects = λ at. if at == 5 then record (create 5) { index = k_deleted } else create at;
  kernel = λ j. none;
  event_list_size = 16;
}

idle-IsRegistered : IsRegistered epoll-IsEpoll idle
unfolding create OrdMap.find is_at
idle-IsRegistered = record {
  table = record { sorted = (tt, tt); rights = λ j. ground arith; all = λ at. ground arith };
  agrees = λ j. ground arith;
}

remove-IsRegistered_example :
    (p' : EpollPoller Interests) × (remove epoll 5 idle ≡ some p')
    × IsRegistered epoll-IsEpoll p'
    × (p'.kernel 5 ≡ none)
unfolding create is_none_event
remove-IsRegistered_example =
    remove-IsRegistered epoll epoll-IsEpoll 5 idle idle-IsRegistered refl refl

fill_active_channels-IsRegistered_example :
    (p' : EpollPoller Interests) × (fill_active_channels epoll ((5, 1) ∷ []) [] idle
      ≡ some (5 ∷ [], p'))
    × IsRegistered epoll-IsEpoll p'
    × (p'.channels ≡ idle.channels)
    × (p'.kernel ≡ idle.kernel)
fill_active_channels-IsRegistered_example =
    fill_active_channels-IsRegistered epoll-IsEpoll ((5, 1) ∷ []) [] idle idle-IsRegistered refl
