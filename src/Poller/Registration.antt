-- ===== src/Poller/Registration.antt =====
-- A channel that changes its events: what the kernel knows is what the channels say.
use qslary.Base.{Bool, ◌||◌, true}
use qslary.Base.OrdMap
use qslary.Base.OrdMap.{StrictWeakOrder, IsSorted}
use qslary.Channel.{Channel, Index, k_new, k_added, k_deleted, is_none_event}
use qslary.Poller.{Address, Operation, ctl_add, ctl_mod, Epoll, EpollPoller}
use qslary.Poller.Table.{IsEpoll}

module _ {K : Type 0} (e : Epoll K) (law : IsEpoll e) (f : Channel → Channel) (at : Address)
    (p : EpollPoller K) where
  -- The channel after the call, when it is listed.
  abbrev after : Index → Channel
  after index = record (f (p.objects at)) { added_to_loop = true; index = index }

  -- The kernel after the call.
  abbrev told : Operation → Index → K
  told operation index = (e.epoll_ctl operation (after index).fd (after index).events at p.kernel).1

  -- Whether the kernel accepts the call that the change leads to.
  abbrev pub is_accepted : Bool
  is_accepted =
      let c = f (p.objects at) in
      elim (p.objects at).index [
        | k_new ↦ (e.epoll_ctl ctl_add c.fd c.events at p.kernel).0
        | k_deleted ↦ (e.epoll_ctl ctl_add c.fd c.events at p.kernel).0
        | k_added ↦ is_none_event c || (e.epoll_ctl ctl_mod c.fd c.events at p.kernel).0
      ]
