-- ===== src/Poller.antt =====
-- net/Poller.cc, poller/Epoller.h and poller/Epoller.cc: the channels that a poller knows and what it
-- tells the kernel about them. Channels are shared objects, so the state has a store of them. A
-- failed `assert` is `none`; all calls are made in the loop's thread.
pub mod Table
pub mod Registration
pub mod Removal
use qslary.Base.{
  ℕ, ◌*◌, Bool, true, false, not, ◌&&◌, Option, none, some, List, [], ◌∷◌, ◌++◌, ◌==◌, ltb,
  if◌then◌else◌, length,
}
use qslary.Base.Fault.{◌>>=◌, ◌>>◌, require}
use qslary.Base.OrdMap
use qslary.Channel.{Channel, Index, k_new, k_added, k_deleted, is_none_event}

-- The address of a channel.
abbrev pub Address : Type 0
Address = ℕ

pub data Operation : Type 0 where
  ctl_add ctl_mod ctl_del : Operation

-- epoll_ctl(2) and epoll_wait(2), with the state K of the kernel. The first gives whether it
-- succeeded, for a descriptor, its events and its datum; the second a datum and events for each
-- event, or an error.
pub record Epoll (K : Type 0) : Type 0 where
  pub epoll_ctl : Operation → ℕ → ℕ → Address → K → Bool × K
  pub epoll_wait : ℕ → K → Option (List (Address × ℕ)) × K

pub record EpollPoller (K : Type 0) : Type 0 where
  pub channels : List (ℕ × Address)
  pub objects : Address → Channel
  pub kernel : K
  pub event_list_size : ℕ

-- `channels_.find(fd) != channels_.end() && channels_[fd] == channel`
unfoldable pub is_at : {K : Type 0} → ℕ → Address → EpollPoller K → Bool
is_at fd at p = elim (OrdMap.find ltb fd p.channels) [ none ↦ false | some other ↦ other == at ]

unfoldable pub is_free : {K : Type 0} → ℕ → EpollPoller K → Bool
is_free fd p = elim (OrdMap.find ltb fd p.channels) [ none ↦ true | some other ↦ false ]

-- `Poller::hasChannel`
unfoldable pub has_channel : {K : Type 0} → Address → EpollPoller K → Bool
unfolding is_at
has_channel at p = is_at (p.objects at).fd at p

abbrev pub is_new : Index → Bool
is_new k_new = true
is_new k_added = false
is_new k_deleted = false

-- A write to the channel at an address.
unfoldable pub change : {K : Type 0} → (Channel → Channel) → Address → EpollPoller K → EpollPoller K
change f at p = record p {
  objects = λ other. if other == at then f (p.objects at) else p.objects other;
}

unfoldable pub set_index : {K : Type 0} → Index → Address → EpollPoller K → EpollPoller K
unfolding change
set_index index at p = change (λ c. record c { index = index }) at p

module _ {K : Type 0} (e : Epoll K) where
  -- `EPollPoller::update`: a refusal of the kernel is only logged.
  unfoldable pub update : Operation → Address → EpollPoller K → EpollPoller K
  update operation at p =
      let c = p.objects at in
      record p { kernel = (e.epoll_ctl operation c.fd c.events at p.kernel).1 }

  update_new : Address → EpollPoller K → Option (EpollPoller K)
  unfolding is_free set_index update
  update_new at p = do
    let fd = (p.objects at).fd
    require (is_free fd p)
    some (
        update ctl_add at
          (set_index k_added at (record p { channels = OrdMap.assign ltb fd at p.channels })))

  update_deleted : Address → EpollPoller K → Option (EpollPoller K)
  unfolding is_at set_index update
  update_deleted at p = do
    require (is_at (p.objects at).fd at p)
    some (update ctl_add at (set_index k_added at p))

  update_added : Address → EpollPoller K → Option (EpollPoller K)
  unfolding is_at set_index update
  update_added at p = do
    require (is_at (p.objects at).fd at p)
    some (
        if is_none_event (p.objects at)
        then set_index k_deleted at (update ctl_del at p)
        else update ctl_mod at p)

  pub update_channel : Address → EpollPoller K → Option (EpollPoller K)
  unfolding update_new update_deleted update_added
  update_channel at p = elim (p.objects at).index [
    | k_new ↦ update_new at p
    | k_deleted ↦ update_deleted at p
    | k_added ↦ update_added at p
  ]

  pub remove_channel : Address → EpollPoller K → Option (EpollPoller K)
  unfolding is_at set_index update
  remove_channel at p = do
    let c = p.objects at
    require (is_at c.fd at p)
    require (is_none_event c)
    require (not (is_new c.index))
    let p' : EpollPoller K = record p { channels = OrdMap.erase ltb c.fd p.channels }
    some (
        set_index k_new at
          (elim c.index [ k_new ↦ p' | k_deleted ↦ p' | k_added ↦ update ctl_del at p' ]))

  -- An operation of a channel that changes its events, and `Channel::update` behind it.
  pub change_events : (Channel → Channel) → Address → EpollPoller K → Option (EpollPoller K)
  unfolding change update_channel
  change_events f at p =
      update_channel at (change (λ c. record (f c) { added_to_loop = true }) at p)

  -- `Channel::remove`
  pub remove : Address → EpollPoller K → Option (EpollPoller K)
  unfolding change remove_channel
  remove at p = do
    require (is_none_event (p.objects at))
    remove_channel at (change (λ c. record c { added_to_loop = false }) at p)

  -- `fillActiveChannels`: the channels of the events, in order.
  pub fill_active_channels :
      List (Address × ℕ) → List Address → EpollPoller K → Option (List Address × EpollPoller K)
  unfolding is_at change
  fill_active_channels [] active p = some (active, p)
  fill_active_channels ((at, events) ∷ rest) active p = do
    require (is_at (p.objects at).fd at p)
    fill_active_channels rest (active ++ (at ∷ []))
        (change (λ c. record c { revents = events }) at p)

  -- `EPollPoller::poll`, without the time that it returns. The list of events doubles when full.
  unfoldable pub poll : List Address → EpollPoller K → Option (List Address × EpollPoller K)
  unfolding fill_active_channels
  poll active p =
      let waited = e.epoll_wait p.event_list_size p.kernel in
      let p' : EpollPoller K = record p { kernel = waited.1 } in
      elim waited.0 [
        | none ↦ some (active, p')
        | some [] ↦ some (active, p')
        | some (event ∷ events) ↦ do
          (active', q) ← fill_active_channels (event ∷ events) active p'
          some (
            active',
            if length (event ∷ events) == p.event_list_size
                then record q { event_list_size = p.event_list_size * 2 }
                else q,
          )
      ]
