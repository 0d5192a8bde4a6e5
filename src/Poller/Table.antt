-- ===== src/Poller/Table.antt =====
-- The table of channels that a poller keeps, and what epoll(7) knows of them.
use qslary.Base.{
  ℕ, ◌≡◌, ◌⊎◌, inl, inr, refl, Bool, true, false, not, ◌&&◌, Option, none, some, ◌==◌, ltb,
  if◌then◌else◌, arith,
}
use qslary.Base.OrdMap
use qslary.Base.OrdMap.{StrictWeakOrder, IsSorted}
use qslary.Channel.{Channel, Index, k_new, k_added, k_deleted}
use qslary.Poller.{Address, ctl_add, ctl_mod, ctl_del, Epoll, EpollPoller, is_at, is_free, is_new}

ltb-StrictWeakOrder : StrictWeakOrder ltb
ltb-StrictWeakOrder = record {
  irrefl = λ a. ground arith;
  trans = λ a b c h k. ground arith;
  not_trans = λ a b c h k. ground arith;
}

-- What epoll(7) and epoll_ctl(2) document: an interest list with at most one entry for a descriptor. To
-- add or to change an entry may be refused, for what the descriptor is or for want of memory, and then
-- changes nothing; a call that is not refused puts the events there. After a deletion, also one that
-- is refused since there is nothing to delete, no entry is there.
pub record IsEpoll {K : Type 0} (e : Epoll K) : Type 0 where
  pub interest : ℕ → K → Option ℕ
  pub add_lem :
      (j fd events : ℕ) (at : Address) (k : K)
      → interest j (e.epoll_ctl ctl_add fd events at k).1 ≡ (
          if (j == fd) && (e.epoll_ctl ctl_add fd events at k).0 then some events else interest j k)
  pub mod_lem :
      (j fd events : ℕ) (at : Address) (k : K)
      → interest j (e.epoll_ctl ctl_mod fd events at k).1 ≡ (
          if (j == fd) && (e.epoll_ctl ctl_mod fd events at k).0 then some events else interest j k)
  pub del_lem :
      (j fd events : ℕ) (at : Address) (k : K)
      → interest j (e.epoll_ctl ctl_del fd events at k).1 ≡ (if j == fd then none else interest j k)

-- What the kernel should know of a channel.
abbrev pub announced : Channel → Option ℕ
announced c = elim c.index [ k_new ↦ none | k_deleted ↦ none | k_added ↦ some c.events ]

-- What it should know of a descriptor.
abbrev pub expected : {K : Type 0} → ℕ → EpollPoller K → Option ℕ
expected j p = elim (OrdMap.find ltb j p.channels) [
  | none ↦ none
  | some at ↦ announced (p.objects at)
]

-- The channel that is listed for a descriptor has that descriptor and is not new.
abbrev pub listed_right : {K : Type 0} → ℕ → EpollPoller K → Bool
listed_right j p = elim (OrdMap.find ltb j p.channels) [
  | none ↦ true
  | some at ↦ ((p.objects at).fd == j) && not (is_new (p.objects at).index)
]

-- A channel is listed for its descriptor, unless it is new.
abbrev pub listed : {K : Type 0} → Address → EpollPoller K → Bool
listed at p = if is_new (p.objects at).index then true else is_at (p.objects at).fd at p

-- The table and the channels agree.
pub record IsListed {K : Type 0} (p : EpollPoller K) : Type 0 where
  pub sorted : IsSorted ltb p.channels
  pub rights : (j : ℕ) → listed_right j p ≡ true
  pub all : (at : Address) → listed at p ≡ true

-- And so does the kernel.
pub record IsRegistered {K : Type 0} {e : Epoll K} (law : IsEpoll e) (p : EpollPoller K)
    : Type 0 where
  pub table : IsListed p
  pub agrees : (j : ℕ) → law.interest j p.kernel ≡ expected j p

-- A table after a new channel was listed in it, whatever its events are.
abbrev pub with_new : {K : Type 0} → Channel → Address → K → EpollPoller K → EpollPoller K
with_new c at k p = record p {
  channels = OrdMap.assign ltb c.fd at p.channels;
  objects = λ other. if other == at then c else p.objects other;
  kernel = k;
}

module _ {K : Type 0} (c : Channel) (at : Address) (k : K) (p : EpollPoller K)
    (t : IsListed p) where
  pub with_new-IsListed :
      is_free c.fd p ≡ true
      → (p.objects at).index ≡ k_new
      → c.index ≡ k_added
      → IsListed (with_new c at k p)
  unfolding is_at is_free
  with_new-IsListed free fresh added = record {
    sorted = OrdMap.assign-IsSorted ltb ltb-StrictWeakOrder c.fd at p.channels t.sorted;
    rights = λ j.
        ground (arith, OrdMap.find-assign ltb ltb-StrictWeakOrder j c.fd at p.channels, t.rights j);
    all = λ other. ground (
      arith,
      OrdMap.find-assign ltb ltb-StrictWeakOrder (p.objects other).fd c.fd at p.channels,
      OrdMap.find-assign ltb ltb-StrictWeakOrder c.fd c.fd at p.channels,
      t.all other,
    );
  }

  pub with_new-expected :
      (j : ℕ)
      → is_free c.fd p ≡ true
      → (p.objects at).index ≡ k_new
      → expected j (with_new c at k p) ≡ (if j == c.fd then announced c else expected j p)
  unfolding is_at is_free
  with_new-expected j free fresh =
      ground (arith, OrdMap.find-assign ltb ltb-StrictWeakOrder j c.fd at p.channels, t.rights j)

-- A table after a listed channel was written to.
abbrev pub with_same : {K : Type 0} → Channel → Address → K → EpollPoller K → EpollPoller K
with_same c at k p = record p {
  objects = λ other. if other == at then c else p.objects other;
  kernel = k;
}

module _ {K : Type 0} (c : Channel) (at : Address) (k : K) (p : EpollPoller K)
    (t : IsListed p) where
  pub with_same-IsListed :
      c.fd ≡ (p.objects at).fd
      → is_new (p.objects at).index ≡ false
      → is_new c.index ≡ false
      → IsListed (with_same c at k p)
  unfolding is_at
  with_same-IsListed fd old still = record {
    sorted = t.sorted;
    rights = λ j. ground (arith, t.rights j);
    all = λ other. ground (arith, t.all other, t.all at);
  }

  pub with_same-expected :
      (j : ℕ)
      → c.fd ≡ (p.objects at).fd
      → is_new (p.objects at).index ≡ false
      → expected j (with_same c at k p) ≡ (if j == c.fd then announced c else expected j p)
  unfolding is_at
  with_same-expected j fd old = ground (arith, t.rights j, t.all at)

-- A table after a channel was taken off it.
abbrev pub without : {K : Type 0} → Channel → Address → K → EpollPoller K → EpollPoller K
without c at k p = record p {
  channels = OrdMap.erase ltb c.fd p.channels;
  objects = λ other. if other == at then c else p.objects other;
  kernel = k;
}

module _ {K : Type 0} (c : Channel) (at : Address) (k : K) (p : EpollPoller K)
    (t : IsListed p) where
  pub without-IsListed :
      c.fd ≡ (p.objects at).fd
      → is_at c.fd at p ≡ true
      → c.index ≡ k_new
      → IsListed (without c at k p)
  unfolding is_at
  without-IsListed fd here gone = record {
    sorted = OrdMap.erase-IsSorted ltb ltb-StrictWeakOrder c.fd p.channels t.sorted;
    rights = λ j.
        ground
          (arith, OrdMap.find-erase ltb ltb-StrictWeakOrder j c.fd p.channels t.sorted, t.rights j);
    all = λ other. ground (
      arith,
      OrdMap.find-erase ltb ltb-StrictWeakOrder (p.objects other).fd c.fd p.channels t.sorted,
      t.all other,
    );
  }

  pub without-expected :
      (j : ℕ)
      → c.fd ≡ (p.objects at).fd
      → is_at c.fd at p ≡ true
      → expected j (without c at k p) ≡ (if j == c.fd then none else expected j p)
  unfolding is_at
  without-expected j fd here =
      ground
        (arith, OrdMap.find-erase ltb ltb-StrictWeakOrder j c.fd p.channels t.sorted, t.rights j)

pub index_cases : (i : Index) → (i ≡ k_new) ⊎ ((i ≡ k_added) ⊎ (i ≡ k_deleted))
index_cases k_new = inl refl
index_cases k_added = inr (inl refl)
index_cases k_deleted = inr (inr refl)

pub same_state :
    {K : Type 0} (p q : EpollPoller K)
    → p.channels ≡ q.channels
    → ((at : Address) → p.objects at ≡ q.objects at)
    → p.kernel ≡ q.kernel
    → p.event_list_size ≡ q.event_list_size
    → p ≡ q
same_state p q channels objects kernel size = λ i. record {
  channels = channels i;
  objects = λ at. objects at i;
  kernel = kernel i;
  event_list_size = size i;
}
