-- ===== src/Poller/Removal.antt =====
-- A channel leaves its poller, and events come in for those that stay.
use qslary.Base.{
  ℕ, ◌≡◌, inl, inr, refl, ap, ◌∙◌, Bool, true, false, not, ◌&&◌, and_right, none, some, List, [],
  ◌∷◌, ◌++◌, append-nil, append_assoc, ltb, arith,
}
use qslary.Base.OrdMap
use qslary.Channel.{Channel, k_new, k_added, k_deleted, is_none_event}
use qslary.Poller.{
  Address, ctl_del, Epoll, EpollPoller, is_at, change, set_index, update, is_new, remove_channel,
  remove, fill_active_channels,
}
use qslary.Poller.Table.{
  IsEpoll, IsRegistered, same_state, index_cases, without, without-IsListed, without-expected,
  with_same-IsListed, with_same-expected,
}

module _ {K : Type 0} (e : Epoll K) (law : IsEpoll e) (at : Address) (p : EpollPoller K) where
  abbrev removed : Channel
  removed = record (p.objects at) { added_to_loop = false; index = k_new }

  abbrev left : K → EpollPoller K
  left k = without removed at k p

  ran_added :
      (p.objects at).index ≡ k_added
      → is_none_event (p.objects at) ≡ true
      → is_at (p.objects at).fd at p ≡ true
      → remove e at p
        ≡ some (left (e.epoll_ctl ctl_del (p.objects at).fd (p.objects at).events at p.kernel).1)
  unfolding remove remove_channel update change set_index is_at is_none_event
  ran_added added idle here =
      let q = change (λ c. record c { added_to_loop = false }) at p in
      let s = set_index k_new at (
        update e ctl_del at
          (record q { channels = OrdMap.erase ltb (q.objects at).fd q.channels })) in
      let ran : remove e at p ≡ some s = ground arith in
      ran
      ∙ ap (λ x. some x)
          (same_state s
            (left (e.epoll_ctl ctl_del (p.objects at).fd (p.objects at).events at p.kernel).1)
            (ground arith) (λ other. ground arith) (ground arith) refl)

  ran_deleted :
      (p.objects at).index ≡ k_deleted
      → is_none_event (p.objects at) ≡ true
      → is_at (p.objects at).fd at p ≡ true
      → remove e at p ≡ some (left p.kernel)
  unfolding remove remove_channel update change set_index is_at is_none_event
  ran_deleted deleted idle here =
      let q = change (λ c. record c { added_to_loop = false }) at p in
      let s =
        set_index k_new at
          (record q { channels = OrdMap.erase ltb (q.objects at).fd q.channels }) in
      let ran : remove e at p ≡ some s = ground arith in
      ran
      ∙ ap (λ x. some x)
          (same_state s (left p.kernel) (ground arith) (λ other. ground arith) refl refl)

  -- A listed channel that waits for nothing can be removed: no assertion fails, the table and the
  -- kernel agree with the channels again, and the kernel knows nothing of its descriptor.
  pub remove-IsRegistered :
      IsRegistered law p
      → is_none_event (p.objects at) ≡ true
      → is_new (p.objects at).index ≡ false
      → (p' : EpollPoller K) × (remove e at p ≡ some p')
        × IsRegistered law p'
        × (law.interest (p.objects at).fd p'.kernel ≡ none)
  unfolding is_at
  remove-IsRegistered reg idle old = elim (index_cases (p.objects at).index) [
    | inl fresh ↦ absurd (ground arith)
    | inr (inl added) ↦
        let k = (e.epoll_ctl ctl_del (p.objects at).fd (p.objects at).events at p.kernel).1 in
        let here : is_at (p.objects at).fd at p ≡ true = ground (arith, reg.table.all at) in
        (
          left k,
          ran_added added idle here,
          record {
            table = without-IsListed removed at k p reg.table refl here refl;
            agrees = λ j. ground (
              arith,
              law.del_lem j (p.objects at).fd (p.objects at).events at p.kernel,
              reg.agrees j,
              without-expected removed at k p reg.table j refl here,
            );
          },
          ground (
            arith,
            law.del_lem (p.objects at).fd (p.objects at).fd (p.objects at).events at p.kernel,
          ),
        )
    | inr (inr deleted) ↦
        let here : is_at (p.objects at).fd at p ≡ true = ground (arith, reg.table.all at) in
        let unknown : law.interest (p.objects at).fd p.kernel ≡ none =
          ground (arith, reg.agrees (p.objects at).fd) in
        (
          left p.kernel,
          ran_deleted deleted idle here,
          record {
            table = without-IsListed removed at p.kernel p reg.table refl here refl;
            agrees = λ j.
                ground (
                  arith,
                  reg.agrees j,
                  without-expected removed at p.kernel p reg.table j refl here,
                );
          },
          unknown,
        )
  ]

-- The channels of some events, in order.
abbrev pub addresses : List (Address × ℕ) → List Address
addresses [] = []
addresses ((at, events) ∷ rest) = at ∷ addresses rest

-- No event is for a new channel.
abbrev pub none_new : {K : Type 0} → List (Address × ℕ) → EpollPoller K → Bool
none_new [] p = true
none_new ((at, events) ∷ rest) p = not (is_new (p.objects at).index) && none_new rest p

module _ {K : Type 0} {e : Epoll K} (law : IsEpoll e) where
  abbrev noted : Address → ℕ → EpollPoller K → EpollPoller K
  noted at events p = change (λ c. record c { revents = events }) at p

  noted-IsRegistered :
      (at : Address) (events : ℕ) (p : EpollPoller K)
      → IsRegistered law p
      → is_new (p.objects at).index ≡ false
      → IsRegistered law (noted at events p)
  unfolding change is_at
  noted-IsRegistered at events p reg old =
      let c : Channel = record (p.objects at) { revents = events } in
      let here : is_at (p.objects at).fd at p ≡ true = ground (arith, reg.table.all at) in
      record {
        table = with_same-IsListed c at p.kernel p reg.table refl old old;
        agrees = λ j. ground (
          arith,
          reg.agrees j,
          reg.agrees (p.objects at).fd,
          with_same-expected c at p.kernel p reg.table j refl old,
        );
      }

  noted-none_new :
      (at : Address) (events : ℕ) (rest : List (Address × ℕ)) (p : EpollPoller K)
      → none_new rest p ≡ true
      → none_new rest (noted at events p) ≡ true
  unfolding change
  noted-none_new at events [] p h = refl
  noted-none_new at events ((other, more) ∷ rest) p h =
      ground (arith, noted-none_new at events rest p)

  -- When events come in for channels that are not new, no assertion fails; the active channels are
  -- those of the events, in order, behind those that were there; and nothing is registered anew.
  pub fill_active_channels-IsRegistered :
      (events : List (Address × ℕ)) (active : List Address) (p : EpollPoller K)
      → IsRegistered law p
      → none_new events p ≡ true
      → (p' : EpollPoller K) × (fill_active_channels e events active p
          ≡ some (active ++ addresses events, p'))
        × IsRegistered law p'
        × (p'.channels ≡ p.channels)
        × (p'.kernel ≡ p.kernel)
  unfolding fill_active_channels change is_at
  fill_active_channels-IsRegistered [] active p reg old =
      (p, rw (append-nil active), reg, refl, refl)
  fill_active_channels-IsRegistered ((at, events) ∷ rest) active p reg old =
      let still : is_new (p.objects at).index ≡ false = ground arith in
      let here : is_at (p.objects at).fd at p ≡ true = ground (arith, reg.table.all at) in
      let (p', filled, reg', same_channels, same_kernel) =
        fill_active_channels-IsRegistered rest (active ++ (at ∷ [])) (noted at events p)
          (noted-IsRegistered at events p reg still)
          (noted-none_new at events rest p (and_right _ (none_new rest p) old)) in
      (
        p',
        rw here
            (filled ∙ ap (λ xs. some (xs, p')) (append_assoc active (at ∷ []) (addresses rest))),
        reg',
        same_channels,
        same_kernel,
      )
