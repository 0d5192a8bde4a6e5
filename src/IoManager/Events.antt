-- ===== src/IoManager/Events.antt =====
-- Which events the kernel waits for, and which callbacks they bring about.
use qslary.Base.{
  ℕ, ◌≡◌, ◌≢◌, inl, inr, ap, ◌∙◌, Bool, true, false, none, some, ◌==◌, ltb, if◌then◌else◌,
  Option-cases, arith,
}
use qslary.Base.OrdMap
use qslary.Base.OrdMap.{IsSorted}
use qslary.Channel.{poll_in, poll_out}
use qslary.Poller.{ctl_add, ctl_mod, Epoll}
use qslary.Poller.Table.{IsEpoll}
use qslary.Timer.Managed.{ltb-StrictWeakOrder}
use qslary.IoManager.{
  FdCallback, IoManager, no_callback, group, change_group, update_epoll, add_read_event,
  add_write_event,
}

module _ {K C : Type 0} where
  pub group-change_group :
      (f : FdCallback C → FdCallback C) (fd j : ℕ) (m : IoManager K C)
      → group j (change_group f fd m)
        ≡ (if fd == j then (elim (group fd m) [ none ↦ none | some g ↦ some (f g) ]) else group j m)
  unfolding change_group group
  group-change_group f fd j m = elim (Option-cases (group fd m)) [
    | inl e ↦ ground arith
    | inr (g, e) ↦ ground (arith, OrdMap.find-assign ltb ltb-StrictWeakOrder j fd (f g) m.fd_groups)
  ]

  pub group-update_epoll :
      (e : Epoll K) (fd events j : ℕ) (m : IoManager K C)
      → group j (update_epoll e fd events m) ≡ (
          if fd == j
          then (elim (group fd m) [ none ↦ some no_callback | some g ↦ some g ])
          else group j m)
  unfolding update_epoll group
  group-update_epoll e fd events j m = elim (Option-cases (group fd m)) [
    | inl free ↦
        ground (arith, OrdMap.find-assign ltb ltb-StrictWeakOrder j fd no_callback m.fd_groups)
    | inr (g, here) ↦ ground arith
  ]

module _ {K C : Type 0} {e : Epoll K} (law : IsEpoll e) where
  -- Whether the kernel accepts the call that asks for the events.
  abbrev pub accepts : ℕ → ℕ → IoManager K C → Bool
  accepts fd events m = elim (group fd m) [
    | none ↦ (e.epoll_ctl ctl_add fd events fd m.kernel).0
    | some g ↦ (e.epoll_ctl ctl_mod fd events fd m.kernel).0
  ]

  -- Whether the kernel watches a descriptor exactly if it has a group.
  abbrev pub watched_right : ℕ → IoManager K C → Bool
  watched_right fd m = elim (group fd m) [
    | none ↦ elim (law.interest fd m.kernel) [ none ↦ true | some events ↦ false ]
    | some g ↦ elim (law.interest fd m.kernel) [ none ↦ false | some events ↦ true ]
  ]

  -- It does so for every descriptor but the one for wake-ups.
  pub record IsWatched (wakeup_fd : ℕ) (m : IoManager K C) : Type 0 where
    pub sorted : IsSorted ltb m.fd_groups
    pub watched : (fd : ℕ) → (if fd == wakeup_fd then true else watched_right fd m) ≡ true

  kernel-change_group :
      (f : FdCallback C → FdCallback C) (fd : ℕ) (m : IoManager K C)
      → (change_group f fd m).kernel ≡ m.kernel
  unfolding change_group
  kernel-change_group f fd m = ground arith

  change_group-IsSorted :
      (f : FdCallback C → FdCallback C) (fd : ℕ) (m : IoManager K C)
      → IsSorted ltb m.fd_groups
      → IsSorted ltb (change_group f fd m).fd_groups
  unfolding change_group
  change_group-IsSorted f fd m s =
      elim (group fd m)
        as (λ o.
          IsSorted ltb
            (elim o as (λ _. IoManager K C) [
              | none ↦ m
              | some g ↦ record m { fd_groups = OrdMap.assign ltb fd (f g) m.fd_groups }
            ]).fd_groups) [
              | none ↦ s
              | some g ↦ OrdMap.assign-IsSorted ltb ltb-StrictWeakOrder fd (f g) m.fd_groups s
            ]

  module _ (wakeup_fd fd events : ℕ) (m : IoManager K C) (h : IsWatched wakeup_fd m)
      (other : fd ≢ wakeup_fd) (accepted : accepts fd events m ≡ true) where
    interest-update_epoll :
        (j : ℕ)
        → law.interest j (update_epoll e fd events m).kernel
          ≡ (if j == fd then some events else law.interest j m.kernel)
    unfolding update_epoll
    interest-update_epoll j = elim (Option-cases (group fd m)) [
      | inl e ↦ ground (arith, law.add_lem j fd events fd m.kernel, h.watched fd)
      | inr (g, e) ↦ ground (arith, law.mod_lem j fd events fd m.kernel, h.watched fd)
    ]

    update_epoll-IsSorted : IsSorted ltb (update_epoll e fd events m).fd_groups
    unfolding update_epoll
    update_epoll-IsSorted =
        elim (group fd m)
          as (λ o.
            IsSorted ltb
              (elim o as (λ _. IoManager K C) [
                | none ↦ record m {
                  fd_groups = OrdMap.assign ltb fd no_callback m.fd_groups;
                  kernel = (e.epoll_ctl ctl_add fd events fd m.kernel).1;
                }
                | some g ↦ record m { kernel = (e.epoll_ctl ctl_mod fd events fd m.kernel).1 }
              ]).fd_groups) [
                | none ↦
                    OrdMap.assign-IsSorted ltb ltb-StrictWeakOrder fd no_callback m.fd_groups
                      h.sorted
                | some g ↦ h.sorted
              ]

    -- Asking for an event and writing the group.
    asked-IsWatched :
        (f : FdCallback C → FdCallback C)
        → IsWatched wakeup_fd (change_group f fd (update_epoll e fd events m))
          × (law.interest fd (change_group f fd (update_epoll e fd events m)).kernel ≡ some events)
          × (group fd (change_group f fd (update_epoll e fd events m))
              ≡ (elim (group fd m) [ none ↦ some (f no_callback) | some g ↦ some (f g) ]))
    asked-IsWatched f =
        let u = update_epoll e fd events m in
        (
          record {
            sorted = change_group-IsSorted f fd u update_epoll-IsSorted;
            watched = λ j. ground (
              arith,
              h.watched j,
              kernel-change_group f fd u,
              interest-update_epoll j,
              group-change_group f fd j u,
              group-update_epoll e fd events j m,
              group-update_epoll e fd events fd m,
            );
          },
          ap (λ k. law.interest fd k) (kernel-change_group f fd u)
              ∙ ground (arith, interest-update_epoll fd),
          ground (arith, group-change_group f fd fd u, group-update_epoll e fd events fd m),
        )

  -- Asking for an event, where the kernel does not refuse the call, keeps what the kernel watches in agreement with the groups and writes one
  -- callback only; but the kernel then waits for this event alone, also where the other event of the
  -- descriptor was asked for before and its group still says so.
  pub add_events-IsWatched :
      (wakeup_fd fd : ℕ) (cb : C) (m : IoManager K C)
      → IsWatched wakeup_fd m
      → fd ≢ wakeup_fd
      → accepts fd poll_in m ≡ true
      → accepts fd poll_out m ≡ true
      → (IsWatched wakeup_fd (add_read_event e fd cb m)
          × (law.interest fd (add_read_event e fd cb m).kernel ≡ some poll_in)
          × (group fd (add_read_event e fd cb m) ≡ (elim (group fd m) [
            | none ↦ some (record no_callback { concern_read = true; read_callback = some cb })
            | some g ↦ some (record g { concern_read = true; read_callback = some cb })
          ])))
        × (IsWatched wakeup_fd (add_write_event e fd cb m)
            × (law.interest fd (add_write_event e fd cb m).kernel ≡ some poll_out)
            × (group fd (add_write_event e fd cb m) ≡ (elim (group fd m) [
              | none ↦ some (record no_callback { concern_write = true; write_callback = some cb })
              | some g ↦ some (record g { concern_write = true; write_callback = some cb })
            ])))
  unfolding add_read_event add_write_event
  add_events-IsWatched wakeup_fd fd cb m h other reads writes = (
    asked-IsWatched wakeup_fd fd poll_in m h other reads
        (λ g. record g { concern_read = true; read_callback = some cb }),
    asked-IsWatched wakeup_fd fd poll_out m h other writes
        (λ g. record g { concern_write = true; write_callback = some cb }),
  )
