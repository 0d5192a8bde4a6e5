-- ===== src/IoManager/Dispatch.antt =====
-- Which callbacks an event brings about.
use qslary.Base.{
  ℕ, ◌+◌, ◌-◌, ◌%◌, ◌<◌, ◌≡◌, inl, inr, refl, subst, sym, if◌then◌else◌, ap, ◌∙◌, Bool, true, false,
  not, ◌&&◌, ◌||◌, Option, none, some, List, [], ◌∷◌, ◌++◌, append-nil, append_assoc, ◌==◌, ltb,
  length, length-append, Option-cases, Bool-cases, arith, and_right,
}
use Prim.Native.Nat.{bit_and}
use qslary.Base.Int.{u64_mod}
use qslary.Channel.{poll_in, poll_out}
use qslary.Base.OrdMap
use qslary.Base.OrdMap.{IsSorted}
use qslary.Poller.{Epoll}
use qslary.Timer.Managed.{ltb-StrictWeakOrder}
use qslary.IoManager.{
  FdCallback, IoManager, no_callback, group, change_group, update_epoll, add_write_event,
  del_file_desc, trigger_event, with_errors, process_fd_event, process_events,
}
use qslary.IoManager.Events.{group-change_group, group-update_epoll}

-- A group that is not concerned with reading hands out no callback, whatever the events are.
trigger_event-silent :
    {C : Type 0} (events : ℕ) (g : FdCallback C)
    → g.concern_read ≡ false
    → trigger_event events g ≡ (0, [])
unfolding trigger_event
trigger_event-silent events g h = ground arith

-- The callbacks that events bring about in a group: none if it is not concerned with reading;
-- otherwise that for reading on EPOLLIN, and behind it that for writing on EPOLLOUT.
abbrev pub callbacks_of : {C : Type 0} → ℕ → FdCallback C → List (Option C)
callbacks_of events g =
    if not g.concern_read
    then []
    else if bit_and events poll_in == 0
    then (if bit_and events poll_out == 0 then [] else g.write_callback ∷ [])
    else (if bit_and events poll_out == 0
        then g.read_callback ∷ []
        else g.read_callback ∷ g.write_callback ∷ [])

-- Those of all the events, one behind the other: an error or a hangup counts as both kinds, and the
-- events of the descriptor for wake-ups bring about none.
abbrev pub callbacks_of_all :
    {C : Type 0} → ℕ → List (ℕ × ℕ) → List (ℕ × FdCallback C) → List (Option C)
callbacks_of_all wakeup_fd [] groups = []
callbacks_of_all wakeup_fd ((fd, events) ∷ es) groups =
    (if fd == wakeup_fd then [] else (elim (OrdMap.find ltb fd groups) [
      | none ↦ []
      | some g ↦ callbacks_of (with_errors events) g
    ]))
    ++ callbacks_of_all wakeup_fd es groups

-- The numbers and the callbacks agree.
trigger_event-right :
    {C : Type 0} (events : ℕ) (g : FdCallback C)
    → ((trigger_event events g).1 ≡ callbacks_of events g)
      × ((trigger_event events g).0 ≡ length (callbacks_of events g))
      × ((trigger_event events g).0 < 3)
unfolding trigger_event
trigger_event-right events g = elim (Bool-cases g.concern_read) [
  | inl c ↦ elim (Bool-cases (bit_and events poll_in == 0)) [
    | inl r ↦ elim (Bool-cases (bit_and events poll_out == 0)) [
      | inl w ↦ rw (c, r, w) (refl, refl, omega arith)
      | inr w ↦ rw (c, r, w) (refl, refl, omega arith)
    ]
    | inr r ↦ elim (Bool-cases (bit_and events poll_out == 0)) [
      | inl w ↦ rw (c, r, w) (refl, refl, omega arith)
      | inr w ↦ rw (c, r, w) (refl, refl, omega arith)
    ]
  ]
  | inr c ↦ rw c (refl, refl, omega arith)
]

module _ {K C : Type 0} where
  -- The state after some events were handed out.
  abbrev handed_out : ℕ × List (Option C) → IoManager K C → IoManager K C
  handed_out t m = record m {
    scheduled = m.scheduled ++ t.1;
    pending_event_count = (m.pending_event_count + u64_mod - t.0) % u64_mod;
  }

  process_fd_event-ran :
      (fd events : ℕ) (g : FdCallback C) (m : IoManager K C)
      → group fd m ≡ some g
      → process_fd_event fd events m ≡ some (handed_out (trigger_event (with_errors events) g) m)
  unfolding process_fd_event
  process_fd_event-ran fd events g m here = rw here refl

  process_fd_event-silent :
      (fd events : ℕ) (g : FdCallback C) (m : IoManager K C)
      → group fd m ≡ some g
      → g.concern_read ≡ false
      → m.pending_event_count < u64_mod
      → process_fd_event fd events m ≡ some m
  process_fd_event-silent fd events g m here h small =
      let same_count : (m.pending_event_count + u64_mod - 0) % u64_mod ≡ m.pending_event_count =
        omega arith in
      process_fd_event-ran fd events g m here
      ∙ ap (λ t. some (handed_out t m)) (trigger_event-silent (with_errors events) g h)
      ∙ ap (λ xs. some (record (handed_out (0, []) m) { scheduled = xs })) (append-nil m.scheduled)
      ∙ ap (λ n. some (record m { pending_event_count = n })) same_count

  pending-change_group :
      (f : FdCallback C → FdCallback C) (fd : ℕ) (m : IoManager K C)
      → (change_group f fd m).pending_event_count ≡ m.pending_event_count
  unfolding change_group
  pending-change_group f fd m = ground arith

  pending-update_epoll :
      (e : Epoll K) (fd : ℕ) (m : IoManager K C)
      → (update_epoll e fd poll_out m).pending_event_count ≡ m.pending_event_count
  unfolding update_epoll
  pending-update_epoll e fd m = ground arith

  -- A descriptor for which only writing was asked never runs its callback: whatever events are
  -- reported for it, the manager stays as it is.
  pub add_write_event-silent :
      (e : Epoll K) (fd : ℕ) (cb : C) (m : IoManager K C) (events : ℕ)
      → group fd m ≡ none
      → m.pending_event_count < u64_mod
      → process_fd_event fd events (add_write_event e fd cb m) ≡ some (add_write_event e fd cb m)
  unfolding add_write_event
  add_write_event-silent e fd cb m events free small =
      let f : FdCallback C → FdCallback C =
        λ g. record g { concern_write = true; write_callback = some cb } in
      let u = update_epoll e fd poll_out m in
      process_fd_event-silent fd events (f no_callback) (change_group f fd u)
        (ground (arith, group-change_group f fd fd u, group-update_epoll e fd poll_out fd m)) refl
        (rw (pending-change_group f fd u, pending-update_epoll e fd m) small)

  abbrev pub has_group : ℕ → ℕ → IoManager K C → Bool
  has_group wakeup_fd fd m =
      (fd == wakeup_fd) || (elim (group fd m) [ none ↦ false | some g ↦ true ])

  -- Every descriptor of the events has a group, or is the one for wake-ups.
  abbrev pub all_grouped : ℕ → List (ℕ × ℕ) → IoManager K C → Bool
  all_grouped wakeup_fd [] m = true
  all_grouped wakeup_fd ((fd, events) ∷ es) m =
      has_group wakeup_fd fd m && all_grouped wakeup_fd es m

  all_grouped-same :
      (wakeup_fd : ℕ) (es : List (ℕ × ℕ)) (m m' : IoManager K C)
      → m'.fd_groups ≡ m.fd_groups
      → all_grouped wakeup_fd es m ≡ true
      → all_grouped wakeup_fd es m' ≡ true
  unfolding group
  all_grouped-same wakeup_fd [] m m' e h = refl
  all_grouped-same wakeup_fd ((fd, events) ∷ es) m m' e h = ground (
    arith,
    ap (λ gs. OrdMap.find ltb fd gs) e,
    all_grouped-same wakeup_fd es m m' e
        (and_right (has_group wakeup_fd fd m) (all_grouped wakeup_fd es m) h),
  )

  -- These callbacks were handed out and are counted off, in wrapping numbers.
  record Dispatched (handed : List (Option C)) (m m' : IoManager K C) : Type 0 where
    pub same_groups : m'.fd_groups ≡ m.fd_groups
    pub same_kernel : m'.kernel ≡ m.kernel
    pub scheduled_right : m'.scheduled ≡ m.scheduled ++ handed
    pub counted :
        (m'.pending_event_count + length handed) % u64_mod ≡ m.pending_event_count % u64_mod

  Dispatched-refl : (m : IoManager K C) → Dispatched [] m m
  Dispatched-refl m = record {
    same_groups = refl;
    same_kernel = refl;
    scheduled_right = sym (append-nil m.scheduled);
    counted = omega arith;
  }

  Dispatched-then :
      (xs ys : List (Option C)) (m m1 m2 : IoManager K C)
      → Dispatched xs m m1
      → Dispatched ys m1 m2
      → Dispatched (xs ++ ys) m m2
  Dispatched-then xs ys m m1 m2 a b = record {
    same_groups = b.same_groups ∙ a.same_groups;
    same_kernel = b.same_kernel ∙ a.same_kernel;
    scheduled_right =
        b.scheduled_right ∙ ap (λ zs. zs ++ ys) a.scheduled_right ∙ append_assoc m.scheduled xs ys;
    counted = omega (arith, a.counted, b.counted, length-append xs ys);
  }

  process_fd_event-Dispatched :
      (fd events : ℕ) (m : IoManager K C) (g : FdCallback C)
      → group fd m ≡ some g
      → (m' : IoManager K C) × (process_fd_event fd events m ≡ some m')
        × Dispatched (callbacks_of (with_errors events) g) m m'
  process_fd_event-Dispatched fd events m g here =
      let t = trigger_event (with_errors events) g in
      let (callbacks, count, few) = trigger_event-right (with_errors events) g in
      (
        handed_out t m,
        process_fd_event-ran fd events g m here,
        record {
          same_groups = refl;
          same_kernel = refl;
          scheduled_right = ap (λ xs. m.scheduled ++ xs) callbacks;
          counted = omega (arith, count, few);
        },
      )

  process_events_all :
      (wakeup_fd : ℕ) (es : List (ℕ × ℕ)) (m : IoManager K C)
      → all_grouped wakeup_fd es m ≡ true
      → (m' : IoManager K C) × (process_events wakeup_fd es m ≡ some m')
        × Dispatched (callbacks_of_all wakeup_fd es m.fd_groups) m m'
  unfolding process_events group
  process_events_all wakeup_fd [] m h = (m, refl, Dispatched-refl m)
  process_events_all wakeup_fd ((fd, events) ∷ es) m h = elim (Bool-cases (fd == wakeup_fd)) [
    | inl wake ↦
        let (m', ran, d) =
          process_events_all wakeup_fd es m
            (and_right (has_group wakeup_fd fd m) (all_grouped wakeup_fd es m) h) in
        (m', rw wake ran, rw wake d)
    | inr other ↦ elim (Option-cases (group fd m)) [
      | inl free ↦ absurd (ground arith)
      | inr (g, here) ↦
          let (m1, ran1, d1) = process_fd_event-Dispatched fd events m g here in
          let (m2, ran2, d2) = process_events_all wakeup_fd es m1 (
            all_grouped-same wakeup_fd es m m1 d1.same_groups
              (and_right (has_group wakeup_fd fd m) (all_grouped wakeup_fd es m) h)) in
          (
            m2,
            rw other (rw ran1 ran2),
            rw (other, here)
                (Dispatched-then (callbacks_of (with_errors events) g)
                  (callbacks_of_all wakeup_fd es m.fd_groups) m m1 m2 d1
                  (subst (λ gs. Dispatched (callbacks_of_all wakeup_fd es gs) m1 m2) d1.same_groups
                    d2)),
          )
    ]
  ]

  -- Reported events of descriptors that have groups fail nowhere, change no group and not what the
  -- kernel is told, and hand to the scheduler, in the order of the events, exactly the callbacks that
  -- these bring about: for a group that is concerned with reading, that for reading on EPOLLIN and that
  -- for writing on EPOLLOUT, where an error or a hangup counts as both. Each takes one off the count of
  -- pending events, around the end of the numbers.
  pub process_events-Dispatched :
      (wakeup_fd : ℕ) (es : List (ℕ × ℕ)) (m : IoManager K C)
      → all_grouped wakeup_fd es m ≡ true
      → let handed = callbacks_of_all wakeup_fd es m.fd_groups in
        (m' : IoManager K C) × (process_events wakeup_fd es m ≡ some m')
        × (m'.fd_groups ≡ m.fd_groups)
        × (m'.kernel ≡ m.kernel)
        × (m'.scheduled ≡ m.scheduled ++ handed)
        × ((m'.pending_event_count + length handed) % u64_mod ≡ m.pending_event_count % u64_mod)
  process_events-Dispatched wakeup_fd es m h =
      let (m', ran, d) = process_events_all wakeup_fd es m h in
      (m', ran, d.same_groups, d.same_kernel, d.scheduled_right, d.counted)

  del_file_desc-ran :
      (fd : ℕ) (m : IoManager K C) (g : FdCallback C)
      → group fd m ≡ some g
      → del_file_desc fd m ≡ some (record m { fd_groups = OrdMap.erase ltb fd m.fd_groups })
  unfolding del_file_desc group
  del_file_desc-ran fd m g here = ground arith

  group-erase :
      (fd : ℕ) (m : IoManager K C)
      → IsSorted ltb m.fd_groups
      → group fd (record m { fd_groups = OrdMap.erase ltb fd m.fd_groups }) ≡ none
  unfolding group
  group-erase fd m sorted =
      ground (arith, OrdMap.find-erase ltb ltb-StrictWeakOrder fd fd m.fd_groups sorted)

  -- A descriptor that is deleted stays with the kernel: the next event that is reported for it is a
  -- fault.
  pub del_file_desc-faults :
      (fd events : ℕ) (m : IoManager K C) (g : FdCallback C)
      → IsSorted ltb m.fd_groups
      → group fd m ≡ some g
      → (m' : IoManager K C) × (del_file_desc fd m ≡ some m')
        × (m'.kernel ≡ m.kernel)
        × (process_fd_event fd events m' ≡ none)
  unfolding process_fd_event
  del_file_desc-faults fd events m g sorted here = (
    record m { fd_groups = OrdMap.erase ltb fd m.fd_groups },
    del_file_desc-ran fd m g here,
    refl,
    rw (group-erase fd m sorted) refl,
  )
