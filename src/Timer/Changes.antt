-- ===== src/Timer/Changes.antt =====
-- Adding and cancelling a timer: the assertions hold, the sets stay in agreement, and the descriptor is
-- set early enough.
use qslary.Base.{
  ℕ, ◌+◌, ◌≡◌, ◌<◌, refl, Bool, true, false, ◌||◌, Option, none, some, [], ◌∷◌, ◌==◌, ltb, leb,
  if◌then◌else◌, Option-cases, Bool-cases, inl, inr, arith,
}
use qslary.Base.OrdMap
use qslary.Base.OrdMap.{IsSorted}
use qslary.Base.PairSet.{
  PairSet, contains, add, remove, IsOrdered, contains-add, contains-remove, length-remove,
}
use qslary.Timer.{
  Timestamp, Address, Interval, Timer, TimerManger, object, insert, is_earliest, add_timer, cancel,
  cancel_active,
}
use qslary.Timer.Managed.{
  max_address, IsManaged, ltb-StrictWeakOrder, IsManaged-with, with_object, with_object-IsManaged,
  object-with_object, with_active, with_active-IsManaged, listed, without_active,
  without_active-IsManaged,
}

-- The time of the first timer.
abbrev pub first : PairSet → Option Timestamp
first [] = none
first (((when, at), u) ∷ timers) = some when

-- The descriptor is set for no later time than that of the first timer.
abbrev pub is_armed : TimerManger → Bool
is_armed m = elim (first m.timers) [
  | none ↦ true
  | some when ↦ elim m.armed [ none ↦ false | some time ↦ leb time when ]
]

pub first-add :
    (when : Timestamp) (at : Address) (m : PairSet)
    → first (add (when, at) m)
      ≡ (elim (first m) [ none ↦ some when | some t ↦ some (if ltb when t then when else t) ])
unfolding add OrdMap.insert
first-add when at [] = refl
first-add when at (((t, b), u) ∷ m) = ground arith

abbrev pub not_before : Option Timestamp → Option Timestamp → Bool
not_before a none = true
not_before none (some s) = false
not_before (some t) (some s) = leb t s

-- Without a timer the first is not earlier.
pub first-remove :
    (k : ℕ × ℕ) (m : PairSet) → IsOrdered m → not_before (first m) (first (remove k m)) ≡ true
unfolding remove OrdMap.erase
first-remove k [] s = refl
first-remove k (((t, b), u) ∷ []) s = ground arith
first-remove k (((t, b), u) ∷ ((t', b'), u') ∷ m) s = ground (arith, s.0.0)

-- The insertion of a timer that rests, with all that it tells.
pub insert-ok :
    (at : Address) (timer : Timer) (m : TimerManger)
    → IsManaged m
    → object at m ≡ some timer
    → contains (at, timer.sequence) m.active_timers ≡ false
    → at < max_address
    → insert at m ≡ some (is_earliest timer.expiration m.timers, with_active at timer m)
unfolding insert
insert-ok at timer m h here idle small =
    let (absent, h') = with_active-IsManaged at timer m h here idle small in
    ground (arith, h.sizes, h'.sizes)

module _ (at : Address) (when : Timestamp) (interval : Interval) (m : TimerManger) where
  abbrev pub made : Timer
  made = record {
    expiration = when;
    interval = interval;
    recurring = interval.positive;
    sequence = m.num_created + 1;
  }

  abbrev pub stored : TimerManger
  stored = record (with_object at made m) { num_created = m.num_created + 1 }

  abbrev pub added : TimerManger
  added = record (with_active at made stored) {
    armed = if is_earliest when m.timers then some when else m.armed;
  }

  added_ran :
      IsManaged stored
      → object at stored ≡ some made
      → contains (at, made.sequence) m.active_timers ≡ false
      → at < max_address
      → add_timer at when interval m ≡ some ((at, m.num_created + 1), added)
  unfolding add_timer
  added_ran h here idle small = rw (insert-ok at made stored h here idle small) (ground arith)

  added_armed : (if is_armed m then is_armed added else true) ≡ true
  unfolding is_earliest
  added_armed = ground (arith, first-add when at m.timers)

  pub add_timer-ok :
      IsManaged m
      → object at m ≡ none
      → at < max_address
      → (add_timer at when interval m ≡ some ((at, m.num_created + 1), added)) × IsManaged added
  add_timer-ok h free small =
      let h1 = with_object-IsManaged at made m h (ground arith) in
      let h2 : IsManaged stored = IsManaged-with _ _ _ _ (with_object at made m) h1 in
      let here : object at stored ≡ some made = ground (arith, object-with_object at at made m) in
      let idle : contains (at, made.sequence) m.active_timers ≡ false =
        ground (arith, h.active_rights at made.sequence) in
      let (absent, h3) = with_active-IsManaged at made stored h2 here idle small in
      (added_ran h2 here idle small, IsManaged-with _ _ _ _ (with_active at made stored) h3)

  -- Adding a timer with a fresh address fails no assertion and keeps the sets in agreement; the timer
  -- is active and listed for its time, and a descriptor that was set early enough still is.
  pub add_timer-IsManaged :
      IsManaged m
      → object at m ≡ none
      → at < max_address
      → (m' : TimerManger) × (add_timer at when interval m ≡ some ((at, m.num_created + 1), m'))
        × IsManaged m'
        × (contains (at, m.num_created + 1) m'.active_timers ≡ true)
        × (contains (when, at) m'.timers ≡ true)
        × ((if is_armed m then is_armed m' else true) ≡ true)
  add_timer-IsManaged h free small =
      let (ran, h') = add_timer-ok h free small in
      (
        added,
        ran,
        h',
        ground (arith, contains-add (at, made.sequence) (at, made.sequence) m.active_timers),
        ground (arith, contains-add (when, at) (when, at) m.timers),
        added_armed,
      )

module _ (at : Address) (sequence : ℕ) (m : TimerManger) where
  -- What a call of `cancel` for a timer that is not active leaves: a note, while callbacks run.
  abbrev pub noted : TimerManger
  noted =
      if m.calling_expired_timers
      then record m { canceling_timers = add (at, sequence) m.canceling_timers }
      else m

  pub noted-IsManaged : IsManaged m → IsManaged noted
  noted-IsManaged h =
      elim m.calling_expired_timers
        as (λ b. IsManaged (
          if b then record m { canceling_timers = add (at, sequence) m.canceling_timers } else m)) [
            | true ↦ IsManaged-with _ _ _ _ m h
            | false ↦ h
          ]

  pub cancelled_ran :
      (timer : Timer)
      → IsManaged m
      → object at m ≡ some timer
      → contains (at, timer.sequence) m.active_timers ≡ true
      → sequence ≡ timer.sequence
      → cancel (at, sequence) m ≡ some (without_active at timer (OrdMap.erase ltb at m.objects) m)
  unfolding cancel cancel_active
  cancelled_ran timer h here active same_number =
      let there = (listed at timer m h here active).0 in
      ground (
        arith,
        h.sizes,
        length-remove (timer.expiration, at) m.timers there,
        length-remove (at, timer.sequence) m.active_timers active,
      )

  pub noted_ran :
      IsManaged m
      → contains (at, sequence) m.active_timers ≡ false
      → cancel (at, sequence) m ≡ some noted
  unfolding cancel
  noted_ran h idle = ground (arith, h.sizes)

  others_erased :
      (j : Address)
      → IsManaged m
      → (if j == at then object j m else OrdMap.find ltb j (OrdMap.erase ltb at m.objects))
        ≡ object j m
  others_erased j h =
      ground (arith, OrdMap.find-erase ltb ltb-StrictWeakOrder j at m.objects h.objects_sorted)

  pub cancelled-IsManaged :
      (timer : Timer)
      → IsManaged m
      → object at m ≡ some timer
      → contains (at, timer.sequence) m.active_timers ≡ true
      → IsManaged (without_active at timer (OrdMap.erase ltb at m.objects) m)
  cancelled-IsManaged timer h here active =
      without_active-IsManaged at timer m h (OrdMap.erase ltb at m.objects) here active
        (OrdMap.erase-IsSorted ltb ltb-StrictWeakOrder at m.objects h.objects_sorted)
        (λ j. others_erased j h)

  cancelled_armed :
      (timer : Timer)
      → IsManaged m
      → (if is_armed m
          then is_armed (without_active at timer (OrdMap.erase ltb at m.objects) m)
          else true)
        ≡ true
  cancelled_armed timer h =
      ground (arith, first-remove (timer.expiration, at) m.timers h.timers_sorted)

  -- Cancelling fails no assertion and keeps the sets in agreement, whatever the timer is; it is not
  -- active afterwards. One that was not active is noted while callbacks run, so that it is not started
  -- again. A descriptor that was set early enough still is.
  pub cancel-IsManaged :
      IsManaged m
      → (m' : TimerManger) × (cancel (at, sequence) m ≡ some m')
        × IsManaged m'
        × (contains (at, sequence) m'.active_timers ≡ false)
        × ((contains (at, sequence) m.active_timers
              || (if m.calling_expired_timers
                  then contains (at, sequence) m'.canceling_timers
                  else true))
            ≡ true)
        × ((if is_armed m then is_armed m' else true) ≡ true)
  cancel-IsManaged h = elim (Bool-cases (contains (at, sequence) m.active_timers)) [
    | inl active ↦ elim (Option-cases (object at m)) [
      | inl e ↦ absurd (ground (arith, h.active_rights at sequence))
      | inr (timer, here) ↦
          let number : sequence ≡ timer.sequence = ground (arith, h.active_rights at sequence) in
          let active' : contains (at, timer.sequence) m.active_timers ≡ true = ground arith in
          (
            without_active at timer (OrdMap.erase ltb at m.objects) m,
            cancelled_ran timer h here active' number,
            cancelled-IsManaged timer h here active',
            ground (
              arith,
              contains-remove (at, sequence) (at, timer.sequence) m.active_timers h.active_sorted,
            ),
            ground arith,
            cancelled_armed timer h,
          )
    ]
    | inr idle ↦ (
      noted,
      noted_ran h idle,
      noted-IsManaged h,
      ground arith,
      ground (arith, contains-add (at, sequence) (at, sequence) m.canceling_timers),
      ground arith,
    )
  ]
