-- ===== src/Timer/Round/Called.antt =====
-- What one callback does to the manager that runs it.
use qslary.Base.{
  ℕ, ◌+◌, ◌≡◌, refl, ◌∙◌, Bool, true, false, ◌&&◌, ◌||◌, none, some, List, [], ◌∷◌, ltb,
  if◌then◌else◌, Option-cases, Bool-cases, inl, inr, arith,
}
use qslary.Base.OrdMap
use qslary.Base.PairSet.{same, contains, contains-add, contains-remove}
use qslary.Timer.{
  Timestamp, Address, Interval, Timer, Entry, ActiveTimer, TimerManger, object, cancel,
}
use qslary.Timer.Managed.{
  IsManaged, max_address, rests, ltb-StrictWeakOrder, object-with_object, without_active,
}
use qslary.Timer.Changes.{
  made, added, add_timer-ok, noted, noted-IsManaged, cancelled_ran, cancelled-IsManaged, noted_ran,
}
use qslary.Timer.Round.{Command, command_add, command_cancel, run_command, run_commands}

-- The allocator gives an address that no living timer has.
abbrev pub command_fresh : Command → TimerManger → Bool
command_fresh (command_add at when interval) m =
    ltb at max_address && (elim (object at m) [ none ↦ true | some timer ↦ false ])
command_fresh (command_cancel timer) m = true

abbrev pub commands_fresh : List Command → TimerManger → Bool
commands_fresh [] m = true
commands_fresh (c ∷ cs) m =
    command_fresh c m && (elim (run_command c m) [ none ↦ true | some m' ↦ commands_fresh cs m' ])

abbrev pub calls_fresh : (Address → List Command) → List Entry → TimerManger → Bool
calls_fresh callback [] m = true
calls_fresh callback ((when, at) ∷ es) m =
    commands_fresh (callback at) m
    && (elim (run_commands (callback at) m) [ none ↦ true | some m' ↦ calls_fresh callback es m' ])

-- Whether a callback cancels this timer.
abbrev pub cancels : ActiveTimer → List Command → Bool
cancels id [] = false
cancels id (command_add at when interval ∷ cs) = cancels id cs
cancels id (command_cancel other ∷ cs) = same id other || cancels id cs

abbrev pub calls_cancel : ActiveTimer → (Address → List Command) → List Entry → Bool
calls_cancel id callback [] = false
calls_cancel id callback ((when, at) ∷ es) = cancels id (callback at) || calls_cancel id callback es

-- A timer that rests goes on resting, unchanged.
abbrev undisturbed : Address → TimerManger → TimerManger → Bool
undisturbed j m m' = if rests j m then rests j m' else true

-- What callbacks leave: of a timer that rests they change nothing but the note that it was cancelled.
pub record Called (noted : ActiveTimer → Bool) (m m' : TimerManger) : Type 0 where
  pub managed : IsManaged m'
  pub calling : m'.calling_expired_timers ≡ m.calling_expired_timers
  pub rests_right : (j : Address) → undisturbed j m m' ≡ true
  pub objects_right :
      (j : Address)
      → (if rests j m then object j m' else none) ≡ (if rests j m then object j m else none)
  pub notes_right :
      (j : Address) (timer : Timer)
      → object j m ≡ some timer
      → rests j m ≡ true
      → contains (j, timer.sequence) m'.canceling_timers
        ≡ (contains (j, timer.sequence) m.canceling_timers || noted (j, timer.sequence))

pub Called-refl : (m : TimerManger) → IsManaged m → Called (λ id. false) m m
Called-refl m h = record {
  managed = h;
  calling = refl;
  rests_right = λ j. ground arith;
  objects_right = λ j. refl;
  notes_right = λ j timer here r. ground arith;
}

pub Called-then :
    (f g : ActiveTimer → Bool) (m m1 m2 : TimerManger)
    → Called f m m1
    → Called g m1 m2
    → Called (λ id. f id || g id) m m2
Called-then f g m m1 m2 a b = record {
  managed = b.managed;
  calling = b.calling ∙ a.calling;
  rests_right = λ j. ground (arith, a.rests_right j, b.rests_right j);
  objects_right = λ j. ground (arith, a.rests_right j, a.objects_right j, b.objects_right j);
  notes_right = λ j timer here r.
      let here1 : object j m1 ≡ some timer = ground (arith, a.objects_right j) in
      let r1 : rests j m1 ≡ true = ground (arith, a.rests_right j) in
      ground (arith, a.notes_right j timer here r, b.notes_right j timer here1 r1);
}

pub add-Called :
    (at : Address) (when : Timestamp) (interval : Interval) (m : TimerManger)
    → IsManaged m
    → command_fresh (command_add at when interval) m ≡ true
    → (m' : TimerManger) × (run_command (command_add at when interval) m ≡ some m')
      × Called (λ id. false) m m'
unfolding run_command
add-Called at when interval m h fresh =
    let free : object at m ≡ none = ground arith in
    let (ran, h') = add_timer-ok at when interval m h free (ground arith) in
    (
      added at when interval m,
      rw ran refl,
      record {
        managed = h';
        calling = refl;
        rests_right = λ j. elim (Option-cases (object j m)) [
          | inl e ↦ ground arith
          | inr (t, e) ↦ ground (
            arith,
            object-with_object j at (made at when interval m) m,
            contains-add (j, t.sequence) (at, m.num_created + 1) m.active_timers,
          )
        ];
        objects_right = λ j. ground (arith, object-with_object j at (made at when interval m) m);
        notes_right = λ j timer here r. ground arith;
      },
    )

module _ (at : Address) (sequence : ℕ) (m : TimerManger) (h : IsManaged m) where
  stopped-Called :
      (timer : Timer)
      → object at m ≡ some timer
      → contains (at, timer.sequence) m.active_timers ≡ true
      → sequence ≡ timer.sequence
      → IsManaged (without_active at timer (OrdMap.erase ltb at m.objects) m)
      → Called
          (λ id. same id (at, sequence))
          m
          (without_active at timer (OrdMap.erase ltb at m.objects) m)
  stopped-Called timer here active number h' = record {
    managed = h';
    calling = refl;
    rests_right = λ j. elim (Option-cases (object j m)) [
      | inl e ↦ ground arith
      | inr (t, e) ↦ ground (
        arith,
        OrdMap.find-erase ltb ltb-StrictWeakOrder j at m.objects h.objects_sorted,
        contains-remove (j, t.sequence) (at, timer.sequence) m.active_timers h.active_sorted,
      )
    ];
    objects_right = λ j.
        ground (arith, OrdMap.find-erase ltb ltb-StrictWeakOrder j at m.objects h.objects_sorted);
    notes_right = λ j t e r. ground arith;
  }

  noted-Called :
      m.calling_expired_timers ≡ true
      → contains (at, sequence) m.active_timers ≡ false
      → Called (λ id. same id (at, sequence)) m (noted at sequence m)
  noted-Called calling idle = record {
    managed = noted-IsManaged at sequence m h;
    calling = ground arith;
    rests_right = λ j. ground arith;
    objects_right = λ j. ground arith;
    notes_right =
        λ j t e r. ground (arith, contains-add (j, t.sequence) (at, sequence) m.canceling_timers);
  }

  pub cancel-Called :
      m.calling_expired_timers ≡ true
      → (m' : TimerManger) × (cancel (at, sequence) m ≡ some m')
        × Called (λ id. same id (at, sequence)) m m'
  cancel-Called calling = elim (Bool-cases (contains (at, sequence) m.active_timers)) [
    | inl active ↦ elim (Option-cases (object at m)) [
      | inl e ↦ absurd (ground (arith, h.active_rights at sequence))
      | inr (timer, here) ↦
          let number : sequence ≡ timer.sequence = ground (arith, h.active_rights at sequence) in
          let active' : contains (at, timer.sequence) m.active_timers ≡ true = ground arith in
          (
            without_active at timer (OrdMap.erase ltb at m.objects) m,
            cancelled_ran at sequence m timer h here active' number,
            stopped-Called timer here active' number
                (cancelled-IsManaged at sequence m timer h here active'),
          )
    ]
    | inr idle ↦ (noted at sequence m, noted_ran at sequence m h idle, noted-Called calling idle)
  ]

pub Called-ap :
    (f g : ActiveTimer → Bool) (m m' : TimerManger)
    → ((id : ActiveTimer) → f id ≡ g id)
    → Called f m m'
    → Called g m m'
Called-ap f g m m' e a = record {
  managed = a.managed;
  calling = a.calling;
  rests_right = a.rests_right;
  objects_right = a.objects_right;
  notes_right =
      λ j timer here r. ground (arith, a.notes_right j timer here r, e (j, timer.sequence));
}
