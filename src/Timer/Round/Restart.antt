-- ===== src/Timer/Round/Restart.antt =====
-- Starting the expired timers again.
use qslary.Base.{
  ◌+◌, ◌^◌, ◌≡◌, ◌<◌, refl, Bool, true, false, not, ◌&&◌, ◌||◌, Option, none, some, List, [], ◌∷◌,
  ◌==◌, ltb, if◌then◌else◌, Option-cases, Bool-cases, and_left, and_right, inl, inr, arith,
}
use qslary.Base.OrdMap
use qslary.Base.PairSet.{contains, contains-add}
use qslary.Timer.{Timestamp, Address, Timer, Entry, TimerManger, object, add_time, restart}
use qslary.Timer.Managed.{
  IsManaged, max_address, rests, ltb-StrictWeakOrder, with_object, with_object-IsManaged,
  object-with_object, with_active, with_active-IsManaged,
}
use qslary.Timer.Changes.{insert-ok}
use qslary.Timer.Round.{reset_one, reset_all}
use qslary.Timer.Round.Due.{has_address, distinct}
use qslary.Timer.Round.Forgotten.{all_rest, all_small}

-- The timer that `restart` leaves if the sum of times does not overflow.
abbrev pub restarted : Timestamp → Timer → Timer
restarted now timer = record timer {
  expiration = if timer.recurring then now + timer.interval.micro_seconds else 0;
}

-- Whether `int64_t` holds the time at which the timer would start again.
abbrev pub time_fits : Timestamp → Address → TimerManger → Bool
time_fits now at m = elim (object at m) [
  | none ↦ true
  | some timer ↦ not timer.recurring || ltb (now + timer.interval.micro_seconds) (2 ^ 63)
]

-- What becomes of an expired timer: it is started again from `now`, or deleted.
abbrev pub started : Timestamp → Address → TimerManger → Option Timer
started now at m = elim (object at m) [
  | none ↦ none
  | some timer ↦
      if timer.recurring && not (contains (at, timer.sequence) m.canceling_timers)
      then some (restarted now timer)
      else none
]

-- Whether the timer is started again with that time.
abbrev pub starts_at : Timestamp → Option Timer → Bool
starts_at when none = false
starts_at when (some timer) = timer.expiration == when

-- The timers of other addresses that rest go on resting.
abbrev still_rests : Address → Address → TimerManger → TimerManger → Bool
still_rests j at m m' = if j == at then true else (if rests j m then rests j m' else true)

all_rest-others :
    (at : Address) (m m' : TimerManger)
    → ((j : Address) → still_rests j at m m' ≡ true)
    → (es : List Entry) → has_address at es ≡ false
    → all_rest es m ≡ true
    → all_rest es m' ≡ true
all_rest-others at m m' k [] a h = refl
all_rest-others at m m' k ((when, other) ∷ es) a h =
    ground
      (arith, k other, all_rest-others at m m' k es (ground arith) (and_right (rests other m) _ h))

abbrev erased : Address → TimerManger → TimerManger
erased at m = record m { objects = OrdMap.erase ltb at m.objects }

object-erased :
    (j at : Address) (m : TimerManger)
    → IsManaged m
    → object j (erased at m) ≡ (if at == j then none else object j m)
object-erased j at m h =
    ground (arith, OrdMap.find-erase ltb ltb-StrictWeakOrder j at m.objects h.objects_sorted)

-- A timer that rests can be deleted.
erased-IsManaged :
    (at : Address) (m : TimerManger) → IsManaged m → rests at m ≡ true → IsManaged (erased at m)
erased-IsManaged at m h r = record {
  sizes = h.sizes;
  objects_sorted = OrdMap.erase-IsSorted ltb ltb-StrictWeakOrder at m.objects h.objects_sorted;
  timers_sorted = h.timers_sorted;
  active_sorted = h.active_sorted;
  timers_right = λ when j. elim (Option-cases (object at m)) [
    | inl e ↦ ground (arith, h.timers_right when j, object-erased j at m h)
    | inr (t, e) ↦ ground (arith, h.timers_right when j, object-erased j at m h)
  ];
  active_rights = λ j sequence. elim (Option-cases (object at m)) [
    | inl e ↦ ground (arith, h.active_rights j sequence, object-erased j at m h)
    | inr (t, e) ↦ ground (arith, h.active_rights j sequence, object-erased j at m h)
  ];
}

restart-restarted :
    (now : Timestamp) (timer : Timer)
    → (not timer.recurring || ltb (now + timer.interval.micro_seconds) (2 ^ 63)) ≡ true
    → restart now timer ≡ some (restarted now timer)
unfolding restart add_time
restart-restarted now timer fits = ground arith

-- What `reset` does with one entry.
pub record Handled (now : Timestamp) (at : Address) (m m' : TimerManger) : Type 0 where
  pub managed : IsManaged m'
  pub objects_right :
      (j : Address) → object j m' ≡ (if j == at then started now at m else object j m)
  pub timers_right :
      (when : Timestamp) (j : Address)
      → contains (when, j) m'.timers
        ≡ (contains (when, j) m.timers || ((j == at) && starts_at when (started now at m)))
  pub rests_right : (j : Address) → still_rests j at m m' ≡ true
  pub same_canceling : m'.canceling_timers ≡ m.canceling_timers

module _ (now : Timestamp) (when : Timestamp) (at : Address) (m : TimerManger) (timer : Timer)
    (h : IsManaged m) (here : object at m ≡ some timer)
    (idle : contains (at, timer.sequence) m.active_timers ≡ false)
    (fits : time_fits now at m ≡ true) where
  abbrev again : TimerManger
  again = with_active at (restarted now timer) (with_object at (restarted now timer) m)

  abbrev starts : Bool
  starts = timer.recurring && not (contains (at, timer.sequence) m.canceling_timers)

  started_again :
      at < max_address
      → starts ≡ true
      → (reset_one now (when, at) m ≡ some again) × Handled now at m again
  unfolding reset_one
  started_again small s =
      let h1 = with_object-IsManaged at (restarted now timer) m h (ground arith) in
      let here1 : object at (with_object at (restarted now timer) m) ≡ some (restarted now timer) =
        ground (arith, object-with_object at at (restarted now timer) m) in
      let (absent, h2) =
        with_active-IsManaged at (restarted now timer) (with_object at (restarted now timer) m) h1
          here1 idle small in
      (
        rw here (
            rw s (
              rw (restart-restarted now timer (ground arith)) (
                rw
                  (insert-ok at (restarted now timer) (with_object at (restarted now timer) m) h1
                    here1 idle small)
                  refl))),
        record {
          managed = h2;
          objects_right = λ j. ground (arith, object-with_object j at (restarted now timer) m);
          timers_right = λ t j.
              ground (arith, contains-add (t, j) ((restarted now timer).expiration, at) m.timers);
          rests_right = λ j. elim (Option-cases (object j m)) [
            | inl e ↦ ground arith
            | inr (t, e) ↦ ground (
              arith,
              object-with_object j at (restarted now timer) m,
              contains-add (j, t.sequence) (at, timer.sequence) m.active_timers,
            )
          ];
          same_canceling = refl;
        },
      )

  deleted :
      starts ≡ false
      → (reset_one now (when, at) m ≡ some (erased at m)) × Handled now at m (erased at m)
  unfolding reset_one
  deleted s = (
    rw here (rw s refl),
    record {
      managed = erased-IsManaged at m h (ground arith);
      objects_right = λ j. ground (arith, object-erased j at m h);
      timers_right = λ t j. ground arith;
      rests_right = λ j. ground (arith, object-erased j at m h);
      same_canceling = refl;
    },
  )

pub reset_one-Handled :
    (now when : Timestamp) (at : Address) (m : TimerManger)
    → IsManaged m
    → rests at m ≡ true
    → at < max_address
    → time_fits now at m ≡ true
    → (m' : TimerManger) × (reset_one now (when, at) m ≡ some m') × Handled now at m m'
reset_one-Handled now when at m h r small fits = elim (Option-cases (object at m)) [
  | inl e ↦ absurd (ground arith)
  | inr (timer, here) ↦
      let idle : contains (at, timer.sequence) m.active_timers ≡ false = ground arith in
      elim (Bool-cases
        (timer.recurring && not (contains (at, timer.sequence) m.canceling_timers))) [
          | inl s ↦
              let (ran, handled) = started_again now when at m timer h here idle fits small s in
              (again now when at m timer h here idle fits, ran, handled)
          | inr s ↦
              let (ran, handled) = deleted now when at m timer h here idle fits s in
              (erased at m, ran, handled)
        ]
]

other_address :
    (j at : Address) (es : List Entry)
    → has_address j es ≡ true
    → has_address at es ≡ false
    → (j == at) ≡ false
other_address j at es i a = elim (Bool-cases (j == at)) [
  | inl e ↦ absurd (ground arith)
  | inr e ↦ e
]

fits-others :
    (now : Timestamp) (at : Address) (m m' : TimerManger)
    → ((j : Address) → object j m' ≡ (if j == at then started now at m else object j m))
    → (j : Address) → (j == at) ≡ false
    → time_fits now j m ≡ true
    → time_fits now j m' ≡ true
fits-others now at m m' os j other fits =
    let same : object j m' ≡ object j m = ground (arith, os j) in ground arith

-- The loop of `reset`: every expired timer is started again or deleted, the others stay.
pub reset_all-IsManaged :
    (now : Timestamp) (es : List Entry) (m : TimerManger)
    → IsManaged m
    → all_rest es m ≡ true
    → distinct es ≡ true
    → all_small es ≡ true
    → ((j : Address) → has_address j es ≡ true → time_fits now j m ≡ true)
    → (m' : TimerManger) × (reset_all now es m ≡ some m')
      × IsManaged m'
      × ((j : Address) → object j m' ≡ (if has_address j es then started now j m else object j m))
      × ((when : Timestamp) (j : Address)
          → contains (when, j) m'.timers ≡ (
              contains (when, j) m.timers
              || (has_address j es && starts_at when (started now j m))))
unfolding reset_all
reset_all-IsManaged now [] m h r d s fits = (m, refl, h, (λ j. refl), (λ when j. ground arith))
reset_all-IsManaged now ((when, at) ∷ es) m h r d s fits =
    let (m1, ran1, f) =
      reset_one-Handled now when at m h (and_left (rests at m) (all_rest es m) r) (ground arith)
        (fits at (ground arith)) in
    let (m2, ran2, h2, os, ts) =
      reset_all-IsManaged now es m1 f.managed
        (all_rest-others at m m1 f.rests_right es (ground arith) (and_right (rests at m) _ r))
        (and_right (not (has_address at es)) _ d) (and_right (ltb at max_address) _ s)
        (λ j i.
          fits-others now at m m1 f.objects_right j (other_address j at es i (ground arith))
            (fits j (ground arith))) in
    (
      m2,
      rw ran1 ran2,
      h2,
      (λ j. ground (arith, os j, f.objects_right j, f.same_canceling)),
      (λ t j. ground (arith, ts t j, f.timers_right t j, f.objects_right j, f.same_canceling)),
    )
