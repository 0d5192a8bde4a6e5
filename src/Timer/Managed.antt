-- ===== src/Timer/Managed.antt =====
-- What holds of a timer manager whenever no call is under way: the two sets agree with each other and
-- with the timers.
use qslary.Base.{
  ℕ, ◌^◌, ◌-◌, ◌≡◌, ◌<◌, Bool, true, false, not, ◌&&◌, Option, none, some, List, ◌==◌, ltb,
  if◌then◌else◌, length, Option-cases, inl, inr, arith,
}
use qslary.Base.OrdMap
use qslary.Base.OrdMap.{StrictWeakOrder, IsSorted}
use qslary.Base.PairSet.{
  PairSet, contains, add, remove, IsOrdered, contains-add, contains-remove, add-IsOrdered,
  remove-IsOrdered, length-add, length-remove,
}
use qslary.Timer.{Timestamp, Address, Timer, TimerManger, object}

abbrev pub max_address : ℕ
max_address = 2 ^ 64 - 1

-- An entry of `timers_` is an active timer with that time.
abbrev pub timer_right : Timestamp → Address → TimerManger → Bool
timer_right when at m =
    if contains (when, at) m.timers
    then (elim (object at m) [
      | none ↦ false
      | some timer ↦
          (timer.expiration == when)
          && (contains (at, timer.sequence) m.active_timers && ltb at max_address)
    ])
    else true

-- An entry of `activeTimers_` is a timer of that number, and stands in `timers_`.
abbrev pub active_right : Address → ℕ → TimerManger → Bool
active_right at sequence m =
    if contains (at, sequence) m.active_timers
    then (elim (object at m) [
      | none ↦ false
      | some timer ↦ (timer.sequence == sequence) && contains (timer.expiration, at) m.timers
    ])
    else true

pub record IsManaged (m : TimerManger) : Type 0 where
  pub sizes : length m.timers ≡ length m.active_timers
  pub objects_sorted : IsSorted ltb m.objects
  pub timers_sorted : IsOrdered m.timers
  pub active_sorted : IsOrdered m.active_timers
  pub timers_right : (when : Timestamp) (at : Address) → timer_right when at m ≡ true
  pub active_rights : (at : Address) (sequence : ℕ) → active_right at sequence m ≡ true

-- The other parts of the state do not matter.
pub IsManaged-with :
    (canceling : PairSet) (calling : Bool) (armed : Option Timestamp) (created : ℕ)
    (m : TimerManger)
    → IsManaged m
    → IsManaged (record m {
      canceling_timers = canceling;
      calling_expired_timers = calling;
      armed = armed;
      num_created = created;
    })
IsManaged-with canceling calling armed created m h = record {
  sizes = h.sizes;
  objects_sorted = h.objects_sorted;
  timers_sorted = h.timers_sorted;
  active_sorted = h.active_sorted;
  timers_right = h.timers_right;
  active_rights = h.active_rights;
}

pub ltb-StrictWeakOrder : StrictWeakOrder ltb
ltb-StrictWeakOrder = record {
  irrefl = λ a. ground arith;
  trans = λ a b c h k. ground arith;
  not_trans = λ a b c h k. ground arith;
}

-- No entry of either set is of this timer.
abbrev pub rests : Address → TimerManger → Bool
rests at m = elim (object at m) [
  | none ↦ false
  | some timer ↦ not (contains (at, timer.sequence) m.active_timers)
]

-- The state after a timer object was written.
abbrev pub with_object : Address → Timer → TimerManger → TimerManger
with_object at timer m = record m { objects = OrdMap.assign ltb at timer m.objects }

pub object-with_object :
    (j at : Address) (timer : Timer) (m : TimerManger)
    → object j (with_object at timer m) ≡ (if at == j then some timer else object j m)
object-with_object j at timer m =
    ground (arith, OrdMap.find-assign ltb ltb-StrictWeakOrder j at timer m.objects)

-- The state after a timer was put into both sets.
abbrev pub with_active : Address → Timer → TimerManger → TimerManger
with_active at timer m = record m {
  timers = add (timer.expiration, at) m.timers;
  active_timers = add (at, timer.sequence) m.active_timers;
}

module _ (at : Address) (timer : Timer) (m : TimerManger) (h : IsManaged m) where
  -- A timer that is in neither set can be written to.
  pub with_object-IsManaged :
      ((elim (object at m) [
        | none ↦ true
        | some old ↦ not (contains (at, old.sequence) m.active_timers)
      ])
        ≡ true)
      → IsManaged (with_object at timer m)
  with_object-IsManaged idle = record {
    sizes = h.sizes;
    objects_sorted =
        OrdMap.assign-IsSorted ltb ltb-StrictWeakOrder at timer m.objects h.objects_sorted;
    timers_sorted = h.timers_sorted;
    active_sorted = h.active_sorted;
    timers_right = λ when j. ground (arith, h.timers_right when j, object-with_object j at timer m);
    active_rights =
        λ j sequence. ground (arith, h.active_rights j sequence, object-with_object j at timer m);
  }

  pub with_active-IsManaged :
      object at m ≡ some timer
      → contains (at, timer.sequence) m.active_timers ≡ false
      → at < max_address
      → (contains (timer.expiration, at) m.timers ≡ false) × IsManaged (with_active at timer m)
  with_active-IsManaged here idle small =
      let absent : contains (timer.expiration, at) m.timers ≡ false =
        ground (arith, h.timers_right timer.expiration at) in
      (
        absent,
        record {
          sizes = omega (
            arith,
            h.sizes,
            length-add (timer.expiration, at) m.timers absent,
            length-add (at, timer.sequence) m.active_timers idle,
          );
          objects_sorted = h.objects_sorted;
          timers_sorted = add-IsOrdered (timer.expiration, at) m.timers h.timers_sorted;
          active_sorted = add-IsOrdered (at, timer.sequence) m.active_timers h.active_sorted;
          timers_right = λ when j. elim (Option-cases (object j m)) [
            | inl e ↦ ground (
              arith,
              h.timers_right when j,
              contains-add (when, j) (timer.expiration, at) m.timers,
            )
            | inr (t, e) ↦ ground (
              arith,
              h.timers_right when j,
              contains-add (when, j) (timer.expiration, at) m.timers,
              contains-add (j, t.sequence) (at, timer.sequence) m.active_timers,
            )
          ];
          active_rights = λ j sequence. elim (Option-cases (object j m)) [
            | inl e ↦ ground (
              arith,
              h.active_rights j sequence,
              contains-add (j, sequence) (at, timer.sequence) m.active_timers,
            )
            | inr (t, e) ↦ ground (
              arith,
              h.active_rights j sequence,
              contains-add (j, sequence) (at, timer.sequence) m.active_timers,
              contains-add (t.expiration, j) (timer.expiration, at) m.timers,
            )
          ];
        },
      )

-- The state after an active timer was taken off both sets, and its object deleted or kept.
abbrev pub without_active : Address → Timer → List (Address × Timer) → TimerManger → TimerManger
without_active at timer objects m = record m {
  objects = objects;
  timers = remove (timer.expiration, at) m.timers;
  active_timers = remove (at, timer.sequence) m.active_timers;
}

module _ (at : Address) (timer : Timer) (m : TimerManger) (h : IsManaged m) where
  pub listed :
      object at m ≡ some timer
      → contains (at, timer.sequence) m.active_timers ≡ true
      → (contains (timer.expiration, at) m.timers ≡ true) × (at < max_address)
  listed here active =
      let there : contains (timer.expiration, at) m.timers ≡ true =
        ground (arith, h.active_rights at timer.sequence) in
      (there, ground (arith, h.timers_right timer.expiration at))

  -- Any change of the objects will do that keeps those of the other addresses.
  pub without_active-IsManaged :
      (objects : List (Address × Timer))
      → object at m ≡ some timer
      → contains (at, timer.sequence) m.active_timers ≡ true
      → IsSorted ltb objects
      → ((j : Address) → (if j == at then object j m else OrdMap.find ltb j objects) ≡ object j m)
      → IsManaged (without_active at timer objects m)
  without_active-IsManaged objects here active sorted others =
      let there = (listed here active).0 in
      record {
        sizes = omega (
          arith,
          h.sizes,
          length-remove (timer.expiration, at) m.timers there,
          length-remove (at, timer.sequence) m.active_timers active,
        );
        objects_sorted = sorted;
        timers_sorted = remove-IsOrdered (timer.expiration, at) m.timers h.timers_sorted;
        active_sorted = remove-IsOrdered (at, timer.sequence) m.active_timers h.active_sorted;
        timers_right = λ when j. elim (Option-cases (object j m)) [
          | inl e ↦ ground (
            arith,
            others j,
            h.timers_right when j,
            contains-remove (when, j) (timer.expiration, at) m.timers h.timers_sorted,
          )
          | inr (t, e) ↦ ground (
            arith,
            others j,
            h.timers_right when j,
            contains-remove (when, j) (timer.expiration, at) m.timers h.timers_sorted,
            contains-remove (j, t.sequence) (at, timer.sequence) m.active_timers h.active_sorted,
          )
        ];
        active_rights = λ j sequence. elim (Option-cases (object j m)) [
          | inl e ↦ ground (
            arith,
            others j,
            h.active_rights j sequence,
            contains-remove (j, sequence) (at, timer.sequence) m.active_timers h.active_sorted,
          )
          | inr (t, e) ↦ ground (
            arith,
            others j,
            h.active_rights j sequence,
            contains-remove (j, sequence) (at, timer.sequence) m.active_timers h.active_sorted,
            contains-remove (t.expiration, j) (timer.expiration, at) m.timers h.timers_sorted,
          )
        ];
      }
