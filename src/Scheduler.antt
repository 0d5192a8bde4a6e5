-- ===== src/Scheduler.antt =====
-- net/Scheduler.h and net/Scheduler.cc: the queue of fibers that the threads of a scheduler run. Fibers
-- are numbers in the order of their creation; a callback is a value of a type C. An operation is what one
-- thread does under the lock, or between two points at which other threads may come in between; how the
-- threads take turns is not modelled.
pub mod Queue
use qslary.Base.{
  ℕ, suc, zero, ◌+◌, ◌-◌, Bool, true, false, not, ◌&&◌, ◌||◌, Option, none, some, List, [], ◌∷◌,
  ◌++◌, ◌==◌, if◌then◌else◌,
}
use qslary.Base.Fault.{◌>>=◌, ◌>>◌, require}

-- `Fiber::State`
pub data FiberState : Type 0 where
  init hold exec term ready exception : FiberState

pub record Fiber (C : Type 0) : Type 0 where
  pub state : FiberState
  pub cb : C

pub record Scheduler (C : Type 0) : Type 0 where
  pub pending_functors : List ℕ
  pub fibers : ℕ → Fiber C
  pub created : ℕ
  pub active_thread_count : ℕ
  pub clean : Bool
  pub auto_stop : Bool

abbrev pub can_run : FiberState → Bool
can_run init = true
can_run hold = true
can_run exec = false
can_run term = false
can_run ready = true
can_run exception = false

abbrev pub is_exec : FiberState → Bool
is_exec init = false
is_exec hold = false
is_exec exec = true
is_exec term = false
is_exec ready = false
is_exec exception = false

module _ {C : Type 0} where
  -- Writes to the state of a fiber.
  unfoldable pub set_state : FiberState → ℕ → Scheduler C → Scheduler C
  set_state state id m = record m {
    fibers = λ j. if j == id then record (m.fibers id) { state = state } else m.fibers j;
  }

  -- `schedulerNoLock`: whether the queue was empty, and the state with the new fiber.
  unfoldable pub scheduler_no_lock : C → Scheduler C → Bool × Scheduler C
  scheduler_no_lock cb m = (
    (elim m.pending_functors [ [] ↦ true | id ∷ ids ↦ false ]),
    record m {
      pending_functors = m.pending_functors ++ (m.created ∷ []);
      fibers = λ j. if j == m.created then record { state = init; cb = cb } else m.fibers j;
      created = m.created + 1;
    },
  )

  -- `scheduler(std::function<void()>)`, without the wake-up that it may end in.
  unfoldable pub scheduler : C → Scheduler C → Scheduler C
  unfolding scheduler_no_lock
  scheduler cb m = (scheduler_no_lock cb m).1

  -- `scheduler(Fiber::ptr)`
  unfoldable pub scheduler_fiber : ℕ → Scheduler C → Scheduler C
  scheduler_fiber id m = record m { pending_functors = m.pending_functors ++ (id ∷ []) }

  -- The search through the queue in `run`: the first fiber that can run, and the others.
  unfoldable pub first_runnable : List ℕ → Scheduler C → Option (ℕ × List ℕ)
  first_runnable [] m = none
  first_runnable (id ∷ ids) m =
      let later = first_runnable ids m in
      if can_run (m.fibers id).state
      then some (id, ids)
      else (elim later [ none ↦ none | some (other, rest) ↦ some (other, id ∷ rest) ])

  -- What a thread does under the lock: it takes that fiber, if there is one.
  unfoldable pub take_fiber : Scheduler C → Option (ℕ × Scheduler C)
  unfolding first_runnable
  take_fiber m = elim (first_runnable m.pending_functors m) [
    | none ↦ none
    | some (id, rest) ↦ some (id, record m { pending_functors = rest })
  ]

  -- `++activeThreadCount_`
  unfoldable pub count_active : Scheduler C → Scheduler C
  count_active m = record m { active_thread_count = m.active_thread_count + 1 }

  -- `swapIn`, up to the switch; `none` is the failed assertion.
  unfoldable pub swap_in : ℕ → Scheduler C → Option (Scheduler C)
  unfolding set_state
  swap_in id m = do require (not (is_exec (m.fibers id).state)); some (set_state exec id m)

  -- `YieldToReady` and `YieldToHold`, up to the switch.
  unfoldable pub yield_to : FiberState → ℕ → Scheduler C → Option (Scheduler C)
  unfolding set_state
  yield_to state id m = do require (is_exec (m.fibers id).state); some (set_state state id m)

  -- `--activeThreadCount_`, when the fiber has come back.
  unfoldable pub count_off : Scheduler C → Scheduler C
  count_off m = record m { active_thread_count = m.active_thread_count - 1 }

  -- What `run` makes of the state that it finds then: a fiber that is ready is queued as a new fiber
  -- with its callback, any other that is not at its end is held.
  unfoldable pub came_back : ℕ → Scheduler C → Scheduler C
  unfolding set_state scheduler
  came_back id m = elim (m.fibers id).state [
    | ready ↦ scheduler (m.fibers id).cb m
    | term ↦ m
    | exception ↦ m
    | init ↦ set_state hold id m
    | hold ↦ set_state hold id m
    | exec ↦ set_state hold id m
  ]

  -- `stop`, before the threads are joined.
  unfoldable pub stop : Scheduler C → Scheduler C
  stop m = record m { auto_stop = true; clean = true }

  -- `IsClean`
  unfoldable pub is_clean : Scheduler C → Bool
  is_clean m =
      (m.auto_stop && m.clean)
      && ((elim m.pending_functors [ [] ↦ true | id ∷ ids ↦ false ])
          && (m.active_thread_count == 0))
