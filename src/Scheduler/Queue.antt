-- ===== src/Scheduler/Queue.antt =====
-- Which fiber a thread takes from the queue.
use qslary.Base.{ℕ, ◌≡◌, Bool, true, not, ◌&&◌, Option, none, some, List, [], ◌∷◌, ◌++◌}
use qslary.Scheduler.{Scheduler, can_run}

-- No fiber of the list can run.
abbrev pub none_runs : {C : Type 0} → List ℕ → Scheduler C → Bool
none_runs [] m = true
none_runs (id ∷ ids) m = not (can_run (m.fibers id).state) && none_runs ids m

module _ {C : Type 0} (m : Scheduler C) where
  -- The fiber can run, stood in the list behind others that cannot, and was taken out of it.
  pub record IsFirst (ids : List ℕ) (id : ℕ) (rest : List ℕ) : Type 0 where
    pub runs : can_run (m.fibers id).state ≡ true
    pub before : List ℕ
    pub after : List ℕ
    pub stood : ids ≡ before ++ (id ∷ after)
    pub left : rest ≡ before ++ after
    pub waiting : none_runs before m ≡ true

  abbrev picked : Option (ℕ × List ℕ) → Option (ℕ × Scheduler C)
  picked none = none
  picked (some (id, rest)) = some (id, record m { pending_functors = rest })
