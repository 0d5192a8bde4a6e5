-- ===== src/Examples/Schedules.antt =====
-- A scheduler at work.
use qslary.Base.{ℕ, false, [], ◌∷◌, ◌==◌, if◌then◌else◌}
use qslary.Scheduler.{Scheduler, init, exec}

-- Fiber 0 runs and is queued again already, fiber 1 is new.
abbrev queued : Scheduler ℕ
queued = record {
  pending_functors = 0 ∷ 1 ∷ [];
  fibers = λ j. record { state = if j == 0 then exec else init; cb = 7 };
  created = 2;
  active_thread_count = 1;
  clean = false;
  auto_stop = false;
}
