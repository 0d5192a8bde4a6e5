-- ===== src/Timer/Round/Calls.antt =====
-- Running the callbacks of the expired timers.
use qslary.Base.{
  ◌≡◌, refl, ◌∙◌, Bool, true, ◌||◌, some, List, [], ◌∷◌, Option-cases, and_left, and_right, inl,
  inr, arith,
}
use qslary.Base.PairSet.{same}
use qslary.Timer.{Address, Entry, ActiveTimer, TimerManger, object}
use qslary.Timer.Managed.{IsManaged, rests}
use qslary.Timer.Round.{
  Command, command_add, command_cancel, run_command, run_commands, run_expired,
}
use qslary.Timer.Round.Forgotten.{all_rest}
use qslary.Timer.Round.Called.{
  command_fresh, commands_fresh, calls_fresh, cancels, calls_cancel, Called, Called-refl,
  Called-then, Called-ap, add-Called, cancel-Called,
}

run_command-Called :
    (c : Command) (m : TimerManger)
    → IsManaged m
    → m.calling_expired_timers ≡ true
    → command_fresh c m ≡ true
    → (m' : TimerManger) × (run_command c m ≡ some m') × Called (λ id. cancels id (c ∷ [])) m m'
unfolding run_command
run_command-Called (command_add at when interval) m h calling fresh =
    add-Called at when interval m h fresh
run_command-Called (command_cancel (at, sequence)) m h calling fresh =
    let (m', ran, a) = cancel-Called at sequence m h calling in
    (
      m',
      ran,
      Called-ap (λ id. same id (at, sequence))
          (λ id. cancels id (command_cancel (at, sequence) ∷ [])) m m' (λ id. ground arith) a,
    )

cancels-cons :
    (id : ActiveTimer) (c : Command) (cs : List Command)
    → (cancels id (c ∷ []) || cancels id cs) ≡ cancels id (c ∷ cs)
cancels-cons id (command_add at when interval) cs = refl
cancels-cons id (command_cancel other) cs = ground arith

run_commands-Called :
    (cs : List Command) (m : TimerManger)
    → IsManaged m
    → m.calling_expired_timers ≡ true
    → commands_fresh cs m ≡ true
    → (m' : TimerManger) × (run_commands cs m ≡ some m') × Called (λ id. cancels id cs) m m'
unfolding run_commands
run_commands-Called [] m h calling fresh = (m, refl, Called-refl m h)
run_commands-Called (c ∷ cs) m h calling fresh =
    let (m1, ran1, a) = run_command-Called c m h calling (and_left _ _ fresh) in
    let (m2, ran2, b) = run_commands-Called cs m1 a.managed (a.calling ∙ calling) (ground arith) in
    (
      m2,
      rw ran1 ran2,
      Called-ap (λ id. cancels id (c ∷ []) || cancels id cs) (λ id. cancels id (c ∷ cs)) m m2
          (λ id. cancels-cons id c cs)
          (Called-then (λ id. cancels id (c ∷ [])) (λ id. cancels id cs) m m1 m2 a b),
    )

all_rest-Called :
    (f : ActiveTimer → Bool) (es : List Entry) (m m' : TimerManger)
    → Called f m m'
    → all_rest es m ≡ true
    → all_rest es m' ≡ true
all_rest-Called f [] m m' a r = refl
all_rest-Called f ((when, at) ∷ es) m m' a r =
    ground (arith, a.rests_right at, all_rest-Called f es m m' a (and_right (rests at m) _ r))

-- The callbacks of expired timers, which are alive and active no more, fail no assertion.
pub run_expired-Called :
    (callback : Address → List Command) (es : List Entry) (m : TimerManger)
    → IsManaged m
    → m.calling_expired_timers ≡ true
    → all_rest es m ≡ true
    → calls_fresh callback es m ≡ true
    → (m' : TimerManger) × (run_expired callback es m ≡ some m')
      × Called (λ id. calls_cancel id callback es) m m'
      × (all_rest es m' ≡ true)
unfolding run_expired
run_expired-Called callback [] m h calling r fresh = (m, refl, Called-refl m h, refl)
run_expired-Called callback ((when, at) ∷ es) m h calling r fresh =
    elim (Option-cases (object at m)) [
      | inl e ↦ absurd (ground arith)
      | inr (timer, here) ↦
          let (m1, ran1, a) = run_commands-Called (callback at) m h calling (and_left _ _ fresh) in
          let (m2, ran2, b, r2) =
            run_expired-Called callback es m1 a.managed (a.calling ∙ calling)
              (all_rest-Called (λ id. cancels id (callback at)) es m m1 a
                (and_right (rests at m) _ r))
              (ground arith) in
          let both =
            Called-then (λ id. cancels id (callback at)) (λ id. calls_cancel id callback es) m m1 m2
              a b in
          (
            m2,
            rw here (rw ran1 ran2),
            both,
            all_rest-Called (λ id. cancels id (callback at) || calls_cancel id callback es)
                ((when, at) ∷ es) m m2 both r,
          )
    ]
