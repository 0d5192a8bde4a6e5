-- ===== src/Timer/Round/Rearm.antt =====
-- Setting the descriptor again at the end of a round.
use qslary.Base.{
  ◌≡◌, refl, Bool, true, false, none, some, [], ◌∷◌, ◌==◌, if◌then◌else◌, Option-cases, Bool-cases,
  inl, inr, arith,
}
use qslary.Base.OrdMap
use qslary.Base.PairSet.{PairSet, contains}
use qslary.Timer.{Timestamp, valid, Address, Timer, TimerManger, object}
use qslary.Timer.Managed.{IsManaged, IsManaged-with}
use qslary.Timer.Changes.{first}
use qslary.Timer.Round.{rearm}

-- The descriptor is set for the time of the first timer, if that is a valid time.
abbrev pub is_rearmed : TimerManger → Bool
is_rearmed m = elim (first m.timers) [
  | none ↦ true
  | some when ↦
      if valid when then (elim m.armed [ none ↦ false | some time ↦ time == when ]) else true
]

head_alive :
    (when : Timestamp) (at : Address) (u : Unit) (rest : PairSet) (m : TimerManger)
    → IsManaged m
    → m.timers ≡ ((when, at), u) ∷ rest
    → (timer : Timer) × (object at m ≡ some timer) × (timer.expiration ≡ when)
unfolding contains OrdMap.find
head_alive when at u rest m h e = elim (Option-cases (object at m)) [
  | inl gone ↦ absurd (ground (arith, h.timers_right when at))
  | inr (timer, here) ↦ (timer, here, ground (arith, h.timers_right when at))
]

pub rearm-IsManaged :
    (m : TimerManger)
    → IsManaged m
    → (m' : TimerManger) × (rearm m ≡ some m')
      × IsManaged m'
      × (is_rearmed m' ≡ true)
      × ((m'.objects ≡ m.objects) × (m'.timers ≡ m.timers))
unfolding rearm
rearm-IsManaged m h = by_first m.timers refl
  where
    by_first :
        (ts : PairSet)
        → m.timers ≡ ts
        → (m' : TimerManger) × (rearm m ≡ some m')
          × IsManaged m'
          × (is_rearmed m' ≡ true)
          × ((m'.objects ≡ m.objects) × (m'.timers ≡ m.timers))
    by_first [] e = (m, ground arith, h, ground arith, (refl, refl))
    by_first (((when, at), u) ∷ rest) e =
        let (timer, here, right) = head_alive when at u rest m h e in
        elim (Bool-cases (valid when)) [
          | inl v ↦ (
            record m { armed = some when },
            ground arith,
            IsManaged-with _ _ _ _ m h,
            ground arith,
            (refl, refl),
          )
          | inr v ↦ (m, ground arith, h, ground arith, (refl, refl))
        ]
