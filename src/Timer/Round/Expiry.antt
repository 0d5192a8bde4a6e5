-- ===== src/Timer/Round/Expiry.antt =====
-- Taking the timers that are due off the sets.
use qslary.Base.{
  ◌≡◌, refl, ap, subst, ◌∙◌, true, ◌&&◌, some, List, [], ◌∷◌, ltb, leb, if◌then◌else◌, arith,
}
use qslary.Base.OrdMap
use qslary.Base.PairSet.{PairSet, contains}
use qslary.Timer.{Timestamp, Address, Entry, TimerManger}
use qslary.Timer.Managed.{IsManaged}
use qslary.Timer.Round.{take_expired, is_later, get_expired}
use qslary.Timer.Round.Due.{
  member, distinct, all_in-front, take_expired-append, member-take_expired,
}
use qslary.Timer.Round.Forgotten.{
  all_rest, all_small, all_in-all_small, with_entries, forget_active-Forgotten,
}

-- What the descent of the tree finds, and what it leaves.
module _ (now : Timestamp) (m : TimerManger) (h : IsManaged m) (when : Timestamp)
    (at : Address) where
  due_member :
      member (when, at) (take_expired now m.timers).0
      ≡ (contains (when, at) m.timers && leb when now)
  due_member = ground (
    arith,
    h.timers_right when at,
    (member-take_expired now (when, at) m.timers h.timers_sorted).0,
  )

  rest_member :
      contains (when, at) (take_expired now m.timers).1
      ≡ (contains (when, at) m.timers && ltb now when)
  rest_member = ground (
    arith,
    h.timers_right when at,
    (member-take_expired now (when, at) m.timers h.timers_sorted).1,
  )

-- `now < end->first`
is_later-all :
    (now : Timestamp) (rest : PairSet)
    → ((when : Timestamp) (at : Address)
        → (if contains (when, at) rest then ltb now when else true) ≡ true)
    → is_later now rest ≡ true
unfolding is_later contains OrdMap.find
is_later-all now [] h = refl
is_later-all now (((when, at), u) ∷ rest) h = ground (arith, h when at)

later_rest :
    (now : Timestamp) (m : TimerManger)
    → IsManaged m
    → is_later now (take_expired now m.timers).1 ≡ true
later_rest now m h =
    is_later-all now (take_expired now m.timers).1
      (λ when at. ground (arith, rest_member now m h when at))

split-IsManaged :
    (now : Timestamp) (m : TimerManger)
    → IsManaged m
    → IsManaged (
        with_entries
          (take_expired now m.timers).0
          (record m { timers = (take_expired now m.timers).1 }))
split-IsManaged now m h =
    subst (λ ts. IsManaged (record m { timers = ts })) (take_expired-append now m.timers) h

all_small-taken :
    (now : Timestamp) (m : TimerManger)
    → IsManaged m
    → all_small (take_expired now m.timers).0 ≡ true
all_small-taken now m h =
    let h' = split-IsManaged now m h in
    all_in-all_small
      (with_entries (take_expired now m.timers).0
        (record m { timers = (take_expired now m.timers).1 }))
      h' (take_expired now m.timers).0
      (all_in-front (take_expired now m.timers).0 (take_expired now m.timers).1 h'.timers_sorted)

-- Taking out the due timers fails no assertion. It gives exactly the entries whose time has come, and
-- keeps the others; those that are given are alive, each once, and not active any more. The sets stay
-- in agreement.
pub get_expired-IsManaged :
    (now : Timestamp) (m : TimerManger)
    → IsManaged m
    → (es : List Entry) × (m' : TimerManger) × (get_expired now m ≡ some (es, m'))
      × IsManaged m'
      × ((all_rest es m' ≡ true) × ((distinct es ≡ true) × (all_small es ≡ true)))
      × ((when : Timestamp) (at : Address)
          → (member (when, at) es ≡ (contains (when, at) m.timers && leb when now))
            × (contains (when, at) m'.timers ≡ (contains (when, at) m.timers && ltb now when)))
      × ((m'.objects ≡ m.objects) × ((m'.num_created ≡ m.num_created) × (m'.armed ≡ m.armed)))
unfolding get_expired
get_expired-IsManaged now m h =
    let (m', ran, f) =
      forget_active-Forgotten (take_expired now m.timers).0
        (record m { timers = (take_expired now m.timers).1 }) (split-IsManaged now m h) in
    (
      (take_expired now m.timers).0,
      m',
      ground (arith, h.sizes, later_rest now m h, ran, f.managed.sizes),
      f.managed,
      (f.resting, (f.apart, all_small-taken now m h)),
      (λ when at. (
        due_member now m h when at,
        ap (contains (when, at)) f.same_timers ∙ rest_member now m h when at,
      )),
      (f.same_objects, f.same_rest),
    )
