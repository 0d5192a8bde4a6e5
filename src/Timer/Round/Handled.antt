-- ===== src/Timer/Round/Handled.antt =====
-- A whole round: taking the expired timers, running them, and starting them again.
use qslary.Base.{
  ==_iff, ◌≢◌, ℕ, ◌+◌, ◌≡◌, refl, ap, ◌∙◌, Bool, true, false, not, ◌&&◌, ◌||◌, Option, none, some,
  List, [], ◌∷◌, ◌==◌, ltb, leb, if◌then◌else◌, Bool-cases, and_right, inl, inr, arith,
}
use qslary.Base.OrdMap
use qslary.Base.PairSet.{PairSet, contains}
use qslary.Timer.{Timestamp, Address, Timer, Entry, ActiveTimer, TimerManger, object}
use qslary.Base.Int.{ℤ, pos, negsuc}
use qslary.Timer.Managed.{IsManaged, IsManaged-with, rests}
use qslary.Timer.Round.{Command, get_expired, reset, reset_all, handle_read, read_timerfd}
use qslary.Timer.Round.Due.{member, has_address}
use qslary.Timer.Round.Forgotten.{all_rest}
use qslary.Timer.Round.Expiry.{get_expired-IsManaged}
use qslary.Timer.Round.Restart.{restarted, time_fits, started, starts_at, reset_all-IsManaged}
use qslary.Timer.Round.Rearm.{is_rearmed, rearm-IsManaged}
use qslary.Timer.Round.Called.{calls_fresh, calls_cancel, Called}
use qslary.Timer.Round.Calls.{run_expired-Called}

-- The state in which the callbacks run.
abbrev calling_state : TimerManger → TimerManger
calling_state m = record m { calling_expired_timers = true; canceling_timers = [] }

abbrev pub round_fresh : (Address → List Command) → Timestamp → TimerManger → Bool
round_fresh callback now m = elim (get_expired now (record m { armed = none })) [
  | none ↦ true
  | some (es, m') ↦ calls_fresh callback es (calling_state m')
]

-- Whether a callback that runs in the round cancels the timer.
abbrev pub round_cancels : (Address × ℕ) → (Address → List Command) → Timestamp → TimerManger → Bool
round_cancels id callback now m = elim (get_expired now (record m { armed = none })) [
  | none ↦ false
  | some (es, m') ↦ calls_cancel id callback es
]

-- What becomes of a timer that was due.
abbrev pub outcome :
    (Address → List Command) → Timestamp → Address → Timer → TimerManger → Option Timer
outcome callback now at timer m =
    if timer.recurring && not (round_cancels (at, timer.sequence) callback now m)
    then some (restarted now timer)
    else none

all_rest-member :
    (when : Timestamp) (at : Address) (es : List Entry) (m : TimerManger)
    → all_rest es m ≡ true
    → member (when, at) es ≡ true
    → (has_address at es ≡ true) × (rests at m ≡ true)
all_rest-member when at [] m r i = absurd (ground arith)
all_rest-member when at ((t, other) ∷ es) m r i = elim (Bool-cases (other == at)) [
  | inl e ↦ (ground arith, ground arith)
  | inr e ↦
      let (a, b) = all_rest-member when at es m (and_right (rests other m) _ r) (ground arith) in
      (ground arith, b)
]

reset-IsManaged :
    (now : Timestamp) (es : List Entry) (m : TimerManger)
    → ((m1 : TimerManger) × (reset_all now es m ≡ some m1)
        × IsManaged m1
        × ((j : Address) → object j m1 ≡ (if has_address j es then started now j m else object j m))
        × ((when : Timestamp) (j : Address)
            → contains (when, j) m1.timers ≡ (
                contains (when, j) m.timers
                || (has_address j es && starts_at when (started now j m)))))
    → (m' : TimerManger) × (reset es now m ≡ some m')
      × IsManaged m'
      × (is_rearmed m' ≡ true)
      × ((j : Address) → object j m' ≡ (if has_address j es then started now j m else object j m))
      × ((when : Timestamp) (j : Address)
          → contains (when, j) m'.timers ≡ (
              contains (when, j) m.timers
              || (has_address j es && starts_at when (started now j m))))
unfolding reset
reset-IsManaged now es m (m1, ran1, h1, os, ts) =
    let (m2, ran2, h2, armed, (o, t)) = rearm-IsManaged m1 h1 in
    (
      m2,
      rw ran1 ran2,
      h2,
      armed,
      (λ j. ap (λ x. OrdMap.find ltb j x) o ∙ os j),
      (λ when j. ap (contains (when, j)) t ∙ ts when j),
    )

all_rest-with :
    (canceling : PairSet) (calling : Bool) (es : List Entry) (m : TimerManger)
    → all_rest es m ≡ true
    → all_rest es (record m { canceling_timers = canceling; calling_expired_timers = calling })
      ≡ true
all_rest-with canceling calling [] m r = refl
all_rest-with canceling calling ((when, at) ∷ es) m r =
    ground (arith, all_rest-with canceling calling es m (and_right (rests at m) _ r))

-- The callbacks leave the intervals of the expired timers as they are.
fits-Called :
    (noted : ActiveTimer → Bool) (now : Timestamp) (m m1 m3 : TimerManger)
    → m1.objects ≡ m.objects
    → Called noted m1 m3
    → (j : Address) → rests j m1 ≡ true
    → time_fits now j m ≡ true
    → time_fits now j m3 ≡ true
fits-Called noted now m m1 m3 same called j resting fits =
    let same1 : object j m1 ≡ object j m = ap (λ x. OrdMap.find ltb j x) same in
    let same3 : object j m3 ≡ object j m1 = ground (arith, called.objects_right j) in ground arith

has_address-rests :
    (j : Address) (es : List Entry) (m : TimerManger)
    → all_rest es m ≡ true
    → has_address j es ≡ true
    → rests j m ≡ true
has_address-rests j [] m r i = absurd (ground arith)
has_address-rests j ((t, other) ∷ es) m r i = elim (Bool-cases (has_address j es)) [
  | inl k ↦ has_address-rests j es m (and_right (rests other m) _ r) k
  | inr k ↦ ground arith
]

nothing_noted : (id : ℕ × ℕ) → contains id [] ≡ false
unfolding contains OrdMap.find
nothing_noted id = refl

-- The parts of a round put together, for one timer that was due.
module _ (callback : Address → List Command) (now : Timestamp) (es : List Entry)
    (m m1 m3 m5 : TimerManger) (ran : get_expired now (record m { armed = none }) ≡ some (es, m1))
    (resting : all_rest es m1 ≡ true) (same_objects : m1.objects ≡ m.objects)
    (called : Called (λ id. calls_cancel id callback es) (calling_state m1) m3)
    (os : (j : Address)
      → object j m5 ≡ (
          if has_address j es
          then started now j (record m3 { calling_expired_timers = false })
          else object j (record m3 { calling_expired_timers = false })))
    (ts : (t : Timestamp) (j : Address)
      → contains (t, j) m5.timers ≡ (
          contains (t, j) m3.timers
          || (has_address j es
              && starts_at t (started now j (record m3 { calling_expired_timers = false })))))
    (when : Timestamp) (at : Address) (timer : Timer) (due : member (when, at) es ≡ true)
    (here : object at m ≡ some timer) where
  rested : rests at m1 ≡ true
  rested = (all_rest-member when at es m1 resting due).1

  among : has_address at es ≡ true
  among = (all_rest-member when at es m1 resting due).0

  started-outcome :
      started now at (record m3 { calling_expired_timers = false })
      ≡ outcome callback now at timer m
  started-outcome =
      let here1 : object at (calling_state m1) ≡ some timer =
        ap (λ x. OrdMap.find ltb at x) same_objects ∙ here in
      let rested1 : rests at (calling_state m1) ≡ true = rested in
      let here3 : object at m3 ≡ some timer = ground (arith, called.objects_right at) in
      ground
        (arith, ran, called.notes_right at timer here1 rested, nothing_noted (at, timer.sequence))

  object-outcome : object at m5 ≡ outcome callback now at timer m
  object-outcome = rw among at (os at) ∙ started-outcome

  not_listed_yet : (t : Timestamp) → contains (t, at) m3.timers ≡ false
  not_listed_yet t = ground (arith, called.rests_right at, rested, called.managed.timers_right t at)

  timers-outcome :
      (t : Timestamp) → contains (t, at) m5.timers ≡ starts_at t (outcome callback now at timer m)
  timers-outcome t =
      ground (arith, ts t at, not_listed_yet t, among, ap (starts_at t) started-outcome)

module _ (callback : Address → List Command) (now : Timestamp) (m : TimerManger) (h : IsManaged m)
    (fresh : round_fresh callback now m ≡ true)
    (fits : (j : Address) → time_fits now j m ≡ true) where
  handle_read_all :
      (m' : TimerManger) × (handle_read (pos 8) callback now m ≡ some m')
      × IsManaged m'
      × (is_rearmed m' ≡ true)
      × ((when : Timestamp) (at : Address) (timer : Timer)
          → contains (when, at) m.timers ≡ true
          → leb when now ≡ true
          → object at m ≡ some timer
          → (object at m' ≡ outcome callback now at timer m)
            × ((t : Timestamp)
                → contains (t, at) m'.timers ≡ starts_at t (outcome callback now at timer m)))
  unfolding handle_read
  handle_read_all =
      let (es, m1, ran1, h1, (r1, (d, s)), at_due, (os1, rest1)) =
        get_expired-IsManaged now (record m { armed = none }) (IsManaged-with _ _ _ _ m h) in
      let h2 : IsManaged (calling_state m1) = IsManaged-with _ _ _ _ m1 h1 in
      let (m3, ran3, called, r3) =
        run_expired-Called callback es (calling_state m1) h2 refl (all_rest-with [] true es m1 r1)
          (ground arith) in
      let h4 : IsManaged (record m3 { calling_expired_timers = false }) =
        IsManaged-with _ _ _ _ m3 called.managed in
      let (m5, ran5, h5, armed, os, ts) =
        reset-IsManaged now es (record m3 { calling_expired_timers = false })
          (reset_all-IsManaged now es (record m3 { calling_expired_timers = false }) h4
            (all_rest-with _ false es m3 r3) d s
            (λ j i.
              fits-Called (λ id. calls_cancel id callback es) now m (calling_state m1) m3 os1 called
                j (has_address-rests j es m1 r1 i) (fits j))) in
      (
        m5,
        rw ran1 (rw ran3 ran5),
        h5,
        armed,
        (λ when at timer listed due here.
            let is_member : member (when, at) es ≡ true = ground (arith, (at_due when at).0) in
            (
              object-outcome callback now es m m1 m3 m5 ran1 r1 os1 called os ts when at timer
                  is_member here,
              timers-outcome callback now es m m1 m3 m5 ran1 r1 os1 called os ts when at timer
                  is_member here,
            )),
      )

  not_fired : (n : ℤ) → n ≢ pos 8 → handle_read n callback now m ≡ none
  unfolding handle_read read_timerfd
  not_fired (pos n) other = elim (Bool-cases (n == 8)) [
    | inl e ↦ absurd (other (ap pos ((==_iff n 8).0 e)))
    | inr e ↦ rw e refl
  ]
  not_fired (negsuc n) other = refl

  -- A round, run when the sets agree and the descriptor has fired, with callbacks whose new timers have
  -- free addresses and at a time from which no interval of a recurring timer leads past the end of
  -- `int64_t`, fails no assertion and uses no deleted timer. The sets agree afterwards, and the
  -- descriptor is set for the time of the first timer, if that is a valid time. If the read of the
  -- descriptor does not give its eight bytes, the round fails its first assertion.
  pub handle_read-IsManaged :
      (m' : TimerManger) × (handle_read (pos 8) callback now m ≡ some m')
      × IsManaged m'
      × (is_rearmed m' ≡ true)
      × ((n : ℤ) → n ≢ pos 8 → handle_read n callback now m ≡ none)
  handle_read-IsManaged =
      let (m', ran, h', armed, rest) = handle_read_all in (m', ran, h', armed, not_fired)

  module _ (when : Timestamp) (at : Address) (timer : Timer)
      (listed : contains (when, at) m.timers ≡ true) (due : leb when now ≡ true)
      (here : object at m ≡ some timer) where
    -- In such a round, a recurring timer that is due, and that no callback of the round cancels, is
    -- active afterwards, for its interval after the time of the round.
    pub handle_read-restarts :
        timer.recurring ≡ true
        → round_cancels (at, timer.sequence) callback now m ≡ false
        → (m' : TimerManger) × (handle_read (pos 8) callback now m ≡ some m')
          × (object at m' ≡ some (restarted now timer))
          × (contains (now + timer.interval.micro_seconds, at) m'.timers ≡ true)
          × (contains (at, timer.sequence) m'.active_timers ≡ true)
    handle_read-restarts r c =
        let (m', ran, h', armed, rest) = handle_read_all in
        let (o, t) = rest when at timer listed due here in
        let there : contains (now + timer.interval.micro_seconds, at) m'.timers ≡ true =
          ground (arith, t (now + timer.interval.micro_seconds)) in
        (
          m',
          ran,
          ground (arith, o),
          there,
          ground (arith, o, h'.timers_right (now + timer.interval.micro_seconds) at),
        )

    -- In such a round, a timer that is due and not recurring, or that a callback of the round cancels, its own one or
    -- another's, is deleted by the round: it is not listed for any time.
    pub handle_read-stops :
        (timer.recurring && not (round_cancels (at, timer.sequence) callback now m)) ≡ false
        → (m' : TimerManger) × (handle_read (pos 8) callback now m ≡ some m')
          × (object at m' ≡ none)
          × ((t : Timestamp) → contains (t, at) m'.timers ≡ false)
          × ((sequence : ℕ) → contains (at, sequence) m'.active_timers ≡ false)
    handle_read-stops c =
        let (m', ran, h', armed, rest) = handle_read_all in
        let (o, t) = rest when at timer listed due here in
        let gone : object at m' ≡ none = ground (arith, o) in
        (
          m',
          ran,
          gone,
          (λ s. ground (arith, t s)),
          (λ sequence. ground (arith, h'.active_rights at sequence)),
        )
