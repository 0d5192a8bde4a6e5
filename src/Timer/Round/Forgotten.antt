-- ===== src/Timer/Round/Forgotten.antt =====
-- Taking the expired timers off the active ones.
use qslary.Base.{
  ℕ, ◌≡◌, refl, ap, subst, ◌∙◌, Bool, true, false, not, ◌&&◌, some, List, [], ◌∷◌, ◌++◌, ltb,
  if◌then◌else◌, Option-cases, and_left, and_right, inl, inr, arith,
}
use qslary.Base.OrdMap
use qslary.Base.PairSet.{contains, remove, contains-remove}
use qslary.Timer.{Timestamp, Address, Timer, Entry, TimerManger, object}
use qslary.Timer.Managed.{IsManaged, max_address, rests, without_active-IsManaged}
use qslary.Timer.Round.{forget_active}
use qslary.Timer.Round.Due.{entries, has_address, distinct, all_in, all_in-front, remove_front}

-- The expired timers are alive, and active no more.
abbrev pub all_rest : List Entry → TimerManger → Bool
all_rest [] m = true
all_rest ((when, at) ∷ es) m = rests at m && all_rest es m

-- A timer that is not active is none of those that are listed.
not_listed :
    (at : Address) (m : TimerManger)
    → IsManaged m
    → rests at m ≡ true
    → (es : List Entry) → all_in es m.timers ≡ true
    → has_address at es ≡ false
not_listed at m h r [] a = refl
not_listed at m h r ((when, other) ∷ es) a = ground (
  arith,
  h.timers_right when other,
  not_listed at m h r es (and_right (contains (when, other) m.timers) _ a),
)

-- The addresses are below that of the entry which `getExpired` searches for.
abbrev pub all_small : List Entry → Bool
all_small [] = true
all_small ((when, at) ∷ es) = ltb at max_address && all_small es

pub all_in-all_small :
    (m : TimerManger)
    → IsManaged m
    → (es : List Entry) → all_in es m.timers ≡ true
    → all_small es ≡ true
all_in-all_small m h [] a = refl
all_in-all_small m h ((when, at) ∷ es) a = ground (
  arith,
  h.timers_right when at,
  all_in-all_small m h es (and_right (contains (when, at) m.timers) _ a),
)

-- The state with some entries put back in front of `timers_`.
abbrev pub with_entries : List Entry → TimerManger → TimerManger
with_entries es m = record m { timers = entries es ++ m.timers }

-- No timer becomes active.
abbrev NoneNew : TimerManger → TimerManger → Type 0
NoneNew m m' =
    (k : ℕ × ℕ)
    → (if contains k m.active_timers then true else not (contains k m'.active_timers)) ≡ true

all_rest-NoneNew :
    (es : List Entry) (m m' : TimerManger)
    → m'.objects ≡ m.objects
    → NoneNew m m'
    → all_rest es m ≡ true
    → all_rest es m' ≡ true
all_rest-NoneNew [] m m' e n h = refl
all_rest-NoneNew ((when, at) ∷ es) m m' e n h = elim (Option-cases (object at m)) [
  | inl gone ↦ ground arith
  | inr (timer, here) ↦ ground (
    arith,
    n (at, timer.sequence),
    all_rest-NoneNew es m m' e n,
    ap (λ os. OrdMap.find ltb at os) e,
  )
]

-- What the loop over the expired timers leaves.
pub record Forgotten (es : List Entry) (m m' : TimerManger) : Type 0 where
  pub managed : IsManaged m'
  pub same_timers : m'.timers ≡ m.timers
  pub same_objects : m'.objects ≡ m.objects
  pub same_rest : (m'.num_created ≡ m.num_created) × (m'.armed ≡ m.armed)
  pub none_new : NoneNew m m'
  pub resting : all_rest es m' ≡ true
  pub apart : distinct es ≡ true

front_contained :
    (e : Entry) (es : List Entry) (m : TimerManger)
    → IsManaged (with_entries (e ∷ es) m)
    → contains e (entries (e ∷ es) ++ m.timers) ≡ true
front_contained e es m h =
    and_left _ (all_in es (entries (e ∷ es) ++ m.timers))
      (all_in-front (e ∷ es) m.timers h.timers_sorted)

-- The state with a timer off the active ones.
abbrev quieted : Address → Timer → TimerManger → TimerManger
quieted at timer m = record m { active_timers = remove (at, timer.sequence) m.active_timers }

module _ (when : Timestamp) (at : Address) (es : List Entry) (m : TimerManger) (timer : Timer)
    (h : IsManaged (with_entries ((when, at) ∷ es) m)) (here : object at m ≡ some timer) where
  was_active : contains (at, timer.sequence) m.active_timers ≡ true
  was_active = ground (arith, h.timers_right when at, front_contained (when, at) es m h)

  its_time : timer.expiration ≡ when
  its_time = ground (arith, h.timers_right when at, front_contained (when, at) es m h)

  quieted-IsManaged : IsManaged (with_entries es (quieted at timer m))
  quieted-IsManaged =
      subst (λ ts. IsManaged (record (quieted at timer m) { timers = ts }))
        (ap (λ t. remove (t, at) (entries ((when, at) ∷ es) ++ m.timers)) its_time
          ∙ remove_front (when, at) (entries es ++ m.timers))
        (without_active-IsManaged at timer (with_entries ((when, at) ∷ es) m) h m.objects here
          was_active h.objects_sorted (λ j. ground arith))

  rests-quieted : rests at (quieted at timer m) ≡ true
  rests-quieted = ground (
    arith,
    contains-remove (at, timer.sequence) (at, timer.sequence) m.active_timers h.active_sorted,
  )

  quieted_apart : has_address at es ≡ false
  quieted_apart =
      not_listed at (with_entries es (quieted at timer m)) quieted-IsManaged rests-quieted es
        (all_in-front es m.timers quieted-IsManaged.timers_sorted)

  step-Forgotten :
      (m' : TimerManger) → Forgotten es (quieted at timer m) m' → Forgotten ((when, at) ∷ es) m m'
  step-Forgotten m' f = record {
    managed = f.managed;
    same_timers = f.same_timers;
    same_objects = f.same_objects;
    same_rest = f.same_rest;
    none_new = λ k. ground (
      arith,
      f.none_new k,
      contains-remove k (at, timer.sequence) m.active_timers h.active_sorted,
    );
    resting = ground (
      arith,
      f.resting,
      f.none_new (at, timer.sequence),
      rests-quieted,
      ap (λ os. OrdMap.find ltb at os) f.same_objects,
    );
    apart = ground (arith, quieted_apart, f.apart);
  }

pub forget_active-Forgotten :
    (es : List Entry) (m : TimerManger)
    → IsManaged (with_entries es m)
    → (m' : TimerManger) × (forget_active es m ≡ some m') × Forgotten es m m'
unfolding forget_active
forget_active-Forgotten [] m h = (
  m,
  refl,
  record {
    managed = h;
    same_timers = refl;
    same_objects = refl;
    same_rest = (refl, refl);
    none_new = λ k. ground arith;
    resting = refl;
    apart = refl;
  },
)
forget_active-Forgotten ((when, at) ∷ es) m h = elim (Option-cases (object at m)) [
  | inl gone ↦ absurd (ground (arith, h.timers_right when at, front_contained (when, at) es m h))
  | inr (timer, here) ↦
      let (m', ran, f) =
        forget_active-Forgotten es (quieted at timer m)
          (quieted-IsManaged when at es m timer h here) in
      (
        m',
        rw (here, was_active when at es m timer h here) ran,
        step-Forgotten when at es m timer h here m' f,
      )
]
