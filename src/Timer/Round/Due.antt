-- ===== src/Timer/Round/Due.antt =====
-- The entries of an ordered set that are due, and those that are not.
use qslary.Base.{ℕ, ◌≡◌, refl, Bool, true, false, not, ◌&&◌, ◌||◌, List, [], ◌∷◌, ◌++◌, ◌==◌, arith}
use qslary.Base.OrdMap
use qslary.Base.OrdMap.{Above}
use qslary.Base.PairSet.{PairSet, pair_less, same, contains, remove, IsOrdered}
use qslary.Timer.{Timestamp, Address, Entry}
use qslary.Timer.Round.{take_expired, uintptr_max}

abbrev pub entries : List Entry → PairSet
entries [] = []
entries (e ∷ es) = (e, tt) ∷ entries es

abbrev pub member : Entry → List Entry → Bool
member j [] = false
member j (e ∷ es) = same e j || member j es

abbrev pub has_address : Address → List Entry → Bool
has_address at [] = false
has_address at ((when, other) ∷ es) = (other == at) || has_address at es

abbrev pub distinct : List Entry → Bool
distinct [] = true
distinct ((when, at) ∷ es) = not (has_address at es) && distinct es

abbrev pub all_in : List Entry → PairSet → Bool
all_in [] m = true
all_in (e ∷ es) m = contains e m && all_in es m

contains-Above :
    (k e : ℕ × ℕ) (m : PairSet) → Above pair_less e m → contains k m ≡ true → pair_less e k ≡ true
unfolding contains OrdMap.find
contains-Above k e [] a h = ground arith
contains-Above k e ((j, u) ∷ m) a h = ground (arith, a.0, contains-Above k e m a.1)

all_in-cons :
    (es : List Entry) (e : Entry) (m : PairSet)
    → Above pair_less e m
    → all_in es m ≡ true
    → all_in es ((e, tt) ∷ m) ≡ true
unfolding contains OrdMap.find
all_in-cons [] e m a h = refl
all_in-cons (f ∷ es) e m a h = ground (arith, contains-Above f e m a, all_in-cons es e m a)

-- What stands in front of an ordered set is in it.
pub all_in-front :
    (es : List Entry) (m : PairSet)
    → IsOrdered (entries es ++ m)
    → all_in es (entries es ++ m) ≡ true
unfolding contains OrdMap.find
all_in-front [] m s = refl
all_in-front (e ∷ es) m s =
    ground (arith, all_in-cons es e (entries es ++ m) s.0 (all_in-front es m s.1))

pub remove_front : (e : Entry) (m : PairSet) → remove e ((e, tt) ∷ m) ≡ m
unfolding remove OrdMap.erase
remove_front (when, at) m = ground arith

-- The set is what is due, in its order, and the rest.
pub take_expired-append :
    (now : Timestamp) (m : PairSet) → m ≡ entries (take_expired now m).0 ++ (take_expired now m).1
unfolding take_expired
take_expired-append now [] = refl
take_expired-append now ((e, u) ∷ m) = ground (arith, take_expired-append now m)

abbrev pub is_due : Timestamp → Entry → Bool
is_due now e = pair_less e (now, uintptr_max)

pub member-take_expired :
    (now : Timestamp) (j : Entry) (m : PairSet)
    → IsOrdered m
    → (member j (take_expired now m).0 ≡ (contains j m && is_due now j))
      × (contains j (take_expired now m).1 ≡ (contains j m && not (is_due now j)))
unfolding take_expired contains OrdMap.find
member-take_expired now j [] s = (refl, refl)
member-take_expired now j ((e, u) ∷ m) s =
    let ih = member-take_expired now j m s.1 in
    (ground (arith, ih.0, contains-Above j e m s.0), ground (arith, ih.1, contains-Above j e m s.0))
