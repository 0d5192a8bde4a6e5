-- ===== src/Base/PairSet.antt =====
-- `std::set` of pairs of numbers under `operator<`: a map to nothing.
use Prim.Native.Nat.{ℕ, ◌+◌}
use mathlib.Core.Path.{◌≡◌}
use mathlib.Core.Bool.{Bool, true, false, not, ◌&&◌, ◌||◌}
use mathlib.Core.Option.{none, some}
use mathlib.Core.List.{List}
use native.Mathlib.Omega.{arith}
use qslary.Base.Tests.{ltb, ◌==◌}
use qslary.Base.Lists.{length}
use qslary.Base.OrdMap.{
  StrictWeakOrder, find, insert, erase, equiv, IsSorted, find-insert, find-erase, insert-IsSorted,
  erase-IsSorted, length-insert, length-erase,
}

abbrev pub pair_less : ℕ × ℕ → ℕ × ℕ → Bool
pair_less (a, b) (c, d) = ltb a c || (not (ltb c a) && ltb b d)

abbrev pub same : ℕ × ℕ → ℕ × ℕ → Bool
same (a, b) (c, d) = (a == c) && (b == d)

abbrev pub PairSet : Type 0
PairSet = List ((ℕ × ℕ) × Unit {0})

unfoldable pub contains : ℕ × ℕ → PairSet → Bool
contains k m = elim (find pair_less k m) [ none ↦ false | some u ↦ true ]

-- `s.insert(k)` and `s.erase(k)`
unfoldable pub add : ℕ × ℕ → PairSet → PairSet
add k m = insert pair_less k tt m

unfoldable pub remove : ℕ × ℕ → PairSet → PairSet
remove k m = erase pair_less k m

abbrev pub IsOrdered : PairSet → Type 0
IsOrdered m = IsSorted pair_less m

pair_less-StrictWeakOrder : StrictWeakOrder pair_less
pair_less-StrictWeakOrder = record {
  irrefl = λ a. ground arith;
  trans = λ a b c h k. ground arith;
  not_trans = λ a b c h k. ground arith;
}

equiv_same : (j k : ℕ × ℕ) → equiv pair_less j k ≡ same j k
equiv_same (a, b) (c, d) = ground arith

pub contains-add : (j k : ℕ × ℕ) (m : PairSet) → contains j (add k m) ≡ (same k j || contains j m)
unfolding contains add
contains-add j k m =
    ground (arith, find-insert pair_less pair_less-StrictWeakOrder j k tt m, equiv_same k j)

pub contains-remove :
    (j k : ℕ × ℕ) (m : PairSet)
    → IsOrdered m
    → contains j (remove k m) ≡ (not (same k j) && contains j m)
unfolding contains remove
contains-remove j k m s =
    ground (arith, find-erase pair_less pair_less-StrictWeakOrder j k m s, equiv_same k j)

pub add-IsOrdered : (k : ℕ × ℕ) (m : PairSet) → IsOrdered m → IsOrdered (add k m)
unfolding add
add-IsOrdered k m s = insert-IsSorted pair_less pair_less-StrictWeakOrder k tt m s

pub remove-IsOrdered : (k : ℕ × ℕ) (m : PairSet) → IsOrdered m → IsOrdered (remove k m)
unfolding remove
remove-IsOrdered k m s = erase-IsSorted pair_less pair_less-StrictWeakOrder k m s

pub length-add : (k : ℕ × ℕ) (m : PairSet) → contains k m ≡ false → length (add k m) ≡ 1 + length m
unfolding contains add
length-add k m h = ground (arith, length-insert pair_less k tt m)

pub length-remove :
    (k : ℕ × ℕ) (m : PairSet) → contains k m ≡ true → length m ≡ 1 + length (remove k m)
unfolding contains remove
length-remove k m h = ground (arith, length-erase pair_less k m)
