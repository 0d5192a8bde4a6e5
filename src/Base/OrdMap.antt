-- ===== src/Base/OrdMap.antt =====
-- `std::map` over a comparison of keys: the entries in the order of iteration. A lookup walks to the
-- first key that is not less, as `lower_bound` does. The laws ask for a strict weak order.
use mathlib.Core.Path.{◌≡◌, refl}
use mathlib.Core.Bool.{Bool, true, false, not, ◌&&◌}
use mathlib.Core.Option.{Option, none, some}
use mathlib.Core.List.{List, [], ◌∷◌}
use native.Mathlib.Omega.{arith}
use Prim.Native.Nat.{◌+◌}
use qslary.Base.Tests.{if◌then◌else◌}
use qslary.Base.Lists.{length}

-- What the standard asks of a comparison.
pub record StrictWeakOrder {K : Type 0} (less : K → K → Bool) : Type 0 where
  pub irrefl : (a : K) → less a a ≡ false
  pub trans : (a b c : K) → less a b ≡ true → less b c ≡ true → less a c ≡ true
  pub not_trans : (a b c : K) → less a b ≡ false → less b c ≡ false → less a c ≡ false

module _ {K : Type 0} (less : K → K → Bool) where
  -- Two keys are the same to the map if neither is less.
  abbrev pub equiv : K → K → Bool
  equiv a b = not (less a b) && not (less b a)

module _ {K V : Type 0} (less : K → K → Bool) where
  -- `m.find(k)`
  unfoldable pub find : K → List (K × V) → Option V
  find k [] = none
  find k ((j, v) ∷ m) =
      let rest = find k m in if less j k then rest else if less k j then none else some v

  -- `m[k] = v`; the old key stays.
  unfoldable pub assign : K → V → List (K × V) → List (K × V)
  assign k v [] = (k, v) ∷ []
  assign k v ((j, w) ∷ m) =
      let rest = assign k v m in
      if less j k then (j, w) ∷ rest else if less k j then (k, v) ∷ (j, w) ∷ m else (j, v) ∷ m

  -- `m.insert({k, v})`; an old entry stays.
  unfoldable pub insert : K → V → List (K × V) → List (K × V)
  insert k v [] = (k, v) ∷ []
  insert k v ((j, w) ∷ m) =
      let rest = insert k v m in
      if less j k then (j, w) ∷ rest else if less k j then (k, v) ∷ (j, w) ∷ m else (j, w) ∷ m

  -- `m.erase(k)`
  unfoldable pub erase : K → List (K × V) → List (K × V)
  erase k [] = []
  erase k ((j, w) ∷ m) =
      let rest = erase k m in if less j k then (j, w) ∷ rest else if less k j then (j, w) ∷ m else m

  -- All keys come after `k`.
  abbrev pub Above : K → List (K × V) → Type 0
  Above k [] = Unit {0}
  Above k ((j, v) ∷ m) = (less k j ≡ true) × Above k m

  abbrev pub IsSorted : List (K × V) → Type 0
  IsSorted [] = Unit {0}
  IsSorted ((j, v) ∷ m) = Above j m × IsSorted m

module _ {K V : Type 0} (less : K → K → Bool) (o : StrictWeakOrder less) where
  pub find-assign :
      (j k : K) (v : V) (m : List (K × V))
      → find less j (assign less k v m) ≡ (if equiv less k j then some v else find less j m)
  unfolding find assign
  find-assign j k v [] = ground arith
  find-assign j k v ((i, w) ∷ m) = ground (
    arith,
    find-assign j k v m,
    o.trans i k j,
    o.trans j k i,
    o.not_trans i k j,
    o.not_trans j k i,
    o.not_trans k i j,
    o.not_trans j i k,
    o.not_trans i j k,
    o.not_trans k j i,
  )

  pub find-insert :
      (j k : K) (v : V) (m : List (K × V))
      → find less j (insert less k v m) ≡ (
          if equiv less k j
          then (elim (find less k m) [ none ↦ some v | some w ↦ some w ])
          else find less j m)
  unfolding find insert
  find-insert j k v [] = ground arith
  find-insert j k v ((i, w) ∷ m) = ground (
    arith,
    find-insert j k v m,
    o.trans i k j,
    o.trans j k i,
    o.not_trans i k j,
    o.not_trans j k i,
    o.not_trans k i j,
    o.not_trans j i k,
    o.not_trans i j k,
    o.not_trans k j i,
  )

  Above-mono : (j k : K) (m : List (K × V)) → less j k ≡ true → Above less k m → Above less j m
  Above-mono j k [] h a = tt
  Above-mono j k ((i, v) ∷ m) h a = (o.trans j k i h a.0, Above-mono j k m h a.1)

  Above-not_less : (j k : K) (m : List (K × V)) → less k j ≡ false → Above less k m → Above less j m
  Above-not_less j k [] h a = tt
  Above-not_less j k ((i, v) ∷ m) h a =
      (ground (arith, a.0, o.not_trans k j i), Above-not_less j k m h a.1)

  find-Above : (j : K) (m : List (K × V)) → Above less j m → find less j m ≡ none
  unfolding find
  find-Above j [] a = refl
  find-Above j ((i, v) ∷ m) a = ground (arith, a.0, o.trans j i j, o.irrefl j)

  pub find-erase :
      (j k : K) (m : List (K × V))
      → IsSorted less m
      → find less j (erase less k m) ≡ (if equiv less k j then none else find less j m)
  unfolding find erase
  find-erase j k [] s = ground arith
  find-erase j k ((i, w) ∷ m) s = ground (
    arith,
    find-erase j k m s.1,
    find-Above j m,
    Above-not_less j i m,
    Above-mono j i m,
    s.0,
    o.trans i k j,
    o.trans j k i,
    o.not_trans i k j,
    o.not_trans j k i,
    o.not_trans k i j,
    o.not_trans j i k,
    o.not_trans i j k,
    o.not_trans k j i,
  )

  Above-assign :
      (i k : K) (v : V) (m : List (K × V))
      → less i k ≡ true
      → Above less i m
      → Above less i (assign less k v m)
  unfolding assign
  Above-assign i k v [] h a = (h, tt)
  Above-assign i k v ((j, w) ∷ m) h a = ground (arith, a.0, a.1, Above-assign i k v m h a.1)

  pub assign-IsSorted :
      (k : K) (v : V) (m : List (K × V)) → IsSorted less m → IsSorted less (assign less k v m)
  unfolding assign
  assign-IsSorted k v [] s = (tt, tt)
  assign-IsSorted k v ((j, w) ∷ m) s =
      ground (arith, assign-IsSorted k v m s.1, Above-assign j k v m, Above-mono k j m, s.0, s.1)

  Above-insert :
      (i k : K) (v : V) (m : List (K × V))
      → less i k ≡ true
      → Above less i m
      → Above less i (insert less k v m)
  unfolding insert
  Above-insert i k v [] h a = (h, tt)
  Above-insert i k v ((j, w) ∷ m) h a = ground (arith, a.0, a.1, Above-insert i k v m h a.1)

  pub insert-IsSorted :
      (k : K) (v : V) (m : List (K × V)) → IsSorted less m → IsSorted less (insert less k v m)
  unfolding insert
  insert-IsSorted k v [] s = (tt, tt)
  insert-IsSorted k v ((j, w) ∷ m) s =
      ground (arith, insert-IsSorted k v m s.1, Above-insert j k v m, Above-mono k j m, s.0, s.1)

  Above-erase : (i k : K) (m : List (K × V)) → Above less i m → Above less i (erase less k m)
  unfolding erase
  Above-erase i k [] a = tt
  Above-erase i k ((j, w) ∷ m) a = ground (arith, a.0, a.1, Above-erase i k m a.1)

  pub erase-IsSorted : (k : K) (m : List (K × V)) → IsSorted less m → IsSorted less (erase less k m)
  unfolding erase
  erase-IsSorted k [] s = tt
  erase-IsSorted k ((j, w) ∷ m) s =
      ground (arith, erase-IsSorted k m s.1, Above-erase j k m, s.0, s.1)

-- An insertion and an erasure walk where a lookup walks.
module _ {K V : Type 0} (less : K → K → Bool) where
  pub length-insert :
      (k : K) (v : V) (m : List (K × V))
      → length (insert less k v m)
        ≡ (elim (find less k m) [ none ↦ 1 + length m | some w ↦ length m ])
  unfolding insert find
  length-insert k v [] = refl
  length-insert k v ((j, w) ∷ m) = ground (arith, length-insert k v m)

  pub length-erase :
      (k : K) (m : List (K × V))
      → length m ≡ (elim (find less k m) [ none ↦ 0 | some w ↦ 1 ]) + length (erase less k m)
  unfolding erase find
  length-erase k [] = refl
  length-erase k ((j, w) ∷ m) = ground (arith, length-erase k m)
