-- ===== src/Http/Headers.antt =====
-- The maps of headers, parameters and cookies of http/Http.h: `std::map` under
-- `CaseInsensitiveLess`.
use qslary.Base.{◌≡◌, Bool, true, false, Option, none, some, List, [], if◌then◌else◌, arith}
use qslary.Base.Text.{
  Bytes, strcasecmp_lt, strcasecmp_eq, strcasecmp_lt-StrictWeakOrder, strcasecmp_lt_tight,
}
use qslary.Base.OrdMap.{
  find, assign, erase, find-assign, find-erase, IsSorted, assign-IsSorted, erase-IsSorted,
}

abbrev pub HttpMap : Type 0
HttpMap = List (Bytes × Bytes)

-- `CaseInsensitiveLess`
abbrev pub case_insensitive_less : Bytes → Bytes → Bool
case_insensitive_less lhs rhs = strcasecmp_lt lhs rhs

-- The value under the key, or the empty text.
or_empty : Option Bytes → Bytes
or_empty none = []
or_empty (some v) = v

unfoldable pub get_entry : Bytes → HttpMap → Bytes
unfolding or_empty
get_entry key m = or_empty (find case_insensitive_less key m)

unfoldable pub has_entry : Bytes → HttpMap → Bool
has_entry key m = elim (find case_insensitive_less key m) [ none ↦ false | some v ↦ true ]

unfoldable pub set_entry : Bytes → Bytes → HttpMap → HttpMap
set_entry key value m = assign case_insensitive_less key value m

unfoldable pub del_entry : Bytes → HttpMap → HttpMap
del_entry key m = erase case_insensitive_less key m

-- `getAs` with the conversion `lexical_cast`, which may throw; the result and the caller's `value`.
unfoldable pub get_as {ℓ} : {A : Type ℓ} → (Bytes → Option A) → Bytes → HttpMap → A → Bool × A
get_as cast key m value = elim (find case_insensitive_less key m) [
  | none ↦ (false, value)
  | some text ↦ elim (cast text) [ none ↦ (false, value) | some a ↦ (true, a) ]
]

abbrev pub IsOrdered : HttpMap → Type 0
IsOrdered m = IsSorted case_insensitive_less m

pub find-set_entry :
    (j k v : Bytes) (m : HttpMap)
    → find case_insensitive_less j (set_entry k v m)
      ≡ (if strcasecmp_eq k j then some v else find case_insensitive_less j m)
unfolding set_entry
find-set_entry j k v m =
    rw (find-assign strcasecmp_lt strcasecmp_lt-StrictWeakOrder j k v m, strcasecmp_lt_tight k j)

pub get_entry-set_entry :
    (j k v : Bytes) (m : HttpMap)
    → get_entry j (set_entry k v m) ≡ (if strcasecmp_eq k j then v else get_entry j m)
unfolding get_entry
get_entry-set_entry j k v m = ground (arith, find-set_entry j k v m)

pub has_entry-set_entry :
    (j k v : Bytes) (m : HttpMap)
    → has_entry j (set_entry k v m) ≡ (if strcasecmp_eq k j then true else has_entry j m)
unfolding has_entry
has_entry-set_entry j k v m = ground (arith, find-set_entry j k v m)

find-del_entry :
    (j k : Bytes) (m : HttpMap)
    → IsOrdered m
    → find case_insensitive_less j (del_entry k m)
      ≡ (if strcasecmp_eq k j then none else find case_insensitive_less j m)
unfolding del_entry
find-del_entry j k m s =
    rw (find-erase strcasecmp_lt strcasecmp_lt-StrictWeakOrder j k m s, strcasecmp_lt_tight k j)

pub get_entry-del_entry :
    (j k : Bytes) (m : HttpMap)
    → IsOrdered m
    → get_entry j (del_entry k m) ≡ (if strcasecmp_eq k j then [] else get_entry j m)
unfolding get_entry
get_entry-del_entry j k m s = ground (arith, find-del_entry j k m s)

pub has_entry-del_entry :
    (j k : Bytes) (m : HttpMap)
    → IsOrdered m
    → has_entry j (del_entry k m) ≡ (if strcasecmp_eq k j then false else has_entry j m)
unfolding has_entry
has_entry-del_entry j k m s = ground (arith, find-del_entry j k m s)

pub set_entry-IsOrdered : (k v : Bytes) (m : HttpMap) → IsOrdered m → IsOrdered (set_entry k v m)
unfolding set_entry
set_entry-IsOrdered k v m s = assign-IsSorted strcasecmp_lt strcasecmp_lt-StrictWeakOrder k v m s

pub del_entry-IsOrdered : (k : Bytes) (m : HttpMap) → IsOrdered m → IsOrdered (del_entry k m)
unfolding del_entry
del_entry-IsOrdered k m s = erase-IsSorted strcasecmp_lt strcasecmp_lt-StrictWeakOrder k m s

pub get_as-set_entry {ℓ} :
    {A : Type ℓ} (cast : Bytes → Option A) (j k v : Bytes) (m : HttpMap) (value a : A)
    → cast v ≡ some a
    → strcasecmp_eq k j ≡ true
    → get_as cast j (set_entry k v m) value ≡ (true, a)
unfolding get_as
get_as-set_entry cast j k v m value a ok same =
    rw (find-set_entry j k v m, same, get_as) (rw (ok, get_as))
