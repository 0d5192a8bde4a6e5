-- ===== src/Base/Text.antt =====
-- Byte strings: a `std::string` is the list of its bytes. The C functions stop at a zero byte.
use Prim.Native.Nat.{ℕ, ◌+◌}
use Prim.Native.Char.{code}
use Prim.Native.String.{String}
use mathlib.Core.Path.{◌≡◌, refl}
use mathlib.Core.Bool.{Bool, true, false, not, ◌&&◌}
use mathlib.Core.List.{List, [], ◌∷◌, map}
use native.Mathlib.Omega.{arith}
use qslary.Base.Tests.{ltb, leb, ◌==◌, if◌then◌else◌}
use qslary.Base.OrdMap.{StrictWeakOrder}

abbrev pub Bytes : Type 0
Bytes = List ℕ

-- The bytes of an ASCII literal.
abbrev pub codes : String → Bytes
codes String.[] = []
codes (String.◌∷◌ c s) = code c ∷ codes s

unfoldable pub is_empty : Bytes → Bool
is_empty [] = true
is_empty (c ∷ cs) = false

unfoldable pub bytes_eq : Bytes → Bytes → Bool
bytes_eq [] [] = true
bytes_eq [] (d ∷ ds) = false
bytes_eq (c ∷ cs) [] = false
bytes_eq (c ∷ cs) (d ∷ ds) = (c == d) && bytes_eq cs ds

pub bytes_eq→eq : (a b : Bytes) → bytes_eq a b ≡ true → a ≡ b
unfolding bytes_eq
bytes_eq→eq [] [] h = refl
bytes_eq→eq [] (d ∷ ds) h = ground arith
bytes_eq→eq (c ∷ cs) [] h = ground arith
bytes_eq→eq (c ∷ cs) (d ∷ ds) h = ground (arith, bytes_eq→eq cs ds)

pub bytes_eq_refl : (a : Bytes) → bytes_eq a a ≡ true
unfolding bytes_eq
bytes_eq_refl [] = refl
bytes_eq_refl (c ∷ cs) = ground (arith, bytes_eq_refl cs)

-- `strncmp(name, s, strlen(name)) == 0`, for a name with no zero byte.
unfoldable pub starts_with : Bytes → Bytes → Bool
starts_with [] s = true
starts_with (c ∷ cs) [] = false
starts_with (c ∷ cs) (d ∷ ds) = (c == d) && starts_with cs ds

-- `s.c_str()` as the C functions read it.
unfoldable pub c_str : Bytes → Bytes
c_str [] = []
c_str (c ∷ cs) = if c == 0 then [] else c ∷ c_str cs

unfoldable pub to_lower : ℕ → ℕ
to_lower c = if leb b'A' c && leb c b'Z' then c + 32 else c

-- What `strcasecmp` compares.
unfoldable pub fold_case : Bytes → Bytes
unfolding to_lower c_str
fold_case s = map to_lower (c_str s)

unfoldable pub lex_lt : Bytes → Bytes → Bool
lex_lt [] [] = false
lex_lt [] (d ∷ ds) = true
lex_lt (c ∷ cs) [] = false
lex_lt (c ∷ cs) (d ∷ ds) = if c == d then lex_lt cs ds else ltb c d

-- `strcasecmp(a, b) < 0` and `strcasecmp(a, b) == 0`.
unfoldable pub strcasecmp_lt : Bytes → Bytes → Bool
strcasecmp_lt a b = lex_lt (fold_case a) (fold_case b)

unfoldable pub strcasecmp_eq : Bytes → Bytes → Bool
strcasecmp_eq a b = bytes_eq (fold_case a) (fold_case b)

lex_lt_irrefl : (a : Bytes) → lex_lt a a ≡ false
unfolding lex_lt
lex_lt_irrefl [] = refl
lex_lt_irrefl (c ∷ cs) = ground (arith, lex_lt_irrefl cs)

lex_lt_trans : (a b c : Bytes) → lex_lt a b ≡ true → lex_lt b c ≡ true → lex_lt a c ≡ true
unfolding lex_lt
lex_lt_trans [] [] c h k = ground arith
lex_lt_trans [] (y ∷ b) [] h k = ground arith
lex_lt_trans [] (y ∷ b) (z ∷ c) h k = refl
lex_lt_trans (x ∷ a) [] c h k = ground arith
lex_lt_trans (x ∷ a) (y ∷ b) [] h k = ground arith
lex_lt_trans (x ∷ a) (y ∷ b) (z ∷ c) h k = ground (arith, lex_lt_trans a b c)

lex_lt_not_trans : (a b c : Bytes) → lex_lt a b ≡ false → lex_lt b c ≡ false → lex_lt a c ≡ false
unfolding lex_lt
lex_lt_not_trans [] [] c h k = k
lex_lt_not_trans [] (y ∷ b) c h k = ground arith
lex_lt_not_trans (x ∷ a) [] [] h k = refl
lex_lt_not_trans (x ∷ a) [] (z ∷ c) h k = ground arith
lex_lt_not_trans (x ∷ a) (y ∷ b) [] h k = refl
lex_lt_not_trans (x ∷ a) (y ∷ b) (z ∷ c) h k = ground (arith, lex_lt_not_trans a b c)

-- Neither text is less exactly when they are the same.
lex_lt_tight : (a b : Bytes) → (not (lex_lt a b) && not (lex_lt b a)) ≡ bytes_eq a b
unfolding lex_lt bytes_eq
lex_lt_tight [] [] = refl
lex_lt_tight [] (y ∷ b) = refl
lex_lt_tight (x ∷ a) [] = refl
lex_lt_tight (x ∷ a) (y ∷ b) = ground (arith, lex_lt_tight a b)

pub strcasecmp_lt-StrictWeakOrder : StrictWeakOrder strcasecmp_lt
unfolding strcasecmp_lt
strcasecmp_lt-StrictWeakOrder = record {
  irrefl = λ a. lex_lt_irrefl (fold_case a);
  trans = λ a b c. lex_lt_trans (fold_case a) (fold_case b) (fold_case c);
  not_trans = λ a b c. lex_lt_not_trans (fold_case a) (fold_case b) (fold_case c);
}

pub strcasecmp_lt_tight :
    (a b : Bytes) → (not (strcasecmp_lt a b) && not (strcasecmp_lt b a)) ≡ strcasecmp_eq a b
unfolding strcasecmp_lt strcasecmp_eq
strcasecmp_lt_tight a b = lex_lt_tight (fold_case a) (fold_case b)
