-- ===== src/ByteArray/Zigzag.antt =====
-- The zigzag code of net/ByteArray.cc, `EncodeZigzag32`, `EncodeZigzag64` and their inverses, at a
-- width of j + 1 bits. A signed overflow is a fault.
use Prim.Native.Nat.{bit_and, bit_xor}
use native.Mathlib.Nat.{pow-suc, one-le-pow, mod-eq_of_lt, add-mod_right}
use qslary.Base.{
  refl, ltb→lt, Bool-cases, inl, inr, Bool, true, false, ℕ, zero, suc, ◌+◌, ◌-◌, ◌*◌, ◌/◌, ◌%◌, ◌^◌,
  ◌<◌, ◌≡◌, Option, none, some, ltb, if◌then◌else◌, arith,
}
use qslary.Base.Bits.{bit_xor-ones, bit_xor-zero, bit_and-one}
use qslary.Base.Fault.{◌>>=◌}
use qslary.Base.Int.{ℤ, pos, negsuc, of_pattern}

-- The result of a signed operation, if j + 1 bits hold it.
unfoldable pub signed : ℕ → ℤ → Option ℤ
signed j (pos n) = if ltb n (2 ^ j) then some (pos n) else none
signed j (negsuc n) = if ltb n (2 ^ j) then some (negsuc n) else none

-- `-v`
unfoldable pub negate : ℕ → ℤ → Option ℤ
unfolding signed
negate j (pos zero) = signed j (pos 0)
negate j (pos (suc n)) = signed j (negsuc n)
negate j (negsuc n) = signed j (pos (suc n))

-- `v * k` for a positive k.
unfoldable pub multiply : ℕ → ℤ → ℕ → Option ℤ
unfolding signed
multiply j (pos n) k = signed j (pos (n * k))
multiply j (negsuc n) k = signed j (negsuc (suc n * k - 1))

-- The conversion to the unsigned type.
abbrev pub to_unsigned : ℕ → ℤ → ℕ
to_unsigned j (pos n) = n % 2 ^ suc j
to_unsigned j (negsuc n) = 2 ^ suc j - 1 - n % 2 ^ suc j

abbrev pub is_negative : ℤ → Bool
is_negative (pos n) = false
is_negative (negsuc n) = true

unfoldable pub encode_zigzag : ℕ → ℤ → Option ℕ
unfolding negate multiply
encode_zigzag j v =
    if is_negative v
    then (do
      opposite ← negate j v
      some ((to_unsigned j opposite * 2 + (2 ^ suc j - 1)) % 2 ^ suc j))
    else (do double ← multiply j v 2; some (to_unsigned j double))

unfoldable pub encode_zigzag32 : ℤ → Option ℕ
encode_zigzag32 v = encode_zigzag 31 v

unfoldable pub encode_zigzag64 : ℤ → Option ℕ
encode_zigzag64 v = encode_zigzag 63 v

-- `(v >> 1) ^ -(v & 1)`, and the conversion to the signed type.
unfoldable pub decode_zigzag : ℕ → ℕ → ℤ
decode_zigzag j v = of_pattern (2 ^ j) (bit_xor (v / 2) ((2 ^ suc j - bit_and v 1) % 2 ^ suc j))

unfoldable pub decode_zigzag32 : ℕ → ℤ
decode_zigzag32 v = decode_zigzag 31 v

unfoldable pub decode_zigzag64 : ℕ → ℤ
decode_zigzag64 v = decode_zigzag 63 v

decode_even : (j n : ℕ) → n < 2 ^ j → decode_zigzag j (n * 2) ≡ pos n
unfolding decode_zigzag of_pattern
decode_even j n h =
    let half : n * 2 / 2 ≡ n = omega arith in
    let low : bit_and (n * 2) 1 ≡ 0 = omega (arith, bit_and-one (n * 2)) in
    let wrap : (2 ^ suc j - 0) % 2 ^ suc j ≡ 0 = grind arith in
    rw (half, low, wrap, bit_xor-zero n) (ground arith)

decode_odd : (j n : ℕ) → n < 2 ^ j → decode_zigzag j (n * 2 + 1) ≡ negsuc n
unfolding decode_zigzag of_pattern
decode_odd j n h =
    let half : (n * 2 + 1) / 2 ≡ n = omega arith in
    let low : bit_and (n * 2 + 1) 1 ≡ 1 = omega (arith, bit_and-one (n * 2 + 1)) in
    let wrap : (2 ^ suc j - 1) % 2 ^ suc j ≡ 2 ^ suc j - 1 =
      mod-eq_of_lt (omega (arith, one-le-pow (suc j) 2)) in
    rw (half, low, wrap, bit_xor-ones (suc j) n (omega (arith, pow-suc 2 j)))
      (ground (arith, pow-suc 2 j, one-le-pow j 2))

positive_code : (j n : ℕ) → n * 2 < 2 ^ j → n * 2 % 2 ^ suc j ≡ n * 2
positive_code j n h = mod-eq_of_lt (omega (arith, pow-suc 2 j))

negative_code : (j n : ℕ) → suc n < 2 ^ j → (suc n * 2 + (2 ^ suc j - 1)) % 2 ^ suc j ≡ n * 2 + 1
negative_code j n h =
    let sum : suc n * 2 + (2 ^ suc j - 1) ≡ (n * 2 + 1) + 2 ^ suc j =
      omega (arith, one-le-pow (suc j) 2) in
    rw (sum, add-mod_right) (mod-eq_of_lt (omega (arith, pow-suc 2 j)))

negative_encoded :
    (j n : ℕ) → ltb (suc n) (2 ^ j) ≡ true → encode_zigzag j (negsuc n) ≡ some (n * 2 + 1)
unfolding encode_zigzag negate signed
negative_encoded j n fits =
    let small : suc n < 2 ^ j = ltb→lt _ _ fits in
    let same : suc n % 2 ^ suc j ≡ suc n = mod-eq_of_lt (omega (arith, pow-suc 2 j)) in
    rw (fits, same, negative_code j n small) refl

negative_overflow : (j n : ℕ) → ltb (suc n) (2 ^ j) ≡ false → encode_zigzag j (negsuc n) ≡ none
unfolding encode_zigzag negate signed
negative_overflow j n big = rw big refl

-- `DecodeZigzag` gives back every value that `EncodeZigzag` codes without overflow, at each width.
pub decode_zigzag-encode_zigzag :
    (j u : ℕ) (v : ℤ) → encode_zigzag j v ≡ some u → decode_zigzag j u ≡ v
unfolding encode_zigzag negate multiply signed
decode_zigzag-encode_zigzag j u (pos n) h =
    let fits : n * 2 < 2 ^ j = ground arith in
    let e : u ≡ n * 2 = ground (arith, positive_code j n fits) in
    rw e (decode_even j n (omega arith))
decode_zigzag-encode_zigzag j u (negsuc n) h = elim (Bool-cases (ltb (suc n) (2 ^ j))) [
  | inl fits ↦
      let e : u ≡ n * 2 + 1 = ground (arith, negative_encoded j n fits) in
      rw e (decode_odd j n (ground arith))
  | inr big ↦ absurd (ground (arith, negative_overflow j n big))
]
