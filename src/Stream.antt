-- ===== src/Stream.antt =====
-- net/Stream.h and net/Stream.cc: the virtual reads and writes, and the loops that transfer a fixed
-- number of bytes. A stream's state is a type S, its virtual functions are a record.
pub mod FixSize
pub mod Limits
use qslary.Base.{
  ℕ, zero, suc, ◌+◌, ◌-◌, ◌^◌, ◌≤◌, ◌≡◌, Bool, true, false, Option, none, some, [], ◌∷◌, ◌++◌, ltb,
  leb, ◌==◌, if◌then◌else◌, length, take, drop,
}
use qslary.Base.Int.{ℤ, pos, negsuc, to_int32}
use qslary.Base.Text.{Bytes}
use qslary.ByteArray.{ByteArray}

-- What a read did: it placed bytes in the caller's memory, or it returned -(code + 1).
pub data Transfer : Type 0 where
  moved : Bytes → Transfer
  failed : ℕ → Transfer

-- The `int` that the read returns.
abbrev pub result : Transfer → ℤ
result (moved bytes) = pos (length bytes)
result (failed code) = negsuc code

-- The bytes that it placed.
abbrev pub placed : Transfer → Bytes
placed (moved bytes) = bytes
placed (failed code) = []

-- The pure virtual functions. `write` returns how many of the bytes it took; the functions on byte
-- arrays may fault.
pub record Stream (S : Type 0) : Type 0 where
  pub read : ℕ → S → Transfer × S
  pub write : Bytes → S → ℤ × S
  pub read_array : ℕ → ByteArray → S → Option (ℤ × ByteArray × S)
  pub write_array : ℕ → ByteArray → S → Option (ℤ × ByteArray × S)
  pub close : S → S

-- What a fixed-size transfer gives: the returned `int`, the bytes that were transferred, in order,
-- and the stream.
pub record Done (S : Type 0) : Type 0 where
  pub returned : ℤ
  pub bytes : Bytes
  pub stream : S

-- What one round of `readFixSize` does after `read`, with the loop's next round as an argument.
read_round :
    {S : Type 0} → (ℕ → Bytes → S → Option (Done S)) → ℕ → Bytes → Transfer × S → Option (Done S)
read_round next left got (moved [], s) = some (record { returned = pos 0; bytes = got; stream = s })
read_round next left got (moved (c ∷ cs), s) = next (left - length (c ∷ cs)) (got ++ (c ∷ cs)) s
read_round next left got (failed code, s) =
    some (record { returned = negsuc code; bytes = got; stream = s })

-- `while (left > 0)`; `none` means that the fuel ran out. `total` is the returned `length`.
read_loop : {S : Type 0} → Stream S → ℕ → ℕ → ℕ → Bytes → S → Option (Done S)
unfolding read_round
read_loop v total zero left got s = none
read_loop v total (suc fuel) left got s =
    let round =
      read_round (λ left' got' s'. read_loop v total fuel left' got' s') left got (v.read left s) in
    if left == 0
    then some (record { returned = to_int32 total; bytes = got; stream = s })
    else round

-- `Stream::readFixSize(void*, size_t)`. A length past 2^63 is negative as an `int64_t`.
pub read_fix_size : {S : Type 0} → Stream S → ℕ → S → Option (Done S)
unfolding read_loop
read_fix_size v length s =
    if ltb length (2 ^ 63)
    then read_loop v length (suc length) length [] s
    else some (record { returned = to_int32 length; bytes = []; stream = s })

-- What one round of `writeFixSize` does after `write` took a part of `rest`.
write_round :
    {S : Type 0} → (Bytes → Bytes → S → Option (Done S)) → Bytes → Bytes → ℤ × S → Option (Done S)
write_round next rest sent (pos zero, s) =
    some (record { returned = pos 0; bytes = sent; stream = s })
write_round next rest sent (pos (suc n), s) = next (drop (suc n) rest) (sent ++ take (suc n) rest) s
write_round next rest sent (negsuc code, s) =
    some (record { returned = negsuc code; bytes = sent; stream = s })

-- `rest` is the buffer from `offset` on, `left` bytes.
write_loop : {S : Type 0} → Stream S → ℕ → ℕ → Bytes → Bytes → S → Option (Done S)
unfolding write_round
write_loop v total zero rest sent s = none
write_loop v total (suc fuel) rest sent s =
    let round =
      write_round (λ rest' sent' s'. write_loop v total fuel rest' sent' s') rest sent
        (v.write rest s) in
    if length rest == 0
    then some (record { returned = to_int32 total; bytes = sent; stream = s })
    else round

-- `Stream::writeFixSize(const void*, size_t)` of a whole buffer.
pub write_fix_size : {S : Type 0} → Stream S → Bytes → S → Option (Done S)
unfolding write_loop
write_fix_size v buffer s = write_loop v (length buffer) (suc (length buffer)) buffer [] s
