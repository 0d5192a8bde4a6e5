-- ===== src/ByteArray.antt =====
-- net/ByteArray.h and net/ByteArray.cc: a growing byte buffer with a read and a write index.
-- `size_t` arithmetic wraps at 2 ^ 64. An access out of the buffer is a fault, `none`.
pub mod Queue
pub mod Reads
pub mod Values
pub mod Zigzag
use qslary.Base.{
  ℕ, zero, suc, ◌+◌, ◌-◌, ◌*◌, ◌/◌, ◌%◌, ◌^◌, Bool, true, not, ◌&&◌, Option, some, [], ◌∷◌, ◌++◌,
  ltb, leb, ◌==◌, if◌then◌else◌, length, drop, take, replicate, arith,
}
use qslary.Base.Int.{u64_mod}
use qslary.Base.Text.{Bytes}
use qslary.Base.Fault.{◌>>=◌, ◌>>◌, require}
use qslary.Base.Memory.{load, store, resize}

abbrev pub pre_head_size : ℕ
pre_head_size = 16

pub record ByteArray : Type 0 where
  pub buffer : Bytes
  pub read_index : ℕ
  pub write_index : ℕ

-- The constructor sets the buffer only: the indices are what the memory held, `r` and `w`.
pub create : ℕ → ℕ → ℕ → ByteArray
create base_size r w = record { buffer = replicate base_size 0; read_index = r; write_index = w }

unfoldable pub clear : ByteArray → ByteArray
clear b = record { buffer = []; read_index = 0; write_index = 0 }

unfoldable pub readable_size : ByteArray → ℕ
readable_size b = (b.write_index + u64_mod - b.read_index) % u64_mod

unfoldable pub writeable_size : ByteArray → ℕ
writeable_size b = (length b.buffer + u64_mod - b.write_index) % u64_mod

unfoldable pub prependable_size : ByteArray → ℕ
prependable_size b = b.read_index

-- Whether the copy to the head goes up onto bytes that are still to be copied: the end of the readable
-- bytes is inside the bytes that are written.
abbrev pub overlaps : ByteArray → Bool
overlaps b = ltb b.read_index pre_head_size && ltb pre_head_size b.write_index

-- `std::copy` of the readable bytes to the head, then the new indices. Where it would go up onto itself
-- `std::copy` is undefined, which is a fault. A copy onto the same place changes nothing.
move_to_front : ByteArray → Option ByteArray
move_to_front b = do
  let readable = readable_size b
  require (leb b.read_index b.write_index)
  require (not (overlaps b))
  bytes ← load b.read_index (b.write_index - b.read_index) b.buffer
  moved ← store pre_head_size bytes b.buffer
  some (record {
    buffer = moved;
    read_index = pre_head_size;
    write_index = (pre_head_size + readable) % u64_mod;
  })

pub make_space : ℕ → ByteArray → Option ByteArray
unfolding readable_size writeable_size prependable_size move_to_front
make_space size b =
    if ltb ((prependable_size b + writeable_size b) % u64_mod) ((size + pre_head_size) % u64_mod)
    then (do
      grown ← resize ((b.write_index + size) % u64_mod) b.buffer
      some (record b { buffer = grown }))
    else move_to_front b

-- `struct iovec`, its base as an offset into the buffer.
pub record Iovec : Type 0 where
  pub iov_base : ℕ
  pub iov_len : ℕ

unfoldable pub get_read_buffer : ℕ → ByteArray → Iovec × ByteArray
unfolding readable_size
get_read_buffer len b =
    let real_size = if ltb (readable_size b) len then readable_size b else len in
    (
      record { iov_base = b.read_index; iov_len = real_size },
      record b { read_index = (b.read_index + real_size) % u64_mod },
    )

unfoldable pub get_write_buffer : ℕ → ByteArray → Option (Iovec × ByteArray)
get_write_buffer len b = do
  b' ← make_space len b
  some (record { iov_base = b'.write_index; iov_len = len }, b')

-- The bytes that reach the caller's memory, and the array. Their number is the result.
pub read : ℕ → ByteArray → Option (Bytes × ByteArray)
unfolding readable_size
read size b =
    let real_read = if ltb (readable_size b) size then readable_size b else size in
    if real_read == 0 then some ([], b) else (do
      bytes ← load b.read_index real_read b.buffer
      some (bytes, record b { read_index = (b.read_index + real_read) % u64_mod }))

write_at : Bytes → ByteArray → Option (ℕ × ByteArray)
write_at bytes b = do
  buffer' ← store b.write_index bytes b.buffer
  some (
    length bytes,
    record b { buffer = buffer'; write_index = (b.write_index + length bytes) % u64_mod },
  )

pub write : Bytes → ByteArray → Option (ℕ × ByteArray)
unfolding writeable_size write_at
write bytes b = do
  b' ← (if ltb (writeable_size b) (length bytes) then make_space (length bytes) b else some b)
  write_at bytes b'

-- The bytes of a value in memory, on a little-endian host.
pub to_memory : ℕ → ℕ → Bytes
to_memory zero v = []
to_memory (suc k) v = v % 256 ∷ to_memory k (v / 256)

pub of_memory : Bytes → ℕ
of_memory [] = 0
of_memory (c ∷ cs) = c + 256 * of_memory cs

-- `WriteInt<T>` with sizeof(T) = k.
pub write_int : ℕ → ℕ → ByteArray → Option (ℕ × ByteArray)
write_int k val b = write (to_memory k val) b

-- `ReadInt<T>`; `junk` is what the uninitialised `tmp` held, k bytes.
pub read_int : Bytes → ByteArray → Option (ℕ × ByteArray)
read_int junk b = do
  (bytes, b') ← read (length junk) b
  some (of_memory (bytes ++ drop (length bytes) junk), b')

-- `toString`: reads everything that can be read.
pub to_string : ByteArray → Option (Bytes × ByteArray)
unfolding readable_size
to_string b = if readable_size b == 0 then some ([], b) else read (readable_size b) b
