-- ===== src/Base/Memory.antt =====
-- A block of bytes: what reads, writes, moves and `resize` do to it, faults included.
use mathlib.Core.Option.{Option, some}
use mathlib.Core.List.{◌++◌, append-nil}
use Prim.Native.Nat.{ℕ, ◌+◌, ◌-◌, ◌^◌, ◌≤◌, ◌<◌}
use mathlib.Core.Path.{◌≡◌}
use native.Mathlib.Omega.{arith}
use qslary.Base.Tests.{leb, ltb}
use qslary.Base.Lists.{
  length, take, drop, replicate, length-append, length-replicate, take-append_left, length-take,
  length-drop, take-append_right, drop-append_left, drop-append_right, drop-take, take-take,
}
use qslary.Base.Text.{Bytes}
use qslary.Base.Fault.{◌>>◌, require}

-- memcpy from `at`, n bytes.
unfoldable pub load : ℕ → ℕ → Bytes → Option Bytes
load at n buf = do require (leb (at + n) (length buf)); some (take n (drop at buf))

-- memcpy of `bs` to `at`.
unfoldable pub store : ℕ → Bytes → Bytes → Option Bytes
store at bs buf = do
  require (leb (at + length bs) (length buf))
  some (take at buf ++ (bs ++ drop (at + length bs) buf))

-- `vector::resize`: new bytes are zero; `length_error` past the largest size.
unfoldable pub resize : ℕ → Bytes → Option Bytes
resize n buf = do require (ltb n (2 ^ 63)); some (take n buf ++ replicate (n - length buf) 0)

take-length-append : (bs rest : Bytes) → take (length bs) (bs ++ rest) ≡ bs
take-length-append bs rest =
    rw (take-append_right (length bs) bs rest 0 (omega arith)) (append-nil bs)

-- The bytes between two indices.
abbrev pub slice : ℕ → ℕ → Bytes → Bytes
slice from to buf = take (to - from) (drop from buf)

pub length-slice :
    (from to : ℕ) (buf : Bytes)
    → from ≤ to
    → to ≤ length buf
    → length (slice from to buf) ≡ to - from
length-slice from to buf h k =
    omega (arith, length-take (to - from) (drop from buf), length-drop from buf)

-- A write just behind a slice appends to it.
pub slice-store :
    (from to : ℕ) (bs rest buf : Bytes)
    → from ≤ to
    → to ≤ length buf
    → slice from (to + length bs) (take to buf ++ (bs ++ rest)) ≡ slice from to buf ++ bs
slice-store from to bs rest buf h k = rw (
  drop-append_left from (take to buf) (bs ++ rest) (omega (arith, length-take to buf)),
  drop-take from to buf,
  take-append_right (to + length bs - from) (slice from to buf) (bs ++ rest) (length bs)
      (omega (arith, length-slice from to buf)),
  take-length-append bs rest,
)

pub slice-take :
    (from to n : ℕ) (buf : Bytes) → to ≤ n → slice from to (take n buf) ≡ slice from to buf
slice-take from to n buf h =
    rw (drop-take from n buf, take-take (to - from) (n - from) (drop from buf) (omega arith))

-- A write at `at` is read back there.
pub slice-store_self :
    (at : ℕ) (bs rest buf : Bytes)
    → at ≤ length buf
    → slice at (at + length bs) (take at buf ++ (bs ++ rest)) ≡ bs
slice-store_self at bs rest buf h =
    rw
      (
        drop-append_right at (take at buf) (bs ++ rest) 0 (omega (arith, length-take at buf)),
        (let e : at + length bs - at ≡ length bs = omega arith in e),
      )
      (take-length-append bs rest)

abbrev pub stored : ℕ → Bytes → Bytes → Bytes
stored at bs buf = take at buf ++ (bs ++ drop (at + length bs) buf)

abbrev pub resized : ℕ → Bytes → Bytes
resized n buf = take n buf ++ replicate (n - length buf) 0

-- Within bounds nothing faults.
pub load_lem :
    (at n : ℕ) (buf : Bytes) → at + n ≤ length buf → load at n buf ≡ some (take n (drop at buf))
unfolding load
load_lem at n buf h = ground arith

pub store_lem :
    (at : ℕ) (bs buf : Bytes)
    → at + length bs ≤ length buf
    → store at bs buf ≡ some (stored at bs buf)
unfolding store
store_lem at bs buf h = ground arith

pub resize_lem : (n : ℕ) (buf : Bytes) → n < 2 ^ 63 → resize n buf ≡ some (resized n buf)
unfolding resize
resize_lem n buf h = ground arith

pub length-stored :
    (at : ℕ) (bs buf : Bytes) → at + length bs ≤ length buf → length (stored at bs buf) ≡ length buf
length-stored at bs buf h = omega (
  arith,
  length-append (take at buf) (bs ++ drop (at + length bs) buf),
  length-append bs (drop (at + length bs) buf),
  length-take at buf,
  length-drop (at + length bs) buf,
)

pub length-resized : (n : ℕ) (buf : Bytes) → length (resized n buf) ≡ n
length-resized n buf = omega (
  arith,
  length-append (take n buf) (replicate (n - length buf) 0),
  length-take n buf,
  length-replicate {A = ℕ} (n - length buf) 0,
)

-- A `resize` keeps what lies below the new size.
pub slice-resized :
    (from to n : ℕ) (buf : Bytes)
    → from ≤ to
    → to ≤ n
    → to ≤ length buf
    → slice from to (resized n buf) ≡ slice from to buf
slice-resized from to n buf h k l =
    rw
      (
        drop-append_left from (take n buf) (replicate (n - length buf) 0)
            (omega (arith, length-take n buf)),
        drop-take from n buf,
      )
      (rw
        (take-append_left (to - from) (slice from n buf) (replicate (n - length buf) 0)
          (omega (arith, length-take (n - from) (drop from buf), length-drop from buf)))
        (take-take (to - from) (n - from) (drop from buf) (omega arith)))

-- A slice does not see what is written behind it.
pub slice-stored_below :
    (from to at : ℕ) (bs buf : Bytes)
    → from ≤ to
    → to ≤ at
    → at ≤ length buf
    → slice from to (stored at bs buf) ≡ slice from to buf
slice-stored_below from to at bs buf h k l =
    let rest = bs ++ drop (at + length bs) buf in
    rw
      (
        drop-append_left from (take at buf) rest (omega (arith, length-take at buf)),
        drop-take from at buf,
      )
      (rw
        (take-append_left (to - from) (slice from at buf) rest
          (omega (arith, length-take (at - from) (drop from buf), length-drop from buf)))
        (take-take (to - from) (at - from) (drop from buf) (omega arith)))
