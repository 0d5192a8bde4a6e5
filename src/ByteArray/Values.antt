-- ===== src/ByteArray/Values.antt =====
-- Fixed-size values through a byte array: `WriteInt` and `ReadInt`.
use native.Mathlib.Nat.{pow-suc}
use qslary.Base.{
  ℕ, zero, suc, ◌+◌, ◌/◌, ◌^◌, ◌≤◌, ◌<◌, ◌≡◌, refl, ap, ◌∙◌, some, [], ◌++◌, append-nil, length,
  take, drop, take-all, drop-all, arith,
}
use qslary.Base.Fault.{◌>>=◌}
use qslary.Base.Text.{Bytes}
use qslary.ByteArray.{ByteArray, to_memory, of_memory, write_int, read_int}
use qslary.ByteArray.Queue.{IsQueue, contents, write-contents}
use qslary.ByteArray.Reads.{read-contents}

pub length-to_memory : (k v : ℕ) → length (to_memory k v) ≡ k
unfolding to_memory
length-to_memory zero v = refl
length-to_memory (suc k) v = ap suc (length-to_memory k (v / 256))

pub of_memory-to_memory : (k v : ℕ) → v < 256 ^ k → of_memory (to_memory k v) ≡ v
unfolding to_memory of_memory
of_memory-to_memory zero v h = omega arith
of_memory-to_memory (suc k) v h =
    omega (arith, pow-suc 256 k, of_memory-to_memory k (v / 256) (omega (arith, pow-suc 256 k)))

-- `ReadInt` gets back, on an array with nothing else to read, the value that `WriteInt` put in,
-- whatever the uninitialised result held, for every value of k bytes; the array is empty again.
pub read_int-write_int :
    (k v : ℕ) (junk : Bytes) (b : ByteArray)
    → IsQueue b
    → contents b ≡ []
    → k ≤ 8
    → v < 256 ^ k
    → length junk ≡ k
    → b.write_index + k < 2 ^ 62
    → (b' : ByteArray) × ((do (n, written) ← write_int k v b; read_int junk written) ≡ some (v, b'))
      × IsQueue b'
      × (contents b' ≡ [])
unfolding write_int read_int
read_int-write_int k v junk b q empty small fits size near =
    let len = length-to_memory k v in
    let (b', wrote, q', e) = write-contents (to_memory k v) b q (omega arith) (omega arith) in
    let (b'', got, q'', rest) = read-contents (length junk) b' q' in
    let e' : contents b' ≡ to_memory k v = e ∙ ap (λ xs. xs ++ to_memory k v) empty in
    let all : take (length junk) (contents b') ≡ to_memory k v =
      ap (take (length junk)) e' ∙ take-all (length junk) (to_memory k v) (omega arith) in
    let value : of_memory (
          take (length junk) (contents b') ++ drop (length (take (length junk) (contents b'))) junk)
        ≡ v =
      rw (all, drop-all (length (to_memory k v)) junk (omega arith), append-nil)
        (of_memory-to_memory k v fits) in
    (
      b'',
      rw wrote (rw got (ap (λ (t : ℕ). some (t, b'')) value)),
      q'',
      rest ∙ ap (drop (length junk)) e' ∙ drop-all (length junk) (to_memory k v) (omega arith),
    )
