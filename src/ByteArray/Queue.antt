-- ===== src/ByteArray/Queue.antt =====
-- A byte array as a queue of bytes: what can be read is the part between the two indices.
use qslary.Base.{
  false, leb, ◌&&◌, ℕ, ◌+◌, ◌-◌, ◌%◌, ◌^◌, ◌≤◌, ◌<◌, ◌≡◌, refl, ap, ◌∙◌, some, ◌++◌, ltb,
  if◌then◌else◌, ltb→ge, Bool-cases, inl, inr, length, arith,
}
use qslary.Base.Int.{u64_mod}
use qslary.Base.Text.{Bytes}
use qslary.Base.Memory.{
  resize, slice, length-slice, slice-store, slice-store_self, load_lem, stored, store_lem, resized,
  resize_lem, length-stored, length-resized, slice-resized,
}
use qslary.ByteArray.{
  ByteArray, readable_size, writeable_size, prependable_size, move_to_front, make_space, write,
  write_at, overlaps,
}

-- The indices are in order and in the buffer, whose length leaves room for the size arithmetic.
pub record IsQueue (b : ByteArray) : Type 0 where
  pub ordered : b.read_index ≤ b.write_index
  pub inside : b.write_index ≤ length b.buffer
  pub bounded : length b.buffer < 2 ^ 62

-- What the array holds for its readers.
abbrev pub contents : ByteArray → Bytes
contents b = slice b.read_index b.write_index b.buffer

pub readable_size_lem : (b : ByteArray) → IsQueue b → readable_size b ≡ b.write_index - b.read_index
unfolding readable_size
readable_size_lem b q = omega arith

writeable_size_lem :
    (b : ByteArray) → IsQueue b → writeable_size b ≡ length b.buffer - b.write_index
unfolding writeable_size
writeable_size_lem b q = omega arith

pub readable_size-contents : (b : ByteArray) → IsQueue b → readable_size b ≡ length (contents b)
readable_size-contents b q =
    omega (arith, readable_size_lem b q, length-slice b.read_index b.write_index b.buffer)

-- `n` more bytes fit behind the write index.
pub record Fits (n : ℕ) (b b' : ByteArray) : Type 0 where
  pub queue : IsQueue b'
  pub room : b'.write_index + n ≤ length b'.buffer
  pub same : contents b' ≡ contents b

grow-Fits :
    (n : ℕ) (b : ByteArray)
    → IsQueue b
    → b.write_index + n < 2 ^ 62
    → (resize ((b.write_index + n) % u64_mod) b.buffer
        ≡ some (resized (b.write_index + n) b.buffer))
      × Fits n b (record b { buffer = resized (b.write_index + n) b.buffer })
grow-Fits n b q k =
    let e : (b.write_index + n) % u64_mod ≡ b.write_index + n = omega arith in
    let len = length-resized (b.write_index + n) b.buffer in
    (
      rw e (resize_lem (b.write_index + n) b.buffer (omega arith)),
      record {
        queue = record { ordered = q.ordered; inside = omega arith; bounded = omega arith };
        room = omega arith;
        same =
            slice-resized b.read_index b.write_index (b.write_index + n) b.buffer q.ordered
              (omega arith) q.inside;
      },
    )

-- The array after the readable bytes have moved to the head.
abbrev moved : ByteArray → ByteArray
moved b = record {
  buffer = stored 16 (contents b) b.buffer;
  read_index = 16;
  write_index = 16 + length (contents b);
}

move-Fits :
    (n : ℕ) (b : ByteArray)
    → IsQueue b
    → n + 16 ≤ b.read_index + (length b.buffer - b.write_index)
    → overlaps b ≡ false
    → (move_to_front b ≡ some (moved b)) × Fits n b (moved b)
unfolding move_to_front
move-Fits n b q k apart =
    let len = length-slice b.read_index b.write_index b.buffer q.ordered q.inside in
    let fits : 16 + length (contents b) ≤ length b.buffer = omega arith in
    let same_length = length-stored 16 (contents b) b.buffer fits in
    (
      ground (
        arith,
        load_lem b.read_index (b.write_index - b.read_index) b.buffer,
        store_lem 16 (contents b) b.buffer,
        readable_size_lem b q,
      ),
      record {
        queue = record { ordered = omega arith; inside = omega arith; bounded = omega arith };
        room = omega arith;
        same = slice-store_self 16 (contents b) _ b.buffer (omega arith);
      },
    )

-- Where n bytes fit already, `MakeSpace(n)` must not meet readable bytes that start inside the head and
-- go on behind it. Afterwards the bytes that can be read are the same and n more fit.
pub make_space-Fits :
    (n : ℕ) (b : ByteArray)
    → IsQueue b
    → n < 2 ^ 61
    → b.write_index + n < 2 ^ 62
    → (leb n (writeable_size b) && overlaps b) ≡ false
    → (b' : ByteArray) × (make_space n b ≡ some b') × Fits n b b'
unfolding make_space
make_space-Fits n b q h k apart =
    elim (Bool-cases
      (ltb ((prependable_size b + writeable_size b) % u64_mod) ((n + 16) % u64_mod))) [
        | inl full ↦ (
          record b { buffer = resized (b.write_index + n) b.buffer },
          rw (full, (grow-Fits n b q k).0),
          (grow-Fits n b q k).1,
        )
        | inr free ↦
            let fits =
              move-Fits n b q (omega (arith, ltb→ge _ _ free, writeable_size_lem b q))
                (ground (arith, writeable_size_lem b q)) in
            (moved b, rw free fits.0, fits.1)
      ]

write_at-Fits :
    (bytes : Bytes) (b : ByteArray)
    → IsQueue b
    → b.write_index + length bytes ≤ length b.buffer
    → (b' : ByteArray) × (write_at bytes b ≡ some (length bytes, b'))
      × IsQueue b'
      × (contents b' ≡ contents b ++ bytes)
unfolding write_at
write_at-Fits bytes b q room =
    let same_length = length-stored b.write_index bytes b.buffer room in
    (
      record {
        buffer = stored b.write_index bytes b.buffer;
        read_index = b.read_index;
        write_index = b.write_index + length bytes;
      },
      ground (arith, store_lem b.write_index bytes b.buffer room),
      record { ordered = omega arith; inside = omega arith; bounded = omega arith },
      slice-store b.read_index b.write_index bytes _ b.buffer q.ordered q.inside,
    )

module _ (bytes : Bytes) (b : ByteArray) (q : IsQueue b) (small : length bytes < 2 ^ 61)
    (near : b.write_index + length bytes < 2 ^ 62) where
  prepare-Fits :
      (b' : ByteArray) × ((if ltb (writeable_size b) (length bytes)
          then make_space (length bytes) b
          else some b)
        ≡ some b')
      × Fits (length bytes) b b'
  prepare-Fits = elim (Bool-cases (ltb (writeable_size b) (length bytes))) [
    | inl short ↦
        let (b', made, fits) = make_space-Fits (length bytes) b q small near (ground arith) in
        (b', rw short made, fits)
    | inr long ↦ (
      b,
      rw long,
      record {
        queue = q;
        room = omega (arith, ltb→ge _ _ long, writeable_size_lem b q, q.inside);
        same = refl;
      },
    )
  ]

  -- `Write` never touches memory outside the buffer: for a well-formed array and fewer than 2^61
  -- bytes it succeeds, returns their number, keeps the array well-formed and appends the bytes to
  -- what can be read.
  pub write-contents :
      (b' : ByteArray) × (write bytes b ≡ some (length bytes, b'))
      × IsQueue b'
      × (contents b' ≡ contents b ++ bytes)
  unfolding write
  write-contents =
      let (b', made, fits) = prepare-Fits in
      let (b'', wrote, q', e) = write_at-Fits bytes b' fits.queue fits.room in
      (b'', rw (made, wrote), q', e ∙ ap (λ xs. xs ++ bytes) fits.same)
