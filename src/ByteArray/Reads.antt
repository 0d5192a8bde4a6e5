-- ===== src/ByteArray/Reads.antt =====
-- What is read from a byte array: the front of what can be read, and the rest stays.
use qslary.Base.{
  ℕ, zero, suc, ◌+◌, ◌-◌, ◌%◌, ◌≤◌, ◌≡◌, refl, ap, sym, ◌∙◌, ◌==◌, take-take, ltb→lt, ==_iff,
  Option, some, [], ltb, if◌then◌else◌, drop-take, drop-drop, take-all, drop-all, ltb→ge,
  Bool-cases, inl, inr, take, drop, arith,
}
use qslary.Base.Int.{u64_mod}
use qslary.Base.Fault.{◌>>=◌}
use qslary.Base.Text.{Bytes}
use qslary.Base.Memory.{load, slice, load_lem}
use qslary.ByteArray.{ByteArray, readable_size, read, to_string, get_read_buffer}
use qslary.ByteArray.Queue.{IsQueue, contents, readable_size_lem, readable_size-contents}

pub slice-skip :
    (from to n : ℕ) (buf : Bytes)
    → n ≤ to - from
    → slice (from + n) to buf ≡ drop n (slice from to buf)
slice-skip from to n buf h =
    rw (drop-take n (to - from) (drop from buf), drop-drop n from (from + n) buf refl)
      (ap (λ k. take k (drop (from + n) buf)) (omega arith))

abbrev pub advanced : ℕ → ByteArray → ByteArray
advanced k b = record b { read_index = b.read_index + k }

-- The read of `k` of the readable bytes.
pub load-contents :
    (k : ℕ) (b : ByteArray)
    → IsQueue b
    → k ≤ b.write_index - b.read_index
    → (load b.read_index k b.buffer ≡ some (take k (contents b)))
      × ((b.read_index + k) % u64_mod ≡ b.read_index + k)
load-contents k b q h = (
  load_lem b.read_index k b.buffer (omega arith)
      ∙ ap some (sym (take-take k (b.write_index - b.read_index) (drop b.read_index b.buffer) h)),
  omega arith,
)

pub advanced-IsQueue :
    (k : ℕ) (b : ByteArray) → IsQueue b → k ≤ b.write_index - b.read_index → IsQueue (advanced k b)
advanced-IsQueue k b q h = record { ordered = omega arith; inside = q.inside; bounded = q.bounded }

-- What `Read` transfers when it may take `k` bytes.
read_part : ℕ → ByteArray → Option (Bytes × ByteArray)
read_part k b = if k == 0 then some ([], b) else (do
  bytes ← load b.read_index k b.buffer
  some (bytes, record b { read_index = (b.read_index + k) % u64_mod }))

read_part-contents :
    (k : ℕ) (b : ByteArray)
    → IsQueue b
    → k ≤ b.write_index - b.read_index
    → (b' : ByteArray) × (read_part k b ≡ some (take k (contents b), b'))
      × IsQueue b'
      × (contents b' ≡ drop k (contents b))
unfolding read_part
read_part-contents zero b q h = (b, refl, q, refl)
read_part-contents (suc k) b q h =
    let (loaded, small) = load-contents (suc k) b q h in
    (
      advanced (suc k) b,
      rw (loaded, small) (ground arith),
      advanced-IsQueue (suc k) b q h,
      slice-skip b.read_index b.write_index (suc k) b.buffer h,
    )

-- `Read(n)` on a well-formed array succeeds, takes the first n readable bytes, or all of them if
-- there are fewer, and leaves the others readable in a well-formed array.
pub read-contents :
    (n : ℕ) (b : ByteArray)
    → IsQueue b
    → (b' : ByteArray) × (read n b ≡ some (take n (contents b), b'))
      × IsQueue b'
      × (contents b' ≡ drop n (contents b))
unfolding read read_part
read-contents n b q = elim (Bool-cases (ltb (readable_size b) n)) [
  | inl short ↦
      let len = readable_size-contents b q in
      let (b', got, q', rest) =
        read_part-contents (readable_size b) b q (omega (arith, readable_size_lem b q)) in
      (
        b',
        rw short (
            got
            ∙ ap (λ xs. some (xs, b'))
                (take-all (readable_size b) (contents b) (omega arith)
                  ∙ sym (take-all n (contents b) (omega (arith, ltb→lt _ _ short))))),
        q',
        rest
            ∙ drop-all (readable_size b) (contents b) (omega arith)
            ∙ sym (drop-all n (contents b) (omega (arith, ltb→lt _ _ short))),
      )
  | inr long ↦
      let (b', got, q', rest) =
        read_part-contents n b q (omega (arith, ltb→ge _ _ long, readable_size_lem b q)) in
      (b', rw long got, q', rest)
]

-- `toString` on a well-formed array succeeds, returns all that can be read and leaves nothing.
pub to_string-contents :
    (b : ByteArray)
    → IsQueue b
    → (b' : ByteArray) × (to_string b ≡ some (contents b, b')) × IsQueue b' × (contents b' ≡ [])
unfolding to_string
to_string-contents b q = elim (Bool-cases (readable_size b == 0)) [
  | inl none_left ↦
      let empty : contents b ≡ [] =
        drop-all 0 (contents b)
          (omega (arith, (==_iff _ _).0 none_left, readable_size-contents b q)) in
      (b, rw (none_left, empty), q, empty)
  | inr some_left ↦
      let len = readable_size-contents b q in
      let (b', got, q', rest) = read-contents (readable_size b) b q in
      (
        b',
        rw some_left (
            got ∙ ap (λ xs. some (xs, b')) (take-all (readable_size b) (contents b) (omega arith))),
        q',
        rest ∙ drop-all (readable_size b) (contents b) (omega arith),
      )
]

-- `GetReadBuffer(n)` names the first n readable bytes, or all if there are fewer, and takes exactly
-- those off a well-formed array.
pub get_read_buffer-contents :
    (n : ℕ) (b : ByteArray)
    → IsQueue b
    → let (iov, b') = get_read_buffer n b in
      (load iov.iov_base iov.iov_len b.buffer ≡ some (take n (contents b)))
      × IsQueue b'
      × (contents b' ≡ drop n (contents b))
unfolding get_read_buffer
get_read_buffer-contents n b q = elim (Bool-cases (ltb (readable_size b) n)) [
  | inl short ↦
      let all = readable_size-contents b q in
      let fits : readable_size b ≤ b.write_index - b.read_index =
        omega (arith, readable_size_lem b q) in
      let (loaded, small) = load-contents (readable_size b) b q fits in
      rw (short, small)
        (
          loaded
              ∙ ap some (
                  take-all (readable_size b) (contents b) (omega arith)
                  ∙ sym (take-all n (contents b) (omega (arith, ltb→lt _ _ short)))),
          advanced-IsQueue (readable_size b) b q fits,
          slice-skip b.read_index b.write_index (readable_size b) b.buffer fits
              ∙ drop-all (readable_size b) (contents b) (omega arith)
              ∙ sym (drop-all n (contents b) (omega (arith, ltb→lt _ _ short))),
        )
  | inr long ↦
      let fits : n ≤ b.write_index - b.read_index =
        omega (arith, ltb→ge _ _ long, readable_size_lem b q) in
      let (loaded, small) = load-contents n b q fits in
      rw (long, small)
        (loaded, advanced-IsQueue n b q fits, slice-skip b.read_index b.write_index n b.buffer fits)
]
