-- ===== src/Http/Session/Body.antt =====
-- The body of a request: how many bytes it has and where they come from.
use qslary.Base.{
  Bool, refl, ℕ, ◌+◌, ◌-◌, ◌≤◌, ◌<◌, ◌≡◌, sym, ap, subst, ◌∙◌, ◌⊎◌, inl, inr, true, some, [], ◌++◌,
  ◌==◌, ==_iff, ltb, ltb→lt, ltb→ge, Bool-cases, and_right, length, take, drop, length-append,
  length-take, take-append_left, take-append_right, take-all, drop-append_right, arith, false,
}
use qslary.Base.Int.{is_positive}
use qslary.Base.Text.{Bytes}
use qslary.Stream.{Stream, Done, read_fix_size}
use qslary.Stream.FixSize.{Carries, Complete, CutShort, read_fix_size-ReadEnds}
use qslary.Http.Session.{BodyRead, cut, thrown, whole, has_body, read_body}

module _ {S : Type 0} (v : Stream S) (resizes : ℕ → Bool) (c : Carries v) where
  -- The body is the next `n` bytes behind the head, from the buffer first and then from the stream,
  -- and the stream goes on behind what was read of it. It is cut only if the buffer had too little and
  -- a read failed before all of it came, and then the stream is closed. An exception comes exactly from
  -- a length that a string cannot have, before anything is read.
  abbrev pub IsBody : ℕ → Bytes → S → BodyRead S → Type 0
  IsBody n left s (cut s') =
      (length left < n)
      × ((d : Done S) × (read_fix_size v (n - length left) s ≡ some d)
          × (is_positive d.returned ≡ false)
          × (s' ≡ v.close d.stream))
  IsBody n left s (thrown s') = (resizes n ≡ false) × (s' ≡ s)
  IsBody n left s (whole body s') =
      (resizes n ≡ true)
      × (length body ≡ n)
      × (body ≡ take n (left ++ c.incoming s))
      × (c.incoming s' ≡ drop (n - length left) (c.incoming s))

  whole_transfer :
      (n : ℕ) (d : Done S)
      → is_positive d.returned ≡ true
      → Complete n d ⊎ CutShort n d
      → length d.bytes ≡ n
  whole_transfer n d h (inl done) = done.1
  whole_transfer n d h (inr (less, inl e)) = ground arith
  whole_transfer n d h (inr (less, inr (code, e))) = ground arith

  joined :
      (n : ℕ) (left got rest : Bytes)
      → n ≡ length left + length got
      → left ++ got ≡ take n (left ++ (got ++ rest))
  joined n left got rest e = sym (
      take-append_right n left (got ++ rest) (length got) e
      ∙ ap (λ xs. left ++ xs)
          (take-append_left (length got) got rest (omega arith)
            ∙ take-all (length got) got (omega arith)))

  from_buffer :
      (n : ℕ) (left : Bytes) (s : S)
      → resizes n ≡ true
      → n ≤ length left
      → IsBody n left s (whole (take n left) s)
  from_buffer n left s fits h = (
    fits,
    omega (arith, length-take n left),
    sym (take-append_left n left (c.incoming s) h),
    (let e : n - length left ≡ 0 = omega arith in rw e),
  )

  from_stream :
      (n : ℕ) (left : Bytes) (s : S) (d : Done S)
      → resizes n ≡ true
      → length left < n
      → is_positive d.returned ≡ true
      → Complete (n - length left) d ⊎ CutShort (n - length left) d
      → c.incoming s ≡ d.bytes ++ c.incoming d.stream
      → IsBody n left s (whole (left ++ d.bytes) d.stream)
  from_stream n left s d fits h ok ends e =
      let size = whole_transfer (n - length left) d ok ends in
      (
        fits,
        omega (arith, length-append left d.bytes),
        rw e (joined n left d.bytes (c.incoming d.stream) (omega arith)),
        rw e (
            sym
              (drop-append_right (n - length left) d.bytes (c.incoming d.stream) 0 (omega arith))),
      )

  read_fitting :
      (n : ℕ) (left : Bytes) (s : S)
      → has_body n ≡ true
      → resizes n ≡ true
      → (b : BodyRead S) × (read_body v resizes n left s ≡ some b) × IsBody n left s b
  unfolding read_body
  read_fitting n left s h fits = elim (Bool-cases (ltb n (length left))) [
    | inl short ↦ (
      whole (take n left) s,
      rw (h, fits, short),
      from_buffer n left s fits (omega (arith, ltb→lt _ _ short)),
    )
    | inr long ↦ elim (Bool-cases (n == length left)) [
      | inl same ↦
          let e = (==_iff n (length left)).0 same in
          (
            whole left s,
            rw (h, fits, long, same),
            subst (λ xs. IsBody n left s (whole xs s)) (take-all n left (omega arith))
                (from_buffer n left s fits (omega arith)),
          )
      | inr more ↦
          let few : length left < n = ground (arith, ltb→ge _ _ long) in
          let (d, got, ends, front) =
            read_fix_size-ReadEnds v c (n - length left) s
              (omega (arith, ltb→lt _ _ (and_right (ltb 0 n) _ h))) in
          elim (Bool-cases (is_positive d.returned)) [
            | inl ok ↦ (
              whole (left ++ d.bytes) d.stream,
              rw (h, fits, long, more, got, ok),
              from_stream n left s d fits few ok ends front,
            )
            | inr bad ↦ (
              cut (v.close d.stream),
              rw (h, fits, long, more, got, bad),
              (few, (d, got, bad, refl)),
            )
          ]
    ]
  ]

  -- Reading a body of a positive content length returns. If a string cannot have that length it ends
  -- with an exception before anything is read. Otherwise it gives the next bytes behind the head, as
  -- many as announced, or, where the buffer had too few of them and the read of the others returned 0
  -- or an error, a stream that was closed.
  pub read_body-IsBody :
      (n : ℕ) (left : Bytes) (s : S)
      → has_body n ≡ true
      → (b : BodyRead S) × (read_body v resizes n left s ≡ some b) × IsBody n left s b
  unfolding read_body
  read_body-IsBody n left s h = elim (Bool-cases (resizes n)) [
    | inl fits ↦ read_fitting n left s h fits
    | inr big ↦ (thrown s, rw (h, big) refl, (big, refl))
  ]

-- With no positive content length nothing is read.
pub read_body-none :
    {S : Type 0} (v : Stream S) (resizes : ℕ → Bool) (n : ℕ) (left : Bytes) (s : S)
    → has_body n ≡ false
    → read_body v resizes n left s ≡ some (whole [] s)
unfolding read_body
read_body-none v resizes n left s h = rw h
